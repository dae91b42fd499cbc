-- ===== src/Tests/Active.antt =====
-- The choice and the change of the active slave at concrete inputs.
use hoolock.Common.{◌≡◌, refl, [], ◌∷◌, none, some}
use Prim.Native.Nat.{compare, Ordering}
use hoolock.Bond.State.{Bonding, link_back}
use hoolock.Bond.Slaves.{each_from}
use hoolock.Bond.Active.{change_active_slave, find_best_slave, start_of}
use hoolock.Bond.Active.Best.{IsBest, find_best_slave-IsBest}
use hoolock.Bond.Active.Change.{Sets, change_active_slave-Sets}
use hoolock.Tests.Samples.{bond, extern, extern-ExternLaws, slave}

-- Both slaves come back up; the second one has less delay left.
abbrev returning : Bonding
returning = record bond {
  mem = λ p. elim (compare p 20) [
    | Ordering.eq ↦ slave 200 link_back
    | _ ↦ record (slave 100 link_back) { delay = 2 }
  ];
}

returning-start : start_of returning ≡ some 10
unfolding start_of
returning-start = refl

find_best_slave-IsBest_example :
    IsBest returning.mem 2 none (each_from 10 (10 ∷ 20 ∷ [])) (find_best_slave returning)
find_best_slave-IsBest_example = find_best_slave-IsBest returning 10 returning-start

change_active_slave-Sets_example : Sets bond (some 20) (change_active_slave extern 7 (some 20) bond)
change_active_slave-Sets_example =
    change_active_slave-Sets extern extern-ExternLaws 7 (some 20) bond

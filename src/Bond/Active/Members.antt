-- ===== src/Bond/Active/Members.antt =====
-- The choice of the active slave and the slave list, 27/bond_main.c.
use hoolock.Common.{ℕ, ◌≡◌, refl, sym, subst, List, Option, none, some, inl, inr}
use hoolock.Bond.State.{Bonding, Slave}
use hoolock.Bond.Slaves.{each_from}
use hoolock.Bond.Slaves.Walks.{OptIn, In-each_from, first_that-In}
use hoolock.Bond.Active.{
  Extern, find_best_slave, start_of, change_active_slave, select_active_slave,
}
use hoolock.Bond.Active.Best.{IsBest, is_usable, find_best_slave-IsBest}
use hoolock.Bond.Active.Steps.{Leaves}
use hoolock.Bond.Active.Change.{change_active_slave-Sets, select_active_slave-Sets}
use hoolock.Bond.Invariant.{ExternLaws, IsWellFormed, Keeps-IsWellFormed}

IsBest-OptIn :
    (m : ℕ → Slave) (t p : ℕ) (xs : List ℕ) (r : Option ℕ)
    → IsBest m t none (each_from p xs) r
    → OptIn r xs
IsBest-OptIn m t p xs r (inl (q, f, e)) =
    subst (λ o. OptIn o xs) (sym e)
      (In-each_from q p xs (first_that-In (is_usable m) (each_from p xs) q f).0)
IsBest-OptIn m t p xs r (inr (f, inl (e, n))) = subst (λ o. OptIn o xs) (sym e) tt
IsBest-OptIn m t p xs r (inr (f, inr (q, e, i, w, l, n))) =
    subst (λ o. OptIn o xs) (sym e) (In-each_from q p xs i)

-- With nowhere to start there is no best slave.
pub find_best_slave-none : (b : Bonding) → start_of b ≡ none → find_best_slave b ≡ none
unfolding find_best_slave
find_best_slave-none b e = rw (e, find_best_slave)

best_at : (b : Bonding) (o : Option ℕ) → start_of b ≡ o → OptIn (find_best_slave b) b.slaves
best_at b none e = subst (λ r. OptIn r b.slaves) (sym (find_best_slave-none b e)) tt
best_at b (some p) e =
    IsBest-OptIn b.mem b.params.updelay p b.slaves (find_best_slave b)
      (find_best_slave-IsBest b p e)

-- What `bond_find_best_slave` returns is NULL or a slave of the list.
pub find_best_slave-OptIn : (b : Bonding) → OptIn (find_best_slave b) b.slaves
find_best_slave-OptIn b = best_at b (start_of b) refl

pub Leaves-IsWellFormed : {b c : Bonding} → Leaves b c → IsWellFormed b → IsWellFormed c
Leaves-IsWellFormed {b} (k, e) w =
    Keeps-IsWellFormed k (subst (λ o. OptIn o b.slaves) (sym e) w.active_in) w

module _ (x : Extern) (laws : ExternLaws x) where
  -- `bond_select_active_slave` keeps the bond well-formed.
  pub select_active_slave-IsWellFormed :
      (now : ℕ) (b : Bonding) → IsWellFormed b → IsWellFormed (select_active_slave x now b)
  select_active_slave-IsWellFormed now b w =
      let s = select_active_slave-Sets x laws now b in
      Keeps-IsWellFormed s.0 (subst (λ o. OptIn o b.slaves) (sym s.1) (find_best_slave-OptIn b)) w

  -- `bond_change_active_slave` keeps the bond well-formed where its new slave is on the list.
  pub change_active_slave-IsWellFormed :
      (now : ℕ) (new : Option ℕ) (b : Bonding)
      → OptIn new b.slaves
      → IsWellFormed b
      → IsWellFormed (change_active_slave x now new b)
  change_active_slave-IsWellFormed now new b i w =
      let s = change_active_slave-Sets x laws now new b in
      Keeps-IsWellFormed s.0 (subst (λ o. OptIn o b.slaves) (sym s.1) i) w

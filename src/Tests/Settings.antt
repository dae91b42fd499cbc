-- ===== src/Tests/Settings.antt =====
-- bond_change_mtu and bond_set_multicast_list at concrete inputs.
use hoolock.Common.{ℕ, ◌≡◌, refl, [], ◌∷◌, true, none, some, In, if◌then◌else◌, ◌==◌, arith}
use hoolock.Bond.State.{einval}
use hoolock.Bond.Settings.{MtuDriver, dev_set_mtu, change_mtu}
use hoolock.Bond.Settings.Unwind.{applied, change_mtu-last}
use hoolock.Bond.Multicast.{set_multicast_list}
use hoolock.Bond.Multicast.Settled.{set_multicast_list-again}
use hoolock.Tests.Samples.{bond}

-- Drivers without `change_mtu`.
abbrev plain : MtuDriver
plain = record { is_present = λ d. true; change_mtu = λ d n. none }

-- The device at 200 refuses.
abbrev refusing : MtuDriver
refusing = record {
  is_present = λ d. true;
  change_mtu = λ d n. if d.ptr == 200 then some (einval, d.mtu) else none;
}

change_mtu-last_example :
    ((change_mtu refusing 9000 bond).0 ≡ (dev_set_mtu refusing 9000 (bond.mem 20).dev).0)
    × ((change_mtu refusing 9000 bond).1.dev.mtu ≡ 1500)
    × ((q : ℕ)
        → In q (10 ∷ [])
        → (change_mtu refusing 9000 bond).1.mem q ≡ applied (dev_set_mtu refusing 9000) bond q)
unfolding dev_set_mtu
change_mtu-last_example =
    change_mtu-last refusing 9000 20 (10 ∷ []) bond refl (omega arith) (omega arith) (refl, tt) refl

set_multicast_list-again_example :
    set_multicast_list 1 (set_multicast_list 1 bond) ≡ set_multicast_list 1 bond
set_multicast_list-again_example = set_multicast_list-again 1 bond (omega arith)

-- ===== src/Hoolock/Make.antt =====
-- bond_ioctl_make and bond_ioctl_hoolock_change_active of 27/bond_main.c.
pub mod Laws
use hoolock.Common.{
  ℕ, Bool, true, false, not, Option, none, some, same, List, [], ◌∷◌, if◌then◌else◌, ◌==◌,
}
use hoolock.Bond.State.{Bonding, Status, ok}
use hoolock.Bond.Slaves.{first_that, get_slave_by_dev}
use hoolock.Bond.Active.{Extern, change_active_slave}

-- The first slave of the list that is not the active one.
unfoldable pub first_other : Bonding → Option ℕ
unfolding first_that
first_other b = first_that (λ p. not (same (some p) b.curr_active_slave)) b.slaves

unfoldable pub switch_if : Extern → ℕ → Option ℕ → Bonding → Bonding
switch_if x now none b = b
switch_if x now (some p) b = change_active_slave x now (some p) b

-- `bond_ioctl_make`.
unfoldable pub make : Extern → ℕ → Bonding → Status × Bonding
unfolding first_other switch_if
make x now b = (ok, record (switch_if x now (first_other b) b) { buffer_mode = true })

-- `bond_ioctl_hoolock_change_active`: the loop looks for the slave of the device `d`.
unfoldable pub change_to : Extern → ℕ → ℕ → Bonding → Status × Bonding
unfolding switch_if get_slave_by_dev first_that
change_to x now d b =
    (ok, switch_if x now (first_that (λ p. same (some p) (get_slave_by_dev b d)) b.slaves) b)

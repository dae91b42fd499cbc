-- ===== src/Ioctl/Commands.antt =====
-- bond_do_ioctl of 27/bond_main.c, its second switch, for a slave device; bond_sethwaddr.
use hoolock.Common.{ℕ, Bool, Option, none, some, if◌then◌else◌}
use hoolock.Bond.State.{Bonding, NetDevice, Status, ok, eperm, enodev, eopnotsupp}
use hoolock.Bond.Enslave.{Services, Enslaved, refused, bond_enslave}
use hoolock.Bond.Release.{bond_release}
use hoolock.Hoolock.Make.{change_to}
use hoolock.Ioctl.{ioctl_change_active}

-- The commands of the second switch, each for its old and its new number.
pub data SlaveCommand : Type 0 where
  enslave release set_hwaddr change_active hoolock_test other_command : SlaveCommand

-- `bond_sethwaddr`.
unfoldable pub sethwaddr : NetDevice → Bonding → Bonding
sethwaddr d b = record b { dev = record (b.dev) { dev_addr = d.dev_addr } }

abbrev pub with_device : NetDevice → Status × Bonding → Enslaved
with_device d (st, b) = refused st b d

-- The `switch`, for the device that was found; `alloc` is the address that the allocator returns.
unfoldable pub run_command : Services → ℕ → Option ℕ → SlaveCommand → NetDevice → Bonding → Enslaved
unfolding sethwaddr bond_enslave bond_release ioctl_change_active change_to
run_command v now alloc enslave d b = bond_enslave v now alloc d b
run_command v now alloc release d b = bond_release v now d b
run_command v now alloc set_hwaddr d b = refused ok (sethwaddr d b) d
run_command v now alloc change_active d b = with_device d (ioctl_change_active v.extern now d b)
run_command v now alloc hoolock_test d b = with_device d (change_to v.extern now d.ptr b)
run_command v now alloc other_command d b = refused eopnotsupp b d

-- From the test of the capability on, with what dev_get_by_name finds.
unfoldable pub do_command :
    Services → ℕ → Option ℕ → Bool → SlaveCommand → Option NetDevice → Bonding → Status × Bonding
unfolding run_command
do_command v now alloc capable c none b = (if capable then enodev else eperm, b)
do_command v now alloc capable c (some d) b =
    let r = run_command v now alloc c d b in if capable then (r.status, r.bond) else (eperm, b)

-- ===== src/Ioctl.antt =====
-- The ioctls of 27/bond_main.c that bond_do_ioctl answers without a slave device:
-- SIOCGMIIPHY, SIOCGMIIREG, bond_info_query, bond_slave_info_query and those of hoolock; and
-- bond_ioctl_change_active.
pub mod Answers
pub mod Changes
pub mod Commands
use hoolock.Common.{
  ℕ, List, [], ◌∷◌, Bool, true, false, ◌&&◌, not, Option, none, some, if◌then◌else◌, ◌==◌, same,
  is_some, length, ℤ, pos, negsuc,
}
use hoolock.Bond.State.{
  Bonding, Slave, NetDevice, Mode, LinkState, SlaveState, SkBuff, Status, ok, einval, enodev,
  efault,
}
use hoolock.Bond.Slaves.{uses_primary, is_up, is_link_up, first_that, get_slave_by_dev}
use hoolock.Bond.Active.{Extern, change_active_slave}
use hoolock.Net.Receive.{Network, Rx}
use hoolock.Hoolock.Make.{make}
use hoolock.Hoolock.Break.{Outcome, finished, deadlocked, null_active, out_of_fuel, break}
use hoolock.Transmit.{nth_slave}

-- `ifslave`, as it is filled in, and `ifbond`.
pub record SlaveInfo : Type 0 where
  pub slave_name : List ℕ
  pub link : LinkState
  pub state : SlaveState
  pub link_failure_count : ℕ

pub record BondInfo : Type 0 where
  pub bond_mode : Mode
  pub miimon : ℕ
  pub num_slaves : ℕ

abbrev pub info_of : Slave → SlaveInfo
info_of s = record {
  slave_name = s.dev.name;
  link = s.link;
  state = s.state;
  link_failure_count = s.link_failure_count;
}

-- `bond_info_query`.
unfoldable pub info_query : Bonding → BondInfo
info_query b = record {
  bond_mode = b.params.mode;
  miimon = b.params.miimon;
  num_slaves = length b.slaves;
}

-- `bond_slave_info_query`.
abbrev pub or_enodev : (ℕ → Slave) → Option ℕ → Status × Option SlaveInfo
or_enodev m none = (enodev, none)
or_enodev m (some p) = (ok, some (info_of (m p)))

unfoldable pub slave_info_query : Bonding → ℤ → Status × Option SlaveInfo
unfolding nth_slave
slave_info_query b (negsuc n) = (enodev, none)
slave_info_query b (pos n) = or_enodev b.mem (nth_slave n b.slaves)

-- The commands, each for its old and its new number.
pub data Command : Type 0 where
  mii_phy mii_reg query_bond query_slave get_active get_passive hoolock_make : Command
  hoolock_break slave_command : Command

-- What comes with a command: the register of `if_mii`, which can be NULL, whether the copies from
-- and to the user's memory succeed, and the number of a slave.
pub record Request : Type 0 where
  pub mii_reg_num : Option ℕ
  pub copies_in : Bool
  pub copies_out : Bool
  pub slave_id : ℤ

-- What goes back to the user; of `mii_ioctl_data`, whether `phy_id` is set to 0, and `val_out`.
pub data Reply : Type 0 where
  no_reply : Reply
  mii_value : Bool → Option ℕ → Reply
  bond_reply : BondInfo → Reply
  slave_reply : SlaveInfo → Reply

-- How a command ends: a result; a result with the two locks still held; a read through NULL; a
-- call that never returns; the commands that follow, for a slave device.
pub data Result : Type 0 where
  returned : Status → Reply → Bonding → Result
  returned_locked : Status → Bonding → Result
  null_read : Result
  endless : Result
  goes_on : Bonding → Result

-- Register 1 has BMSR_LSTATUS where the bond has a carrier.
unfoldable pub answer_mii : Bool → Option ℕ → Bonding → Result
answer_mii phy none b = returned einval no_reply b
answer_mii phy (some r) b =
    returned ok (mii_value phy (if r == 1 then some (if b.dev.carrier then 4 else 0) else none)) b

unfoldable pub answer_query_bond : Request → Bonding → Result
unfolding info_query
answer_query_bond r b =
    if r.copies_in && r.copies_out
    then returned ok (bond_reply (info_query b)) b
    else returned efault no_reply b

abbrev pub copied_out : Bool → Status × Option SlaveInfo → Bonding → Result
copied_out t (st, none) b = returned st no_reply b
copied_out true (st, some i) b = returned st (slave_reply i) b
copied_out false (st, some i) b = returned efault no_reply b

unfoldable pub answer_query_slave : Request → Bonding → Result
unfolding slave_info_query
answer_query_slave r b =
    if r.copies_in
    then copied_out r.copies_out (slave_info_query b r.slave_id) b
    else returned efault no_reply b

-- SIOCBONDHOOLOCKGETACTIVE returns from under its locks where there is no active slave.
unfoldable pub answer_get_active : Option ℕ → Bonding → Result
answer_get_active none b = returned_locked efault b
answer_get_active (some p) b = returned ok (slave_reply (info_of (b.mem p))) b

-- SIOCBONDHOOLOCKGETPASSIVE.
unfoldable pub answer_get_passive : Option ℕ → Bonding → Result
answer_get_passive none b = returned efault no_reply b
answer_get_passive (some p) b = returned ok (slave_reply (info_of (b.mem p))) b

abbrev pub of_outcome : Outcome → Result
of_outcome (finished st b rs) = returned st no_reply b
of_outcome deadlocked = endless
of_outcome null_active = null_read
of_outcome out_of_fuel = endless

abbrev pub of_make : Status × Bonding → Result
of_make (st, b) = returned st no_reply b

-- `bond_do_ioctl`, to the end of its first `switch`.
unfoldable pub do_ioctl : Extern → (SkBuff → Network) → ℕ → Command → Request → Bonding → Result
unfolding answer_mii answer_query_bond answer_query_slave answer_get_active answer_get_passive
    first_that
do_ioctl x net now mii_phy r b = answer_mii true r.mii_reg_num b
do_ioctl x net now mii_reg r b = answer_mii false r.mii_reg_num b
do_ioctl x net now query_bond r b = answer_query_bond r b
do_ioctl x net now query_slave r b = answer_query_slave r b
do_ioctl x net now get_active r b = answer_get_active b.curr_active_slave b
do_ioctl x net now get_passive r b =
    answer_get_passive (first_that (λ p. not (same (some p) b.curr_active_slave)) b.slaves) b
do_ioctl x net now hoolock_make r b = of_make (make x now b)
do_ioctl x net now hoolock_break r b = of_outcome (break x.locks_spin net b)
do_ioctl x net now slave_command r b = goes_on b

-- `bond_ioctl_change_active`, for the slave that was found.
unfoldable pub change_found : Extern → ℕ → Option ℕ → Option ℕ → Bonding → Status × Bonding
change_found x now none old b = (einval, b)
change_found x now (some p) none b = (einval, b)
change_found x now (some p) (some q) b =
    if p == q
    then (ok, b)
    else if is_link_up (b.mem p).link && is_up (b.mem p).dev
    then (ok, change_active_slave x now (some p) b)
    else (einval, b)

unfoldable pub ioctl_change_active : Extern → ℕ → NetDevice → Bonding → Status × Bonding
unfolding change_found get_slave_by_dev
ioctl_change_active x now d b =
    if not (uses_primary b.params.mode)
    then (einval, b)
    else if d.iff_slave && same d.master (some b.dev.ptr)
    then change_found x now (get_slave_by_dev b d.ptr) b.curr_active_slave b
    else (einval, b)

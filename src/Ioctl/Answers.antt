-- ===== src/Ioctl/Answers.antt =====
-- What the ioctls of bond_do_ioctl answer.
use hoolock.Common.{
  ℕ, zero, suc, ◌<◌, ◌≡◌, ◌≢◌, ◌↔◌, refl, ◌∙◌, ap, List, [], ◌∷◌, Bool, true, false, ◌&&◌, Option,
  none, some, if◌then◌else◌, arith, length, ℤ, pos, negsuc,
}
use hoolock.Bond.State.{Bonding, Slave, SkBuff, Status, ok, enodev, efault}
use hoolock.Bond.Active.{Extern}
use hoolock.Bond.Active.Change.{change_active_slave-Sets}
use hoolock.Bond.Invariant.{ExternLaws}
use hoolock.Net.Receive.{Network}
use hoolock.Hoolock.Make.{make, first_other, switch_if}
use hoolock.Transmit.{nth_slave}
use hoolock.Ioctl.{
  SlaveInfo, info_of, slave_info_query, Command, mii_phy, mii_reg, query_bond, query_slave,
  get_active, get_passive, hoolock_make, hoolock_break, slave_command, Request, Result, returned,
  returned_locked, null_read, endless, goes_on, slave_reply, bond_reply, no_reply, info_query,
  or_enodev, answer_mii, answer_query_bond, answer_query_slave, answer_get_active,
  answer_get_passive, copied_out, do_ioctl,
}

-- The bond that a command leaves behind, where it ends.
unfoldable pub left_by : Result → Bonding → Bonding
left_by (returned st r c) b = c
left_by (returned_locked st c) b = c
left_by null_read b = b
left_by endless b = b
left_by (goes_on c) b = c

-- The commands that only ask.
abbrev pub asks : Command → Bool
asks hoolock_make = false
asks hoolock_break = false
asks _ = true

copied_out-left :
    (t : Bool) (r : Status × Option SlaveInfo) (b : Bonding) → left_by (copied_out t r b) b ≡ b
unfolding left_by
copied_out-left t (st, none) b = refl
copied_out-left true (st, some i) b = refl
copied_out-left false (st, some i) b = refl

left_if :
    (t : Bool) (r s : Result) (b : Bonding)
    → left_by r b ≡ b
    → left_by s b ≡ b
    → left_by (if t then r else s) b ≡ b
left_if true r s b h k = h
left_if false r s b h k = k

mii_left : (phy : Bool) (o : Option ℕ) (b : Bonding) → left_by (answer_mii phy o b) b ≡ b
unfolding answer_mii left_by
mii_left phy none b = refl
mii_left phy (some r) b = refl

active_left : (o : Option ℕ) (b : Bonding) → left_by (answer_get_active o b) b ≡ b
unfolding answer_get_active left_by
active_left none b = refl
active_left (some p) b = refl

passive_left : (o : Option ℕ) (b : Bonding) → left_by (answer_get_passive o b) b ≡ b
unfolding answer_get_passive left_by
passive_left none b = refl
passive_left (some p) b = refl

-- In its first `switch`, `bond_do_ioctl` changes the bond at make and break only.
pub do_ioctl-asks :
    (x : Extern) (net : SkBuff → Network) (now : ℕ) (c : Command) (r : Request) (b : Bonding)
    → asks c ≡ true
    → left_by (do_ioctl x net now c r b) b ≡ b
unfolding do_ioctl answer_query_bond answer_query_slave left_by
do_ioctl-asks x net now mii_phy r b h = mii_left true r.mii_reg_num b
do_ioctl-asks x net now mii_reg r b h = mii_left false r.mii_reg_num b
do_ioctl-asks x net now query_bond r b h =
    left_if (r.copies_in && r.copies_out) (returned ok (bond_reply (info_query b)) b)
      (returned efault no_reply b) b refl refl
do_ioctl-asks x net now query_slave r b h =
    left_if r.copies_in (copied_out r.copies_out (slave_info_query b r.slave_id) b)
      (returned efault no_reply b) b
      (copied_out-left r.copies_out (slave_info_query b r.slave_id) b) refl
do_ioctl-asks x net now get_active r b h = active_left b.curr_active_slave b
do_ioctl-asks x net now get_passive r b h = passive_left _ b
do_ioctl-asks x net now slave_command r b h = refl
do_ioctl-asks x net now hoolock_make r b h = ground arith
do_ioctl-asks x net now hoolock_break r b h = ground arith

enodev-not-ok : enodev ≢ ok
enodev-not-ok e = ground arith

or_enodev-nth_slave :
    (m : ℕ → Slave) (n : ℕ) (ps : List ℕ)
    → ((or_enodev m (nth_slave n ps)).0 ≡ ok → n < length ps)
      × (n < length ps → (or_enodev m (nth_slave n ps)).0 ≡ ok)
unfolding nth_slave
or_enodev-nth_slave m n [] = ((λ e. absurd (enodev-not-ok e)), (λ h. absurd (omega (arith, h))))
or_enodev-nth_slave m zero (p ∷ ps) = ((λ e. omega arith), (λ h. refl))
or_enodev-nth_slave m (suc n) (p ∷ ps) =
    let ih = or_enodev-nth_slave m n ps in
    ((λ e. omega (arith, ih.0 e)), (λ h. ih.1 (omega (arith, h))))

pos-inj : (i n : ℕ) → pos i ≡ pos n → i ≡ n
pos-inj i n e = cc

negsuc-not-pos : (i n : ℕ) → negsuc i ≢ pos n
negsuc-not-pos i n e = cc

-- `bond_slave_info_query` succeeds exactly for the numbers from 0 to one below the number of slaves.
slave_info_query_lem :
    (b : Bonding) (i : ℤ)
    → ((slave_info_query b i).0 ≡ ok) ↔ ((n : ℕ) × (i ≡ pos n) × (n < length b.slaves))
unfolding slave_info_query
slave_info_query_lem b (negsuc k) =
    ((λ e. absurd (enodev-not-ok e)), (λ (n, e, h). absurd (negsuc-not-pos k n e)))
slave_info_query_lem b (pos k) =
    let r = or_enodev-nth_slave b.mem k b.slaves in
    ((λ e. (k, refl, r.0 e)), (λ (n, e, h). r.1 (omega (arith, pos-inj k n e, h))))

make_active :
    (x : Extern) (laws : ExternLaws x) (now : ℕ) (b : Bonding) (o : Option ℕ) (p : ℕ)
    → o ≡ some p
    → (switch_if x now o b).curr_active_slave ≡ some p
unfolding switch_if
make_active x laws now b none p e = cc
make_active x laws now b (some q) p e = (change_active_slave-Sets x laws now (some q) b).1 ∙ e

-- Where the bond has a slave that is not active, the slave that SIOCBONDHOOLOCKGETPASSIVE reports
-- is the one that SIOCBONDHOOLOCKMAKE makes active: both take the first such slave of the list.
pub do_ioctl-passive_make :
    (x : Extern) (laws : ExternLaws x) (net : SkBuff → Network) (now : ℕ) (r : Request)
    (b : Bonding) (p : ℕ)
    → first_other b ≡ some p
    → (do_ioctl x net now get_passive r b ≡ returned ok (slave_reply (info_of (b.mem p))) b)
      × ((left_by (do_ioctl x net now hoolock_make r b) b).curr_active_slave ≡ some p)
unfolding do_ioctl first_other left_by make answer_get_passive
do_ioctl-passive_make x laws net now r b p e =
    (ap (λ o. answer_get_passive o b) e, make_active x laws now b (first_other b) p e)

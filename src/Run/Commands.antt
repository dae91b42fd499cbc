-- ===== src/Run/Commands.antt =====
-- The two switches of bond_do_ioctl, 27/bond_main.c, and the well-formedness of the bond.
use hoolock.Common.{
  ℕ, ◌≡◌, refl, ◌∙◌, ap, sym, subst, List, [], Bool, true, false, ◌&&◌, not, Option, none, some,
  NotIn, inl, inr, if◌then◌else◌, same, ◌==◌,
}
use hoolock.Bond.State.{Bonding, NetDevice, SkBuff, Status, ok, ebusy, eperm}
use hoolock.Bond.Slaves.{get_slave_by_dev, uses_primary, is_link_up, is_up}
use hoolock.Bond.Slaves.Walks.{OptIn, first_that-OptIn, get_slave_by_dev-OptIn}
use hoolock.Bond.Active.{Extern}
use hoolock.Bond.Active.Members.{change_active_slave-IsWellFormed}
use hoolock.Bond.Invariant.{ExternLaws, IsWellFormed}
use hoolock.Bond.Enslave.{Services, Enslaved, refused, bond_enslave, with_flags}
use hoolock.Bond.Enslave.Laws.{ServicesLaws, Untouched-IsWellFormed}
use hoolock.Bond.Enslave.Errors.{Outcome}
use hoolock.Bond.Enslave.Outcomes.{bond_enslave_lem}
use hoolock.Bond.Vlans.{set_challenged, no_vlans, no_slaves}
use hoolock.Bond.Release.Freed.{bond_release-IsWellFormed}
use hoolock.Net.Receive.{Network}
use hoolock.Hoolock.Make.{change_to, switch_if}
use hoolock.Hoolock.Make.Laws.{make-IsWellFormed}
use hoolock.Hoolock.Break
use hoolock.Hoolock.Break.{deadlocked, null_active, break}
use hoolock.Hoolock.Break.Drains.{is_empty, break-drains, break_without_active}
use hoolock.Ioctl.{
  Command, mii_phy, mii_reg, query_bond, query_slave, get_active, get_passive, hoolock_make,
  hoolock_break, slave_command, Request, of_outcome, do_ioctl, change_found, ioctl_change_active,
}
use hoolock.Ioctl.Answers.{left_by, do_ioctl-asks}
use hoolock.Ioctl.Commands.{
  SlaveCommand, enslave, release, set_hwaddr, change_active, hoolock_test, other_command, sethwaddr,
  run_command, do_command,
}
use hoolock.Run.{Brings}

-- What stays with the packet buffer.
buffer-IsWellFormed :
    (t : Bool) (ks : List SkBuff) (b : Bonding)
    → IsWellFormed b
    → IsWellFormed (record b { buffer_mode = t; pbuff = ks })
buffer-IsWellFormed t ks b w = record {
  distinct = w.distinct;
  active_in = w.active_in;
  primary_in = w.primary_in;
  arp_in = w.arp_in;
}

either_outcome :
    (t : Bool) (r q : Break.Outcome) (b : Bonding)
    → IsWellFormed (left_by (of_outcome r) b)
    → IsWellFormed (left_by (of_outcome q) b)
    → IsWellFormed (left_by (of_outcome (if t then r else q)) b)
either_outcome true r q b h k = h
either_outcome false r q b h k = k

-- The bond after `break`.
broken :
    (spin : Bool) (net : SkBuff → Network) (b : Bonding) (o : Option ℕ)
    → b.curr_active_slave ≡ o
    → IsWellFormed b
    → IsWellFormed (left_by (of_outcome (break spin net b)) b)
unfolding left_by
broken spin net b (some p) e w =
    subst (λ r. IsWellFormed (left_by (of_outcome r) b)) (sym (break-drains spin net b p e))
      (either_outcome (spin && not (is_empty b.pbuff)) deadlocked _ b w
        (buffer-IsWellFormed false [] b w))
broken spin net b none e w =
    subst (λ r. IsWellFormed (left_by (of_outcome r) b)) (sym (break_without_active spin net b e))
      (either_outcome (is_empty b.pbuff) _ _ b (buffer-IsWellFormed false b.pbuff b w)
        (either_outcome spin deadlocked null_active b w w))

-- The first switch.
pub do_ioctl-IsWellFormed :
    (x : Extern)
    → ExternLaws x
    → (net : SkBuff → Network) (now : ℕ) (c : Command) (r : Request) (b : Bonding) → IsWellFormed b
    → IsWellFormed (left_by (do_ioctl x net now c r b) b)
unfolding do_ioctl left_by
do_ioctl-IsWellFormed x laws net now hoolock_make r b w = make-IsWellFormed x laws now b w
do_ioctl-IsWellFormed x laws net now hoolock_break r b w =
    broken x.locks_spin net b b.curr_active_slave refl w
do_ioctl-IsWellFormed x laws net now slave_command r b w = w
do_ioctl-IsWellFormed x laws net now mii_phy r b w =
    subst IsWellFormed (sym (do_ioctl-asks x net now mii_phy r b refl)) w
do_ioctl-IsWellFormed x laws net now mii_reg r b w =
    subst IsWellFormed (sym (do_ioctl-asks x net now mii_reg r b refl)) w
do_ioctl-IsWellFormed x laws net now query_bond r b w =
    subst IsWellFormed (sym (do_ioctl-asks x net now query_bond r b refl)) w
do_ioctl-IsWellFormed x laws net now query_slave r b w =
    subst IsWellFormed (sym (do_ioctl-asks x net now query_slave r b refl)) w
do_ioctl-IsWellFormed x laws net now get_active r b w =
    subst IsWellFormed (sym (do_ioctl-asks x net now get_active r b refl)) w
do_ioctl-IsWellFormed x laws net now get_passive r b w =
    subst IsWellFormed (sym (do_ioctl-asks x net now get_passive r b refl)) w

module _ (v : Services) (laws : ServicesLaws v) (now : ℕ) (b : Bonding) (w : IsWellFormed b) where
  either_result :
      (t : Bool) (r q : Status × Bonding)
      → IsWellFormed r.1
      → IsWellFormed q.1
      → IsWellFormed (if t then r else q).1
  either_result true r q h k = h
  either_result false r q h k = k

  change_found-IsWellFormed :
      (o a : Option ℕ) → OptIn o b.slaves → IsWellFormed (change_found v.extern now o a b).1
  unfolding change_found
  change_found-IsWellFormed none a i = w
  change_found-IsWellFormed (some p) none i = w
  change_found-IsWellFormed (some p) (some q) i = either_result (p == q) _ _ w (
      either_result (is_link_up (b.mem p).link && is_up (b.mem p).dev) _ _
        (change_active_slave-IsWellFormed v.extern laws.extern now (some p) b i w) w)

  change_active-IsWellFormed :
      (d : NetDevice) → IsWellFormed (ioctl_change_active v.extern now d b).1
  unfolding ioctl_change_active
  change_active-IsWellFormed d = either_result (not (uses_primary b.params.mode)) _ _ w (
      either_result (d.iff_slave && same d.master (some b.dev.ptr)) _ _
        (change_found-IsWellFormed (get_slave_by_dev b d.ptr) b.curr_active_slave
          (get_slave_by_dev-OptIn b d.ptr))
        w)

  switch_if-IsWellFormed :
      (o : Option ℕ) → OptIn o b.slaves → IsWellFormed (switch_if v.extern now o b)
  unfolding switch_if
  switch_if-IsWellFormed none i = w
  switch_if-IsWellFormed (some p) i =
      change_active_slave-IsWellFormed v.extern laws.extern now (some p) b i w

  change_to-IsWellFormed : (d : ℕ) → IsWellFormed (change_to v.extern now d b).1
  unfolding change_to
  change_to-IsWellFormed d =
      switch_if-IsWellFormed _
        (first_that-OptIn (λ p. same (some p) (get_slave_by_dev b d)) b.slaves _ refl)

  -- A device that is a slave is refused.
  busy :
      (alloc : Option ℕ) (d : NetDevice)
      → d.iff_slave ≡ true
      → bond_enslave v now alloc d b ≡ refused ebusy b d
  unfolding bond_enslave
  busy alloc d e =
      let r =
        with_flags v now b.dev.vlan_challenged alloc
          (if d.vlan_challenged
            then set_challenged true b
            else if no_slaves b
            then set_challenged false b
            else b)
          d in
      ap
        (λ (t : Bool).
          if t
          then refused ebusy b d
          else if d.vlan_challenged && not (no_vlans b)
          then refused eperm b d
          else r)
        e

  Outcome-IsWellFormed :
      (alloc : Option ℕ) (d : NetDevice) (r : Enslaved)
      → ((e : NetDevice) → v.create_symlinks e ≡ ok)
      → Outcome v b d alloc r
      → IsWellFormed r.bond
  Outcome-IsWellFormed alloc d r links (inl f) = Untouched-IsWellFormed f.untouched w
  Outcome-IsWellFormed alloc d r links (inr (p, e, inl (o, f, g))) = g.valid
  Outcome-IsWellFormed alloc d r links (inr (p, e, inr (n, f, s, (l, k)))) =
      absurd (n (sym k ∙ links l))

  enslaved-IsWellFormed :
      (alloc : Option ℕ) (d : NetDevice) (t : Bool)
      → ((e : NetDevice) → v.create_symlinks e ≡ ok)
      → d.iff_slave ≡ t
      → (d.iff_slave ≡ false → d.master ≡ none)
      → ((p : ℕ) → alloc ≡ some p → NotIn p b.slaves)
      → IsWellFormed (bond_enslave v now alloc d b).bond
  enslaved-IsWellFormed alloc d true links e m fresh =
      subst (λ (r : Enslaved). IsWellFormed r.bond) (sym (busy alloc d e)) w
  enslaved-IsWellFormed alloc d false links e m fresh =
      Outcome-IsWellFormed alloc d (bond_enslave v now alloc d b) links
        (bond_enslave_lem v laws now alloc d b w fresh (m e))

  sethwaddr-IsWellFormed : (d : NetDevice) → IsWellFormed (sethwaddr d b)
  unfolding sethwaddr
  sethwaddr-IsWellFormed d = record {
    distinct = w.distinct;
    active_in = w.active_in;
    primary_in = w.primary_in;
    arp_in = w.arp_in;
  }

  module _ (links : (e : NetDevice) → v.create_symlinks e ≡ ok) (alloc : Option ℕ) where
    run_command-IsWellFormed :
        (c : SlaveCommand) (d : NetDevice)
        → Brings alloc (some d) b
        → IsWellFormed (run_command v now alloc c d b).bond
    unfolding run_command
    run_command-IsWellFormed enslave d k =
        enslaved-IsWellFormed alloc d d.iff_slave links refl (k.no_master d refl) k.fresh
    run_command-IsWellFormed release d k = bond_release-IsWellFormed v laws b w now d
    run_command-IsWellFormed set_hwaddr d k = sethwaddr-IsWellFormed d
    run_command-IsWellFormed change_active d k = change_active-IsWellFormed d
    run_command-IsWellFormed hoolock_test d k = change_to-IsWellFormed d.ptr
    run_command-IsWellFormed other_command d k = w

    -- The second switch.
    pub do_command-IsWellFormed :
        (capable : Bool) (c : SlaveCommand) (o : Option NetDevice)
        → Brings alloc o b
        → IsWellFormed (do_command v now alloc capable c o b).1
    unfolding do_command
    do_command-IsWellFormed capable c none k = w
    do_command-IsWellFormed capable c (some d) k =
        either_result capable _ _ (run_command-IsWellFormed c d k) w

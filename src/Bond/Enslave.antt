-- ===== src/Bond/Enslave.antt =====
-- bond_enslave of 27/bond_main.c.
pub mod Laws
pub mod Attached
pub mod Errors
pub mod Stages
pub mod Outcomes
pub mod Success
use hoolock.Common.{
  ℕ, List, [], ◌∷◌, ◌++◌, Bool, true, false, ◌&&◌, ◌||◌, not, Option, none, some, is_some,
  if◌then◌else◌, ◌==◌, same,
}
use hoolock.Bond.State.{
  Bonding, Slave, NetDevice, Params, Mode, active_backup, lacp, tlb, alb, hoolock_mode, FailOverMac,
  fom_none, fom_active, fom_follow, LinkState, link_up, link_down, link_back, SlaveState, active,
  Status, ok, ebusy, eperm, einval, eopnotsupp, enomem, mc_add,
}
use hoolock.Bond.Slaves.{
  uses_primary, is_ok, edit, put_slave, set_slave_inactive_flags, set_slave_active_flags, log,
}
use hoolock.Bond.Active.{Extern, log_mc, set_carrier, change_active_slave, select_active_slave}
use hoolock.Bond.Monitor.{Drivers, check_dev_link}
use hoolock.Bond.Vlans.{
  VlanOps, set_challenged, no_vlans, no_slaves, is_alb_mode, add_vlans_on_slave,
}
use hoolock.Net.Device.{
  plus, dev_set_promiscuity, dev_set_allmulti, netdev_set_master, DeviceDriver, dev_open, dev_close,
}

-- What bond_enslave and bond_release call outside the sources, beside `Extern`: the drivers of the
-- devices, bond_alb.c and bond_3ad.c for one slave, sysfs, and the allocator. `ether` is
-- ARPHRD_ETHER and `lacpdu_mc` the multicast address of LACPDUs.
pub record Services : Type 0 where
  pub extern : Extern
  pub drivers : Drivers
  pub driver : DeviceDriver
  pub vlan_ops : VlanOps
  pub alb_init_slave : Slave → Bonding → Status × NetDevice × Bonding
  pub alb_deinit_slave : ℕ → Bonding → Bonding
  pub ad_bind_slave : ℕ → Bonding → Bonding
  pub ad_unbind_slave : ℕ → Bonding → Bonding
  pub create_symlinks : NetDevice → Status
  pub ether : ℕ
  pub lacpdu_mc : ℕ

-- The result, the bond, the device that was handed in, and the slave structure that was freed.
pub record Enslaved : Type 0 where
  pub status : Status
  pub bond : Bonding
  pub slave_dev : NetDevice
  pub freed : Option ℕ

abbrev pub refused : Status → Bonding → NetDevice → Enslaved
refused st b d = record { status = st; bond = b; slave_dev = d; freed = none }

abbrev pub is_fom_none : FailOverMac → Bool
is_fom_none fom_none = true
is_fom_none _ = false

abbrev pub is_fom_active : FailOverMac → Bool
is_fom_active fom_active = true
is_fom_active _ = false

module _ (v : Services) where
  -- The labels at the end, each of which goes on to the next; `old` are the features before.
  abbrev pub err_undo_flags : Bool → Status → Bonding → NetDevice → Enslaved
  err_undo_flags old st b d = refused st (set_challenged old b) d

  abbrev pub err_free : Bool → Status → ℕ → Bonding → NetDevice → Enslaved
  err_free old st p b d = record (err_undo_flags old st b d) { freed = some p }

  abbrev pub err_restore_mac : Bool → Status → ℕ → ℕ → Bonding → NetDevice → Enslaved
  err_restore_mac old st p hwaddr b d =
      err_free old st p b (
        if is_fom_none b.params.fail_over_mac then (v.extern.dev_set_mac_address d hwaddr).1 else d)

  abbrev pub err_unset_master : Bool → Status → ℕ → ℕ → Bonding → NetDevice → Enslaved
  err_unset_master old st p hwaddr b d =
      err_restore_mac old st p hwaddr b (netdev_set_master d none).1

  abbrev pub err_close : Bool → Status → ℕ → ℕ → Bonding → NetDevice → Enslaved
  err_close old st p hwaddr b d = err_unset_master old st p hwaddr b (dev_close v.driver d)

  -- The new structure, from kzalloc, with the fields that are set before it is on the list.
  abbrev pub new_slave : ℕ → NetDevice → Slave
  new_slave hwaddr d = record {
    dev = d;
    delay = 0;
    jiffies = 0;
    last_arp_rx = 0;
    link = link_up;
    new_link = some link_up;
    state = active;
    link_failure_count = 0;
    perm_hwaddr = hwaddr;
  }

  -- The first state of the link.
  unfoldable pub initial_link : ℕ → Params → Option Bool → Slave → Slave
  initial_link now ps up s =
      let is_up : Bool = elim up [ none ↦ false | some t ↦ t ] in
      let back = record s { link = link_back; delay = ps.updelay; jiffies = now } in
      let at_once = record s { link = link_up; jiffies = now } in
      if ps.miimon == 0 || is_up
      then (if ps.updelay == 0 then at_once else back)
      else record s { link = link_down }

  -- Names are compared character by character.
  unfoldable pub same_name : List ℕ → List ℕ → Bool
  same_name [] [] = true
  same_name [] (c ∷ cs) = false
  same_name (a ∷ as') [] = false
  same_name (a ∷ as') (c ∷ cs) = a == c && same_name as' cs

  unfoldable pub note_primary : ℕ → Bonding → Bonding
  unfolding same_name
  note_primary p b =
      let named : Bool = elim b.params.primary [ [] ↦ false | c ∷ cs ↦ true ] in
      if uses_primary b.params.mode && named && same_name b.params.primary (b.mem p).dev.name
      then record b { primary_slave = some p }
      else b

  -- The `switch` on the mode, under the lock of the active slave.
  unfoldable pub by_mode : ℕ → Mode → ℕ → Bonding → Bonding
  by_mode now active_backup p b =
      select_active_slave v.extern now (edit p (set_slave_inactive_flags b) b)
  by_mode now lacp p b = v.ad_bind_slave p (edit p (set_slave_inactive_flags b) b)
  by_mode now tlb p b = edit p (λ s. set_slave_inactive_flags b (record s { state = active })) b
  by_mode now alb p b = edit p (λ s. set_slave_inactive_flags b (record s { state = active })) b
  by_mode now hoolock_mode p b =
      let b₁ = edit p set_slave_active_flags b in
      if is_some b.curr_active_slave then b₁ else change_active_slave v.extern now (some p) b₁
  by_mode now _ p b =
      let b₁ = edit p (λ s. record s { state = active }) b in
      if is_some b.curr_active_slave then b₁ else record b₁ { curr_active_slave = some p }

  -- From `bond_attach_slave` to the symbolic links. `bond_compute_features` leaves the only feature
  -- of the model as it is.
  unfoldable pub attached : ℕ → ℕ → Slave → Bonding → Bonding
  unfolding note_primary initial_link
  attached now p s b =
      let b₁ = record (put_slave p s b) { slaves = b.slaves ++ (p ∷ []) } in
      let up = check_dev_link v.drivers b.params s.dev false in
      let b₂ = edit p (λ t. initial_link now b.params up (record t { last_arp_rx = now })) b₁ in
      let b₃ = by_mode now b.params.mode p (note_primary p b₂) in (set_carrier v.extern b₃).1

  -- The end: where no symbolic links can be made, the labels are run through with the slave on the
  -- list.
  unfoldable pub linked : Bool → ℕ → ℕ → Status → Bonding → Enslaved
  linked old p hwaddr ok b = refused ok b (b.mem p).dev
  linked old p hwaddr st b = err_close old st p hwaddr b (b.mem p).dev

  -- The multicast address of LACPDUs.
  abbrev pub with_lacp : Mode → ℕ → Bonding → Bonding
  with_lacp lacp d b = log (mc_add d v.lacpdu_mc) b
  with_lacp _ d b = b

  unfoldable pub attach : ℕ → Bool → ℕ → ℕ → Bonding → NetDevice → Enslaved
  unfolding attached linked
  attach now old p hwaddr b d =
      let b₁ = with_lacp b.params.mode d.ptr b in
      let b₂ = add_vlans_on_slave v.vlan_ops d b₁ in
      let c = attached now p (new_slave hwaddr d) b₂ in
      linked old p hwaddr (v.create_symlinks (c.mem p).dev) c

  -- The counters and the multicast list that a slave has outside the modes with a primary slave.
  unfoldable pub with_allmulti : ℕ → Bool → ℕ → ℕ → Bonding → Status × NetDevice → Enslaved
  unfolding attach
  with_allmulti now old p hwaddr b (ok, d) =
      attach now old p hwaddr (log_mc (mc_add d.ptr) b.dev.mc_list b) d
  with_allmulti now old p hwaddr b (st, d) = err_close old st p hwaddr b d

  unfoldable pub with_promisc : ℕ → Bool → ℕ → ℕ → Bonding → Status × NetDevice → Enslaved
  unfolding with_allmulti
  with_promisc now old p hwaddr b (ok, d) =
      with_allmulti now old p hwaddr b
        (if b.dev.iff_allmulti then dev_set_allmulti d plus else (ok, d))
  with_promisc now old p hwaddr b (st, d) = err_close old st p hwaddr b d

  unfoldable pub with_counters : ℕ → Bool → ℕ → ℕ → Bonding → NetDevice → Enslaved
  unfolding with_promisc attach
  with_counters now old p hwaddr b d =
      if uses_primary b.params.mode
      then attach now old p hwaddr b d
      else with_promisc now old p hwaddr b
          (if b.dev.iff_promisc then dev_set_promiscuity d plus else (ok, d))

  unfoldable pub with_alb : ℕ → Bool → ℕ → ℕ → Status × NetDevice × Bonding → Enslaved
  unfolding with_counters
  with_alb now old p hwaddr (ok, d, b) = with_counters now old p hwaddr b d
  with_alb now old p hwaddr (st, d, b) = err_close old st p hwaddr b d

  unfoldable pub with_open : ℕ → Bool → ℕ → ℕ → Bonding → Status × NetDevice → Enslaved
  unfolding with_alb
  with_open now old p hwaddr b (ok, d) =
      let d₁ = record d { iff_bonding = true } in
      with_alb now old p hwaddr (
        if is_alb_mode b.params.mode then v.alb_init_slave (new_slave hwaddr d₁) b else (ok, d₁, b))
  with_open now old p hwaddr b (st, d) = err_unset_master old st p hwaddr b d

  unfoldable pub with_master : ℕ → Bool → ℕ → ℕ → Bonding → Status × NetDevice → Enslaved
  unfolding with_open
  with_master now old p hwaddr b (ok, d) = with_open now old p hwaddr b (dev_open v.driver d)
  with_master now old p hwaddr b (st, d) = err_restore_mac old st p hwaddr b d

  unfoldable pub with_mac : ℕ → Bool → ℕ → ℕ → Bonding → Status × NetDevice → Enslaved
  unfolding with_master
  with_mac now old p hwaddr b (ok, d) =
      with_master now old p hwaddr b (netdev_set_master d (some b.dev.ptr))
  with_mac now old p hwaddr b (st, d) = err_free old st p b d

  unfoldable pub allocated : ℕ → Bool → Option ℕ → Bonding → NetDevice → Enslaved
  unfolding with_mac
  allocated now old none b d = err_undo_flags old enomem b d
  allocated now old (some p) b d = with_mac now old p d.dev_addr b (
      if is_fom_none b.params.fail_over_mac
      then v.extern.dev_set_mac_address d b.dev.dev_addr
      else (ok, d))

  -- A device whose address cannot be set.
  abbrev pub set_fom_active : Bonding → Bonding
  set_fom_active b = record b { params = record (b.params) { fail_over_mac = fom_active } }

  unfoldable pub with_mac_support : ℕ → Bool → Option ℕ → Bonding → NetDevice → Enslaved
  unfolding allocated
  with_mac_support now old alloc b d =
      if d.can_set_mac
      then allocated now old alloc b d
      else if no_slaves b
      then allocated now old alloc (set_fom_active b) d
      else if is_fom_active b.params.fail_over_mac
      then allocated now old alloc b d
      else err_undo_flags old eopnotsupp b d

  -- `bond_setup_by_slave`.
  abbrev pub setup_by : NetDevice → Bonding → Bonding
  setup_by d b = record b { dev = record (b.dev) { dev_type = d.dev_type }; setup_by_slave = true }

  unfoldable pub with_type : ℕ → Bool → Option ℕ → Bonding → NetDevice → Enslaved
  unfolding with_mac_support
  with_type now old alloc b d =
      if no_slaves b
      then with_mac_support now old alloc (if d.dev_type == v.ether then b else setup_by d b) d
      else if b.dev.dev_type == d.dev_type
      then with_mac_support now old alloc b d
      else err_undo_flags old einval b d

  unfoldable pub with_flags : ℕ → Bool → Option ℕ → Bonding → NetDevice → Enslaved
  unfolding with_type
  with_flags now old alloc b d =
      if d.iff_up then err_undo_flags old eperm b d else with_type now old alloc b d

  -- `bond_enslave`, with the address that the allocator returns.
  unfoldable pub bond_enslave : ℕ → Option ℕ → NetDevice → Bonding → Enslaved
  unfolding with_flags
  bond_enslave now alloc d b =
      let old = b.dev.vlan_challenged in
      if d.iff_slave
      then refused ebusy b d
      else if d.vlan_challenged && not (no_vlans b)
      then refused eperm b d
      else with_flags now old alloc
          (if d.vlan_challenged
            then set_challenged true b
            else if no_slaves b
            then set_challenged false b
            else b)
          d

-- ===== src/Bond/Release.antt =====
-- bond_release and bond_release_all of 27/bond_main.c.
pub mod Detached
pub mod Freed
pub mod Drained
use hoolock.Common.{
  ℕ, zero, suc, List, [], ◌∷◌, ◌++◌, Bool, true, false, ◌&&◌, not, Option, none, some,
  if◌then◌else◌, ◌==◌, same, length,
}
use hoolock.Bond.State.{Bonding, Slave, NetDevice, Mode, lacp, Status, ok, einval, mc_delete}
use hoolock.Bond.Slaves.{is_ok, uses_primary, get_slave_by_dev, log}
use hoolock.Bond.Ring.{without}
use hoolock.Bond.Active.{Extern, log_mc, set_carrier, change_active_slave, select_active_slave}
use hoolock.Bond.Vlans.{
  set_challenged, no_vlans, no_slaves, is_alb_mode, any_challenged, del_vlans_from_slave,
}
use hoolock.Bond.Enslave.{Services, Enslaved, refused, is_fom_none, is_fom_active}
use hoolock.Net.Device.{minus, dev_set_promiscuity, dev_set_allmulti, netdev_set_master, dev_close}

-- The device at `slave_dev`: that of the slave at `p`, if it is the same one.
abbrev pub dev_at : ℕ → NetDevice → Bonding → NetDevice
dev_at p d b = if (b.mem p).dev.ptr == d.ptr then (b.mem p).dev else d

-- `bond_detach_slave`, on the list (Bond.Ring has the links).
abbrev pub detach : ℕ → Bonding → Bonding
detach p b = record b { slaves = without p b.slaves }

-- What is left of the slaves: their devices, and the structures freed, in order.
pub record Remains : Type 0 where
  pub bond : Bonding
  pub devices : List NetDevice
  pub freed : List ℕ

abbrev pub forget_primary : ℕ → Bonding → Bonding
forget_primary p b = if same b.primary_slave (some p) then record b { primary_slave = none } else b

-- The master's address is zeroed where the last slave has gone.
abbrev pub zero_addr : Bonding → Bonding
zero_addr b = record b { dev = record (b.dev) { dev_addr = 0 } }

unfoldable pub after_last : Bonding → Bonding
after_last b = let c = zero_addr b in if no_vlans c then set_challenged true c else c

-- The multicast settings that a slave has outside the modes with a primary slave.
unfoldable pub unset_counters : Bonding → NetDevice → NetDevice
unset_counters b d =
    let d₁ = if b.dev.iff_promisc then (dev_set_promiscuity d minus).1 else d in
    let d₂ = if b.dev.iff_allmulti then (dev_set_allmulti d₁ minus).1 else d₁ in
    if uses_primary b.params.mode then d else d₂

-- The bits of `priv_flags` that bond_release clears, and those that bond_release_all clears.
abbrev pub clear_flags : NetDevice → NetDevice
clear_flags d = record d { slave_inactive = false; iff_bonding = false; slave_needarp = false }

abbrev pub clear_inactive : NetDevice → NetDevice
clear_inactive d = record d { slave_inactive = false }

abbrev pub and_freed : ℕ → NetDevice → Option Remains → Option Remains
and_freed p d none = none
and_freed p d (some r) =
    some (record { bond = r.bond; devices = d ∷ r.devices; freed = p ∷ r.freed })

abbrev pub at_end : Option Remains → Option Remains
at_end none = none
at_end (some r) = some (record r { bond = after_last r.bond })

module _ (v : Services) where
  unfoldable pub unbind : Mode → ℕ → Bonding → Bonding
  unbind lacp p b = v.ad_unbind_slave p b
  unbind _ p b = b

  -- The changes of the active slave: `was_active` if it is the one that goes.
  unfoldable pub replace_active : ℕ → Bool → ℕ → Bonding → Bonding
  replace_active now was_active p b =
      let b₁ = if was_active then change_active_slave v.extern now none b else b in
      let b₂ = if is_alb_mode b₁.params.mode then v.alb_deinit_slave p b₁ else b₁ in
      if was_active then select_active_slave v.extern now b₂ else b₂

  unfoldable pub settle_master : Bonding → Bonding
  unfolding after_last any_challenged
  settle_master b =
      if no_slaves b
      then after_last (set_carrier v.extern b).1
      else if b.dev.vlan_challenged && not (any_challenged b.mem b.slaves)
      then set_challenged false b
      else b

  -- The part under the lock.
  unfoldable pub under_lock : ℕ → ℕ → Bonding → Bonding
  unfolding unbind replace_active settle_master
  under_lock now p b =
      let b₁ = unbind b.params.mode p b in
      let was_active = same b₁.curr_active_slave (some p) in
      let b₂ = forget_primary p (detach p (record b₁ { current_arp_slave = none })) in
      settle_master (replace_active now was_active p b₂)

  -- `bond_mc_list_flush`.
  abbrev pub flush_lacp : Mode → ℕ → Bonding → Bonding
  flush_lacp lacp d b = log (mc_delete d v.lacpdu_mc) b
  flush_lacp _ d b = b

  abbrev pub mc_list_flush : ℕ → Bonding → Bonding
  mc_list_flush d b = flush_lacp b.params.mode d (log_mc (mc_delete d) b.dev.mc_list b)

  unfoldable pub flush : ℕ → Bonding → Bonding
  flush d b = if uses_primary b.params.mode then b else mc_list_flush d b

  -- The device loses its master and is closed; its own address is restored if `restores`.
  unfoldable pub let_go : Bool → ℕ → NetDevice → NetDevice
  let_go restores hwaddr d =
      let d₁ = dev_close v.driver (netdev_set_master d none).1 in
      if restores then (v.extern.dev_set_mac_address d₁ hwaddr).1 else d₁

  -- `bond_release`, of the slave found.
  unfoldable pub release_found : ℕ → Option ℕ → NetDevice → Bonding → Enslaved
  unfolding under_lock flush unset_counters let_go
  release_found now none d b = refused einval b d
  release_found now (some p) d b =
      let b₁ = under_lock now p b in
      let d₁ = dev_at p d b₁ in
      let b₂ = flush d₁.ptr (del_vlans_from_slave v.vlan_ops d₁ b₁) in
      let restores = not (is_fom_active b₂.params.fail_over_mac) in
      record {
        status = ok;
        bond = b₂;
        slave_dev = clear_flags (let_go restores (b₁.mem p).perm_hwaddr (unset_counters b₁ d₁));
        freed = some p;
      }

  unfoldable pub bond_release : ℕ → NetDevice → Bonding → Enslaved
  unfolding release_found get_slave_by_dev
  bond_release now d b =
      if d.iff_slave && same d.master (some b.dev.ptr)
      then release_found now (get_slave_by_dev b d.ptr) d b
      else refused einval b d

  -- `bond_release_and_destroy`, with whether it calls `bond_destroy`.
  unfoldable pub bond_release_and_destroy : ℕ → NetDevice → Bonding → Enslaved × Bool
  unfolding bond_release
  bond_release_and_destroy now d b =
      let r = bond_release now d b in (r, is_ok r.status && no_slaves r.bond)

  -- One round of the loop of `bond_release_all`.
  unfoldable pub release_first : ℕ → Bonding → Bonding × NetDevice
  unfolding unbind flush unset_counters let_go
  release_first p b =
      let b₁ = detach p (unbind b.params.mode p b) in
      let b₂ = if is_alb_mode b₁.params.mode then v.alb_deinit_slave p b₁ else b₁ in
      let d = (b₂.mem p).dev in
      let b₃ = flush d.ptr (del_vlans_from_slave v.vlan_ops d b₂) in
      let restores = is_fom_none b₂.params.fail_over_mac in
      (b₃, clear_inactive (let_go restores (b₂.mem p).perm_hwaddr (unset_counters b₂ d)))

  -- `while ((slave = bond->first_slave) != NULL)`; `none` is no fuel.
  unfoldable pub release_each : ℕ → Bonding → Option Remains
  unfolding release_first
  release_each zero b = none
  release_each (suc fuel) b = elim b.slaves [
    | [] ↦ some (record { bond = b; devices = []; freed = [] })
    | p ∷ ps ↦ let r = release_first p b in and_freed p r.1 (release_each fuel r.0)
  ]

  -- `bond_release_all`, with fuel for one round more than there are slaves; it returns 0.
  unfoldable pub bond_release_all : ℕ → Bonding → Option Remains
  unfolding release_each after_last
  bond_release_all now b =
      let b₁ = record b { dev = record (b.dev) { carrier = false } } in
      let b₂ =
        change_active_slave v.extern now none
          (record b₁ { current_arp_slave = none; primary_slave = none }) in
      if no_slaves b
      then some (record { bond = b₁; devices = []; freed = [] })
      else at_end (release_each (suc (length b.slaves)) b₂)

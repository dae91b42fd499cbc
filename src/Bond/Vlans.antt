-- ===== src/Bond/Vlans.antt =====
-- The VLANs of a bond, 27/bond_main.c: bond_add_vlan, bond_del_vlan, bond_has_challenged_slaves,
-- bond_next_vlan, and what is passed on to the slaves' devices.
pub mod RoundTrip
use hoolock.Common.{
  ℕ, ◌+◌, length, List, [], ◌∷◌, ◌++◌, Bool, true, false, ◌&&◌, ◌||◌, not, Option, none, some,
  if◌then◌else◌, ◌==◌,
}
use hoolock.Bond.State.{
  Bonding, Slave, NetDevice, Mode, tlb, alb, VlanEntry, Status, ok, enodev, enomem, vlan_register,
  vlan_add, vlan_kill,
}
use hoolock.Bond.Slaves.{log}

-- What the devices' drivers do for VLANs (NETIF_F_HW_VLAN_RX with `vlan_rx_register`,
-- NETIF_F_HW_VLAN_FILTER with `vlan_rx_add_vid` and with `vlan_rx_kill_vid`), and what bond_alb.c
-- does for one that goes.
pub record VlanOps : Type 0 where
  pub registers : NetDevice → Bool
  pub adds : NetDevice → Bool
  pub kills : NetDevice → Bool
  pub alb_clear_vlan : ℕ → Bonding → Bonding

abbrev pub set_challenged : Bool → Bonding → Bonding
set_challenged t b = record b { dev = record (b.dev) { vlan_challenged = t } }

abbrev pub no_vlans : Bonding → Bool
no_vlans b = elim b.vlan_list [ [] ↦ true | v ∷ vs ↦ false ]

abbrev pub no_slaves : Bonding → Bool
no_slaves b = elim b.slaves [ [] ↦ true | p ∷ ps ↦ false ]

-- `bond_add_vlan`, with the result of the allocation.
unfoldable pub add_vlan : Bool → ℕ → Bonding → Status × Bonding
add_vlan allocated vid b =
    if allocated
    then (ok, record b { vlan_list = b.vlan_list ++ (record { vlan_ip = 0; vlan_id = vid } ∷ []) })
    else (enomem, b)

-- The list without the first entry with this id; `none` if there is no such entry.
unfoldable pub without_vlan : ℕ → List VlanEntry → Option (List VlanEntry)
without_vlan vid [] = none
without_vlan vid (v ∷ vs) =
    let rest : Option (List VlanEntry) = elim (without_vlan vid vs) [
      | none ↦ none
      | some ws ↦ some (v ∷ ws)
    ] in
    if v.vlan_id == vid then some vs else rest

abbrev pub is_alb_mode : Mode → Bool
is_alb_mode tlb = true
is_alb_mode alb = true
is_alb_mode _ = false

-- `bond_del_vlan`.
unfoldable pub del_found : VlanOps → ℕ → Option (List VlanEntry) → Bonding → Status × Bonding
del_found o vid none b = (enodev, b)
del_found o vid (some vs) b =
    let b₁ = record b { vlan_list = vs } in
    let b₂ = if is_alb_mode b.params.mode then o.alb_clear_vlan vid b₁ else b₁ in
    (ok, if no_vlans b₂ && no_slaves b₂ then set_challenged true b₂ else b₂)

unfoldable pub del_vlan : VlanOps → ℕ → Bonding → Status × Bonding
unfolding without_vlan del_found
del_vlan o vid b = del_found o vid (without_vlan vid b.vlan_list) b

-- `bond_has_challenged_slaves`.
unfoldable pub any_challenged : (ℕ → Slave) → List ℕ → Bool
any_challenged m [] = false
any_challenged m (p ∷ ps) = (m p).dev.vlan_challenged || any_challenged m ps

-- `bond_next_vlan`, where the entries are named by their place in the list: `none` is NULL.
abbrev pub next_of : List VlanEntry → Option ℕ → Option ℕ
next_of [] c = none
next_of (v ∷ vs) none = some 0
next_of (v ∷ vs) (some i) = if i == length vs then some 0 else some (i + 1)

unfoldable pub next_vlan : Bonding → Option ℕ → Option ℕ
next_vlan b curr = next_of b.vlan_list curr

-- `bond_vlan_rx_register`.
unfoldable pub rx_register : VlanOps → Bool → List ℕ → Bonding → Bonding
rx_register o grp [] b = b
rx_register o grp (p ∷ ps) b =
    let d = (b.mem p).dev in
    rx_register o grp ps (if o.registers d then log (vlan_register d.ptr grp) b else b)

-- `bond_vlan_rx_add_vid`.
unfoldable pub each_add_vid : VlanOps → ℕ → List ℕ → Bonding → Bonding
each_add_vid o vid [] b = b
each_add_vid o vid (p ∷ ps) b =
    let d = (b.mem p).dev in
    each_add_vid o vid ps (if o.adds d then log (vlan_add d.ptr vid) b else b)

unfoldable pub rx_add_vid : VlanOps → Bool → ℕ → Bonding → Bonding
unfolding each_add_vid add_vlan
rx_add_vid o allocated vid b = (add_vlan allocated vid (each_add_vid o vid b.slaves b)).1

-- `bond_vlan_rx_kill_vid`; the group's entry is put back after each driver.
unfoldable pub each_kill_vid : VlanOps → ℕ → List ℕ → Bonding → Bonding
each_kill_vid o vid [] b = b
each_kill_vid o vid (p ∷ ps) b =
    let d = (b.mem p).dev in
    each_kill_vid o vid ps (if o.kills d then log (vlan_kill d.ptr vid) b else b)

unfoldable pub rx_kill_vid : VlanOps → ℕ → Bonding → Bonding
unfolding each_kill_vid del_vlan
rx_kill_vid o vid b = (del_vlan o vid (each_kill_vid o vid b.slaves b)).1

-- `bond_add_vlans_on_slave`.
unfoldable pub add_all : ℕ → List VlanEntry → Bonding → Bonding
add_all d [] b = b
add_all d (v ∷ vs) b = add_all d vs (log (vlan_add d v.vlan_id) b)

unfoldable pub add_vlans_on_slave : VlanOps → NetDevice → Bonding → Bonding
unfolding add_all
add_vlans_on_slave o d b =
    let b₁ = if o.registers d then log (vlan_register d.ptr true) b else b in
    if no_vlans b then b else if o.adds d then add_all d.ptr b.vlan_list b₁ else b₁

-- `bond_del_vlans_from_slave`.
unfoldable pub kill_all : ℕ → List VlanEntry → Bonding → Bonding
kill_all d [] b = b
kill_all d (v ∷ vs) b = kill_all d vs (log (vlan_kill d v.vlan_id) b)

unfoldable pub del_vlans_from_slave : VlanOps → NetDevice → Bonding → Bonding
unfolding kill_all
del_vlans_from_slave o d b =
    let b₁ = if o.kills d then kill_all d.ptr b.vlan_list b else b in
    if no_vlans b then b else if o.registers d then log (vlan_register d.ptr false) b₁ else b₁

-- ===== src/Bond/Vlans/RoundTrip.antt =====
-- bond_add_vlan and bond_del_vlan, 27/bond_main.c, one after the other.
use hoolock.Common.{
  ℕ, ◌≡◌, refl, ◌∙◌, ap, List, [], ◌∷◌, ◌++◌, Bool, true, false, ◌&&◌, Option, none, some,
  if◌then◌else◌, ◌==◌, ==_refl,
}
use hoolock.Bond.State.{Bonding, VlanEntry, enodev}
use hoolock.Bond.Vlans.{
  VlanOps, no_vlans, no_slaves, add_vlan, without_vlan, is_alb_mode, del_found, del_vlan,
  rx_add_vid, rx_kill_vid, each_add_vid, each_kill_vid,
}

-- No entry of the list has this id.
abbrev pub Unlisted : ℕ → List VlanEntry → Type 0
Unlisted vid [] = Unit
Unlisted vid (v ∷ vs) = (v.vlan_id == vid ≡ false) × Unlisted vid vs

without_vlan-Unlisted :
    (vid : ℕ) (vs : List VlanEntry) → Unlisted vid vs → without_vlan vid vs ≡ none
unfolding without_vlan
without_vlan-Unlisted vid [] n = refl
without_vlan-Unlisted vid (v ∷ vs) n = rw (n.0, without_vlan-Unlisted vid vs n.1) refl

without_vlan-append :
    (vid : ℕ) (vs : List VlanEntry)
    → Unlisted vid vs
    → without_vlan vid (vs ++ (record { vlan_ip = 0; vlan_id = vid } ∷ [])) ≡ some vs
unfolding without_vlan
without_vlan-append vid [] n = rw (==_refl vid) refl
without_vlan-append vid (v ∷ vs) n = rw (n.0, without_vlan-append vid vs n.1) refl

-- The slave list and the VLAN list are as before.
record Lists (b c : Bonding) : Type 0 where
  pub slaves : c.slaves ≡ b.slaves
  pub vlans : c.vlan_list ≡ b.vlan_list

Lists-trans : {b c d : Bonding} → Lists b c → Lists c d → Lists b d
Lists-trans h k = record { slaves = k.slaves ∙ h.slaves; vlans = k.vlans ∙ h.vlans }

if-Lists : (t : Bool) {b c : Bonding} → Lists b c → Lists b (if t then c else b)
if-Lists true h = h
if-Lists false h = record { slaves = refl; vlans = refl }

each_add-Lists :
    (o : VlanOps) (vid : ℕ) (ps : List ℕ) (b : Bonding) → Lists b (each_add_vid o vid ps b)
unfolding each_add_vid
each_add-Lists o vid [] b = record { slaves = refl; vlans = refl }
each_add-Lists o vid (p ∷ ps) b =
    Lists-trans (if-Lists (o.adds (b.mem p).dev) (record { slaves = refl; vlans = refl }))
      (each_add-Lists o vid ps _)

each_kill-Lists :
    (o : VlanOps) (vid : ℕ) (ps : List ℕ) (b : Bonding) → Lists b (each_kill_vid o vid ps b)
unfolding each_kill_vid
each_kill-Lists o vid [] b = record { slaves = refl; vlans = refl }
each_kill-Lists o vid (p ∷ ps) b =
    Lists-trans (if-Lists (o.kills (b.mem p).dev) (record { slaves = refl; vlans = refl }))
      (each_kill-Lists o vid ps _)

-- What is relied on of bond_alb.c: it leaves the two lists alone.
pub record ClearLaws (o : VlanOps) : Type 0 where
  pub slaves : (vid : ℕ) (b : Bonding) → (o.alb_clear_vlan vid b).slaves ≡ b.slaves
  pub vlans : (vid : ℕ) (b : Bonding) → (o.alb_clear_vlan vid b).vlan_list ≡ b.vlan_list

found-Lists :
    (o : VlanOps)
    → ClearLaws o
    → (vid : ℕ) (vs : List VlanEntry) (b : Bonding)
    → Lists (record b { vlan_list = vs }) (del_found o vid (some vs) b).1
unfolding del_found
found-Lists o laws vid vs b =
    let b₁ = record b { vlan_list = vs } in
    let b₂ = if is_alb_mode b.params.mode then o.alb_clear_vlan vid b₁ else b₁ in
    Lists-trans
      (if-Lists (is_alb_mode b.params.mode)
        (record { slaves = laws.slaves vid b₁; vlans = laws.vlans vid b₁ }))
      (if-Lists (no_vlans b₂ && no_slaves b₂) (record { slaves = refl; vlans = refl }))

-- Where no entry of the VLAN list has this id, `bond_vlan_rx_kill_vid` after `bond_vlan_rx_add_vid`,
-- whose allocation succeeds, gives back the VLAN list and the slave list, and `bond_del_vlan` by
-- itself fails with -ENODEV and changes nothing.
pub rx_kill_vid-rx_add_vid :
    (o : VlanOps) (vid : ℕ) (b : Bonding)
    → ClearLaws o
    → Unlisted vid b.vlan_list
    → ((rx_kill_vid o vid (rx_add_vid o true vid b)).vlan_list ≡ b.vlan_list)
      × ((rx_kill_vid o vid (rx_add_vid o true vid b)).slaves ≡ b.slaves)
      × ((del_vlan o vid b) ≡ (enodev, b))
unfolding rx_kill_vid rx_add_vid add_vlan del_vlan del_found
rx_kill_vid-rx_add_vid o vid b laws n =
    let c = rx_add_vid o true vid b in
    let h = each_add-Lists o vid b.slaves b in
    let k = each_kill-Lists o vid c.slaves c in
    let new = record { vlan_ip = 0; vlan_id = vid } ∷ [] in
    let e =
      ap (without_vlan vid) (k.vlans ∙ ap (λ vs. vs ++ new) h.vlans)
      ∙ without_vlan-append vid b.vlan_list n in
    let d = each_kill_vid o vid c.slaves c in
    let f = found-Lists o laws vid b.vlan_list d in
    (
      ap (λ (u : Option (List VlanEntry)). (del_found o vid u d).1.vlan_list) e ∙ f.vlans,
      ap (λ (u : Option (List VlanEntry)). (del_found o vid u d).1.slaves) e
          ∙ f.slaves
          ∙ k.slaves
          ∙ h.slaves,
      ap (λ (u : Option (List VlanEntry)). del_found o vid u b)
          (without_vlan-Unlisted vid b.vlan_list n),
    )

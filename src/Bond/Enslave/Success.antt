-- ===== src/Bond/Enslave/Success.antt =====
-- bond_enslave in hoolock mode where everything that it calls succeeds.
use hoolock.Common.{
  ℕ, ◌≡◌, inl, inr, NotIn, refl, ◌∙◌, ap, sym, subst, Bool, true, false, ◌&&◌, ◌||◌, not, none,
  some, if◌then◌else◌, ◌==◌, arith,
}
use hoolock.Bond.State.{
  Bonding, NetDevice, hoolock_mode, Status, ok, ebusy, eperm, einval, eopnotsupp,
}
use hoolock.Bond.Slaves.{uses_primary}
use hoolock.Bond.Vlans.{set_challenged, no_vlans, no_slaves, is_alb_mode, add_vlans_on_slave}
use hoolock.Net.Device.{netdev_set_master, dev_open, dev_set_promiscuity, plus}
use hoolock.Bond.Invariant.{IsWellFormed}
use hoolock.Bond.Enslave.Laws.{ServicesLaws}
use hoolock.Bond.Enslave.Attached.{or_new}
use hoolock.Bond.Enslave.Errors.{Outcome, Succeeded}
use hoolock.Bond.Enslave.Outcomes.{bond_enslave_lem}
use hoolock.Bond.Enslave.{
  Services, Enslaved, refused, err_undo_flags, new_slave, attached, linked, with_lacp, attach,
  with_promisc, with_counters, with_alb, with_open, with_master, with_mac, allocated,
  with_mac_support, with_type, with_flags, bond_enslave, is_fom_none, is_fom_active, set_fom_active,
  setup_by,
}

-- The device is free, down, of the right type and can have its address set; its address is set,
-- and it is opened, without an error; and the symbolic links are made.
pub record Suits (v : Services) (b : Bonding) (d : NetDevice) : Type 0 where
  pub mode : b.params.mode ≡ hoolock_mode
  pub no_slave : d.iff_slave ≡ false
  pub no_master : d.master ≡ none
  pub down : d.iff_up ≡ false
  pub vlans : d.vlan_challenged && not (no_vlans b) ≡ false
  pub dev_type : no_slaves b || b.dev.dev_type == d.dev_type ≡ true
  pub can_set_mac : d.can_set_mac ≡ true
  pub sets_mac : (a : ℕ) → (v.extern.dev_set_mac_address d a).0 ≡ ok
  pub keeps_master : (a : ℕ) → (v.extern.dev_set_mac_address d a).1.master ≡ none
  pub opens : (e : NetDevice) → (dev_open v.driver e).0 ≡ ok
  pub links : (e : NetDevice) → v.create_symlinks e ≡ ok

module _ (v : Services) (b₀ : Bonding) (d₀ : NetDevice) (h : Suits v b₀ d₀) (now : ℕ) (old : Bool)
    (p a : ℕ) where
  attach-ok : (b : Bonding) (d : NetDevice) → (attach v now old p a b d).status ≡ ok
  unfolding attach linked
  attach-ok b d =
      let c =
        attached v now p (new_slave v a d)
          (add_vlans_on_slave v.vlan_ops d (with_lacp v b.params.mode d.ptr b)) in
      ap (λ st. (linked v old p a st c).status) (h.links (c.mem p).dev)

  counters-ok :
      (b : Bonding) (d : NetDevice)
      → b.params.mode ≡ hoolock_mode
      → (with_counters v now old p a b d).status ≡ ok
  unfolding with_counters
  counters-ok b d m =
      ap
        (λ (t : Bool).
          (if t
            then attach v now old p a b d
            else with_promisc v now old p a b
                (if b.dev.iff_promisc then dev_set_promiscuity d plus else (ok, d))).status)
        (ap uses_primary m)
      ∙ attach-ok b d

  open-ok :
      (b : Bonding) (d : NetDevice) (st : Status)
      → b.params.mode ≡ hoolock_mode
      → st ≡ ok
      → (with_open v now old p a b (st, d)).status ≡ ok
  unfolding with_open with_alb
  open-ok b d st m e =
      let d₁ = record d { iff_bonding = true } in
      subst (λ t. (with_open v now old p a b (t, d)).status ≡ ok) (sym e)
        (ap
            (λ (t : Bool).
              (with_alb v now old p a
                (if t then v.alb_init_slave (new_slave v a d₁) b else (ok, d₁, b))).status)
            (ap is_alb_mode m)
          ∙ counters-ok b d₁ m)

  master-ok :
      (b : Bonding) (d : NetDevice) (st : Status)
      → b.params.mode ≡ hoolock_mode
      → st ≡ ok
      → (with_master v now old p a b (st, d)).status ≡ ok
  unfolding with_master
  master-ok b d st m e =
      subst (λ t. (with_master v now old p a b (t, d)).status ≡ ok) (sym e)
        (open-ok b _ _ m (h.opens d))

  set_master-ok : (d : NetDevice) (m : ℕ) → d.master ≡ none → (netdev_set_master d (some m)).0 ≡ ok
  unfolding netdev_set_master
  set_master-ok d m e = ground arith

  mac-ok :
      (b : Bonding) (d : NetDevice) (st : Status)
      → b.params.mode ≡ hoolock_mode
      → st ≡ ok
      → d.master ≡ none
      → (with_mac v now old p a b (st, d)).status ≡ ok
  unfolding with_mac
  mac-ok b d st m e n =
      subst (λ t. (with_mac v now old p a b (t, d)).status ≡ ok) (sym e)
        (master-ok b _ _ m (set_master-ok d b.dev.ptr n))

  mac_if_ok :
      (t : Bool) (b : Bonding)
      → b.params.mode ≡ hoolock_mode
      → (with_mac v now old p a b
          (if t then v.extern.dev_set_mac_address d₀ b.dev.dev_addr else (ok, d₀))).status
        ≡ ok
  mac_if_ok true b m = mac-ok b _ _ m (h.sets_mac b.dev.dev_addr) (h.keeps_master b.dev.dev_addr)
  mac_if_ok false b m = mac-ok b d₀ ok m refl h.no_master

module _ (v : Services) (b₀ : Bonding) (d : NetDevice) (h : Suits v b₀ d) (now : ℕ) (old : Bool)
    (p : ℕ) where
  support-ok :
      (b : Bonding)
      → b.params.mode ≡ hoolock_mode
      → (with_mac_support v now old (some p) b d).status ≡ ok
  unfolding with_mac_support allocated
  support-ok b m =
      ap
        (λ (t : Bool).
          (if t
            then allocated v now old (some p) b d
            else if no_slaves b
            then allocated v now old (some p) (set_fom_active v b) d
            else if is_fom_active b.params.fail_over_mac
            then allocated v now old (some p) b d
            else err_undo_flags v old eopnotsupp b d).status)
        h.can_set_mac
      ∙ mac_if_ok v b₀ d h now old p d.dev_addr (is_fom_none b.params.fail_over_mac) b m

  type_if_ok :
      (z e t : Bool) (b : Bonding)
      → b.params.mode ≡ hoolock_mode
      → z || t ≡ true
      → (if z
          then with_mac_support v now old (some p) (if e then b else setup_by v d b) d
          else if t
          then with_mac_support v now old (some p) b d
          else err_undo_flags v old einval b d).status
        ≡ ok
  type_if_ok true true t b m k = support-ok b m
  type_if_ok true false t b m k = support-ok (setup_by v d b) m
  type_if_ok false e true b m k = support-ok b m
  type_if_ok false e false b m k = ground (arith, k)

  flags-ok :
      (b : Bonding)
      → b.params.mode ≡ hoolock_mode
      → no_slaves b || b.dev.dev_type == d.dev_type ≡ true
      → (with_flags v now old (some p) b d).status ≡ ok
  unfolding with_flags with_type
  flags-ok b m k =
      ap
        (λ (t : Bool).
          (if t then err_undo_flags v old eperm b d else with_type v now old (some p) b d).status)
        h.down
      ∙ type_if_ok (no_slaves b) (d.dev_type == v.ether) (b.dev.dev_type == d.dev_type) b m k

  flags_if_ok :
      (t z : Bool)
      → (with_flags v now old
          (some p)
          (if t then set_challenged true b₀ else if z then set_challenged false b₀ else b₀)
          d).status
        ≡ ok
  flags_if_ok true z = flags-ok (set_challenged true b₀) h.mode h.dev_type
  flags_if_ok false true = flags-ok (set_challenged false b₀) h.mode h.dev_type
  flags_if_ok false false = flags-ok b₀ h.mode h.dev_type

enslaves-ok :
    (v : Services) (now p : ℕ) (d : NetDevice) (b : Bonding)
    → Suits v b d
    → (bond_enslave v now (some p) d b).status ≡ ok
unfolding bond_enslave
enslaves-ok v now p d b h =
    let old = b.dev.vlan_challenged in
    let r =
      with_flags v now old (some p)
        (if d.vlan_challenged
          then set_challenged true b
          else if no_slaves b
          then set_challenged false b
          else b)
        d in
    ap
      (λ (t : Bool).
        (if t
          then refused ebusy b d
          else if d.vlan_challenged && not (no_vlans b)
          then refused eperm b d
          else r).status)
      h.no_slave
    ∙ ap (λ (t : Bool). (if t then refused eperm b d else r).status) h.vlans
    ∙ flags_if_ok v b d h now old p d.vlan_challenged (no_slaves b)

some-inj : (p q : ℕ) → some p ≡ some q → p ≡ q
some-inj p q e = cc

-- Of the three ways in which it can end, the one with this result.
only_success :
    (v : Services) (p : ℕ) (d : NetDevice) (b : Bonding) (r : Enslaved)
    → r.status ≡ ok
    → Outcome v b d (some p) r
    → Succeeded b d p r
only_success v p d b r e (inl f) = absurd (f.is_error e)
only_success v p d b r e (inr (q, i, inl s)) =
    subst (λ n. Succeeded b d n r) (sym (some-inj p q i)) s
only_success v p d b r e (inr (q, i, inr u)) = absurd (u.0 e)

-- In hoolock mode, on a well-formed bond, `bond_enslave` succeeds for a device that is free, down,
-- of the bond's type (or the first one), can have its address set and is not VLAN-challenged where
-- the bond has VLANs, where the structure is allocated and the calls for its address, its opening
-- and the symbolic links succeed: the slave with this device is at the end of the list, the bond is
-- well-formed with the packet buffer as before, and the active slave stays, or is the new one if
-- there was none.
pub bond_enslave-ok :
    (v : Services) (laws : ServicesLaws v) (now p : ℕ) (d : NetDevice) (b : Bonding)
    → IsWellFormed b
    → NotIn p b.slaves
    → Suits v b d
    → Succeeded b d p (bond_enslave v now (some p) d b)
      × ((bond_enslave v now (some p) d b).bond.curr_active_slave ≡ or_new p b.curr_active_slave)
bond_enslave-ok v laws now p d b w n h =
    let s = only_success v p d b (bond_enslave v now (some p) d b) (enslaves-ok v now p d b h) (
      bond_enslave_lem v laws now (some p) d b w
        (λ q e. subst (λ m. NotIn m b.slaves) (some-inj p q e) n) h.no_master) in
    (s, s.2.hoolock h.mode)

-- ===== src/Bond/Enslave/Outcomes.antt =====
-- bond_enslave as a whole.
use hoolock.Common.{
  ℕ, ◌≡◌, ◌≢◌, inl, refl, ◌∙◌, Bool, true, false, ◌&&◌, not, Option, none, some, if◌then◌else◌,
  ◌==◌, NotIn, arith,
}
use hoolock.Bond.State.{Bonding, NetDevice, Status, ok, ebusy, eperm, einval, eopnotsupp, enomem}
use hoolock.Bond.Slaves.{is_ok}
use hoolock.Bond.Invariant.{IsWellFormed}
use hoolock.Bond.Vlans.{set_challenged, no_vlans, no_slaves, is_alb_mode}
use hoolock.Net.Device.{netdev_set_master, dev_open}
use hoolock.Bond.Enslave.{
  Services, refused, err_undo_flags, new_slave, with_alb, with_open, with_master, with_mac,
  allocated, with_mac_support, with_type, with_flags, bond_enslave, is_fom_none, is_fom_active,
  set_fom_active, setup_by,
}
use hoolock.Bond.Enslave.Laws.{
  ServicesLaws, SameDevice, SameDevice-refl, Untouched, Untouched-refl, Untouched-trans,
  Leaves-Untouched,
}
use hoolock.Bond.Enslave.Errors.{
  Failed, Outcome, not_ok, challenged-Untouched, fom-Untouched, setup-Untouched,
}
use hoolock.Bond.Enslave.Stages.{
  Loose, old, ptr-set_master, ptr-dev_open, down-dev_open, undo_flags-Failed, free-Failed,
  unset_master-Failed, close-Failed, counters-Outcome,
}

master_refused :
    (d : NetDevice) (m : ℕ) → is_ok (netdev_set_master d (some m)).0 ≡ false → d.master ≢ none
unfolding netdev_set_master
master_refused d m h e = ground arith

up-set_master : (d : NetDevice) (m : Option ℕ) → (netdev_set_master d m).1.iff_up ≡ d.iff_up
unfolding netdev_set_master
up-set_master d m = ground arith

module _ (v : Services) (laws : ServicesLaws v) (b₀ : Bonding) (d₀ : NetDevice) (alloc : Option ℕ)
    (master_no : d₀.master ≡ none) (slave_no : d₀.iff_slave ≡ false) (up_no : d₀.iff_up ≡ false)
    (w : IsWellFormed b₀) (fresh : (p : ℕ) → alloc ≡ some p → NotIn p b₀.slaves) where
  module _ (now p a : ℕ) (i : alloc ≡ some p) where
    alb-Outcome :
        (st : Status) (d : NetDevice) (b : Bonding)
        → Untouched b₀ b
        → d.ptr ≡ d₀.ptr
        → Outcome v b₀ d₀ alloc (with_alb v now (old v laws b₀ d₀ alloc) p a (st, d, b))
    unfolding with_alb
    alb-Outcome ok d b u e =
        counters-Outcome v laws b₀ d₀ alloc slave_no up_no w fresh now p a i b d u e
    alb-Outcome st d b u e =
        inl (close-Failed v laws b₀ d₀ alloc slave_no up_no w fresh st p a b d (not_ok st refl) u)

    alb_if :
        (t : Bool) (d : NetDevice) (b : Bonding)
        → Untouched b₀ b
        → d.ptr ≡ d₀.ptr
        → Outcome v b₀ d₀ alloc (
            with_alb v now
              (old v laws b₀ d₀ alloc)
              p
              a
              (if t then v.alb_init_slave (new_slave v a d) b else (ok, d, b)))
    alb_if true d b u e =
        let s = new_slave v a d in
        alb-Outcome (v.alb_init_slave s b).0 (v.alb_init_slave s b).1 (v.alb_init_slave s b).2
          (Untouched-trans u (Leaves-Untouched (laws.alb_init s b)))
          ((laws.alb_init_same s b).ptr ∙ e)
    alb_if false d b u e = alb-Outcome ok d b u e

    open-Outcome :
        (b : Bonding) (st : Status) (d : NetDevice)
        → Untouched b₀ b
        → d.ptr ≡ d₀.ptr
        → (is_ok st ≡ false → d.iff_up ≡ d₀.iff_up)
        → Outcome v b₀ d₀ alloc (with_open v now (old v laws b₀ d₀ alloc) p a b (st, d))
    unfolding with_open
    open-Outcome b ok d u e h = alb_if (is_alb_mode b.params.mode) _ b u e
    open-Outcome b st d u e h = inl (
        unset_master-Failed v laws b₀ d₀ alloc slave_no up_no w fresh st p a b d (not_ok st refl) u
          (h refl))

    master-Outcome :
        (b : Bonding) (st : Status) (d : NetDevice)
        → Untouched b₀ b
        → d.ptr ≡ d₀.ptr
        → d.iff_up ≡ d₀.iff_up
        → (is_ok st ≡ false → ⊥)
        → Outcome v b₀ d₀ alloc (with_master v now (old v laws b₀ d₀ alloc) p a b (st, d))
    unfolding with_master
    master-Outcome b ok d u e h n =
        open-Outcome b (dev_open v.driver d).0 (dev_open v.driver d).1 u
          (ptr-dev_open v.driver d ∙ e) (λ f. down-dev_open v.driver d f ∙ h)
    master-Outcome b st d u e h n = absurd (n refl)

    mac-Outcome :
        (b : Bonding) (st : Status) (d : NetDevice)
        → Untouched b₀ b
        → SameDevice d₀ d
        → Outcome v b₀ d₀ alloc (with_mac v now (old v laws b₀ d₀ alloc) p a b (st, d))
    unfolding with_mac
    mac-Outcome b ok d u s =
        let r = netdev_set_master d (some b.dev.ptr) in
        master-Outcome b r.0 r.1 u (ptr-set_master d (some b.dev.ptr) ∙ s.ptr)
          (up-set_master d (some b.dev.ptr) ∙ s.iff_up)
          (λ f. master_refused d b.dev.ptr f (s.master ∙ master_no))
    mac-Outcome b st d u s = inl (
        free-Failed v laws b₀ d₀ alloc st p b d (not_ok st refl) u
          (s.master ∙ master_no, s.iff_slave, s.iff_up))

  mac_if :
      (now p : ℕ) (t : Bool) (b : Bonding)
      → alloc ≡ some p
      → Untouched b₀ b
      → Outcome v b₀ d₀ alloc (
          with_mac v now
            (old v laws b₀ d₀ alloc)
            p
            d₀.dev_addr
            b
            (if t then v.extern.dev_set_mac_address d₀ b.dev.dev_addr else (ok, d₀)))
  mac_if now p true b i u =
      let r = v.extern.dev_set_mac_address d₀ b.dev.dev_addr in
      mac-Outcome now p d₀.dev_addr i b r.0 r.1 u (laws.mac_same d₀ b.dev.dev_addr)
  mac_if now p false b i u = mac-Outcome now p d₀.dev_addr i b ok d₀ u (SameDevice-refl d₀)

  loose : Loose d₀ d₀
  loose = (master_no, refl, refl)

  undo :
      (st : Status) (b : Bonding)
      → is_ok st ≡ false
      → Untouched b₀ b
      → Outcome v b₀ d₀ alloc (err_undo_flags v (old v laws b₀ d₀ alloc) st b d₀)
  undo st b e u = inl (undo_flags-Failed v laws b₀ d₀ alloc st b d₀ (not_ok st e) u loose)

  allocated-Outcome :
      (now : ℕ) (o : Option ℕ) (b : Bonding)
      → alloc ≡ o
      → Untouched b₀ b
      → Outcome v b₀ d₀ alloc (allocated v now (old v laws b₀ d₀ alloc) o b d₀)
  unfolding allocated
  allocated-Outcome now none b e u = undo enomem b refl u
  allocated-Outcome now (some p) b e u = mac_if now p (is_fom_none b.params.fail_over_mac) b e u

  mac_support-Outcome :
      (now : ℕ) (t z f : Bool) (b : Bonding)
      → Untouched b₀ b
      → Outcome v b₀ d₀ alloc (
          let c = allocated v now (old v laws b₀ d₀ alloc) alloc b d₀ in
          if t
          then c
          else if z
          then allocated v now (old v laws b₀ d₀ alloc) alloc (set_fom_active v b) d₀
          else if f
          then c
          else err_undo_flags v (old v laws b₀ d₀ alloc) eopnotsupp b d₀)
  mac_support-Outcome now true z f b u = allocated-Outcome now alloc b refl u
  mac_support-Outcome now false true f b u =
      allocated-Outcome now alloc _ refl (Untouched-trans u (fom-Untouched b))
  mac_support-Outcome now false false true b u = allocated-Outcome now alloc b refl u
  mac_support-Outcome now false false false b u = undo eopnotsupp b refl u

  support-Outcome :
      (now : ℕ) (b : Bonding)
      → Untouched b₀ b
      → Outcome v b₀ d₀ alloc (with_mac_support v now (old v laws b₀ d₀ alloc) alloc b d₀)
  unfolding with_mac_support
  support-Outcome now b u =
      mac_support-Outcome now d₀.can_set_mac (no_slaves b) (is_fom_active b.params.fail_over_mac) b
        u

  setup_if :
      (t : Bool) (b : Bonding) → Untouched b₀ b → Untouched b₀ (if t then b else setup_by v d₀ b)
  setup_if true b u = u
  setup_if false b u = Untouched-trans u (setup-Untouched d₀.dev_type b)

  type_if :
      (now : ℕ) (z e t : Bool) (b : Bonding)
      → Untouched b₀ b
      → Outcome v b₀ d₀ alloc (
          let o = old v laws b₀ d₀ alloc in
          if z
          then with_mac_support v now o alloc (if e then b else setup_by v d₀ b) d₀
          else if t
          then with_mac_support v now o alloc b d₀
          else err_undo_flags v o einval b d₀)
  type_if now true e t b u = support-Outcome now _ (setup_if e b u)
  type_if now false e true b u = support-Outcome now b u
  type_if now false e false b u = undo einval b refl u

  pub type-Outcome :
      (now : ℕ) (b : Bonding)
      → Untouched b₀ b
      → Outcome v b₀ d₀ alloc (with_type v now (old v laws b₀ d₀ alloc) alloc b d₀)
  unfolding with_type
  type-Outcome now b u =
      type_if now (no_slaves b) (d₀.dev_type == v.ether) (b.dev.dev_type == d₀.dev_type) b u

module _ (v : Services) (laws : ServicesLaws v) (now : ℕ) (alloc : Option ℕ) (d : NetDevice)
    (b : Bonding) (w : IsWellFormed b) (fresh : (p : ℕ) → alloc ≡ some p → NotIn p b.slaves)
    (free : d.master ≡ none) where
  flags-Outcome :
      (t : Bool) (c : Bonding)
      → d.iff_slave ≡ false
      → d.iff_up ≡ t
      → Untouched b c
      → Outcome v b d alloc (
          if t
          then err_undo_flags v b.dev.vlan_challenged eperm c d
          else with_type v now b.dev.vlan_challenged alloc c d)
  flags-Outcome true c s e u =
      inl (undo_flags-Failed v laws b d alloc eperm c d (not_ok eperm refl) u (free, refl, refl))
  flags-Outcome false c s e u = type-Outcome v laws b d alloc free s e w fresh now c u

  challenged_if :
      (t z : Bool)
      → Untouched b (if t then set_challenged true b else if z then set_challenged false b else b)
  challenged_if true z = challenged-Untouched true b
  challenged_if false true = challenged-Untouched false b
  challenged_if false false = Untouched-refl b

  refused-Failed : (st : Status) → is_ok st ≡ false → Failed b d (refused st b d)
  refused-Failed st e = record {
    is_error = not_ok st e;
    untouched = Untouched-refl b;
    vlan_challenged = refl;
    master = free;
    iff_slave = refl;
    iff_up = refl;
  }

  enslave_if :
      (s c : Bool)
      → d.iff_slave ≡ s
      → Outcome v b d alloc (
          if s
          then refused ebusy b d
          else if c
          then refused eperm b d
          else with_flags v now b.dev.vlan_challenged alloc
              (if d.vlan_challenged
                then set_challenged true b
                else if no_slaves b
                then set_challenged false b
                else b)
              d)
  unfolding with_flags
  enslave_if true c e = inl (refused-Failed ebusy refl)
  enslave_if false true e = inl (refused-Failed eperm refl)
  enslave_if false false e =
      flags-Outcome d.iff_up _ e refl (challenged_if d.vlan_challenged (no_slaves b))

  -- For a device without a master, `bond_enslave` on a well-formed bond ends in one of three ways.
  -- It fails, with the slaves, the slave pointers, the packet buffer and the vlan flag of the bond
  -- as before, and the device without a master, a slave or not and up or not as before. Or it
  -- succeeds: the new slave, with this device, is at the end of the list, the bond is well-formed
  -- with the packet buffer as before, and in hoolock mode the active slave stays, or is the new one
  -- if there was none. Or no symbolic links can be made: then it fails and has freed the structure
  -- of the new slave, which is still on the list.
  pub bond_enslave_lem : Outcome v b d alloc (bond_enslave v now alloc d b)
  unfolding bond_enslave
  bond_enslave_lem = enslave_if d.iff_slave (d.vlan_challenged && not (no_vlans b)) refl

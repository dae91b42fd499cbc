-- ===== src/Bond/Enslave/Stages.antt =====
-- The stages of bond_enslave, one after the other, with its labels for errors.
use hoolock.Common.{
  ℕ, ◌≡◌, ◌≢◌, inl, inr, refl, ◌∙◌, ap, sym, subst, [], ◌∷◌, ◌++◌, Bool, true, false, Option, none,
  some, if◌then◌else◌, NotIn, arith,
}
use hoolock.Bond.State.{Bonding, Slave, NetDevice, Mode, lacp, Status, ok, mc_add, vlan_register}
use hoolock.Bond.Slaves.{is_ok, uses_primary, log}
use hoolock.Bond.Active.Steps.{
  Leaves, Leaves-trans, if-Leaves, either-Leaves, log-Leaves, log_mc-Leaves, ptr-promiscuity,
  ptr-allmulti,
}
use hoolock.Bond.Invariant.{Keeps-refl, IsWellFormed}
use hoolock.Bond.Vlans.{no_vlans, add_vlans_on_slave}
use hoolock.Net.Device.{
  plus, dev_set_promiscuity, dev_set_allmulti, netdev_set_master, DeviceDriver, dev_open, dev_close,
  opened, validated,
}
use hoolock.Bond.Enslave.{
  Services, err_undo_flags, err_free, err_restore_mac, err_unset_master, err_close, new_slave,
  attached, linked, with_lacp, attach, with_allmulti, with_promisc, with_counters, is_fom_none,
}
use hoolock.Bond.Enslave.Laws.{
  ServicesLaws, Untouched, Untouched-trans, Leaves-Untouched, Untouched-IsWellFormed,
}
use hoolock.Bond.Enslave.Attached.{Attached, attached_lem, or_new}
use hoolock.Bond.Enslave.Errors.{
  Failed, Grown, Outcome, not_ok, challenged-Untouched, add_all-Leaves,
}

add_vlans-Leaves :
    (v : Services) (d : NetDevice) (b : Bonding) → Leaves b (add_vlans_on_slave v.vlan_ops d b)
unfolding add_vlans_on_slave
add_vlans-Leaves v d b =
    let b₁ = if v.vlan_ops.registers d then log (vlan_register d.ptr true) b else b in
    let h = if-Leaves (v.vlan_ops.registers d) (log-Leaves (vlan_register d.ptr true) b) in
    either-Leaves (no_vlans b) (Keeps-refl b, refl)
      (either-Leaves (v.vlan_ops.adds d) (Leaves-trans h (add_all-Leaves d.ptr b.vlan_list b₁)) h)

-- The device has no master, and is opened or not as it was.
abbrev pub Loose : NetDevice → NetDevice → Type 0
Loose d e = (e.master ≡ none) × (e.iff_slave ≡ d.iff_slave) × (e.iff_up ≡ d.iff_up)

down-dev_close : (w : DeviceDriver) (d : NetDevice) → (dev_close w d).iff_up ≡ false
unfolding dev_close
down-dev_close w d = ground arith

pub ptr-set_master : (d : NetDevice) (m : Option ℕ) → (netdev_set_master d m).1.ptr ≡ d.ptr
unfolding netdev_set_master
ptr-set_master d m = ground arith

unset_master :
    (d e : NetDevice)
    → d.iff_slave ≡ false
    → e.iff_up ≡ d.iff_up
    → Loose d (netdev_set_master e none).1
unfolding netdev_set_master
unset_master d e f u = ground arith

ptr-opened : (d : NetDevice) (r : Status × Bool) → (opened d r).1.ptr ≡ d.ptr
ptr-opened d (ok, c) = refl
ptr-opened d (st, c) = refl

ptr-validated : (w : DeviceDriver) (d : NetDevice) (st : Status) → (validated w d st).1.ptr ≡ d.ptr
ptr-validated w d ok = ptr-opened d _
ptr-validated w d st = refl

pub ptr-dev_open : (w : DeviceDriver) (d : NetDevice) → (dev_open w d).1.ptr ≡ d.ptr
unfolding dev_open
ptr-dev_open w d = ground (arith, ptr-validated w d (w.validate_addr (record d { running = true })))

-- A device that could not be opened is not up.
down-opened :
    (d : NetDevice) (r : Status × Bool)
    → is_ok (opened d r).0 ≡ false
    → (opened d r).1.iff_up ≡ d.iff_up
down-opened d (ok, c) h = ground arith
down-opened d (st, c) h = refl

down-validated :
    (w : DeviceDriver) (d : NetDevice) (st : Status)
    → is_ok (validated w d st).0 ≡ false
    → (validated w d st).1.iff_up ≡ d.iff_up
down-validated w d ok h = down-opened d _ h
down-validated w d st h = refl

pub down-dev_open :
    (w : DeviceDriver) (d : NetDevice)
    → is_ok (dev_open w d).0 ≡ false
    → (dev_open w d).1.iff_up ≡ d.iff_up
unfolding dev_open
down-dev_open w d h =
    ground (arith, down-validated w d (w.validate_addr (record d { running = true })))

module _ (v : Services) (laws : ServicesLaws v) (b₀ : Bonding) (d₀ : NetDevice)
    (alloc : Option ℕ) where
  abbrev pub old : Bool
  old = b₀.dev.vlan_challenged

  pub undo_flags-Failed :
      (st : Status) (b : Bonding) (d : NetDevice)
      → st ≢ ok
      → Untouched b₀ b
      → Loose d₀ d
      → Failed b₀ d₀ (err_undo_flags v old st b d)
  undo_flags-Failed st b d e u l = record {
    is_error = e;
    untouched = Untouched-trans u (challenged-Untouched old b);
    vlan_challenged = refl;
    master = l.0;
    iff_slave = l.1;
    iff_up = l.2;
  }

  pub free-Failed :
      (st : Status) (p : ℕ) (b : Bonding) (d : NetDevice)
      → st ≢ ok
      → Untouched b₀ b
      → Loose d₀ d
      → Failed b₀ d₀ (err_free v old st p b d)
  free-Failed st p b d e u l = record {
    is_error = e;
    untouched = Untouched-trans u (challenged-Untouched old b);
    vlan_challenged = refl;
    master = l.0;
    iff_slave = l.1;
    iff_up = l.2;
  }

  mac-Loose : (a : ℕ) (d : NetDevice) → Loose d₀ d → Loose d₀ (v.extern.dev_set_mac_address d a).1
  mac-Loose a d l = let s = laws.mac_same d a in (s.master ∙ l.0, s.iff_slave ∙ l.1, s.iff_up ∙ l.2)

  mac_if-Loose :
      (t : Bool) (a : ℕ) (d : NetDevice)
      → Loose d₀ d
      → Loose d₀ (if t then (v.extern.dev_set_mac_address d a).1 else d)
  mac_if-Loose true a d l = mac-Loose a d l
  mac_if-Loose false a d l = l

  pub restore_mac-Failed :
      (st : Status) (p a : ℕ) (b : Bonding) (d : NetDevice)
      → st ≢ ok
      → Untouched b₀ b
      → Loose d₀ d
      → Failed b₀ d₀ (err_restore_mac v old st p a b d)
  restore_mac-Failed st p a b d e u l =
      free-Failed st p b _ e u (mac_if-Loose (is_fom_none b.params.fail_over_mac) a d l)

  with_lacp-Leaves : (m : Mode) (d : ℕ) (b : Bonding) → Leaves b (with_lacp v m d b)
  with_lacp-Leaves lacp d b = log-Leaves _ b
  with_lacp-Leaves _ d b = (Keeps-refl b, refl)

  linked-Outcome :
      (p a : ℕ) (c : Bonding) (e : NetDevice) (st : Status)
      → alloc ≡ some p
      → Grown b₀ d₀ p c
      → v.create_symlinks e ≡ st
      → Outcome v b₀ d₀ alloc (linked v old p a st c)
  unfolding linked
  linked-Outcome p a c e ok i g h = inr (p, i, inl (refl, refl, g))
  linked-Outcome p a c e st i g h = inr (p, i, inr (not_ok st refl, refl, g.slaves, (e, h)))

  grown :
      (p : ℕ) (s : Slave) (b c : Bonding)
      → Untouched b₀ b
      → s.dev.ptr ≡ d₀.ptr
      → Attached b p s c
      → Grown b₀ d₀ p c
  grown p s b c u e g = record {
    slaves = g.slaves ∙ ap (λ ps. ps ++ (p ∷ [])) u.slaves;
    valid = g.valid;
    slave_dev = g.slave_dev ∙ e;
    buffer_mode = g.buffer_mode ∙ u.buffer_mode;
    pbuff = g.pbuff ∙ u.pbuff;
    hoolock = λ m. g.hoolock (u.mode ∙ m) ∙ ap (or_new p) u.curr_active_slave;
  }

  -- The device has no slave structure and is down, and the structure that is allocated for it is
  -- not on the list.
  module _ (slave_no : d₀.iff_slave ≡ false) (up_no : d₀.iff_up ≡ false) (w : IsWellFormed b₀)
      (fresh : (p : ℕ) → alloc ≡ some p → NotIn p b₀.slaves) where
    pub unset_master-Failed :
        (st : Status) (p a : ℕ) (b : Bonding) (d : NetDevice)
        → st ≢ ok
        → Untouched b₀ b
        → d.iff_up ≡ d₀.iff_up
        → Failed b₀ d₀ (err_unset_master v old st p a b d)
    unset_master-Failed st p a b d e u h =
        restore_mac-Failed st p a b _ e u (unset_master d₀ d slave_no h)

    pub close-Failed :
        (st : Status) (p a : ℕ) (b : Bonding) (d : NetDevice)
        → st ≢ ok
        → Untouched b₀ b
        → Failed b₀ d₀ (err_close v old st p a b d)
    close-Failed st p a b d e u =
        unset_master-Failed st p a b _ e u (down-dev_close v.driver d ∙ sym up_no)

    module _ (now p a : ℕ) (i : alloc ≡ some p) where
      attach-Outcome :
          (b : Bonding) (d : NetDevice)
          → Untouched b₀ b
          → d.ptr ≡ d₀.ptr
          → Outcome v b₀ d₀ alloc (attach v now old p a b d)
      unfolding attach
      attach-Outcome b d u e =
          let b₁ = with_lacp v b.params.mode d.ptr b in
          let b₂ = add_vlans_on_slave v.vlan_ops d b₁ in
          let u₂ = Untouched-trans u (
            Leaves-Untouched
              (Leaves-trans (with_lacp-Leaves b.params.mode d.ptr b) (add_vlans-Leaves v d b₁))) in
          let s = new_slave v a d in
          let c = attached v now p s b₂ in
          let n = subst (NotIn p) (sym u₂.slaves) (fresh p i) in
          let g = attached_lem v laws now p s b₂ (Untouched-IsWellFormed u₂ w) n in
          linked-Outcome p a c (c.mem p).dev (v.create_symlinks (c.mem p).dev) i
            (grown p s b₂ c u₂ e g) refl

      allmulti-Outcome :
          (b : Bonding) (st : Status) (d : NetDevice)
          → Untouched b₀ b
          → d.ptr ≡ d₀.ptr
          → Outcome v b₀ d₀ alloc (with_allmulti v now old p a b (st, d))
      unfolding with_allmulti
      allmulti-Outcome b ok d u e =
          attach-Outcome _ d
            (Untouched-trans u (Leaves-Untouched (log_mc-Leaves (mc_add d.ptr) b.dev.mc_list b))) e
      allmulti-Outcome b st d u e = inl (close-Failed st p a b d (not_ok st refl) u)

      -- The pair that a test chooses.
      chosen_ptr :
          (t : Bool) (r : Status × NetDevice) (d : NetDevice)
          → r.1.ptr ≡ d.ptr
          → (if◌then◌else◌ {A = Status × NetDevice} t r (ok, d)).1.ptr ≡ d.ptr
      chosen_ptr true r d h = h
      chosen_ptr false r d h = refl

      promisc-Outcome :
          (b : Bonding) (st : Status) (d : NetDevice)
          → Untouched b₀ b
          → d.ptr ≡ d₀.ptr
          → Outcome v b₀ d₀ alloc (with_promisc v now old p a b (st, d))
      unfolding with_promisc
      promisc-Outcome b ok d u e =
          allmulti-Outcome b _ _ u
            (chosen_ptr b.dev.iff_allmulti (dev_set_allmulti d plus) d (ptr-allmulti d plus) ∙ e)
      promisc-Outcome b st d u e = inl (close-Failed st p a b d (not_ok st refl) u)

      counters_if :
          (t : Bool) (b : Bonding) (d : NetDevice)
          → Untouched b₀ b
          → d.ptr ≡ d₀.ptr
          → Outcome v b₀ d₀ alloc (
              if t
              then attach v now old p a b d
              else with_promisc v now old p a b
                  (if b.dev.iff_promisc then dev_set_promiscuity d plus else (ok, d)))
      counters_if true b d u e = attach-Outcome b d u e
      counters_if false b d u e =
          promisc-Outcome b _ _ u (
            chosen_ptr b.dev.iff_promisc (dev_set_promiscuity d plus) d (ptr-promiscuity d plus)
            ∙ e)

      pub counters-Outcome :
          (b : Bonding) (d : NetDevice)
          → Untouched b₀ b
          → d.ptr ≡ d₀.ptr
          → Outcome v b₀ d₀ alloc (with_counters v now old p a b d)
      unfolding with_counters
      counters-Outcome b d u e = counters_if (uses_primary b.params.mode) b d u e

-- ===== src/Ioctl/Changes.antt =====
-- bond_ioctl_change_active and the search by device that it uses.
use hoolock.Common.{
  ℕ, ◌≡◌, ◌≢◌, ◌⊎◌, inl, inr, refl, ◌∙◌, ap, ap₂, sym, Bool, true, false, ◌&&◌, not, Option, none,
  some, if◌then◌else◌, ◌==◌, ==_sound, same, arith, In,
}
use hoolock.Bond.State.{Bonding, Slave, NetDevice, Status, ok, einval}
use hoolock.Bond.Slaves.{uses_primary, is_up, is_link_up, first_that, first_slave, get_slave_by_dev}
use hoolock.Bond.Slaves.Walks.{first_that-In, first_that-none}
use hoolock.Bond.Active.{Extern, change_active_slave}
use hoolock.Bond.Active.Change.{change_active_slave-Sets}
use hoolock.Bond.Invariant.{ExternLaws}
use hoolock.Ioctl.{change_found, ioctl_change_active}

-- A request that is refused leaves the bond; one that is granted makes this slave active, which
-- was so before or is up with its link up.
abbrev pub Granted : Bonding → Option ℕ → Bonding → Type 0
Granted b o c =
    (c.curr_active_slave ≡ o)
    × ((c ≡ b)
        ⊎ ((p : ℕ) × (o ≡ some p)
            × (is_link_up (b.mem p).link ≡ true)
            × (is_up (b.mem p).dev ≡ true)))

abbrev pub Answer : Bonding → Option ℕ → Status × Bonding → Type 0
Answer b o r = (r ≡ (einval, b)) ⊎ ((r.0 ≡ ok) × Granted b o r.1)

module _ (x : Extern) (laws : ExternLaws x) (now : ℕ) (b : Bonding) where
  usable_found :
      (p : ℕ) (t u : Bool)
      → is_link_up (b.mem p).link ≡ t
      → is_up (b.mem p).dev ≡ u
      → Answer b
          (some p)
          (if t && u then (ok, change_active_slave x now (some p) b) else (einval, b))
  usable_found p true true e f =
      inr (refl, ((change_active_slave-Sets x laws now (some p) b).1, inr (p, refl, e, f)))
  usable_found p true false e f = inl refl
  usable_found p false u e f = inl refl

  found_other :
      (p q : ℕ) (t : Bool)
      → b.curr_active_slave ≡ some q
      → (p == q) ≡ t
      → Answer b (some p) (
          if t
          then (ok, b)
          else if is_link_up (b.mem p).link && is_up (b.mem p).dev
          then (ok, change_active_slave x now (some p) b)
          else (einval, b))
  found_other p q true a e = inr (refl, (a ∙ ap some (sym (==_sound p q e)), inl refl))
  found_other p q false a e =
      usable_found p (is_link_up (b.mem p).link) (is_up (b.mem p).dev) refl refl

  found : (o a : Option ℕ) → b.curr_active_slave ≡ a → Answer b o (change_found x now o a b)
  unfolding change_found
  found none a e = inl refl
  found (some p) none e = inl refl
  found (some p) (some q) e = found_other p q (p == q) e refl

  mastered :
      (o : Option ℕ) (r : Status × Bonding) (t u : Bool)
      → Answer b o r
      → Answer b o (if t then (einval, b) else if u then r else (einval, b))
  mastered o r true u h = inl refl
  mastered o r false true h = h
  mastered o r false false h = inl refl

  -- `bond_ioctl_change_active` refuses with -EINVAL and leaves the bond as it is, or succeeds; then
  -- the slave that was found for the device is active, and it either was before or is up with its
  -- link up.
  pub ioctl_change_active_lem :
      (d : NetDevice) → Answer b (get_slave_by_dev b d.ptr) (ioctl_change_active x now d b)
  unfolding ioctl_change_active
  ioctl_change_active_lem d =
      mastered (get_slave_by_dev b d.ptr)
        (change_found x now (get_slave_by_dev b d.ptr) b.curr_active_slave b)
        (not (uses_primary b.params.mode)) (d.iff_slave && same d.master (some b.dev.ptr))
        (found (get_slave_by_dev b d.ptr) b.curr_active_slave refl)

found_ok :
    (x : Extern) (now : ℕ) (b : Bonding) (p q : ℕ) (t : Bool)
    → (if◌then◌else◌ {A = Status × Bonding} t (ok, b) (ok, change_active_slave x now (some p) b)).0
      ≡ ok
found_ok x now b p q true = refl
found_ok x now b p q false = refl

found_usable :
    (x : Extern) (now : ℕ) (b : Bonding) (p q : ℕ)
    → is_link_up (b.mem p).link && is_up (b.mem p).dev ≡ true
    → (change_found x now (some p) (some q) b).0 ≡ ok
unfolding change_found
found_usable x now b p q l =
    ap
      (λ (t : Bool).
        (if◌then◌else◌ {A = Status × Bonding} (p == q) (ok, b)
          (if t then (ok, change_active_slave x now (some p) b) else (einval, b))).0)
      l
    ∙ found_ok x now b p q (p == q)

-- It succeeds for the device of a slave of the bond, in a mode with a primary slave, if there is an
-- active slave, and the slave found is up with its link up.
ioctl_change_active-ok :
    (x : Extern) (now : ℕ) (b : Bonding) (d : NetDevice) (p q : ℕ)
    → uses_primary b.params.mode ≡ true
    → d.iff_slave && same d.master (some b.dev.ptr) ≡ true
    → get_slave_by_dev b d.ptr ≡ some p
    → b.curr_active_slave ≡ some q
    → is_link_up (b.mem p).link && is_up (b.mem p).dev ≡ true
    → (ioctl_change_active x now d b).0 ≡ ok
unfolding ioctl_change_active
ioctl_change_active-ok x now b d p q m s f a l =
    ap₂
      (λ (t u : Bool).
        (if◌then◌else◌ {A = Status × Bonding} (not t) (einval, b)
          (if u
            then change_found x now (get_slave_by_dev b d.ptr) b.curr_active_slave b
            else (einval, b))).0)
      m s
    ∙ ap₂ (λ o a. (change_found x now o a b).0) f a
    ∙ found_usable x now b p q l

has_dev : (ℕ → Slave) → ℕ → ℕ → Bool
has_dev m d p = (m p).dev.ptr == d

differs : (p d : ℕ) → (p == d) ≡ false → p ≢ d
differs p d e h = ground arith

search_cases :
    (b : Bonding) (d : ℕ) (o : Option ℕ)
    → first_that (has_dev b.mem d) b.slaves ≡ o
    → ((p : ℕ) × (get_slave_by_dev b d ≡ some p) × In p b.slaves × ((b.mem p).dev.ptr ≡ d))
      ⊎ (((p : ℕ) → In p b.slaves → (b.mem p).dev.ptr ≢ d) × (get_slave_by_dev b d ≡ first_slave b))
unfolding get_slave_by_dev has_dev
search_cases b d none e = inr (
  (λ p i h. differs (b.mem p).dev.ptr d (first_that-none (has_dev b.mem d) b.slaves p e i) h),
  ap (λ (o : Option ℕ). elim o [ none ↦ first_slave b | some p ↦ some p ]) e,
)
search_cases b d (some p) e =
    let h = first_that-In (has_dev b.mem d) b.slaves p e in
    inl (
      p,
      ap (λ (o : Option ℕ). elim o [ none ↦ first_slave b | some p ↦ some p ]) e,
      h.0,
      ==_sound (b.mem p).dev.ptr d h.1,
    )

-- `bond_get_slave_by_dev` returns a slave of the list with the device, where there is one; where
-- there is none it returns the first slave of the list, and NULL only if the list is empty.
get_slave_by_dev_lem :
    (b : Bonding) (d : ℕ)
    → ((p : ℕ) × (get_slave_by_dev b d ≡ some p) × In p b.slaves × ((b.mem p).dev.ptr ≡ d))
      ⊎ (((p : ℕ) → In p b.slaves → (b.mem p).dev.ptr ≢ d) × (get_slave_by_dev b d ≡ first_slave b))
get_slave_by_dev_lem b d = search_cases b d (first_that (has_dev b.mem d) b.slaves) refl

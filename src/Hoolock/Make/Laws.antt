-- ===== src/Hoolock/Make/Laws.antt =====
-- The active slave and the buffer mode at bond_ioctl_make, 27/bond_main.c.
use hoolock.Common.{
  ℕ, ◌≡◌, ◌≢◌, ◌⊎◌, inl, inr, refl, ◌∙◌, ap, sym, subst, List, [], ◌∷◌, Bool, true, false, not,
  Option, none, some, same, arith,
}
use hoolock.Bond.State.{Bonding, Status}
use hoolock.Bond.Slaves.Walks.{OptIn, first_that-In, first_that-none}
use hoolock.Bond.Active.{Extern}
use hoolock.Bond.Active.Change.{change_active_slave-Sets}
use hoolock.Bond.Invariant.{Keeps, Keeps-refl, ExternLaws, IsWellFormed, Keeps-IsWellFormed}
use hoolock.Hoolock.Make.{first_other, switch_if, make}

-- What the ioctl leaves behind: another slave of the list is active, or there was no other.
abbrev pub Moved : Bonding → Bonding → Type 0
Moved b c =
    ((p : ℕ) × (c.curr_active_slave ≡ some p)
      × OptIn (some p) b.slaves
      × (b.curr_active_slave ≢ some p))
    ⊎ ((c.curr_active_slave ≡ b.curr_active_slave)
        × ((q : ℕ) → OptIn (some q) b.slaves → b.curr_active_slave ≡ some q))

not-same-false : (o : Option ℕ) (q : ℕ) → not (same (some q) o) ≡ false → o ≡ some q
not-same-false none q h = ground arith
not-same-false (some p) q h = ground arith

not-same-true : (o : Option ℕ) (q : ℕ) → not (same (some q) o) ≡ true → o ≢ some q
not-same-true none q h = ground arith
not-same-true (some p) q h = ground arith

abbrev is_other : Bonding → ℕ → Bool
is_other b p = not (same (some p) b.curr_active_slave)

-- The list holds these two slaves, in one order or the other.
abbrev pub Pair : List ℕ → ℕ → ℕ → Type 0
Pair xs p q = (xs ≡ p ∷ q ∷ []) ⊎ (xs ≡ q ∷ p ∷ [])

pub swap-Pair : {xs : List ℕ} {p q : ℕ} → Pair xs p q → Pair xs q p
swap-Pair (inl e) = inr e
swap-Pair (inr e) = inl e

other_of_Pair : (p q r : ℕ) (xs : List ℕ) → Pair xs p q → OptIn (some r) xs → r ≢ p → r ≡ q
other_of_Pair p q r xs (inl e) i n = pick (subst (λ ys. OptIn (some r) ys) e i)
  where
    pick : OptIn (some r) (p ∷ q ∷ []) → r ≡ q
    pick i = ground arith
other_of_Pair p q r xs (inr e) i n = pick (subst (λ ys. OptIn (some r) ys) e i)
  where
    pick : OptIn (some r) (q ∷ p ∷ []) → r ≡ q
    pick i = ground arith

Pair-has : (p q : ℕ) (xs : List ℕ) → Pair xs p q → OptIn (some q) xs
Pair-has p q xs (inl e) = subst (λ ys. OptIn (some q) ys) (sym e) (inr (inl refl))
Pair-has p q xs (inr e) = subst (λ ys. OptIn (some q) ys) (sym e) (inl refl)

move_two :
    (b c : Bonding) (p q : ℕ)
    → Moved b c
    → p ≢ q
    → Pair b.slaves p q
    → b.curr_active_slave ≡ some p
    → c.curr_active_slave ≡ some q
move_two b c p q (inl (r, e', i, n')) n s e =
    e' ∙ ap some (other_of_Pair p q r b.slaves s i (λ h. n' (e ∙ ap some (sym h))))
move_two b c p q (inr (e', f)) n s e = absurd (n (ground (arith, f q (Pair-has p q b.slaves s))))

module _ (x : Extern) (laws : ExternLaws x) where
  switch_if-Moved :
      (now : ℕ) (b : Bonding) (o : Option ℕ) → first_other b ≡ o → Moved b (switch_if x now o b)
  unfolding switch_if first_other
  switch_if-Moved now b none e =
      inr (refl, λ q i. not-same-false _ q (first_that-none (is_other b) b.slaves q e i))
  switch_if-Moved now b (some p) e =
      let f = first_that-In (is_other b) b.slaves p e in
      inl (p, (change_active_slave-Sets x laws now (some p) b).1, f.0, not-same-true _ p f.1)

  switch_if-Keeps : (now : ℕ) (b : Bonding) (o : Option ℕ) → Keeps b (switch_if x now o b)
  unfolding switch_if
  switch_if-Keeps now b none = Keeps-refl b
  switch_if-Keeps now b (some p) = (change_active_slave-Sets x laws now (some p) b).0

  -- `bond_ioctl_make` succeeds and turns the buffer mode on; the slave list, the devices and the
  -- packets already buffered stay. The active slave after it is a slave of the list other than
  -- the one before; only where the list has no other slave does it stay.
  pub make_lem :
      (now : ℕ) (b : Bonding)
      → let (st, c) = make x now b in
        (st ≡ Status.ok)
        × (c.buffer_mode ≡ true)
        × (c.pbuff ≡ b.pbuff)
        × (c.slaves ≡ b.slaves)
        × ((p : ℕ) → (c.mem p).dev.ptr ≡ (b.mem p).dev.ptr)
        × Moved b c
  unfolding make
  make_lem now b =
      let k = switch_if-Keeps now b (first_other b) in
      (refl, refl, k.pbuff, k.slaves, k.slave_devs, switch_if-Moved now b (first_other b) refl)

  Moved-In :
      (b c : Bonding)
      → Moved b c
      → OptIn b.curr_active_slave b.slaves
      → OptIn c.curr_active_slave b.slaves
  Moved-In b c (inl (p, e, i, n)) h = subst (λ o. OptIn o b.slaves) (sym e) i
  Moved-In b c (inr (e, f)) h = subst (λ o. OptIn o b.slaves) (sym e) h

  -- It keeps the bond well-formed.
  pub make-IsWellFormed : (now : ℕ) (b : Bonding) → IsWellFormed b → IsWellFormed (make x now b).1
  unfolding make
  make-IsWellFormed now b w =
      let c = switch_if x now (first_other b) b in
      let v : IsWellFormed c =
        Keeps-IsWellFormed (switch_if-Keeps now b (first_other b))
          (Moved-In b c (switch_if-Moved now b (first_other b) refl) w.active_in) w in
      record {
        distinct = v.distinct;
        active_in = v.active_in;
        primary_in = v.primary_in;
        arp_in = v.arp_in;
      }

  -- With two slaves it makes the other one active.
  pub make-two :
      (now : ℕ) (b : Bonding) (p q : ℕ)
      → p ≢ q
      → Pair b.slaves p q
      → b.curr_active_slave ≡ some p
      → (make x now b).1.curr_active_slave ≡ some q
  unfolding make
  make-two now b p q n s e =
      move_two b (switch_if x now (first_other b) b) p q
        (switch_if-Moved now b (first_other b) refl) n s e

  -- For a bond with two slaves, of which one is active, `bond_ioctl_make` makes the other one active,
  -- and a second call, at any time, brings the first active slave back.
  pub make-make :
      (now later : ℕ) (b : Bonding) (p q : ℕ)
      → p ≢ q
      → Pair b.slaves p q
      → b.curr_active_slave ≡ some p
      → ((make x now b).1.curr_active_slave ≡ some q)
        × ((make x later (make x now b).1).1.curr_active_slave ≡ some p)
  make-make now later b p q n s e =
      let k = make_lem now b in
      let c = (make x now b).1 in
      let e' = make-two now b p q n s e in
      (
        e',
        make-two later c q p (λ h. n (sym h)) (subst (λ xs. Pair xs q p) (sym k.3) (swap-Pair s))
            e',
      )

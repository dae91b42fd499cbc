-- ===== src/Bond/Active/Best.antt =====
-- What bond_find_best_slave chooses.
use hoolock.Common.{
  ℕ, ◌<◌, ◌≤◌, ◌≡◌, ◌⊎◌, inl, inr, refl, subst, sym, List, [], ◌∷◌, Bool, true, false, ◌&&◌, Option,
  none, some, ltb, arith, In, All, Bool-cases,
}
use hoolock.Bond.State.{Bonding, Slave}
use hoolock.Bond.Slaves.{is_up, is_link_up, is_back, first_that, each_from}
use hoolock.Bond.Active.{best_of, start_of, find_best_slave}

-- A slave that can carry traffic, and one whose link came back and waits for its updelay.
abbrev pub is_usable : (ℕ → Slave) → ℕ → Bool
is_usable m p = is_up (m p).dev && is_link_up (m p).link

abbrev pub is_waiting : (ℕ → Slave) → ℕ → Bool
is_waiting m p = is_up (m p).dev && is_back (m p).link

-- No waiting slave of the list has less than `t` left.
abbrev pub NoSooner : (ℕ → Slave) → ℕ → List ℕ → Type 0
NoSooner m t = All (λ q. is_waiting m q ≡ true → t ≤ (m q).delay)

abbrev pub Soonest : (ℕ → Slave) → ℕ → Option ℕ → List ℕ → Option ℕ → Type 0
Soonest m mintime best ps r =
    ((r ≡ best) × NoSooner m mintime ps)
    ⊎ ((q : ℕ) × (r ≡ some q)
        × In q ps
        × (is_waiting m q ≡ true)
        × ((m q).delay < mintime)
        × NoSooner m (m q).delay ps)

-- The first slave that can carry traffic; if there is none, a waiting slave with least left.
abbrev pub IsBest : (ℕ → Slave) → ℕ → Option ℕ → List ℕ → Option ℕ → Type 0
IsBest m mintime best ps r =
    ((q : ℕ) × (first_that (is_usable m) ps ≡ some q) × (r ≡ some q))
    ⊎ ((first_that (is_usable m) ps ≡ none) × Soonest m mintime best ps r)

module _ (m : ℕ → Slave) (mintime : ℕ) (best : Option ℕ) (p : ℕ) (ps : List ℕ) where
  best_of_usable : is_usable m p ≡ true → best_of m mintime best (p ∷ ps) ≡ some p
  unfolding best_of
  best_of_usable h = ground arith

  best_of_sooner :
      is_usable m p ≡ false
      → is_waiting m p && ltb (m p).delay mintime ≡ true
      → best_of m mintime best (p ∷ ps) ≡ best_of m (m p).delay (some p) ps
  unfolding best_of
  best_of_sooner h k = ground arith

  best_of_other :
      is_usable m p ≡ false
      → is_waiting m p && ltb (m p).delay mintime ≡ false
      → best_of m mintime best (p ∷ ps) ≡ best_of m mintime best ps
  unfolding best_of
  best_of_other h k = ground arith

  IsBest-usable : is_usable m p ≡ true → IsBest m mintime best (p ∷ ps) (some p)
  unfolding first_that
  IsBest-usable h = inl (p, rw h, refl)

  IsBest-sooner :
      {r : Option ℕ}
      → is_usable m p ≡ false
      → is_waiting m p ≡ true
      → (m p).delay < mintime
      → IsBest m (m p).delay (some p) ps r
      → IsBest m mintime best (p ∷ ps) r
  unfolding first_that
  IsBest-sooner h w l (inl (q, f, e)) = inl (q, rw h f, e)
  IsBest-sooner h w l (inr (f, inl (e, n))) =
      inr (rw h f, inr (p, e, inl refl, w, l, ((λ _. omega arith), n)))
  IsBest-sooner h w l (inr (f, inr (q, e, i, wq, lq, n))) =
      inr (rw h f, inr (q, e, inr i, wq, omega arith, ((λ _. omega arith), n)))

  IsBest-other :
      {r : Option ℕ}
      → is_usable m p ≡ false
      → is_waiting m p && ltb (m p).delay mintime ≡ false
      → IsBest m mintime best ps r
      → IsBest m mintime best (p ∷ ps) r
  unfolding first_that
  IsBest-other h w (inl (q, f, e)) = inl (q, rw h f, e)
  IsBest-other h w (inr (f, inl (e, n))) = inr (rw h f, inl (e, ((λ k. ground arith), n)))
  IsBest-other h w (inr (f, inr (q, e, i, wq, lq, n))) =
      inr (rw h f, inr (q, e, inr i, wq, lq, ((λ k. ground arith), n)))

best_of-IsBest :
    (m : ℕ → Slave) (mintime : ℕ) (best : Option ℕ) (ps : List ℕ)
    → IsBest m mintime best ps (best_of m mintime best ps)
unfolding best_of first_that
best_of-IsBest m mintime best [] = inr (refl, inl (refl, tt))
best_of-IsBest m mintime best (p ∷ ps) = elim (Bool-cases (is_usable m p)) [
  | inl u ↦
      subst (IsBest m mintime best (p ∷ ps)) (sym (best_of_usable m mintime best p ps u))
        (IsBest-usable m mintime best p ps u)
  | inr u ↦ elim (Bool-cases (is_waiting m p && ltb (m p).delay mintime)) [
    | inl w ↦
        subst (IsBest m mintime best (p ∷ ps)) (sym (best_of_sooner m mintime best p ps u w)) (
          IsBest-sooner m mintime best p ps u (ground arith) (ground arith)
            (best_of-IsBest m (m p).delay (some p) ps))
    | inr w ↦
        subst (IsBest m mintime best (p ∷ ps)) (sym (best_of_other m mintime best p ps u w))
          (IsBest-other m mintime best p ps u w (best_of-IsBest m mintime best ps))
  ]
]

-- `bond_find_best_slave` returns the first slave that can carry traffic, in the order of the
-- circle from its starting point; if no slave can, it returns a slave whose link is back with the
-- least delay left, below the updelay, and NULL if there is none of these either.
pub find_best_slave-IsBest :
    (b : Bonding) (p : ℕ)
    → start_of b ≡ some p
    → IsBest b.mem b.params.updelay none (each_from p b.slaves) (find_best_slave b)
unfolding find_best_slave
find_best_slave-IsBest b p e =
    rw (e, find_best_slave) (best_of-IsBest b.mem b.params.updelay none (each_from p b.slaves))

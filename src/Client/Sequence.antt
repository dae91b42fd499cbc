-- ===== src/Client/Sequence.antt =====
-- Sequences of statements of src/hoolock_client.cc and src/hard_client.cc, and what holds of all
-- states that they reach.
use hoolock.Common.{◌≡◌, refl, List, [], ◌∷◌, ◌++◌, All}
use hoolock.Client.Calls.{RanIn, goes, stops}
use hoolock.Client.{ran, run, visited, visits}

-- The conditions of the statements of a sequence.
abbrev pub Each : List (Type 0) → Type 0
Each [] = Unit
Each (C ∷ Cs) = C × Each Cs

module _ {W : Type 0} (L : W → Type 0) where
  -- A statement goes on to `Q`; where it stops, the condition `C` fails, and `L` holds.
  abbrev pub Ends : Type 0 → (W → Type 0) → RanIn W → Type 0
  Ends C Q (goes w) = Q w
  Ends C Q (stops t w) = L w × (C → ⊥)

  -- `L` holds of all states that are reached, and the end is as above.
  pub record Safe (C : Type 0) (R : W → Type 0) (ss : List (W → RanIn W)) (w : W) : Type 0 where
    pub holds : All L (visits ss w)
    pub ends : Ends C R (run ss w)

  pub Safe-end : (R : W → Type 0) (w : W) → R w → Safe Unit R [] w
  unfolding run visits
  Safe-end R w r = record { holds = tt; ends = r }

  weaken : {C D : Type 0} (R : W → Type 0) (r : RanIn W) → (D → C) → Ends C R r → Ends D R r
  weaken R (goes w) f h = h
  weaken R (stops t w) f (l, n) = (l, λ d. n (f d))

  pub weaken-Safe :
      {C D : Type 0} (R : W → Type 0) (ss : List (W → RanIn W)) (w : W)
      → (D → C)
      → Safe C R ss w
      → Safe D R ss w
  weaken-Safe R ss w f s = record { holds = s.holds; ends = weaken R (run ss w) f s.ends }

  behind :
      (C D : Type 0) (Q R : W → Type 0) (ss : List (W → RanIn W))
      → ((v : W) → Q v → L v)
      → ((v : W) → Q v → Safe D R ss v)
      → (r : RanIn W) → Ends C Q r
      → All L (visited r (visits ss)) × Ends (C × D) R (ran r (run ss))
  behind C D Q R ss l k (goes v) e =
      let s = k v e in ((l v e, s.holds), weaken R (run ss v) (λ h. h.1) s.ends)
  behind C D Q R ss l k (stops t v) (e, n) = ((e, tt), (e, λ h. n h.0))

  -- A statement, and the others behind it.
  pub Safe-step :
      {C D : Type 0} (Q R : W → Type 0) (s : (W → RanIn W)) (ss : List (W → RanIn W)) (w : W)
      → ((v : W) → Q v → L v)
      → Ends C Q (s w)
      → ((v : W) → Q v → Safe D R ss v)
      → Safe (C × D) R (s ∷ ss) w
  unfolding run visits
  Safe-step {C} {D} Q R s ss w l e k =
      let (h, f) = behind C D Q R ss l k (s w) e in record { holds = h; ends = f }

  goes-Ends :
      (C : Type 0) (Q : W → Type 0) (o r : RanIn W)
      → o ≡ r
      → Ends C Q r
      → Ends C (λ v. Q v × (o ≡ goes v)) r
  goes-Ends C Q o (goes v) e q = (q, e)
  goes-Ends C Q o (stops t v) e h = h

  -- The state that the statements lead to is the one that `run` gives.
  pub run-Safe :
      {C : Type 0} (Q : W → Type 0) (ss : List (W → RanIn W)) (w : W)
      → Safe C Q ss w
      → Safe C (λ v. Q v × (run ss w ≡ goes v)) ss w
  run-Safe {C} Q ss w s = record {
    holds = s.holds;
    ends = goes-Ends C Q (run ss w) (run ss w) refl s.ends;
  }

  -- What a result leads to, with the statements behind it.
  abbrev Onward : Type 0 → (W → Type 0) → List (W → RanIn W) → RanIn W → Type 0
  Onward C R ss r = All L (visited r (visits ss)) × Ends C R (ran r (run ss))

  onward :
      (C D : Type 0) (Q R : W → Type 0) (ss us : List (W → RanIn W))
      → ((v : W) → All L (visits ss v) → Ends C Q (run ss v) → Safe (C × D) R us v)
      → (r : RanIn W) → Onward C Q ss r
      → Onward (C × D) R us r
  onward C D Q R ss us f (goes v) ((l, ls), e) = let s = f v ls e in ((l, s.holds), s.ends)
  onward C D Q R ss us f (stops t v) (l, (e, n)) = (l, (e, λ h. n h.0))

  followed :
      (C D : Type 0) (Q R : W → Type 0) (ts : List (W → RanIn W))
      → ((v : W) → Q v → Safe D R ts v)
      → (ss : List (W → RanIn W)) (w : W) → All L (visits ss w)
      → Ends C Q (run ss w)
      → Safe (C × D) R (ss ++ ts) w
  unfolding run visits
  followed C D Q R ts k [] w l e = weaken-Safe R ts w (λ h. h.1) (k w e)
  followed C D Q R ts k (s ∷ ss) w l e =
      let (h, f) = onward C D Q R ss (ss ++ ts) (followed C D Q R ts k ss) (s w) (l, e) in
      record { holds = h; ends = f }

  -- Two sequences of statements.
  pub Safe-append :
      {C D : Type 0} (Q R : W → Type 0) (ss ts : List (W → RanIn W)) (w : W)
      → Safe C Q ss w
      → ((v : W) → Q v → Safe D R ts v)
      → Safe (C × D) R (ss ++ ts) w
  Safe-append {C} {D} Q R ss ts w s k = followed C D Q R ts k ss w s.holds s.ends

  reaches :
      (C : Type 0) (Q R : W → Type 0) (r : RanIn W)
      → ((v : W) → Q v → R v)
      → Ends C Q r
      → Ends C R r
  reaches C Q R (goes w) f e = f w e
  reaches C Q R (stops t w) f e = e

  pub map-Safe :
      {C : Type 0} (Q R : W → Type 0) (ss : List (W → RanIn W)) (w : W)
      → ((v : W) → Q v → R v)
      → Safe C Q ss w
      → Safe C R ss w
  map-Safe {C} Q R ss w f s = record { holds = s.holds; ends = reaches C Q R (run ss w) f s.ends }

  -- Under the condition the statements go through.
  pub Ends-goes :
      (C : Type 0) (R : W → Type 0) (r : RanIn W) → Ends C R r → C → (v : W) × (r ≡ goes v) × R v
  Ends-goes C R (goes v) e c = (v, refl, e)
  Ends-goes C R (stops t v) e c = absurd (e.1 c)

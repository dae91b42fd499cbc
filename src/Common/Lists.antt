-- ===== src/Common/Lists.antt =====
-- Lists measured by native numbers, and pointers in lists.
use Prim.Native.Nat.{ℕ, zero, suc, ◌+◌}
use mathlib.Core.Path.{◌≡◌, sym}
use mathlib.Core.Logic.{◌≢◌, ◌⊎◌}
use mathlib.Core.List.{List, [], ◌∷◌, ◌++◌}
use native.Mathlib.Omega.{arith}

module _ {ℓ} {A : Type ℓ} where
  abbrev pub length : List A → ℕ
  length [] = 0
  length (x ∷ xs) = suc (length xs)

  pub length-append : (xs ys : List A) → length (xs ++ ys) ≡ length xs + length ys
  length-append [] ys = omega arith
  length-append (x ∷ xs) ys = omega (arith, length-append xs ys)

  unfoldable pub drop : ℕ → List A → List A
  drop zero xs = xs
  drop (suc n) [] = []
  drop (suc n) (x ∷ xs) = drop n xs

  unfoldable pub take : ℕ → List A → List A
  take zero xs = []
  take (suc n) [] = []
  take (suc n) (x ∷ xs) = x ∷ take n xs

  -- The list from its element number `n` on, round to the one before.
  unfoldable pub rotate : ℕ → List A → List A
  unfolding drop take
  rotate n xs = drop n xs ++ take n xs

-- `p` occurs in the list.
abbrev pub In : ℕ → List ℕ → Type 0
In p [] = ⊥
In p (x ∷ xs) = (x ≡ p) ⊎ In p xs

abbrev pub NotIn : ℕ → List ℕ → Type 0
NotIn p [] = Unit
NotIn p (x ∷ xs) = (x ≢ p) × NotIn p xs

-- No pointer occurs twice.
abbrev pub Distinct : List ℕ → Type 0
Distinct [] = Unit
Distinct (x ∷ xs) = NotIn x xs × Distinct xs

pub NotIn-snoc : (q s : ℕ) (xs : List ℕ) → NotIn q xs → s ≢ q → NotIn q (xs ++ (s ∷ []))
NotIn-snoc q s [] n h = (h, tt)
NotIn-snoc q s (x ∷ xs) n h = (n.0, NotIn-snoc q s xs n.1 h)

pub Distinct-snoc : (s : ℕ) (xs : List ℕ) → Distinct xs → NotIn s xs → Distinct (xs ++ (s ∷ []))
Distinct-snoc s [] d n = (tt, tt)
Distinct-snoc s (x ∷ xs) d n =
    (NotIn-snoc x s xs d.0 (λ e. n.0 (sym e)), Distinct-snoc s xs d.1 n.1)

abbrev pub All {ℓ κ} : {A : Type ℓ} → (A → Type κ) → List A → Type κ
All P [] = Unit
All P (x ∷ xs) = P x × All P xs

-- The byte at an index of a buffer that was set to zero before it was filled.
abbrev pub byte : List ℕ → ℕ → ℕ
byte [] i = 0
byte (c ∷ cs) zero = c
byte (c ∷ cs) (suc i) = byte cs i

-- ===== src/Transmit/Rotation.antt =====
-- The numbered slave and the walk from it, in the transmit functions of 27/bond_main.c.
use hoolock.Common.{
  ℕ, zero, suc, ◌<◌, ◌≡◌, refl, ap₂, List, [], ◌∷◌, ◌++◌, false, none, some, ◌==◌, arith, In, NotIn,
  Distinct, inl, inr, length, drop, take, rotate,
}
use hoolock.Bond.Slaves.{from, before, each_from}
use hoolock.Transmit.{nth_slave}

pub In-nth_slave : (n p : ℕ) (xs : List ℕ) → nth_slave n xs ≡ some p → In p xs
unfolding nth_slave
In-nth_slave n p [] e = absurd-none e
  where
    absurd-none : none ≡ some p → ⊥
    absurd-none e = cc
In-nth_slave zero p (x ∷ xs) e = inl cc
In-nth_slave (suc n) p (x ∷ xs) e = inr (In-nth_slave n p xs e)

pub nth_slave-some : (n : ℕ) (xs : List ℕ) → n < length xs → (p : ℕ) × (nth_slave n xs ≡ some p)
unfolding nth_slave
nth_slave-some n [] h = absurd (omega (arith, h))
nth_slave-some zero (x ∷ xs) h = (x, refl)
nth_slave-some (suc n) (x ∷ xs) h = nth_slave-some n xs (omega (arith, h))

not-head : (x p : ℕ) (xs : List ℕ) → NotIn x xs → In p xs → (x == p) ≡ false
not-head x p [] n i = elim i [ ]
not-head x p (y ∷ ys) n i = ground (arith, not-head x p ys)

from-drop : (n p : ℕ) (xs : List ℕ) → Distinct xs → nth_slave n xs ≡ some p → from p xs ≡ drop n xs
unfolding nth_slave from drop
from-drop n p [] d e = ground arith
from-drop zero p (x ∷ xs) d e = ground arith
from-drop (suc n) p (x ∷ xs) d e =
    rw (not-head x p xs d.0 (In-nth_slave n p xs e), from-drop n p xs d.1 e)

before-take :
    (n p : ℕ) (xs : List ℕ) → Distinct xs → nth_slave n xs ≡ some p → before p xs ≡ take n xs
unfolding nth_slave before take
before-take n p [] d e = ground arith
before-take zero p (x ∷ xs) d e = ground arith
before-take (suc n) p (x ∷ xs) d e =
    rw (not-head x p xs d.0 (In-nth_slave n p xs e), before-take n p xs d.1 e)

-- On a list with no slave twice.
pub each_from-rotate :
    (n p : ℕ) (xs : List ℕ) → Distinct xs → nth_slave n xs ≡ some p → each_from p xs ≡ rotate n xs
unfolding each_from rotate
each_from-rotate n p xs d e =
    ap₂ (λ ys zs. ys ++ zs) (from-drop n p xs d e) (before-take n p xs d e)

-- ===== src/Bond/Slaves/Walks.antt =====
-- What the walks over the slave list visit.
use hoolock.Common.{
  ℕ, ◌≡◌, ◌⊎◌, inl, inr, refl, List, [], ◌∷◌, ◌++◌, Bool, true, false, Option, none, some, arith,
  In, ◌==◌, length, length-append, append-nil,
}
use hoolock.Bond.State.{Bonding}
use hoolock.Bond.Slaves.{from, before, each_from, first_slave, first_that, get_slave_by_dev}

-- NULL, or the address of a slave of the list.
abbrev pub OptIn : Option ℕ → List ℕ → Type 0
OptIn none xs = Unit
OptIn (some p) xs = In p xs

pub In-append : (p : ℕ) (xs ys : List ℕ) → In p (xs ++ ys) → In p xs ⊎ In p ys
In-append p [] ys i = inr i
In-append p (x ∷ xs) ys i = ground (arith, In-append p xs ys)

pub In-append_left : (p : ℕ) (xs ys : List ℕ) → In p xs → In p (xs ++ ys)
In-append_left p [] ys i = elim i [ ]
In-append_left p (x ∷ xs) ys i = ground (arith, In-append_left p xs ys)

pub In-append_right : (p : ℕ) (xs ys : List ℕ) → In p ys → In p (xs ++ ys)
In-append_right p [] ys i = i
In-append_right p (x ∷ xs) ys i = inr (In-append_right p xs ys i)

In-from : (q p : ℕ) (xs : List ℕ) → In q (from p xs) → In q xs
unfolding from
In-from q p [] i = i
In-from q p (x ∷ xs) i = ground (arith, In-from q p xs)

In-before : (q p : ℕ) (xs : List ℕ) → In q (before p xs) → In q xs
unfolding before
In-before q p [] i = i
In-before q p (x ∷ xs) i = ground (arith, In-before q p xs)

from-or-before : (q p : ℕ) (xs : List ℕ) → In q xs → In q (from p xs) ⊎ In q (before p xs)
unfolding from before
from-or-before q p [] i = elim i [ ]
from-or-before q p (x ∷ xs) i = ground (arith, from-or-before q p xs)

-- The walk from any slave visits slaves of the list only.
pub In-each_from : (q p : ℕ) (xs : List ℕ) → In q (each_from p xs) → In q xs
unfolding each_from
In-each_from q p xs i = elim (In-append q (from p xs) (before p xs) i) [
  | inl j ↦ In-from q p xs j
  | inr j ↦ In-before q p xs j
]

-- It visits all of them.
pub each_from-In : (q p : ℕ) (xs : List ℕ) → In q xs → In q (each_from p xs)
unfolding each_from
each_from-In q p xs i = elim (from-or-before q p xs i) [
  | inl j ↦ In-append_left q (from p xs) (before p xs) j
  | inr j ↦ In-append_right q (from p xs) (before p xs) j
]

pub length-each_from : (p : ℕ) (xs : List ℕ) → length (each_from p xs) ≡ length xs
unfolding each_from from before
length-each_from p [] = refl
length-each_from p (x ∷ xs) = ground (
  arith,
  length-append (from p xs) (before p xs),
  length-append (from p xs) (x ∷ before p xs),
  append-nil (x ∷ xs),
  length-each_from p xs,
)

-- What the walk stops at is a slave of the list that passes the test; it goes to the end only
-- where no slave passes.
pub first_that-In :
    (t : ℕ → Bool) (xs : List ℕ) (p : ℕ) → first_that t xs ≡ some p → In p xs × (t p ≡ true)
unfolding first_that
first_that-In t [] p e = ground arith
first_that-In t (x ∷ xs) p e = ground (arith, first_that-In t xs p)

pub first_that-none :
    (t : ℕ → Bool) (xs : List ℕ) (p : ℕ) → first_that t xs ≡ none → In p xs → t p ≡ false
unfolding first_that
first_that-none t [] p e i = elim i [ ]
first_that-none t (x ∷ xs) p e i = ground (arith, first_that-none t xs p)

pub first-OptIn : (b : Bonding) (xs : List ℕ) → b.slaves ≡ xs → OptIn (first_slave b) b.slaves
first-OptIn b [] e = rw e tt
first-OptIn b (x ∷ xs) e = rw e (inl refl)

pub first_that-OptIn :
    (t : ℕ → Bool) (xs : List ℕ) (o : Option ℕ) → first_that t xs ≡ o → OptIn o xs
first_that-OptIn t xs none e = tt
first_that-OptIn t xs (some p) e = (first_that-In t xs p e).0

searched :
    (b : Bonding) (d : ℕ) (o : Option ℕ)
    → OptIn o b.slaves
    → OptIn (elim o [ none ↦ first_slave b | some p ↦ some p ]) b.slaves
searched b d none i = first-OptIn b b.slaves refl
searched b d (some p) i = i

-- The slave that is found for a device is one of the list.
pub get_slave_by_dev-OptIn : (b : Bonding) (d : ℕ) → OptIn (get_slave_by_dev b d) b.slaves
unfolding get_slave_by_dev
get_slave_by_dev-OptIn b d =
    searched b d (first_that (λ p. (b.mem p).dev.ptr == d) b.slaves)
      (first_that-OptIn (λ p. (b.mem p).dev.ptr == d) b.slaves _ refl)

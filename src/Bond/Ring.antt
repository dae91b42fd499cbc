-- ===== src/Bond/Ring.antt =====
-- bond_attach_slave and bond_detach_slave of 27/bond_main.c, on the links of the slaves: the
-- circular list that `Bonding.slaves` stands for elsewhere.
pub mod Attach
pub mod Cut
pub mod Detach
use hoolock.Common.{
  ℕ, ◌+◌, ◌-◌, ◌≡◌, List, [], ◌∷◌, ◌++◌, Bool, true, false, Option, none, some, if◌then◌else◌, ◌==◌,
  ltb, same, length, Distinct,
}

-- `first_slave`, `slave_cnt`, and the fields `next` and `prev` of the slave at an address.
pub record Ring : Type 0 where
  pub first_slave : Option ℕ
  pub slave_cnt : ℕ
  pub next : ℕ → Option ℕ
  pub prev : ℕ → Option ℕ

-- A write to such a field.
abbrev pub write : (ℕ → Option ℕ) → ℕ → Option ℕ → ℕ → Option ℕ
write f p o q = if q == p then o else f q

-- A write through a pointer; `none` if it is NULL.
abbrev pub write_next : Option ℕ → Option ℕ → Ring → Option Ring
write_next none o r = none
write_next (some p) o r = some (record r { next = write r.next p o })

abbrev pub write_prev : Option ℕ → Option ℕ → Ring → Option Ring
write_prev none o r = none
write_prev (some p) o r = some (record r { prev = write r.prev p o })

abbrev pub and_then : Option Ring → (Ring → Option Ring) → Option Ring
and_then none f = none
and_then (some r) f = f r

-- `bond_attach_slave`, with a first slave or without.
unfoldable pub attach_to : Option ℕ → ℕ → Ring → Option Ring
attach_to none s r = some (record r {
  next = write r.next s (some s);
  prev = write r.prev s (some s);
  first_slave = some s;
})
attach_to (some f) s r =
    let r₁ = record r { next = write r.next s (some f); prev = write r.prev s (r.prev f) } in
    and_then (write_prev (r₁.next s) (some s) r₁) (λ r₂. write_next (r₂.prev s) (some s) r₂)

unfoldable pub bond_attach_slave : ℕ → Ring → Option Ring
unfolding attach_to
bond_attach_slave s r =
    and_then (attach_to r.first_slave s r) (λ c. some (record c { slave_cnt = c.slave_cnt + 1 }))

-- `bond_detach_slave`: the writes through links that are not NULL.
abbrev pub prev_at : Option ℕ → Option ℕ → Ring → Ring
prev_at none o r = r
prev_at (some p) o r = record r { prev = write r.prev p o }

abbrev pub next_at : Option ℕ → Option ℕ → Ring → Ring
next_at none o r = r
next_at (some p) o r = record r { next = write r.next p o }

-- Its end, behind those writes. `slave_cnt` is at least 1 for a slave of the list.
abbrev pub unchain : ℕ → Ring → Ring
unchain s r = record r {
  first_slave =
      if same r.first_slave (some s)
      then (if ltb 1 r.slave_cnt then r.next s else none)
      else r.first_slave;
  next = write r.next s none;
  prev = write r.prev s none;
  slave_cnt = r.slave_cnt - 1;
}

unfoldable pub bond_detach_slave : ℕ → Ring → Ring
bond_detach_slave s r =
    let r₁ = prev_at (r.next s) (r.prev s) r in unchain s (next_at (r₁.prev s) (r₁.next s) r₁)

-- From the slave at `a` the links lead over those at `ys` to the one at `z`, and back.
abbrev pub Linked : (ℕ → Option ℕ) → (ℕ → Option ℕ) → ℕ → List ℕ → ℕ → Type 0
Linked n p a [] z = (n a ≡ some z) × (p z ≡ some a)
Linked n p a (y ∷ ys) z = ((n a ≡ some y) × (p y ≡ some a)) × Linked n p y ys z

-- The links hold the circle of these slaves.
abbrev pub Holds : Ring → List ℕ → Type 0
Holds r [] = r.first_slave ≡ none
Holds r (x ∷ xs) = (r.first_slave ≡ some x) × Linked r.next r.prev x xs x

-- The ring stands for this list.
pub record Represents (r : Ring) (xs : List ℕ) : Type 0 where
  pub distinct : Distinct xs
  pub count : r.slave_cnt ≡ length xs
  pub holds : Holds r xs

-- The list less a slave.
abbrev pub without : ℕ → List ℕ → List ℕ
without s [] = []
without s (x ∷ xs) = if x == s then xs else x ∷ without s xs

-- The last of the slaves at `a` and at `ys`.
abbrev pub last : ℕ → List ℕ → ℕ
last a [] = a
last a (y ∷ ys) = last y ys

-- ===== src/Tests/Ring.antt =====
-- The circle of slaves at concrete inputs.
use hoolock.Common.{ℕ, ◌≡◌, refl, [], ◌∷◌, none, some, if◌then◌else◌, ◌==◌, arith, inl, Option}
use hoolock.Bond.Ring.{Ring, Represents, bond_attach_slave, bond_detach_slave}
use hoolock.Bond.Ring.Attach.{bond_attach_slave-Represents}
use hoolock.Bond.Ring.Detach.{Gone, bond_detach_slave-Gone}

-- Two slaves, each next to the other.
abbrev other_of : ℕ → Option ℕ
other_of p = if p == 10 then some 20 else if p == 20 then some 10 else none

abbrev ring : Ring
ring = record { first_slave = some 10; slave_cnt = 2; next = other_of; prev = other_of }

ring-Represents : Represents ring (10 ∷ 20 ∷ [])
ring-Represents = record {
  distinct = omega arith;
  count = refl;
  holds = (refl, ((refl, refl), (refl, refl)));
}

bond_attach_slave-Represents_example :
    (c : Ring) × (bond_attach_slave 30 ring ≡ some c) × Represents c (10 ∷ 20 ∷ 30 ∷ [])
bond_attach_slave-Represents_example =
    bond_attach_slave-Represents 30 ring (10 ∷ 20 ∷ []) ring-Represents (omega arith)

bond_detach_slave-Gone_example : Gone 10 (bond_detach_slave 10 ring) (20 ∷ [])
bond_detach_slave-Gone_example =
    bond_detach_slave-Gone 10 ring (10 ∷ 20 ∷ []) ring-Represents (inl refl)

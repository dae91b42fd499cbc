-- ===== src/Bond/Slaves.antt =====
-- Walks over the slave list and writes through slave pointers: the iterators and the inline
-- functions of 27/bonding.h.
pub mod Walks
use hoolock.Common.{
  ℕ, ◌≡◌, refl, List, [], ◌∷◌, ◌++◌, Bool, true, false, ◌&&◌, ◌||◌, not, Option, none, some,
  if◌then◌else◌, ◌==◌, arith, In, NotIn, Distinct, inl, inr, ◌⊎◌, Bool-cases, ◌≢◌, same, is_some,
  length,
}
use hoolock.Bond.State.{
  Bonding, Slave, NetDevice, Params, Mode, active_backup, tlb, alb, hoolock_mode, LinkState,
  link_up, link_fail, link_down, link_back, Status, ok, SlaveState, active, backup, Event,
}

-- USES_PRIMARY.
abbrev pub uses_primary : Mode → Bool
uses_primary active_backup = true
uses_primary tlb = true
uses_primary alb = true
uses_primary hoolock_mode = true
uses_primary _ = false

-- IS_UP.
abbrev pub is_up : NetDevice → Bool
is_up d = d.iff_up && d.running && d.carrier

abbrev pub is_link_up : LinkState → Bool
is_link_up link_up = true
is_link_up _ = false

abbrev pub is_back : LinkState → Bool
is_back link_back = true
is_back _ = false

abbrev pub is_ok : Status → Bool
is_ok ok = true
is_ok _ = false

abbrev pub is_active : SlaveState → Bool
is_active active = true
is_active backup = false

abbrev pub is_hoolock : Mode → Bool
is_hoolock hoolock_mode = true
is_hoolock _ = false

-- A write of the whole structure at an address.
abbrev pub store : (ℕ → Slave) → ℕ → Slave → ℕ → Slave
store m p s q = if q == p then s else m q

abbrev pub put_slave : ℕ → Slave → Bonding → Bonding
put_slave p s b = record b { mem = store b.mem p s }

-- An assignment to fields of a slave.
abbrev pub edit : ℕ → (Slave → Slave) → Bonding → Bonding
edit p f b = put_slave p (f (b.mem p)) b

abbrev pub log : Event → Bonding → Bonding
log e b = record b { events = e ∷ b.events }

-- The addresses from `p` on, to the end of the list.
unfoldable pub from : ℕ → List ℕ → List ℕ
from p [] = []
from p (x ∷ xs) = if x == p then x ∷ xs else from p xs

-- The addresses before `p`.
unfoldable pub before : ℕ → List ℕ → List ℕ
before p [] = []
before p (x ∷ xs) = if x == p then [] else x ∷ before p xs

-- `bond_for_each_slave_from(bond, pos, cnt, p)`: `slave_cnt` steps round the circle.
unfoldable pub each_from : ℕ → List ℕ → List ℕ
unfolding from before
each_from p xs = from p xs ++ before p xs

-- The first address that passes the test; `bond_for_each_slave` with a `break`.
unfoldable pub first_that : (ℕ → Bool) → List ℕ → Option ℕ
first_that t [] = none
first_that t (x ∷ xs) = if t x then some x else first_that t xs

-- The head of the list: `first_slave`.
abbrev pub first_slave : Bonding → Option ℕ
first_slave b = elim b.slaves [ [] ↦ none | x ∷ xs ↦ some x ]

-- `bond_get_slave_by_dev`. Where the loop ends by its count, `slave` has gone round the circle
-- and stands at the first slave again.
unfoldable pub get_slave_by_dev : Bonding → ℕ → Option ℕ
unfolding first_that
get_slave_by_dev b d = elim (first_that (λ p. (b.mem p).dev.ptr == d) b.slaves) [
  | none ↦ first_slave b
  | some p ↦ some p
]

-- `slave_do_arp_validate`.
abbrev pub do_arp_validate : Bonding → Slave → Bool
do_arp_validate b s = elim s.state [
  | active ↦ b.params.validate_active
  | backup ↦ b.params.validate_backup
]

-- `bond_set_slave_inactive_flags`.
unfoldable pub set_slave_inactive_flags : Bonding → Slave → Slave
set_slave_inactive_flags b s =
    let s' : Slave = elim b.params.mode [ tlb ↦ s | alb ↦ s | _ ↦ record s { state = backup } ] in
    let d = record (s'.dev) { slave_inactive = true } in
    record s' { dev = if do_arp_validate b s' then record d { slave_needarp = true } else d }

-- `bond_set_slave_active_flags`.
unfoldable pub set_slave_active_flags : Slave → Slave
set_slave_active_flags s = record s {
  state = active;
  dev = record (s.dev) { slave_inactive = false; slave_needarp = false };
}

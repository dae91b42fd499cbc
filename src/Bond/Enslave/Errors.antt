-- ===== src/Bond/Enslave/Errors.antt =====
-- How bond_enslave ends, on each of its paths.
use hoolock.Common.{
  ℕ, ◌≡◌, ◌≢◌, ◌⊎◌, refl, List, [], ◌∷◌, ◌++◌, Bool, true, false, Option, none, some, arith,
}
use hoolock.Bond.State.{Bonding, NetDevice, fom_active, Status, ok, VlanEntry, hoolock_mode}
use hoolock.Bond.Slaves.{is_ok}
use hoolock.Bond.Active.Steps.{Leaves, Leaves-trans, log-Leaves}
use hoolock.Bond.Invariant.{Keeps-refl, IsWellFormed}
use hoolock.Bond.Vlans.{set_challenged, add_all}
use hoolock.Bond.Enslave.{Services, Enslaved}
use hoolock.Bond.Enslave.Laws.{Untouched}
use hoolock.Bond.Enslave.Attached.{or_new}

-- Refused: the slaves and pointers of the bond and its vlan flag are as before, and the device
-- has no master and is opened or not as before.
pub record Failed (b : Bonding) (d : NetDevice) (r : Enslaved) : Type 0 where
  pub is_error : r.status ≢ ok
  pub untouched : Untouched b r.bond
  pub vlan_challenged : r.bond.dev.vlan_challenged ≡ b.dev.vlan_challenged
  pub master : r.slave_dev.master ≡ none
  pub iff_slave : r.slave_dev.iff_slave ≡ d.iff_slave
  pub iff_up : r.slave_dev.iff_up ≡ d.iff_up

-- The slave at `p`, with this device, is at the end of the list.
pub record Grown (b : Bonding) (d : NetDevice) (p : ℕ) (c : Bonding) : Type 0 where
  pub slaves : c.slaves ≡ b.slaves ++ (p ∷ [])
  pub valid : IsWellFormed c
  pub slave_dev : (c.mem p).dev.ptr ≡ d.ptr
  pub buffer_mode : c.buffer_mode ≡ b.buffer_mode
  pub pbuff : c.pbuff ≡ b.pbuff
  pub hoolock : b.params.mode ≡ hoolock_mode → c.curr_active_slave ≡ or_new p b.curr_active_slave

-- Enslaved.
abbrev pub Succeeded : Bonding → NetDevice → ℕ → Enslaved → Type 0
Succeeded b d p r = (r.status ≡ ok) × (r.freed ≡ none) × Grown b d p r.bond

-- No symbolic links could be made: the structure is freed, and still on the list.
abbrev pub Dangling : Services → Bonding → ℕ → Enslaved → Type 0
Dangling v b p r =
    (r.status ≢ ok)
    × (r.freed ≡ some p)
    × (r.bond.slaves ≡ b.slaves ++ (p ∷ []))
    × ((e : NetDevice) × (v.create_symlinks e ≡ r.status))

abbrev pub Outcome : Services → Bonding → NetDevice → Option ℕ → Enslaved → Type 0
Outcome v b d alloc r =
    Failed b d r ⊎ ((p : ℕ) × (alloc ≡ some p) × (Succeeded b d p r ⊎ Dangling v b p r))

pub not_ok : (st : Status) → is_ok st ≡ false → st ≢ ok
not_ok st e h = ground arith

-- What is done before the attachment touches no slave.
pub challenged-Untouched : (t : Bool) (b : Bonding) → Untouched b (set_challenged t b)
challenged-Untouched t b = record {
  slaves = refl;
  curr_active_slave = refl;
  primary_slave = refl;
  current_arp_slave = refl;
  buffer_mode = refl;
  pbuff = refl;
  mode = refl;
  bond_dev = refl;
  slave_devs = λ p. refl;
}

pub fom-Untouched :
    (b : Bonding)
    → Untouched b (record b { params = record (b.params) { fail_over_mac = fom_active } })
fom-Untouched b = record {
  slaves = refl;
  curr_active_slave = refl;
  primary_slave = refl;
  current_arp_slave = refl;
  buffer_mode = refl;
  pbuff = refl;
  mode = refl;
  bond_dev = refl;
  slave_devs = λ p. refl;
}

pub setup-Untouched :
    (t : ℕ) (b : Bonding)
    → Untouched b (record b { dev = record (b.dev) { dev_type = t }; setup_by_slave = true })
setup-Untouched t b = record {
  slaves = refl;
  curr_active_slave = refl;
  primary_slave = refl;
  current_arp_slave = refl;
  buffer_mode = refl;
  pbuff = refl;
  mode = refl;
  bond_dev = refl;
  slave_devs = λ p. refl;
}

pub add_all-Leaves : (d : ℕ) (vs : List VlanEntry) (b : Bonding) → Leaves b (add_all d vs b)
unfolding add_all
add_all-Leaves d [] b = (Keeps-refl b, refl)
add_all-Leaves d (v ∷ vs) b = Leaves-trans (log-Leaves _ b) (add_all-Leaves d vs _)

-- ===== src/Bond/Settings.antt =====
-- Settings that a bond passes on to all slaves: bond_change_mtu and bond_set_mac_address of
-- 27/bond_main.c, and dev_set_mtu of 27/dev.c.
pub mod Unwind
use hoolock.Common.{
  ℕ, List, [], ◌∷◌, Bool, true, false, not, Option, none, some, if◌then◌else◌, ◌==◌,
}
use hoolock.Bond.State.{Bonding, Slave, NetDevice, Status, ok, enodev, eaddrnotavail, eopnotsupp}
use hoolock.Bond.Slaves.{is_ok, edit, before}
use hoolock.Bond.Active.{Extern}
use hoolock.Bond.Enslave.{is_fom_active}
use hoolock.Bond.Arp.Backup.{next_slave}

-- What a device's driver does with a new MTU: whether the device is there, and its `change_mtu`,
-- which can be missing, with the MTU that it leaves.
pub record MtuDriver : Type 0 where
  pub is_present : NetDevice → Bool
  pub change_mtu : NetDevice → ℕ → Option (Status × ℕ)

abbrev pub changed : NetDevice → ℕ → Option (Status × ℕ) → Status × NetDevice
changed d n none = (ok, record d { mtu = n })
changed d n (some (st, m)) = (st, record d { mtu = m })

-- `dev_set_mtu`, for an MTU that is not negative.
unfoldable pub dev_set_mtu : MtuDriver → ℕ → NetDevice → Status × NetDevice
dev_set_mtu w n d =
    if n == d.mtu
    then (ok, d)
    else if w.is_present d
    then changed d n (w.change_mtu d n)
    else (enodev, d)

abbrev pub set_one : (NetDevice → Status × NetDevice) → ℕ → Bonding → Bonding
set_one set p b = edit p (λ s. record s { dev = (set s.dev).1 }) b

-- The loop over the slaves, with the slave that failed and its error.
unfoldable pub set_each :
    (NetDevice → Status × NetDevice) → List ℕ → Bonding → Option (ℕ × Status) × Bonding
set_each set [] b = (none, b)
set_each set (p ∷ ps) b =
    let st = (set (b.mem p).dev).0 in
    let rest = set_each set ps (set_one set p b) in
    if is_ok st then rest else (some (p, st), set_one set p b)

-- The loop behind `unwind`, whose errors are only printed.
unfoldable pub set_back : (NetDevice → Status × NetDevice) → List ℕ → Bonding → Bonding
set_back set [] b = b
set_back set (p ∷ ps) b = set_back set ps (set_one set p b)

-- `bond_for_each_slave_from_to` from the first slave on: up to the one before `stop_at->next`.
unfoldable pub from_first_to : ℕ → List ℕ → List ℕ
unfolding next_slave before
from_first_to stop_at xs = before (next_slave stop_at xs) xs

abbrev pub or_unwind :
    (NetDevice → Status × NetDevice)
    → (Bonding → Bonding)
    → Option (ℕ × Status) × Bonding
    → Status × Bonding
or_unwind back done (none, b) = (ok, done b)
or_unwind back done (some (p, st), b) = (st, set_back back (from_first_to p b.slaves) b)

abbrev pub put_mtu : ℕ → Bonding → Bonding
put_mtu n b = record b { dev = record (b.dev) { mtu = n } }

-- `bond_change_mtu`.
unfoldable pub change_mtu : MtuDriver → ℕ → Bonding → Status × Bonding
unfolding set_each set_back from_first_to
change_mtu w n b =
    or_unwind (dev_set_mtu w b.dev.mtu) (put_mtu n) (set_each (dev_set_mtu w n) b.slaves b)

abbrev pub set_addr : Extern → ℕ → NetDevice → Status × NetDevice
set_addr x a d = if d.can_set_mac then x.dev_set_mac_address d a else (eopnotsupp, d)

-- `bond_set_mac_address`; `is_valid` is is_valid_ether_addr of the address.
unfoldable pub set_mac_address : Extern → Bool → ℕ → Bonding → Status × Bonding
unfolding set_each set_back from_first_to
set_mac_address x is_valid a b =
    let r =
      or_unwind (λ d. x.dev_set_mac_address d b.dev.dev_addr)
        (λ c. record c { dev = record (c.dev) { dev_addr = a } })
        (set_each (set_addr x a) b.slaves b) in
    if is_fom_active b.params.fail_over_mac
    then (ok, b)
    else if not is_valid
    then (eaddrnotavail, b)
    else r

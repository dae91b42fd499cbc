-- ===== src/Bond/Multicast.antt =====
-- The multicast settings that a bond passes on, 27/bond_main.c: bond_set_multicast_list with
-- bond_set_promiscuity, bond_set_allmulti, bond_mc_add, bond_mc_delete and the copy of the list.
pub mod Settled
use hoolock.Common.{
  ℕ, zero, suc, List, [], ◌∷◌, Bool, true, false, ◌&&◌, ◌||◌, not, Option, none, some,
  if◌then◌else◌, ◌==◌,
}
use hoolock.Bond.State.{Bonding, Slave, NetDevice, Status, Event, mc_add, mc_delete}
use hoolock.Bond.Slaves.{uses_primary, is_ok, edit, log}
use hoolock.Net.Device.{Inc, plus, minus, dev_set_promiscuity, dev_set_allmulti}

abbrev pub set_at : (NetDevice → Status × NetDevice) → ℕ → Bonding → Bonding
set_at set p b = edit p (λ s. record s { dev = (set s.dev).1 }) b

-- The loop over the slaves, which ends at an error.
unfoldable pub push_each : (NetDevice → Status × NetDevice) → List ℕ → Bonding → Bonding
push_each set [] b = b
push_each set (p ∷ ps) b =
    let st = (set (b.mem p).dev).0 in
    let rest = push_each set ps (set_at set p b) in if is_ok st then rest else set_at set p b

abbrev pub push_active : (NetDevice → Status × NetDevice) → Option ℕ → Bonding → Bonding
push_active set none b = b
push_active set (some p) b = set_at set p b

-- `bond_set_promiscuity` and `bond_set_allmulti`.
unfoldable pub set_promiscuity : Inc → Bonding → Bonding
unfolding push_each
set_promiscuity inc b =
    let set = λ (d : NetDevice). dev_set_promiscuity d inc in
    if uses_primary b.params.mode
    then push_active set b.curr_active_slave b
    else push_each set b.slaves b

unfoldable pub set_allmulti : Inc → Bonding → Bonding
unfolding push_each
set_allmulti inc b =
    let set = λ (d : NetDevice). dev_set_allmulti d inc in
    if uses_primary b.params.mode
    then push_active set b.curr_active_slave b
    else push_each set b.slaves b

-- `bond_mc_add` and `bond_mc_delete`, by the event at a device.
unfoldable pub log_each : (ℕ → ℕ → Event) → ℕ → List ℕ → Bonding → Bonding
log_each e a [] b = b
log_each e a (p ∷ ps) b = log_each e a ps (log (e (b.mem p).dev.ptr a) b)

abbrev pub log_active : (ℕ → ℕ → Event) → ℕ → Option ℕ → Bonding → Bonding
log_active e a none b = b
log_active e a (some p) b = log (e (b.mem p).dev.ptr a) b

unfoldable pub mc_tell : (ℕ → ℕ → Event) → ℕ → Bonding → Bonding
unfolding log_each
mc_tell e a b =
    if uses_primary b.params.mode
    then log_active e a b.curr_active_slave b
    else log_each e a b.slaves b

-- `bond_mc_list_find_dmi`.
unfoldable pub find_dmi : ℕ → List ℕ → Bool
find_dmi a [] = false
find_dmi a (x ∷ xs) = a == x || find_dmi a xs

-- The loops that look for the addresses of one list that are not on the other.
unfoldable pub tell_missing : (ℕ → ℕ → Event) → List ℕ → List ℕ → Bonding → Bonding
unfolding find_dmi mc_tell
tell_missing e known [] b = b
tell_missing e known (a ∷ as') b =
    tell_missing e known as' (if find_dmi a known then b else mc_tell e a b)

-- `bond_mc_list_copy`, which puts each entry before the others; `room` allocations succeed.
unfoldable pub mc_list_copy : ℕ → List ℕ → List ℕ → List ℕ
mc_list_copy zero xs acc = acc
mc_list_copy (suc room) [] acc = acc
mc_list_copy (suc room) (x ∷ xs) acc = mc_list_copy room xs (x ∷ acc)

-- The part of `bond_set_multicast_list` for the flags.
unfoldable pub push_flags : Bonding → Bonding
unfolding set_promiscuity set_allmulti
push_flags b =
    let b₁ = if b.dev.iff_promisc && not b.flag_promisc then set_promiscuity plus b else b in
    let b₂ = if not b₁.dev.iff_promisc && b₁.flag_promisc then set_promiscuity minus b₁ else b₁ in
    let b₃ = if b₂.dev.iff_allmulti && not b₂.flag_allmulti then set_allmulti plus b₂ else b₂ in
    let b₄ = if not b₃.dev.iff_allmulti && b₃.flag_allmulti then set_allmulti minus b₃ else b₃ in
    record b₄ { flag_promisc = b₄.dev.iff_promisc; flag_allmulti = b₄.dev.iff_allmulti }

-- `bond_set_multicast_list`.
unfoldable pub set_multicast_list : ℕ → Bonding → Bonding
unfolding push_flags tell_missing mc_list_copy
set_multicast_list room b =
    let b₁ = push_flags b in
    let b₂ = tell_missing mc_add b₁.mc_list b₁.dev.mc_list b₁ in
    let b₃ = tell_missing mc_delete b₂.dev.mc_list b₂.mc_list b₂ in
    record b₃ { mc_list = mc_list_copy room b₃.dev.mc_list [] }

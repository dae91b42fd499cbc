-- ===== src/Transmit.antt =====
-- The transmit functions and hash policies of 27/bond_main.c: bond_dev_queue_xmit,
-- bond_xmit_roundrobin, bond_xmit_hoolock, bond_xmit_activebackup, bond_xmit_xor,
-- bond_xmit_broadcast and bond_xmit_hash_policy_l2, _l23 and _l34.
pub mod Rotation
pub mod Choice
pub mod Broadcast
use hoolock.Common.{
  ℕ, zero, suc, ◌+◌, ◌-◌, ◌%◌, ◌^◌, bit_and, bit_xor, List, [], ◌∷◌, Bool, true, false, ◌&&◌, ◌||◌,
  not, Option, none, some, if◌then◌else◌, ◌==◌, length,
}
use hoolock.Bond.State.{Bonding, Slave, SkBuff, transmitted, freed}
use hoolock.Bond.Slaves.{log, is_up, is_link_up, is_active, each_from, first_that, first_slave}

-- The VLAN services of a slave's device: whether it inserts tags itself, the tag of a packet and
-- the packet with the tag put in.
pub record VlanTags : Type 0 where
  pub hw_vlan_tx : ℕ → Bool
  pub vlan_tag : SkBuff → Option ℕ
  pub put_tag : SkBuff → ℕ → Option SkBuff

-- What becomes of the packet for the device at `d`; `none` where `vlan_put_tag` freed it.
unfoldable pub retagged : VlanTags → Bool → ℕ → SkBuff → Option SkBuff
retagged v any_vlan d k =
    let k' = record k { dev = d } in
    if any_vlan && not (v.hw_vlan_tx d)
    then (elim (v.vlan_tag k) [ none ↦ some k' | some t ↦ v.put_tag k' t ])
    else some k'

abbrev pub any_vlan : Bonding → Bool
any_vlan b = elim b.vlan_list [ [] ↦ false | x ∷ xs ↦ true ]

unfoldable pub queue_tagged : Option SkBuff → SkBuff → ℕ → Bonding → Bonding
queue_tagged none k d b = log (freed k) b
queue_tagged (some k') k d b = log (transmitted d k') b

-- `bond_dev_queue_xmit`, which always returns 0.
unfoldable pub queue_xmit : VlanTags → SkBuff → ℕ → Bonding → Bonding
unfolding retagged queue_tagged
queue_xmit v k p b = let d = (b.mem p).dev.ptr in queue_tagged (retagged v (any_vlan b) d k) k d b

-- The ends of the transmit functions: the packet is queued, or freed.
abbrev pub send : VlanTags → SkBuff → Option ℕ → Bonding → Bonding
send v k none b = log (freed k) b
send v k (some p) b = queue_xmit v k p b

-- BOND_IS_OK.
abbrev pub bond_is_ok : Bonding → Bool
bond_is_ok b = b.dev.iff_up && b.dev.running && not (length b.slaves == 0)

-- The test of the transmit functions for a slave.
abbrev pub is_eligible : (ℕ → Slave) → ℕ → Bool
is_eligible m p = is_up (m p).dev && is_link_up (m p).link && is_active (m p).state

-- The loop that counts `slave_no` down; past the end it is at the first slave again.
unfoldable pub nth_slave : ℕ → List ℕ → Option ℕ
nth_slave n [] = none
nth_slave zero (p ∷ ps) = some p
nth_slave (suc n) (p ∷ ps) = nth_slave n ps

abbrev pub or_first : Bonding → Option ℕ → Option ℕ
or_first b none = first_slave b
or_first b (some p) = some p

-- The two loops of bond_xmit_roundrobin and bond_xmit_xor.
unfoldable pub pick_from : Bonding → Option ℕ → Option ℕ
unfolding each_from first_that
pick_from b none = none
pick_from b (some p) = first_that (is_eligible b.mem) (each_from p b.slaves)

unfoldable pub pick : Bonding → ℕ → Option ℕ
unfolding nth_slave pick_from
pick b n = pick_from b (or_first b (nth_slave n b.slaves))

-- `bond_xmit_roundrobin`; the counter has 16 bits.
unfoldable pub xmit_roundrobin : VlanTags → SkBuff → Bonding → Bonding
unfolding pick queue_xmit
xmit_roundrobin v k b =
    let c = record b { rr_tx_counter = (b.rr_tx_counter + 1) % 2 ^ 16 } in
    if bond_is_ok b
    then send v k (pick b (b.rr_tx_counter % length b.slaves)) c
    else log (freed k) b

-- `bond_xmit_hoolock`; `none` is the read through a NULL active slave.
unfoldable pub hoolock_on : VlanTags → SkBuff → Option ℕ → Bonding → Option Bonding
unfolding queue_xmit
hoolock_on v k none b = none
hoolock_on v k (some p) b = some (send v k (if is_eligible b.mem p then some p else none) b)

unfoldable pub xmit_hoolock : VlanTags → SkBuff → Bonding → Option Bonding
unfolding hoolock_on
xmit_hoolock v k b =
    if bond_is_ok b then hoolock_on v k b.curr_active_slave b else some (log (freed k) b)

-- `bond_xmit_activebackup`.
unfoldable pub xmit_activebackup : VlanTags → SkBuff → Bonding → Bonding
unfolding queue_xmit
xmit_activebackup v k b = if bond_is_ok b then send v k b.curr_active_slave b else log (freed k) b

-- The headers that the hash policies read, in host byte order: the last byte of the destination
-- address, and of an IP packet the addresses and the ports.
pub record Headers : Type 0 where
  pub h_dest5 : ℕ
  pub is_ip : Bool
  pub saddr : ℕ
  pub daddr : ℕ
  pub is_fragment : Bool
  pub is_tcp_or_udp : Bool
  pub sport : ℕ
  pub dport : ℕ

-- `bond_xmit_hash_policy_l2`, for a bond whose address ends in `dev_addr5`.
unfoldable pub hash_l2 : Headers → ℕ → ℕ → ℕ
hash_l2 h dev_addr5 count = bit_xor h.h_dest5 dev_addr5 % count

-- `bond_xmit_hash_policy_l23`.
unfoldable pub hash_l23 : Headers → ℕ → ℕ → ℕ
hash_l23 h dev_addr5 count =
    if h.is_ip
    then bit_xor (bit_and (bit_xor h.saddr h.daddr) 0xffff) (bit_xor h.h_dest5 dev_addr5) % count
    else bit_xor h.h_dest5 dev_addr5 % count

-- `bond_xmit_hash_policy_l34`.
unfoldable pub hash_l34 : Headers → ℕ → ℕ → ℕ
hash_l34 h dev_addr5 count =
    let ports = if not h.is_fragment && h.is_tcp_or_udp then bit_xor h.sport h.dport else 0 in
    if h.is_ip
    then bit_xor ports (bit_and (bit_xor h.saddr h.daddr) 0xffff) % count
    else bit_xor h.h_dest5 dev_addr5 % count

-- BOND_XMIT_POLICY_*, and `bond_set_xmit_hash_policy`.
pub data XmitPolicy : Type 0 where
  layer2 layer34 layer23 : XmitPolicy

unfoldable pub hash_policy : XmitPolicy → Headers → ℕ → ℕ → ℕ
unfolding hash_l2 hash_l23 hash_l34
hash_policy layer23 = hash_l23
hash_policy layer34 = hash_l34
hash_policy layer2 = hash_l2

-- `bond_xmit_xor`.
unfoldable pub xmit_xor : VlanTags → XmitPolicy → Headers → ℕ → SkBuff → Bonding → Bonding
unfolding pick queue_xmit hash_policy
xmit_xor v policy h dev_addr5 k b =
    if bond_is_ok b
    then send v k (pick b (hash_policy policy h dev_addr5 (length b.slaves))) b
    else log (freed k) b

-- The loop of `bond_xmit_broadcast`: the packet kept back for `tx_dev` is cloned for it when the
-- next usable slave comes; where the clone fails that slave is passed over.
unfoldable pub broadcast_loop :
    VlanTags → (ℕ → Bool) → SkBuff → List ℕ → Option ℕ → Bonding → Option ℕ × Bonding
unfolding queue_xmit
broadcast_loop v clones k [] tx b = (tx, b)
broadcast_loop v clones k (p ∷ ps) none b =
    broadcast_loop v clones k ps (if is_eligible b.mem p then some p else none) b
broadcast_loop v clones k (p ∷ ps) (some q) b =
    let go = is_eligible b.mem p && clones q in
    broadcast_loop v clones k ps (if go then some p else some q)
      (if go then queue_xmit v k q b else b)

unfoldable pub broadcast_from : VlanTags → (ℕ → Bool) → SkBuff → Option ℕ → Bonding → Bonding
unfolding broadcast_loop each_from
broadcast_from v clones k none b = log (freed k) b
broadcast_from v clones k (some s) b =
    let (tx, c) = broadcast_loop v clones k (each_from s b.slaves) none b in send v k tx c

-- `bond_xmit_broadcast`.
unfoldable pub xmit_broadcast : VlanTags → (ℕ → Bool) → SkBuff → Bonding → Bonding
unfolding broadcast_from
xmit_broadcast v clones k b =
    if bond_is_ok b then broadcast_from v clones k b.curr_active_slave b else log (freed k) b

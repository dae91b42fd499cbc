-- ===== src/Hoolock/Break.antt =====
-- bond_ioctl_break of 27/bond_main.c: the buffered packets go up through netif_receive_skb.
pub mod Drains
use hoolock.Common.{
  ℕ, zero, suc, List, [], ◌∷◌, ◌++◌, Bool, true, false, ◌&&◌, if◌then◌else◌, Option, none, some,
  length,
}
use hoolock.Bond.State.{Bonding, SkBuff, Status, ok}
use hoolock.Net.Receive.{Network, Rx, netif_receive_skb}

-- The locks that `bond_ioctl_break` holds for writing around the loop; it holds `bond->lock` for
-- reading. The cast of `pbuff.lock` to a `rwlock_t` is taken as that lock.
pub data Lock : Type 0 where
  pbuff_lock curr_slave_lock bond_lock : Lock

abbrev pub is_held : Lock → Bool
is_held pbuff_lock = true
is_held curr_slave_lock = true
is_held bond_lock = false

-- Taking a lock again waits for ever where locks spin, and is nothing where they are empty.
abbrev pub waits : Bool → Lock → Bool
waits spin l = spin && is_held l

-- The result with what was received, a lock that the caller itself holds, a read through the NULL
-- active slave, or no fuel.
pub data Outcome : Type 0 where
  finished : Status → Bonding → List Rx → Outcome
  deadlocked : Outcome
  null_active : Outcome
  out_of_fuel : Outcome

abbrev pub and_received : Rx → Outcome → Outcome
and_received r (finished st b rs) = finished st b (r ∷ rs)
and_received r deadlocked = deadlocked
and_received r null_active = null_active
and_received r out_of_fuel = out_of_fuel

-- The round behind `skb_dequeue`, for the packet `k` from the head of the queue, then the rest of
-- the loop.
unfoldable pub release_one :
    (SkBuff → Network)
    → SkBuff
    → List SkBuff
    → (Status → Bonding → Outcome)
    → Option ℕ
    → Bonding
    → Outcome
release_one net k ks rest none b = null_active
release_one net k ks rest (some p) b =
    let pb = record k { dev = (b.mem p).dev.ptr } in
    let (ret, rx) = netif_receive_skb (net pb) pb (record b { pbuff = ks }) in
    and_received rx (rest ret rx.bond)

-- The loop `while (!skb_queue_empty(&bond->pbuff))`; `skb_queue_empty` takes no lock, and
-- `skb_dequeue` takes `pbuff.lock`.
unfoldable pub release_loop : Bool → ℕ → (SkBuff → Network) → Status → Bonding → Outcome
unfolding release_one
release_loop spin zero net ret b = out_of_fuel
release_loop spin (suc fuel) net ret b = elim b.pbuff [
  | [] ↦ finished ret b []
  | k ∷ ks ↦
      if waits spin pbuff_lock
      then deadlocked
      else release_one net k ks (release_loop spin fuel net) b.curr_active_slave b
]

-- `bond_ioctl_break`, with fuel for one round more than there are packets, in a build where locks
-- spin (`true`) or are empty.
unfoldable pub break : Bool → (SkBuff → Network) → Bonding → Outcome
unfolding release_loop
break spin net b =
    release_loop spin (suc (length b.pbuff)) net ok (record b { buffer_mode = false })

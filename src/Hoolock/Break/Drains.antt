-- ===== src/Hoolock/Break/Drains.antt =====
-- The loop of bond_ioctl_break, 27/bond_main.c, over the whole buffer.
use hoolock.Common.{
  ℕ, zero, suc, ◌+◌, ◌≡◌, refl, ap, ◌∙◌, List, [], ◌∷◌, Bool, true, false, not, ◌&&◌, if◌then◌else◌,
  none, some, length, arith,
}
use hoolock.Bond.State.{Bonding, SkBuff, Status, ok}
use hoolock.Net.Receive.{Network, Rx, netif_receive_skb}
use hoolock.Net.Receive.Keeps.{netif_receive_skb-idle}
use hoolock.Hoolock.Break.{
  Outcome, finished, deadlocked, null_active, and_received, release_one, release_loop, break,
}

-- A packet as it goes up: it counts as received on the active slave's device.
abbrev pub on_active : Bonding → ℕ → SkBuff → SkBuff
on_active b p k = record k { dev = (b.mem p).dev.ptr }

-- The packets of a queue received one after the other, each with the rest still queued.
abbrev pub received : (SkBuff → Network) → Bonding → ℕ → List SkBuff → List Rx
received net b p [] = []
received net b p (k ∷ ks) =
    (netif_receive_skb (net (on_active b p k)) (on_active b p k) (record b { pbuff = ks })).1
    ∷ received net b p ks

-- The result of the last of them.
abbrev pub last_result : (SkBuff → Network) → Bonding → ℕ → Status → List SkBuff → Status
last_result net b p ret [] = ret
last_result net b p ret (k ∷ ks) =
    last_result net b p
      (netif_receive_skb (net (on_active b p k)) (on_active b p k) (record b { pbuff = ks })).0 ks

-- One round, with the buffer mode off: the packet goes up and the queue loses it.
release_one_lem :
    (net : SkBuff → Network) (rest : Status → Bonding → Outcome) (b : Bonding) (p : ℕ) (k : SkBuff)
    (js ks : List SkBuff)
    → b.buffer_mode ≡ false
    → b.curr_active_slave ≡ some p
    → let (ret, rx) =
        netif_receive_skb (net (on_active b p k)) (on_active b p k) (record b { pbuff = ks }) in
      release_one net k ks rest b.curr_active_slave (record b { pbuff = js })
      ≡ and_received rx (rest ret (record b { pbuff = ks }))
unfolding release_one
release_one_lem net rest b p k js ks m a =
    ap (λ o. release_one net k ks rest o (record b { pbuff = js })) a
    ∙ ap (λ c. and_received rx.1 (rest rx.0 c))
        (netif_receive_skb-idle (net (on_active b p k)) (on_active b p k) (record b { pbuff = ks })
          m)
  where
    rx : Status × Rx
    rx = netif_receive_skb (net (on_active b p k)) (on_active b p k) (record b { pbuff = ks })

release_loop-drains :
    (fuel : ℕ) (net : SkBuff → Network) (ret : Status) (b : Bonding) (p : ℕ) (ks : List SkBuff)
    → length ks + 1 ≡ fuel
    → b.buffer_mode ≡ false
    → b.curr_active_slave ≡ some p
    → release_loop false fuel net ret (record b { pbuff = ks })
      ≡ finished (last_result net b p ret ks) (record b { pbuff = [] }) (received net b p ks)
unfolding release_loop
release_loop-drains zero net ret b p ks f m a = absurd (omega arith)
release_loop-drains (suc fuel) net ret b p [] f m a = refl
release_loop-drains (suc fuel) net ret b p (k ∷ ks) f m a =
    release_one_lem net (release_loop false fuel net) b p k (k ∷ ks) ks m a
    ∙ ap (and_received _) (release_loop-drains fuel net _ b p ks (omega arith) m a)

abbrev pub is_empty : List SkBuff → Bool
is_empty [] = true
is_empty (k ∷ ks) = false

-- What a break with an active slave comes to, with `ks` in the buffer.
abbrev pub drained : (SkBuff → Network) → Bonding → ℕ → List SkBuff → Outcome
drained net b p ks =
    finished (last_result net b p ok ks) (record b { pbuff = [] }) (received net b p ks)

if_not {ℓ} : {A : Type ℓ} (x y : A) (t : Bool) → (if t then x else y) ≡ (if not t then y else x)
if_not x y true = refl
if_not x y false = refl

release_loop-spins :
    (net : SkBuff → Network) (b : Bonding) (p : ℕ) (ks : List SkBuff)
    → release_loop true (suc (length ks)) net ok (record b { pbuff = ks })
      ≡ (if is_empty ks then drained net b p ks else deadlocked)
unfolding release_loop
release_loop-spins net b p [] = refl
release_loop-spins net b p (k ∷ ks) = refl

-- With an active slave: where locks spin and something is buffered, `bond_ioctl_break` never
-- returns, since `skb_dequeue` waits for the lock of the buffer that the function itself holds. In
-- all other cases it ends: the buffer mode is off and the buffer empty, nothing else of the bond
-- has changed, and the buffered packets were received one by one in the order of the buffer, as if
-- they came in on the active slave's device.
pub break-drains :
    (spin : Bool) (net : SkBuff → Network) (b : Bonding) (p : ℕ)
    → b.curr_active_slave ≡ some p
    → break spin net b ≡ (
        if spin && not (is_empty b.pbuff)
        then deadlocked
        else finished
            (last_result net (record b { buffer_mode = false }) p ok b.pbuff)
            (record b { buffer_mode = false; pbuff = [] })
            (received net (record b { buffer_mode = false }) p b.pbuff))
unfolding break
break-drains true net b p a =
    release_loop-spins net (record b { buffer_mode = false }) p b.pbuff
    ∙ if_not _ _ (is_empty b.pbuff)
break-drains false net b p a =
    release_loop-drains (suc (length b.pbuff)) net ok (record b { buffer_mode = false }) p b.pbuff
      (omega arith) refl a

loop_without_active :
    (spin : Bool) (net : SkBuff → Network) (b : Bonding) (ks : List SkBuff)
    → b.curr_active_slave ≡ none
    → release_loop spin (suc (length ks)) net ok (record b { pbuff = ks }) ≡ (
        if is_empty ks
        then finished ok (record b { pbuff = ks }) []
        else if spin
        then deadlocked
        else null_active)
unfolding release_loop release_one
loop_without_active spin net b [] a = refl
loop_without_active true net b (k ∷ ks) a = refl
loop_without_active false net b (k ∷ ks) a =
    ap
      (λ o.
        release_one net k ks (release_loop false (suc (length ks)) net) o
          (record b { pbuff = k ∷ ks }))
      a

-- Without an active slave it ends only with an empty buffer.
pub break_without_active :
    (spin : Bool) (net : SkBuff → Network) (b : Bonding)
    → b.curr_active_slave ≡ none
    → break spin net b ≡ (
        if is_empty b.pbuff
        then finished ok (record b { buffer_mode = false }) []
        else if spin
        then deadlocked
        else null_active)
unfolding break
break_without_active spin net b a =
    loop_without_active spin net (record b { buffer_mode = false }) b.pbuff a

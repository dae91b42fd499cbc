-- ===== src/Transmit/Broadcast.antt =====
-- Whom bond_xmit_broadcast sends a packet to.
use hoolock.Common.{
  ℕ, ◌≡◌, refl, ◌∙◌, ap, List, [], ◌∷◌, Bool, true, false, ◌&&◌, Option, none, some, if◌then◌else◌,
}
use hoolock.Bond.State.{Bonding, Slave, SkBuff, freed}
use hoolock.Bond.Slaves.{first_that, each_from, log}
use hoolock.Transmit.{
  VlanTags, is_eligible, bond_is_ok, send, queue_xmit, queue_tagged, broadcast_loop, broadcast_from,
  xmit_broadcast,
}

-- The packet queued on each of these slaves that is usable, in this order.
pub queue_each : VlanTags → SkBuff → (ℕ → Slave) → List ℕ → Bonding → Bonding
queue_each v k m [] b = b
queue_each v k m (p ∷ ps) b =
    queue_each v k m ps (if is_eligible m p then queue_xmit v k p b else b)

-- The same, or the packet freed where no slave is usable.
pub each_or_free : VlanTags → SkBuff → (ℕ → Slave) → List ℕ → Bonding → Bonding
each_or_free v k m ps b = elim (first_that (is_eligible m) ps) [
  | none ↦ log (freed k) b
  | some p ↦ queue_each v k m ps b
]

queue_tagged-mem :
    (o : Option SkBuff) (k : SkBuff) (d : ℕ) (b : Bonding) → (queue_tagged o k d b).mem ≡ b.mem
unfolding queue_tagged
queue_tagged-mem none k d b = refl
queue_tagged-mem (some k') k d b = refl

queue_xmit-mem :
    (v : VlanTags) (k : SkBuff) (p : ℕ) (b : Bonding) → (queue_xmit v k p b).mem ≡ b.mem
unfolding queue_xmit
queue_xmit-mem v k p b = queue_tagged-mem _ k (b.mem p).dev.ptr b

-- What is left after the loop is sent on the last slave kept back.
finish : VlanTags → SkBuff → Option ℕ × Bonding → Bonding
finish v k r = send v k r.0 r.1

module _ (v : VlanTags) (k : SkBuff) (m : ℕ → Slave) where
  cloned_step :
      (p q : ℕ) (ps : List ℕ) (b : Bonding) (t : Bool)
      → ((q : ℕ) (b : Bonding)
          → b.mem ≡ m
          → finish v k (broadcast_loop v (λ r. true) k ps (some q) b)
            ≡ queue_each v k m ps (queue_xmit v k q b))
      → b.mem ≡ m
      → finish v k (
          broadcast_loop v
            (λ r. true)
            k
            ps
            (if t && true then some p else some q)
            (if t && true then queue_xmit v k q b else b))
        ≡ queue_each v k m ps
            (if t then queue_xmit v k p (queue_xmit v k q b) else queue_xmit v k q b)
  cloned_step p q ps b true ih e = ih p (queue_xmit v k q b) (queue_xmit-mem v k q b ∙ e)
  cloned_step p q ps b false ih e = ih q b e

  -- The loop with the slave at `q` kept back.
  cloned :
      (ps : List ℕ) (q : ℕ) (b : Bonding)
      → b.mem ≡ m
      → finish v k (broadcast_loop v (λ r. true) k ps (some q) b)
        ≡ queue_each v k m ps (queue_xmit v k q b)
  unfolding broadcast_loop queue_each finish
  cloned [] q b e = refl
  cloned (x ∷ xs) q b e =
      ap
        (λ (n : ℕ → Slave). finish v k (
          broadcast_loop v (λ r. true) k xs (if is_eligible n x && true then some x else some q)
            (if is_eligible n x && true then queue_xmit v k q b else b)))
        e
      ∙ cloned_step x q xs b (is_eligible m x) (cloned xs) e

  first_step :
      (x : ℕ) (xs : List ℕ) (b : Bonding) (t : Bool)
      → b.mem ≡ m
      → finish v k (broadcast_loop v (λ r. true) k xs none b) ≡ each_or_free v k m xs b
      → finish v k (broadcast_loop v (λ r. true) k xs (if t then some x else none) b)
        ≡ elim (if t then some x else first_that (is_eligible m) xs) [
          | none ↦ log (freed k) b
          | some p ↦ queue_each v k m xs (if t then queue_xmit v k x b else b)
        ]
  unfolding each_or_free
  first_step x xs b true e ih = cloned xs x b e
  first_step x xs b false e ih = ih

  fresh_loop :
      (ps : List ℕ) (b : Bonding)
      → b.mem ≡ m
      → finish v k (broadcast_loop v (λ r. true) k ps none b) ≡ each_or_free v k m ps b
  unfolding broadcast_loop each_or_free queue_each first_that finish
  fresh_loop [] b e = refl
  fresh_loop (x ∷ xs) b e =
      ap
        (λ (n : ℕ → Slave).
          finish v k
            (broadcast_loop v (λ r. true) k xs (if is_eligible n x then some x else none) b))
        e
      ∙ first_step x xs b (is_eligible m x) e (fresh_loop xs b e)

-- Where the bond is up with slaves and has an active slave, and while every clone is made,
-- `bond_xmit_broadcast` queues the packet once on each usable slave, in the order of the circle from
-- the active slave on; it frees the packet if no slave is usable.
pub xmit_broadcast-each :
    (v : VlanTags) (k : SkBuff) (b : Bonding) (s : ℕ)
    → bond_is_ok b ≡ true
    → b.curr_active_slave ≡ some s
    → xmit_broadcast v (λ q. true) k b ≡ each_or_free v k b.mem (each_from s b.slaves) b
unfolding xmit_broadcast broadcast_from finish
xmit_broadcast-each v k b s h a =
    ap
      (λ (t : Bool).
        if t then broadcast_from v (λ q. true) k b.curr_active_slave b else log (freed k) b)
      h
    ∙ ap (λ o. broadcast_from v (λ q. true) k o b) a
    ∙ fresh_loop v k b.mem (each_from s b.slaves) b refl

module _ (v : VlanTags) (k : SkBuff) where
  passed_over :
      (q : ℕ) (xs : List ℕ) (b : Bonding) (t : Bool)
      → broadcast_loop v (λ r. false) k xs (some q) b ≡ (some q, b)
      → ((x : ℕ)
          → broadcast_loop v
              (λ r. false)
              k
              xs
              (if t && false then some x else some q)
              (if t && false then queue_xmit v k q b else b)
            ≡ (some q, b))
  passed_over q xs b true ih x = ih
  passed_over q xs b false ih x = ih

  kept_back :
      (ps : List ℕ) (q : ℕ) (b : Bonding)
      → broadcast_loop v (λ r. false) k ps (some q) b ≡ (some q, b)
  unfolding broadcast_loop
  kept_back [] q b = refl
  kept_back (x ∷ xs) q b = passed_over q xs b (is_eligible b.mem x) (kept_back xs q b) x

  kept_or_later :
      (x : ℕ) (xs : List ℕ) (b : Bonding) (t : Bool)
      → broadcast_loop v (λ r. false) k xs none b ≡ (first_that (is_eligible b.mem) xs, b)
      → broadcast_loop v (λ r. false) k xs (if t then some x else none) b
        ≡ (if t then some x else first_that (is_eligible b.mem) xs, b)
  kept_or_later x xs b true ih = kept_back xs x b
  kept_or_later x xs b false ih = ih

  no_clone :
      (ps : List ℕ) (b : Bonding)
      → broadcast_loop v (λ r. false) k ps none b ≡ (first_that (is_eligible b.mem) ps, b)
  unfolding broadcast_loop first_that
  no_clone [] b = refl
  no_clone (x ∷ xs) b = kept_or_later x xs b (is_eligible b.mem x) (no_clone xs b)

-- Where no clone can be made, `bond_xmit_broadcast` sends the packet on one slave only, the first
-- usable one of the circle from the active slave on; it frees the packet if no slave is usable.
xmit_broadcast-no_clone :
    (v : VlanTags) (k : SkBuff) (b : Bonding) (s : ℕ)
    → bond_is_ok b ≡ true
    → b.curr_active_slave ≡ some s
    → xmit_broadcast v (λ q. false) k b
      ≡ send v k (first_that (is_eligible b.mem) (each_from s b.slaves)) b
unfolding xmit_broadcast broadcast_from
xmit_broadcast-no_clone v k b s h a =
    ap
      (λ (t : Bool).
        if t then broadcast_from v (λ q. false) k b.curr_active_slave b else log (freed k) b)
      h
    ∙ ap (λ o. broadcast_from v (λ q. false) k o b) a
    ∙ ap (λ (r : Option ℕ × Bonding). send v k r.0 r.1) (no_clone v k (each_from s b.slaves) b)

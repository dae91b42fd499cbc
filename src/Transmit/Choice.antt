-- ===== src/Transmit/Choice.antt =====
-- Which slave the transmit functions choose.
use hoolock.Common.{
  ℕ, ◌+◌, ◌%◌, ◌^◌, ◌<◌, ◌≡◌, ◌↔◌, refl, ◌∙◌, ap, sym, List, [], ◌∷◌, Bool, true, false, Option,
  none, some, if◌then◌else◌, arith, In, inl, inr, length, rotate,
}
use hoolock.Bond.State.{Bonding, SkBuff, freed}
use hoolock.Bond.Slaves.{first_that, each_from, log}
use hoolock.Bond.Slaves.Walks.{first_that-In, first_that-none, each_from-In, In-each_from}
use hoolock.Bond.Invariant.{IsWellFormed}
use hoolock.Transmit.{
  VlanTags, Headers, XmitPolicy, layer2, layer23, layer34, or_first, pick_from, pick, is_eligible,
  bond_is_ok, send, xmit_roundrobin, xmit_xor, xmit_hoolock, hoolock_on, xmit_activebackup,
  hash_policy, hash_l2, hash_l23, hash_l34,
}
use hoolock.Transmit.Rotation.{nth_slave-some, each_from-rotate}

-- The first usable slave of the list, from its element number `n` on and round.
pub choice : Bonding → ℕ → Option ℕ
choice b n = first_that (is_eligible b.mem) (rotate n b.slaves)

pub pick-rotate :
    (b : Bonding) (n : ℕ) → IsWellFormed b → n < length b.slaves → pick b n ≡ choice b n
unfolding pick pick_from choice
pick-rotate b n w h =
    let (p, e) = nth_slave-some n b.slaves h in
    ap (λ o. pick_from b (or_first b o)) e
    ∙ ap (first_that (is_eligible b.mem)) (each_from-rotate n p b.slaves w.distinct e)

-- What is chosen is a usable slave of the list, and nothing only where no slave is usable.
pub pick-In :
    (b : Bonding) (n p : ℕ)
    → IsWellFormed b
    → n < length b.slaves
    → pick b n ≡ some p
    → In p b.slaves × (is_eligible b.mem p ≡ true)
unfolding pick pick_from
pick-In b n p w h e =
    let (s, f) = nth_slave-some n b.slaves h in
    let r =
      first_that-In (is_eligible b.mem) (each_from s b.slaves) p
        (sym (ap (λ o. pick_from b (or_first b o)) f) ∙ e) in
    (In-each_from p s b.slaves r.0, r.1)

pub pick-none :
    (b : Bonding) (n p : ℕ)
    → IsWellFormed b
    → n < length b.slaves
    → pick b n ≡ none
    → In p b.slaves
    → is_eligible b.mem p ≡ false
unfolding pick pick_from
pick-none b n p w h e i =
    let (s, f) = nth_slave-some n b.slaves h in
    first_that-none (is_eligible b.mem) (each_from s b.slaves) p
      (sym (ap (λ o. pick_from b (or_first b o)) f) ∙ e) (each_from-In p s b.slaves i)

ok-length : (b : Bonding) → bond_is_ok b ≡ true → 0 < length b.slaves
ok-length b h = ground arith

-- The counter of bond_xmit_roundrobin, one further.
abbrev pub counted : Bonding → Bonding
counted b = record b { rr_tx_counter = (b.rr_tx_counter + 1) % 2 ^ 16 }

-- On a well-formed bond that is up with slaves, `bond_xmit_roundrobin` sends the packet on the
-- first usable slave of the list from the one whose number is the counter's rest by the number of
-- slaves, round to the one before that; it frees the packet if no slave is usable. The counter is
-- one further, modulo 2^16.
pub xmit_roundrobin-choice :
    (v : VlanTags) (k : SkBuff) (b : Bonding)
    → IsWellFormed b
    → bond_is_ok b ≡ true
    → xmit_roundrobin v k b ≡ send v k (choice b (b.rr_tx_counter % length b.slaves)) (counted b)
unfolding xmit_roundrobin
xmit_roundrobin-choice v k b w h =
    ap
      (λ (t : Bool).
        if t
        then send v k (pick b (b.rr_tx_counter % length b.slaves)) (counted b)
        else log (freed k) b)
      h
    ∙ ap (λ o. send v k o (counted b))
        (pick-rotate b (b.rr_tx_counter % length b.slaves) w (omega (arith, ok-length b h)))

-- Every hash policy gives a number below the number of slaves.
pub hash_policy-< :
    (policy : XmitPolicy) (h : Headers) (a n : ℕ) → 0 < n → hash_policy policy h a n < n
unfolding hash_policy hash_l2 hash_l23 hash_l34
hash_policy-< layer2 h a n l = omega arith
hash_policy-< layer23 h a n l = ground arith
hash_policy-< layer34 h a n l = ground arith

-- On a well-formed bond that is up with slaves, `bond_xmit_xor` sends the packet, under each of the
-- hash policies, on the first usable slave of the list from the one whose number is the hash,
-- round to the one before that; it frees the packet if no slave is usable.
pub xmit_xor-choice :
    (v : VlanTags) (policy : XmitPolicy) (h : Headers) (a : ℕ) (k : SkBuff) (b : Bonding)
    → IsWellFormed b
    → bond_is_ok b ≡ true
    → xmit_xor v policy h a k b ≡ send v k (choice b (hash_policy policy h a (length b.slaves))) b
unfolding xmit_xor
xmit_xor-choice v policy h a k b w e =
    let n = hash_policy policy h a (length b.slaves) in
    ap (λ (t : Bool). if t then send v k (pick b n) b else log (freed k) b) e
    ∙ ap (λ o. send v k o b)
        (pick-rotate b n w (hash_policy-< policy h a (length b.slaves) (ok-length b e)))

first_that-refused :
    (t : ℕ → Bool) (xs : List ℕ) → ((p : ℕ) → In p xs → t p ≡ false) → first_that t xs ≡ none
unfolding first_that
first_that-refused t [] f = refl
first_that-refused t (x ∷ xs) f =
    ap (λ (u : Bool). if u then some x else first_that t xs) (f x (inl refl))
    ∙ first_that-refused t xs (λ p i. f p (inr i))

-- On a well-formed bond with slaves, the two loops of `bond_xmit_roundrobin` and `bond_xmit_xor`
-- choose, from whichever number they start, only a usable slave of the list, and none exactly if no
-- slave of the list is usable.
pub pick_lem :
    (b : Bonding) (n : ℕ)
    → IsWellFormed b
    → n < length b.slaves
    → ((p : ℕ) → pick b n ≡ some p → In p b.slaves × (is_eligible b.mem p ≡ true))
      × ((pick b n ≡ none) ↔ ((p : ℕ) → In p b.slaves → is_eligible b.mem p ≡ false))
unfolding pick pick_from
pick_lem b n w h =
    let (s, f) = nth_slave-some n b.slaves h in
    (
      (λ p e. pick-In b n p w h e),
      (
        (λ e p i. pick-none b n p w h e i),
        (λ g.
            ap (λ o. pick_from b (or_first b o)) f
            ∙ first_that-refused (is_eligible b.mem) (each_from s b.slaves)
                (λ p i. g p (In-each_from p s b.slaves i))),
      ),
    )

some-not-none {ℓ} : {A : Type ℓ} {x : A} → some x ≡ none → ⊥
some-not-none e = cc

null_read :
    (v : VlanTags) (k : SkBuff) (b : Bonding) (t : Bool) (o : Option ℕ)
    → ((if t then hoolock_on v k o b else some (log (freed k) b)) ≡ none)
      ↔ ((t ≡ true) × (o ≡ none))
unfolding hoolock_on
null_read v k b true none = ((λ e. (refl, refl)), (λ e. refl))
null_read v k b true (some p) = ((λ e. absurd (some-not-none e)), (λ e. absurd (some-not-none e.1)))
null_read v k b false o = ((λ e. absurd (some-not-none e)), (λ e. ground (arith, e.0)))

-- `bond_xmit_hoolock` reads through NULL exactly if the bond is up with slaves and none is active.
pub xmit_hoolock-none :
    (v : VlanTags) (k : SkBuff) (b : Bonding)
    → (xmit_hoolock v k b ≡ none) ↔ ((bond_is_ok b ≡ true) × (b.curr_active_slave ≡ none))
unfolding xmit_hoolock
xmit_hoolock-none v k b = null_read v k b (bond_is_ok b) b.curr_active_slave

-- With an active slave that is usable, `bond_xmit_hoolock` does what `bond_xmit_activebackup` does.
xmit_hoolock-xmit_activebackup :
    (v : VlanTags) (k : SkBuff) (b : Bonding) (p : ℕ)
    → b.curr_active_slave ≡ some p
    → is_eligible b.mem p ≡ true
    → xmit_hoolock v k b ≡ some (xmit_activebackup v k b)
unfolding xmit_hoolock hoolock_on xmit_activebackup
xmit_hoolock-xmit_activebackup v k b p a e = ground arith

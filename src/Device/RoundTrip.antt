-- ===== src/Device/RoundTrip.antt =====
-- bond_open and bond_close in 27/bond_main.c, one after the other.
use hoolock.Common.{◌≡◌, refl, ◌∙◌, ap, subst, [], Bool, true, false, Option, none, some, arith}
use hoolock.Bond.State.{
  Bonding, Params, Mode, round_robin, active_backup, balance_xor, broadcast, lacp, tlb, alb,
  hoolock_mode,
}
use hoolock.Device.{
  Registered, Alb, bond_open, bond_close, open_first, open_alb, alb_opened, opened, open_rest,
  open_links, open_arp, open_mode, close_mode, cancel_mode, register_arp, unregister_arp,
  register_hoolock, unregister_hoolock, remove_type, cancel, alb_work, queue_work,
}

-- A bond that has nothing registered.
abbrev pub idle : Bonding → Registered
idle b = record { bond = b; types = []; arp_type = false; hoolock_type = false; works = [] }

abbrev pub IsIdle : Registered → Type 0
IsIdle r = (r.types ≡ []) × (r.works ≡ []) × (r.arp_type ≡ false) × (r.hoolock_type ≡ false)

-- What is relied on in bond_alb.c: the parameters stay.
pub record AlbLaws (x : Alb) : Type 0 where
  pub keeps_params : (b c : Bonding) → x.initialize b ≡ some c → c.params ≡ b.params

-- The modes that bond_alb.c takes part in.
abbrev pub is_alb : Mode → Bool
is_alb tlb = true
is_alb alb = true
is_alb _ = false

rest_back :
    (x : Alb) (b : Bonding) (m : Mode)
    → b.params.mode ≡ m
    → is_alb m ≡ false
    → IsIdle (bond_close x (open_rest (idle b)))
unfolding bond_close open_rest open_links open_arp open_mode close_mode cancel_mode register_arp
    unregister_arp register_hoolock unregister_hoolock remove_type cancel
rest_back x b round_robin e h = ground arith
rest_back x b active_backup e h = ground arith
rest_back x b balance_xor e h = ground arith
rest_back x b broadcast e h = ground arith
rest_back x b lacp e h = ground arith
rest_back x b tlb e h = ground arith
rest_back x b alb e h = ground arith
rest_back x b hoolock_mode e h = ground arith

alb_back :
    (x : Alb) (b : Bonding) (m : Mode)
    → b.params.mode ≡ m
    → is_alb m ≡ true
    → IsIdle (bond_close x (open_rest (queue_work alb_work (idle b))))
unfolding bond_close open_rest open_links open_arp open_mode close_mode cancel_mode register_arp
    unregister_arp register_hoolock unregister_hoolock remove_type cancel
alb_back x b tlb e h = ground arith
alb_back x b alb e h = ground arith
alb_back x b _ e h = ground arith

some_inj {ℓ} : {A : Type ℓ} {a c : A} → some a ≡ some c → a ≡ c
some_inj h = cc

some-not-none {ℓ} : {A : Type ℓ} {a : A} → none ≡ some a → ⊥
some-not-none h = cc

module _ (x : Alb) (laws : AlbLaws x) (b : Bonding) where
  from_same :
      (m : Mode) (c : Registered)
      → b.params.mode ≡ m
      → is_alb m ≡ false
      → some (idle b) ≡ some c
      → IsIdle (bond_close x (open_rest c))
  from_same m c e h k =
      subst (λ r. IsIdle (bond_close x (open_rest r))) (some_inj k) (rest_back x b m e h)

  from_alb :
      (m : Mode) (o : Option Bonding) (c : Registered)
      → b.params.mode ≡ m
      → is_alb m ≡ true
      → x.initialize b ≡ o
      → alb_opened (idle b) o ≡ some c
      → IsIdle (bond_close x (open_rest c))
  from_alb m none c e h i k = absurd (some-not-none k)
  from_alb m (some a) c e h i k =
      subst (λ r. IsIdle (bond_close x (open_rest r))) (some_inj k)
        (alb_back x a m (ap (λ (ps : Params). ps.mode) (laws.keeps_params b a i) ∙ e) h)

  first_back :
      (m : Mode) (c : Registered)
      → b.params.mode ≡ m
      → open_first x m (idle b) ≡ some c
      → IsIdle (bond_close x (open_rest c))
  unfolding open_first open_alb
  first_back round_robin c e k = from_same round_robin c e refl k
  first_back active_backup c e k = from_same active_backup c e refl k
  first_back balance_xor c e k = from_same balance_xor c e refl k
  first_back broadcast c e k = from_same broadcast c e refl k
  first_back lacp c e k = from_same lacp c e refl k
  first_back hoolock_mode c e k = from_same hoolock_mode c e refl k
  first_back tlb c e k = from_alb tlb (x.initialize b) c e refl refl k
  first_back alb c e k = from_alb alb (x.initialize b) c e refl refl k

  close_opened :
      (o : Option Registered)
      → ((c : Registered) → o ≡ some c → IsIdle (bond_close x (open_rest c)))
      → (opened (idle b) o).0 ≡ true
      → IsIdle (bond_close x (opened (idle b) o).1)
  close_opened none f h = ground (arith, h)
  close_opened (some c) f h = f c refl

-- In every mode, where `bond_open` of a bond that has nothing registered succeeds, `bond_close` after
-- it leaves no packet type registered, none marked as registered, and no work queued.
pub bond_close-bond_open :
    (x : Alb) (laws : AlbLaws x) (b : Bonding)
    → (bond_open x (idle b)).0 ≡ true
    → IsIdle (bond_close x (bond_open x (idle b)).1)
unfolding bond_open
bond_close-bond_open x laws b h =
    let c = record b { kill_timers = false } in
    close_opened x laws c (open_first x b.params.mode (idle c))
      (λ r k. first_back x laws c b.params.mode r refl k) h

-- ===== src/Bond/Settings/Unwind.antt =====
-- bond_change_mtu of 27/bond_main.c where a slave refuses.
use hoolock.Common.{
  ℕ, ◌≡◌, refl, ◌∙◌, ap, sym, subst, List, [], ◌∷◌, ◌++◌, Bool, true, false, Option, none, some, In,
  NotIn, Distinct, ◌≢◌, inl, inr, if◌then◌else◌, ◌==◌, arith, ==_refl, append-nil,
}
use hoolock.Bond.State.{Bonding, Slave, NetDevice, Status, ok}
use hoolock.Bond.Slaves.{is_ok, from, before}
use hoolock.Bond.Arp.Backup.{next_slave, head_or}
use hoolock.Bond.Settings.{
  MtuDriver, dev_set_mtu, set_one, set_each, set_back, from_first_to, or_unwind, put_mtu,
  change_mtu,
}

-- The slave with its device set.
abbrev pub applied : (NetDevice → Status × NetDevice) → Bonding → ℕ → Slave
applied set b q = record (b.mem q) { dev = (set (b.mem q).dev).1 }

-- The device of each of these slaves takes the setting.
abbrev pub Takes : (NetDevice → Status × NetDevice) → Bonding → List ℕ → Type 0
Takes set b [] = Unit
Takes set b (p ∷ ps) = (is_ok (set (b.mem p).dev).0 ≡ true) × Takes set b ps

==_differs : (q p : ℕ) → q ≢ p → (q == p) ≡ false
==_differs q p n = ground (arith, n)

flip : {p q : ℕ} → p ≢ q → q ≢ p
flip n e = n (sym e)

In-differs : (q p : ℕ) (ps : List ℕ) → In q ps → NotIn p ps → q ≢ p
In-differs q p [] i n = elim i [ ]
In-differs q p (x ∷ ps) (inl e) n = subst (λ z. z ≢ p) e n.0
In-differs q p (x ∷ ps) (inr i) n = In-differs q p ps i n.1

mem-set_one :
    (set : NetDevice → Status × NetDevice) (p : ℕ) (b : Bonding)
    → (set_one set p b).mem p ≡ applied set b p
mem-set_one set p b = rw (==_refl p) refl

mem-set_one_other :
    (set : NetDevice → Status × NetDevice) (p q : ℕ) (b : Bonding)
    → q ≢ p
    → (set_one set p b).mem q ≡ b.mem q
mem-set_one_other set p q b n = rw (==_differs q p n) refl

module _ (set : NetDevice → Status × NetDevice) where
  all_set : List ℕ → Bonding → Bonding
  all_set [] b = b
  all_set (p ∷ ps) b = all_set ps (set_one set p b)

  Takes-after :
      (p : ℕ) (ps : List ℕ) (b : Bonding)
      → NotIn p ps
      → Takes set b ps
      → Takes set (set_one set p b) ps
  Takes-after p [] b n t = tt
  Takes-after p (q ∷ ps) b n t = (
    ap (λ (s : Slave). is_ok (set s.dev).0) (mem-set_one_other set p q b n.0) ∙ t.0,
    Takes-after p ps b n.1 t.1,
  )

  mem-all_set_other :
      (q : ℕ) (ps : List ℕ) (b : Bonding) → NotIn q ps → (all_set ps b).mem q ≡ b.mem q
  unfolding all_set
  mem-all_set_other q [] b n = refl
  mem-all_set_other q (p ∷ ps) b n =
      mem-all_set_other q ps (set_one set p b) n.1 ∙ mem-set_one_other set p q b (flip n.0)

  mem-all_set :
      (q : ℕ) (ps : List ℕ) (b : Bonding)
      → Distinct ps
      → In q ps
      → (all_set ps b).mem q ≡ applied set b q
  unfolding all_set
  mem-all_set q [] b d i = elim i [ ]
  mem-all_set q (p ∷ ps) b d (inl e) =
      subst (λ z. (all_set ps (set_one set p b)).mem z ≡ applied set b z) e
        (mem-all_set_other p ps (set_one set p b) d.0 ∙ mem-set_one set p b)
  mem-all_set q (p ∷ ps) b d (inr i) =
      mem-all_set q ps (set_one set p b) d.1 i
      ∙ ap (λ (s : Slave). record s { dev = (set s.dev).1 })
          (mem-set_one_other set p q b (In-differs q p ps i d.0))

  slaves-all_set :
      (ps : List ℕ) (b : Bonding)
      → ((all_set ps b).slaves ≡ b.slaves) × ((all_set ps b).dev ≡ b.dev)
  unfolding all_set
  slaves-all_set [] b = (refl, refl)
  slaves-all_set (p ∷ ps) b = slaves-all_set ps (set_one set p b)

  -- The loop runs over the slaves that take the setting.
  set_each-append :
      (ps qs : List ℕ) (b : Bonding)
      → Distinct ps
      → Takes set b ps
      → set_each set (ps ++ qs) b ≡ set_each set qs (all_set ps b)
  unfolding set_each all_set
  set_each-append [] qs b d t = refl
  set_each-append (p ∷ ps) qs b d t =
      ap
        (λ (u : Bool).
          if◌then◌else◌ {A = Option (ℕ × Status) × Bonding} u
            (set_each set (ps ++ qs) (set_one set p b))
            (some (p, (set (b.mem p).dev).0), set_one set p b))
        t.0
      ∙ set_each-append ps qs (set_one set p b) d.1 (Takes-after p ps b d.0 t.1)

  -- The loop ends at the slave that does not.
  set_each-refused :
      (p : ℕ) (b : Bonding)
      → is_ok (set (b.mem p).dev).0 ≡ false
      → set_each set (p ∷ []) b ≡ (some (p, (set (b.mem p).dev).0), set_one set p b)
  unfolding set_each
  set_each-refused p b e =
      ap
        (λ (u : Bool).
          if◌then◌else◌ {A = Option (ℕ × Status) × Bonding} u (none, set_one set p b)
            (some (p, (set (b.mem p).dev).0), set_one set p b))
        e

from-last : (p : ℕ) (xs : List ℕ) → NotIn p xs → from p (xs ++ (p ∷ [])) ≡ p ∷ []
unfolding from
from-last p [] n = rw (==_refl p) refl
from-last p (x ∷ xs) n = rw (==_differs x p n.0) (from-last p xs n.1)

before-head : (p : ℕ) (xs : List ℕ) → before (head_or p xs) xs ≡ []
unfolding before
before-head p [] = refl
before-head p (x ∷ xs) = rw (==_refl x) refl

-- Where the walk is to stop behind the last slave, it stops before the first one.
from_first_to-last : (p : ℕ) (xs : List ℕ) → NotIn p xs → from_first_to p (xs ++ (p ∷ [])) ≡ []
unfolding from_first_to next_slave
from_first_to-last p xs n =
    let ys = xs ++ (p ∷ []) in
    ap
      (λ (zs : List ℕ).
        before (elim zs [ [] ↦ head_or p ys | y ∷ us ↦ elim us [ [] ↦ head_or p ys | z ∷ vs ↦ z ] ])
          ys)
      (from-last p xs n)
    ∙ before-head p ys

-- Where the devices of all slaves take the MTU, `bond_change_mtu` succeeds, the bond has it, and each
-- slave's device is what dev_set_mtu makes of it.
change_mtu-ok :
    (w : MtuDriver) (n : ℕ) (b : Bonding)
    → Distinct b.slaves
    → Takes (dev_set_mtu w n) b b.slaves
    → let (st, c) = change_mtu w n b in
      (st ≡ ok)
      × (c.dev.mtu ≡ n)
      × ((q : ℕ) → In q b.slaves → c.mem q ≡ applied (dev_set_mtu w n) b q)
unfolding change_mtu set_each
change_mtu-ok w n b d t =
    let set = dev_set_mtu w n in
    let c = all_set set b.slaves b in
    subst
      (λ r.
        let (st, z) = or_unwind (dev_set_mtu w b.dev.mtu) (put_mtu n) r in
        (st ≡ ok) × (z.dev.mtu ≡ n) × ((q : ℕ) → In q b.slaves → z.mem q ≡ applied set b q))
      (sym (
        ap (λ xs. set_each set xs b) (sym (append-nil b.slaves))
        ∙ set_each-append set b.slaves [] b d t))
      (refl, refl, λ q i. mem-all_set set q b.slaves b d i)

-- Where the last slave's device refuses the MTU and the others take it, `bond_change_mtu` fails with
-- its error, the bond keeps its MTU, and the other slaves keep the new one: none is set back.
pub change_mtu-last :
    (w : MtuDriver) (n p : ℕ) (xs : List ℕ) (b : Bonding)
    → b.slaves ≡ xs ++ (p ∷ [])
    → Distinct xs
    → NotIn p xs
    → Takes (dev_set_mtu w n) b xs
    → is_ok (dev_set_mtu w n (b.mem p).dev).0 ≡ false
    → let (st, c) = change_mtu w n b in
      (st ≡ (dev_set_mtu w n (b.mem p).dev).0)
      × (c.dev.mtu ≡ b.dev.mtu)
      × ((q : ℕ) → In q xs → c.mem q ≡ applied (dev_set_mtu w n) b q)
unfolding change_mtu set_back
change_mtu-last w n p xs b e d f t r =
    let set = dev_set_mtu w n in
    let back = dev_set_mtu w b.dev.mtu in
    let c = all_set set xs b in
    let st : (set (c.mem p).dev).0 ≡ (set (b.mem p).dev).0 =
      ap (λ (s : Slave). (set s.dev).0) (mem-all_set_other set p xs b f) in
    let z = set_one set p c in
    let h =
      ap (λ ys. set_each set ys b) e
      ∙ set_each-append set xs (p ∷ []) b d t
      ∙ set_each-refused set p c (ap is_ok st ∙ r) in
    let g : from_first_to p z.slaves ≡ [] =
      ap (from_first_to p) ((slaves-all_set set xs b).0 ∙ e) ∙ from_first_to-last p xs f in
    subst
      (λ (u : Option (ℕ × Status) × Bonding).
        let (st, a) = or_unwind back (put_mtu n) u in
        (st ≡ (set (b.mem p).dev).0)
        × (a.dev.mtu ≡ b.dev.mtu)
        × ((q : ℕ) → In q xs → a.mem q ≡ applied set b q))
      (sym h)
      (subst
        (λ ys.
          ((set (c.mem p).dev).0 ≡ (set (b.mem p).dev).0)
          × ((set_back back ys z).dev.mtu ≡ b.dev.mtu)
          × ((q : ℕ) → In q xs → (set_back back ys z).mem q ≡ applied set b q))
        (sym g)
        (
          st,
          ap (λ (a : NetDevice). a.mtu) (slaves-all_set set xs b).1,
          λ q i. mem-set_one_other set p q c (In-differs q p xs i f) ∙ mem-all_set set q xs b d i,
        ))

-- ===== src/Bond/Ring/Detach.antt =====
-- bond_detach_slave in 27/bond_main.c and the list of the slaves.
use hoolock.Common.{
  ℕ, suc, ◌+◌, ◌-◌, ◌≡◌, ◌≢◌, refl, ◌∙◌, ap, ap₂, sym, subst, List, [], ◌∷◌, Bool, true, false,
  Option, none, some, if◌then◌else◌, ◌==◌, ltb, same, arith, In, NotIn, Distinct, length, ==_refl,
  ==_ne, ==_false, ==_sound,
}
use hoolock.Bond.Ring.{
  Ring, write, prev_at, next_at, unchain, bond_detach_slave, Represents, last, without,
}
use hoolock.Bond.Ring.Attach.{write_self, prev-last}
use hoolock.Bond.Ring.Cut.{cut, without-Cut, Linked-close, In-tail}

write_same : (f : ℕ → Option ℕ) (p q : ℕ) (o : Option ℕ) → f q ≡ o → write f p o q ≡ o
write_same f p q o h = kept (q == p)
  where
    kept : (t : Bool) → (if t then o else f q) ≡ o
    kept true = refl
    kept false = h

-- What `bond_detach_slave` comes to, for a slave with neighbours.
abbrev detached : ℕ → ℕ → ℕ → Ring → Ring
detached s l m r = record r {
  first_slave =
      if same r.first_slave (some s)
      then (if ltb 1 r.slave_cnt then some m else none)
      else r.first_slave;
  next = cut r.next s l m;
  prev = cut r.prev s m l;
  slave_cnt = r.slave_cnt - 1;
}

bond_detach_slave-detached :
    (s l m : ℕ) (r : Ring)
    → r.next s ≡ some m
    → r.prev s ≡ some l
    → bond_detach_slave s r ≡ detached s l m r
unfolding bond_detach_slave
bond_detach_slave-detached s l m r e f =
    let r₁ : Ring = record r { prev = write r.prev m (some l) } in
    ap (λ (c : Ring). unchain s (next_at (c.prev s) (c.next s) c)) (ap₂ (λ a b. prev_at a b r) e f)
    ∙ ap₂ (λ a b. unchain s (next_at a b r₁)) (write_same r.prev m s (some l) f) e
    ∙ ap
        (λ (o : Option ℕ). record (detached s l m r) {
          first_slave =
              if same r.first_slave (some s)
              then (if ltb 1 r.slave_cnt then o else none)
              else r.first_slave;
        })
        (write_same r.next l s (some m) e)

length-without : (s : ℕ) (xs : List ℕ) → In s xs → length (without s xs) + 1 ≡ length xs
length-without s [] i = elim i [ ]
length-without s (x ∷ xs) i = ground (arith, In-tail s x xs i, length-without s xs)

pub NotIn-without : (q s : ℕ) (xs : List ℕ) → NotIn q xs → NotIn q (without s xs)
NotIn-without q s [] n = tt
NotIn-without q s (x ∷ xs) n = ground (arith, NotIn-without q s xs n.1)

pub Distinct-without : (s : ℕ) (xs : List ℕ) → Distinct xs → Distinct (without s xs)
Distinct-without s [] d = tt
Distinct-without s (x ∷ xs) d = ground (arith, NotIn-without x s xs d.0, Distinct-without s xs d.1)

-- The slave is unchained, and the ring stands for the rest.
abbrev pub Gone : ℕ → Ring → List ℕ → Type 0
Gone s c rest = Represents c rest × ((c.next s ≡ none) × (c.prev s ≡ none))

unchained :
    (s l m : ℕ) (r : Ring) (rest : List ℕ)
    → r.next s ≡ some m
    → r.prev s ≡ some l
    → Represents (detached s l m r) rest
    → Gone s (bond_detach_slave s r) rest
unchained s l m r rest e f w =
    subst (λ c. Gone s c rest) (sym (bond_detach_slave-detached s l m r e f))
      (
        w,
        (write_self (write r.next l (some m)) s none, write_self (write r.prev m (some l)) s none),
      )

first_at :
    (s : ℕ) (o : Option ℕ) (n : ℕ) (f : Option ℕ)
    → f ≡ some s
    → (if same f (some s) then (if ltb 1 n then o else none) else f) ≡ (if ltb 1 n then o else none)
first_at s o n f e = rw (e, ==_refl s)

first_other :
    (s x : ℕ) (o f : Option ℕ) → f ≡ some x → x ≢ s → (if same f (some s) then o else f) ≡ some x
first_other s x o f e h = rw (e, ==_ne x s h)

many : (n : ℕ) → ltb 1 (suc (suc n)) ≡ true
many n = ground arith

detach_head :
    (s : ℕ) (ys : List ℕ) (r : Ring) → Represents r (s ∷ ys) → Gone s (bond_detach_slave s r) ys
detach_head s [] r w = unchained s s s r [] w.holds.1.0 w.holds.1.1 record {
  distinct = tt;
  count = omega (arith, w.count);
  holds =
      first_at s (some s) r.slave_cnt r.first_slave w.holds.0
      ∙ ap (λ n. if ltb 1 n then some s else none) w.count;
}
detach_head s (y ∷ ws) r w =
    let l = last y ws in
    unchained s l y r (y ∷ ws) w.holds.1.0.0 (prev-last r.next r.prev y s ws w.holds.1.1) record {
      distinct = w.distinct.1;
      count = omega (arith, w.count);
      holds = (
        first_at s (some y) r.slave_cnt r.first_slave w.holds.0
            ∙ ap (λ n. if ltb 1 n then some y else none) w.count
            ∙ ap (λ (t : Bool). if t then some y else none) (many (length ws)),
        Linked-close r.next r.prev s y s y ws w.holds.1.1 w.distinct.1.0 w.distinct.1.1
            w.distinct.1.0 (λ e. w.distinct.0.0 (sym e)) w.distinct.0.1
            (λ e. w.distinct.0.0 (sym e)),
      );
    }

detach_later :
    (s x : ℕ) (ys : List ℕ) (r : Ring)
    → Represents r (x ∷ ys)
    → x ≢ s
    → In s ys
    → Gone s (bond_detach_slave s r) (x ∷ without s ys)
detach_later s x ys r w h i =
    let (l, m, e, f, i₁, i₂, k) =
      without-Cut r.next r.prev s x x ys w.holds.1 i w.distinct.0 w.distinct.1 w.distinct.0 in
    unchained s l m r (x ∷ without s ys) e f record {
      distinct = (NotIn-without x s ys w.distinct.0, Distinct-without s ys w.distinct.1);
      count = omega (arith, w.count, length-without s ys i);
      holds = (
        first_other s x (if ltb 1 r.slave_cnt then some m else none) r.first_slave w.holds.0 h,
        k,
      );
    }

detach_cases :
    (s x : ℕ) (ys : List ℕ) (r : Ring) (t : Bool)
    → (x == s) ≡ t
    → Represents r (x ∷ ys)
    → In s (x ∷ ys)
    → Gone s (bond_detach_slave s r) (if t then ys else x ∷ without s ys)
detach_cases s x ys r true e w i =
    detach_head s ys r (subst (λ q. Represents r (q ∷ ys)) (==_sound x s e) w)
detach_cases s x ys r false e w i =
    detach_later s x ys r w (==_false x s e) (In-tail s x ys i (==_false x s e))

-- On a circle that stands for a list, `bond_detach_slave` of a slave of the list leaves it without
-- links, and the circle then stands for the list without that slave.
pub bond_detach_slave-Gone :
    (s : ℕ) (r : Ring) (xs : List ℕ)
    → Represents r xs
    → In s xs
    → Gone s (bond_detach_slave s r) (without s xs)
bond_detach_slave-Gone s r [] w i = elim i [ ]
bond_detach_slave-Gone s r (x ∷ xs) w i = detach_cases s x xs r (x == s) refl w i

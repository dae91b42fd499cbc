-- ===== src/Bond/Ring/Attach.antt =====
-- bond_attach_slave in 27/bond_main.c and the list of the slaves.
use hoolock.Common.{
  ℕ, ◌+◌, ◌≡◌, ◌≢◌, refl, ◌∙◌, ap, sym, List, [], ◌∷◌, ◌++◌, Option, none, some, arith, NotIn,
  Distinct, length-append, Distinct-snoc,
}
use hoolock.Bond.Ring.{
  Ring, write, and_then, attach_to, bond_attach_slave, Linked, Represents, last,
}

pub write_self : (f : ℕ → Option ℕ) (p : ℕ) (o : Option ℕ) → write f p o p ≡ o
write_self f p o = ground arith

pub write_other : (f : ℕ → Option ℕ) (p q : ℕ) (o : Option ℕ) → q ≢ p → write f p o q ≡ f q
write_other f p q o h = ground arith

pub NotIn-last : (s a : ℕ) (ys : List ℕ) → s ≢ a → NotIn s ys → s ≢ last a ys
NotIn-last s a [] h n = h
NotIn-last s a (y ∷ ys) h n = NotIn-last s y ys (λ e. n.0 (sym e)) n.1

-- Back from the end of the links stands the last slave.
pub prev-last :
    (n p : ℕ → Option ℕ) (a z : ℕ) (ys : List ℕ) → Linked n p a ys z → p z ≡ some (last a ys)
prev-last n p a z [] h = h.1
prev-last n p a z (y ∷ ys) h = prev-last n p y z ys h.1

-- The links with `s` put between the last slave `l` and the end `z`.
abbrev next_to : (ℕ → Option ℕ) → ℕ → ℕ → ℕ → ℕ → Option ℕ
next_to n s z l = write (write n s (some z)) l (some s)

abbrev prev_to : (ℕ → Option ℕ) → ℕ → ℕ → ℕ → ℕ → Option ℕ
prev_to p s z l = write (write p s (some l)) z (some s)

pub write_twice :
    (f : ℕ → Option ℕ) (p q r : ℕ) (o u : Option ℕ)
    → r ≢ p
    → r ≢ q
    → write (write f p o) q u r ≡ f r
write_twice f p q r o u h k = write_other (write f p o) q r u k ∙ write_other f p r o h

pub write_under :
    (f : ℕ → Option ℕ) (p q : ℕ) (o u : Option ℕ) → p ≢ q → write (write f p o) q u p ≡ o
write_under f p q o u h = write_other (write f p o) q p u h ∙ write_self f p o

module _ (n p : ℕ → Option ℕ) (s z : ℕ) (s-z : s ≢ z) where
  Linked-append :
      (a : ℕ) (ys : List ℕ)
      → Linked n p a ys z
      → NotIn a ys
      → Distinct ys
      → NotIn z ys
      → s ≢ a
      → NotIn s ys
      → Linked (next_to n s z (last a ys)) (prev_to p s z (last a ys)) a (ys ++ (s ∷ [])) z
  Linked-append a [] h na d nz sa ns = (
    (write_self (write n s (some z)) a (some s), write_under p s z (some a) (some s) s-z),
    (write_under n s a (some z) (some s) sa, write_self (write p s (some a)) z (some s)),
  )
  Linked-append a (y ∷ ys) h na d nz sa ns = (
    (
      write_twice n s (last y ys) a (some z) (some s) (λ e. sa (sym e))
            (NotIn-last a y ys (λ e. na.0 (sym e)) na.1)
          ∙ h.0.0,
      write_twice p s z y (some (last y ys)) (some s) ns.0 nz.0 ∙ h.0.1,
    ),
    Linked-append y ys h.1 d.0 d.1 nz.1 (λ e. ns.0 (sym e)) ns.1,
  )

-- What the writes of `attach_to` come to.
abbrev attached : ℕ → ℕ → ℕ → Ring → Ring
attached f l s r = record r { next = next_to r.next s f l; prev = prev_to r.prev s f l }

attach_to-attached :
    (f l s : ℕ) (r : Ring)
    → r.prev f ≡ some l
    → s ≢ f
    → attach_to (some f) s r ≡ some (attached f l s r)
unfolding attach_to
attach_to-attached f l s r e h =
    rw (e, write_self r.next s (some f), write_under r.prev s f (some l) (some s) h)

abbrev counted : Ring → Option Ring
counted c = some (record c { slave_cnt = c.slave_cnt + 1 })

module _ (s : ℕ) (r : Ring) where
  attach_first :
      r.first_slave ≡ none
      → r.slave_cnt ≡ 0
      → (c : Ring) × (bond_attach_slave s r ≡ some c) × Represents c (s ∷ [])
  unfolding bond_attach_slave attach_to
  attach_first f k = (
    record r {
      next = write r.next s (some s);
      prev = write r.prev s (some s);
      first_slave = some s;
      slave_cnt = r.slave_cnt + 1;
    },
    ap (λ o. and_then (attach_to o s r) counted) f,
    record {
      distinct = (tt, tt);
      count = omega (arith, k);
      holds = (refl, (write_self r.next s (some s), write_self r.prev s (some s)));
    },
  )

  attach_behind :
      (x : ℕ) (xs : List ℕ)
      → Represents r (x ∷ xs)
      → NotIn s (x ∷ xs)
      → (c : Ring) × (bond_attach_slave s r ≡ some c) × Represents c ((x ∷ xs) ++ (s ∷ []))
  unfolding bond_attach_slave
  attach_behind x xs w n =
      let l = last x xs in
      let c = attached x l s r in
      (
        record c { slave_cnt = r.slave_cnt + 1 },
        ap (λ o. and_then (attach_to o s r) counted) w.holds.0
            ∙ ap (λ o. and_then o counted)
                (attach_to-attached x l s r (prev-last r.next r.prev x x xs w.holds.1)
                  (λ e. n.0 (sym e))),
        record {
          distinct = Distinct-snoc s (x ∷ xs) w.distinct n;
          count = omega (arith, w.count, length-append xs (s ∷ []));
          holds = (
            w.holds.0,
            Linked-append r.next r.prev s x (λ e. n.0 (sym e)) x xs w.holds.1 w.distinct.0
                w.distinct.1 w.distinct.0 (λ e. n.0 (sym e)) n.1,
          );
        },
      )

-- On a circle that stands for a list, `bond_attach_slave` of a slave that is not on it reads through
-- no NULL, and the circle then stands for the list with the slave behind.
pub bond_attach_slave-Represents :
    (s : ℕ) (r : Ring) (xs : List ℕ)
    → Represents r xs
    → NotIn s xs
    → (c : Ring) × (bond_attach_slave s r ≡ some c) × Represents c (xs ++ (s ∷ []))
bond_attach_slave-Represents s r [] w n = attach_first s r w.holds w.count
bond_attach_slave-Represents s r (x ∷ xs) w n = attach_behind s r x xs w n

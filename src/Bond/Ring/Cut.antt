-- ===== src/Bond/Ring/Cut.antt =====
-- The links of a circle that bond_detach_slave cuts a slave out of.
use hoolock.Common.{
  ℕ, ◌≡◌, ◌≢◌, refl, ◌∙◌, sym, subst, List, [], ◌∷◌, ◌++◌, Bool, true, false, Option, none, some,
  if◌then◌else◌, ◌==◌, In, NotIn, Distinct, inl, inr, ==_false, ==_sound,
}
use hoolock.Bond.Ring.{write, Linked, last, without}
use hoolock.Bond.Ring.Attach.{NotIn-last, write_twice, write_under}

In-NotIn : (p q : ℕ) (ps : List ℕ) → In q ps → NotIn p ps → p ≢ q
In-NotIn p q [] i n e = i
In-NotIn p q (x ∷ xs) (inl e) n f = n.0 (e ∙ sym f)
In-NotIn p q (x ∷ xs) (inr i) n f = In-NotIn p q xs i n.1 f

pub In-tail : (s y : ℕ) (ys : List ℕ) → In s (y ∷ ys) → y ≢ s → In s ys
In-tail s y ys (inl e) h = absurd (h e)
In-tail s y ys (inr i) h = i

-- The links with the writes of `bond_detach_slave` for `s` between `l` and `m`.
abbrev pub cut : (ℕ → Option ℕ) → ℕ → ℕ → ℕ → ℕ → Option ℕ
cut f s l m = write (write f l (some m)) s none

cut_at : (f : ℕ → Option ℕ) (s l m : ℕ) → l ≢ s → cut f s l m l ≡ some m
cut_at f s l m h = write_under f l s (some m) none h

cut_other : (f : ℕ → Option ℕ) (s l m q : ℕ) → q ≢ l → q ≢ s → cut f s l m q ≡ f q
cut_other f s l m q h k = write_twice f l s q (some m) none h k

module _ (n p : ℕ → Option ℕ) (s : ℕ) where
  -- Links that the writes do not touch.
  Linked-cut :
      (l m a z : ℕ) (ys : List ℕ)
      → Linked n p a ys z
      → l ≢ a
      → NotIn l ys
      → s ≢ a
      → NotIn s ys
      → NotIn m ys
      → m ≢ z
      → s ≢ z
      → Linked (cut n s l m) (cut p s m l) a ys z
  Linked-cut l m a z [] h la ly sa sy my mz sz = (
    cut_other n s l m a (λ e. la (sym e)) (λ e. sa (sym e)) ∙ h.0,
    cut_other p s m l z (λ e. mz (sym e)) (λ e. sz (sym e)) ∙ h.1,
  )
  Linked-cut l m a z (y ∷ ys) h la ly sa sy my mz sz = (
    (
      cut_other n s l m a (λ e. la (sym e)) (λ e. sa (sym e)) ∙ h.0.0,
      cut_other p s m l y my.0 sy.0 ∙ h.0.1,
    ),
    Linked-cut l m y z ys h.1 (λ e. ly.0 (sym e)) ly.1 (λ e. sy.0 (sym e)) sy.1 my.1 mz sz,
  )

  -- The links of the circle closed again behind `s`, at `t`.
  pub Linked-close :
      (a z t : ℕ) (ys : List ℕ)
      → Linked n p a ys z
      → NotIn a ys
      → Distinct ys
      → NotIn t ys
      → s ≢ a
      → NotIn s ys
      → s ≢ t
      → Linked (cut n s (last a ys) t) (cut p s t (last a ys)) a ys t
  Linked-close a z t [] h na d nt sa sy st =
      (cut_at n s a t (λ e. sa (sym e)), cut_at p s t a (λ e. st (sym e)))
  Linked-close a z t (y ∷ ys) h na d nt sa sy st = (
    (
      cut_other n s (last y ys) t a (NotIn-last a y ys (λ e. na.0 (sym e)) na.1) (λ e. sa (sym e))
          ∙ h.0.0,
      cut_other p s t (last y ys) y nt.0 sy.0 ∙ h.0.1,
    ),
    Linked-close y z t ys h.1 d.0 d.1 nt.1 (λ e. sy.0 (sym e)) sy.1 st,
  )

  -- The neighbours of `s` among these slaves, and the links without it, over the slaves `rest`.
  abbrev Cut : ℕ → List ℕ → ℕ → List ℕ → Type 0
  Cut a ys z rest =
      (l : ℕ) × (m : ℕ) × (n s ≡ some m)
      × (p s ≡ some l)
      × In l (a ∷ ys)
      × In m (ys ++ (z ∷ []))
      × Linked (cut n s l m) (cut p s m l) a rest z

  head-Cut :
      (a z : ℕ) (ys : List ℕ)
      → Linked n p a (s ∷ ys) z
      → NotIn a (s ∷ ys)
      → NotIn s ys
      → Distinct ys
      → NotIn z (s ∷ ys)
      → Cut a (s ∷ ys) z ys
  head-Cut a z [] h na sy d nz = (
    a,
    z,
    h.1.0,
    h.0.1,
    inl refl,
    inr (inl refl),
    (cut_at n s a z (λ e. na.0 (sym e)), cut_at p s z a (λ e. nz.0 (sym e))),
  )
  head-Cut a z (w ∷ ws) h na sy d nz = (
    a,
    w,
    h.1.0.0,
    h.0.1,
    inl refl,
    inr (inl refl),
    (
      (cut_at n s a w (λ e. na.0 (sym e)), cut_at p s w a sy.0),
      Linked-cut a w w z ws h.1.1 (λ e. na.1.0 (sym e)) na.1.1 (λ e. sy.0 (sym e)) sy.1 d.0 nz.1.0
          nz.0,
    ),
  )

  later-Cut :
      (a y z : ℕ) (ys rest : List ℕ)
      → Linked n p a (y ∷ ys) z
      → NotIn a (y ∷ ys)
      → s ≢ a
      → y ≢ s
      → NotIn y (ys ++ (z ∷ []))
      → Cut y ys z rest
      → Cut a (y ∷ ys) z (y ∷ rest)
  later-Cut a y z ys rest h na sa ys-s ny (l, m, e, f, i, j, k) = (
    l,
    m,
    e,
    f,
    inr i,
    inr j,
    (
      (
        cut_other n s l m a (In-NotIn a l (y ∷ ys) i na) (λ e. sa (sym e)) ∙ h.0.0,
        cut_other p s m l y (In-NotIn y m (ys ++ (z ∷ [])) j ny) ys-s ∙ h.0.1,
      ),
      k,
    ),
  )

  NotIn-end : (y z : ℕ) (ys : List ℕ) → NotIn y ys → z ≢ y → NotIn y (ys ++ (z ∷ []))
  NotIn-end y z [] k h = (h, tt)
  NotIn-end y z (x ∷ xs) k h = (k.0, NotIn-end y z xs k.1 h)

  cons-Cut :
      (a y z : ℕ) (ys : List ℕ) (t : Bool)
      → (y == s) ≡ t
      → Linked n p a (y ∷ ys) z
      → NotIn a (y ∷ ys)
      → Distinct (y ∷ ys)
      → NotIn z (y ∷ ys)
      → s ≢ a
      → (t ≡ false → Cut y ys z (without s ys))
      → Cut a (y ∷ ys) z (if t then ys else y ∷ without s ys)
  cons-Cut a y z ys true e h na d nz sa ih =
      subst
        (λ (q : ℕ).
          Linked n p a (q ∷ ys) z
          → NotIn a (q ∷ ys)
          → NotIn q ys
          → NotIn z (q ∷ ys)
          → Cut a (q ∷ ys) z ys)
        (sym (==_sound y s e)) (λ h na k nz. head-Cut a z ys h na k d.1 nz) h na d.0 nz
  cons-Cut a y z ys false e h na d nz sa ih =
      later-Cut a y z ys (without s ys) h na sa (==_false y s e)
        (NotIn-end y z ys d.0 (λ e. nz.0 (sym e))) (ih refl)

  pub without-Cut :
      (a z : ℕ) (ys : List ℕ)
      → Linked n p a ys z
      → In s ys
      → NotIn a ys
      → Distinct ys
      → NotIn z ys
      → Cut a ys z (without s ys)
  without-Cut a z [] h i na d nz = elim i [ ]
  without-Cut a z (y ∷ ys) h i na d nz =
      cons-Cut a y z ys (y == s) refl h na d nz (λ e. In-NotIn a s (y ∷ ys) i na (sym e))
        (λ e. without-Cut y z ys h.1 (In-tail s y ys i (==_false y s e)) d.0 d.1 nz.1)

-- ===== src/HardClient/Exclusive.antt =====
-- The pipes at the rounds of src/hard_client.cc, with the plumber of src/plumb.c.
use hoolock.Common.{
  ℕ, ◌≡◌, ◌≢◌, ◌⊎◌, inl, inr, refl, sym, ap, ap₂, ◌∙◌, [], ◌∷◌, Bool, true, false, ◌&&◌,
  if◌then◌else◌, arith, ==_refl, ==_ne,
}
use hoolock.Plumber.{Plumber, Serving, listening, serve, command, char_0, char_1}
use hoolock.Plumber.Ports.{
  connected, IsNumbered, IsSide, wanted, command-connected, command-IsNumbered,
}
use hoolock.Client.Calls.{Visit, connection, make_command, break_command}
use hoolock.Client.Tells.{IsSmooth, serve-smooth_visit, order-make, order-break}
use hoolock.HardClient.{Host, other_ch}

-- The plumber listens, and not both sides are connected.
abbrev pub IsExclusive : Host → Type 0
IsExclusive h =
    (p : Plumber) × (h.plumber ≡ listening p)
    × IsNumbered p
    × ((connected char_0 p && connected char_1 p) ≡ false)

-- The sides `c` and `d` of the plumber are as `t` and `u` say.
abbrev pub Sides : ℕ → ℕ → Bool → Bool → Serving → Type 0
Sides c d t u s =
    (p : Plumber) × (s ≡ listening p) × IsNumbered p × (connected c p ≡ t) × (connected d p ≡ u)

-- `act_ch` and `pas_ch` are `a` and `z`.
pub record At (c d a z : ℕ) (t u : Bool) (h : Host) : Type 0 where
  pub act_ch : h.act_ch ≡ a
  pub pas_ch : h.pas_ch ≡ z
  pub sides : Sides c d t u h.plumber

and_comm : (t u : Bool) → (t && u) ≡ (u && t)
and_comm true true = refl
and_comm true false = refl
and_comm false true = refl
and_comm false false = refl

abbrev pub Opposite : ℕ → ℕ → Type 0
Opposite c d = ((c ≡ char_0) × (d ≡ char_1)) ⊎ ((c ≡ char_1) × (d ≡ char_0))

exclusive :
    (c d : ℕ) (t u : Bool) (p : Plumber)
    → Opposite c d
    → connected c p ≡ t
    → connected d p ≡ u
    → (t && u) ≡ false
    → (connected char_0 p && connected char_1 p) ≡ false
exclusive c d t u p (inl (i, j)) h k n =
    ap₂ ◌&&◌ (ap (λ x. connected x p) (sym i) ∙ h) (ap (λ x. connected x p) (sym j) ∙ k) ∙ n
exclusive c d t u p (inr (i, j)) h k n =
    ap₂ ◌&&◌ (ap (λ x. connected x p) (sym j) ∙ k) (ap (λ x. connected x p) (sym i) ∙ h)
    ∙ and_comm u t
    ∙ n

pub At-Exclusive :
    (c d a z : ℕ) (t u : Bool) (h : Host)
    → Opposite c d
    → (t && u) ≡ false
    → At c d a z t u h
    → IsExclusive h
At-Exclusive c d a z t u h o n g =
    let (p, l, k, i, j) = g.sides in (p, l, k, exclusive c d t u p o i j n)

pub sides_of :
    (c d : ℕ) → Opposite c d → IsSide c × IsSide d × (c ≢ d) × (other_ch c ≡ d) × (other_ch d ≡ c)
sides_of c d (inl (i, j)) =
    (inl i, inr j, omega (arith, i, j), omega (arith, i, j), omega (arith, i, j))
sides_of c d (inr (i, j)) =
    (inr i, inl j, omega (arith, i, j), omega (arith, i, j), omega (arith, i, j))

-- The plumber behind a "break" of one side and a "make" of the other.
pub break-Sides :
    (c d : ℕ) (v : Visit) (s : Serving)
    → IsSmooth v
    → Opposite c d
    → Sides c d true false s
    → Sides c d false false (serve (connection v (break_command c) ∷ []) s)
break-Sides c d v s m o (p, l, n, i, j) =
    let (ic, id, ne, _, _) = sides_of c d o in
    (
      command v.forked (break_command c) p,
      ap (λ s. serve (connection v (break_command c) ∷ []) s) l
          ∙ serve-smooth_visit v (break_command c) p m (omega arith),
      command-IsNumbered p n v.forked (break_command c) m.forked,
      command-connected p n v.forked (break_command c) c m.forked ic
          ∙ ap (λ o. wanted c o (connected c p)) (order-break c)
          ∙ ap (λ b. if b then false else connected c p) (==_refl c),
      command-connected p n v.forked (break_command c) d m.forked id
          ∙ ap (λ o. wanted d o (connected d p)) (order-break c)
          ∙ ap (λ b. if b then false else connected d p) (==_ne c d ne)
          ∙ j,
    )

pub make-Sides :
    (c d : ℕ) (v : Visit) (s : Serving)
    → IsSmooth v
    → Opposite c d
    → Sides c d false false s
    → Sides c d false true (serve (connection v (make_command d) ∷ []) s)
make-Sides c d v s m o (p, l, n, i, j) =
    let (ic, id, ne, _, _) = sides_of c d o in
    (
      command v.forked (make_command d) p,
      ap (λ s. serve (connection v (make_command d) ∷ []) s) l
          ∙ serve-smooth_visit v (make_command d) p m (omega arith),
      command-IsNumbered p n v.forked (make_command d) m.forked,
      command-connected p n v.forked (make_command d) c m.forked ic
          ∙ ap (λ o. wanted c o (connected c p)) (order-make d)
          ∙ ap (λ b. if b then true else connected c p) (==_ne d c (λ e. ne (sym e)))
          ∙ i,
      command-connected p n v.forked (make_command d) d m.forked id
          ∙ ap (λ o. wanted d o (connected d p)) (order-make d)
          ∙ ap (λ b. if b then true else connected d p) (==_refl d),
    )

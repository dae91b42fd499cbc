-- ===== src/Plumber/Ports.antt =====
-- The sides that the server of src/plumb.c connects.
use mathlib.Core.Option.{some-injective}
use hoolock.Common.{
  byte, ℕ, zero, suc, ◌≡◌, ◌≢◌, ◌⊎◌, inl, inr, refl, ap, subst, ◌∙◌, List, [], ◌∷◌, Bool, true,
  false, some, ℤ, pos, negsuc, arith, ◌==◌, if◌then◌else◌, take,
}
use hoolock.Plumber.{
  Plumber, start, do_make, do_break, command, Connection, serve_one, serve, Serving, listening,
  is_negative, is_positive, starts_with, make_word, break_word, char_0, char_1,
}

-- The side with the number `c` has a process.
abbrev pub connected : ℕ → Plumber → Bool
connected c p =
    if c == char_0
    then is_positive p.eth0_pid
    else if c == char_1
    then is_positive p.eth1_pid
    else false

abbrev pub IsSide : ℕ → Type 0
IsSide c = (c ≡ char_0) ⊎ (c ≡ char_1)

-- What a command asks for.
pub data Order : Type 0 where
  makes breaks : ℕ → Order
  nothing : Order

unfoldable pub order : List ℕ → Order
order buffer =
    if starts_with make_word buffer
    then makes (byte buffer 5)
    else if starts_with break_word buffer
    then breaks (byte buffer 6)
    else nothing

-- Whether a side is to be connected after an order.
abbrev pub wanted : ℕ → Order → Bool → Bool
wanted c (makes d) old = if d == c then true else old
wanted c (breaks d) old = if d == c then false else old
wanted c nothing old = old

-- No variable is 0.
abbrev pub IsNumbered : Plumber → Type 0
IsNumbered p = (p.eth0_pid ≢ pos 0) × (p.eth1_pid ≢ pos 0)

positive_or_negative : (a : ℤ) → a ≢ pos 0 → is_negative a ≡ false → is_positive a ≡ true
positive_or_negative (pos zero) n h = absurd (n refl)
positive_or_negative (pos (suc k)) n h = refl
positive_or_negative (negsuc k) n h = absurd (ground arith)

not_zero : (a : ℤ) → is_positive a ≡ true → a ≢ pos 0
not_zero (pos zero) h e = ground arith
not_zero (pos (suc k)) h e = ground arith
not_zero (negsuc k) h e = ground arith

negsuc_not_zero : (n : ℕ) → negsuc n ≢ pos 0
negsuc_not_zero n e = ground arith

module _ (p : Plumber) (n : IsNumbered p) where
  do_make-connected :
      (f : ℤ) (buffer : List ℕ) (c : ℕ)
      → is_positive f ≡ true
      → IsSide c
      → connected c (do_make f buffer p) ≡ wanted c (makes (byte buffer 5)) (connected c p)
  unfolding do_make
  do_make-connected f buffer c h (inl e) = ground (arith, positive_or_negative p.eth0_pid n.0)
  do_make-connected f buffer c h (inr e) = ground (arith, positive_or_negative p.eth1_pid n.1)

  do_break-connected :
      (buffer : List ℕ) (c : ℕ)
      → IsSide c
      → connected c (do_break buffer p) ≡ wanted c (breaks (byte buffer 6)) (connected c p)
  unfolding do_break
  do_break-connected buffer c (inl e) = ground arith
  do_break-connected buffer c (inr e) = ground arith

  -- A command does what it asks for, and leaves the variables with process numbers.
  pub command-connected :
      (f : ℤ) (buffer : List ℕ) (c : ℕ)
      → is_positive f ≡ true
      → IsSide c
      → connected c (command f buffer p) ≡ wanted c (order buffer) (connected c p)
  unfolding command order
  command-connected f buffer c h s =
      by_word (starts_with make_word buffer) (starts_with break_word buffer)
    where
      by_word :
          (m b : Bool)
          → connected c (if m then do_make f buffer p else if b then do_break buffer p else p)
            ≡ wanted c
                (if m then makes (byte buffer 5) else if b then breaks (byte buffer 6) else nothing)
                (connected c p)
      by_word true b = do_make-connected f buffer c h s
      by_word false true = do_break-connected buffer c s
      by_word false false = refl

  pub command-IsNumbered :
      (f : ℤ) (buffer : List ℕ) → is_positive f ≡ true → IsNumbered (command f buffer p)
  unfolding command do_make do_break
  command-IsNumbered f buffer h = (
    λ e. ground (arith, not_zero f h, n.0, negsuc_not_zero 0),
    λ e. ground (arith, not_zero f h, n.1, negsuc_not_zero 0),
  )

-- A connection on which nothing fails: the bytes of its command, and the process of its `fork`.
abbrev pub smooth : List ℕ × ℕ → Connection
smooth (bytes, n) = record {
  accepted = true;
  command_in = some bytes;
  forked = pos (suc n);
  written = true;
}

-- What the commands ask for together, and what one of them is.
abbrev pub wanted_after : ℕ → List (List ℕ × ℕ) → Bool → Bool
wanted_after c [] old = old
wanted_after c (k ∷ ks) old = wanted_after c ks (wanted c (order (take 255 k.0)) old)

abbrev pub smooths : List (List ℕ × ℕ) → List Connection
smooths [] = []
smooths (k ∷ ks) = smooth k ∷ smooths ks

-- The server goes on, with the side `c` as it is wanted.
abbrev pub Serves : ℕ → Bool → Serving → Type 0
Serves c b s = (q : Plumber) × (s ≡ listening q) × (connected c q ≡ b)

serve-smooth :
    (c : ℕ) (ks : List (List ℕ × ℕ)) (p : Plumber)
    → IsSide c
    → IsNumbered p
    → Serves c (wanted_after c ks (connected c p)) (serve (smooths ks) (listening p))
unfolding serve serve_one
serve-smooth c [] p s n = (p, refl, refl)
serve-smooth c (k ∷ ks) p s n =
    let q = command (pos (suc k.1)) (take 255 k.0) p in
    let r = serve-smooth c ks q s (command-IsNumbered p n (pos (suc k.1)) (take 255 k.0) refl) in
    (
      r.0,
      r.1,
      r.2 ∙ ap (wanted_after c ks) (command-connected p n (pos (suc k.1)) (take 255 k.0) c refl s),
    )

start-Serves :
    (argv : List (List ℕ)) (p : Plumber) (c : ℕ)
    → start argv ≡ some p
    → IsNumbered p × (connected c p ≡ false)
unfolding start
start-Serves (prog ∷ a ∷ h ∷ more) p c e =
    subst (λ q. IsNumbered q × (connected c q ≡ false)) (some-injective _ _ e)
      ((negsuc_not_zero 0, negsuc_not_zero 0), ground arith)
start-Serves [] p c e = absurd (ground arith)
start-Serves (prog ∷ []) p c e = absurd (ground arith)
start-Serves (prog ∷ a ∷ []) p c e = absurd (ground arith)

-- After any number of connections on which nothing fails the plumber still listens, and a side is
-- connected exactly if the last "make" or "break" command with its number was a "make".
pub serve-wanted :
    (argv : List (List ℕ)) (p : Plumber) (c : ℕ) (ks : List (List ℕ × ℕ))
    → start argv ≡ some p
    → IsSide c
    → Serves c (wanted_after c ks false) (serve (smooths ks) (listening p))
serve-wanted argv p c ks e s =
    let (n, d) = start-Serves argv p c e in
    subst (λ b. Serves c (wanted_after c ks b) (serve (smooths ks) (listening p))) d
      (serve-smooth c ks p s n)

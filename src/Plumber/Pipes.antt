-- ===== src/Plumber/Pipes.antt =====
-- The processes of the server of src/plumb.c.
use mathlib.Core.Option.{some-injective}
use hoolock.Common.{
  byte, ℕ, zero, suc, ◌≡◌, ◌≢◌, ◌⊎◌, inl, inr, refl, sym, ap, subst, ◌∙◌, List, [], ◌∷◌, ◌++◌, map,
  Bool, true, false, Option, none, some, ℤ, pos, negsuc, NotIn, arith, ◌==◌, if◌then◌else◌, ==_refl,
  ==_ne, take,
}
use hoolock.Plumber.{
  Pipe, Plumber, start, started, without, killed, do_make, do_break, command, Connection, executed,
  serve_one, serve, Serving, listening, failed, pipe0, pipe1, is_negative, starts_with, make_word,
  break_word, char_0, char_1,
}

-- The child that a variable names.
abbrev pub own : ℤ → Pipe → List (ℕ × Pipe)
own (pos n) k = (n, k) ∷ []
own (negsuc n) k = []

-- A process number is positive, and no two variables hold the same.
abbrev Apart : ℤ → ℤ → Type 0
Apart (pos n) (pos m) = n ≢ m
Apart _ _ = Unit

abbrev Counted : ℤ → Type 0
Counted (pos n) = n ≢ 0
Counted (negsuc n) = Unit

-- The children that are left are those of the two variables, each with its pipe.
pub record IsTidy (p : Plumber) : Type 0 where
  pub children :
      (p.children ≡ own p.eth0_pid (pipe0 p) ++ own p.eth1_pid (pipe1 p))
      ⊎ (p.children ≡ own p.eth1_pid (pipe1 p) ++ own p.eth0_pid (pipe0 p))
  pub apart : Apart p.eth0_pid p.eth1_pid
  pub counted : Counted p.eth0_pid × Counted p.eth1_pid

-- What `fork` answers: -1, or the number of a process that is none of the children.
abbrev pub Forks : ℤ → List (ℕ × Pipe) → Type 0
Forks (pos n) cs = (n ≢ 0) × NotIn n (map (λ (c : ℕ × Pipe). c.0) cs)
Forks (negsuc n) cs = n ≡ 0

started-own : (f : ℤ) (k : Pipe) (cs : List (ℕ × Pipe)) → started f k cs ≡ own f k ++ cs
started-own (pos n) k cs = refl
started-own (negsuc n) k cs = refl

-- What is known of a fork beside the other variable.
Forks-Counted : (f : ℤ) (cs : List (ℕ × Pipe)) → Forks f cs → Counted f
Forks-Counted (pos n) cs h = h.0
Forks-Counted (negsuc n) cs h = tt

Forks-Apart : (f e : ℤ) (k : Pipe) → Forks f (own e k) → Apart f e × Apart e f
Forks-Apart (pos n) (pos m) k h = (λ e. h.1.0 (sym e), h.1.0)
Forks-Apart (pos n) (negsuc m) k h = (tt, tt)
Forks-Apart (negsuc n) (pos m) k h = (tt, tt)
Forks-Apart (negsuc n) (negsuc m) k h = (tt, tt)

-- One variable is -1: the children are those of the other.
alone :
    (a e : ℤ) (k l : Pipe) (cs : List (ℕ × Pipe))
    → is_negative a ≡ true
    → (cs ≡ own a k ++ own e l) ⊎ (cs ≡ own e l ++ own a k)
    → cs ≡ own e l
alone (negsuc n) e k l cs h (inl i) = i
alone (negsuc n) (pos m) k l cs h (inr i) = i
alone (negsuc n) (negsuc m) k l cs h (inr i) = i
alone (pos n) e k l cs h i = absurd (ground arith)

-- `kill` leaves the children of the other variable.
killed-own :
    (a e : ℤ) (k l : Pipe) (cs : List (ℕ × Pipe))
    → Apart a e
    → Counted a
    → (cs ≡ own a k ++ own e l) ⊎ (cs ≡ own e l ++ own a k)
    → killed a cs ≡ own e l
killed-own (pos zero) e k l cs d z i = absurd (z refl)
killed-own (pos (suc n)) (pos m) k l cs d z (inl i) =
    ap (without (suc n)) i ∙ ground (arith, ==_refl n, ==_ne m (suc n))
killed-own (pos (suc n)) (pos m) k l cs d z (inr i) =
    ap (without (suc n)) i ∙ ground (arith, ==_refl n, ==_ne m (suc n))
killed-own (pos (suc n)) (negsuc m) k l cs d z (inl i) =
    ap (without (suc n)) i ∙ ground (arith, ==_refl n)
killed-own (pos (suc n)) (negsuc m) k l cs d z (inr i) =
    ap (without (suc n)) i ∙ ground (arith, ==_refl n)
killed-own (negsuc n) e k l cs d z i = alone (negsuc n) e k l cs refl i

sym-Apart : (a e : ℤ) → Apart a e → Apart e a
sym-Apart (pos n) (pos m) h = λ e. h (sym e)
sym-Apart (pos n) (negsuc m) h = tt
sym-Apart (negsuc n) (pos m) h = tt
sym-Apart (negsuc n) (negsuc m) h = tt

Apart-free : (a : ℤ) → Apart a (negsuc 0)
Apart-free (pos n) = tt
Apart-free (negsuc n) = tt

swap : {A B : Type 0} → A ⊎ B → B ⊎ A
swap (inl a) = inr a
swap (inr b) = inl b

either-IsTidy : (b : Bool) {c d : Plumber} → IsTidy c → IsTidy d → IsTidy (if b then c else d)
either-IsTidy true h k = h
either-IsTidy false h k = k

guarded-IsTidy :
    (b : Bool) {c p : Plumber} → (b ≡ true → IsTidy c) → IsTidy p → IsTidy (if b then c else p)
guarded-IsTidy true h t = h refl
guarded-IsTidy false h t = t

module _ (p : Plumber) (t : IsTidy p) where
  make0-IsTidy :
      (f : ℤ)
      → Forks f p.children
      → is_negative p.eth0_pid ≡ true
      → IsTidy (record p { eth0_pid = f; children = started f (pipe0 p) p.children })
  make0-IsTidy f h n =
      let e = alone p.eth0_pid p.eth1_pid (pipe0 p) (pipe1 p) p.children n t.children in
      record {
        children = inl (started-own f (pipe0 p) p.children ∙ ap (λ cs. own f (pipe0 p) ++ cs) e);
        apart = (Forks-Apart f p.eth1_pid (pipe1 p) (subst (Forks f) e h)).0;
        counted = (Forks-Counted f p.children h, t.counted.1);
      }

  make1-IsTidy :
      (f : ℤ)
      → Forks f p.children
      → is_negative p.eth1_pid ≡ true
      → IsTidy (record p { eth1_pid = f; children = started f (pipe1 p) p.children })
  make1-IsTidy f h n =
      let e = alone p.eth1_pid p.eth0_pid (pipe1 p) (pipe0 p) p.children n (swap t.children) in
      record {
        children = inr (started-own f (pipe1 p) p.children ∙ ap (λ cs. own f (pipe1 p) ++ cs) e);
        apart = (Forks-Apart f p.eth0_pid (pipe0 p) (subst (Forks f) e h)).1;
        counted = (t.counted.0, Forks-Counted f p.children h);
      }

  do_make-IsTidy : (f : ℤ) (buffer : List ℕ) → Forks f p.children → IsTidy (do_make f buffer p)
  unfolding do_make
  do_make-IsTidy f buffer h =
      either-IsTidy (byte buffer 5 == char_0)
        (guarded-IsTidy (is_negative p.eth0_pid) (make0-IsTidy f h) t)
        (either-IsTidy (byte buffer 5 == char_1)
          (guarded-IsTidy (is_negative p.eth1_pid) (make1-IsTidy f h) t) t)

  break0-IsTidy : IsTidy (record p { eth0_pid = negsuc 0; children = killed p.eth0_pid p.children })
  break0-IsTidy = record {
    children = inl (
        killed-own p.eth0_pid p.eth1_pid (pipe0 p) (pipe1 p) p.children t.apart t.counted.0
          t.children);
    apart = tt;
    counted = (tt, t.counted.1);
  }

  break1-IsTidy : IsTidy (record p { eth1_pid = negsuc 0; children = killed p.eth1_pid p.children })
  break1-IsTidy = record {
    children = inr (
        killed-own p.eth1_pid p.eth0_pid (pipe1 p) (pipe0 p) p.children
          (sym-Apart p.eth0_pid p.eth1_pid t.apart) t.counted.1 (swap t.children));
    apart = Apart-free p.eth0_pid;
    counted = (t.counted.0, tt);
  }

  do_break-IsTidy : (buffer : List ℕ) → IsTidy (do_break buffer p)
  unfolding do_break
  do_break-IsTidy buffer =
      either-IsTidy (byte buffer 6 == char_0) break0-IsTidy
        (either-IsTidy (byte buffer 6 == char_1) break1-IsTidy t)

  command-IsTidy : (f : ℤ) (buffer : List ℕ) → Forks f p.children → IsTidy (command f buffer p)
  unfolding command
  command-IsTidy f buffer h =
      either-IsTidy (starts_with make_word buffer) (do_make-IsTidy f buffer h)
        (either-IsTidy (starts_with break_word buffer) (do_break-IsTidy buffer) t)

-- The server's variables, in its loop or where it left it.
abbrev pub of_serving : Serving → Plumber
of_serving (listening p) = p
of_serving (failed p) = p

either_serving :
    (b : Bool) (c d : Serving)
    → IsTidy (of_serving c)
    → IsTidy (of_serving d)
    → IsTidy (of_serving (if b then c else d))
either_serving true c d h k = h
either_serving false c d h k = k

executed-IsTidy :
    (c : Connection) (o : Option (List ℕ)) (p : Plumber)
    → Forks c.forked p.children
    → IsTidy p
    → IsTidy (of_serving (executed c o p))
executed-IsTidy c none p h t = t
executed-IsTidy c (some bytes) p h t =
    let k = command-IsTidy p t c.forked (take 255 bytes) h in either_serving c.written _ _ k k

-- Every `fork` answers -1 or a process that is not there yet.
abbrev pub AllFork : List Connection → Serving → Type 0
AllFork [] s = Unit
AllFork (c ∷ cs) s = Forks c.forked (of_serving s).children × AllFork cs (serve (c ∷ []) s)

serve-IsTidy :
    (cs : List Connection) (s : Serving)
    → AllFork cs s
    → IsTidy (of_serving s)
    → IsTidy (of_serving (serve cs s))
unfolding serve serve_one
serve-IsTidy [] s a t = t
serve-IsTidy (c ∷ cs) (failed p) a t = t
serve-IsTidy (c ∷ cs) (listening p) a t =
    serve-IsTidy cs (serve_one c p) a.1
      (either_serving c.accepted _ _ (executed-IsTidy c c.command_in p a.0 t) t)

start-IsTidy : (argv : List (List ℕ)) (p : Plumber) → start argv ≡ some p → IsTidy p
unfolding start
start-IsTidy (prog ∷ c ∷ h ∷ more) p e =
    subst IsTidy (some-injective _ _ e)
      (record { children = inl refl; apart = tt; counted = (tt, tt) })
start-IsTidy [] p e = absurd (ground arith)
start-IsTidy (prog ∷ []) p e = absurd (ground arith)
start-IsTidy (prog ∷ c ∷ []) p e = absurd (ground arith)

-- Whatever commands the plumber is sent and wherever its loop ends, the processes that it has
-- started and not killed are exactly those of `eth0_pid` and `eth1_pid`, with the pipe of that
-- side; where each `fork` fails or answers with a process number that is not in use.
pub serve-start :
    (argv : List (List ℕ)) (p : Plumber) (cs : List Connection)
    → start argv ≡ some p
    → AllFork cs (listening p)
    → IsTidy (of_serving (serve cs (listening p)))
serve-start argv p cs e a = serve-IsTidy cs (listening p) a (start-IsTidy argv p e)

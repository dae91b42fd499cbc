-- ===== src/Client/Tells.antt =====
-- What src/hoolock_client.cc hears from the controller and tells the plumber of src/plumb.c.
use hoolock.Common.{
  ℕ, zero, suc, ◌≤◌, ◌≡◌, ◌≢◌, refl, sym, ap, ◌∙◌, subst, List, [], ◌∷◌, Bool, true, false, ◌&&◌,
  All, byte, ℤ, pos, arith, if◌then◌else◌, length, take, ◌==◌, ==_refl, ==_ne,
}
use hoolock.Plumber.{
  Plumber, Serving, listening, serve, serve_one, command, is_positive, starts_with,
}
use hoolock.Plumber.Ports.{
  connected, IsNumbered, IsSide, order, wanted, makes, breaks, command-connected,
  command-IsNumbered,
}
use hoolock.Client.Message.{HoolockCmd, code, msg_size, as_msg}
use hoolock.Client.Socket.{Reading, received, read_blocks, read_outside, read_all}
use hoolock.Client.Calls.{
  World, goes, stops, exits, minus_one, Exchange, hear_nox, after_reading, zeros, Visit,
  tell_plumber, connection, make_command, break_command,
}
use hoolock.Client.Linked.{Joins, IsLinked}
use hoolock.Client.Sequence.{Ends}
use hoolock.Client.Stages.{Stage}
use hoolock.Client.Moves.{heard}

-- The bytes that are left behind an answer, and the answer that is waited for.
abbrev pub left_of : Reading → List ℕ → List ℕ
left_of (received bs more) n = more
left_of read_blocks n = n
left_of read_outside n = n

abbrev pub IsAnswer : HoolockCmd → Reading → Type 0
IsAnswer k (received bs more) = (as_msg bs).cmd ≡ code k
IsAnswer k read_blocks = ⊥
IsAnswer k read_outside = ⊥

-- A visit on which nothing fails, where the plumber's socket answers.
pub record IsSmooth (v : Visit) : Type 0 where
  pub accepted : v.accepted ≡ true
  pub read_ok : v.read_ok ≡ true
  pub delivered : 7 ≤ v.delivered
  pub forked : is_positive v.forked ≡ true
  pub written : v.written ≡ true

take_most : (k : ℕ) (xs : List ℕ) → length xs ≤ k → take k xs ≡ xs
unfolding take
take_most zero [] h = refl
take_most (suc k) [] h = refl
take_most zero (x ∷ xs) h = absurd (omega (arith, h))
take_most (suc k) (x ∷ xs) h = ap (λ ys. x ∷ ys) (take_most k xs (omega arith))

-- The plumber executes the command.
pub serve-smooth_visit :
    (v : Visit) (cmd : List ℕ) (p : Plumber)
    → IsSmooth v
    → length cmd ≤ 7
    → serve (connection v cmd ∷ []) (listening p) ≡ listening (command v.forked cmd p)
unfolding serve serve_one
serve-smooth_visit v cmd p s h =
    rw
      (
        s.accepted,
        s.read_ok,
        s.written,
        take_most v.delivered cmd (omega (arith, h, s.delivered)),
        take_most 255 cmd (omega (arith, h)),
      )
      refl

pub order-make : (c : ℕ) → order (make_command c) ≡ makes c
unfolding order starts_with
order-make c = refl

pub order-break : (c : ℕ) → order (break_command c) ≡ breaks c
unfolding order starts_with
order-break c = refl

-- Sides that a "make" leaves connected.
made :
    (d : ℕ) (cs : List ℕ) (f : ℤ) (p : Plumber)
    → is_positive f ≡ true
    → IsNumbered p
    → All IsSide cs
    → All (λ c. connected c p ≡ true) cs
    → All (λ c. connected c (command f (make_command d) p) ≡ true) cs
made d [] f p h n s j = tt
made d (c ∷ cs) f p h n s j = (
  command-connected p n f (make_command d) c h s.0
      ∙ ap (λ o. wanted c o (connected c p)) (order-make d)
      ∙ stays (d == c),
  made d cs f p h n s.1 j.1,
)
  where
    stays : (b : Bool) → (if b then true else connected c p) ≡ true
    stays true = refl
    stays false = j.0

pub make-Joins :
    (d : ℕ) (cs : List ℕ) (v : Visit) (s : Serving)
    → IsSmooth v
    → IsSide d
    → All IsSide cs
    → Joins cs s
    → Joins (d ∷ cs) (serve (connection v (make_command d) ∷ []) s)
make-Joins d cs v s m i k (p, l, n, j) = (
  command v.forked (make_command d) p,
  ap (λ s. serve (connection v (make_command d) ∷ []) s) l
      ∙ serve-smooth_visit v (make_command d) p m (omega arith),
  command-IsNumbered p n v.forked (make_command d) m.forked,
  (
    command-connected p n v.forked (make_command d) d m.forked i
        ∙ ap (λ o. wanted d o (connected d p)) (order-make d)
        ∙ ap (λ b. if b then true else connected d p) (==_refl d),
    made d cs v.forked p m.forked n k j,
  ),
)

break-Joins :
    (c d : ℕ) (cs : List ℕ) (v : Visit) (s : Serving)
    → IsSmooth v
    → IsSide d
    → c ≢ d
    → Joins (d ∷ cs) s
    → Joins (d ∷ []) (serve (connection v (break_command c) ∷ []) s)
break-Joins c d cs v s m i h (p, l, n, j) = (
  command v.forked (break_command c) p,
  ap (λ s. serve (connection v (break_command c) ∷ []) s) l
      ∙ serve-smooth_visit v (break_command c) p m (omega arith),
  command-IsNumbered p n v.forked (break_command c) m.forked,
  (
    command-connected p n v.forked (break_command c) d m.forked i
        ∙ ap (λ o. wanted d o (connected d p)) (order-break c)
        ∙ ap (λ b. if b then false else connected d p) (==_ne c d h)
        ∙ j.0,
    tt,
  ),
)

-- The answers of `socket` and `connect`.
abbrev pub Connects : Visit → Type 0
Connects v = (v.socket_ok && v.connects) ≡ true

module _ (a z c d p : ℕ) (t u : Bool) where
  told :
      (n : List ℕ) (cs ds : List ℕ) (w : World) (s : Serving)
      → Stage a z c d p n t u cs w
      → Joins ds s
      → Stage a z c d p n t u ds (record w { plumber = s })
  told n cs ds w s g j = record {
    two = g.two;
    active = g.active;
    incoming = g.incoming;
    act = g.act;
    pas = g.pas;
    joins = j;
  }

  visit :
      (n cs ds : List ℕ) (b : Bool) (s : Serving) (w : World)
      → IsLinked w
      → Stage a z c d p n t u cs w
      → Joins ds s
      → Ends IsLinked
          (b ≡ true)
          (Stage a z c d p n t u ds)
          (if b then goes (record w { plumber = s }) else stops (exits (pos 1)) w)
  visit n cs ds true s w l g j = told n cs ds w s g j
  visit n cs ds false s w l g j = (l, λ h. ground arith)

  pub hear_nox-Stage :
      (n cs : List ℕ) (e : Exchange) (k : HoolockCmd) (w : World)
      → ((m : List ℕ) (v : World) → Stage a z c d p m t u cs v → IsLinked v)
      → Stage a z c d p n t u cs w
      → let r = read_all msg_size zeros 0 n e.reads in
        Ends IsLinked (IsAnswer k r) (Stage a z c d p (left_of r n) t u cs) (hear_nox e k w)
  unfolding hear_nox
  hear_nox-Stage n cs e k w l g =
      subst
        (λ m.
          Ends IsLinked (IsAnswer k (read_all msg_size zeros 0 n e.reads))
            (Stage a z c d p (left_of (read_all msg_size zeros 0 n e.reads) n) t u cs)
            (after_reading k (read_all msg_size zeros 0 m e.reads) w))
        (sym g.incoming) (by_reading (read_all msg_size zeros 0 n e.reads))
    where
      by_cmd :
          (b : Bool) (bs more : List ℕ)
          → ((as_msg bs).cmd == code k) ≡ b
          → Ends IsLinked ((as_msg bs).cmd ≡ code k) (Stage a z c d p more t u cs) (
              if b
              then goes (record w { nox_in = more })
              else stops (exits minus_one) (record w { nox_in = more }))
      by_cmd true bs more i = heard a z c d p n t u cs more w g
      by_cmd false bs more i = (
        l more _ (heard a z c d p n t u cs more w g),
        λ h. ground (arith, i, ==_refl (code k), h),
      )

      by_reading :
          (r : Reading)
          → Ends IsLinked
              (IsAnswer k r)
              (Stage a z c d p (left_of r n) t u cs)
              (after_reading k r w)
      by_reading (received bs more) = by_cmd _ bs more refl
      by_reading read_blocks = (l n w g, λ h. h)
      by_reading read_outside = (l n w g, λ h. h)

module _ (a z c d p : ℕ) (i : IsSide d) where
  pub tell-make :
      (n : List ℕ) (t : Bool) (cs : List ℕ) (v : Visit) (w : World)
      → IsSmooth v
      → All IsSide cs
      → IsLinked w
      → Stage a z c d p n t true cs w
      → Ends IsLinked
          (Connects v)
          (Stage a z c d p n t true (d ∷ cs))
          (tell_plumber v (make_command (byte w.pas_slave 3)) w)
  unfolding tell_plumber
  tell-make n t cs v w m k l g =
      subst
        (λ e.
          Ends IsLinked (Connects v) (Stage a z c d p n t true (d ∷ cs))
            (tell_plumber v (make_command e) w))
        (sym (g.pas refl))
        (visit a z c d p t true n cs (d ∷ cs) _ _ w l g (make-Joins d cs v w.plumber m i k g.joins))

  pub tell-break :
      (n : List ℕ) (u : Bool) (cs : List ℕ) (v : Visit) (w : World)
      → IsSmooth v
      → c ≢ d
      → IsLinked w
      → Stage a z c d p n true u (d ∷ cs) w
      → Ends IsLinked
          (Connects v)
          (Stage a z c d p n true u (d ∷ []))
          (tell_plumber v (break_command (byte w.act_slave 3)) w)
  unfolding tell_plumber
  tell-break n u cs v w m h l g =
      subst
        (λ e.
          Ends IsLinked (Connects v) (Stage a z c d p n true u (d ∷ []))
            (tell_plumber v (break_command e) w))
        (sym (g.act refl))
        (visit a z c d p true u n (d ∷ cs) (d ∷ []) _ _ w l g
          (break-Joins c d cs v w.plumber m i h g.joins))

-- ===== src/HardClient/Rounds.antt =====
-- The rounds of src/hard_client.cc, statement by statement.
use hoolock.Common.{
  ℕ, ◌≡◌, ◌≢◌, inl, inr, refl, sym, ap, ◌∙◌, subst, List, [], ◌∷◌, Bool, true, false, if◌then◌else◌,
  All, ℤ, pos, negsuc, arith, ◌==◌, ==_sound,
}
use hoolock.Plumber.{Serving}
use hoolock.Client.Calls.{goes, stops, exits, in_child, Visit, make_command, break_command}
use hoolock.Client.{need, run, visits}
use hoolock.Client.Sequence.{
  Each, Ends, Safe, Safe-end, Safe-step, Safe-append, map-Safe, Ends-goes,
}
use hoolock.Client.Tells.{IsSmooth, Connects}
use hoolock.HardClient.{
  Host, HardRound, other_ch, spawn_iperf, end_iperf, tell_hard, hard_round, hard_rounds,
}
use hoolock.HardClient.Exclusive.{
  IsExclusive, Sides, At, Opposite, At-Exclusive, sides_of, break-Sides, make-Sides,
}

-- The plumber does what it is told.
pub record IsObeyed (r : HardRound) : Type 0 where
  pub break_visit : IsSmooth r.break_visit
  pub make_visit : IsSmooth r.make_visit

-- What lets a round go through.
abbrev pub Goes : HardRound → Type 0
Goes r = Each (
    Unit
    ∷ (r.output_socket ≡ true)
    ∷ (r.output_connects ≡ true)
    ∷ (r.forked ≢ pos 0)
    ∷ (r.key ≢ 113)
    ∷ Connects r.break_visit
    ∷ Connects r.make_visit
    ∷ Unit
    ∷ Unit
    ∷ [])

module _ (c d : ℕ) (o : Opposite c d) where
  abbrev On : ℕ → ℕ → Host → Type 0
  On a z = At c d a z true false

  on : (a z : ℕ) (h : Host) → On a z h → IsExclusive h
  on a z h g = At-Exclusive c d a z true false h o refl g

  off : (a z : ℕ) (h : Host) → At c d a z false false h → IsExclusive h
  off a z h g = At-Exclusive c d a z false false h o refl g

  over : (a z : ℕ) (h : Host) → At c d a z false true h → IsExclusive h
  over a z h g = At-Exclusive c d a z false true h o refl g

  needed :
      (status : ℤ) (b : Bool) (h : Host)
      → On c d h
      → Ends IsExclusive (b ≡ true) (On c d) (need status b h)
  needed status true h g = g
  needed status false h g = (on c d h g, λ e. ground arith)

  with_pid :
      (t u : Bool) (a z : ℕ) (f : ℤ) (ks : List ℤ) (h : Host)
      → At c d a z t u h
      → At c d a z t u (record h { iperf_pid = f; kills = ks })
  with_pid t u a z f ks h g = record { act_ch = g.act_ch; pas_ch = g.pas_ch; sides = g.sides }

  child_or_not :
      (k : ℕ) (b : Bool) (h : Host)
      → (k == 0) ≡ b
      → On c d h
      → Ends IsExclusive (pos k ≢ pos 0) (On c d) (
          if b
          then stops in_child (record h { iperf_pid = pos 0 })
          else goes (record h { iperf_pid = pos k }))
  child_or_not k true h e g =
      (on c d _ (with_pid true false c d (pos 0) h.kills h g), λ n. n (ap pos (==_sound k 0 e)))
  child_or_not k false h e g = with_pid true false c d (pos k) h.kills h g

  spawned : (f : ℤ) (h : Host) → On c d h → Ends IsExclusive (f ≢ pos 0) (On c d) (spawn_iperf f h)
  spawned (pos k) h g = child_or_not k (k == 0) h refl g
  spawned (negsuc k) h g = with_pid true false c d (negsuc k) h.kills h g

  quit_or_not :
      (key : ℕ) (b : Bool) (h : Host)
      → (key == 113) ≡ b
      → On c d h
      → Ends IsExclusive
          (key ≢ 113)
          (On c d)
          (if b then stops (exits (pos 0)) (end_iperf h) else goes h)
  quit_or_not key true h e g = (
    on c d _ (with_pid true false c d h.iperf_pid (h.iperf_pid ∷ h.kills) h g),
    λ n. n (==_sound key 113 e),
  )
  quit_or_not key false h e g = g

  visited_by :
      (t u t' u' b : Bool) (s : Serving) (h : Host)
      → IsExclusive h
      → At c d c d t u h
      → Sides c d t' u' s
      → Ends IsExclusive
          (b ≡ true)
          (At c d c d t' u')
          (if b then goes (record h { plumber = s }) else stops (exits (pos 1)) h)
  visited_by t u t' u' true s h x g k = record { act_ch = g.act_ch; pas_ch = g.pas_ch; sides = k }
  visited_by t u t' u' false s h x g k = (x, λ e. ground arith)

  broken :
      (v : Visit) (h : Host)
      → IsSmooth v
      → On c d h
      → Ends IsExclusive
          (Connects v)
          (At c d c d false false)
          (tell_hard v (break_command h.act_ch) h)
  broken v h m g =
      subst
        (λ a.
          Ends IsExclusive (Connects v) (At c d c d false false) (tell_hard v (break_command a) h))
        (sym g.act_ch)
        (visited_by true false false false _ _ h (on c d h g) g
          (break-Sides c d v h.plumber m o g.sides))

  made :
      (v : Visit) (h : Host)
      → IsSmooth v
      → At c d c d false false h
      → Ends IsExclusive
          (Connects v)
          (At c d c d false true)
          (tell_hard v (make_command h.pas_ch) h)
  made v h m g =
      subst
        (λ a.
          Ends IsExclusive (Connects v) (At c d c d false true) (tell_hard v (make_command a) h))
        (sym g.pas_ch)
        (visited_by false false false true _ _ h (off c d h g) g
          (make-Sides c d v h.plumber m o g.sides))

  -- A round, from one side to the other.
  pub one_round :
      (r : HardRound) (z : ℕ) (h : Host)
      → IsObeyed r
      → On c z h
      → Safe IsExclusive (Goes r) (At c d d d false true) (hard_round r) h
  one_round r z h k g =
      let (_, _, _, f, _) = sides_of c d o in
      Safe-step IsExclusive (On c d) _ _ _ h (on c d)
        (record { act_ch = g.act_ch; pas_ch = ap other_ch g.act_ch ∙ f; sides = g.sides })
        (λ h g.
          Safe-step IsExclusive (On c d) _ _ _ h (on c d) (needed (pos 1) r.output_socket h g)
            (λ h g.
              Safe-step IsExclusive (On c d) _ _ _ h (on c d) (needed (pos 1) r.output_connects h g)
                (λ h g.
                  Safe-step IsExclusive (On c d) _ _ _ h (on c d) (spawned r.forked h g) (λ h g.
                    Safe-step IsExclusive (On c d) _ _ _ h (on c d) (quit_or_not r.key _ h refl g)
                      (λ h g.
                        Safe-step IsExclusive (At c d c d false false) _ _ _ h (off c d)
                          (broken r.break_visit h k.break_visit g)
                          (λ h g.
                            Safe-step IsExclusive (At c d c d false true) _ _ _ h (over c d)
                              (made r.make_visit h k.make_visit g)
                              (λ h g.
                                Safe-step IsExclusive (At c d d d false true) _ _ _ h (over d d)
                                  (record {
                                    act_ch = ap other_ch g.act_ch ∙ f;
                                    pas_ch = g.pas_ch;
                                    sides = g.sides;
                                  })
                                  (λ h g.
                                    Safe-step IsExclusive (At c d d d false true) _ _ _ h (over d d)
                                      (with_pid false true d d h.iperf_pid (h.iperf_pid ∷ h.kills) h
                                        g)
                                      (λ h g.
                                        Safe-end IsExclusive (At c d d d false true) h g)))))))))

-- The side of `act_ch` is connected, and the other one is not.
pub record IsSingle (c d : ℕ) (h : Host) : Type 0 where
  pub opposite : Opposite c d
  pub act_ch : h.act_ch ≡ c
  pub sides : Sides c d true false h.plumber

turned : (c d : ℕ) (h : Host) → Opposite c d → At c d d d false true h → IsSingle d c h
turned c d h o g =
    let (p, l, n, i, j) = g.sides in
    record { opposite = flipped o; act_ch = g.act_ch; sides = (p, l, n, j, i) }
  where
    flipped : Opposite c d → Opposite d c
    flipped (inl (i, j)) = inr (j, i)
    flipped (inr (i, j)) = inl (j, i)

round-Single :
    (c d : ℕ) (r : HardRound) (h : Host)
    → IsObeyed r
    → IsSingle c d h
    → Safe IsExclusive (Goes r) (IsSingle d c) (hard_round r) h
round-Single c d r h k g =
    map-Safe IsExclusive (At c d d d false true) (IsSingle d c) (hard_round r) h
      (λ v a. turned c d v g.opposite a)
      (one_round c d g.opposite r h.pas_ch h k
        (record { act_ch = g.act_ch; pas_ch = refl; sides = g.sides }))

-- Which sides the rounds end with.
abbrev After : List HardRound → ℕ → ℕ → Host → Type 0
After [] c d = IsSingle c d
After (r ∷ rs) c d = After rs d c

abbrev AllGo : List HardRound → Type 0
AllGo [] = Unit
AllGo (r ∷ rs) = Goes r × AllGo rs

rounds-Single :
    (rs : List HardRound) (c d : ℕ) (h : Host)
    → All IsObeyed rs
    → IsSingle c d h
    → Safe IsExclusive (AllGo rs) (After rs c d) (hard_rounds rs) h
unfolding hard_rounds
rounds-Single [] c d h k g = Safe-end IsExclusive (IsSingle c d) h g
rounds-Single (r ∷ rs) c d h k g =
    Safe-append IsExclusive (IsSingle d c) (After rs d c) (hard_round r) (hard_rounds rs) h
      (round-Single c d r h k.0 g) (λ v i. rounds-Single rs d c v k.1 i)

-- The handover is hard: in no state that any number of rounds goes through, also where `main` stops,
-- are both sides connected; where at first exactly the side of `act_ch` is, and the plumber
-- executes the commands that it is sent.
pub hard_rounds-Exclusive :
    (rs : List HardRound) (c d : ℕ) (h : Host)
    → All IsObeyed rs
    → IsSingle c d h
    → All IsExclusive (visits (hard_rounds rs) h)
hard_rounds-Exclusive rs c d h k g = (rounds-Single rs c d h k g).holds

-- Where exactly the side of `act_ch` is connected, the plumber executes the commands that it is
-- sent, no call fails and the key is not 'q', a round goes through, and behind it exactly the other
-- side is connected, the side of the new `act_ch`.
pub hard_round-goes :
    (c d : ℕ) (r : HardRound) (h : Host)
    → IsObeyed r
    → Goes r
    → IsSingle c d h
    → (v : Host) × (run (hard_round r) h ≡ goes v) × IsSingle d c v
hard_round-goes c d r h k f g =
    Ends-goes IsExclusive (Goes r) (IsSingle d c) (run (hard_round r) h)
      (round-Single c d r h k g).ends f

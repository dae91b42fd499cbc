-- ===== src/Client/Handover.antt =====
-- A whole round of src/hoolock_client.cc, with the driver of 27/bond_main.c and the plumber of
-- src/plumb.c.
use hoolock.Common.{ℕ, ◌≡◌, ◌≢◌, inl, inr, refl, List, [], ◌∷◌, ◌++◌, Bool, true, false, pos}
use hoolock.Bond.Active.{Extern}
use hoolock.Bond.Invariant.{ExternLaws}
use hoolock.Plumber.Ports.{IsSide}
use hoolock.Client.Message.{make_req, make_ack, break_req, break_ack, msg_size, request}
use hoolock.Client.Socket.{read_all, write_all}
use hoolock.Client.Calls.{World, goes, zeros}
use hoolock.Client.{Round, run, prepare, make_part, before_break, from_break, up_to_break, round}
use hoolock.Client.Linked.{IsLinked, IsQuiet}
use hoolock.Client.Sequence.{Each, Safe, Safe-end, Safe-step, Safe-append, weaken-Safe, run-Safe}
use hoolock.Client.Stages.{
  Stage, Stage-linked_a, Stage-linked_z, need-Stage, spawn-Stage, quits-Stage, kill_iperf-Stage,
  meanwhile-Stage, tell_nox-Stage, IsSent,
}
use hoolock.Client.Moves.{ask-active, ask-passive, ask-make, ask-break, IsReceiving}
use hoolock.Client.Tells.{
  IsSmooth, Connects, left_of, IsAnswer, hear_nox-Stage, tell-make, tell-break,
}

-- What is asked of the others in a round: between the client's calls the driver leaves the slaves
-- and the active one, and the plumber does what it is told.
pub record IsCalm (r : Round) : Type 0 where
  pub others : (k : ℕ) → IsQuiet (r.others k)
  pub make_visit : IsSmooth r.make_visit
  pub break_visit : IsSmooth r.break_visit

-- The bytes that are left behind the first answer of the controller, and the second.
abbrev pub left_once : Round → List ℕ → List ℕ
left_once r n = left_of (read_all msg_size zeros 0 n r.make_exchange.reads) n

abbrev pub left_twice : Round → List ℕ → List ℕ
left_twice r n =
    left_of (read_all msg_size zeros 0 (left_once r n) r.break_exchange.reads) (left_once r n)

-- What lets a round from `w` go through, `n` being the bytes of the controller.
pub record IsFriendly (x : Extern) (mac : List ℕ) (r : Round) (n : List ℕ) (w : World)
    : Type 0 where
  pub output_socket : r.output_socket ≡ true
  pub output_connects : r.output_connects ≡ true
  pub forked : r.forked ≢ pos 0
  pub key : r.key ≢ 113
  pub make_sent :
      IsSent (write_all (request r.make_exchange.junk mac make_req) 0 r.make_exchange.writes)
  pub make_heard : IsAnswer make_ack (read_all msg_size zeros 0 n r.make_exchange.reads)
  pub make_connects : Connects r.make_visit
  pub break_sent :
      IsSent (write_all (request r.break_exchange.junk mac break_req) 0 r.break_exchange.writes)
  pub break_heard :
      IsAnswer break_ack (read_all msg_size zeros 0 (left_once r n) r.break_exchange.reads)
  pub receiving : (v : World) → run (up_to_break x mac r) w ≡ goes v → IsReceiving x r.net v.bond
  pub break_connects : Connects r.break_visit

module _ (x : Extern) (laws : ExternLaws x) (mac : List ℕ) where
  module _ (a z c d : ℕ) (i : IsSide c) (j : IsSide d) (h : c ≢ d) (apart : a ≢ z) (r : Round)
      (calm : IsCalm r) where
    -- The stages of a round: before the plumber is told, with both sides connected, after the
    -- make, and with the old side broken.
    abbrev Old : List ℕ → Bool → Bool → World → Type 0
    Old n t u = Stage a z c d a n t u (c ∷ [])

    abbrev Both : List ℕ → World → Type 0
    Both n = Stage a z c d a n true true (d ∷ c ∷ [])

    abbrev Moved : List ℕ → World → Type 0
    Moved n = Stage a z c d z n true true (d ∷ c ∷ [])

    abbrev New : List ℕ → World → Type 0
    New n = Stage a z c d z n true true (d ∷ [])

    old-Linked : (n : List ℕ) (t u : Bool) (w : World) → Old n t u w → IsLinked w
    old-Linked n t u w s = Stage-linked_a a z c d n t u (c ∷ []) w (inl refl) s

    both-Linked : (n : List ℕ) (w : World) → Both n w → IsLinked w
    both-Linked n w s = Stage-linked_a a z c d n true true (d ∷ c ∷ []) w (inr (inl refl)) s

    moved-Linked : (n : List ℕ) (w : World) → Moved n w → IsLinked w
    moved-Linked n w s = Stage-linked_z a z c d n true true (d ∷ c ∷ []) w (inl refl) s

    new-Linked : (n : List ℕ) (w : World) → New n w → IsLinked w
    new-Linked n w s = Stage-linked_z a z c d n true true (d ∷ []) w (inl refl) s

    -- What the statements of the three parts need to go on.
    abbrev Prepared : Type 0
    Prepared = Each (
        (r.output_socket ≡ true)
        ∷ (r.output_connects ≡ true)
        ∷ (r.forked ≢ pos 0)
        ∷ Unit
        ∷ Unit
        ∷ Unit
        ∷ Unit
        ∷ (r.key ≢ 113)
        ∷ [])

    abbrev MakeGoes : List ℕ → Type 0
    MakeGoes n = Each (
        IsSent (write_all (request r.make_exchange.junk mac make_req) 0 r.make_exchange.writes)
        ∷ IsAnswer make_ack (read_all msg_size zeros 0 n r.make_exchange.reads)
        ∷ Connects r.make_visit
        ∷ Unit
        ∷ Unit
        ∷ [])

    abbrev Awaited : List ℕ → Type 0
    Awaited n = Each (
        Unit
        ∷ IsSent (write_all (request r.break_exchange.junk mac break_req) 0 r.break_exchange.writes)
        ∷ IsAnswer break_ack (read_all msg_size zeros 0 n r.break_exchange.reads)
        ∷ Unit
        ∷ [])

    -- The bond at the ioctl of the break, of the round from `w`.
    abbrev Received : World → Type 0
    Received w = (v : World) → run (up_to_break x mac r) w ≡ goes v → IsReceiving x r.net v.bond

    abbrev BreakGoes : World → Type 0
    BreakGoes w = Each (Received w ∷ Connects r.break_visit ∷ Unit ∷ [])

    begun :
        (n : List ℕ) (t u : Bool) (w : World)
        → Old n t u w
        → Safe IsLinked Prepared (Old n true true) (prepare x r) w
    begun n t u w s =
        Safe-step IsLinked (Old n t u) _ _ _ w (old-Linked n t u)
          (need-Stage a z c d a n t u (c ∷ []) (old-Linked n t u) (pos 1) r.output_socket w s)
          (λ w s.
            Safe-step IsLinked (Old n t u) _ _ _ w (old-Linked n t u)
              (need-Stage a z c d a n t u (c ∷ []) (old-Linked n t u) (pos 1) r.output_connects w s)
              (λ w s.
                Safe-step IsLinked (Old n t u) _ _ _ w (old-Linked n t u)
                  (spawn-Stage a z c d a n t u (c ∷ []) (old-Linked n t u) r.forked w s)
                  (λ w s.
                    Safe-step IsLinked (Old n t u) _ _ _ w (old-Linked n t u)
                      (meanwhile-Stage a z c d a n t u (c ∷ []) (old-Linked n t u) (r.others 0) w
                        (calm.others 0) s)
                      (λ w s.
                        Safe-step IsLinked (Old n true u) _ _ _ w (old-Linked n true u)
                          (ask-active x laws a z c d apart n t u (c ∷ []) r.net r.now w s)
                          (λ w s.
                            Safe-step IsLinked (Old n true u) _ _ _ w (old-Linked n true u)
                              (meanwhile-Stage a z c d a n true u (c ∷ []) (old-Linked n true u)
                                (r.others 1) w (calm.others 1) s)
                              (λ w s.
                                Safe-step IsLinked (Old n true true) _ _ _ w
                                  (old-Linked n true true)
                                  (ask-passive x laws a z c d apart n true u (c ∷ []) r.net r.now w
                                    s)
                                  (λ w s.
                                    Safe-step IsLinked (Old n true true) _ _ _ w
                                      (old-Linked n true true)
                                      (quits-Stage a z c d a n true true (c ∷ [])
                                        (old-Linked n true true) r.key w s)
                                      (λ w s. Safe-end IsLinked (Old n true true) w s))))))))

    making :
        (n : List ℕ) (w : World)
        → Old n true true w
        → Safe IsLinked (MakeGoes n) (Moved (left_once r n)) (make_part x mac r) w
    making n w s =
        let m = left_once r n in
        Safe-step IsLinked (Old n true true) _ _ _ w (old-Linked n true true)
          (tell_nox-Stage a z c d a n true true (c ∷ []) (old-Linked n true true) r.make_exchange
            mac make_req w s)
          (λ w s.
            Safe-step IsLinked (Old m true true) _ _ _ w (old-Linked m true true)
              (hear_nox-Stage a z c d a true true n (c ∷ []) r.make_exchange make_ack w
                (λ m. old-Linked m true true) s)
              (λ w s.
                Safe-step IsLinked (Both m) _ _ _ w (both-Linked m)
                  (tell-make a z c d a j m true (c ∷ []) r.make_visit w calm.make_visit (i, tt)
                    (old-Linked m true true w s) s)
                  (λ w s.
                    Safe-step IsLinked (Both m) _ _ _ w (both-Linked m)
                      (meanwhile-Stage a z c d a m true true (d ∷ c ∷ []) (both-Linked m)
                        (r.others 2) w (calm.others 2) s)
                      (λ w s.
                        Safe-step IsLinked (Moved m) _ _ _ w (moved-Linked m)
                          (ask-make x laws a z c d apart m true true (d ∷ c ∷ []) r.net r.now w s)
                          (λ w s. Safe-end IsLinked (Moved m) w s)))))

    waiting :
        (n : List ℕ) (w : World)
        → Moved n w
        → Safe IsLinked
            (Awaited n)
            (Moved (left_of (read_all msg_size zeros 0 n r.break_exchange.reads) n))
            (before_break mac r)
            w
    waiting n w s =
        let m = left_of (read_all msg_size zeros 0 n r.break_exchange.reads) n in
        Safe-step IsLinked (Moved n) _ _ _ w (moved-Linked n)
          (meanwhile-Stage a z c d z n true true (d ∷ c ∷ []) (moved-Linked n) (r.others 3) w
            (calm.others 3) s)
          (λ w s.
            Safe-step IsLinked (Moved n) _ _ _ w (moved-Linked n)
              (tell_nox-Stage a z c d z n true true (d ∷ c ∷ []) (moved-Linked n) r.break_exchange
                mac break_req w s)
              (λ w s.
                Safe-step IsLinked (Moved m) _ _ _ w (moved-Linked m)
                  (hear_nox-Stage a z c d z true true n (d ∷ c ∷ []) r.break_exchange break_ack w
                    moved-Linked s)
                  (λ w s.
                    Safe-step IsLinked (Moved m) _ _ _ w (moved-Linked m)
                      (meanwhile-Stage a z c d z m true true (d ∷ c ∷ []) (moved-Linked m)
                        (r.others 4) w (calm.others 4) s)
                      (λ w s. Safe-end IsLinked (Moved m) w s))))

    breaking :
        (m : List ℕ) (v w : World)
        → Moved m w × (run (up_to_break x mac r) v ≡ goes w)
        → Safe IsLinked (BreakGoes v) (New m) (from_break x r) w
    breaking m v w (s, e) =
        Safe-step IsLinked (Moved m) _ _ _ w (moved-Linked m)
          (ask-break a z c d z x m true true (d ∷ c ∷ []) r.net r.now w (Received v) (λ h. h w e)
            (moved-Linked m) s)
          (λ w s.
            Safe-step IsLinked (New m) _ _ _ w (new-Linked m)
              (tell-break a z c d z j m true (c ∷ []) r.break_visit w calm.break_visit h
                (moved-Linked m w s) s)
              (λ w s.
                Safe-step IsLinked (New m) _ _ _ w (new-Linked m)
                  (kill_iperf-Stage a z c d z m true true (d ∷ []) (new-Linked m) w s)
                  (λ w s. Safe-end IsLinked (New m) w s)))

    friendly :
        (n : List ℕ) (w : World)
        → IsFriendly x mac r n w
        → (Prepared × (MakeGoes n × Awaited (left_once r n))) × BreakGoes w
    friendly n w f = (
      (
        (f.output_socket, (f.output_connects, (f.forked, (tt, (tt, (tt, (tt, (f.key, tt)))))))),
        (
          (f.make_sent, (f.make_heard, (f.make_connects, (tt, (tt, tt))))),
          (tt, (f.break_sent, (f.break_heard, (tt, tt)))),
        ),
      ),
      (f.receiving, (f.break_connects, (tt, tt))),
    )

    until_break :
        (n : List ℕ) (w : World)
        → Old n false false w
        → Safe IsLinked
            (Prepared × (MakeGoes n × Awaited (left_once r n)))
            (Moved (left_twice r n))
            (up_to_break x mac r)
            w
    until_break n w s =
        let m = left_once r n in
        Safe-append IsLinked (Old n true true) (Moved (left_twice r n)) (prepare x r) _ w
          (begun n false false w s)
          (λ w s.
            Safe-append IsLinked (Moved m) (Moved (left_twice r n)) (make_part x mac r)
              (before_break mac r) w (making n w s) (λ w s. waiting m w s))

    -- A whole round, from one slave to the other.
    pub whole :
        (n : List ℕ) (w : World)
        → Old n false false w
        → Safe IsLinked (IsFriendly x mac r n w) (New (left_twice r n)) (round x mac r) w
    unfolding round
    whole n w s =
        let m = left_twice r n in
        weaken-Safe IsLinked (New m) (up_to_break x mac r ++ from_break x r) w (friendly n w) (
          Safe-append IsLinked (λ v. Moved m v × (run (up_to_break x mac r) w ≡ goes v)) (New m)
            (up_to_break x mac r) (from_break x r) w
            (run-Safe IsLinked (Moved m) (up_to_break x mac r) w (until_break n w s))
            (λ v s. breaking m w v s))

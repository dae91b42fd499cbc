-- ===== src/Client/Rounds.antt =====
-- src/hoolock_client.cc from its start on, round after round.
use hoolock.Common.{
  ℕ, ◌≡◌, ◌≢◌, arith, refl, sym, ap, ◌∙◌, List, [], ◌∷◌, true, false, some, All, subst,
}
use hoolock.Bond.State.{hoolock_mode}
use hoolock.Bond.Active.{Extern}
use hoolock.Bond.Invariant.{ExternLaws}
use hoolock.Hoolock.Make.Laws.{Pair, swap-Pair}
use hoolock.Plumber.Ports.{IsSide}
use hoolock.Client.Calls.{World, goes}
use hoolock.Client.{Round, run, visits, round, rounds}
use hoolock.Client.Linked.{side, Joins, IsLinked}
use hoolock.Client.Sequence.{Safe, Safe-append, Safe-end, map-Safe, Ends-goes, weaken-Safe}
use hoolock.Client.Stages.{Stage}
use hoolock.Client.Handover.{IsCalm, IsFriendly, left_twice, whole}

-- A bond in hoolock mode with two slaves on the two sides, of which `a` is active and connected by
-- the plumber; `n` are the bytes that the controller has sent ahead.
pub record IsReady (a z : ℕ) (n : List ℕ) (w : World) : Type 0 where
  pub slaves : Pair w.bond.slaves a z
  pub mode : w.bond.params.mode ≡ hoolock_mode
  pub active : w.bond.curr_active_slave ≡ some a
  pub side_a : IsSide (side w.bond a)
  pub side_z : IsSide (side w.bond z)
  pub apart : side w.bond a ≢ side w.bond z
  pub joins : Joins (side w.bond a ∷ []) w.plumber
  pub incoming : w.nox_in ≡ n

Ready-Stage :
    (a z : ℕ) (n : List ℕ) (w : World)
    → IsReady a z n w
    → Stage a z (side w.bond a) (side w.bond z) a n false false (side w.bond a ∷ []) w
Ready-Stage a z n w r = record {
  two = record { slaves = r.slaves; mode = r.mode; side_a = refl; side_z = refl };
  active = r.active;
  incoming = r.incoming;
  act = λ e. absurd (ground arith);
  pas = λ e. absurd (ground arith);
  joins = r.joins;
}

Stage-Ready :
    (a z c d : ℕ) (n : List ℕ) (w : World)
    → IsSide c
    → IsSide d
    → c ≢ d
    → Stage a z c d z n true true (d ∷ []) w
    → IsReady z a n w
Stage-Ready a z c d n w i j h s = record {
  slaves = swap-Pair s.two.slaves;
  mode = s.two.mode;
  active = s.active;
  side_a = subst IsSide (sym s.two.side_z) j;
  side_z = subst IsSide (sym s.two.side_a) i;
  apart = λ e. h (sym s.two.side_a ∙ sym e ∙ s.two.side_z);
  joins = subst (λ e. Joins (e ∷ []) w.plumber) (sym s.two.side_z) s.joins;
  incoming = s.incoming;
}

module _ (x : Extern) (laws : ExternLaws x) (mac : List ℕ) where
  round-Safe :
      (a z : ℕ) (n : List ℕ) (r : Round) (w : World)
      → IsCalm r
      → IsReady a z n w
      → Safe IsLinked (IsFriendly x mac r n w) (IsReady z a (left_twice r n)) (round x mac r) w
  round-Safe a z n r w k g =
      let c = side w.bond a in
      let d = side w.bond z in
      map-Safe IsLinked (Stage a z c d z (left_twice r n) true true (d ∷ []))
        (IsReady z a (left_twice r n)) (round x mac r) w
        (λ v s. Stage-Ready a z c d (left_twice r n) v g.side_a g.side_z g.apart s)
        (whole x laws mac a z c d g.side_a g.side_z g.apart (λ e. g.apart (ap (side w.bond) e)) r k
          n w (Ready-Stage a z n w g))

  -- Which of the two slaves a number of rounds ends with.
  abbrev pub Turns :
      List Round → (ℕ → ℕ → List ℕ → World → Type 0) → ℕ → ℕ → List ℕ → World → Type 0
  Turns [] P a z n = P a z n
  Turns (r ∷ rs) P a z n = Turns rs P z a (left_twice r n)

  -- Nothing is said here of how the rounds end.
  abbrev pub Nevers : List Round → Type 0
  Nevers [] = Unit
  Nevers (r ∷ rs) = ⊥ × Nevers rs

  rounds-Safe :
      (rs : List Round) (a z : ℕ) (n : List ℕ) (w : World)
      → All IsCalm rs
      → IsReady a z n w
      → Safe IsLinked (Nevers rs) (Turns rs IsReady a z n) (rounds x mac rs) w
  unfolding rounds
  rounds-Safe [] a z n w k g = Safe-end IsLinked (IsReady a z n) w g
  rounds-Safe (r ∷ rs) a z n w k g =
      Safe-append IsLinked (IsReady z a (left_twice r n)) (Turns rs IsReady z a (left_twice r n))
        (round x mac r) (rounds x mac rs) w
        (weaken-Safe IsLinked (IsReady z a (left_twice r n)) (round x mac r) w (λ (e : ⊥). absurd e)
          (round-Safe a z n r w k.0 g))
        (λ v h. rounds-Safe rs z a (left_twice r n) v k.1 h)

  -- The handover is soft: in all states that any number of rounds of the client goes through, also
  -- where it stops with an error, the bond has an active slave whose side the plumber holds
  -- connected; where the two slaves of a bond in hoolock mode are on different sides, the active
  -- one is connected at first, the driver leaves the slaves, their names, the mode and
  -- the active slave between the client's calls, and the plumber executes the commands that it is
  -- sent.
  pub rounds-linked :
      (rs : List Round) (a z : ℕ) (n : List ℕ) (w : World)
      → All IsCalm rs
      → IsReady a z n w
      → All IsLinked (visits (rounds x mac rs) w)
  rounds-linked rs a z n w k g = (rounds-Safe rs a z n w k g).holds

  -- For a bond in hoolock mode with two slaves on different sides, of which the active one is
  -- connected, where between the client's calls the driver leaves the slaves and the active one,
  -- the plumber executes its commands, every exchange with the controller is complete and has the
  -- right answer, no call fails, the key is not 'q', and, at the break, the packets then buffered
  -- are received without an error, and there are none of them where locks spin: a round of the
  -- client goes through, and the slave that was passive is active and connected behind it, ready
  -- for the way back.
  pub round-goes :
      (a z : ℕ) (n : List ℕ) (r : Round) (w : World)
      → IsCalm r
      → IsFriendly x mac r n w
      → IsReady a z n w
      → (v : World) × (run (round x mac r) w ≡ goes v) × IsReady z a (left_twice r n) v
  round-goes a z n r w k f g =
      Ends-goes IsLinked (IsFriendly x mac r n w) (IsReady z a (left_twice r n))
        (run (round x mac r) w) (round-Safe a z n r w k g).ends f

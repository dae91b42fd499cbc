-- ===== src/Client/Start.antt =====
-- src/hoolock_client.cc before its loop, and from there on.
use hoolock.Common.{
  ℕ, ◌<◌, ◌≡◌, ◌≢◌, arith, refl, ap, ◌∙◌, List, [], ◌∷◌, Bool, true, false, some, All, ltb, byte, ℤ,
  pos, if◌then◌else◌,
}
use hoolock.Bond.State.{SkBuff, hoolock_mode}
use hoolock.Bond.Active.{Extern}
use hoolock.Bond.Invariant.{ExternLaws}
use hoolock.Net.Receive.{Network}
use hoolock.Ioctl.{get_active, do_ioctl, answer_get_active}
use hoolock.Hoolock.Make.Laws.{Pair}
use hoolock.Plumber.{serve}
use hoolock.Plumber.Ports.{IsSide}
use hoolock.Client.Calls.{
  World, goes, stops, exits, Visit, tell_plumber, connection, make_command, ask, answered,
}
use hoolock.Client.{
  Statement, Opening, Round, is_address, need, set_active, opening, run, visits, rounds, ran,
}
use hoolock.Client.Linked.{side, Joins, IsLinked}
use hoolock.Client.Tells.{IsSmooth, make-Joins, Connects}
use hoolock.Client.Handover.{IsCalm}
use hoolock.Client.Rounds.{IsReady, rounds-linked}

-- Nothing fails before the loop.
pub record IsOpen (o : Opening) : Type 0 where
  pub argc : 1 < o.argc
  pub socket_ok : o.socket_ok ≡ true
  pub hwaddr_ok : o.hwaddr_ok ≡ true
  pub nox_address : is_address o.nox_address ≡ true
  pub nox_socket : o.nox_socket ≡ true
  pub nox_connects : o.nox_connects ≡ true
  pub plumber_address : is_address o.plumber_address ≡ true
  pub connects : Connects o.visit
  pub visit : IsSmooth o.visit
  pub output_address : is_address o.output_address ≡ true

-- The bond has its two slaves and the plumber listens.
pub record IsSetUp (a z : ℕ) (w : World) : Type 0 where
  pub slaves : Pair w.bond.slaves a z
  pub mode : w.bond.params.mode ≡ hoolock_mode
  pub active : w.bond.curr_active_slave ≡ some a
  pub side_a : IsSide (side w.bond a)
  pub side_z : IsSide (side w.bond z)
  pub apart : side w.bond a ≢ side w.bond z
  pub joins : Joins [] w.plumber

run_end : (w : World) → run [] w ≡ goes w
unfolding run
run_end w = refl

need_met :
    (status : ℤ) (b : Bool) (ss : List Statement) (w : World)
    → b ≡ true
    → run (need status b ∷ ss) w ≡ run ss w
unfolding run
need_met status true ss w e = refl
need_met status false ss w e = absurd (ground arith)

-- The name of the active slave, and the plumber behind the first link.
named : (a : ℕ) (w : World) → World
named a w = record w { act_slave = (w.bond.mem a).dev.name }

linked_up : Visit → ℕ → World → World
linked_up v a w = record (named a w) {
  plumber = serve (connection v (make_command (side w.bond a)) ∷ []) w.plumber;
}

ask_met :
    (x : Extern) (net : SkBuff → Network) (now a : ℕ) (ss : List Statement) (w : World)
    → w.bond.curr_active_slave ≡ some a
    → run (ask x net now get_active set_active ∷ ss) w ≡ run ss (named a w)
unfolding run ask do_ioctl answer_get_active named
ask_met x net now a ss w e =
    ap (λ o. ran (answered set_active (answer_get_active o w.bond) w) (run ss)) e

tell_met :
    (v : Visit) (a : ℕ) (ss : List Statement) (w : World)
    → Connects v
    → run ((λ w. tell_plumber v (make_command (byte w.act_slave 3)) w) ∷ ss) (named a w)
      ≡ run ss (linked_up v a w)
unfolding run tell_plumber named linked_up
tell_met v a ss w e =
    ap (λ b. ran (if b then goes (linked_up v a w) else stops (exits (pos 1)) (named a w)) (run ss))
      e

module _ (x : Extern) (net : SkBuff → Network) (now a z : ℕ) (o : Opening) where
  -- The program gets to its loop.
  opening-goes :
      (w : World)
      → IsOpen o
      → w.bond.curr_active_slave ≡ some a
      → run (opening x net now o) w ≡ goes (linked_up o.visit a w)
  unfolding opening
  opening-goes w k e =
      need_met _ _ _ w (enough o.argc k.argc)
      ∙ need_met _ _ _ w k.socket_ok
      ∙ need_met _ _ _ w k.hwaddr_ok
      ∙ need_met _ _ _ w k.nox_address
      ∙ need_met _ _ _ w k.nox_socket
      ∙ need_met _ _ _ w k.nox_connects
      ∙ need_met _ _ _ w k.plumber_address
      ∙ ask_met x net now a _ w e
      ∙ tell_met o.visit a _ w k.connects
      ∙ need_met _ _ _ _ k.output_address
      ∙ run_end (linked_up o.visit a w)
    where
      enough : (n : ℕ) → 1 < n → ltb 1 n ≡ true
      enough n h = ground arith

  opening-Ready :
      (w : World) → IsOpen o → IsSetUp a z w → IsReady a z w.nox_in (linked_up o.visit a w)
  unfolding linked_up named
  opening-Ready w k s = record {
    slaves = s.slaves;
    mode = s.mode;
    active = s.active;
    side_a = s.side_a;
    side_z = s.side_z;
    apart = s.apart;
    joins = make-Joins (side w.bond a) [] o.visit w.plumber k.visit s.side_a tt s.joins;
    incoming = refl;
  }

  -- From the start of the program on, where nothing fails before the loop: it gets to the loop, and
  -- all states of the rounds that follow are linked, under the conditions of a round.
  pub opening-linked :
      ExternLaws x
      → (mac : List ℕ) (rs : List Round) (w : World) → IsOpen o
      → IsSetUp a z w
      → All IsCalm rs
      → (v : World) × (run (opening x net now o) w ≡ goes v)
        × IsLinked v
        × All IsLinked (visits (rounds x mac rs) v)
  opening-linked laws mac rs w k s c =
      let r = opening-Ready w k s in
      (
        linked_up o.visit a w,
        opening-goes w k s.active,
        (a, r.active, r.joins),
        rounds-linked x laws mac rs a z w.nox_in (linked_up o.visit a w) c r,
      )

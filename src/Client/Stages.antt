-- ===== src/Client/Stages.antt =====
-- The statements of src/hoolock_client.cc, from one stage of a handover to the next.
use hoolock.Common.{
  ℕ, ◌≡◌, ◌≢◌, inl, inr, refl, sym, ap, ◌∙◌, subst, List, [], ◌∷◌, ◌++◌, Bool, true, false, some,
  All, In, byte, ℤ, pos, negsuc, arith, if◌then◌else◌, ◌==◌, ==_sound,
}
use hoolock.Bond.State.{Bonding, hoolock_mode}
use hoolock.Hoolock.Make.Laws.{Pair}
use hoolock.Plumber.{Serving}
use hoolock.Plumber.Ports.{connected}
use hoolock.Client.Calls.{World, goes, stops, exits, in_child, Exchange, tell_nox, after_writing}
use hoolock.Client.Socket.{Writing, sent, write_blocks, write_outside, write_all}
use hoolock.Client.Message.{HoolockCmd, request}
use hoolock.Client.{need, spawn, quits, meanwhile, kill_iperf}
use hoolock.Client.Linked.{side, Joins, IsLinked, Quiet, IsQuiet}
use hoolock.Client.Sequence.{Ends}

-- The bond has the two slaves `a` and `z`, on the sides `c` and `d`.
pub record Two (a z c d : ℕ) (b : Bonding) : Type 0 where
  pub slaves : Pair b.slaves a z
  pub mode : b.params.mode ≡ hoolock_mode
  pub side_a : side b a ≡ c
  pub side_z : side b z ≡ d

abbrev pub IsSent : Writing → Type 0
IsSent (sent bs) = Unit
IsSent (write_blocks bs) = ⊥
IsSent (write_outside bs) = ⊥

-- The slave `x` is active, `n` are the bytes from the controller; where `t` and `u` say so, the
-- names of `a` and `z` are known; the sides `cs` are connected.
pub record Stage (a z c d x : ℕ) (n : List ℕ) (t u : Bool) (cs : List ℕ) (w : World) : Type 0 where
  pub two : Two a z c d w.bond
  pub active : w.bond.curr_active_slave ≡ some x
  pub incoming : w.nox_in ≡ n
  pub act : t ≡ true → byte w.act_slave 3 ≡ c
  pub pas : u ≡ true → byte w.pas_slave 3 ≡ d
  pub joins : Joins cs w.plumber

pub Quiet-Two : {a z c d : ℕ} (b e : Bonding) → Quiet b e → Two a z c d b → Two a z c d e
Quiet-Two {a} {z} b e q t = record {
  slaves = subst (λ xs. Pair xs a z) (sym q.slaves) t.slaves;
  mode = q.names.mode ∙ t.mode;
  side_a = ap (λ s. byte s 3) (q.names.names a) ∙ t.side_a;
  side_z = ap (λ s. byte s 3) (q.names.names z) ∙ t.side_z;
}

fewer : (c : ℕ) (cs : List ℕ) (s : Serving) → In c cs → Joins cs s → Joins (c ∷ []) s
fewer c cs s i (p, l, n, h) = (p, l, n, (pick cs i h, tt))
  where
    pick : (cs : List ℕ) → In c cs → All (λ c. connected c p ≡ true) cs → connected c p ≡ true
    pick [] i h = elim i [ ]
    pick (e ∷ es) (inl i) h = subst (λ c. connected c p ≡ true) i h.0
    pick (e ∷ es) (inr i) h = pick es i h.1

module _ (a z c d : ℕ) where
  -- At a stage that keeps the side of the active slave connected the host is linked.
  pub Stage-linked_a :
      (n : List ℕ) (t u : Bool) (cs : List ℕ) (w : World)
      → In c cs
      → Stage a z c d a n t u cs w
      → IsLinked w
  Stage-linked_a n t u cs w i s = (
    a,
    s.active,
    subst (λ e. Joins (e ∷ []) w.plumber) (sym s.two.side_a) (fewer c cs w.plumber i s.joins),
  )

  pub Stage-linked_z :
      (n : List ℕ) (t u : Bool) (cs : List ℕ) (w : World)
      → In d cs
      → Stage a z c d z n t u cs w
      → IsLinked w
  Stage-linked_z n t u cs w i s = (
    z,
    s.active,
    subst (λ e. Joins (e ∷ []) w.plumber) (sym s.two.side_z) (fewer d cs w.plumber i s.joins),
  )

  module _ (x : ℕ) (n : List ℕ) (t u : Bool) (cs : List ℕ)
      (l : (w : World) → Stage a z c d x n t u cs w → IsLinked w) where
    abbrev Here : World → Type 0
    Here = Stage a z c d x n t u cs

    spawned : (f : ℤ) (w : World) → Here w → Here (record w { iperf_pid = f })
    spawned f w s = record {
      two = s.two;
      active = s.active;
      incoming = s.incoming;
      act = s.act;
      pas = s.pas;
      joins = s.joins;
    }

    killed_iperf : (w : World) → Here w → Here (kill_iperf w)
    killed_iperf w s = record {
      two = s.two;
      active = s.active;
      incoming = s.incoming;
      act = s.act;
      pas = s.pas;
      joins = s.joins;
    }

    pub need-Stage :
        (status : ℤ) (b : Bool) (w : World)
        → Here w
        → Ends IsLinked (b ≡ true) Here (need status b w)
    need-Stage status true w s = s
    need-Stage status false w s = (l w s, λ e. ground arith)

    spawn_child :
        (k : ℕ) (b : Bool) (w : World)
        → (k == 0) ≡ b
        → Here w
        → Ends IsLinked (pos k ≢ pos 0) Here (
            if b
            then stops in_child (record w { iperf_pid = pos 0 })
            else goes (record w { iperf_pid = pos k }))
    spawn_child k true w e s = (l _ (spawned (pos 0) w s), λ h. h (ap pos (==_sound k 0 e)))
    spawn_child k false w e s = spawned (pos k) w s

    pub spawn-Stage : (f : ℤ) (w : World) → Here w → Ends IsLinked (f ≢ pos 0) Here (spawn f w)
    spawn-Stage (pos k) w s = spawn_child k (k == 0) w refl s
    spawn-Stage (negsuc k) w s = spawned (negsuc k) w s

    quits_if :
        (key : ℕ) (b : Bool) (w : World)
        → (key == 113) ≡ b
        → Here w
        → Ends IsLinked
            (key ≢ 113)
            Here
            (if b then stops (exits (pos 0)) (kill_iperf w) else goes w)
    quits_if key true w e s = (l _ (killed_iperf w s), λ h. h (==_sound key 113 e))
    quits_if key false w e s = s

    pub quits-Stage : (key : ℕ) (w : World) → Here w → Ends IsLinked (key ≢ 113) Here (quits key w)
    quits-Stage key w s = quits_if key (key == 113) w refl s

    pub kill_iperf-Stage : (w : World) → Here w → Ends IsLinked Unit Here (goes (kill_iperf w))
    kill_iperf-Stage w s = killed_iperf w s

    pub meanwhile-Stage :
        (f : Bonding → Bonding) (w : World)
        → IsQuiet f
        → Here w
        → Ends IsLinked Unit Here (meanwhile f w)
    meanwhile-Stage f w q s = record {
      two = Quiet-Two w.bond (f w.bond) (q w.bond) s.two;
      active = (q w.bond).active ∙ s.active;
      incoming = s.incoming;
      act = s.act;
      pas = s.pas;
      joins = s.joins;
    }

    wrote : (bs : List ℕ) (w : World) → Here w → Here (record w { nox_out = bs })
    wrote bs w s = record {
      two = s.two;
      active = s.active;
      incoming = s.incoming;
      act = s.act;
      pas = s.pas;
      joins = s.joins;
    }

    after_writing-Stage :
        (o : Writing) (w : World) → Here w → Ends IsLinked (IsSent o) Here (after_writing o w)
    after_writing-Stage (sent bs) w s = wrote (w.nox_out ++ bs) w s
    after_writing-Stage (write_blocks bs) w s = (l _ (wrote (w.nox_out ++ bs) w s), λ h. h)
    after_writing-Stage (write_outside bs) w s = (l _ (wrote (w.nox_out ++ bs) w s), λ h. h)

    pub tell_nox-Stage :
        (e : Exchange) (mac : List ℕ) (k : HoolockCmd) (w : World)
        → Here w
        → Ends IsLinked
            (IsSent (write_all (request e.junk mac k) 0 e.writes))
            Here
            (tell_nox e mac k w)
    unfolding tell_nox
    tell_nox-Stage e mac k w s = after_writing-Stage _ w s

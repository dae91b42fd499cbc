-- ===== src/Client/Moves.antt =====
-- The statements of src/hoolock_client.cc that move the host on: what it asks the driver and
-- tells the plumber.
use hoolock.Common.{
  ℕ, ◌≡◌, ◌≢◌, inl, inr, refl, sym, ap, ◌∙◌, subst, List, [], Bool, true, false, ◌&&◌, not, Option,
  none, some, byte, arith, same, if◌then◌else◌, ==_refl, ==_ne,
}
use hoolock.Bond.State.{Bonding, SkBuff, Status, ok, hoolock_mode}
use hoolock.Bond.Slaves.{first_that}
use hoolock.Bond.Active.{Extern}
use hoolock.Bond.Active.Names.{Names, Names-refl, change_active_slave-Names}
use hoolock.Bond.Invariant.{ExternLaws}
use hoolock.Net.Receive.{Network, Rx}
use hoolock.Ioctl.{
  no_reply, get_active, get_passive, hoolock_make, hoolock_break, do_ioctl, returned, of_outcome,
  answer_get_active,
}
use hoolock.Ioctl.Answers.{do_ioctl-passive_make}
use hoolock.Hoolock.Make.{make, first_other, switch_if}
use hoolock.Hoolock.Make.Laws.{Pair, make_lem, make-two}
use hoolock.Hoolock.Break.{deadlocked, finished}
use hoolock.Hoolock.Break.Drains.{is_empty, last_result, break-drains}
use hoolock.Client.Calls.{World, goes, stops, exits, minus_one, ask, answered, plain, is_error}
use hoolock.Client.{set_active, set_passive, set_nothing}
use hoolock.Client.Linked.{IsLinked}
use hoolock.Client.Sequence.{Ends}
use hoolock.Client.Stages.{Two, Stage}

-- The first slave that is not active, of two.
first_other-Pair :
    (b : Bonding) (a z : ℕ)
    → Pair b.slaves a z
    → b.curr_active_slave ≡ some a
    → a ≢ z
    → first_other b ≡ some z
unfolding first_other first_that
first_other-Pair b a z s e n =
    ap (λ o. first_that (λ p. not (same (some p) o)) b.slaves) e ∙ in_order b.slaves s
  where
    in_order :
        (xs : List ℕ) → Pair xs a z → first_that (λ p. not (same (some p) (some a))) xs ≡ some z
    in_order xs (inl i) =
        ap (first_that (λ p. not (same (some p) (some a)))) i
        ∙ ground (arith, ==_refl a, ==_ne z a (λ h. n (sym h)))
    in_order xs (inr i) =
        ap (first_that (λ p. not (same (some p) (some a)))) i
        ∙ ground (arith, ==_ne z a (λ h. n (sym h)))

switch_if-Names :
    (x : Extern) (now : ℕ) (o : Option ℕ) (b : Bonding)
    → b.params.mode ≡ hoolock_mode
    → Names b (switch_if x now o b)
unfolding switch_if
switch_if-Names x now none b m = Names-refl b
switch_if-Names x now (some p) b m = change_active_slave-Names x now (some p) b m

make-Names :
    (x : Extern) (now : ℕ) (b : Bonding) → b.params.mode ≡ hoolock_mode → Names b (make x now b).1
unfolding make
make-Names x now b m =
    let k = switch_if-Names x now (first_other b) b m in record { names = k.names; mode = k.mode }

module _ (x : Extern) (laws : ExternLaws x) (a z c d : ℕ) (apart : a ≢ z) where
  pub ask-active :
      (n : List ℕ) (t u : Bool) (cs : List ℕ) (net : SkBuff → Network) (now : ℕ) (w : World)
      → Stage a z c d a n t u cs w
      → Ends IsLinked Unit (Stage a z c d a n true u cs) (ask x net now get_active set_active w)
  unfolding ask do_ioctl answer_get_active
  ask-active n t u cs net now w s =
      subst
        (λ o.
          Ends IsLinked Unit (Stage a z c d a n true u cs)
            (answered set_active (answer_get_active o w.bond) w))
        (sym s.active)
        (record {
          two = s.two;
          active = s.active;
          incoming = s.incoming;
          act = λ e. s.two.side_a;
          pas = s.pas;
          joins = s.joins;
        })

  pub ask-passive :
      (n : List ℕ) (t u : Bool) (cs : List ℕ) (net : SkBuff → Network) (now : ℕ) (w : World)
      → Stage a z c d a n t u cs w
      → Ends IsLinked Unit (Stage a z c d a n t true cs) (ask x net now get_passive set_passive w)
  unfolding ask
  ask-passive n t u cs net now w s =
      subst (λ r. Ends IsLinked Unit (Stage a z c d a n t true cs) (answered set_passive r w))
        (sym
          (do_ioctl-passive_make x laws net now plain w.bond z
            (first_other-Pair w.bond a z s.two.slaves s.active apart)).0)
        (record {
          two = s.two;
          active = s.active;
          incoming = s.incoming;
          act = s.act;
          pas = λ e. s.two.side_z;
          joins = s.joins;
        })

  make-Two : (now : ℕ) (b : Bonding) → Two a z c d b → Two a z c d (make x now b).1
  make-Two now b t =
      let k = make_lem x laws now b in
      let m = make-Names x now b t.mode in
      record {
        slaves = subst (λ xs. Pair xs a z) (sym k.3) t.slaves;
        mode = m.mode ∙ t.mode;
        side_a = ap (λ s. byte s 3) (m.names a) ∙ t.side_a;
        side_z = ap (λ s. byte s 3) (m.names z) ∙ t.side_z;
      }

  pub ask-make :
      (n : List ℕ) (t u : Bool) (cs : List ℕ) (net : SkBuff → Network) (now : ℕ) (w : World)
      → Stage a z c d a n t u cs w
      → Ends IsLinked Unit (Stage a z c d z n t u cs) (ask x net now hoolock_make set_nothing w)
  unfolding ask do_ioctl
  ask-make n t u cs net now w s =
      subst
        (λ st.
          Ends IsLinked Unit (Stage a z c d z n t u cs)
            (answered set_nothing (returned st no_reply (make x now w.bond).1) w))
        (sym (make_lem x laws now w.bond).0)
        (record {
          two = make-Two now w.bond s.two;
          active = make-two x laws now w.bond a z apart s.two.slaves s.active;
          incoming = s.incoming;
          act = s.act;
          pas = s.pas;
          joins = s.joins;
        })

-- The break of this bond returns no error: where locks spin nothing is buffered, and what the
-- handlers answer to the last of the buffered packets is none.
pub record IsReceiving (x : Extern) (net : SkBuff → Network) (b : Bonding) : Type 0 where
  pub unlocked : x.locks_spin && not (is_empty b.pbuff) ≡ false
  pub received :
      (p : ℕ)
      → b.curr_active_slave ≡ some p
      → is_error (last_result net (record b { buffer_mode = false }) p ok b.pbuff) ≡ false

module _ (a z c d p : ℕ) where
  -- The bond as the break leaves it.
  broken-Stage :
      (n : List ℕ) (t u : Bool) (cs : List ℕ) (w : World)
      → Stage a z c d p n t u cs w
      → Stage a z c d p n t u cs
          (record w { bond = record (w.bond) { buffer_mode = false; pbuff = [] } })
  broken-Stage n t u cs w s = record {
    two = record {
      slaves = s.two.slaves;
      mode = s.two.mode;
      side_a = s.two.side_a;
      side_z = s.two.side_z;
    };
    active = s.active;
    incoming = s.incoming;
    act = s.act;
    pas = s.pas;
    joins = s.joins;
  }

  finished-Stage :
      (n : List ℕ) (t u : Bool) (cs : List ℕ) (w : World) (st : Status) (e : Bool) (C : Type 0)
      → is_error st ≡ e
      → (C → is_error st ≡ false)
      → ((v : World) → Stage a z c d p n t u cs v → IsLinked v)
      → Stage a z c d p n t u cs w
      → Ends IsLinked C (Stage a z c d p n t u cs) (if e then stops (exits minus_one) w else goes w)
  finished-Stage n t u cs w st true C i f l s = (l w s, λ h. ground (arith, f h, i))
  finished-Stage n t u cs w st false C i f l s = s

  drained-Stage :
      (n : List ℕ) (t u : Bool) (cs : List ℕ) (w : World) (C : Type 0) (spin : Bool) (st : Status)
      (rs : List Rx)
      → (C → spin ≡ false)
      → (C → is_error st ≡ false)
      → ((v : World) → Stage a z c d p n t u cs v → IsLinked v)
      → Stage a z c d p n t u cs w
      → Ends IsLinked C (Stage a z c d p n t u cs) (
          answered set_nothing
            (of_outcome (
              if spin
              then deadlocked
              else finished st (record (w.bond) { buffer_mode = false; pbuff = [] }) rs))
            w)
  drained-Stage n t u cs w C true st rs e i l s = (l w s, λ h. ground (arith, e h))
  drained-Stage n t u cs w C false st rs e i l s =
      finished-Stage n t u cs _ st _ C refl i l (broken-Stage n t u cs w s)

  pub ask-break :
      (x : Extern) (n : List ℕ) (t u : Bool) (cs : List ℕ) (net : SkBuff → Network) (now : ℕ)
      (w : World) (C : Type 0)
      → (C → IsReceiving x net w.bond)
      → ((v : World) → Stage a z c d p n t u cs v → IsLinked v)
      → Stage a z c d p n t u cs w
      → Ends IsLinked C (Stage a z c d p n t u cs) (ask x net now hoolock_break set_nothing w)
  unfolding ask do_ioctl
  ask-break x n t u cs net now w C k l s =
      subst
        (λ o. Ends IsLinked C (Stage a z c d p n t u cs) (answered set_nothing (of_outcome o) w))
        (sym (break-drains x.locks_spin net w.bond p s.active))
        (drained-Stage n t u cs w C (x.locks_spin && not (is_empty w.bond.pbuff)) _ _
          (λ h. (k h).unlocked) (λ h. (k h).received p s.active) l s)

  -- The answer of the controller is the one that is waited for.
  pub heard :
      (n : List ℕ) (t u : Bool) (cs m : List ℕ) (w : World)
      → Stage a z c d p n t u cs w
      → Stage a z c d p m t u cs (record w { nox_in = m })
  heard n t u cs m w s = record {
    two = s.two;
    active = s.active;
    incoming = refl;
    act = s.act;
    pas = s.pas;
    joins = s.joins;
  }

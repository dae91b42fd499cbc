-- ===== src/Bond/Monitor/Failover.antt =====
-- bond_miimon_commit in 27/bond_main.c where the active slave lost its link.
use hoolock.Common.{
  ℕ, ◌≡◌, ◌≢◌, refl, ◌∙◌, ap, sym, subst, List, Bool, true, Option, none, some, if◌then◌else◌, same,
  same_refl, ==_refl, arith, inl, inr,
}
use hoolock.Bond.State.{Bonding, Slave, Mode, hoolock_mode, LinkState, link_down}
use hoolock.Bond.Slaves.{edit, each_from}
use hoolock.Bond.Slaves.Walks.{first_that-In}
use hoolock.Bond.Active.{Extern, link_change, find_best_slave, start_of, select_active_slave}
use hoolock.Bond.Active.Best.{IsBest, is_usable, is_waiting, find_best_slave-IsBest}
use hoolock.Bond.Active.Members.{find_best_slave-none}
use hoolock.Bond.Active.Change.{select_active_slave-Sets}
use hoolock.Bond.Invariant.{ExternLaws}
use hoolock.Bond.Monitor.{went_down, commit_link, count_failure}

not-usable : (m : ℕ → Slave) (q : ℕ) → is_usable m q ≡ true → (m q).link ≢ link_down
not-usable m q h e = ground arith

not-waiting : (m : ℕ → Slave) (q : ℕ) → is_waiting m q ≡ true → (m q).link ≢ link_down
not-waiting m q h e = ground arith

some_inj : {p q : ℕ} → some p ≡ some q → p ≡ q
some_inj h = cc

some-not-none : {q : ℕ} → some q ≡ none → ⊥
some-not-none h = cc

IsBest-link :
    (m : ℕ → Slave) (t : ℕ) (ps : List ℕ) (r : Option ℕ) (q : ℕ)
    → IsBest m t none ps r
    → r ≡ some q
    → (m q).link ≢ link_down
IsBest-link m t ps r q (inl (p, f, e)) h =
    subst (λ k. (m k).link ≢ link_down) (some_inj (sym e ∙ h))
      (not-usable m p (first_that-In (is_usable m) ps p f).1)
IsBest-link m t ps r q (inr (f, inl (e, n))) h = absurd (some-not-none (sym h ∙ e))
IsBest-link m t ps r q (inr (f, inr (p, e, i, w, l, n))) h =
    subst (λ k. (m k).link ≢ link_down) (some_inj (sym e ∙ h)) (not-waiting m p w)

best_at :
    (b : Bonding) (o : Option ℕ) (q : ℕ)
    → start_of b ≡ o
    → find_best_slave b ≡ some q
    → (b.mem q).link ≢ link_down
best_at b none q e h = absurd (some-not-none (sym h ∙ find_best_slave-none b e))
best_at b (some p) q e h =
    IsBest-link b.mem b.params.updelay (each_from p b.slaves) (find_best_slave b) q
      (find_best_slave-IsBest b p e) h

-- `bond_find_best_slave` never returns a slave whose link is down.
pub find_best_slave-link :
    (b : Bonding) (q : ℕ) → find_best_slave b ≡ some q → (b.mem q).link ≢ link_down
find_best_slave-link b q h = best_at b (start_of b) q refl h

link_change-hoolock :
    (x : Extern) (m : Mode) (p : ℕ) (l : LinkState) (b : Bonding)
    → m ≡ hoolock_mode
    → link_change x m p l (went_down m p b) ≡ b
unfolding link_change went_down
link_change-hoolock x m p l b e = rw e

module _ (x : Extern) (laws : ExternLaws x) where
  -- The slave that the choice is made without.
  replaced :
      (now p : ℕ) (c : Bonding)
      → c.curr_active_slave ≡ some p
      → (c.mem p).link ≡ link_down
      → (if same (some p) c.curr_active_slave
          then select_active_slave x now c
          else c).curr_active_slave
        ≢ some p
  replaced now p c a l =
      subst
        (λ (t : Bool). (if t then select_active_slave x now c else c).curr_active_slave ≢ some p)
        (sym (ap (same (some p)) a ∙ same_refl (some p)))
        (λ h. find_best_slave-link c p (sym (select_active_slave-Sets x laws now c).1 ∙ h) l)

  -- In hoolock mode, when `bond_miimon_commit` comes to the active slave and its loss of the link is
  -- due, another slave is made active, or none.
  pub commit_link-failover :
      (now : ℕ) (b : Bonding) (p : ℕ)
      → b.params.mode ≡ hoolock_mode
      → b.curr_active_slave ≡ some p
      → (commit_link x now p (some link_down) b).curr_active_slave ≢ some p
  unfolding commit_link
  commit_link-failover now b p m a =
      let c =
        edit p
          (λ s. record s {
            link_failure_count = count_failure s.link_failure_count;
            link = link_down;
          })
          b in
      subst
        (λ (d : Bonding).
          (if same (some p) d.curr_active_slave
            then select_active_slave x now d
            else d).curr_active_slave
          ≢ some p)
        (sym (link_change-hoolock x b.params.mode p link_down c m))
        (replaced now p c a (ground (arith, ==_refl p)))

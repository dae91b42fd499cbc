-- ===== src/Bond/Arp/Failover.antt =====
-- bond_ab_arp_commit of 27/bond_main.c where the active slave lost its link.
use hoolock.Common.{
  ℕ, ◌≡◌, ◌≢◌, refl, ◌∙◌, ap, sym, subst, Bool, Option, none, some, if◌then◌else◌, same, same_refl,
}
use hoolock.Bond.State.{Bonding, Slave, link_down}
use hoolock.Bond.Slaves.{edit, is_active, set_slave_inactive_flags}
use hoolock.Bond.Active.{Extern, select_active_slave}
use hoolock.Bond.Active.Change.{select_active_slave-Sets}
use hoolock.Bond.Invariant.{ExternLaws}
use hoolock.Bond.Monitor.{count_failure}
use hoolock.Bond.Monitor.Failover.{find_best_slave-link}
use hoolock.Bond.Arp.{Clock}
use hoolock.Bond.Arp.Probe.{link-inactive, link-edit_own}
use hoolock.Bond.Arp.Backup.{drop_candidate, stamp_active, ab_commit_link}

-- Another slave is active, with the time of the change, or none; there is no candidate.
pub record FailedOver (now p : ℕ) (c : Bonding) : Type 0 where
  pub active : c.curr_active_slave ≢ some p
  pub candidate : c.current_arp_slave ≡ none
  pub jiffies : (q : ℕ) → c.curr_active_slave ≡ some q → (c.mem q).jiffies ≡ now

some_inj : {p q : ℕ} → some p ≡ some q → p ≡ q
some_inj h = cc

some-not-none : {q : ℕ} → none ≡ some q → ⊥
some-not-none h = cc

stamped :
    (now p : ℕ) (o : Option ℕ) (c : Bonding)
    → c.curr_active_slave ≡ o
    → o ≢ some p
    → FailedOver now p (drop_candidate (stamp_active now o c))
stamped now p none c e n = record {
  active = λ h. n (sym e ∙ h);
  candidate = refl;
  jiffies = λ q h. absurd (some-not-none (sym e ∙ h));
}
stamped now p (some r) c e n = record {
  active = λ h. n (sym e ∙ h);
  candidate = refl;
  jiffies = λ q h.
      subst (λ z. ((stamp_active now (some r) c).mem z).jiffies ≡ now) (some_inj (sym e ∙ h))
        (ap (λ (s : Slave). s.jiffies) (link-edit_own r (record (c.mem r) { jiffies = now }) c));
}

-- When `bond_ab_arp_commit` comes to the active slave and its loss of the link is due, another slave
-- is made active and stamped with the time, or none, and there is no candidate.
ab_commit_link-FailedOver :
    (x : Extern)
    → ExternLaws x
    → (k : Clock) (now delta p : ℕ) (b : Bonding) → b.curr_active_slave ≡ some p
    → FailedOver now p (ab_commit_link x k now delta p (some link_down) b)
unfolding ab_commit_link
ab_commit_link-FailedOver x laws k now delta p b a =
    let s = record (b.mem p) {
      link_failure_count = count_failure (b.mem p).link_failure_count;
      link = link_down;
    } in
    let b₁ = edit p (λ _. s) b in
    let b₂ = edit p (set_slave_inactive_flags b) b₁ in
    let c = select_active_slave x now b₂ in
    let down : (b₂.mem p).link ≡ link_down =
      ap (λ (z : Slave). z.link) (link-edit_own p (set_slave_inactive_flags b (b₁.mem p)) b₁)
      ∙ link-inactive b (b₁.mem p)
      ∙ ap (λ (z : Slave). z.link) (link-edit_own p s b) in
    subst
      (λ (t : Bool). FailedOver now p (
        if t
        then drop_candidate (stamp_active now c.curr_active_slave c)
        else if is_active (b.mem p).state
        then b₁
        else b₂))
      (sym (ap (λ o. same o (some p)) a ∙ same_refl (some p)))
      (stamped now p c.curr_active_slave c refl
        (λ h. find_best_slave-link b₂ p (sym (select_active_slave-Sets x laws now b₂).1 ∙ h) down))

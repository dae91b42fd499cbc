-- ===== src/Bond/Arp/Commit.antt =====
-- What bond_loadbalance_arp_mon and bond_activebackup_arp_mon, 27/bond_main.c, keep.
use hoolock.Common.{
  ℕ, ◌+◌, ◌≡◌, refl, ◌∙◌, sym, subst, List, [], ◌∷◌, Bool, true, false, Option, none, some, In, inl,
  if◌then◌else◌, ◌==◌, ◌&&◌, not, is_some, same,
}
use hoolock.Bond.State.{Bonding, Slave, LinkState, link_up, link_down, link_fail, link_back}
use hoolock.Bond.Slaves.{
  each_from, first_slave, is_up, is_link_up, is_active, set_slave_inactive_flags,
  set_slave_active_flags, edit,
}
use hoolock.Bond.Slaves.Walks.{OptIn, In-each_from, first-OptIn}
use hoolock.Bond.Active.{Extern, send_gratuitous_arp, change_active_slave, select_active_slave}
use hoolock.Bond.Active.Steps.{ptr-set_slave_inactive_flags, send_gratuitous_arp-Leaves}
use hoolock.Bond.Active.Change.{set_carrier-Leaves, change_active_slave-Sets}
use hoolock.Bond.Active.Members.{change_active_slave-IsWellFormed}
use hoolock.Bond.Invariant.{ExternLaws, IsWellFormed}
use hoolock.Bond.Monitor.Commit.{select_active_slave-Preserves}
use hoolock.Bond.Vlans.{no_slaves}
use hoolock.Bond.Monitor.{count_failure}
use hoolock.Bond.Arp.{Clock, Routes, arp_send_all}
use hoolock.Bond.Arp.Balance.{balance_each, balance_round, loadbalance_arp_mon}
use hoolock.Bond.Arp.Backup.{
  ab_inspect, primary_waits, drop_candidate, stamp_active, ab_commit_link, ab_commit_each,
  ab_commit, passed_over, candidate, search_from, next_slave, probe_from, ab_probe, ab_round,
  activebackup_arp_mon,
}
use hoolock.Bond.Arp.Watch.{
  Watches, Watches-refl, Watches-trans, Preserves-Watches, Leaves-Watches, either-Watches,
  candidate-Watches, edit-Watches, AllIn, AllIn-after, arp_send_all-Leaves, balance_each-Watches,
  ab_inspect_each-Watches,
}

drop-Watches : (b : Bonding) → Watches b (drop_candidate b)
drop-Watches b = candidate-Watches none b tt

stamp-Watches : (now : ℕ) (o : Option ℕ) (b : Bonding) → Watches b (stamp_active now o b)
stamp-Watches now none b = Watches-refl b
stamp-Watches now (some q) b = edit-Watches q _ b refl

ptr-active : (s : Slave) → (set_slave_active_flags s).dev.ptr ≡ s.dev.ptr
unfolding set_slave_active_flags
ptr-active s = refl

-- A slave is made inactive, after other changes to it.
inactive-Watches :
    (p : ℕ) (s : Slave) (a b : Bonding)
    → s.dev.ptr ≡ (b.mem p).dev.ptr
    → Watches b (edit p (λ _. set_slave_inactive_flags a s) b)
inactive-Watches p s a b e =
    edit-Watches p (set_slave_inactive_flags a s) b (ptr-set_slave_inactive_flags a s ∙ e)

-- The search passes over slaves, and ends at one of them or at none.
passed_over-Watches : (p : ℕ) (b : Bonding) → Watches b (passed_over p b)
passed_over-Watches p b =
    let s = record (b.mem p) {
      link = link_down;
      link_failure_count = count_failure (b.mem p).link_failure_count;
    } in
    either-Watches (is_link_up (b.mem p).link) (inactive-Watches p s b b refl) (Watches-refl b)

candidate-after :
    (r : Routes) (now p : ℕ) (b : Bonding) → In p b.slaves → Watches b (candidate r now p b)
candidate-after r now p b i =
    let s = record (b.mem p) { link = link_back } in
    let h = edit-Watches p (set_slave_active_flags s) b (ptr-active s) in
    let c = arp_send_all r p (edit p (λ _. set_slave_active_flags s) b) in
    let k = Watches-trans h (Leaves-Watches (arp_send_all-Leaves r p _)) in
    let l = Watches-trans k (edit-Watches p (record (c.mem p) { jiffies = now }) c refl) in
    Watches-trans l (candidate-Watches (some p) _ (subst (In p) (sym l.slaves) i))

search-Watches :
    (r : Routes) (now : ℕ) (ps : List ℕ) (b : Bonding)
    → AllIn ps b
    → Watches b (search_from r now ps b)
unfolding search_from
search-Watches r now [] b a = Watches-refl b
search-Watches r now (p ∷ ps) b a =
    let h = passed_over-Watches p b in
    either-Watches (is_up (b.mem p).dev) (candidate-after r now p b (a p (inl refl)))
      (Watches-trans h (search-Watches r now ps _ (AllIn-after p ps a h)))

probe_from-Watches :
    (r : Routes) (now : ℕ) (o : Option ℕ) (b : Bonding)
    → OptIn o b.slaves
    → Watches b (probe_from r now o b)
unfolding probe_from
probe_from-Watches r now none b i = Watches-refl b
probe_from-Watches r now (some p) b i =
    let c = record b { current_arp_slave = some p } in
    let h =
      Watches-trans (candidate-Watches (some p) b i) (inactive-Watches p (b.mem p) b c refl) in
    Watches-trans h (
      search-Watches r now (each_from (next_slave p b.slaves) b.slaves) _
        (λ q j. In-each_from q (next_slave p b.slaves) b.slaves j))

ab_probe-Watches :
    (r : Routes) (now : ℕ) (b : Bonding) → IsWellFormed b → Watches b (ab_probe r now b)
unfolding ab_probe
ab_probe-Watches r now b w = searched b.curr_active_slave
  where
    start :
        (o : Option ℕ)
        → OptIn o b.slaves
        → OptIn (elim o [ some p ↦ some p | none ↦ first_slave b ]) b.slaves
    start none i = first-OptIn b b.slaves refl
    start (some p) i = i

    searched :
        (o : Option ℕ)
        → Watches b (elim o [
          | some q ↦ arp_send_all r q b
          | none ↦
              probe_from r now
                (elim b.current_arp_slave [ some p ↦ some p | none ↦ first_slave b ])
                b
        ])
    searched none = probe_from-Watches r now _ b (start b.current_arp_slave w.arp_in)
    searched (some q) = Leaves-Watches (arp_send_all-Leaves r q b)

ab_inspect-Watches :
    (k : Clock) (now delta : ℕ) (b : Bonding) → Watches b (ab_inspect k now delta b).1
unfolding ab_inspect
ab_inspect-Watches k now delta b = ab_inspect_each-Watches k now delta b.slaves b

module _ (x : Extern) (laws : ExternLaws x) where
  change-Watches :
      (now : ℕ) (o : Option ℕ) (b : Bonding)
      → OptIn o b.slaves
      → Watches b (change_active_slave x now o b)
  change-Watches now o b i = Preserves-Watches (record {
    keeps = (change_active_slave-Sets x laws now o b).0;
    valid = change_active_slave-IsWellFormed x laws now o b i;
  })

  select-Watches : (now : ℕ) (b : Bonding) → Watches b (select_active_slave x now b)
  select-Watches now b = Preserves-Watches (select_active_slave-Preserves x laws now b)

  commit_link-Watches :
      (k : Clock) (now delta p : ℕ) (l : Option LinkState) (b : Bonding)
      → In p b.slaves
      → Watches b (ab_commit_link x k now delta p l b)
  unfolding ab_commit_link
  commit_link-Watches k now delta p (some link_up) b i =
      let h = edit-Watches p (record (b.mem p) { link = link_up }) b refl in
      let b₁ = edit p (λ s. record s { link = link_up }) b in
      either-Watches
        (not (is_some b.curr_active_slave)
          && k.time_before_eq now ((b.mem p).dev.trans_start + delta))
        (Watches-trans h (Watches-trans (change-Watches now (some p) b₁ i) (drop-Watches _)))
        (either-Watches (same b.curr_active_slave (some p)) (Watches-refl b) (
          Watches-trans h
            (Watches-trans (inactive-Watches p (b₁.mem p) b b₁ refl) (drop-Watches _))))
  commit_link-Watches k now delta p (some link_down) b i =
      let s = record (b.mem p) {
        link_failure_count = count_failure (b.mem p).link_failure_count;
        link = link_down;
      } in
      let b₁ = edit p (λ _. s) b in
      let h = edit-Watches p s b refl in
      let l = Watches-trans h (inactive-Watches p (b₁.mem p) b b₁ refl) in
      either-Watches (same b.curr_active_slave (some p))
        (Watches-trans l (
          Watches-trans (select-Watches now _)
            (Watches-trans (stamp-Watches now _ _) (drop-Watches _))))
        (either-Watches (is_active (b.mem p).state) h l)
  commit_link-Watches k now delta p (some link_fail) b i = Watches-refl b
  commit_link-Watches k now delta p (some link_back) b i = Watches-refl b
  commit_link-Watches k now delta p none b i = Watches-refl b

  commit_each-Watches :
      (k : Clock) (now delta : ℕ) (ps : List ℕ) (b : Bonding)
      → AllIn ps b
      → Watches b (ab_commit_each x k now delta ps b)
  unfolding ab_commit_each
  commit_each-Watches k now delta [] b a = Watches-refl b
  commit_each-Watches k now delta (p ∷ ps) b a =
      let h = commit_link-Watches k now delta p (b.mem p).new_link b (a p (inl refl)) in
      Watches-trans h (commit_each-Watches k now delta ps _ (AllIn-after p ps a h))

  commit-Watches :
      (k : Clock) (now delta : ℕ) (b : Bonding)
      → IsWellFormed b
      → Watches b (ab_commit x k now delta b)
  unfolding ab_commit
  commit-Watches k now delta b w =
      let h = commit_each-Watches k now delta b.slaves b (λ q i. i) in
      let c = ab_commit_each x k now delta b.slaves b in
      Watches-trans h (
        Watches-trans
          (either-Watches (primary_waits c)
            (change-Watches now c.primary_slave c (h.valid w).primary_in) (Watches-refl c))
          (Leaves-Watches (set_carrier-Leaves x laws _)))

  round-Watches :
      (k : Clock) (r : Routes) (now : ℕ) (b : Bonding)
      → IsWellFormed b
      → Watches b (ab_round x k r now b)
  unfolding ab_round
  round-Watches k r now b w =
      let delta = k.msecs_to_jiffies b.params.arp_interval in
      let h =
        either-Watches (b.send_grat_arp == 0) (Watches-refl b)
          (Leaves-Watches (send_gratuitous_arp-Leaves b)) in
      let b₁ = if b.send_grat_arp == 0 then b else send_gratuitous_arp b in
      let i = Watches-trans h (ab_inspect-Watches k now delta b₁) in
      let (n, b₂) = ab_inspect k now delta b₁ in
      let c =
        Watches-trans i
          (either-Watches (n == 0) (Watches-refl b₂) (commit-Watches k now delta b₂ (i.valid w))) in
      Watches-trans c (ab_probe-Watches r now _ (c.valid w))

  balance_round-Watches :
      (k : Clock) (r : Routes) (now : ℕ) (b : Bonding) → Watches b (balance_round x k r now b)
  unfolding balance_round
  balance_round-Watches k r now b =
      let delta = k.msecs_to_jiffies b.params.arp_interval in
      let (again, c) = balance_each k r now delta b.curr_active_slave b.slaves b in
      Watches-trans (balance_each-Watches k r now delta b.curr_active_slave b.slaves b)
        (either-Watches again (select-Watches now c) (Watches-refl c))

  stopped :
      (t : Bool) (r : Bool) (b c : Bonding)
      → Watches b c
      → Watches b (if◌then◌else◌ {A = Bool × Bonding} t (false, b) (r, c)).1
  stopped true r b c h = Watches-refl b
  stopped false r b c h = h

  -- On a well-formed bond, each round of `bond_loadbalance_arp_mon` and of `bond_activebackup_arp_mon`
  -- keeps the slave list, the parameters, the primary slave, the packet buffer and the devices'
  -- identity, and keeps the bond well-formed, whatever the clock and the routes are.
  pub arp_monitors-Watches :
      (k : Clock) (r : Routes) (now : ℕ) (b : Bonding)
      → IsWellFormed b
      → Watches b (loadbalance_arp_mon x k r now b).1
        × Watches b (activebackup_arp_mon x k r now b).1
  unfolding loadbalance_arp_mon activebackup_arp_mon
  arp_monitors-Watches k r now b w = (
    stopped b.kill_timers (not (b.params.arp_interval == 0)) b _
        (either-Watches (no_slaves b) (Watches-refl b) (balance_round-Watches k r now b)),
    stopped b.kill_timers (not (b.params.arp_interval == 0)) b _
        (either-Watches (no_slaves b) (Watches-refl b) (round-Watches k r now b w)),
  )

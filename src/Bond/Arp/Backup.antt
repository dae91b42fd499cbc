-- ===== src/Bond/Arp/Backup.antt =====
-- The ARP monitor of active-backup mode, 27/bond_main.c: bond_ab_arp_inspect,
-- bond_ab_arp_commit, bond_ab_arp_probe and bond_activebackup_arp_mon.
use hoolock.Common.{
  ℕ, ◌+◌, ◌*◌, List, [], ◌∷◌, Bool, true, false, ◌&&◌, ◌||◌, not, Option, none, some, is_some,
  if◌then◌else◌, ◌==◌, same,
}
use hoolock.Bond.State.{Bonding, Slave, LinkState, link_up, link_down, link_back}
use hoolock.Bond.Slaves.{
  is_up, is_link_up, is_active, edit, from, each_from, first_slave, set_slave_inactive_flags,
  set_slave_active_flags,
}
use hoolock.Bond.Active.{
  Extern, set_carrier, change_active_slave, select_active_slave, send_gratuitous_arp,
}
use hoolock.Bond.Vlans.{no_slaves}
use hoolock.Bond.Monitor.{count_failure}
use hoolock.Bond.Arp.{Clock, Routes, slave_last_rx, arp_send_all}

-- The body of `bond_ab_arp_inspect` for one slave: true if a change is due.
unfoldable pub ab_inspect_slave : Clock → ℕ → ℕ → Bonding → Slave → Bool × Slave
ab_inspect_slave k now delta b s₀ =
    let s = record s₀ { new_link = none } in
    let rx = slave_last_rx b s in
    let backup_lost =
      not (is_active s.state)
      && not (is_some b.current_arp_slave)
      && k.time_after now (rx + 3 * delta) in
    let active_lost =
      is_active s.state
      && (k.time_after_eq now (s.dev.trans_start + 2 * delta)
          || k.time_after_eq now (rx + 2 * delta)) in
    if not (is_link_up s.link)
    then (if k.time_before_eq now (rx + delta)
        then (true, record s { new_link = some link_up })
        else (false, s))
    else if not (k.time_after_eq now (s.jiffies + 2 * delta))
    then (false, s)
    else if backup_lost || active_lost
    then (true, record s { new_link = some link_down })
    else (false, s)

unfoldable pub ab_inspect_each : Clock → ℕ → ℕ → List ℕ → Bonding → ℕ × Bonding
unfolding ab_inspect_slave
ab_inspect_each k now delta [] b = (0, b)
ab_inspect_each k now delta (p ∷ ps) b =
    let (due, s) = ab_inspect_slave k now delta b (b.mem p) in
    let (n, c) = ab_inspect_each k now delta ps (edit p (λ _. s) b) in (if due then n + 1 else n, c)

-- The primary slave is up and not the active one.
unfoldable pub primary_waits : Bonding → Bool
primary_waits b = elim b.primary_slave [
  | none ↦ false
  | some q ↦ not (same (some q) b.curr_active_slave) && is_link_up (b.mem q).link
]

-- `bond_ab_arp_inspect`.
unfoldable pub ab_inspect : Clock → ℕ → ℕ → Bonding → ℕ × Bonding
unfolding ab_inspect_each primary_waits
ab_inspect k now delta b =
    let (n, c) = ab_inspect_each k now delta b.slaves b in (if primary_waits c then n + 1 else n, c)

abbrev pub drop_candidate : Bonding → Bonding
drop_candidate b = record b { current_arp_slave = none }

abbrev pub stamp_active : ℕ → Option ℕ → Bonding → Bonding
stamp_active now none b = b
stamp_active now (some q) b = edit q (λ s. record s { jiffies = now }) b

-- The body of `bond_ab_arp_commit` for one slave, by its `new_link`.
unfoldable pub ab_commit_link : Extern → Clock → ℕ → ℕ → ℕ → Option LinkState → Bonding → Bonding
ab_commit_link x k now delta p (some link_up) b =
    let b₁ = edit p (λ s. record s { link = link_up }) b in
    if not (is_some b.curr_active_slave) && k.time_before_eq now ((b.mem p).dev.trans_start + delta)
    then drop_candidate (change_active_slave x now (some p) b₁)
    else if same b.curr_active_slave (some p)
    then b
    else drop_candidate (edit p (set_slave_inactive_flags b) b₁)
ab_commit_link x k now delta p (some link_down) b =
    let b₁ =
      edit p
        (λ s. record s {
          link_failure_count = count_failure s.link_failure_count;
          link = link_down;
        })
        b in
    let b₂ = edit p (set_slave_inactive_flags b) b₁ in
    let c = select_active_slave x now b₂ in
    if same b.curr_active_slave (some p)
    then drop_candidate (stamp_active now c.curr_active_slave c)
    else if is_active (b.mem p).state
    then b₁
    else b₂
ab_commit_link x k now delta p _ b = b

unfoldable pub ab_commit_each : Extern → Clock → ℕ → ℕ → List ℕ → Bonding → Bonding
unfolding ab_commit_link
ab_commit_each x k now delta [] b = b
ab_commit_each x k now delta (p ∷ ps) b =
    ab_commit_each x k now delta ps (ab_commit_link x k now delta p (b.mem p).new_link b)

-- `bond_ab_arp_commit`.
unfoldable pub ab_commit : Extern → Clock → ℕ → ℕ → Bonding → Bonding
unfolding ab_commit_each primary_waits
ab_commit x k now delta b =
    let b₁ = ab_commit_each x k now delta b.slaves b in
    let b₂ = if primary_waits b₁ then change_active_slave x now b₁.primary_slave b₁ else b₁ in
    (set_carrier x b₂).1

-- A slave that is passed over in the search of `bond_ab_arp_probe`.
abbrev pub passed_over : ℕ → Bonding → Bonding
passed_over p b =
    if is_link_up (b.mem p).link
    then edit p
        (λ s.
          set_slave_inactive_flags b (record s {
            link = link_down;
            link_failure_count = count_failure s.link_failure_count;
          }))
        b
    else b

-- The new candidate.
abbrev pub candidate : Routes → ℕ → ℕ → Bonding → Bonding
candidate r now p b =
    let b₁ = edit p (λ s. set_slave_active_flags (record s { link = link_back })) b in
    let b₂ = arp_send_all r p b₁ in
    record (edit p (λ s. record s { jiffies = now }) b₂) { current_arp_slave = some p }

unfoldable pub search_from : Routes → ℕ → List ℕ → Bonding → Bonding
search_from r now [] b = b
search_from r now (p ∷ ps) b =
    let rest = search_from r now ps (passed_over p b) in
    if is_up (b.mem p).dev then candidate r now p b else rest

-- `p->next`.
abbrev pub head_or : ℕ → List ℕ → ℕ
head_or p [] = p
head_or p (x ∷ xs) = x

unfoldable pub next_slave : ℕ → List ℕ → ℕ
unfolding from
next_slave p xs = elim (from p xs) [
  | [] ↦ head_or p xs
  | y ∷ ys ↦ elim ys [ [] ↦ head_or p xs | z ∷ zs ↦ z ]
]

unfoldable pub probe_from : Routes → ℕ → Option ℕ → Bonding → Bonding
unfolding search_from next_slave each_from
probe_from r now none b = b
probe_from r now (some p) b =
    search_from r now (each_from (next_slave p b.slaves) b.slaves)
      (edit p (set_slave_inactive_flags b) (record b { current_arp_slave = some p }))

-- `bond_ab_arp_probe`.
unfoldable pub ab_probe : Routes → ℕ → Bonding → Bonding
unfolding probe_from
ab_probe r now b = elim b.curr_active_slave [
  | some q ↦ arp_send_all r q b
  | none ↦ probe_from r now (elim b.current_arp_slave [ some p ↦ some p | none ↦ first_slave b ]) b
]

unfoldable pub ab_round : Extern → Clock → Routes → ℕ → Bonding → Bonding
unfolding ab_inspect ab_commit ab_probe
ab_round x k r now b =
    let delta = k.msecs_to_jiffies b.params.arp_interval in
    let b₁ = if b.send_grat_arp == 0 then b else send_gratuitous_arp b in
    let (n, b₂) = ab_inspect k now delta b₁ in
    ab_probe r now (if n == 0 then b₂ else ab_commit x k now delta b₂)

-- `bond_activebackup_arp_mon`: true if it queues itself again.
unfoldable pub activebackup_arp_mon : Extern → Clock → Routes → ℕ → Bonding → Bool × Bonding
unfolding ab_round
activebackup_arp_mon x k r now b =
    if b.kill_timers
    then (false, b)
    else (not (b.params.arp_interval == 0), if no_slaves b then b else ab_round x k r now b)

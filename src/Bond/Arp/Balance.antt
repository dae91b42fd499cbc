-- ===== src/Bond/Arp/Balance.antt =====
-- bond_loadbalance_arp_mon of 27/bond_main.c.
use hoolock.Common.{
  ℕ, ◌+◌, ◌*◌, List, [], ◌∷◌, Bool, false, ◌&&◌, ◌||◌, not, Option, some, is_some, if◌then◌else◌,
  ◌==◌, same,
}
use hoolock.Bond.State.{Bonding, Slave, link_up, link_down, active, backup}
use hoolock.Bond.Slaves.{is_up, is_link_up, edit}
use hoolock.Bond.Active.{Extern, select_active_slave}
use hoolock.Bond.Vlans.{no_slaves}
use hoolock.Bond.Monitor.{count_failure}
use hoolock.Bond.Arp.{Clock, Routes, arp_send_all}

-- The link of a slave: true if the active slave is to be chosen again. `old` is the active slave
-- before the loop, `delta` is `delta_in_ticks`.
unfoldable pub balance_link : Clock → ℕ → ℕ → Option ℕ → ℕ → Slave → Bool × Slave
balance_link k now delta old p s =
    let alive =
      k.time_before_eq now (s.dev.trans_start + delta)
      && k.time_before_eq now (s.dev.last_rx + delta) in
    let silent =
      k.time_after_eq now (s.dev.trans_start + 2 * delta)
      || k.time_after_eq now (s.dev.last_rx + 2 * delta) in
    if is_link_up s.link
    then (if silent
        then (
          same (some p) old,
          record s {
            link = link_down;
            state = backup;
            link_failure_count = count_failure s.link_failure_count;
          },
        )
        else (false, s))
    else if alive
    then (not (is_some old), record s { link = link_up; state = active })
    else (false, s)

unfoldable pub balance_each : Clock → Routes → ℕ → ℕ → Option ℕ → List ℕ → Bonding → Bool × Bonding
unfolding balance_link
balance_each k r now delta old [] b = (false, b)
balance_each k r now delta old (p ∷ ps) b =
    let (again, s) = balance_link k now delta old p (b.mem p) in
    let b₁ = edit p (λ _. s) b in
    let b₂ = if is_up s.dev then arp_send_all r p b₁ else b₁ in
    let (later, c) = balance_each k r now delta old ps b₂ in (again || later, c)

unfoldable pub balance_round : Extern → Clock → Routes → ℕ → Bonding → Bonding
unfolding balance_each
balance_round x k r now b =
    let delta = k.msecs_to_jiffies b.params.arp_interval in
    let (again, c) = balance_each k r now delta b.curr_active_slave b.slaves b in
    if again then select_active_slave x now c else c

-- `bond_loadbalance_arp_mon`: true if it queues itself again.
unfoldable pub loadbalance_arp_mon : Extern → Clock → Routes → ℕ → Bonding → Bool × Bonding
unfolding balance_round
loadbalance_arp_mon x k r now b =
    if b.kill_timers
    then (false, b)
    else (not (b.params.arp_interval == 0), if no_slaves b then b else balance_round x k r now b)

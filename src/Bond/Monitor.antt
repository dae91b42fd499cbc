-- ===== src/Bond/Monitor.antt =====
-- The MII link monitor of 27/bond_main.c: bond_check_dev_link, bond_miimon_inspect,
-- bond_miimon_commit and bond_mii_monitor.
pub mod Debounce
pub mod Commit
pub mod Failover
pub mod Inspect
use hoolock.Common.{
  ℕ, ◌+◌, ◌-◌, ◌^◌, List, [], ◌∷◌, Bool, true, false, not, ◌||◌, Option, none, some, if◌then◌else◌,
  ◌==◌, ltb, same,
}
use hoolock.Bond.State.{
  Bonding, Slave, NetDevice, Params, Mode, active_backup, lacp, tlb, alb, LinkState, link_up,
  link_fail, link_down, link_back, active, backup,
}
use hoolock.Bond.Slaves.{edit, set_slave_inactive_flags}
use hoolock.Bond.Active.{Extern, link_change, select_active_slave, set_carrier, send_gratuitous_arp}

-- What a device's driver answers: the MII registers and `get_link`, where it has them.
pub record Drivers : Type 0 where
  pub mii_link : NetDevice → Option Bool
  pub get_link : NetDevice → Option Bool

-- `bond_check_dev_link`: `none` is the -1 that is returned where `reporting` is set.
unfoldable pub ask_driver : Drivers → NetDevice → Bool → Option Bool
ask_driver v d reporting = elim (v.mii_link d) [
  | some up ↦ some up
  | none ↦ elim (v.get_link d) [ some up ↦ some up | none ↦ if reporting then none else some true ]
]

unfoldable pub check_dev_link : Drivers → Params → NetDevice → Bool → Option Bool
unfolding ask_driver
check_dev_link v ps d reporting =
    if ps.use_carrier then some d.carrier else ask_driver v d reporting

abbrev pub is_linked : Option Bool → Bool
is_linked (some up) = up
is_linked none = true

-- The counting down that ends the cases of `bond_miimon_inspect`: true if the change is due.
abbrev pub count_down : LinkState → Slave → Bool × Slave
count_down l s =
    if s.delay == 0
    then (true, record s { new_link = some l })
    else (false, record s { delay = s.delay - 1 })

-- The body of `bond_miimon_inspect` for one slave, by its link before.
unfoldable pub inspect_link : Params → ℕ → LinkState → Bool → Slave → Bool × Slave
inspect_link ps now link_up true s = (false, s)
inspect_link ps now link_up false s =
    count_down link_down (record s { link = link_fail; delay = ps.downdelay })
inspect_link ps now link_fail true s = (false, record s { link = link_up; jiffies = now })
inspect_link ps now link_fail false s = count_down link_down s
inspect_link ps now link_down false s = (false, s)
inspect_link ps now link_down true s =
    count_down link_up (record s { link = link_back; delay = ps.updelay })
inspect_link ps now link_back false s = (false, record s { link = link_down })
inspect_link ps now link_back true s = count_down link_up s

unfoldable pub inspect_slave : Params → ℕ → Bool → Slave → Bool × Slave
unfolding inspect_link
inspect_slave ps now up s = inspect_link ps now s.link up (record s { new_link = none })

-- The loop of `bond_miimon_inspect`: the number of changes that are due.
unfoldable pub inspect_each : Drivers → ℕ → List ℕ → Bonding → ℕ × Bonding
unfolding inspect_slave check_dev_link
inspect_each v now [] b = (0, b)
inspect_each v now (p ∷ ps) b =
    let up = is_linked (check_dev_link v b.params (b.mem p).dev false) in
    let (due, s) = inspect_slave b.params now up (b.mem p) in
    let (n, c) = inspect_each v now ps (edit p (λ _. s) b) in (if due then n + 1 else n, c)

unfoldable pub inspect : Drivers → ℕ → Bonding → ℕ × Bonding
unfolding inspect_each
inspect v now b = inspect_each v now b.slaves b

-- The state that a slave has whose link came up.
unfoldable pub came_up : Mode → Bool → Slave → Slave
came_up lacp is_primary s = record s { state = backup }
came_up active_backup is_primary s = if is_primary then s else record s { state = backup }
came_up _ is_primary s = record s { state = active }

-- `link_failure_count` stops at UINT_MAX.
abbrev pub count_failure : ℕ → ℕ
count_failure n = if ltb n (2 ^ 32 - 1) then n + 1 else n

-- The flags of a slave whose link went down.
unfoldable pub went_down : Mode → ℕ → Bonding → Bonding
went_down active_backup p b = edit p (set_slave_inactive_flags b) b
went_down lacp p b = edit p (set_slave_inactive_flags b) b
went_down _ p b = b

-- The body of `bond_miimon_commit` for one slave, by its `new_link`.
unfoldable pub commit_link : Extern → ℕ → ℕ → Option LinkState → Bonding → Bonding
unfolding came_up went_down
commit_link x now p none b = b
commit_link x now p (some link_up) b =
    let b₁ =
      edit p
        (λ s.
          came_up b.params.mode (same (some p) b.primary_slave)
            (record s { link = link_up; jiffies = now }))
        b in
    let b₂ = link_change x b.params.mode p link_up b₁ in
    if same b₂.curr_active_slave none || same (some p) b₂.primary_slave
    then select_active_slave x now b₂
    else b₂
commit_link x now p (some link_down) b =
    let b₁ =
      edit p
        (λ s. record s {
          link_failure_count = count_failure s.link_failure_count;
          link = link_down;
        })
        b in
    let b₂ = link_change x b.params.mode p link_down (went_down b.params.mode p b₁) in
    if same (some p) b₂.curr_active_slave then select_active_slave x now b₂ else b₂
commit_link x now p (some _) b = edit p (λ s. record s { new_link = none }) b

unfoldable pub commit_each : Extern → ℕ → List ℕ → Bonding → Bonding
unfolding commit_link
commit_each x now [] b = b
commit_each x now (p ∷ ps) b = commit_each x now ps (commit_link x now p (b.mem p).new_link b)

-- `bond_miimon_commit`.
unfoldable pub commit : Extern → ℕ → Bonding → Bonding
unfolding commit_each
commit x now b = (set_carrier x (commit_each x now b.slaves b)).1

-- The part of `bond_mii_monitor` for a bond with slaves.
unfoldable pub mii_round : Extern → Drivers → ℕ → Bonding → Bonding
unfolding inspect commit
mii_round x v now b =
    let b₁ = if b.send_grat_arp == 0 then b else send_gratuitous_arp b in
    let (due, b₂) = inspect v now b₁ in if due == 0 then b₂ else commit x now b₂

unfoldable pub mii_unless_empty : Extern → Drivers → ℕ → List ℕ → Bonding → Bonding
unfolding mii_round
mii_unless_empty x v now [] b = b
mii_unless_empty x v now (p ∷ ps) b = mii_round x v now b

-- `bond_mii_monitor`: true if it queues itself again.
unfoldable pub mii_monitor : Extern → Drivers → ℕ → Bonding → Bool × Bonding
unfolding mii_unless_empty
mii_monitor x v now b =
    if b.kill_timers
    then (false, b)
    else (not (b.params.miimon == 0), mii_unless_empty x v now b.slaves b)

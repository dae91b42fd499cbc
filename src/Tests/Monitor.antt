-- ===== src/Tests/Monitor.antt =====
-- The link monitor at concrete inputs.
use hoolock.Common.{◌≢◌, refl, [], ◌∷◌, true, false, some, arith}
use hoolock.Bond.State.{hoolock_mode, link_up, link_down}
use hoolock.Bond.Monitor.{commit_link}
use hoolock.Bond.Monitor.Debounce.{
  Losing, Returning, run, inspect_slave-Losing, inspect_slave-Returning,
}
use hoolock.Bond.Monitor.Failover.{commit_link-failover}
use hoolock.Tests.Samples.{bond, slave, params, extern, extern-ExternLaws}

inspect_slave-Losing_example :
    Losing
      (params hoolock_mode)
      2
      9
      (run (params hoolock_mode) false (7 ∷ 8 ∷ []) (slave 100 link_up))
inspect_slave-Losing_example =
    inspect_slave-Losing (params hoolock_mode) (7 ∷ 8 ∷ []) 9 (slave 100 link_up) refl (omega arith)

inspect_slave-Returning_example :
    Returning
      (params hoolock_mode)
      1
      9
      (run (params hoolock_mode) true (7 ∷ []) (slave 100 link_down))
inspect_slave-Returning_example =
    inspect_slave-Returning (params hoolock_mode) (7 ∷ []) 9 (slave 100 link_down) refl
      (omega arith)

commit_link-failover_example :
    (commit_link extern 7 10 (some link_down) bond).curr_active_slave ≢ some 10
commit_link-failover_example = commit_link-failover extern extern-ExternLaws 7 bond 10 refl refl

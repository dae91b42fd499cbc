-- ===== src/HardClient.antt =====
-- src/hard_client.cc: the client that breaks the one pipe before it makes the other.
pub mod Exclusive
pub mod Rounds
use hoolock.Common.{
  ℕ, ◌+◌, ◌-◌, ◌%◌, List, [], ◌∷◌, ◌++◌, Bool, true, false, ◌&&◌, if◌then◌else◌, ◌==◌, ℤ, pos,
  negsuc,
}
use hoolock.Plumber.{Serving, serve}
use hoolock.Client.Calls.{
  RanIn, goes, stops, exits, in_child, Visit, connection, make_command, break_command,
}
use hoolock.Client.{need}

-- The variables of `main` in its loop, the plumber, and the arguments of `kill`.
pub record Host : Type 0 where
  pub plumber : Serving
  pub act_ch : ℕ
  pub pas_ch : ℕ
  pub iperf_pid : ℤ
  pub kills : List ℤ

-- `'1' + '0' - act_ch`, in a `char`.
abbrev pub other_ch : ℕ → ℕ
other_ch c = (353 - c) % 256

-- What a round meets.
pub record HardRound : Type 0 where
  pub output_socket : Bool
  pub output_connects : Bool
  pub forked : ℤ
  pub key : ℕ
  pub break_visit : Visit
  pub make_visit : Visit

abbrev pub note_passive : Host → RanIn Host
note_passive h = goes (record h { pas_ch = other_ch h.act_ch })

abbrev pub spawn_iperf : ℤ → Host → RanIn Host
spawn_iperf (pos n) h =
    if n == 0
    then stops in_child (record h { iperf_pid = pos 0 })
    else goes (record h { iperf_pid = pos n })
spawn_iperf (negsuc n) h = goes (record h { iperf_pid = negsuc n })

abbrev pub end_iperf : Host → Host
end_iperf h = record h { kills = h.iperf_pid ∷ h.kills }

abbrev pub quits_hard : ℕ → Host → RanIn Host
quits_hard key h = if key == 113 then stops (exits (pos 0)) (end_iperf h) else goes h

abbrev pub tell_hard : Visit → List ℕ → Host → RanIn Host
tell_hard v cmd h =
    if v.socket_ok && v.connects
    then goes (record h { plumber = serve (connection v cmd ∷ []) h.plumber })
    else stops (exits (pos 1)) h

abbrev pub turn : Host → RanIn Host
turn h = goes (record h { act_ch = other_ch h.act_ch })

-- One round of `while(1)`.
abbrev pub hard_round : HardRound → List (Host → RanIn Host)
hard_round r =
    note_passive
    ∷ need (pos 1) r.output_socket
    ∷ need (pos 1) r.output_connects
    ∷ spawn_iperf r.forked
    ∷ quits_hard r.key
    ∷ (λ h. tell_hard r.break_visit (break_command h.act_ch) h)
    ∷ (λ h. tell_hard r.make_visit (make_command h.pas_ch) h)
    ∷ turn
    ∷ (λ h. goes (end_iperf h))
    ∷ []

-- The rounds that `main` is given.
unfoldable pub hard_rounds : List HardRound → List (Host → RanIn Host)
hard_rounds [] = []
hard_rounds (r ∷ rs) = hard_round r ++ hard_rounds rs

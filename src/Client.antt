-- ===== src/Client.antt =====
-- src/hoolock_client.cc: the client that moves a host from one slave to the other.
pub mod Mac
pub mod Message
pub mod Socket
pub mod Calls
pub mod Sequence
pub mod Linked
pub mod Stages
pub mod Moves
pub mod Tells
pub mod Handover
pub mod Rounds
pub mod Start
use hoolock.Common.{
  ℕ, List, [], ◌∷◌, ◌++◌, Bool, true, false, ◌==◌, ltb, if◌then◌else◌, byte, ℤ, pos, negsuc,
}
use hoolock.Bond.State.{Bonding, SkBuff}
use hoolock.Bond.Active.{Extern}
use hoolock.Net.Receive.{Network}
use hoolock.Ioctl.{Reply, get_active, get_passive, hoolock_make, hoolock_break}
use hoolock.Client.Message.{make_req, make_ack, break_req, break_ack}
use hoolock.Client.Calls.{
  World, Ran, RanIn, goes, stops, exits, in_child, minus_one, name_in, ask, Visit, tell_plumber,
  make_command, break_command, Exchange, tell_nox, hear_nox,
}

-- A statement of `main`, and several of them.
abbrev pub Statement : Type 0
Statement = World → Ran

abbrev pub ran : {W : Type 0} → RanIn W → (W → RanIn W) → RanIn W
ran (goes w) f = f w
ran (stops t w) f = stops t w

unfoldable pub run : {W : Type 0} → List (W → RanIn W) → W → RanIn W
run [] w = goes w
run (s ∷ ss) w = ran (s w) (run ss)

-- The states behind the statements that are reached.
abbrev pub visited : {W : Type 0} → RanIn W → (W → List W) → List W
visited (goes w) f = w ∷ f w
visited (stops t w) f = w ∷ []

unfoldable pub visits : {W : Type 0} → List (W → RanIn W) → W → List W
visits [] w = []
visits (s ∷ ss) w = visited (s w) (visits ss)

-- An answer without which `main` ends with a status.
abbrev pub need : {W : Type 0} → ℤ → Bool → W → RanIn W
need status b w = if b then goes w else stops (exits status) w

-- The answer of `inet_pton`: 1 for an address.
abbrev pub is_address : ℤ → Bool
is_address (pos n) = ltb 0 n
is_address (negsuc n) = false

-- What the program meets before its loop.
pub record Opening : Type 0 where
  pub argc : ℕ
  pub socket_ok : Bool
  pub hwaddr_ok : Bool
  pub nox_address : ℤ
  pub nox_socket : Bool
  pub nox_connects : Bool
  pub plumber_address : ℤ
  pub visit : Visit
  pub output_address : ℤ

-- What it meets in one round of its loop. `others` is what the driver does before each of the
-- client's calls, numbered from 0: packets, monitors, and other ioctls.
pub record Round : Type 0 where
  pub output_socket : Bool
  pub output_connects : Bool
  pub forked : ℤ
  pub key : ℕ
  pub make_exchange : Exchange
  pub make_visit : Visit
  pub break_exchange : Exchange
  pub break_visit : Visit
  pub net : SkBuff → Network
  pub now : ℕ
  pub others : ℕ → Bonding → Bonding

abbrev pub set_active : Reply → World → World
set_active r w = record w { act_slave = name_in r w.act_slave }

abbrev pub set_passive : Reply → World → World
set_passive r w = record w { pas_slave = name_in r w.pas_slave }

abbrev pub set_nothing : Reply → World → World
set_nothing r w = w

-- `iperf_pid = fork()`.
abbrev pub spawn : ℤ → Statement
spawn (pos n) w =
    if n == 0
    then stops in_child (record w { iperf_pid = pos 0 })
    else goes (record w { iperf_pid = pos n })
spawn (negsuc n) w = goes (record w { iperf_pid = negsuc n })

-- `kill(iperf_pid, 9)`.
abbrev pub kill_iperf : World → World
kill_iperf w = record w { kills = w.iperf_pid ∷ w.kills }

-- 'q'.
abbrev pub quits : ℕ → Statement
quits key w = if key == 113 then stops (exits (pos 0)) (kill_iperf w) else goes w

abbrev pub meanwhile : (Bonding → Bonding) → Statement
meanwhile f w = goes (record w { bond = f w.bond })

-- The statements before the loop; the hardware address is read by the third.
unfoldable pub opening : Extern → (SkBuff → Network) → ℕ → Opening → List Statement
unfolding ask tell_plumber
opening x net now o =
    need minus_one (ltb 1 o.argc)
    ∷ need minus_one o.socket_ok
    ∷ need minus_one o.hwaddr_ok
    ∷ need (pos 1) (is_address o.nox_address)
    ∷ need (pos 1) o.nox_socket
    ∷ need (pos 1) o.nox_connects
    ∷ need (pos 1) (is_address o.plumber_address)
    ∷ ask x net now get_active set_active
    ∷ (λ w. tell_plumber o.visit (make_command (byte w.act_slave 3)) w)
    ∷ need (pos 1) (is_address o.output_address)
    ∷ []

-- One round of `while(1)`: up to the key, the make, and the break.
abbrev pub prepare : Extern → Round → List Statement
prepare x r =
    need (pos 1) r.output_socket
    ∷ need (pos 1) r.output_connects
    ∷ spawn r.forked
    ∷ meanwhile (r.others 0)
    ∷ ask x r.net r.now get_active set_active
    ∷ meanwhile (r.others 1)
    ∷ ask x r.net r.now get_passive set_passive
    ∷ quits r.key
    ∷ []

abbrev pub make_part : Extern → List ℕ → Round → List Statement
make_part x mac r =
    tell_nox r.make_exchange mac make_req
    ∷ hear_nox r.make_exchange make_ack
    ∷ (λ w. tell_plumber r.make_visit (make_command (byte w.pas_slave 3)) w)
    ∷ meanwhile (r.others 2)
    ∷ ask x r.net r.now hoolock_make set_nothing
    ∷ []

abbrev pub before_break : List ℕ → Round → List Statement
before_break mac r =
    meanwhile (r.others 3)
    ∷ tell_nox r.break_exchange mac break_req
    ∷ hear_nox r.break_exchange break_ack
    ∷ meanwhile (r.others 4)
    ∷ []

abbrev pub from_break : Extern → Round → List Statement
from_break x r =
    ask x r.net r.now hoolock_break set_nothing
    ∷ (λ w. tell_plumber r.break_visit (break_command (byte w.act_slave 3)) w)
    ∷ (λ w. goes (kill_iperf w))
    ∷ []

abbrev pub break_part : Extern → List ℕ → Round → List Statement
break_part x mac r = before_break mac r ++ from_break x r

-- The statements of a round up to the ioctl of the break.
abbrev pub up_to_break : Extern → List ℕ → Round → List Statement
up_to_break x mac r = prepare x r ++ (make_part x mac r ++ before_break mac r)

unfoldable pub round : Extern → List ℕ → Round → List Statement
round x mac r = prepare x r ++ (make_part x mac r ++ break_part x mac r)

-- `main`, for the rounds that it is given.
unfoldable pub rounds : Extern → List ℕ → List Round → List Statement
unfolding round
rounds x mac [] = []
rounds x mac (r ∷ rs) = round x mac r ++ rounds x mac rs

-- ===== src/Client/Calls.antt =====
-- What src/hoolock_client.cc acts on: its own variables, the bonding driver of 27/bond_main.c
-- behind its ioctls, the plumber of src/plumb.c and the controller at the ends of its sockets.
use hoolock.Common.{
  ℕ, List, [], ◌∷◌, ◌++◌, Bool, true, false, ◌&&◌, none, some, if◌then◌else◌, ◌==◌, take, ℤ, pos,
  negsuc,
}
use hoolock.Bond.State.{Bonding, SkBuff, Status, ok, efailed}
use hoolock.Bond.Active.{Extern}
use hoolock.Net.Receive.{Network}
use hoolock.Ioctl.{
  Command, Request, Reply, slave_reply, Result, returned, returned_locked, null_read, endless,
  goes_on, do_ioctl,
}
use hoolock.Plumber.{Connection, Serving, serve}
use hoolock.Client.Message.{HoolockCmd, msg_size, code, request, as_msg}
use hoolock.Client.Socket.{
  Writing, sent, write_blocks, write_outside, write_all, Reading, received, read_blocks,
  read_outside, read_all,
}

-- `iperf_pid` and the two names are variables of `main`; `nox_out` are the bytes that the
-- controller has been sent and `nox_in` those that it sends; `kills` are the arguments of `kill`.
pub record World : Type 0 where
  pub bond : Bonding
  pub plumber : Serving
  pub act_slave : List ℕ
  pub pas_slave : List ℕ
  pub iperf_pid : ℤ
  pub nox_in : List ℕ
  pub nox_out : List ℕ
  pub kills : List ℤ

-- How `main` stops: with a status; as the child of its `fork`; in a call that does not return; with
-- an access outside of a message; or in the driver, by a read through NULL or without an end.
pub data Stop : Type 0 where
  exits : ℤ → Stop
  in_child blocks overruns driver_null driver_endless : Stop

-- What a statement does: `main` goes on, or it stops.
pub data RanIn (W : Type 0) : Type 0 where
  goes : W → RanIn W
  stops : Stop → W → RanIn W

abbrev pub Ran : Type 0
Ran = RanIn World

-- `return -1`.
abbrev pub minus_one : ℤ
minus_one = negsuc 0

-- `ioctl(...) < 0`: NET_RX_DROP, which the break can pass on, is 1.
abbrev pub is_error : Status → Bool
is_error ok = false
is_error efailed = false
is_error _ = true

-- The name that a reply carries in `ifr_data`.
abbrev pub name_in : Reply → List ℕ → List ℕ
name_in (slave_reply i) old = i.slave_name
name_in _ old = old

abbrev pub checked : Status → Ran → World → Ran
checked st r w = if is_error st then stops (exits minus_one) w else r

-- An ioctl, with what the client does with the reply.
abbrev pub answered : (Reply → World → World) → Result → World → Ran
answered f (returned st reply b) w =
    checked st (goes (f reply (record w { bond = b }))) (record w { bond = b })
answered f (returned_locked st b) w =
    checked st (goes (record w { bond = b })) (record w { bond = b })
answered f null_read w = stops driver_null w
answered f endless w = stops driver_endless w
answered f (goes_on b) w = goes (record w { bond = b })

-- The requests of the client come with its own memory behind `ifr_data`, which can be copied.
abbrev pub plain : Request
plain = record { mii_reg_num = none; copies_in = true; copies_out = true; slave_id = pos 0 }

unfoldable pub ask :
    Extern → (SkBuff → Network) → ℕ → Command → (Reply → World → World) → World → Ran
unfolding do_ioctl
ask x net now c f w = answered f (do_ioctl x net now c plain w.bond) w

-- One visit to the plumber: the answers of `socket` and `connect`, the length of the command that
-- gets there, and how the plumber fares.
pub record Visit : Type 0 where
  pub socket_ok : Bool
  pub connects : Bool
  pub delivered : ℕ
  pub accepted : Bool
  pub read_ok : Bool
  pub forked : ℤ
  pub written : Bool

abbrev pub connection : Visit → List ℕ → Connection
connection v cmd = record {
  accepted = v.accepted;
  command_in = (if v.read_ok then some (take v.delivered cmd) else none);
  forked = v.forked;
  written = v.written;
}

-- A command to the plumber: "make x" or "break x" with the character at its place.
unfoldable pub tell_plumber : Visit → List ℕ → World → Ran
unfolding serve take
tell_plumber v cmd w =
    if v.socket_ok && v.connects
    then goes (record w { plumber = serve (connection v cmd ∷ []) w.plumber })
    else stops (exits (pos 1)) w

-- "make " and "break ".
abbrev pub make_command : ℕ → List ℕ
make_command c = 109 ∷ 97 ∷ 107 ∷ 101 ∷ 32 ∷ c ∷ []

abbrev pub break_command : ℕ → List ℕ
break_command c = 98 ∷ 114 ∷ 101 ∷ 97 ∷ 107 ∷ 32 ∷ c ∷ []

-- One exchange with the controller: the byte that the separator of the request holds, and the
-- answers of `write` and `read`.
pub record Exchange : Type 0 where
  pub junk : ℕ
  pub writes : List ℤ
  pub reads : List ℤ

abbrev pub after_writing : Writing → World → Ran
after_writing (sent bs) w = goes (record w { nox_out = w.nox_out ++ bs })
after_writing (write_blocks bs) w = stops blocks (record w { nox_out = w.nox_out ++ bs })
after_writing (write_outside bs) w = stops overruns (record w { nox_out = w.nox_out ++ bs })

-- A request to the controller.
unfoldable pub tell_nox : Exchange → List ℕ → HoolockCmd → World → Ran
unfolding request write_all
tell_nox e mac c w = after_writing (write_all (request e.junk mac c) 0 e.writes) w

-- The answer has to be `c`.
abbrev pub after_reading : HoolockCmd → Reading → World → Ran
after_reading c (received bs more) w =
    if (as_msg bs).cmd == code c
    then goes (record w { nox_in = more })
    else stops (exits minus_one) (record w { nox_in = more })
after_reading c read_blocks w = stops blocks w
after_reading c read_outside w = stops overruns w

-- `bzero`.
abbrev pub zeros : List ℕ
zeros =
    0 ∷ 0 ∷ 0 ∷ 0 ∷ 0 ∷ 0 ∷ 0 ∷ 0 ∷ 0 ∷ 0 ∷ 0 ∷ 0 ∷ 0 ∷ 0 ∷ 0 ∷ 0 ∷ 0 ∷ 0 ∷ 0 ∷ 0 ∷ 0 ∷ 0 ∷ 0 ∷ 0
    ∷ 0 ∷ []

unfoldable pub hear_nox : Exchange → HoolockCmd → World → Ran
unfolding read_all as_msg
hear_nox e c w = after_reading c (read_all msg_size zeros 0 w.nox_in e.reads) w

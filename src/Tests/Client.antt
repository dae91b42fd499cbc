-- ===== src/Tests/Client.antt =====
-- The client and the plumber at concrete inputs.
use hoolock.Common.{
  ℕ, ◌≡◌, refl, List, [], ◌∷◌, ◌++◌, true, false, some, arith, inl, inr, pos, negsuc, All, map,
}
use Prim.Native.Nat.{compare, Ordering}
use hoolock.Bond.State.{Bonding, Slave, link_up}
use hoolock.Plumber.{Plumber, start, command, serve, serve_one, listening, starts_with}
use hoolock.Plumber.Pipes.{IsTidy, AllFork, of_serving, serve-start}
use hoolock.Plumber.Ports.{Serves, wanted_after, smooths, serve-wanted}
use hoolock.Client.Calls.{World, Visit, Exchange, goes, make_command, break_command}
use hoolock.Client.Message.{request, as_msg, make_req, msg_size, code, hoolock_id}
use hoolock.Client.Message.Delivery.{request-delivered}
use hoolock.Client.Mac.{HwAddr, hexmac}
use hoolock.Client.Mac.Digits.{two_digits, hexmac_lem}
use hoolock.Client.Socket.{sent, received, read_all, write_all}
use hoolock.Client.{Opening, Round, round, rounds, run, visits, opening}
use hoolock.Client.Linked.{IsLinked}
use hoolock.Client.Handover.{IsCalm, IsFriendly, left_twice}
use hoolock.Client.Rounds.{IsReady, rounds-linked, round-goes}
use hoolock.Client.Start.{IsOpen, IsSetUp, opening-linked}
use hoolock.Tests.Received.{extern-IsReceiving}
use hoolock.Tests.Samples.{bond, slave, packet, network, extern, extern-ExternLaws}

-- "eth0" and "eth1".
abbrev wired_slave : ℕ → ℕ → Slave
wired_slave d c = record (slave d link_up) {
  dev = record ((slave d link_up).dev) { name = 101 ∷ 116 ∷ 104 ∷ c ∷ [] };
}

abbrev wired : Bonding
wired = record bond {
  mem = λ p. elim (compare p 20) [ Ordering.eq ↦ wired_slave 200 49 | _ ↦ wired_slave 100 48 ];
}

abbrev ready_plumber : Plumber
ready_plumber = record {
  eth0_pid = pos 71;
  eth1_pid = negsuc 0;
  is_hard = false;
  is_lossy = false;
  children = [];
}

abbrev digits : List ℕ
digits = 48 ∷ 48 ∷ 48 ∷ 99 ∷ 50 ∷ 57 ∷ 48 ∷ 48 ∷ 48 ∷ 48 ∷ 48 ∷ 49 ∷ []

-- The two answers of the controller.
abbrev answers : List ℕ
answers =
    104 ∷ 111 ∷ 111 ∷ 108 ∷ 111 ∷ 99 ∷ 107 ∷ 48 ∷ 48 ∷ 48 ∷ 99 ∷ 50 ∷ 57 ∷ 48 ∷ 48 ∷ 48 ∷ 48 ∷ 48
    ∷ 49 ∷ 0 ∷ 1 ∷ 0 ∷ 0 ∷ 0 ∷ 59 ∷ 104 ∷ 111 ∷ 111 ∷ 108 ∷ 111 ∷ 99 ∷ 107 ∷ 48 ∷ 48 ∷ 48 ∷ 99 ∷ 50
    ∷ 57 ∷ 48 ∷ 48 ∷ 48 ∷ 48 ∷ 48 ∷ 49 ∷ 0 ∷ 3 ∷ 0 ∷ 0 ∷ 0 ∷ 59 ∷ []

abbrev world : World
world = record {
  bond = wired;
  plumber = listening ready_plumber;
  act_slave = [];
  pas_slave = [];
  iperf_pid = negsuc 0;
  nox_in = answers;
  nox_out = [];
  kills = [];
}

abbrev visit : Visit
visit = record {
  socket_ok = true;
  connects = true;
  delivered = 7;
  accepted = true;
  read_ok = true;
  forked = pos 72;
  written = true;
}

abbrev exchange : Exchange
exchange = record { junk = 0; writes = pos 10 ∷ pos 15 ∷ []; reads = pos 20 ∷ pos 5 ∷ [] }

-- The handler's packets come into the buffer while the client waits for the others.
abbrev one_round : Round
one_round = record {
  output_socket = true;
  output_connects = true;
  forked = pos 80;
  key = 10;
  make_exchange = exchange;
  make_visit = visit;
  break_exchange = exchange;
  break_visit = visit;
  net = λ k. network;
  now = 7;
  others = λ k b. record b { pbuff = b.pbuff ++ (packet 6 ∷ []) };
}

one_round-IsCalm : IsCalm one_round
one_round-IsCalm = record {
  others = λ k b. record {
    slaves = refl;
    active = refl;
    names = record { names = λ q. refl; mode = refl };
  };
  make_visit = record {
    accepted = refl;
    read_ok = refl;
    delivered = omega arith;
    forked = refl;
    written = refl;
  };
  break_visit = record {
    accepted = refl;
    read_ok = refl;
    delivered = omega arith;
    forked = refl;
    written = refl;
  };
}

world-IsReady : IsReady 10 20 answers world
world-IsReady = record {
  slaves = inl refl;
  mode = refl;
  active = refl;
  side_a = inl refl;
  side_z = inr refl;
  apart = omega arith;
  joins = (ready_plumber, refl, ((λ e. ground arith), (λ e. ground arith)), (refl, tt));
  incoming = refl;
}

rounds-linked_example :
    All IsLinked (visits (rounds extern digits (one_round ∷ one_round ∷ [])) world)
rounds-linked_example =
    rounds-linked extern extern-ExternLaws digits (one_round ∷ one_round ∷ []) 10 20 answers world
      (one_round-IsCalm, (one_round-IsCalm, tt)) world-IsReady

one_round-IsFriendly : IsFriendly extern digits one_round answers world
unfolding request write_all read_all as_msg
one_round-IsFriendly = record {
  output_socket = refl;
  output_connects = refl;
  forked = λ e. ground arith;
  key = omega arith;
  make_sent = tt;
  make_heard = refl;
  make_connects = refl;
  break_sent = tt;
  break_heard = refl;
  receiving = λ v e. extern-IsReceiving v.bond;
  break_connects = refl;
}

round-goes_example :
    (v : World) × (run (round extern digits one_round) world ≡ goes v)
    × IsReady 20 10 (left_twice one_round answers) v
round-goes_example =
    round-goes extern extern-ExternLaws digits 10 20 answers one_round world one_round-IsCalm
      one_round-IsFriendly world-IsReady

abbrev well_opened : Opening
well_opened = record {
  argc = 2;
  socket_ok = true;
  hwaddr_ok = true;
  nox_address = pos 1;
  nox_socket = true;
  nox_connects = true;
  plumber_address = pos 1;
  visit = visit;
  output_address = pos 1;
}

well_opened-IsOpen : IsOpen well_opened
well_opened-IsOpen = record {
  argc = omega arith;
  socket_ok = refl;
  hwaddr_ok = refl;
  nox_address = refl;
  nox_socket = refl;
  nox_connects = refl;
  plumber_address = refl;
  connects = refl;
  visit = record {
    accepted = refl;
    read_ok = refl;
    delivered = omega arith;
    forked = refl;
    written = refl;
  };
  output_address = refl;
}

-- The plumber as it starts.
abbrev new_plumber : Plumber
new_plumber = record ready_plumber { eth0_pid = negsuc 0 }

abbrev new_world : World
new_world = record world { plumber = listening new_plumber }

new_world-IsSetUp : IsSetUp 10 20 new_world
new_world-IsSetUp = record {
  slaves = inl refl;
  mode = refl;
  active = refl;
  side_a = inl refl;
  side_z = inr refl;
  apart = omega arith;
  joins = (new_plumber, refl, ((λ e. ground arith), (λ e. ground arith)), tt);
}

opening-linked_example :
    (v : World) × (run (opening extern (λ k. network) 3 well_opened) new_world ≡ goes v)
    × IsLinked v
    × All IsLinked (visits (rounds extern digits (one_round ∷ [])) v)
opening-linked_example =
    opening-linked extern (λ k. network) 3 10 20 well_opened extern-ExternLaws digits
      (one_round ∷ []) new_world well_opened-IsOpen new_world-IsSetUp (one_round-IsCalm, tt)

-- "plumb", "lossless" and "soft".
abbrev argv : List (List ℕ)
argv = (112 ∷ []) ∷ (108 ∷ 111 ∷ 115 ∷ 115 ∷ 108 ∷ []) ∷ (115 ∷ 111 ∷ 102 ∷ 116 ∷ []) ∷ []

argv-start : start argv ≡ some new_plumber
unfolding start starts_with
argv-start = refl

abbrev commands : List (List ℕ × ℕ)
commands =
    (make_command 48, 70)
    ∷ (make_command 49, 71)
    ∷ (break_command 48, 72)
    ∷ (make_command 49, 73)
    ∷ []

commands_fork : AllFork (smooths commands) (listening new_plumber)
unfolding serve serve_one command starts_with
commands_fork = (
  (omega arith, tt),
  (
    (omega arith, (omega arith, tt)),
    ((omega arith, (omega arith, (omega arith, tt))), ((omega arith, (omega arith, tt)), tt)),
  ),
)

serve-start_example : IsTidy (of_serving (serve (smooths commands) (listening new_plumber)))
serve-start_example = serve-start argv new_plumber (smooths commands) argv-start commands_fork

serve-wanted_example :
    Serves 49 (wanted_after 49 commands false) (serve (smooths commands) (listening new_plumber))
serve-wanted_example = serve-wanted argv new_plumber 49 commands argv-start (inr refl)

abbrev address : HwAddr
address = record { b0 = 0; b1 = 12; b2 = 41; b3 = 0; b4 = 0; b5 = 1 }

hexmac_lem_example :
    hexmac address
    ≡ two_digits 0 ++ two_digits 12 ++ two_digits 41 ++ two_digits 0 ++ two_digits 0 ++ two_digits 1
hexmac_lem_example = hexmac_lem address (record {
  b0 = omega arith;
  b1 = omega arith;
  b2 = omega arith;
  b3 = omega arith;
  b4 = omega arith;
  b5 = omega arith;
})

abbrev empty_buffer : List ℕ
empty_buffer =
    0 ∷ 0 ∷ 0 ∷ 0 ∷ 0 ∷ 0 ∷ 0 ∷ 0 ∷ 0 ∷ 0 ∷ 0 ∷ 0 ∷ 0 ∷ 0 ∷ 0 ∷ 0 ∷ 0 ∷ 0 ∷ 0 ∷ 0 ∷ 0 ∷ 0 ∷ 0 ∷ 0
    ∷ 0 ∷ []

request-delivered_example :
    (bs : List ℕ) × (write_all (request 7 digits make_req) 0 (map pos (20 ∷ 9 ∷ [])) ≡ sent bs)
    × (read_all msg_size empty_buffer 0 (bs ++ (1 ∷ [])) (map pos (1 ∷ 30 ∷ []))
        ≡ received bs (1 ∷ []))
    × (as_msg bs
        ≡ record { msg_id = hoolock_id; host_mac = digits; separator1 = 7; cmd = code make_req })
request-delivered_example =
    request-delivered 7 digits make_req (20 ∷ 9 ∷ []) (1 ∷ 30 ∷ []) empty_buffer (1 ∷ []) refl refl
      (omega arith) (omega arith)

-- ===== src/Tests/Transmit.antt =====
-- The transmit functions at concrete inputs.
use hoolock.Common.{ℕ, ◌≡◌, ◌↔◌, refl, true, false, none, some, arith, In, length, ◌%◌}
use hoolock.Bond.Slaves.{each_from}
use hoolock.Transmit.{
  VlanTags, Headers, layer34, is_eligible, send, pick, hash_policy, xmit_roundrobin, xmit_xor,
  xmit_hoolock, xmit_broadcast, bond_is_ok,
}
use hoolock.Transmit.Choice.{
  choice, counted, pick_lem, xmit_roundrobin-choice, xmit_xor-choice, xmit_hoolock-none,
}
use hoolock.Transmit.Broadcast.{each_or_free, xmit_broadcast-each}
use hoolock.Tests.Samples.{bond, bond-IsWellFormed, packet}

-- Devices that insert VLAN tags themselves.
abbrev tags : VlanTags
tags = record { hw_vlan_tx = λ d. true; vlan_tag = λ k. none; put_tag = λ k t. some k }

abbrev headers : Headers
headers = record {
  h_dest5 = 5;
  is_ip = true;
  saddr = 9;
  daddr = 12;
  is_fragment = false;
  is_tcp_or_udp = true;
  sport = 80;
  dport = 81;
}

pick_lem_example :
    ((p : ℕ) → pick bond 1 ≡ some p → In p bond.slaves × (is_eligible bond.mem p ≡ true))
    × ((pick bond 1 ≡ none) ↔ ((p : ℕ) → In p bond.slaves → is_eligible bond.mem p ≡ false))
pick_lem_example = pick_lem bond 1 bond-IsWellFormed (omega arith)

xmit_roundrobin-choice_example :
    xmit_roundrobin tags (packet 3) bond
    ≡ send tags (packet 3) (choice bond (bond.rr_tx_counter % length bond.slaves)) (counted bond)
xmit_roundrobin-choice_example = xmit_roundrobin-choice tags (packet 3) bond bond-IsWellFormed refl

xmit_hoolock-none_example :
    (xmit_hoolock tags (packet 3) bond ≡ none)
    ↔ ((bond_is_ok bond ≡ true) × (bond.curr_active_slave ≡ none))
xmit_hoolock-none_example = xmit_hoolock-none tags (packet 3) bond

xmit_broadcast-each_example :
    xmit_broadcast tags (λ q. true) (packet 3) bond
    ≡ each_or_free tags (packet 3) bond.mem (each_from 10 bond.slaves) bond
xmit_broadcast-each_example = xmit_broadcast-each tags (packet 3) bond 10 refl refl

xmit_xor-choice_example :
    xmit_xor tags layer34 headers 4 (packet 3) bond
    ≡ send tags (packet 3) (choice bond (hash_policy layer34 headers 4 2)) bond
xmit_xor-choice_example =
    xmit_xor-choice tags layer34 headers 4 (packet 3) bond bond-IsWellFormed refl

-- ===== src/Tests/Arp.antt =====
-- The ARP monitors and the ARP handler at concrete inputs.
use hoolock.Common.{ℕ, ◌≡◌, ◌⊎◌, refl, [], ◌∷◌, true, false, none, leb, ltb}
use hoolock.Bond.State.{Bonding, active_backup, freed}
use hoolock.Bond.Slaves.{log}
use hoolock.Bond.Arp.{Clock, Routes, ArpFrame, arp_rcv}
use hoolock.Bond.Arp.Receive.{Validates, stamped, arp_rcv_lem}
use hoolock.Bond.Arp.Watch.{Watches}
use hoolock.Bond.Arp.Commit.{arp_monitors-Watches}
use hoolock.Bond.Arp.Balance.{loadbalance_arp_mon}
use hoolock.Bond.Arp.Backup.{ab_probe, activebackup_arp_mon}
use hoolock.Bond.Arp.Probe.{ProbeResult, ab_probe_lem}
use hoolock.Tests.Samples.{bond, params, packet, extern, extern-ExternLaws, bond-IsWellFormed}

abbrev clock : Clock
clock = record {
  msecs_to_jiffies = λ n. n;
  time_before_eq = λ a b. leb a b;
  time_after_eq = λ a b. leb b a;
  time_after = λ a b. ltb b a;
}

abbrev routes : Routes
routes = record { route = λ t. none; vlan_device = λ v. 0 }

-- In active-backup mode, with one target of the probes.
abbrev backup_bond : Bonding
backup_bond = record bond {
  params = record (params active_backup) {
    arp_interval = 10;
    validate_active = true;
    arp_targets = 9 ∷ [];
  };
}

abbrev reply : ArpFrame
reply = record {
  skb = packet 1;
  pullable = true;
  ar_hln = 6;
  otherhost = false;
  loopback = false;
  ar_hrd_ether = true;
  ar_pro_ip = true;
  ar_pln = 4;
  sip = 9;
  tip = 5;
}

reply_stamps :
    (arp_rcv 70 6 100 reply backup_bond).mem 10 ≡ record (bond.mem 10) { last_arp_rx = 70 }
unfolding arp_rcv
reply_stamps = refl

arp_rcv_lem_example :
    (arp_rcv 70 6 100 reply backup_bond ≡ log (freed (packet 1)) backup_bond)
    ⊎ ((p : ℕ) × Validates backup_bond 6 100 p reply
        × (arp_rcv 70 6 100 reply backup_bond ≡ log (freed (packet 1)) (stamped 70 p backup_bond)))
arp_rcv_lem_example = arp_rcv_lem 70 6 100 reply backup_bond

arp_monitors-Watches_example :
    Watches bond (loadbalance_arp_mon extern clock routes 50 bond).1
    × Watches bond (activebackup_arp_mon extern clock routes 50 bond).1
arp_monitors-Watches_example =
    arp_monitors-Watches extern extern-ExternLaws clock routes 50 bond bond-IsWellFormed

ab_probe_lem_example :
    ProbeResult 50 10
      (record backup_bond { curr_active_slave = none })
      (ab_probe routes 50 (record backup_bond { curr_active_slave = none }))
ab_probe_lem_example =
    ab_probe_lem routes 50 10 (record backup_bond { curr_active_slave = none }) refl refl

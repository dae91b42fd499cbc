-- ===== src/Tests/Samples.antt =====
-- Two slaves of a bond in hoolock mode, and kernel services that do nothing.
use hoolock.Common.{ℕ, refl, [], ◌∷◌, true, false, Option, none, some}
use Prim.Native.Nat.{compare, Ordering}
use hoolock.Common.{arith, inl}
use hoolock.Bond.State.{
  Bonding, Slave, NetDevice, Params, Mode, hoolock_mode, fom_none, link_up, LinkState, active,
  SkBuff, ok,
}
use hoolock.Bond.Active.{Extern}
use hoolock.Bond.Monitor.{Drivers}
use hoolock.Bond.Invariant.{Keeps, Keeps-refl, ExternLaws, IsWellFormed}
use hoolock.Net.Receive.{Network, hoolock_recv, other}

abbrev pub device : ℕ → NetDevice
device p = record {
  ptr = p;
  name = p ∷ [];
  master = some 1;
  iff_up = true;
  iff_slave = true;
  iff_bonding = true;
  iff_promisc = false;
  iff_allmulti = false;
  slave_inactive = false;
  slave_needarp = false;
  running = true;
  carrier = true;
  linkwatch_pending = false;
  promiscuity = 0;
  allmulti = 0;
  dev_addr = p;
  mc_list = [];
  vlan_challenged = false;
  dev_type = 1;
  can_set_mac = true;
  mtu = 1500;
  trans_start = 0;
  last_rx = 0;
}

abbrev pub slave : ℕ → LinkState → Slave
slave d l = record {
  dev = device d;
  delay = 1;
  jiffies = 0;
  last_arp_rx = 0;
  link = l;
  new_link = none;
  state = active;
  link_failure_count = 0;
  perm_hwaddr = d;
}

abbrev pub bond_dev : NetDevice
bond_dev = record (device 1) {
  master = none;
  iff_slave = false;
  mc_list = 77 ∷ [];
  iff_promisc = true;
}

abbrev pub params : Mode → Params
params m = record {
  mode = m;
  miimon = 100;
  num_grat_arp = 1;
  arp_interval = 0;
  validate_active = false;
  validate_backup = false;
  use_carrier = true;
  fail_over_mac = fom_none;
  updelay = 2;
  downdelay = 2;
  primary = [];
  arp_targets = [];
}

-- Slaves at 10 and 20, with the devices at 100 and 200; the first one is active.
abbrev pub bond : Bonding
bond = record {
  dev = bond_dev;
  slaves = 10 ∷ 20 ∷ [];
  mem = λ p. elim (compare p 20) [ Ordering.eq ↦ slave 200 link_up | _ ↦ slave 100 link_up ];
  curr_active_slave = some 10;
  current_arp_slave = none;
  primary_slave = none;
  flag_promisc = false;
  flag_allmulti = false;
  mc_list = [];
  kill_timers = false;
  setup_by_slave = false;
  send_grat_arp = 0;
  master_ip = 5;
  rr_tx_counter = 0;
  params = params hoolock_mode;
  vlan_list = [];
  buffer_mode = false;
  pbuff = [];
  events = [];
}

abbrev pub packet : ℕ → SkBuff
packet n = record { skb = n; dev = 100; saddr = 9 }

-- Devices without MII registers and `get_link`.
abbrev pub drivers : Drivers
drivers = record { mii_link = λ d. none; get_link = λ d. none }

abbrev pub extern : Extern
extern = record {
  ad_set_carrier = λ b. (false, b);
  ad_handle_link_change = λ p l b. b;
  alb_handle_link_change = λ p l b. b;
  alb_handle_active_change = λ new b. record b { curr_active_slave = new };
  dev_set_mac_address = λ d a. (ok, record d { dev_addr = a });
  locks_spin = false;
}

set_active-Keeps : (new : Option ℕ) (b : Bonding) → Keeps b (record b { curr_active_slave = new })
set_active-Keeps new b = record {
  slaves = refl;
  params = refl;
  buffer_mode = refl;
  pbuff = refl;
  primary_slave = refl;
  current_arp_slave = refl;
  kill_timers = refl;
  master_ip = refl;
  bond_dev = refl;
  slave_devs = λ p. refl;
}

pub extern-ExternLaws : ExternLaws extern
extern-ExternLaws = record {
  carrier_keeps = Keeps-refl;
  carrier_active = λ b. refl;
  ad_keeps = λ p l b. Keeps-refl b;
  ad_active = λ p l b. refl;
  alb_keeps = λ p l b. Keeps-refl b;
  alb_active = λ p l b. refl;
  change_keeps = set_active-Keeps;
  change_active = λ new b. refl;
  mac_keeps = λ d a. refl;
}

pub bond-IsWellFormed : IsWellFormed bond
bond-IsWellFormed = record {
  distinct = omega arith;
  active_in = inl refl;
  primary_in = tt;
  arp_in = tt;
}

-- One protocol for the slaves' packets, whose master is the bond.
abbrev pub network : Network
network = record {
  ptype_all = record { dev = some 1; func = hoolock_recv } ∷ [];
  ptype_base = record { dev = none; func = other 0 } ∷ [];
  master_of = λ d. elim (compare d 1) [ Ordering.gt ↦ some 1 | _ ↦ none ];
  vlan_takes = λ k. false;
  netpoll_takes = λ k. false;
  should_drop = λ k. false;
  net_alive = true;
  other_returns = λ n k. ok;
}

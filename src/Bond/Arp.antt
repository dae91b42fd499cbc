-- ===== src/Bond/Arp.antt =====
-- ARP probes and their answers, 27/bond_main.c: bond_arp_send_all, bond_validate_arp and
-- bond_arp_rcv.
pub mod Receive
pub mod Watch
pub mod Balance
pub mod Backup
pub mod Commit
pub mod Probe
pub mod Failover
use hoolock.Common.{
  ℕ, ◌+◌, ◌*◌, List, [], ◌∷◌, Bool, true, false, ◌&&◌, ◌||◌, not, Option, none, some, if◌then◌else◌,
  ◌==◌,
}
use hoolock.Bond.State.{
  Bonding, Slave, SlaveState, active, backup, VlanEntry, SkBuff, arp_request, freed,
}
use hoolock.Bond.Slaves.{is_active, edit, log, do_arp_validate, get_slave_by_dev}
use hoolock.Bond.Vlans.{no_vlans}

-- The clock of the kernel: `jiffies` is an `unsigned long`, whose wrap-around these tests see to.
pub record Clock : Type 0 where
  pub msecs_to_jiffies : ℕ → ℕ
  pub time_before_eq : ℕ → ℕ → Bool
  pub time_after_eq : ℕ → ℕ → Bool
  pub time_after : ℕ → ℕ → Bool

-- `ip_route_output_key`, the device of the route to an address, and `vlan_group_get_device`.
pub record Routes : Type 0 where
  pub route : ℕ → Option ℕ
  pub vlan_device : ℕ → ℕ

-- `slave_last_rx`.
abbrev pub slave_last_rx : Bonding → Slave → ℕ
slave_last_rx b s = if do_arp_validate b s then s.last_arp_rx else s.dev.last_rx

-- The first VLAN whose device is `out`.
unfoldable pub vlan_via : Routes → ℕ → List VlanEntry → Option VlanEntry
vlan_via r out [] = none
vlan_via r out (v ∷ vs) = if r.vlan_device v.vlan_id == out then some v else vlan_via r out vs

-- The part of `bond_arp_send_all` for a bond with VLANs.
abbrev pub on_vlan : ℕ → ℕ → Option VlanEntry → Bonding → Bonding
on_vlan d t none b = b
on_vlan d t (some v) b = if v.vlan_id == 0 then b else log (arp_request d t v.vlan_ip v.vlan_id) b

unfoldable pub on_route : Routes → ℕ → ℕ → Option ℕ → Bonding → Bonding
unfolding vlan_via
on_route r d t none b = b
on_route r d t (some out) b =
    if out == b.dev.ptr
    then log (arp_request d t b.master_ip 0) b
    else on_vlan d t (vlan_via r out b.vlan_list) b

unfoldable pub arp_send : Routes → ℕ → ℕ → Bonding → Bonding
unfolding on_route
arp_send r d t b =
    if t == 0
    then b
    else if no_vlans b
    then log (arp_request d t b.master_ip 0) b
    else on_route r d t (r.route t) b

-- `bond_arp_send_all`, on the device at `d`.
unfoldable pub send_to : Routes → ℕ → List ℕ → Bonding → Bonding
unfolding arp_send
send_to r d [] b = b
send_to r d (t ∷ ts) b = send_to r d ts (arp_send r d t b)

unfoldable pub arp_send_all : Routes → ℕ → Bonding → Bonding
unfolding send_to
arp_send_all r p b = send_to r (b.mem p).dev.ptr b.params.arp_targets b

-- `bond_has_this_ip`.
unfoldable pub any_vlan_ip : ℕ → List VlanEntry → Bool
any_vlan_ip a [] = false
any_vlan_ip a (v ∷ vs) = a == v.vlan_ip || any_vlan_ip a vs

unfoldable pub has_this_ip : Bonding → ℕ → Bool
unfolding any_vlan_ip
has_this_ip b a = a == b.master_ip || any_vlan_ip a b.vlan_list

-- `bond_validate_arp`.
unfoldable pub validate_from : ℕ → ℕ → ℕ → ℕ → List ℕ → Bonding → Bonding
unfolding has_this_ip
validate_from now p sip tip [] b = b
validate_from now p sip tip (t ∷ ts) b =
    let rest = validate_from now p sip tip ts b in
    if t == 0
    then b
    else if sip == t
    then (if has_this_ip b tip then edit p (λ s. record s { last_arp_rx = now }) b else b)
    else rest

unfoldable pub validate_arp : ℕ → ℕ → ℕ → ℕ → Bonding → Bonding
unfolding validate_from
validate_arp now p sip tip b = validate_from now p sip tip b.params.arp_targets b

-- What bond_arp_rcv reads of a packet: whether the header can be read, its fields, whether the
-- packet is for another host or looped back, and the two addresses.
pub record ArpFrame : Type 0 where
  pub skb : SkBuff
  pub pullable : Bool
  pub ar_hln : ℕ
  pub otherhost : Bool
  pub loopback : Bool
  pub ar_hrd_ether : Bool
  pub ar_pro_ip : Bool
  pub ar_pln : ℕ
  pub sip : ℕ
  pub tip : ℕ

-- The tests of the header, for a bond whose addresses have `addr_len` bytes.
abbrev pub is_readable : ℕ → ArpFrame → Bool
is_readable addr_len f =
    f.pullable
    && not (
        not (f.ar_hln == addr_len)
        || f.otherhost
        || f.loopback
        || not f.ar_hrd_ether
        || not f.ar_pro_ip
        || not (f.ar_pln == 4))

unfoldable pub arp_found : ℕ → ℕ → Option ℕ → ArpFrame → Bonding → Bonding
unfolding validate_arp
arp_found now addr_len none f b = b
arp_found now addr_len (some p) f b =
    let seen =
      if is_active (b.mem p).state
      then validate_arp now p f.sip f.tip b
      else validate_arp now p f.tip f.sip b in
    if do_arp_validate b (b.mem p) && is_readable addr_len f then seen else b

-- `bond_arp_rcv`, of a packet that came in on the device `orig`; the packet is freed.
unfoldable pub arp_rcv : ℕ → ℕ → ℕ → ArpFrame → Bonding → Bonding
unfolding arp_found get_slave_by_dev
arp_rcv now addr_len orig f b =
    log (freed f.skb)
      (if b.dev.iff_bonding then arp_found now addr_len (get_slave_by_dev b orig) f b else b)

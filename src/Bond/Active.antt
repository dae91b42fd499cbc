-- ===== src/Bond/Active.antt =====
-- Choice and change of the active slave, 27/bond_main.c: bond_set_carrier,
-- bond_mc_swap, bond_do_fail_over_mac, bond_find_best_slave, bond_change_active_slave,
-- bond_select_active_slave and bond_send_gratuitous_arp.
pub mod Best
pub mod Steps
pub mod Change
pub mod Members
pub mod Names
use hoolock.Common.{
  ℕ, zero, suc, ◌+◌, ◌-◌, ◌≡◌, refl, List, [], ◌∷◌, Bool, true, false, ◌&&◌, ◌||◌, not, Option,
  none, some, if◌then◌else◌, ◌==◌, xor, ltb, arith, same, is_some,
}
use hoolock.Bond.State.{
  Bonding, Slave, NetDevice, Params, Mode, active_backup, lacp, tlb, alb, FailOverMac, fom_none,
  fom_active, fom_follow, LinkState, link_up, link_fail, link_down, link_back, Status, ok,
  VlanEntry, Event, mc_add, mc_delete, igmp_rejoin, arp_reply, bonding_change,
}
use hoolock.Bond.Slaves.{
  uses_primary, is_up, is_link_up, is_back, is_ok, edit, log, each_from, first_slave,
  set_slave_inactive_flags, set_slave_active_flags,
}
use hoolock.Net.Device.{Inc, plus, minus, dev_set_promiscuity, dev_set_allmulti}

-- What stands outside the sources: bond_3ad.c, bond_alb.c, and the operation by which a device's
-- driver sets its address (with `dev_set_mac_address` of 27/dev.c around it); and of the build,
-- whether locks spin, as on several processors, or are empty.
pub record Extern : Type 0 where
  pub ad_set_carrier : Bonding → Bool × Bonding
  pub ad_handle_link_change : ℕ → LinkState → Bonding → Bonding
  pub alb_handle_link_change : ℕ → LinkState → Bonding → Bonding
  pub alb_handle_active_change : Option ℕ → Bonding → Bonding
  pub dev_set_mac_address : NetDevice → ℕ → Status × NetDevice
  pub locks_spin : Bool

abbrev set_dev : NetDevice → Bonding → Bonding
set_dev d b = record b { dev = d }

-- A change of the device of a slave.
abbrev put_dev : ℕ → NetDevice → Bonding → Bonding
put_dev p d b = edit p (λ s. record s { dev = d }) b

-- `netif_carrier_on` and `netif_carrier_off` where the bit differs; true if it did.
abbrev turn_carrier : Bool → Bonding → Bool × Bonding
turn_carrier t b =
    if xor t b.dev.carrier then (true, set_dev (record (b.dev) { carrier = t }) b) else (false, b)

any_link_up : (ℕ → Slave) → List ℕ → Bool
any_link_up m [] = false
any_link_up m (p ∷ ps) = is_link_up (m p).link || any_link_up m ps

-- `bond_set_carrier`.
carrier_for : Extern → Mode → List ℕ → Bonding → Bool × Bonding
unfolding any_link_up
carrier_for x m [] b = turn_carrier false b
carrier_for x lacp (p ∷ ps) b = x.ad_set_carrier b
carrier_for x m (p ∷ ps) b = turn_carrier (any_link_up b.mem (p ∷ ps)) b

pub set_carrier : Extern → Bonding → Bool × Bonding
unfolding carrier_for
set_carrier x b = carrier_for x b.params.mode b.slaves b

-- `dev_mc_add` or `dev_mc_delete` of each address of the bond's list.
pub log_mc : (ℕ → Event) → List ℕ → Bonding → Bonding
log_mc e [] b = b
log_mc e (a ∷ as') b = log_mc e as' (log (e a) b)

-- The part of `bond_mc_swap` for one slave.
mc_swap_one : Inc → (ℕ → ℕ → Event) → ℕ → Bonding → Bonding
mc_swap_one inc e p b =
    let b₁ =
      if b.dev.iff_promisc then put_dev p (dev_set_promiscuity (b.mem p).dev inc).1 b else b in
    let b₂ =
      if b.dev.iff_allmulti then put_dev p (dev_set_allmulti (b₁.mem p).dev inc).1 b₁ else b₁ in
    log_mc (e (b₂.mem p).dev.ptr) b.dev.mc_list b₂

-- `bond_mc_swap`, which begins with the test of the mode.
mc_out : Option ℕ → Bonding → Bonding
unfolding mc_swap_one
mc_out none b = b
mc_out (some p) b = mc_swap_one minus mc_delete p b

mc_into : Option ℕ → Bonding → Bonding
unfolding mc_swap_one
mc_into none b = b
mc_into (some p) b = log igmp_rejoin (mc_swap_one plus mc_add p b)

pub mc_swap : Option ℕ → Option ℕ → Bonding → Bonding
unfolding mc_out mc_into
mc_swap new old b = if uses_primary b.params.mode then mc_into new (mc_out old b) else b

-- `bond_send_gratuitous_arp`.
arp_vlans : ℕ → List VlanEntry → Bonding → Bonding
arp_vlans d [] b = b
arp_vlans d (v ∷ vs) b =
    arp_vlans d vs (if v.vlan_ip == 0 then b else log (arp_reply d v.vlan_ip v.vlan_id) b)

arp_from : Option ℕ → Bonding → Bonding
unfolding arp_vlans
arp_from none b = b
arp_from (some p) b =
    let d = (b.mem p).dev in
    let b₁ = record b { send_grat_arp = b.send_grat_arp - 1 } in
    let b₂ = if b.master_ip == 0 then b₁ else log (arp_reply d.ptr b.master_ip 0) b₁ in
    if b.send_grat_arp == 0 || d.linkwatch_pending then b else arp_vlans d.ptr b.vlan_list b₂

pub send_gratuitous_arp : Bonding → Bonding
unfolding arp_from
send_gratuitous_arp b = arp_from b.curr_active_slave b

-- `bond_do_fail_over_mac` where there is a new active slave; with none it does nothing.
fail_over : Extern → FailOverMac → ℕ → Option ℕ → Bonding → Bonding
fail_over x fom_none p old b = b
fail_over x fom_active p old b = set_dev (record (b.dev) { dev_addr = (b.mem p).dev.dev_addr }) b
fail_over x fom_follow p none b = put_dev p (x.dev_set_mac_address (b.mem p).dev b.dev.dev_addr).1 b
fail_over x fom_follow p (some q) b =
    let (res, d) = x.dev_set_mac_address (b.mem p).dev (b.mem q).dev.dev_addr in
    let b₁ = put_dev p d b in
    let b₂ = put_dev q (x.dev_set_mac_address (b₁.mem q).dev (b.mem p).dev.dev_addr).1 b₁ in
    if is_ok res then b₂ else b₁

pub do_fail_over_mac : Extern → ℕ → Option ℕ → Bonding → Bonding
unfolding fail_over
do_fail_over_mac x p old b = fail_over x b.params.fail_over_mac p old b

-- The loop of `bond_find_best_slave`, over the slaves that are left.
best_of : (ℕ → Slave) → ℕ → Option ℕ → List ℕ → Option ℕ
best_of m mintime best [] = best
best_of m mintime best (p ∷ ps) =
    let earlier = is_up (m p).dev && ltb (m p).delay mintime in
    let up = best_of m mintime best ps in
    let back =
      best_of m (if earlier then (m p).delay else mintime) (if earlier then some p else best) ps in
    elim (m p).link [ link_up ↦ if is_up (m p).dev then some p else up | link_back ↦ back | _ ↦ up ]

-- Where `bond_find_best_slave` begins its round.
unfoldable pub start_of : Bonding → Option ℕ
start_of b =
    let start : Option ℕ = elim b.curr_active_slave [ none ↦ first_slave b | some p ↦ some p ] in
    elim start [
      | none ↦ none
      | some p ↦ elim b.primary_slave [
        | none ↦ some p
        | some q ↦ if b.params.arp_interval == 0 && is_up (b.mem q).dev then some q else some p
      ]
    ]

-- `bond_find_best_slave`.
pub find_best_slave : Bonding → Option ℕ
unfolding best_of start_of
find_best_slave b = elim (start_of b) [
  | none ↦ none
  | some p ↦ best_of b.mem b.params.updelay none (each_from p b.slaves)
]

-- bond_3ad and bond_alb are told of a link that is up.
unfoldable pub link_change : Extern → Mode → ℕ → LinkState → Bonding → Bonding
link_change x lacp p l b = x.ad_handle_link_change p l b
link_change x tlb p l b = x.alb_handle_link_change p l b
link_change x alb p l b = x.alb_handle_link_change p l b
link_change x _ p l b = b

-- The first part of `bond_change_active_slave`, on the new active slave.
take_over : Extern → ℕ → Option ℕ → Bonding → Bonding
unfolding link_change
take_over x now none b = b
take_over x now (some p) b =
    let b₁ = edit p (λ s. record s { jiffies = now }) b in
    let b₂ = edit p (λ s. record s { delay = 0; link = link_up }) b₁ in
    if is_back (b.mem p).link then link_change x b.params.mode p link_up b₂ else b₁

abbrev inactive_at : Option ℕ → Bonding → Bonding
inactive_at none b = b
inactive_at (some p) b = edit p (set_slave_inactive_flags b) b

abbrev active_at : Option ℕ → Bonding → Bonding
active_at none b = b
active_at (some p) b = edit p set_slave_active_flags b

-- The last part, in active-backup mode.
announce : Extern → Option ℕ → Option ℕ → Bonding → Bonding
announce x none old b = inactive_at old b
announce x (some p) old b =
    let b₁ = active_at (some p) (inactive_at old b) in
    let b₂ = do_fail_over_mac x p old b₁ in
    log bonding_change (send_gratuitous_arp (record b₂ { send_grat_arp = b.params.num_grat_arp }))

-- The part of `bond_change_active_slave` behind the multicast lists.
install : Extern → Mode → Option ℕ → Option ℕ → Bonding → Bonding
unfolding announce
install x tlb new old b = active_at new (inactive_at old (x.alb_handle_active_change new b))
install x alb new old b = active_at new (inactive_at old (x.alb_handle_active_change new b))
install x active_backup new old b = announce x new old (record b { curr_active_slave = new })
install x _ new old b = record b { curr_active_slave = new }

-- `bond_change_active_slave` where the slave changes.
switch_to : Extern → ℕ → Option ℕ → Bonding → Bonding
unfolding take_over install
switch_to x now new b =
    let old = b.curr_active_slave in
    install x b.params.mode new old (mc_swap new old (take_over x now new b))

-- `bond_change_active_slave`, at time `now`.
pub change_active_slave : Extern → ℕ → Option ℕ → Bonding → Bonding
unfolding switch_to
change_active_slave x now new b = if same b.curr_active_slave new then b else switch_to x now new b

-- `bond_select_active_slave`.
pub select_active_slave : Extern → ℕ → Bonding → Bonding
select_active_slave x now b =
    let best = find_best_slave b in
    if same best b.curr_active_slave
    then b
    else (set_carrier x (change_active_slave x now best b)).1

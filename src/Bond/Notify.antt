-- ===== src/Bond/Notify.antt =====
-- The notifiers of 27/bond_main.c: bond_netdev_event with its master and slave part, and
-- bond_inetaddr_event.
use hoolock.Common.{ℕ, List, [], ◌∷◌, Bool, false, not, Option, if◌then◌else◌, ◌==◌}
use hoolock.Bond.State.{Bonding, NetDevice, VlanEntry}
use hoolock.Bond.Enslave.{Services, Enslaved}
use hoolock.Bond.Release.{Remains, bond_release, bond_release_and_destroy, bond_release_all}
use hoolock.Bond.Arp.{Routes}

-- The events of network devices that the driver tells apart.
pub data NetEvent : Type 0 where
  unregister change_name feat_change other_event : NetEvent

-- How the notifier ends: it leaves the bond, a slave is released (true if the bond is destroyed),
-- or all are.
pub data Notified : Type 0 where
  unchanged : Bonding → Notified
  one_left : Enslaved → Bool → Notified
  all_left : Option Remains → Notified

-- `bond_master_netdev_event`; the entries of /proc and sysfs are not modelled.
unfoldable pub master_event : Services → ℕ → NetEvent → Bonding → Notified
unfolding bond_release_all
master_event v now unregister b = all_left (bond_release_all v now b)
master_event v now _ b = unchanged b

abbrev pub released_one : Enslaved × Bool → Notified
released_one (r, t) = one_left r t

-- `bond_slave_netdev_event`, for a slave of this bond.
unfoldable pub slave_event : Services → ℕ → NetEvent → NetDevice → Bonding → Notified
unfolding bond_release bond_release_and_destroy
slave_event v now unregister d b =
    if b.setup_by_slave
    then released_one (bond_release_and_destroy v now d b)
    else one_left (bond_release v now d b) false
slave_event v now _ d b = unchanged b

-- `bond_netdev_event`, of the device `d`, with its bond: the device's own one where it is a master.
unfoldable pub netdev_event : Services → ℕ → Bool → Bool → NetEvent → NetDevice → Bonding → Notified
unfolding master_event slave_event
netdev_event v now in_init_net is_master e d b =
    if not in_init_net
    then unchanged b
    else if not d.iff_bonding
    then unchanged b
    else if is_master
    then master_event v now e b
    else if d.iff_slave
    then slave_event v now e d b
    else unchanged b

-- The events of addresses.
pub data AddrEvent : Type 0 where
  addr_up addr_down other_addr : AddrEvent

-- The new address: `ifa_local`, or what bond_glean_dev_ip still finds on the device.
abbrev pub new_ip : AddrEvent → ℕ → ℕ → ℕ → ℕ
new_ip addr_up local left old = local
new_ip addr_down local left old = left
new_ip other_addr local left old = old

-- The first VLAN of the device gets the address.
unfoldable pub set_vlan_ip : Routes → ℕ → AddrEvent → ℕ → ℕ → List VlanEntry → List VlanEntry
set_vlan_ip r d e local left [] = []
set_vlan_ip r d e local left (v ∷ vs) =
    let rest = set_vlan_ip r d e local left vs in
    if r.vlan_device v.vlan_id == d
    then record v { vlan_ip = new_ip e local left v.vlan_ip } ∷ vs
    else v ∷ rest

-- `bond_inetaddr_event`, for one bond of the list.
unfoldable pub inetaddr_event : Routes → ℕ → AddrEvent → ℕ → ℕ → Bonding → Bonding
unfolding set_vlan_ip
inetaddr_event r d e local left b =
    if b.dev.ptr == d
    then record b { master_ip = new_ip e local left b.master_ip }
    else record b { vlan_list = set_vlan_ip r d e local left b.vlan_list }

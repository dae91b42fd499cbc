-- ===== src/Bond/State.antt =====
-- The driver's data: 27/bonding.h, 27/if_bonding.h, and the fields of `struct net_device` that
-- 27/bond_main.c and 27/dev.c read and write.
use hoolock.Common.{ℕ, Bool, Option, List}

-- BOND_MODE_*.
pub data Mode : Type 0 where
  round_robin active_backup balance_xor broadcast lacp tlb alb hoolock_mode : Mode

-- BOND_LINK_*; BOND_LINK_NOCHANGE is the `none` of `Slave.new_link`.
pub data LinkState : Type 0 where
  link_up link_fail link_down link_back : LinkState

-- BOND_STATE_*.
pub data SlaveState : Type 0 where
  active backup : SlaveState

-- BOND_FOM_*.
pub data FailOverMac : Type 0 where
  fom_none fom_active fom_follow : FailOverMac

-- The error numbers that are returned, and success.
pub data Status : Type 0 where
  ok einval eaddrnotavail enodev efault eperm ebusy eopnotsupp eoverflow enomem ebuffered efailed :
      Status

-- `struct net_device`. `ptr` is the address of the structure, the flags are bits of `flags`,
-- `priv_flags`, `state` and `features`, `master` is NULL or the address of the master, and
-- `can_set_mac` says that its driver has `set_mac_address`.
pub record NetDevice : Type 0 where
  pub ptr : ℕ
  pub name : List ℕ
  pub master : Option ℕ
  pub iff_up : Bool
  pub iff_slave : Bool
  pub iff_bonding : Bool
  pub iff_promisc : Bool
  pub iff_allmulti : Bool
  pub slave_inactive : Bool
  pub slave_needarp : Bool
  pub running : Bool
  pub carrier : Bool
  pub linkwatch_pending : Bool
  pub promiscuity : ℕ
  pub allmulti : ℕ
  pub dev_addr : ℕ
  pub mc_list : List ℕ
  pub vlan_challenged : Bool
  pub dev_type : ℕ
  pub can_set_mac : Bool
  pub mtu : ℕ
  pub trans_start : ℕ
  pub last_rx : ℕ

-- `struct slave`, less its links (Bond.Ring) and the parts of bond_3ad and bond_alb.
pub record Slave : Type 0 where
  pub dev : NetDevice
  pub delay : ℕ
  pub jiffies : ℕ
  pub last_arp_rx : ℕ
  pub link : LinkState
  pub new_link : Option LinkState
  pub state : SlaveState
  pub link_failure_count : ℕ
  pub perm_hwaddr : ℕ

-- `struct bond_params`; a free place of `arp_targets` is 0.
pub record Params : Type 0 where
  pub mode : Mode
  pub miimon : ℕ
  pub num_grat_arp : ℕ
  pub arp_interval : ℕ
  pub validate_active : Bool
  pub validate_backup : Bool
  pub use_carrier : Bool
  pub fail_over_mac : FailOverMac
  pub updelay : ℕ
  pub downdelay : ℕ
  pub primary : List ℕ
  pub arp_targets : List ℕ

-- `struct vlan_entry`.
pub record VlanEntry : Type 0 where
  pub vlan_ip : ℕ
  pub vlan_id : ℕ

-- `struct sk_buff`: its address, its device and the source address of its IP header. The
-- reference count `users` belongs to the walk that handles the packet (Net.Receive).
pub record SkBuff : Type 0 where
  pub skb : ℕ
  pub dev : ℕ
  pub saddr : ℕ

-- A call into code outside the driver whose effect is on no field of the model. A device stands
-- for its address.
pub data Event : Type 0 where
  mc_add mc_delete : ℕ → ℕ → Event
  igmp_rejoin : Event
  arp_reply : ℕ → ℕ → ℕ → Event
  arp_request : ℕ → ℕ → ℕ → ℕ → Event
  bonding_change : Event
  vlan_register : ℕ → Bool → Event
  vlan_add vlan_kill : ℕ → ℕ → Event
  rx_mode : ℕ → Event
  received : SkBuff → Event
  transmitted : ℕ → SkBuff → Event
  freed : SkBuff → Event

-- `struct bonding`. A slave is named by its address: `slaves` are the addresses in the order of
-- the list from `first_slave` on (`slave_cnt` is its length), `mem` is what stands at an address.
-- `flag_promisc` and `flag_allmulti` are the bits of `flags` that are read.
pub record Bonding : Type 0 where
  pub dev : NetDevice
  pub slaves : List ℕ
  pub mem : ℕ → Slave
  pub curr_active_slave : Option ℕ
  pub current_arp_slave : Option ℕ
  pub primary_slave : Option ℕ
  pub flag_promisc : Bool
  pub flag_allmulti : Bool
  pub mc_list : List ℕ
  pub kill_timers : Bool
  pub setup_by_slave : Bool
  pub send_grat_arp : ℕ
  pub master_ip : ℕ
  pub rr_tx_counter : ℕ
  pub params : Params
  pub vlan_list : List VlanEntry
  pub buffer_mode : Bool
  pub pbuff : List SkBuff
  pub events : List Event

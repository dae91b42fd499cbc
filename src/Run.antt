-- ===== src/Run.antt =====
-- The entry points of the driver as steps: the ioctls and the second switch of bond_do_ioctl, the
-- monitors, the packet handlers and the notifiers of 27/bond_main.c, one after the other.
pub mod Commands
pub mod Events
pub mod Reachable
use hoolock.Common.{ℕ, ◌≡◌, List, Bool, true, false, Option, none, some, NotIn}
use hoolock.Bond.State.{Bonding, NetDevice, SkBuff, Status, ok}
use hoolock.Bond.Monitor.{mii_monitor}
use hoolock.Bond.Enslave.{Services}
use hoolock.Bond.Release.{Remains, bond_release_all}
use hoolock.Bond.Vlans.{rx_register, rx_add_vid}
use hoolock.Bond.Arp.{Clock, Routes, ArpFrame, arp_rcv}
use hoolock.Bond.Arp.Balance.{loadbalance_arp_mon}
use hoolock.Bond.Arp.Backup.{activebackup_arp_mon}
use hoolock.Bond.Notify.{
  NetEvent, AddrEvent, Notified, unchanged, one_left, all_left, netdev_event, inetaddr_event,
}
use hoolock.Net.Receive.{Network}
use hoolock.Hoolock.Recv.{recv}
use hoolock.Ioctl.{Command, Request, do_ioctl}
use hoolock.Ioctl.Answers.{left_by}
use hoolock.Ioctl.Commands.{SlaveCommand, do_command}

-- The bond that a notifier leaves behind.
abbrev pub left_over : Notified → Bonding → Bonding
left_over (unchanged c) b = c
left_over (one_left r t) b = r.bond
left_over (all_left none) b = b
left_over (all_left (some r)) b = r.bond

-- What a device and an allocation bring along: a device without IFF_SLAVE has no master, and a
-- fresh structure is no slave of the list.
pub record Brings (alloc : Option ℕ) (o : Option NetDevice) (b : Bonding) : Type 0 where
  pub no_master : (d : NetDevice) → o ≡ some d → d.iff_slave ≡ false → d.master ≡ none
  pub fresh : (p : ℕ) → alloc ≡ some p → NotIn p b.slaves

-- One entry into the driver.
pub data Step (v : Services) : Bonding → Bonding → Type 0 where
  asked :
      (net : SkBuff → Network) (now : ℕ) (c : Command) (r : Request) (b : Bonding)
      → Step v b (left_by (do_ioctl v.extern net now c r b) b)
  commanded :
      (now : ℕ) (alloc : Option ℕ) (capable : Bool) (c : SlaveCommand) (o : Option NetDevice)
      (b : Bonding)
      → Brings alloc o b
      → Step v b (do_command v now alloc capable c o b).1
  mii : (now : ℕ) (b : Bonding) → Step v b (mii_monitor v.extern v.drivers now b).1
  balanced :
      (k : Clock) (r : Routes) (now : ℕ) (b : Bonding)
      → Step v b (loadbalance_arp_mon v.extern k r now b).1
  backed_up :
      (k : Clock) (r : Routes) (now : ℕ) (b : Bonding)
      → Step v b (activebackup_arp_mon v.extern k r now b).1
  arrived : (k : SkBuff) (orig : ℕ) (b : Bonding) → Step v b (recv k orig b).1
  arp_arrived :
      (now addr_len orig : ℕ) (f : ArpFrame) (b : Bonding)
      → Step v b (arp_rcv now addr_len orig f b)
  notified :
      (now : ℕ) (in_init_net is_master : Bool) (e : NetEvent) (d : NetDevice) (b : Bonding)
      → Step v b (left_over (netdev_event v now in_init_net is_master e d b) b)
  addressed :
      (r : Routes) (d : ℕ) (e : AddrEvent) (local left : ℕ) (b : Bonding)
      → Step v b (inetaddr_event r d e local left b)

-- Any number of them.
pub data Reaches (v : Services) : Bonding → Bonding → Type 0 where
  here : (b : Bonding) → Reaches v b b
  after : (b c d : Bonding) → Reaches v b c → Step v c d → Reaches v b d

-- ===== src/Run/Reachable.antt =====
-- The bonds that the entry points of 27/bond_main.c reach, one after the other.
use hoolock.Common.{◌≡◌, sym, subst, [], Distinct, none}
use hoolock.Bond.Slaves.Walks.{OptIn}
use hoolock.Bond.State.{Bonding, NetDevice, ok}
use hoolock.Bond.Invariant.{IsWellFormed}
use hoolock.Bond.Monitor.Commit.{mii_monitor-Preserves}
use hoolock.Bond.Enslave.{Services}
use hoolock.Bond.Enslave.Laws.{ServicesLaws}
use hoolock.Bond.Arp.Commit.{arp_monitors-Watches}
use hoolock.Run.{
  Step, asked, commanded, mii, balanced, backed_up, arrived, arp_arrived, notified, addressed,
  Reaches, here, after,
}
use hoolock.Run.Commands.{do_ioctl-IsWellFormed, do_command-IsWellFormed}
use hoolock.Run.Events.{
  recv-IsWellFormed, arp_rcv-IsWellFormed, netdev_event-IsWellFormed, inetaddr_event-IsWellFormed,
}

-- The bond as bond_init leaves it: without slaves.
pub record IsNew (b : Bonding) : Type 0 where
  pub slaves : b.slaves ≡ []
  pub curr_active_slave : b.curr_active_slave ≡ none
  pub primary_slave : b.primary_slave ≡ none
  pub current_arp_slave : b.current_arp_slave ≡ none

IsNew-IsWellFormed : (b : Bonding) → IsNew b → IsWellFormed b
IsNew-IsWellFormed b n = record {
  distinct = subst Distinct (sym n.slaves) tt;
  active_in = subst (λ o. OptIn o b.slaves) (sym n.curr_active_slave) tt;
  primary_in = subst (λ o. OptIn o b.slaves) (sym n.primary_slave) tt;
  arp_in = subst (λ o. OptIn o b.slaves) (sym n.current_arp_slave) tt;
}

module _ (v : Services) (laws : ServicesLaws v)
    (links : (d : NetDevice) → v.create_symlinks d ≡ ok) where
  Step-IsWellFormed : (b c : Bonding) → Step v b c → IsWellFormed b → IsWellFormed c
  Step-IsWellFormed _ _ (asked net now c r b) w =
      do_ioctl-IsWellFormed v.extern laws.extern net now c r b w
  Step-IsWellFormed _ _ (commanded now alloc capable c o b k) w =
      do_command-IsWellFormed v laws now b w links alloc capable c o k
  Step-IsWellFormed _ _ (mii now b) w =
      (mii_monitor-Preserves v.extern laws.extern v.drivers now b).valid w
  Step-IsWellFormed _ _ (balanced k r now b) w =
      (arp_monitors-Watches v.extern laws.extern k r now b w).0.valid w
  Step-IsWellFormed _ _ (backed_up k r now b) w =
      (arp_monitors-Watches v.extern laws.extern k r now b w).1.valid w
  Step-IsWellFormed _ _ (arrived k orig b) w = recv-IsWellFormed k orig b w
  Step-IsWellFormed _ _ (arp_arrived now addr_len orig f b) w =
      arp_rcv-IsWellFormed now addr_len orig f b w
  Step-IsWellFormed _ _ (notified now i m e d b) w =
      netdev_event-IsWellFormed v laws now b w i m e d
  Step-IsWellFormed _ _ (addressed r d e local left b) w =
      inetaddr_event-IsWellFormed b w r d e local left

  reached : (b c : Bonding) → Reaches v b c → IsWellFormed b → IsWellFormed c
  reached b _ (here _) w = w
  reached b _ (after _ c d r s) w = Step-IsWellFormed c d s (reached b c r w)

  -- Whatever sequence of ioctls, monitor rounds, packets and notifications a bond without slaves goes
  -- through, in every state that it reaches no slave is on the list twice, and the active slave,
  -- the primary slave and the candidate of the ARP monitor are NULL or slaves of the list; where a
  -- device without IFF_SLAVE has no master, a new structure is none of the slaves, and the symbolic
  -- links of a slave can be made.
  pub Reaches-IsWellFormed : (b c : Bonding) → IsNew b → Reaches v b c → IsWellFormed c
  Reaches-IsWellFormed b c n r = reached b c r (IsNew-IsWellFormed b n)

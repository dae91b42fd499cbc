-- ===== src/Run/Events.antt =====
-- The monitors, packet handlers and notifiers of 27/bond_main.c, and the well-formedness of the
-- bond.
use hoolock.Common.{
  ℕ, refl, sym, subst, Distinct, ◌++◌, List, [], ◌∷◌, Bool, true, false, not, inl, inr,
  if◌then◌else◌, ◌==◌,
}
use hoolock.Bond.State.{Bonding, NetDevice, SkBuff, VlanEntry, Status, ok, ebuffered, freed}
use hoolock.Bond.Slaves.{log}
use hoolock.Bond.Slaves.Walks.{OptIn}
use hoolock.Bond.Active.Members.{Leaves-IsWellFormed}
use hoolock.Bond.Active.Steps.{log-Leaves, put_slave-Leaves}
use hoolock.Bond.Invariant.{IsWellFormed}
use hoolock.Bond.Enslave.{Services}
use hoolock.Bond.Enslave.Laws.{ServicesLaws}
use hoolock.Bond.Release.{Remains, bond_release_and_destroy, bond_release_all}
use hoolock.Bond.Release.Freed.{bond_release-IsWellFormed}
use hoolock.Bond.Release.Drained.{Drained, bond_release_all-Drained}
use hoolock.Bond.Arp.{Routes, ArpFrame, arp_rcv}
use hoolock.Bond.Arp.Receive.{stamped, arp_rcv_lem}
use hoolock.Bond.Notify.{
  NetEvent, unregister, AddrEvent, Notified, master_event, slave_event, netdev_event,
  inetaddr_event, all_left,
}
use hoolock.Hoolock.Recv.{recv, buffers}
use hoolock.Run.{left_over}

either_result :
    (t : Bool) (r q : Status × Bonding)
    → IsWellFormed r.1
    → IsWellFormed q.1
    → IsWellFormed (if t then r else q).1
either_result true r q h k = h
either_result false r q h k = k

-- A packet that comes in changes the packet buffer at most.
pub recv-IsWellFormed :
    (k : SkBuff) (orig : ℕ) (b : Bonding) → IsWellFormed b → IsWellFormed (recv k orig b).1
unfolding recv
recv-IsWellFormed k orig b w =
    either_result (k.saddr == b.master_ip) (ok, b) _ w
      (either_result (buffers k orig b) (ebuffered, record b { pbuff = b.pbuff ++ (k ∷ []) })
        (ok, b)
        (record {
          distinct = w.distinct;
          active_in = w.active_in;
          primary_in = w.primary_in;
          arp_in = w.arp_in;
        })
        w)

logged : (k : SkBuff) (b : Bonding) → IsWellFormed b → IsWellFormed (log (freed k) b)
logged k b w = Leaves-IsWellFormed (log-Leaves (freed k) b) w

pub arp_rcv-IsWellFormed :
    (now addr_len orig : ℕ) (f : ArpFrame) (b : Bonding)
    → IsWellFormed b
    → IsWellFormed (arp_rcv now addr_len orig f b)
arp_rcv-IsWellFormed now addr_len orig f b w = elim (arp_rcv_lem now addr_len orig f b) [
  | inl e ↦ subst IsWellFormed (sym e) (logged f.skb b w)
  | inr (p, v, e) ↦
      subst IsWellFormed (sym e)
        (logged f.skb (stamped now p b) (Leaves-IsWellFormed (put_slave-Leaves p _ b refl) w))
]

-- An empty list with no slave pointers.
Drained-IsWellFormed : (b : Bonding) (r : Remains) → Drained b r → IsWellFormed r.bond
Drained-IsWellFormed b r d = record {
  distinct = subst Distinct (sym d.slaves) tt;
  active_in = subst (λ o. OptIn o r.bond.slaves) (sym d.active_none) tt;
  primary_in = subst (λ o. OptIn o r.bond.slaves) (sym d.primary_none) tt;
  arp_in = subst (λ o. OptIn o r.bond.slaves) (sym d.arp_none) tt;
}

module _ (v : Services) (laws : ServicesLaws v) (now : ℕ) (b : Bonding) (w : IsWellFormed b) where
  either_left :
      (t : Bool) (m n : Notified)
      → IsWellFormed (left_over m b)
      → IsWellFormed (left_over n b)
      → IsWellFormed (left_over (if t then m else n) b)
  either_left true m n h k = h
  either_left false m n h k = k

  all-IsWellFormed : IsWellFormed (left_over (all_left (bond_release_all v now b)) b)
  all-IsWellFormed =
      let (r, e, d) = bond_release_all-Drained v laws now b w in
      subst (λ o. IsWellFormed (left_over (all_left o) b)) (sym e) (Drained-IsWellFormed b r d)

  master-IsWellFormed : (e : NetEvent) → IsWellFormed (left_over (master_event v now e b) b)
  unfolding master_event
  master-IsWellFormed unregister = all-IsWellFormed
  master-IsWellFormed _ = w

  slave-IsWellFormed :
      (e : NetEvent) (d : NetDevice) → IsWellFormed (left_over (slave_event v now e d b) b)
  unfolding slave_event bond_release_and_destroy
  slave-IsWellFormed unregister d =
      let h = bond_release-IsWellFormed v laws b w now d in either_left b.setup_by_slave _ _ h h
  slave-IsWellFormed _ d = w

  pub netdev_event-IsWellFormed :
      (in_init_net is_master : Bool) (e : NetEvent) (d : NetDevice)
      → IsWellFormed (left_over (netdev_event v now in_init_net is_master e d b) b)
  unfolding netdev_event
  netdev_event-IsWellFormed in_init_net is_master e d = either_left (not in_init_net) _ _ w (
      either_left (not d.iff_bonding) _ _ w (
        either_left is_master _ _ (master-IsWellFormed e)
          (either_left d.iff_slave _ _ (slave-IsWellFormed e d) w)))

module _ (b : Bonding) (w : IsWellFormed b) where
  addressed_if :
      (t : Bool) (a : ℕ) (vs : List VlanEntry)
      → IsWellFormed (if t then record b { master_ip = a } else record b { vlan_list = vs })
  addressed_if true a vs = record {
    distinct = w.distinct;
    active_in = w.active_in;
    primary_in = w.primary_in;
    arp_in = w.arp_in;
  }
  addressed_if false a vs = record {
    distinct = w.distinct;
    active_in = w.active_in;
    primary_in = w.primary_in;
    arp_in = w.arp_in;
  }

  pub inetaddr_event-IsWellFormed :
      (r : Routes) (d : ℕ) (e : AddrEvent) (local left : ℕ)
      → IsWellFormed (inetaddr_event r d e local left b)
  unfolding inetaddr_event
  inetaddr_event-IsWellFormed r d e local left = addressed_if (b.dev.ptr == d) _ _

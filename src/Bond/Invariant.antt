-- ===== src/Bond/Invariant.antt =====
-- What no operation on the active slave changes, and the well-formedness of the driver's state.
use hoolock.Common.{ℕ, ◌≡◌, refl, ◌∙◌, Option, Distinct, subst, sym}
use hoolock.Bond.State.{Bonding, NetDevice, LinkState}
use hoolock.Bond.Slaves.Walks.{OptIn}
use hoolock.Bond.Active.{Extern}

-- From `b` to `c` the slave list, the parameters, the buffer and the identity of the devices stay.
pub record Keeps (b c : Bonding) : Type 0 where
  pub slaves : c.slaves ≡ b.slaves
  pub params : c.params ≡ b.params
  pub buffer_mode : c.buffer_mode ≡ b.buffer_mode
  pub pbuff : c.pbuff ≡ b.pbuff
  pub primary_slave : c.primary_slave ≡ b.primary_slave
  pub current_arp_slave : c.current_arp_slave ≡ b.current_arp_slave
  pub kill_timers : c.kill_timers ≡ b.kill_timers
  pub master_ip : c.master_ip ≡ b.master_ip
  pub bond_dev : c.dev.ptr ≡ b.dev.ptr
  pub slave_devs : (p : ℕ) → (c.mem p).dev.ptr ≡ (b.mem p).dev.ptr

pub Keeps-refl : (b : Bonding) → Keeps b b
Keeps-refl b = record {
  slaves = refl;
  params = refl;
  buffer_mode = refl;
  pbuff = refl;
  primary_slave = refl;
  current_arp_slave = refl;
  kill_timers = refl;
  master_ip = refl;
  bond_dev = refl;
  slave_devs = λ p. refl;
}

pub Keeps-trans : {b c d : Bonding} → Keeps b c → Keeps c d → Keeps b d
Keeps-trans h k = record {
  slaves = k.slaves ∙ h.slaves;
  params = k.params ∙ h.params;
  buffer_mode = k.buffer_mode ∙ h.buffer_mode;
  pbuff = k.pbuff ∙ h.pbuff;
  primary_slave = k.primary_slave ∙ h.primary_slave;
  current_arp_slave = k.current_arp_slave ∙ h.current_arp_slave;
  kill_timers = k.kill_timers ∙ h.kill_timers;
  master_ip = k.master_ip ∙ h.master_ip;
  bond_dev = k.bond_dev ∙ h.bond_dev;
  slave_devs = λ p. k.slave_devs p ∙ h.slave_devs p;
}

-- What the driver relies on in bond_3ad.c, bond_alb.c and the address change: they leave the list
-- and the buffer alone; only the change of the active slave, in the balancing modes, writes
-- `curr_active_slave`.
pub record ExternLaws (x : Extern) : Type 0 where
  pub carrier_keeps : (b : Bonding) → Keeps b (x.ad_set_carrier b).1
  pub carrier_active :
      (b : Bonding) → (x.ad_set_carrier b).1.curr_active_slave ≡ b.curr_active_slave
  pub ad_keeps : (p : ℕ) (l : LinkState) (b : Bonding) → Keeps b (x.ad_handle_link_change p l b)
  pub ad_active :
      (p : ℕ) (l : LinkState) (b : Bonding)
      → (x.ad_handle_link_change p l b).curr_active_slave ≡ b.curr_active_slave
  pub alb_keeps : (p : ℕ) (l : LinkState) (b : Bonding) → Keeps b (x.alb_handle_link_change p l b)
  pub alb_active :
      (p : ℕ) (l : LinkState) (b : Bonding)
      → (x.alb_handle_link_change p l b).curr_active_slave ≡ b.curr_active_slave
  pub change_keeps : (new : Option ℕ) (b : Bonding) → Keeps b (x.alb_handle_active_change new b)
  pub change_active :
      (new : Option ℕ) (b : Bonding) → (x.alb_handle_active_change new b).curr_active_slave ≡ new
  pub mac_keeps : (d : NetDevice) (a : ℕ) → (x.dev_set_mac_address d a).1.ptr ≡ d.ptr

-- The list names no slave twice, and the three slave pointers of the bond are NULL or on the list.
pub record IsWellFormed (b : Bonding) : Type 0 where
  pub distinct : Distinct b.slaves
  pub active_in : OptIn b.curr_active_slave b.slaves
  pub primary_in : OptIn b.primary_slave b.slaves
  pub arp_in : OptIn b.current_arp_slave b.slaves

-- So an operation that keeps the list is well-behaved if its new active slave is on the list.
pub Keeps-IsWellFormed :
    {b c : Bonding}
    → Keeps b c
    → OptIn c.curr_active_slave b.slaves
    → IsWellFormed b
    → IsWellFormed c
Keeps-IsWellFormed {b} {c} k i w = record {
  distinct = subst Distinct (sym k.slaves) w.distinct;
  active_in = subst (OptIn c.curr_active_slave) (sym k.slaves) i;
  primary_in =
      subst (OptIn c.primary_slave) (sym k.slaves)
        (subst (λ o. OptIn o b.slaves) (sym k.primary_slave) w.primary_in);
  arp_in =
      subst (OptIn c.current_arp_slave) (sym k.slaves)
        (subst (λ o. OptIn o b.slaves) (sym k.current_arp_slave) w.arp_in);
}

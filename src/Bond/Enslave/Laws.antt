-- ===== src/Bond/Enslave/Laws.antt =====
-- What bond_enslave and bond_release rely on outside the sources, and what they leave alone.
use hoolock.Common.{ℕ, ◌≡◌, refl, ◌∙◌, ap, sym, subst, List, ◌++◌, Option, none, some, Distinct}
use hoolock.Bond.State.{Bonding, Slave, NetDevice, Params}
use hoolock.Bond.Slaves.Walks.{OptIn, In-append_left}
use hoolock.Bond.Active.Steps.{Leaves}
use hoolock.Bond.Invariant.{ExternLaws, IsWellFormed}
use hoolock.Bond.Enslave.{Services}

-- The device is the same one, with the same master and opened or not as before.
pub record SameDevice (d e : NetDevice) : Type 0 where
  pub ptr : e.ptr ≡ d.ptr
  pub master : e.master ≡ d.master
  pub iff_slave : e.iff_slave ≡ d.iff_slave
  pub iff_up : e.iff_up ≡ d.iff_up

pub SameDevice-refl : (d : NetDevice) → SameDevice d d
SameDevice-refl d = record { ptr = refl; master = refl; iff_slave = refl; iff_up = refl }

pub record ServicesLaws (v : Services) : Type 0 where
  pub extern : ExternLaws v.extern
  pub mac_same : (d : NetDevice) (a : ℕ) → SameDevice d (v.extern.dev_set_mac_address d a).1
  pub alb_init : (s : Slave) (b : Bonding) → Leaves b (v.alb_init_slave s b).2
  pub alb_init_same : (s : Slave) (b : Bonding) → SameDevice s.dev (v.alb_init_slave s b).1
  pub alb_deinit : (p : ℕ) (b : Bonding) → Leaves b (v.alb_deinit_slave p b)
  pub ad_bind : (p : ℕ) (b : Bonding) → Leaves b (v.ad_bind_slave p b)
  pub ad_unbind : (p : ℕ) (b : Bonding) → Leaves b (v.ad_unbind_slave p b)

-- The slaves, the three slave pointers and the packet buffer of the bond are as before.
pub record Untouched (b c : Bonding) : Type 0 where
  pub slaves : c.slaves ≡ b.slaves
  pub curr_active_slave : c.curr_active_slave ≡ b.curr_active_slave
  pub primary_slave : c.primary_slave ≡ b.primary_slave
  pub current_arp_slave : c.current_arp_slave ≡ b.current_arp_slave
  pub buffer_mode : c.buffer_mode ≡ b.buffer_mode
  pub pbuff : c.pbuff ≡ b.pbuff
  pub mode : c.params.mode ≡ b.params.mode
  pub bond_dev : c.dev.ptr ≡ b.dev.ptr
  pub slave_devs : (p : ℕ) → (c.mem p).dev.ptr ≡ (b.mem p).dev.ptr

pub Untouched-refl : (b : Bonding) → Untouched b b
Untouched-refl b = record {
  slaves = refl;
  curr_active_slave = refl;
  primary_slave = refl;
  current_arp_slave = refl;
  buffer_mode = refl;
  pbuff = refl;
  mode = refl;
  bond_dev = refl;
  slave_devs = λ p. refl;
}

pub Untouched-trans : {b c d : Bonding} → Untouched b c → Untouched c d → Untouched b d
Untouched-trans h k = record {
  slaves = k.slaves ∙ h.slaves;
  curr_active_slave = k.curr_active_slave ∙ h.curr_active_slave;
  primary_slave = k.primary_slave ∙ h.primary_slave;
  current_arp_slave = k.current_arp_slave ∙ h.current_arp_slave;
  buffer_mode = k.buffer_mode ∙ h.buffer_mode;
  pbuff = k.pbuff ∙ h.pbuff;
  mode = k.mode ∙ h.mode;
  bond_dev = k.bond_dev ∙ h.bond_dev;
  slave_devs = λ p. k.slave_devs p ∙ h.slave_devs p;
}

pub Leaves-Untouched : {b c : Bonding} → Leaves b c → Untouched b c
Leaves-Untouched (k, e) = record {
  slaves = k.slaves;
  curr_active_slave = e;
  primary_slave = k.primary_slave;
  current_arp_slave = k.current_arp_slave;
  buffer_mode = k.buffer_mode;
  pbuff = k.pbuff;
  mode = ap (λ (ps : Params). ps.mode) k.params;
  bond_dev = k.bond_dev;
  slave_devs = k.slave_devs;
}

same_OptIn : (o u : Option ℕ) (xs ys : List ℕ) → u ≡ o → ys ≡ xs → OptIn o xs → OptIn u ys
same_OptIn o u xs ys e f i = subst (λ l. OptIn u l) (sym f) (subst (λ w. OptIn w xs) (sym e) i)

pub Untouched-IsWellFormed : {b c : Bonding} → Untouched b c → IsWellFormed b → IsWellFormed c
Untouched-IsWellFormed {b} {c} u w = record {
  distinct = subst Distinct (sym u.slaves) w.distinct;
  active_in = same_OptIn _ _ b.slaves _ u.curr_active_slave u.slaves w.active_in;
  primary_in = same_OptIn _ _ b.slaves _ u.primary_slave u.slaves w.primary_in;
  arp_in = same_OptIn _ _ b.slaves _ u.current_arp_slave u.slaves w.arp_in;
}

pub OptIn-append : (o : Option ℕ) (xs ys : List ℕ) → OptIn o xs → OptIn o (xs ++ ys)
OptIn-append none xs ys i = tt
OptIn-append (some q) xs ys i = In-append_left q xs ys i

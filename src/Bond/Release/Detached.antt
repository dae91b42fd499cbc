-- ===== src/Bond/Release/Detached.antt =====
-- The slave list and the slave pointers of the bond as a slave leaves, 27/bond_main.c.
use hoolock.Common.{
  ℕ, ◌≡◌, ◌≢◌, refl, ◌∙◌, ap, sym, subst, List, [], ◌∷◌, Bool, true, false, ◌&&◌, not, Option, none,
  some, if◌then◌else◌, In, NotIn, Distinct, arith, same, ==_false, ==_sound,
}
use hoolock.Bond.State.{Bonding, Mode, lacp}
use hoolock.Bond.Slaves.Walks.{OptIn}
use hoolock.Bond.Ring.{without}
use hoolock.Bond.Active.{change_active_slave}
use hoolock.Bond.Active.Steps.{Leaves, Leaves-trans, if-Leaves, either-Leaves, set_dev-Leaves}
use hoolock.Bond.Active.Change.{set_carrier-Leaves, change_active_slave-Sets}
use hoolock.Bond.Active.Members.{Leaves-IsWellFormed}
use hoolock.Bond.Invariant.{Keeps, Keeps-refl, IsWellFormed, Keeps-IsWellFormed}
use hoolock.Bond.Monitor.Commit.{Preserves, Leaves-Preserves, select_active_slave-Preserves}
use hoolock.Bond.Ring.Detach.{Distinct-without}
use hoolock.Bond.Vlans.{set_challenged, no_vlans, no_slaves, is_alb_mode, any_challenged}
use hoolock.Bond.Enslave.{Services}
use hoolock.Bond.Enslave.Laws.{ServicesLaws}
use hoolock.Bond.Release.{
  detach, unbind, forget_primary, replace_active, zero_addr, after_last, settle_master, under_lock,
}

pub without-NotIn : (s : ℕ) (xs : List ℕ) → Distinct xs → NotIn s (without s xs)
without-NotIn s [] d = tt
without-NotIn s (x ∷ xs) d =
    ground (arith, ==_sound x s, without-NotIn s xs d.1, ap (λ q. NotIn q xs))

-- A pointer to another slave stays on the list.
without-In : (q s : ℕ) (xs : List ℕ) → q ≢ s → In q xs → In q (without s xs)
without-In q s [] h i = elim i [ ]
without-In q s (x ∷ xs) h i = ground (arith, without-In q s xs h)

-- A change that keeps the list keeps it whatever slave was active before.
Keeps-from :
    (o : Option ℕ) {b c : Bonding} → Keeps b c → Keeps (record b { curr_active_slave = o }) c
Keeps-from o k = record {
  slaves = k.slaves;
  params = k.params;
  buffer_mode = k.buffer_mode;
  pbuff = k.pbuff;
  primary_slave = k.primary_slave;
  current_arp_slave = k.current_arp_slave;
  kill_timers = k.kill_timers;
  master_ip = k.master_ip;
  bond_dev = k.bond_dev;
  slave_devs = k.slave_devs;
}

-- The slave at `p` has left the list, and all but the slave pointers is as before.
pub record Left (b : Bonding) (p : ℕ) (c : Bonding) : Type 0 where
  pub slaves : c.slaves ≡ without p b.slaves
  pub buffer_mode : c.buffer_mode ≡ b.buffer_mode
  pub pbuff : c.pbuff ≡ b.pbuff
  pub params : c.params ≡ b.params
  pub slave_devs : (q : ℕ) → (c.mem q).dev.ptr ≡ (b.mem q).dev.ptr

Left-Keeps : {b c d : Bonding} (p : ℕ) → Left b p c → Keeps c d → Left b p d
Left-Keeps p h k = record {
  slaves = k.slaves ∙ h.slaves;
  buffer_mode = k.buffer_mode ∙ h.buffer_mode;
  pbuff = k.pbuff ∙ h.pbuff;
  params = k.params ∙ h.params;
  slave_devs = λ q. k.slave_devs q ∙ h.slave_devs q;
}

-- The bond between the detachment and the change of the active slave.
abbrev between : ℕ → Bonding → Bonding
between p b = forget_primary p (detach p (record b { current_arp_slave = none }))

OptIn-without :
    (p : ℕ) (o : Option ℕ) (xs : List ℕ)
    → same o (some p) ≡ false
    → OptIn o xs
    → OptIn o (without p xs)
OptIn-without p none xs h i = tt
OptIn-without p (some q) xs h i = without-In q p xs (==_false q p h) i

primary_left :
    (p : ℕ) (b : Bonding) (t : Bool)
    → same b.primary_slave (some p) ≡ t
    → OptIn b.primary_slave b.slaves
    → OptIn
        (if t
          then record (detach p (record b { current_arp_slave = none })) { primary_slave = none }
          else detach p (record b { current_arp_slave = none })).primary_slave
        (without p b.slaves)
primary_left p b true h i = tt
primary_left p b false h i = OptIn-without p b.primary_slave b.slaves h i

between-Left : (p : ℕ) (b : Bonding) → Left b p (between p b)
between-Left p b = forgotten (same b.primary_slave (some p))
  where
    forgotten :
        (t : Bool)
        → Left b p (
            if t
            then record (detach p (record b { current_arp_slave = none })) { primary_slave = none }
            else detach p (record b { current_arp_slave = none }))
    forgotten true = record {
      slaves = refl;
      buffer_mode = refl;
      pbuff = refl;
      params = refl;
      slave_devs = λ q. refl;
    }
    forgotten false = record {
      slaves = refl;
      buffer_mode = refl;
      pbuff = refl;
      params = refl;
      slave_devs = λ q. refl;
    }

between_arp : (p : ℕ) (b : Bonding) → (between p b).current_arp_slave ≡ none
between_arp p b = ground arith

between_active : (p : ℕ) (b : Bonding) → (between p b).curr_active_slave ≡ b.curr_active_slave
between_active p b = ground arith

-- It is well-formed with an active slave that is still on the list.
between-IsWellFormed :
    (p : ℕ) (o : Option ℕ) (b : Bonding)
    → IsWellFormed b
    → OptIn o (without p b.slaves)
    → IsWellFormed (record (between p b) { curr_active_slave = o })
between-IsWellFormed p o b w i =
    let s = (between-Left p b).slaves in
    record {
      distinct = subst Distinct (sym s) (Distinct-without p b.slaves w.distinct);
      active_in = subst (OptIn o) (sym s) i;
      primary_in =
          subst (OptIn (between p b).primary_slave) (sym s)
            (primary_left p b (same b.primary_slave (some p)) refl w.primary_in);
      arp_in = subst (λ q. OptIn q (between p b).slaves) (sym (between_arp p b)) tt;
    }

set_challenged-Leaves : (t : Bool) (b : Bonding) → Leaves b (set_challenged t b)
set_challenged-Leaves t b = set_dev-Leaves _ b refl

pub after_last-Leaves : (b : Bonding) → Leaves b (after_last b)
unfolding after_last
after_last-Leaves b =
    let h = set_dev-Leaves (record (b.dev) { dev_addr = 0 }) b refl in
    either-Leaves (no_vlans (zero_addr b))
      (Leaves-trans h (set_challenged-Leaves true (zero_addr b))) h

-- The list is without `p`, and the bond is well-formed.
pub record Drops (b : Bonding) (p : ℕ) (c : Bonding) : Type 0 where
  pub left : Left b p c
  pub valid : IsWellFormed c

pub Drops-Preserves : {b c d : Bonding} (p : ℕ) → Drops b p c → Preserves c d → Drops b p d
Drops-Preserves p h k = record { left = Left-Keeps p h.left k.keeps; valid = k.valid h.valid }

Drops-Leaves : {b c d : Bonding} (p : ℕ) → Drops b p c → Leaves c d → Drops b p d
Drops-Leaves p h k = Drops-Preserves p h (Leaves-Preserves k)

-- With an active slave that is still on the list, or none.
between-Drops :
    (p : ℕ) (o : Option ℕ) (b c : Bonding)
    → IsWellFormed b
    → Keeps (between p b) c
    → c.curr_active_slave ≡ o
    → OptIn o (without p b.slaves)
    → Drops b p c
between-Drops p o b c w k e i = record {
  left = Left-Keeps p (between-Left p b) k;
  valid =
      Keeps-IsWellFormed (Keeps-from o k)
        (subst (λ u. OptIn u (between p b).slaves) (sym e)
          (subst (OptIn o) (sym (between-Left p b).slaves) i))
        (between-IsWellFormed p o b w i);
}

module _ (v : Services) (laws : ServicesLaws v) where
  pub unbind-Leaves : (m : Mode) (p : ℕ) (b : Bonding) → Leaves b (unbind v m p b)
  unfolding unbind
  unbind-Leaves lacp p b = laws.ad_unbind p b
  unbind-Leaves _ p b = (Keeps-refl b, refl)

  settle_master-Leaves : (b : Bonding) → Leaves b (settle_master v b)
  unfolding settle_master
  settle_master-Leaves b =
      either-Leaves (no_slaves b)
        (Leaves-trans (set_carrier-Leaves v.extern laws.extern b) (after_last-Leaves _))
        (if-Leaves (b.dev.vlan_challenged && not (any_challenged b.mem b.slaves))
          (set_challenged-Leaves false b))

  replaced :
      (now p : ℕ) (t : Bool) (b : Bonding)
      → same b.curr_active_slave (some p) ≡ t
      → IsWellFormed b
      → Drops b p (replace_active v now t p (between p b))
  unfolding replace_active
  replaced now p true b e w =
      let s = change_active_slave-Sets v.extern laws.extern now none (between p b) in
      let c = change_active_slave v.extern now none (between p b) in
      Drops-Preserves p
        (Drops-Leaves p (between-Drops p none b c w s.0 s.1 tt)
          (if-Leaves (is_alb_mode c.params.mode) (laws.alb_deinit p c)))
        (select_active_slave-Preserves v.extern laws.extern now _)
  replaced now p false b e w =
      let c = between p b in
      Drops-Leaves p
        (between-Drops p b.curr_active_slave b c w (Keeps-refl c) (between_active p b)
          (OptIn-without p b.curr_active_slave b.slaves e w.active_in))
        (if-Leaves (is_alb_mode c.params.mode) (laws.alb_deinit p c))

  Left-after : {b c d : Bonding} (p : ℕ) → Leaves b c → Left c p d → Left b p d
  Left-after p h k = record {
    slaves = k.slaves ∙ ap (without p) h.0.slaves;
    buffer_mode = k.buffer_mode ∙ h.0.buffer_mode;
    pbuff = k.pbuff ∙ h.0.pbuff;
    params = k.params ∙ h.0.params;
    slave_devs = λ q. k.slave_devs q ∙ h.0.slave_devs q;
  }

  pub under_lock-Drops :
      (now p : ℕ) (b : Bonding) → IsWellFormed b → Drops b p (under_lock v now p b)
  unfolding under_lock
  under_lock-Drops now p b w =
      let h = unbind-Leaves b.params.mode p b in
      let c = unbind v b.params.mode p b in
      let k =
        Drops-Leaves p
          (replaced now p (same c.curr_active_slave (some p)) c refl (Leaves-IsWellFormed h w))
          (settle_master-Leaves _) in
      record { left = Left-after p h k.left; valid = k.valid }

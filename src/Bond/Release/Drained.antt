-- ===== src/Bond/Release/Drained.antt =====
-- bond_release_all of 27/bond_main.c.
use hoolock.Common.{
  ℕ, suc, ◌≡◌, refl, ◌∙◌, ap, sym, subst, List, [], ◌∷◌, Bool, true, false, Option, none, some,
  if◌then◌else◌, length, ==_refl,
}
use hoolock.Bond.State.{Bonding, NetDevice}
use hoolock.Bond.Slaves.Walks.{OptIn}
use hoolock.Bond.Ring.{without}
use hoolock.Bond.Active.{change_active_slave}
use hoolock.Bond.Active.Change.{change_active_slave-Sets}
use hoolock.Bond.Active.Steps.{Leaves, Leaves-trans, if-Leaves}
use hoolock.Bond.Invariant.{Keeps-refl, IsWellFormed}
use hoolock.Bond.Vlans.{is_alb_mode}
use hoolock.Bond.Enslave.{Services, is_fom_none}
use hoolock.Bond.Enslave.Laws.{ServicesLaws}
use hoolock.Bond.Release.{
  Remains, detach, unbind, release_first, and_freed, release_each, at_end, after_last,
  bond_release_all,
}
use hoolock.Bond.Release.Detached.{unbind-Leaves, after_last-Leaves}
use hoolock.Bond.Release.Freed.{
  IsFree, IsFree-at, clear_inactive-IsFree, let_go-IsFree, del_vlans-Leaves, flush-Leaves,
}

-- The list is `xs`, and the slave pointers, the packet buffer and the devices are as before.
record Sheds (b : Bonding) (xs : List ℕ) (c : Bonding) : Type 0 where
  pub slaves : c.slaves ≡ xs
  pub curr_active_slave : c.curr_active_slave ≡ b.curr_active_slave
  pub primary_slave : c.primary_slave ≡ b.primary_slave
  pub current_arp_slave : c.current_arp_slave ≡ b.current_arp_slave
  pub buffer_mode : c.buffer_mode ≡ b.buffer_mode
  pub pbuff : c.pbuff ≡ b.pbuff
  pub slave_devs : (p : ℕ) → (c.mem p).dev.ptr ≡ (b.mem p).dev.ptr

Leaves-Sheds : {b c : Bonding} {xs : List ℕ} → Leaves b c → b.slaves ≡ xs → Sheds b xs c
Leaves-Sheds (k, e) s = record {
  slaves = k.slaves ∙ s;
  curr_active_slave = e;
  primary_slave = k.primary_slave;
  current_arp_slave = k.current_arp_slave;
  buffer_mode = k.buffer_mode;
  pbuff = k.pbuff;
  slave_devs = k.slave_devs;
}

detach-Sheds : (p : ℕ) (ps : List ℕ) (b : Bonding) → b.slaves ≡ p ∷ ps → Sheds b ps (detach p b)
detach-Sheds p ps b e = record {
  slaves = ap (without p) e ∙ ap (λ (t : Bool). if t then ps else p ∷ without p ps) (==_refl p);
  curr_active_slave = refl;
  primary_slave = refl;
  current_arp_slave = refl;
  buffer_mode = refl;
  pbuff = refl;
  slave_devs = λ q. refl;
}

Sheds-trans : {b c d : Bonding} {xs ys : List ℕ} → Sheds b xs c → Sheds c ys d → Sheds b ys d
Sheds-trans h k = record {
  slaves = k.slaves;
  curr_active_slave = k.curr_active_slave ∙ h.curr_active_slave;
  primary_slave = k.primary_slave ∙ h.primary_slave;
  current_arp_slave = k.current_arp_slave ∙ h.current_arp_slave;
  buffer_mode = k.buffer_mode ∙ h.buffer_mode;
  pbuff = k.pbuff ∙ h.pbuff;
  slave_devs = λ p. k.slave_devs p ∙ h.slave_devs p;
}

-- The devices of the slaves, in their order, have been let go.
abbrev pub AllFree : (ℕ → ℕ) → List ℕ → List NetDevice → Type 0
AllFree f [] [] = Unit
AllFree f [] (d ∷ ds) = ⊥
AllFree f (p ∷ ps) [] = ⊥
AllFree f (p ∷ ps) (d ∷ ds) = IsFree (f p) d × AllFree f ps ds

-- The loop has released all slaves.
record Emptied (f : ℕ → ℕ) (b : Bonding) (xs : List ℕ) (r : Remains) : Type 0 where
  pub sheds : Sheds b [] r.bond
  pub freed : r.freed ≡ xs
  pub devices : AllFree f xs r.devices

module _ (v : Services) (laws : ServicesLaws v) where
  abbrev round : ℕ → Bonding → Bonding × NetDevice
  round p b = release_first v p b

  first-Sheds : (p : ℕ) (ps : List ℕ) (b : Bonding) → b.slaves ≡ p ∷ ps → Sheds b ps (round p b).0
  unfolding release_first
  first-Sheds p ps b e =
      let h = unbind-Leaves v laws b.params.mode p b in
      let c = detach p (unbind v b.params.mode p b) in
      let l = if-Leaves (is_alb_mode c.params.mode) (laws.alb_deinit p c) in
      let b₂ = if is_alb_mode c.params.mode then v.alb_deinit_slave p c else c in
      let d = (b₂.mem p).dev in
      let s = detach-Sheds p ps _ (h.0.slaves ∙ e) in
      Sheds-trans (Leaves-Sheds h e) (
        Sheds-trans s (
          Leaves-Sheds
            (Leaves-trans l
              (Leaves-trans (del_vlans-Leaves v.vlan_ops d b₂) (flush-Leaves v d.ptr _)))
            s.slaves))

  -- The device of the slave that the round releases.
  first-IsFree :
      (p : ℕ) (ps : List ℕ) (b : Bonding)
      → b.slaves ≡ p ∷ ps
      → IsFree (b.mem p).dev.ptr (round p b).1
  unfolding release_first
  first-IsFree p ps b e =
      let h = unbind-Leaves v laws b.params.mode p b in
      let c = detach p (unbind v b.params.mode p b) in
      let l = if-Leaves (is_alb_mode c.params.mode) (laws.alb_deinit p c) in
      let b₂ = if is_alb_mode c.params.mode then v.alb_deinit_slave p c else c in
      let s = (b₂.mem p) in
      IsFree-at (l.0.slave_devs p ∙ h.0.slave_devs p) (
        clear_inactive-IsFree
          (let_go-IsFree v laws (is_fom_none b₂.params.fail_over_mac) s.perm_hwaddr b₂ s.dev))

  -- The loop, with fuel for one round more than there are slaves.
  emptied :
      (f : ℕ → ℕ) (xs : List ℕ) (b : Bonding)
      → b.slaves ≡ xs
      → ((q : ℕ) → (b.mem q).dev.ptr ≡ f q)
      → (r : Remains) × (release_each v (suc (length xs)) b ≡ some r) × Emptied f b xs r
  unfolding release_each
  emptied f [] b e k = (
    record { bond = b; devices = []; freed = [] },
    rw e refl,
    record { sheds = Leaves-Sheds (Keeps-refl b, refl) e; freed = refl; devices = tt },
  )
  emptied f (p ∷ ps) b e k =
      let c = round p b in
      let h = first-Sheds p ps b e in
      let (r, g, m) = emptied f ps c.0 h.slaves (λ q. h.slave_devs q ∙ k q) in
      (
        record { bond = r.bond; devices = c.1 ∷ r.devices; freed = p ∷ r.freed },
        ap
              (λ (xs : List ℕ). elim xs [
                | [] ↦ some (record { bond = b; devices = []; freed = [] })
                | q ∷ qs ↦
                    and_freed q (round q b).1 (release_each v (suc (length ps)) (round q b).0)
              ])
              e
            ∙ ap (and_freed p c.1) g,
        record {
          sheds = Sheds-trans h m.sheds;
          freed = ap (λ ys. p ∷ ys) m.freed;
          devices = (IsFree-at (k p) (first-IsFree p ps b e), m.devices);
        },
      )

-- All slaves have been released.
pub record Drained (b : Bonding) (r : Remains) : Type 0 where
  pub slaves : r.bond.slaves ≡ []
  pub active_none : r.bond.curr_active_slave ≡ none
  pub primary_none : r.bond.primary_slave ≡ none
  pub arp_none : r.bond.current_arp_slave ≡ none
  pub freed : r.freed ≡ b.slaves
  pub devices : AllFree (λ p. (b.mem p).dev.ptr) b.slaves r.devices
  pub buffer_mode : r.bond.buffer_mode ≡ b.buffer_mode
  pub pbuff : r.bond.pbuff ≡ b.pbuff

OptIn-none : (o : Option ℕ) → OptIn o [] → o ≡ none
OptIn-none none i = refl
OptIn-none (some p) i = elim i [ ]

module _ (v : Services) (laws : ServicesLaws v) (now : ℕ) (b : Bonding) (w : IsWellFormed b) where
  off_carrier : Bonding
  off_carrier = record b { dev = record (b.dev) { carrier = false } }

  -- The bond before the loop.
  no_active : Bonding
  no_active =
      change_active_slave v.extern now none
        (record off_carrier { current_arp_slave = none; primary_slave = none })

  idle : b.slaves ≡ [] → Drained b (record { bond = off_carrier; devices = []; freed = [] })
  unfolding off_carrier
  idle e = record {
    slaves = e;
    active_none = OptIn-none _ (subst (OptIn b.curr_active_slave) e w.active_in);
    primary_none = OptIn-none _ (subst (OptIn b.primary_slave) e w.primary_in);
    arp_none = OptIn-none _ (subst (OptIn b.current_arp_slave) e w.arp_in);
    freed = sym e;
    devices = subst (λ xs. AllFree (λ p. (b.mem p).dev.ptr) xs []) (sym e) tt;
    buffer_mode = refl;
    pbuff = refl;
  }

  drained_by :
      (r : Remains)
      → Emptied (λ p. (b.mem p).dev.ptr) no_active b.slaves r
      → Drained b (record r { bond = after_last r.bond })
  unfolding no_active off_carrier
  drained_by r m =
      let a = after_last-Leaves r.bond in
      let s = Sheds-trans m.sheds (Leaves-Sheds a m.sheds.slaves) in
      let c =
        change_active_slave-Sets v.extern laws.extern now none
          (record off_carrier { current_arp_slave = none; primary_slave = none }) in
      record {
        slaves = s.slaves;
        active_none = s.curr_active_slave ∙ c.1;
        primary_none = s.primary_slave ∙ c.0.primary_slave;
        arp_none = s.current_arp_slave ∙ c.0.current_arp_slave;
        freed = m.freed;
        devices = m.devices;
        buffer_mode = s.buffer_mode ∙ c.0.buffer_mode;
        pbuff = s.pbuff ∙ c.0.pbuff;
      }

  by_list :
      (xs : List ℕ)
      → b.slaves ≡ xs
      → (r : Remains) × (bond_release_all v now b ≡ some r) × Drained b r
  unfolding bond_release_all no_active off_carrier
  by_list [] e = (record { bond = off_carrier; devices = []; freed = [] }, rw e refl, idle e)
  by_list (p ∷ ps) e =
      let c =
        change_active_slave-Sets v.extern laws.extern now none
          (record off_carrier { current_arp_slave = none; primary_slave = none }) in
      let (r, g, m) =
        emptied v laws (λ q. (b.mem q).dev.ptr) b.slaves no_active c.0.slaves c.0.slave_devs in
      (
        record r { bond = after_last r.bond },
        ap
              (λ (t : Bool).
                if t
                then some (record { bond = off_carrier; devices = []; freed = [] })
                else at_end (release_each v (suc (length b.slaves)) no_active))
              (ap (λ (xs : List ℕ). elim xs [ [] ↦ true | q ∷ qs ↦ false ]) e)
            ∙ ap at_end g,
        drained_by r m,
      )

  -- Where the bond is well-formed, the loop of `bond_release_all` ends: all slaves are freed, each
  -- once and in the order of the list, their devices are without a master, closed and no longer
  -- slaves, the list is empty, the three slave pointers are NULL, and the packet buffer is as before.
  pub bond_release_all-Drained : (r : Remains) × (bond_release_all v now b ≡ some r) × Drained b r
  bond_release_all-Drained = by_list b.slaves refl

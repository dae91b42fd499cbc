-- ===== src/Bond/Enslave/Attached.antt =====
-- bond_enslave from the attachment of the slave on.
use hoolock.Common.{
  ℕ, ◌≡◌, refl, ◌∙◌, sym, ap, subst, List, [], ◌∷◌, ◌++◌, Bool, true, false, Option, none, some,
  is_some, if◌then◌else◌, In, NotIn, inl, Distinct-snoc, arith, ==_refl,
}
use hoolock.Bond.State.{
  Bonding, Slave, Params, Mode, round_robin, active_backup, balance_xor, broadcast, lacp, tlb, alb,
  hoolock_mode, active,
}
use hoolock.Bond.Slaves.{edit, put_slave, set_slave_active_flags}
use hoolock.Bond.Slaves.Walks.{In-append_right}
use hoolock.Bond.Active.{change_active_slave}
use hoolock.Bond.Active.Steps.{ptr-set_slave_inactive_flags, put_slave-Leaves, inactive_at-Leaves}
use hoolock.Bond.Active.Change.{set_carrier-Leaves, install_active, change_active_slave-Sets}
use hoolock.Bond.Active.Members.{change_active_slave-IsWellFormed}
use hoolock.Bond.Invariant.{Keeps-IsWellFormed, IsWellFormed}
use hoolock.Bond.Monitor.{check_dev_link}
use hoolock.Bond.Monitor.Commit.{
  Preserves, Preserves-refl, Preserves-trans, Leaves-Preserves, select_active_slave-Preserves,
}
use hoolock.Bond.Enslave.{Services, initial_link, note_primary, by_mode, attached}
use hoolock.Bond.Enslave.Laws.{ServicesLaws, OptIn-append}

snoc-In : (p : ℕ) (xs : List ℕ) → In p (xs ++ (p ∷ []))
snoc-In p xs = In-append_right p xs (p ∷ []) (inl refl)

-- The bond with the slave put at the end of the list.
abbrev pub snoc : ℕ → Slave → Bonding → Bonding
snoc p s b = record (put_slave p s b) { slaves = b.slaves ++ (p ∷ []) }

snoc-IsWellFormed :
    (p : ℕ) (s : Slave) (b : Bonding)
    → IsWellFormed b
    → NotIn p b.slaves
    → IsWellFormed (snoc p s b)
snoc-IsWellFormed p s b w n = record {
  distinct = Distinct-snoc p b.slaves w.distinct n;
  active_in = OptIn-append b.curr_active_slave b.slaves (p ∷ []) w.active_in;
  primary_in = OptIn-append b.primary_slave b.slaves (p ∷ []) w.primary_in;
  arp_in = OptIn-append b.current_arp_slave b.slaves (p ∷ []) w.arp_in;
}

ptr-initial_link :
    (v : Services) (now : ℕ) (ps : Params) (o : Option Bool) (s : Slave)
    → (initial_link v now ps o s).dev.ptr ≡ s.dev.ptr
unfolding initial_link
ptr-initial_link v now ps o s = ground arith

module _ (v : Services) where
  primary_if :
      (t : Bool) (p : ℕ) (b : Bonding)
      → In p b.slaves
      → IsWellFormed b
      → IsWellFormed (if t then record b { primary_slave = some p } else b)
  primary_if true p b i w = record {
    distinct = w.distinct;
    active_in = w.active_in;
    primary_in = i;
    arp_in = w.arp_in;
  }
  primary_if false p b i w = w

  note_primary-IsWellFormed :
      (p : ℕ) (b : Bonding) → In p b.slaves → IsWellFormed b → IsWellFormed (note_primary v p b)
  unfolding note_primary
  note_primary-IsWellFormed p b i w = primary_if _ p b i w

-- All but the primary slave stays.
record Notes (b c : Bonding) : Type 0 where
  pub slaves : c.slaves ≡ b.slaves
  pub curr_active_slave : c.curr_active_slave ≡ b.curr_active_slave
  pub buffer_mode : c.buffer_mode ≡ b.buffer_mode
  pub pbuff : c.pbuff ≡ b.pbuff
  pub mem : c.mem ≡ b.mem

primary_if-Notes :
    (t : Bool) (p : ℕ) (b : Bonding)
    → Notes b (if t then record b { primary_slave = some p } else b)
primary_if-Notes true p b = record {
  slaves = refl;
  curr_active_slave = refl;
  buffer_mode = refl;
  pbuff = refl;
  mem = refl;
}
primary_if-Notes false p b = record {
  slaves = refl;
  curr_active_slave = refl;
  buffer_mode = refl;
  pbuff = refl;
  mem = refl;
}

note_primary-Notes : (v : Services) (p : ℕ) (b : Bonding) → Notes b (note_primary v p b)
unfolding note_primary
note_primary-Notes v p b = primary_if-Notes _ p b

module _ (v : Services) (laws : ServicesLaws v) where
  become_active :
      (now p : ℕ) (t : Bool) (b : Bonding)
      → In p b.slaves
      → Preserves b (if t then b else record b { curr_active_slave = some p })
  become_active now p true b i = Preserves-refl b
  become_active now p false b i = record {
    keeps = (install_active (some p) b).0;
    valid = λ w. Keeps-IsWellFormed (install_active (some p) b).0 i w;
  }

  hoolock_active :
      (now p : ℕ) (t : Bool) (b : Bonding)
      → In p b.slaves
      → Preserves b (if t then b else change_active_slave v.extern now (some p) b)
  hoolock_active now p true b i = Preserves-refl b
  hoolock_active now p false b i = record {
    keeps = (change_active_slave-Sets v.extern laws.extern now (some p) b).0;
    valid = λ w. change_active_slave-IsWellFormed v.extern laws.extern now (some p) b i w;
  }

  trunk-Preserves :
      (now p : ℕ) (b : Bonding)
      → In p b.slaves
      → Preserves b (
          if is_some b.curr_active_slave
          then edit p (λ s. record s { state = active }) b
          else record (edit p (λ s. record s { state = active }) b) { curr_active_slave = some p })
  trunk-Preserves now p b i =
      let c = edit p (λ s. record s { state = active }) b in
      Preserves-trans (Leaves-Preserves (put_slave-Leaves p _ b refl))
        (become_active now p (is_some b.curr_active_slave) c i)

  by_mode-Preserves :
      (now : ℕ) (m : Mode) (p : ℕ) (b : Bonding) → In p b.slaves → Preserves b (by_mode v now m p b)
  unfolding by_mode set_slave_active_flags
  by_mode-Preserves now active_backup p b i =
      Preserves-trans (Leaves-Preserves (inactive_at-Leaves (some p) b))
        (select_active_slave-Preserves v.extern laws.extern now _)
  by_mode-Preserves now lacp p b i =
      Preserves-trans (Leaves-Preserves (inactive_at-Leaves (some p) b))
        (Leaves-Preserves (laws.ad_bind p _))
  by_mode-Preserves now tlb p b i =
      Leaves-Preserves (put_slave-Leaves p _ b (ptr-set_slave_inactive_flags b _))
  by_mode-Preserves now alb p b i =
      Leaves-Preserves (put_slave-Leaves p _ b (ptr-set_slave_inactive_flags b _))
  by_mode-Preserves now hoolock_mode p b i =
      Preserves-trans (Leaves-Preserves (put_slave-Leaves p _ b refl))
        (hoolock_active now p (is_some b.curr_active_slave) _ i)
  by_mode-Preserves now round_robin p b i = trunk-Preserves now p b i
  by_mode-Preserves now balance_xor p b i = trunk-Preserves now p b i
  by_mode-Preserves now broadcast p b i = trunk-Preserves now p b i

-- The slave that is active in hoolock mode once `p` is on the list.
abbrev pub or_new : ℕ → Option ℕ → Option ℕ
or_new p none = some p
or_new p (some q) = some q

-- From `b` to `c` the slave `s` has gone to the end of the list, at `p`.
pub record Attached (b : Bonding) (p : ℕ) (s : Slave) (c : Bonding) : Type 0 where
  pub slaves : c.slaves ≡ b.slaves ++ (p ∷ [])
  pub valid : IsWellFormed c
  pub slave_dev : (c.mem p).dev.ptr ≡ s.dev.ptr
  pub buffer_mode : c.buffer_mode ≡ b.buffer_mode
  pub pbuff : c.pbuff ≡ b.pbuff
  pub hoolock : b.params.mode ≡ hoolock_mode → c.curr_active_slave ≡ or_new p b.curr_active_slave

module _ (v : Services) (laws : ServicesLaws v) (now p : ℕ) where
  chosen :
      (o : Option ℕ) (b : Bonding)
      → b.curr_active_slave ≡ o
      → (if is_some o then b else change_active_slave v.extern now (some p) b).curr_active_slave
        ≡ or_new p o
  chosen none b e = (change_active_slave-Sets v.extern laws.extern now (some p) b).1
  chosen (some q) b e = e

  by_mode-hoolock :
      (m : Mode) (b : Bonding)
      → m ≡ hoolock_mode
      → (by_mode v now m p b).curr_active_slave ≡ or_new p b.curr_active_slave
  unfolding by_mode
  by_mode-hoolock hoolock_mode b e = chosen b.curr_active_slave _ refl
  by_mode-hoolock _ b e = ground arith

  ptr-stored : (q : ℕ) (t : Slave) (b : Bonding) → ((put_slave q t b).mem q).dev.ptr ≡ t.dev.ptr
  ptr-stored q t b = ground (arith, ==_refl q)

  pub attached_lem :
      (s : Slave) (b : Bonding)
      → IsWellFormed b
      → NotIn p b.slaves
      → Attached b p s (attached v now p s b)
  unfolding attached
  attached_lem s b w n =
      let b₁ = snoc p s b in
      let up = check_dev_link v.drivers b.params s.dev false in
      let u = record (b₁.mem p) { last_arp_rx = now } in
      let t = initial_link v now b.params up u in
      let e = ptr-initial_link v now b.params up u in
      let h₁ = Leaves-Preserves (put_slave-Leaves p t b₁ e) in
      let b₂ = put_slave p t b₁ in
      let h₂ = note_primary-Notes v p b₂ in
      let b₃ = note_primary v p b₂ in
      let w₂ =
        note_primary-IsWellFormed v p b₂ (snoc-In p b.slaves)
          (h₁.valid (snoc-IsWellFormed p s b w n)) in
      let h₃ =
        by_mode-Preserves v laws now b.params.mode p b₃
          (subst (In p) (sym h₂.slaves) (snoc-In p b.slaves)) in
      let h₄ = set_carrier-Leaves v.extern laws.extern (by_mode v now b.params.mode p b₃) in
      record {
        slaves = h₄.0.slaves ∙ h₃.keeps.slaves ∙ h₂.slaves;
        valid = (Leaves-Preserves h₄).valid (h₃.valid w₂);
        slave_dev =
            h₄.0.slave_devs p
            ∙ h₃.keeps.slave_devs p
            ∙ ap (λ (m : ℕ → Slave). (m p).dev.ptr) h₂.mem
            ∙ ptr-stored p t b₁
            ∙ e
            ∙ ptr-stored p s b;
        buffer_mode = h₄.0.buffer_mode ∙ h₃.keeps.buffer_mode ∙ h₂.buffer_mode;
        pbuff = h₄.0.pbuff ∙ h₃.keeps.pbuff ∙ h₂.pbuff;
        hoolock =
            λ e. h₄.1 ∙ by_mode-hoolock b.params.mode b₃ e ∙ ap (or_new p) h₂.curr_active_slave;
      }

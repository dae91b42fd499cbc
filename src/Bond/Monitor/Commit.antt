-- ===== src/Bond/Monitor/Commit.antt =====
-- What bond_miimon_commit and bond_mii_monitor, 27/bond_main.c, keep.
use hoolock.Common.{
  ℕ, ◌≡◌, refl, List, [], ◌∷◌, Bool, not, ◌==◌, true, false, Option, none, some, if◌then◌else◌,
  arith,
}
use hoolock.Bond.State.{
  Bonding, Slave, Params, Mode, active_backup, lacp, LinkState, link_up, link_fail, link_down,
  link_back,
}
use hoolock.Bond.Active.{send_gratuitous_arp, Extern, select_active_slave}
use hoolock.Bond.Active.Steps.{
  Leaves, put_slave-Leaves, inactive_at-Leaves, send_gratuitous_arp-Leaves,
}
use hoolock.Bond.Active.Change.{link_change-Leaves, select_active_slave-Sets, set_carrier-Leaves}
use hoolock.Bond.Active.Members.{Leaves-IsWellFormed, select_active_slave-IsWellFormed}
use hoolock.Bond.Invariant.{Keeps, Keeps-refl, Keeps-trans, ExternLaws, IsWellFormed}
use hoolock.Bond.Monitor.{
  came_up, went_down, commit_link, commit_each, commit, mii_round, mii_unless_empty, mii_monitor,
  inspect_slave, inspect_each, inspect, Drivers,
}

-- An operation that keeps the list, and the bond well-formed.
pub record Preserves (b c : Bonding) : Type 0 where
  pub keeps : Keeps b c
  pub valid : IsWellFormed b → IsWellFormed c

pub Preserves-refl : (b : Bonding) → Preserves b b
Preserves-refl b = record { keeps = Keeps-refl b; valid = λ w. w }

pub Preserves-trans : {b c d : Bonding} → Preserves b c → Preserves c d → Preserves b d
Preserves-trans h k = record {
  keeps = Keeps-trans h.keeps k.keeps;
  valid = λ w. k.valid (h.valid w);
}

pub Leaves-Preserves : {b c : Bonding} → Leaves b c → Preserves b c
Leaves-Preserves h = record { keeps = h.0; valid = Leaves-IsWellFormed h }

-- A step taken under a test.
pub if-Preserves : (t : Bool) {b c : Bonding} → Preserves b c → Preserves b (if t then c else b)
if-Preserves true h = h
if-Preserves false {b} h = Preserves-refl b

pub unless-Preserves : (t : Bool) {b c : Bonding} → Preserves b c → Preserves b (if t then b else c)
unless-Preserves true {b} h = Preserves-refl b
unless-Preserves false h = h

ptr-came_up : (m : Mode) (t : Bool) (s : Slave) → (came_up m t s).dev.ptr ≡ s.dev.ptr
unfolding came_up
ptr-came_up lacp t s = refl
ptr-came_up active_backup t s = ground arith
ptr-came_up _ t s = refl

went_down-Leaves : (m : Mode) (p : ℕ) (b : Bonding) → Leaves b (went_down m p b)
unfolding went_down
went_down-Leaves active_backup p b = inactive_at-Leaves (some p) b
went_down-Leaves lacp p b = inactive_at-Leaves (some p) b
went_down-Leaves _ p b = (Keeps-refl b, refl)

ptr-inspect_slave :
    (ps : Params) (now : ℕ) (up : Bool) (s : Slave)
    → (inspect_slave ps now up s).1.dev.ptr ≡ s.dev.ptr
unfolding inspect_slave
ptr-inspect_slave ps now up s = ground arith

module _ (x : Extern) (laws : ExternLaws x) where
  pub select_active_slave-Preserves :
      (now : ℕ) (b : Bonding) → Preserves b (select_active_slave x now b)
  select_active_slave-Preserves now b = record {
    keeps = (select_active_slave-Sets x laws now b).0;
    valid = select_active_slave-IsWellFormed x laws now b;
  }

  commit_link-Preserves :
      (now p : ℕ) (l : Option LinkState) (b : Bonding) → Preserves b (commit_link x now p l b)
  unfolding commit_link
  commit_link-Preserves now p none b = Preserves-refl b
  commit_link-Preserves now p (some link_up) b =
      Preserves-trans
        (Preserves-trans (Leaves-Preserves (put_slave-Leaves p _ b (ptr-came_up b.params.mode _ _)))
          (Leaves-Preserves (link_change-Leaves x laws b.params.mode p link_up _)))
        (if-Preserves _ (select_active_slave-Preserves now _))
  commit_link-Preserves now p (some link_down) b =
      Preserves-trans
        (Preserves-trans
          (Preserves-trans (Leaves-Preserves (put_slave-Leaves p _ b refl))
            (Leaves-Preserves (went_down-Leaves b.params.mode p _)))
          (Leaves-Preserves (link_change-Leaves x laws b.params.mode p link_down _)))
        (if-Preserves _ (select_active_slave-Preserves now _))
  commit_link-Preserves now p (some link_fail) b = Leaves-Preserves (put_slave-Leaves p _ b refl)
  commit_link-Preserves now p (some link_back) b = Leaves-Preserves (put_slave-Leaves p _ b refl)

  commit_each-Preserves :
      (now : ℕ) (ps : List ℕ) (b : Bonding) → Preserves b (commit_each x now ps b)
  unfolding commit_each
  commit_each-Preserves now [] b = Preserves-refl b
  commit_each-Preserves now (p ∷ ps) b =
      Preserves-trans (commit_link-Preserves now p (b.mem p).new_link b)
        (commit_each-Preserves now ps _)

  -- `bond_miimon_commit` keeps the slave list, the parameters and the packet buffer, and keeps the
  -- bond well-formed, whatever failovers it makes.
  pub commit-Preserves : (now : ℕ) (b : Bonding) → Preserves b (commit x now b)
  unfolding commit
  commit-Preserves now b =
      Preserves-trans (commit_each-Preserves now b.slaves b)
        (Leaves-Preserves (set_carrier-Leaves x laws _))

  inspect_each-Preserves :
      (v : Drivers) (now : ℕ) (ps : List ℕ) (b : Bonding) → Preserves b (inspect_each v now ps b).1
  unfolding inspect_each
  inspect_each-Preserves v now [] b = Preserves-refl b
  inspect_each-Preserves v now (p ∷ ps) b =
      Preserves-trans
        (Leaves-Preserves (put_slave-Leaves p _ b (ptr-inspect_slave b.params now _ (b.mem p))))
        (inspect_each-Preserves v now ps _)

  mii_round-Preserves : (v : Drivers) (now : ℕ) (b : Bonding) → Preserves b (mii_round x v now b)
  unfolding mii_round inspect
  mii_round-Preserves v now b =
      let b₁ = if b.send_grat_arp == 0 then b else send_gratuitous_arp b in
      let c = inspect_each v now b₁.slaves b₁ in
      Preserves-trans
        (Preserves-trans
          (unless-Preserves (b.send_grat_arp == 0)
            (Leaves-Preserves (send_gratuitous_arp-Leaves b)))
          (inspect_each-Preserves v now b₁.slaves b₁))
        (unless-Preserves (c.0 == 0) (commit-Preserves now c.1))

  unless_empty :
      (v : Drivers) (now : ℕ) (ps : List ℕ) (b : Bonding)
      → Preserves b (mii_unless_empty x v now ps b)
  unfolding mii_unless_empty
  unless_empty v now [] b = Preserves-refl b
  unless_empty v now (p ∷ ps) b = mii_round-Preserves v now b

  -- `bond_mii_monitor` keeps the slave list, the parameters and the packet buffer, and keeps the
  -- bond well-formed.
  pub mii_monitor-Preserves :
      (v : Drivers) (now : ℕ) (b : Bonding) → Preserves b (mii_monitor x v now b).1
  unfolding mii_monitor
  mii_monitor-Preserves v now b = stopped b.kill_timers
    where
      stopped :
          (t : Bool)
          → Preserves b
              (if◌then◌else◌ {A = Bool × Bonding} t
                (false, b)
                (not (b.params.miimon == 0), mii_unless_empty x v now b.slaves b)).1
      stopped true = Preserves-refl b
      stopped false = unless_empty v now b.slaves b

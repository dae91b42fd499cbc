-- ===== src/Bond/Release/Freed.antt =====
-- bond_release of 27/bond_main.c for a device that is a slave of the bond.
use hoolock.Common.{
  ℕ, ◌&&◌, ◌≡◌, refl, ◌∙◌, ap, sym, subst, List, [], ◌∷◌, Bool, true, false, not, Option, none,
  some, if◌then◌else◌, ◌==◌, In, NotIn, arith, same, same_refl, ==_sound, ==_false,
}
use hoolock.Bond.State.{Bonding, NetDevice, Mode, lacp, VlanEntry, ok, einval}
use hoolock.Bond.Slaves.{first_slave, get_slave_by_dev, first_that, uses_primary}
use hoolock.Bond.Slaves.Walks.{first_that-In, first_that-none}
use hoolock.Bond.Active.Steps.{
  Leaves, Leaves-trans, log-Leaves, log_mc-Leaves, if-Leaves, unless-Leaves, either-Leaves,
  ptr-promiscuity, ptr-allmulti,
}
use hoolock.Bond.Active.Members.{Leaves-IsWellFormed}
use hoolock.Bond.Invariant.{Keeps-refl, IsWellFormed}
use hoolock.Bond.Monitor.Commit.{Leaves-Preserves}
use hoolock.Bond.Vlans.{VlanOps, no_vlans, kill_all, del_vlans_from_slave}
use hoolock.Net.Device.{minus, dev_set_promiscuity, netdev_set_master, DeviceDriver, dev_close}
use hoolock.Bond.Enslave.{refused, Services, Enslaved, is_fom_active}
use hoolock.Bond.Enslave.Laws.{ServicesLaws, SameDevice, SameDevice-refl}
use hoolock.Bond.Release.{
  dev_at, under_lock, flush_lacp, flush, let_go, unset_counters, clear_flags, clear_inactive,
  release_found, bond_release,
}
use hoolock.Bond.Release.Detached.{Drops, Drops-Preserves, without-NotIn, under_lock-Drops}

kill_all-Leaves : (d : ℕ) (vs : List VlanEntry) (b : Bonding) → Leaves b (kill_all d vs b)
unfolding kill_all
kill_all-Leaves d [] b = (Keeps-refl b, refl)
kill_all-Leaves d (v ∷ vs) b = Leaves-trans (log-Leaves _ b) (kill_all-Leaves d vs _)

pub del_vlans-Leaves :
    (o : VlanOps) (d : NetDevice) (b : Bonding) → Leaves b (del_vlans_from_slave o d b)
unfolding del_vlans_from_slave
del_vlans-Leaves o d b =
    let h = if-Leaves (o.kills d) (kill_all-Leaves d.ptr b.vlan_list b) in
    unless-Leaves (no_vlans b) (either-Leaves (o.registers d) (Leaves-trans h (log-Leaves _ _)) h)

flush_lacp-Leaves : (v : Services) (m : Mode) (d : ℕ) (b : Bonding) → Leaves b (flush_lacp v m d b)
flush_lacp-Leaves v lacp d b = log-Leaves _ b
flush_lacp-Leaves v _ d b = (Keeps-refl b, refl)

pub flush-Leaves : (v : Services) (d : ℕ) (b : Bonding) → Leaves b (flush v d b)
unfolding flush
flush-Leaves v d b =
    unless-Leaves (uses_primary b.params.mode)
      (Leaves-trans (log_mc-Leaves _ b.dev.mc_list b) (flush_lacp-Leaves v b.params.mode d _))

-- The device that has been let go.
pub record IsFree (p : ℕ) (d : NetDevice) : Type 0 where
  pub ptr : d.ptr ≡ p
  pub master : d.master ≡ none
  pub iff_slave : d.iff_slave ≡ false
  pub iff_up : d.iff_up ≡ false

ptr-unset_counters : (b : Bonding) (d : NetDevice) → (unset_counters b d).ptr ≡ d.ptr
unfolding unset_counters
ptr-unset_counters b d = ground (
  arith,
  ptr-promiscuity d minus,
  ptr-allmulti d minus,
  ptr-allmulti (dev_set_promiscuity d minus).1 minus,
)

closed :
    (w : DeviceDriver) (d : NetDevice) → IsFree d.ptr (dev_close w (netdev_set_master d none).1)
unfolding dev_close netdev_set_master
closed w d = shut d.iff_up refl
  where
    shut :
        (t : Bool)
        → d.iff_up ≡ t
        → IsFree d.ptr (
            let e = record d { master = none; iff_slave = false } in
            let e₁ = record e { running = false } in
            if t then record e₁ { iff_up = false; carrier = w.stop_device e₁ } else e)
    shut true h = record { ptr = refl; master = refl; iff_slave = refl; iff_up = refl }
    shut false h = record { ptr = refl; master = refl; iff_slave = refl; iff_up = h }

IsFree-same : {p : ℕ} {d e : NetDevice} → IsFree p d → SameDevice d e → IsFree p e
IsFree-same h s = record {
  ptr = s.ptr ∙ h.ptr;
  master = s.master ∙ h.master;
  iff_slave = s.iff_slave ∙ h.iff_slave;
  iff_up = s.iff_up ∙ h.iff_up;
}

pub let_go-IsFree :
    (v : Services)
    → ServicesLaws v
    → (t : Bool) (a : ℕ) (b : Bonding) (d : NetDevice)
    → IsFree d.ptr (let_go v t a (unset_counters b d))
unfolding let_go
let_go-IsFree v laws t a b d =
    let e = unset_counters b d in
    subst (λ q. IsFree q (let_go v t a e)) (ptr-unset_counters b d)
      (IsFree-same (closed v.driver e) (restored t))
  where
    restored :
        (t : Bool)
        → (let c = dev_close v.driver (netdev_set_master (unset_counters b d) none).1 in
            SameDevice c (if t then (v.extern.dev_set_mac_address c a).1 else c))
    restored true = laws.mac_same _ a
    restored false = SameDevice-refl _

-- Released: the slave is off the list and freed, no slave pointer of the bond is it, and its
-- device is free, closed and carries none of the driver's flags.
pub record Released (b : Bonding) (p : ℕ) (r : Enslaved) : Type 0 where
  pub status : r.status ≡ ok
  pub freed : r.freed ≡ some p
  pub drops : Drops b p r.bond
  pub gone : NotIn p r.bond.slaves
  pub device : IsFree (b.mem p).dev.ptr r.slave_dev
  pub inactive : r.slave_dev.slave_inactive ≡ false
  pub bonding : r.slave_dev.iff_bonding ≡ false
  pub needarp : r.slave_dev.slave_needarp ≡ false

clear_flags-IsFree : {p : ℕ} {d : NetDevice} → IsFree p d → IsFree p (clear_flags d)
clear_flags-IsFree h = record {
  ptr = h.ptr;
  master = h.master;
  iff_slave = h.iff_slave;
  iff_up = h.iff_up;
}

pub IsFree-at : {p q : ℕ} {d : NetDevice} → p ≡ q → IsFree p d → IsFree q d
IsFree-at {d = d} e h = subst (λ q. IsFree q d) e h

pub clear_inactive-IsFree : {p : ℕ} {d : NetDevice} → IsFree p d → IsFree p (clear_inactive d)
clear_inactive-IsFree h = record {
  ptr = h.ptr;
  master = h.master;
  iff_slave = h.iff_slave;
  iff_up = h.iff_up;
}

ptr-dev_at : (p : ℕ) (d : NetDevice) (b : Bonding) → (dev_at p d b).ptr ≡ d.ptr
ptr-dev_at p d b = ground (arith, ==_sound (b.mem p).dev.ptr d.ptr)

module _ (v : Services) (laws : ServicesLaws v) (b : Bonding) (w : IsWellFormed b) where
  found :
      (now p : ℕ) (d : NetDevice)
      → (b.mem p).dev.ptr ≡ d.ptr
      → Released b p (release_found v now (some p) d b)
  unfolding release_found
  found now p d e =
      let b₁ = under_lock v now p b in
      let h = under_lock-Drops v laws now p b w in
      let d₁ = dev_at p d b₁ in
      let k = Drops-Preserves p h (
        Leaves-Preserves
          (Leaves-trans (del_vlans-Leaves v.vlan_ops d₁ b₁) (flush-Leaves v d₁.ptr _))) in
      let b₂ = flush v d₁.ptr (del_vlans_from_slave v.vlan_ops d₁ b₁) in
      let f =
        let_go-IsFree v laws (not (is_fom_active b₂.params.fail_over_mac)) (b₁.mem p).perm_hwaddr b₁
          d₁ in
      record {
        status = refl;
        freed = refl;
        drops = k;
        gone = subst (NotIn p) (sym k.left.slaves) (without-NotIn p b.slaves w.distinct);
        device = IsFree-at (ptr-dev_at p d b₁ ∙ sym e) (clear_flags-IsFree f);
        inactive = refl;
        bonding = refl;
        needarp = refl;
      }

  -- Whatever slave is found.
  found-IsWellFormed :
      (now : ℕ) (o : Option ℕ) (d : NetDevice) → IsWellFormed (release_found v now o d b).bond
  unfolding release_found
  found-IsWellFormed now none d = w
  found-IsWellFormed now (some p) d =
      let b₁ = under_lock v now p b in
      let d₁ = dev_at p d b₁ in
      Leaves-IsWellFormed
        (Leaves-trans (del_vlans-Leaves v.vlan_ops d₁ b₁) (flush-Leaves v d₁.ptr _))
        (under_lock-Drops v laws now p b w).valid

  released_if :
      (t : Bool) (r : Enslaved) (d : NetDevice)
      → IsWellFormed r.bond
      → IsWellFormed (if t then r else refused einval b d).bond
  released_if true r d h = h
  released_if false r d h = w

  -- Refused or not, `bond_release` keeps the bond well-formed.
  pub bond_release-IsWellFormed :
      (now : ℕ) (d : NetDevice) → IsWellFormed (bond_release v now d b).bond
  unfolding bond_release
  bond_release-IsWellFormed now d =
      released_if (d.iff_slave && same d.master (some b.dev.ptr)) _ d
        (found-IsWellFormed now (get_slave_by_dev b d.ptr) d)

  first_found :
      (now q : ℕ) (d : NetDevice) (o : Option ℕ)
      → first_that (λ p. (b.mem p).dev.ptr == d.ptr) b.slaves ≡ o
      → In q b.slaves
      → (b.mem q).dev.ptr ≡ d.ptr
      → (p : ℕ) × (get_slave_by_dev b d.ptr ≡ some p) × In p b.slaves × ((b.mem p).dev.ptr ≡ d.ptr)
  unfolding get_slave_by_dev
  first_found now q d none f i e =
      let h = first_that-none (λ p. (b.mem p).dev.ptr == d.ptr) b.slaves q f i in
      absurd (==_false (b.mem q).dev.ptr d.ptr h e)
  first_found now q d (some p) f i e =
      let h = first_that-In (λ p. (b.mem p).dev.ptr == d.ptr) b.slaves p f in
      (
        p,
        ap (λ (u : Option ℕ). elim u [ none ↦ first_slave b | some q' ↦ some q' ]) f,
        h.0,
        ==_sound (b.mem p).dev.ptr d.ptr h.1,
      )

  taken :
      (now p : ℕ) (d : NetDevice)
      → d.iff_slave ≡ true
      → d.master ≡ some b.dev.ptr
      → get_slave_by_dev b d.ptr ≡ some p
      → bond_release v now d b ≡ release_found v now (some p) d b
  unfolding bond_release
  taken now p d s m g = rw (s, m, same_refl (some b.dev.ptr), g) refl

  -- Where the bond is well-formed, and a device that is marked as a slave of this bond is the device
  -- of one of its slaves, `bond_release` succeeds for a slave `p` of the list with this device:
  -- the list is left without `p`, the bond is well-formed again, so that no slave pointer is `p`,
  -- the parameters and the packet buffer are as before, `p` is freed, and the device is the same
  -- one, without a master, down, and without the driver's flags.
  pub bond_release_lem :
      (now q : ℕ) (d : NetDevice)
      → d.iff_slave ≡ true
      → d.master ≡ some b.dev.ptr
      → In q b.slaves
      → (b.mem q).dev.ptr ≡ d.ptr
      → (p : ℕ) × In p b.slaves
        × ((b.mem p).dev.ptr ≡ d.ptr)
        × Released b p (bond_release v now d b)
  unfolding bond_release
  bond_release_lem now q d s m i e =
      let (p, g, j, k) = first_found now q d _ refl i e in
      (p, j, k, subst (Released b p) (sym (taken now p d s m g)) (found now p d k))

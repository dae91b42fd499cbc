-- ===== src/Bond/Active/Steps.antt =====
-- The parts of a change of the active slave that leave the active slave itself alone.
use hoolock.Common.{
  ℕ, ◌≡◌, refl, ◌∙◌, ◌-◌, List, [], ◌∷◌, Bool, true, false, Option, none, some, if◌then◌else◌,
  arith, ==_sound,
}
use hoolock.Bond.State.{Bonding, Slave, NetDevice, Event, VlanEntry}
use hoolock.Bond.Slaves.{put_slave, log, set_slave_inactive_flags, set_slave_active_flags}
use hoolock.Bond.Active.{
  turn_carrier, mc_swap, mc_out, mc_into, arp_from, mc_swap_one, log_mc, put_dev, set_dev,
  arp_vlans, send_gratuitous_arp, inactive_at, active_at,
}
use hoolock.Bond.Invariant.{Keeps, Keeps-refl, Keeps-trans}
use hoolock.Net.Device.{Inc, plus, minus, dev_set_promiscuity, dev_set_allmulti}

-- An operation that keeps the list and leaves the active slave alone.
abbrev pub Leaves : Bonding → Bonding → Type 0
Leaves b c = Keeps b c × (c.curr_active_slave ≡ b.curr_active_slave)

pub Leaves-trans : {b c d : Bonding} → Leaves b c → Leaves c d → Leaves b d
Leaves-trans (h, p) (k, q) = (Keeps-trans h k, q ∙ p)

pub put_slave-Leaves :
    (p : ℕ) (s : Slave) (b : Bonding) → s.dev.ptr ≡ (b.mem p).dev.ptr → Leaves b (put_slave p s b)
put_slave-Leaves p s b e = (
  record {
    slaves = refl;
    params = refl;
    buffer_mode = refl;
    pbuff = refl;
    primary_slave = refl;
    current_arp_slave = refl;
    kill_timers = refl;
    master_ip = refl;
    bond_dev = refl;
    slave_devs = λ q. ground (arith, ==_sound q p);
  },
  refl,
)

pub put_dev-Leaves :
    (p : ℕ) (d : NetDevice) (b : Bonding) → d.ptr ≡ (b.mem p).dev.ptr → Leaves b (put_dev p d b)
put_dev-Leaves p d b e = put_slave-Leaves p (record (b.mem p) { dev = d }) b e

pub log-Leaves : (e : Event) (b : Bonding) → Leaves b (log e b)
log-Leaves e b = (
  record {
    slaves = refl;
    params = refl;
    buffer_mode = refl;
    pbuff = refl;
    primary_slave = refl;
    current_arp_slave = refl;
    kill_timers = refl;
    master_ip = refl;
    bond_dev = refl;
    slave_devs = λ q. refl;
  },
  refl,
)

pub ptr-promiscuity : (d : NetDevice) (i : Inc) → (dev_set_promiscuity d i).1.ptr ≡ d.ptr
unfolding dev_set_promiscuity
ptr-promiscuity d plus = ground arith
ptr-promiscuity d minus = ground arith

pub ptr-allmulti : (d : NetDevice) (i : Inc) → (dev_set_allmulti d i).1.ptr ≡ d.ptr
unfolding dev_set_allmulti
ptr-allmulti d plus = ground arith
ptr-allmulti d minus = ground arith

pub log_mc-Leaves : (e : ℕ → Event) (xs : List ℕ) (b : Bonding) → Leaves b (log_mc e xs b)
unfolding log_mc
log_mc-Leaves e [] b = (Keeps-refl b, refl)
log_mc-Leaves e (a ∷ xs) b = Leaves-trans (log-Leaves (e a) b) (log_mc-Leaves e xs (log (e a) b))

-- A change of the bond's own device.
pub set_dev-Leaves : (d : NetDevice) (b : Bonding) → d.ptr ≡ b.dev.ptr → Leaves b (set_dev d b)
set_dev-Leaves d b e = (
  record {
    slaves = refl;
    params = refl;
    buffer_mode = refl;
    pbuff = refl;
    primary_slave = refl;
    current_arp_slave = refl;
    kill_timers = refl;
    master_ip = refl;
    bond_dev = e;
    slave_devs = λ q. refl;
  },
  refl,
)

pub count_arp-Leaves : (n : ℕ) (b : Bonding) → Leaves b (record b { send_grat_arp = n })
count_arp-Leaves n b = (
  record {
    slaves = refl;
    params = refl;
    buffer_mode = refl;
    pbuff = refl;
    primary_slave = refl;
    current_arp_slave = refl;
    kill_timers = refl;
    master_ip = refl;
    bond_dev = refl;
    slave_devs = λ q. refl;
  },
  refl,
)

-- A step taken under a test.
pub if-Leaves : (t : Bool) {b c : Bonding} → Leaves b c → Leaves b (if t then c else b)
if-Leaves true h = h
if-Leaves false {b} h = (Keeps-refl b, refl)

pub unless-Leaves : (t : Bool) {b c : Bonding} → Leaves b c → Leaves b (if t then b else c)
unless-Leaves true {b} h = (Keeps-refl b, refl)
unless-Leaves false h = h

mc_swap_one-Leaves :
    (i : Inc) (e : ℕ → ℕ → Event) (p : ℕ) (b : Bonding) → Leaves b (mc_swap_one i e p b)
unfolding mc_swap_one
mc_swap_one-Leaves i e p b =
    let b₁ = if b.dev.iff_promisc then put_dev p (dev_set_promiscuity (b.mem p).dev i).1 b else b in
    let h₁ : Leaves b b₁ =
      if-Leaves b.dev.iff_promisc (put_dev-Leaves p _ b (ptr-promiscuity (b.mem p).dev i)) in
    let h₂ : Leaves b₁
        (if b.dev.iff_allmulti then put_dev p (dev_set_allmulti (b₁.mem p).dev i).1 b₁ else b₁) =
      if-Leaves b.dev.iff_allmulti (put_dev-Leaves p _ b₁ (ptr-allmulti (b₁.mem p).dev i)) in
    Leaves-trans (Leaves-trans h₁ h₂) (log_mc-Leaves _ b.dev.mc_list _)

mc_out-Leaves : (o : Option ℕ) (b : Bonding) → Leaves b (mc_out o b)
unfolding mc_out
mc_out-Leaves none b = (Keeps-refl b, refl)
mc_out-Leaves (some p) b = mc_swap_one-Leaves minus Event.mc_delete p b

mc_into-Leaves : (o : Option ℕ) (b : Bonding) → Leaves b (mc_into o b)
unfolding mc_into
mc_into-Leaves none b = (Keeps-refl b, refl)
mc_into-Leaves (some p) b =
    Leaves-trans (mc_swap_one-Leaves plus Event.mc_add p b) (log-Leaves Event.igmp_rejoin _)

pub mc_swap-Leaves : (new old : Option ℕ) (b : Bonding) → Leaves b (mc_swap new old b)
unfolding mc_swap
mc_swap-Leaves new old b = if-Leaves _ (Leaves-trans (mc_out-Leaves old b) (mc_into-Leaves new _))

arp_vlans-Leaves : (d : ℕ) (vs : List VlanEntry) (b : Bonding) → Leaves b (arp_vlans d vs b)
unfolding arp_vlans
arp_vlans-Leaves d [] b = (Keeps-refl b, refl)
arp_vlans-Leaves d (v ∷ vs) b =
    Leaves-trans (unless-Leaves _ (log-Leaves _ b)) (arp_vlans-Leaves d vs _)

arp_from-Leaves : (o : Option ℕ) (b : Bonding) → Leaves b (arp_from o b)
unfolding arp_from
arp_from-Leaves none b = (Keeps-refl b, refl)
arp_from-Leaves (some p) b = unless-Leaves _ (
    Leaves-trans
      (Leaves-trans (count_arp-Leaves (b.send_grat_arp - 1) b) (unless-Leaves _ (log-Leaves _ _)))
      (arp_vlans-Leaves _ b.vlan_list _))

pub send_gratuitous_arp-Leaves : (b : Bonding) → Leaves b (send_gratuitous_arp b)
unfolding send_gratuitous_arp
send_gratuitous_arp-Leaves b = arp_from-Leaves b.curr_active_slave b

pub either-Leaves :
    (t : Bool) {b c d : Bonding} → Leaves b c → Leaves b d → Leaves b (if t then c else d)
either-Leaves true h k = h
either-Leaves false h k = k

-- The second part of a pair that a test chooses.
pub ifs-Leaves :
    (t : Bool) {b : Bonding} (r q : Bool × Bonding)
    → Leaves b r.1
    → Leaves b q.1
    → Leaves b (if◌then◌else◌ {A = Bool × Bonding} t r q).1
ifs-Leaves true r q h k = h
ifs-Leaves false r q h k = k

pub turn_carrier-Leaves : (t : Bool) (b : Bonding) → Leaves b (turn_carrier t b).1
turn_carrier-Leaves t b = ifs-Leaves _ _ _ (set_dev-Leaves _ b refl) (Keeps-refl b, refl)

pub ptr-set_slave_inactive_flags :
    (b : Bonding) (s : Slave) → (set_slave_inactive_flags b s).dev.ptr ≡ s.dev.ptr
unfolding set_slave_inactive_flags
ptr-set_slave_inactive_flags b s = ground arith

pub inactive_at-Leaves : (o : Option ℕ) (b : Bonding) → Leaves b (inactive_at o b)
inactive_at-Leaves none b = (Keeps-refl b, refl)
inactive_at-Leaves (some p) b = put_slave-Leaves p _ b (ptr-set_slave_inactive_flags b (b.mem p))

pub active_at-Leaves : (o : Option ℕ) (b : Bonding) → Leaves b (active_at o b)
unfolding set_slave_active_flags
active_at-Leaves none b = (Keeps-refl b, refl)
active_at-Leaves (some p) b = put_slave-Leaves p _ b refl

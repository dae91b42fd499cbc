-- ===== src/Bond/Arp/Watch.antt =====
-- What the ARP monitors of 27/bond_main.c keep.
use hoolock.Common.{
  ℕ, ◌≡◌, ap, refl, ◌∙◌, sym, subst, List, [], ◌∷◌, Bool, true, false, Option, none, some, In, inr,
  if◌then◌else◌, ◌==◌, arith,
}
use hoolock.Bond.State.{Bonding, Slave, VlanEntry}
use hoolock.Bond.Slaves.{is_up, edit}
use hoolock.Bond.Slaves.Walks.{OptIn}
use hoolock.Bond.Active.Steps.{Leaves, Leaves-trans, put_slave-Leaves, if-Leaves}
use hoolock.Bond.Invariant.{IsWellFormed}
use hoolock.Bond.Monitor.Commit.{Preserves, Leaves-Preserves}
use hoolock.Bond.Vlans.{no_vlans}
use hoolock.Bond.Arp.{Clock, Routes, vlan_via, on_vlan, on_route, arp_send, send_to, arp_send_all}
use hoolock.Bond.Arp.Balance.{balance_link, balance_each}
use hoolock.Bond.Arp.Backup.{ab_inspect_slave, ab_inspect_each}

-- All but the active slave, the candidate and the slaves' own state is as before, and the bond
-- stays well-formed.
pub record Watches (b c : Bonding) : Type 0 where
  pub slaves : c.slaves ≡ b.slaves
  pub params : c.params ≡ b.params
  pub buffer_mode : c.buffer_mode ≡ b.buffer_mode
  pub pbuff : c.pbuff ≡ b.pbuff
  pub primary_slave : c.primary_slave ≡ b.primary_slave
  pub slave_devs : (p : ℕ) → (c.mem p).dev.ptr ≡ (b.mem p).dev.ptr
  pub valid : IsWellFormed b → IsWellFormed c

pub Watches-refl : (b : Bonding) → Watches b b
Watches-refl b = record {
  slaves = refl;
  params = refl;
  buffer_mode = refl;
  pbuff = refl;
  primary_slave = refl;
  slave_devs = λ p. refl;
  valid = λ w. w;
}

pub Watches-trans : {b c d : Bonding} → Watches b c → Watches c d → Watches b d
Watches-trans h k = record {
  slaves = k.slaves ∙ h.slaves;
  params = k.params ∙ h.params;
  buffer_mode = k.buffer_mode ∙ h.buffer_mode;
  pbuff = k.pbuff ∙ h.pbuff;
  primary_slave = k.primary_slave ∙ h.primary_slave;
  slave_devs = λ p. k.slave_devs p ∙ h.slave_devs p;
  valid = λ w. k.valid (h.valid w);
}

pub Preserves-Watches : {b c : Bonding} → Preserves b c → Watches b c
Preserves-Watches h = record {
  slaves = h.keeps.slaves;
  params = h.keeps.params;
  buffer_mode = h.keeps.buffer_mode;
  pbuff = h.keeps.pbuff;
  primary_slave = h.keeps.primary_slave;
  slave_devs = h.keeps.slave_devs;
  valid = h.valid;
}

pub Leaves-Watches : {b c : Bonding} → Leaves b c → Watches b c
Leaves-Watches h = Preserves-Watches (Leaves-Preserves h)

pub either-Watches :
    (t : Bool) {b c d : Bonding} → Watches b c → Watches b d → Watches b (if t then c else d)
either-Watches true h k = h
either-Watches false h k = k

-- The candidate is written.
pub candidate-Watches :
    (o : Option ℕ) (b : Bonding) → OptIn o b.slaves → Watches b (record b { current_arp_slave = o })
candidate-Watches o b i = record {
  slaves = refl;
  params = refl;
  buffer_mode = refl;
  pbuff = refl;
  primary_slave = refl;
  slave_devs = λ p. refl;
  valid = λ w. record {
    distinct = w.distinct;
    active_in = w.active_in;
    primary_in = w.primary_in;
    arp_in = i;
  };
}

-- A write to a slave whose device stays the same one.
pub edit-Watches :
    (p : ℕ) (s : Slave) (b : Bonding)
    → s.dev.ptr ≡ (b.mem p).dev.ptr
    → Watches b (edit p (λ _. s) b)
edit-Watches p s b e = Leaves-Watches (put_slave-Leaves p s b e)

-- Slaves of the list are slaves of the list after.
abbrev pub AllIn : List ℕ → Bonding → Type 0
AllIn ps b = (q : ℕ) → In q ps → In q b.slaves

pub AllIn-after :
    {b c : Bonding} (p : ℕ) (ps : List ℕ) → AllIn (p ∷ ps) b → Watches b c → AllIn ps c
AllIn-after p ps a h q i = subst (In q) (sym h.slaves) (a q (inr i))

-- Only entries of the events are new.
abbrev pub Logs : Bonding → Bonding → Type 0
Logs b c = c ≡ record b { events = c.events }

pub Logs-trans : (b c d : Bonding) → Logs b c → Logs c d → Logs b d
Logs-trans b c d h k = k ∙ ap (λ (z : Bonding). record z { events = d.events }) h

pub if-Logs : (t : Bool) (b c d : Bonding) → Logs b c → Logs b d → Logs b (if t then c else d)
if-Logs true b c d h k = h
if-Logs false b c d h k = k

pub Logs-Leaves : (b c : Bonding) → Logs b c → Leaves b c
Logs-Leaves b c h = subst (Leaves b) (sym h) (
  record {
    slaves = refl;
    params = refl;
    buffer_mode = refl;
    pbuff = refl;
    primary_slave = refl;
    current_arp_slave = refl;
    kill_timers = refl;
    master_ip = refl;
    bond_dev = refl;
    slave_devs = λ p. refl;
  },
  refl,
)

-- The probes.
on_vlan-Logs : (d t : ℕ) (o : Option VlanEntry) (b : Bonding) → Logs b (on_vlan d t o b)
on_vlan-Logs d t none b = refl
on_vlan-Logs d t (some v) b = if-Logs (v.vlan_id == 0) b b _ refl refl

on_route-Logs : (r : Routes) (d t : ℕ) (o : Option ℕ) (b : Bonding) → Logs b (on_route r d t o b)
unfolding on_route
on_route-Logs r d t none b = refl
on_route-Logs r d t (some out) b =
    if-Logs (out == b.dev.ptr) b _ _ refl (on_vlan-Logs d t (vlan_via r out b.vlan_list) b)

arp_send-Logs : (r : Routes) (d t : ℕ) (b : Bonding) → Logs b (arp_send r d t b)
unfolding arp_send
arp_send-Logs r d t b =
    if-Logs (t == 0) b b _ refl
      (if-Logs (no_vlans b) b _ _ refl (on_route-Logs r d t (r.route t) b))

send_to-Logs : (r : Routes) (d : ℕ) (ts : List ℕ) (b : Bonding) → Logs b (send_to r d ts b)
unfolding send_to
send_to-Logs r d [] b = refl
send_to-Logs r d (t ∷ ts) b =
    Logs-trans b (arp_send r d t b) (send_to r d ts (arp_send r d t b)) (arp_send-Logs r d t b)
      (send_to-Logs r d ts (arp_send r d t b))

pub arp_send_all-Logs : (r : Routes) (p : ℕ) (b : Bonding) → Logs b (arp_send_all r p b)
unfolding arp_send_all
arp_send_all-Logs r p b = send_to-Logs r (b.mem p).dev.ptr b.params.arp_targets b

pub arp_send_all-Leaves : (r : Routes) (p : ℕ) (b : Bonding) → Leaves b (arp_send_all r p b)
arp_send_all-Leaves r p b = Logs-Leaves b (arp_send_all r p b) (arp_send_all-Logs r p b)

-- The inspections leave the device of a slave alone.
ptr-balance_link :
    (k : Clock) (now delta : ℕ) (old : Option ℕ) (p : ℕ) (s : Slave)
    → (balance_link k now delta old p s).1.dev.ptr ≡ s.dev.ptr
unfolding balance_link
ptr-balance_link k now delta old p s = ground arith

ptr-ab_inspect_slave :
    (k : Clock) (now delta : ℕ) (b : Bonding) (s : Slave)
    → (ab_inspect_slave k now delta b s).1.dev.ptr ≡ s.dev.ptr
unfolding ab_inspect_slave
ptr-ab_inspect_slave k now delta b s = ground arith

pub balance_each-Watches :
    (k : Clock) (r : Routes) (now delta : ℕ) (old : Option ℕ) (ps : List ℕ) (b : Bonding)
    → Watches b (balance_each k r now delta old ps b).1
unfolding balance_each
balance_each-Watches k r now delta old [] b = Watches-refl b
balance_each-Watches k r now delta old (p ∷ ps) b =
    let s = (balance_link k now delta old p (b.mem p)).1 in
    let h = put_slave-Leaves p s b (ptr-balance_link k now delta old p (b.mem p)) in
    Watches-trans
      (Leaves-Watches (Leaves-trans h (if-Leaves (is_up s.dev) (arp_send_all-Leaves r p _))))
      (balance_each-Watches k r now delta old ps _)

pub ab_inspect_each-Watches :
    (k : Clock) (now delta : ℕ) (ps : List ℕ) (b : Bonding)
    → Watches b (ab_inspect_each k now delta ps b).1
unfolding ab_inspect_each
ab_inspect_each-Watches k now delta [] b = Watches-refl b
ab_inspect_each-Watches k now delta (p ∷ ps) b =
    Watches-trans (edit-Watches p _ b (ptr-ab_inspect_slave k now delta b (b.mem p)))
      (ab_inspect_each-Watches k now delta ps _)

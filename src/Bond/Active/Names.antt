-- ===== src/Bond/Active/Names.antt =====
-- The names of the slaves' devices at bond_change_active_slave in hoolock mode,
-- 27/bond_main.c.
use hoolock.Common.{
  ℕ, ◌≡◌, refl, ◌∙◌, List, [], ◌∷◌, Bool, true, false, Option, none, some, if◌then◌else◌, arith,
  ==_sound,
}
use hoolock.Bond.State.{Bonding, Slave, NetDevice, Event, Mode, hoolock_mode, link_up}
use hoolock.Bond.Slaves.{log, put_slave}
use hoolock.Net.Device.{Inc, plus, minus, dev_set_promiscuity, dev_set_allmulti}
use hoolock.Bond.Active.{
  Extern, mc_swap, mc_out, mc_into, mc_swap_one, log_mc, put_dev, take_over, install, switch_to,
  change_active_slave, link_change,
}

-- Every structure keeps the name of its device, and the bond its mode.
pub record Names (b c : Bonding) : Type 0 where
  pub names : (q : ℕ) → (c.mem q).dev.name ≡ (b.mem q).dev.name
  pub mode : c.params.mode ≡ b.params.mode

pub Names-refl : (b : Bonding) → Names b b
Names-refl b = record { names = λ q. refl; mode = refl }

pub Names-trans : {b c d : Bonding} → Names b c → Names c d → Names b d
Names-trans h k = record { names = λ q. k.names q ∙ h.names q; mode = k.mode ∙ h.mode }

put_slave-Names :
    (p : ℕ) (s : Slave) (b : Bonding) → s.dev.name ≡ (b.mem p).dev.name → Names b (put_slave p s b)
put_slave-Names p s b e = record { names = λ q. ground (arith, ==_sound q p); mode = refl }

name-promiscuity : (d : NetDevice) (i : Inc) → (dev_set_promiscuity d i).1.name ≡ d.name
unfolding dev_set_promiscuity
name-promiscuity d plus = ground arith
name-promiscuity d minus = ground arith

if-Names : (t : Bool) {b c : Bonding} → Names b c → Names b (if t then c else b)
if-Names true h = h
if-Names false {b} h = Names-refl b

unless-Names : (t : Bool) {b c : Bonding} → Names b c → Names b (if t then b else c)
unless-Names true {b} h = Names-refl b
unless-Names false h = h

either-Names : (t : Bool) {b c d : Bonding} → Names b c → Names b d → Names b (if t then c else d)
either-Names true h k = h
either-Names false h k = k

name-allmulti : (d : NetDevice) (i : Inc) → (dev_set_allmulti d i).1.name ≡ d.name
unfolding dev_set_allmulti
name-allmulti d plus = ground arith
name-allmulti d minus = ground arith

log-Names : (e : Event) (b : Bonding) → Names b (log e b)
log-Names e b = record { names = λ q. refl; mode = refl }

log_mc-Names : (e : ℕ → Event) (xs : List ℕ) (b : Bonding) → Names b (log_mc e xs b)
unfolding log_mc
log_mc-Names e [] b = Names-refl b
log_mc-Names e (a ∷ xs) b = Names-trans (log-Names (e a) b) (log_mc-Names e xs (log (e a) b))

mc_swap_one-Names :
    (i : Inc) (e : ℕ → ℕ → Event) (p : ℕ) (b : Bonding) → Names b (mc_swap_one i e p b)
unfolding mc_swap_one
mc_swap_one-Names i e p b =
    let b₁ = if b.dev.iff_promisc then put_dev p (dev_set_promiscuity (b.mem p).dev i).1 b else b in
    let h₁ : Names b b₁ =
      if-Names b.dev.iff_promisc (put_slave-Names p _ b (name-promiscuity (b.mem p).dev i)) in
    let h₂ : Names b₁
        (if b.dev.iff_allmulti then put_dev p (dev_set_allmulti (b₁.mem p).dev i).1 b₁ else b₁) =
      if-Names b.dev.iff_allmulti (put_slave-Names p _ b₁ (name-allmulti (b₁.mem p).dev i)) in
    Names-trans (Names-trans h₁ h₂) (log_mc-Names _ b.dev.mc_list _)

mc_out-Names : (o : Option ℕ) (b : Bonding) → Names b (mc_out o b)
unfolding mc_out
mc_out-Names none b = Names-refl b
mc_out-Names (some p) b = mc_swap_one-Names minus Event.mc_delete p b

mc_into-Names : (o : Option ℕ) (b : Bonding) → Names b (mc_into o b)
unfolding mc_into
mc_into-Names none b = Names-refl b
mc_into-Names (some p) b =
    Names-trans (mc_swap_one-Names plus Event.mc_add p b) (log-Names Event.igmp_rejoin _)

mc_swap-Names : (new old : Option ℕ) (b : Bonding) → Names b (mc_swap new old b)
unfolding mc_swap
mc_swap-Names new old b = if-Names _ (Names-trans (mc_out-Names old b) (mc_into-Names new _))

link_change-Names :
    (x : Extern) (m : Mode) (p : ℕ) (b : Bonding)
    → m ≡ hoolock_mode
    → Names b (link_change x m p link_up b)
unfolding link_change
link_change-Names x hoolock_mode p b e = Names-refl b
link_change-Names x _ p b e = absurd (ground arith)

take_over-Names :
    (x : Extern) (now : ℕ) (new : Option ℕ) (b : Bonding)
    → b.params.mode ≡ hoolock_mode
    → Names b (take_over x now new b)
unfolding take_over
take_over-Names x now none b e = Names-refl b
take_over-Names x now (some p) b e =
    let h = put_slave-Names p (record (b.mem p) { jiffies = now }) b refl in
    either-Names _
      (Names-trans (Names-trans h (put_slave-Names p _ _ refl))
        (link_change-Names x b.params.mode p _ e))
      h

install-Names :
    (x : Extern) (m : Mode) (new old : Option ℕ) (b : Bonding)
    → m ≡ hoolock_mode
    → Names b (install x m new old b)
unfolding install
install-Names x hoolock_mode new old b e = record { names = λ q. refl; mode = refl }
install-Names x _ new old b e = absurd (ground arith)

-- In hoolock mode `bond_change_active_slave` keeps the names of the devices.
pub change_active_slave-Names :
    (x : Extern) (now : ℕ) (new : Option ℕ) (b : Bonding)
    → b.params.mode ≡ hoolock_mode
    → Names b (change_active_slave x now new b)
unfolding change_active_slave switch_to
change_active_slave-Names x now new b e = unless-Names _ (
    Names-trans
      (Names-trans (take_over-Names x now new b e) (mc_swap-Names new b.curr_active_slave _))
      (install-Names x b.params.mode new b.curr_active_slave _ e))

-- ===== src/Parameters/Limits.antt =====
-- What bond_check_params of 27/bond_main.c lets through.
use mathlib.Core.Option.{some-injective}
use hoolock.Common.{
  ℕ, zero, suc, ◌≤◌, ◌≡◌, ◌≢◌, ◌⊎◌, inl, inr, refl, sym, ap, subst, List, [], ◌∷◌, Bool, true,
  false, ◌||◌, Option, none, some, arith, take, length, ℤ, pos, negsuc, ◌==◌, if◌then◌else◌,
  ==_false,
}
use hoolock.Bond.State.{Mode, round_robin, Params, FailOverMac, fom_none}
use hoolock.Transmit.{XmitPolicy, layer2}
use hoolock.Bond.Slaves.{uses_primary}
use hoolock.Parameters.Check.{
  Outside, Given, Checked, ◌>>=◌, check_params, targets, forced, needs_miimon, is_active_backup,
  grat_arp, interval_with, interval_beside, validated_by, primary_name, or_reset, all_good,
  interval_of, fill, parsed_or, mode_tbl, xmit_hashtype_tbl, fail_over_mac_tbl, relevant,
  is_xor_or_lacp, is_lacp,
}

-- The parameters that a bond can have.
pub record IsChecked (p : Params) : Type 0 where
  pub one_monitor : p.miimon ≢ 0 → p.arp_interval ≡ 0
  pub needed : needs_miimon p.mode ≡ true → p.miimon ≢ 0
  pub grat_arp : p.num_grat_arp ≤ 255
  pub validated :
      (p.validate_active || p.validate_backup) ≡ true
      → (is_active_backup p.mode ≡ true) × (p.arp_interval ≢ 0)
  pub primary : (p.primary ≡ []) ⊎ (uses_primary p.mode ≡ true)
  pub primary_length : length p.primary ≤ 15
  pub arp_targets : length p.arp_targets ≡ 16

each :
    {A : Type 0} (o : Option A) (f : A → Option Checked)
    → ((a : A) → o ≡ some a → (c : Checked) → f a ≡ some c → IsChecked c.params)
    → (c : Checked) → (o >>= f) ≡ some c
    → IsChecked c.params
each none f h c e = absurd (ground arith)
each (some a) f h c e = h a refl c e

length-targets : (f : List ℕ → ℕ) (n : ℕ) (ts : List (List ℕ)) → length (targets f n ts) ≡ n
unfolding targets
length-targets f zero ts = refl
length-targets f (suc n) [] = ap suc (length-targets f n [])
length-targets f (suc n) (t ∷ ts) = ap suc (length-targets f n ts)

length-take_le : (n : ℕ) (xs : List ℕ) → length (take n xs) ≤ n
unfolding take
length-take_le zero xs = omega arith
length-take_le (suc n) [] = omega arith
length-take_le (suc n) (x ∷ xs) = omega (arith, length-take_le n xs)

one_monitor_lem :
    (good : Bool) (ts : List (List ℕ)) (m : ℕ) (i : ℤ)
    → m ≢ 0
    → interval_with good ts (interval_beside m i) ≡ 0
one_monitor_lem good [] m i n = refl
one_monitor_lem true (t ∷ ts) m i n = ground (arith, n)
one_monitor_lem false (t ∷ ts) m i n = refl

forced_lem : (m : Mode) (k : ℕ) → needs_miimon m ≡ true → forced m k ≢ 0
forced_lem m k h e = ground arith

grat_arp_lem : (i : ℤ) → grat_arp i ≤ 255
grat_arp_lem (pos k) = ground arith
grat_arp_lem (negsuc k) = omega arith

let_through :
    (t u : Bool) (o : Option (Bool × Bool)) (v : Bool × Bool)
    → (if t then (if u then none else o) else none) ≡ some v
    → (t ≡ true) × (u ≡ false)
let_through true true o v e = absurd (ground arith)
let_through true false o v e = (refl, refl)
let_through false u o v e = absurd (ground arith)

validated_by_lem :
    (m : Mode) (i : ℕ) (o : Option (List ℕ)) (v : Bool × Bool)
    → validated_by m i o ≡ some v
    → (v.0 || v.1) ≡ true
    → (is_active_backup m ≡ true) × (i ≢ 0)
unfolding validated_by
validated_by_lem m i none v e h = absurd (
    ground (arith, subst (λ (u : Bool × Bool). (u.0 || u.1) ≡ true) (sym (some-injective _ _ e)) h))
validated_by_lem m i (some text) v e h =
    let t = let_through (is_active_backup m) (i == 0) _ v e in (t.0, ==_false i 0 t.1)

primary_name_lem : (t : Bool) (o : Option (List ℕ)) → (primary_name t o ≡ []) ⊎ (t ≡ true)
primary_name_lem true o = inr refl
primary_name_lem false o = inl refl

length-primary_name : (t : Bool) (o : Option (List ℕ)) → length (primary_name t o) ≤ 15
length-primary_name true (some text) = length-take_le 15 text
length-primary_name true none = omega arith
length-primary_name false o = omega arith

fill-IsChecked :
    (o : Outside) (g : Given) (m : Mode) (policy : XmitPolicy) (rate : ℕ) (v : Bool × Bool)
    (fom : FailOverMac)
    → validated_by m (interval_of g m) g.arp_validate ≡ some v
    → IsChecked (fill o g m policy rate v fom).params
unfolding fill
fill-IsChecked o g m policy rate v fom e = record {
  one_monitor =
      one_monitor_lem (all_good 16 g.arp_ip_target) g.arp_ip_target (forced m (or_reset 0 g.miimon))
        g.arp_interval;
  needed = forced_lem m (or_reset 0 g.miimon);
  grat_arp = grat_arp_lem g.num_grat_arp;
  validated = validated_by_lem m (interval_of g m) g.arp_validate v e;
  primary = primary_name_lem (uses_primary m) g.primary;
  primary_length = length-primary_name (uses_primary m) g.primary;
  arp_targets = length-targets o.in_aton 16 g.arp_ip_target;
}

-- Whatever module parameters are given, those that `bond_check_params` lets through are such that
-- not both monitors run; 802.3ad, TLB and ALB have a monitoring interval; at most 255 gratuitous
-- ARPs are sent; arp_validate is set in active-backup mode with an ARP interval only; a primary is
-- set in a mode that uses one only, and its name fits; and there are 16 places for ARP targets.
pub check_params-IsChecked :
    (o : Outside) (g : Given) (c : Checked) → check_params o g ≡ some c → IsChecked c.params
unfolding check_params
check_params-IsChecked o g = each (parsed_or round_robin mode_tbl g.mode) _ (λ m _.
    each (parsed_or layer2 xmit_hashtype_tbl (relevant (is_xor_or_lacp m) g.xmit_hash_policy)) _
      (λ policy _. each (parsed_or 0 o.lacp_tbl (relevant (is_lacp m) g.lacp_rate)) _ (λ rate _.
        each (validated_by m (interval_of g m) g.arp_validate) _ (λ v ev.
          each (parsed_or fom_none fail_over_mac_tbl g.fail_over_mac) _ (λ fom _ c e.
            subst (λ (d : Checked). IsChecked d.params) (some-injective _ _ e)
              (fill-IsChecked o g m policy rate v fom ev))))))

-- ===== src/Parameters/Check.antt =====
-- The tables of 27/bond_main.c, and bond_check_params.
use hoolock.Common.{
  ℕ, zero, suc, ◌/◌, List, [], ◌∷◌, Bool, true, false, ◌&&◌, Option, none, some, if◌then◌else◌,
  ◌==◌, ltb, take, ℤ, pos, negsuc,
}
use hoolock.Bond.State.{
  Mode, round_robin, active_backup, balance_xor, broadcast, lacp, tlb, alb, hoolock_mode,
  FailOverMac, fom_none, fom_active, fom_follow, Params,
}
use hoolock.Bond.Slaves.{uses_primary}
use hoolock.Transmit.{XmitPolicy, layer2, layer23, layer34}
use hoolock.Parameters.{Parm, is_digit, parse_parm}

abbrev pub mode_tbl : List (Parm Mode)
mode_tbl =
    record {
      name = 98 ∷ 97 ∷ 108 ∷ 97 ∷ 110 ∷ 99 ∷ 101 ∷ 45 ∷ 114 ∷ 114 ∷ [];
      num = 0;
      value = round_robin;
    }
    ∷ record {
      name = 97 ∷ 99 ∷ 116 ∷ 105 ∷ 118 ∷ 101 ∷ 45 ∷ 98 ∷ 97 ∷ 99 ∷ 107 ∷ 117 ∷ 112 ∷ [];
      num = 1;
      value = active_backup;
    }
    ∷ record {
      name = 98 ∷ 97 ∷ 108 ∷ 97 ∷ 110 ∷ 99 ∷ 101 ∷ 45 ∷ 120 ∷ 111 ∷ 114 ∷ [];
      num = 2;
      value = balance_xor;
    }
    ∷ record {
      name = 98 ∷ 114 ∷ 111 ∷ 97 ∷ 100 ∷ 99 ∷ 97 ∷ 115 ∷ 116 ∷ [];
      num = 3;
      value = broadcast;
    }
    ∷ record { name = 56 ∷ 48 ∷ 50 ∷ 46 ∷ 51 ∷ 97 ∷ 100 ∷ []; num = 4; value = lacp }
    ∷ record {
      name = 98 ∷ 97 ∷ 108 ∷ 97 ∷ 110 ∷ 99 ∷ 101 ∷ 45 ∷ 116 ∷ 108 ∷ 98 ∷ [];
      num = 5;
      value = tlb;
    }
    ∷ record {
      name = 98 ∷ 97 ∷ 108 ∷ 97 ∷ 110 ∷ 99 ∷ 101 ∷ 45 ∷ 97 ∷ 108 ∷ 98 ∷ [];
      num = 6;
      value = alb;
    }
    ∷ record { name = 104 ∷ 111 ∷ 111 ∷ 108 ∷ 111 ∷ 99 ∷ 107 ∷ []; num = 7; value = hoolock_mode }
    ∷ []

abbrev pub xmit_hashtype_tbl : List (Parm XmitPolicy)
xmit_hashtype_tbl =
    record { name = 108 ∷ 97 ∷ 121 ∷ 101 ∷ 114 ∷ 50 ∷ []; num = 0; value = layer2 }
    ∷ record { name = 108 ∷ 97 ∷ 121 ∷ 101 ∷ 114 ∷ 51 ∷ 43 ∷ 52 ∷ []; num = 1; value = layer34 }
    ∷ record { name = 108 ∷ 97 ∷ 121 ∷ 101 ∷ 114 ∷ 50 ∷ 43 ∷ 51 ∷ []; num = 2; value = layer23 }
    ∷ []

-- The bits for the active slave and for the others.
abbrev pub arp_validate_tbl : List (Parm (Bool × Bool))
arp_validate_tbl =
    record { name = 110 ∷ 111 ∷ 110 ∷ 101 ∷ []; num = 0; value = (false, false) }
    ∷ record { name = 97 ∷ 99 ∷ 116 ∷ 105 ∷ 118 ∷ 101 ∷ []; num = 1; value = (true, false) }
    ∷ record { name = 98 ∷ 97 ∷ 99 ∷ 107 ∷ 117 ∷ 112 ∷ []; num = 2; value = (false, true) }
    ∷ record { name = 97 ∷ 108 ∷ 108 ∷ []; num = 3; value = (true, true) }
    ∷ []

abbrev pub fail_over_mac_tbl : List (Parm FailOverMac)
fail_over_mac_tbl =
    record { name = 110 ∷ 111 ∷ 110 ∷ 101 ∷ []; num = 0; value = fom_none }
    ∷ record { name = 97 ∷ 99 ∷ 116 ∷ 105 ∷ 118 ∷ 101 ∷ []; num = 1; value = fom_active }
    ∷ record { name = 102 ∷ 111 ∷ 108 ∷ 108 ∷ 111 ∷ 119 ∷ []; num = 2; value = fom_follow }
    ∷ []

-- `in_aton`, and `bond_lacp_tbl`, whose numbers are declared with bond_3ad.c.
pub record Outside : Type 0 where
  pub in_aton : List ℕ → ℕ
  pub lacp_tbl : List (Parm ℕ)

-- The module parameters as they are given: integers, and texts that can be NULL. `arp_ip_target`
-- are the texts before the first NULL.
pub record Given : Type 0 where
  pub max_bonds : ℤ
  pub num_grat_arp : ℤ
  pub miimon : ℤ
  pub updelay : ℤ
  pub downdelay : ℤ
  pub use_carrier : ℤ
  pub arp_interval : ℤ
  pub mode : Option (List ℕ)
  pub xmit_hash_policy : Option (List ℕ)
  pub lacp_rate : Option (List ℕ)
  pub primary : Option (List ℕ)
  pub arp_ip_target : List (List ℕ)
  pub arp_validate : Option (List ℕ)
  pub fail_over_mac : Option (List ℕ)

-- The parameters of the bonds, `xmit_policy`, `lacp_fast` and `max_bonds`.
pub record Checked : Type 0 where
  pub params : Params
  pub xmit_policy : XmitPolicy
  pub lacp_fast : ℕ
  pub max_bonds : ℕ

infixl 1 ◌>>=◌
abbrev pub ◌>>=◌ {ℓ κ} : {A : Type ℓ} {B : Type κ} → Option A → (A → Option B) → Option B
none >>= f = none
some a >>= f = f a

-- A text that is read with a table, or what stands there without one.
unfoldable pub parsed_or {ℓ} : {A : Type ℓ} → A → List (Parm A) → Option (List ℕ) → Option A
unfolding parse_parm
parsed_or a tbl none = some a
parsed_or a tbl (some text) = parse_parm text tbl

-- A text that only counts in some modes.
abbrev pub relevant : Bool → Option (List ℕ) → Option (List ℕ)
relevant true o = o
relevant false o = none

abbrev pub is_xor_or_lacp : Mode → Bool
is_xor_or_lacp balance_xor = true
is_xor_or_lacp lacp = true
is_xor_or_lacp _ = false

abbrev pub is_lacp : Mode → Bool
is_lacp lacp = true
is_lacp _ = false

abbrev pub is_active_backup : Mode → Bool
is_active_backup active_backup = true
is_active_backup _ = false

-- A parameter that is reset where it is negative.
abbrev pub or_reset : ℕ → ℤ → ℕ
or_reset n (pos k) = k
or_reset n (negsuc k) = n

abbrev pub grat_arp : ℤ → ℕ
grat_arp (pos k) = if ltb 255 k then 1 else k
grat_arp (negsuc k) = 1

abbrev pub carrier_used : ℤ → Bool
carrier_used (pos zero) = false
carrier_used _ = true

-- `miimon` behind the resets for 802.3ad, TLB and ALB.
abbrev pub needs_miimon : Mode → Bool
needs_miimon lacp = true
needs_miimon tlb = true
needs_miimon alb = true
needs_miimon _ = false

abbrev pub forced : Mode → ℕ → ℕ
forced m miimon = if needs_miimon m && miimon == 0 then 100 else miimon

-- A delay, in rounds of the monitor.
abbrev pub rounds_of : ℕ → ℕ → ℕ
rounds_of miimon delay = if miimon == 0 then delay else delay / miimon

-- `arp_interval` behind the test of `miimon`.
abbrev pub interval_beside : ℕ → ℤ → ℕ
interval_beside miimon i = if miimon == 0 then or_reset 0 i else 0

-- The loop over the targets: a text that does not begin with a digit ends ARP monitoring.
abbrev pub begins_with_digit : List ℕ → Bool
begins_with_digit [] = false
begins_with_digit (c ∷ cs) = is_digit c

unfoldable pub targets : (List ℕ → ℕ) → ℕ → List (List ℕ) → List ℕ
targets in_aton zero texts = []
targets in_aton (suc n) [] = 0 ∷ targets in_aton n []
targets in_aton (suc n) (t ∷ ts) =
    (if begins_with_digit t then in_aton t else 0) ∷ targets in_aton n ts

unfoldable pub all_good : ℕ → List (List ℕ) → Bool
all_good zero texts = true
all_good (suc n) [] = true
all_good (suc n) (t ∷ ts) = begins_with_digit t && all_good n ts

abbrev pub interval_with : Bool → List (List ℕ) → ℕ → ℕ
interval_with good [] i = 0
interval_with good (t ∷ ts) i = if good then i else 0

-- `arp_validate` behind its two tests.
unfoldable pub validated_by : Mode → ℕ → Option (List ℕ) → Option (Bool × Bool)
unfolding parse_parm
validated_by m i none = some (false, false)
validated_by m i (some text) =
    if is_active_backup m then if i == 0 then none else parse_parm text arp_validate_tbl else none

-- `strncpy(params->primary, primary, IFNAMSIZ)` with a zero at the end, in the modes with a primary.
abbrev pub primary_name : Bool → Option (List ℕ) → List ℕ
primary_name true (some text) = take 15 text
primary_name _ _ = []

-- `arp_interval` behind all its tests.
abbrev pub interval_of : Given → Mode → ℕ
interval_of g m =
    interval_with (all_good 16 g.arp_ip_target) g.arp_ip_target
      (interval_beside (forced m (or_reset 0 g.miimon)) g.arp_interval)

-- "fill params struct with the proper values".
unfoldable pub fill : Outside → Given → Mode → XmitPolicy → ℕ → Bool × Bool → FailOverMac → Checked
unfolding targets all_good take
fill o g m policy rate validate fom = record {
  params = record {
    mode = m;
    miimon = forced m (or_reset 0 g.miimon);
    num_grat_arp = grat_arp g.num_grat_arp;
    arp_interval = interval_of g m;
    validate_active = validate.0;
    validate_backup = validate.1;
    use_carrier = carrier_used g.use_carrier;
    fail_over_mac = fom;
    updelay = rounds_of (forced m (or_reset 0 g.miimon)) (or_reset 0 g.updelay);
    downdelay = rounds_of (forced m (or_reset 0 g.miimon)) (or_reset 0 g.downdelay);
    primary = primary_name (uses_primary m) g.primary;
    arp_targets = targets o.in_aton 16 g.arp_ip_target;
  };
  xmit_policy = policy;
  lacp_fast = rate;
  max_bonds = or_reset 1 g.max_bonds;
}

-- `bond_check_params`; -EINVAL is `none`.
unfoldable pub check_params : Outside → Given → Option Checked
unfolding parsed_or validated_by fill
check_params o g = do
  m ← parsed_or round_robin mode_tbl g.mode
  policy ← parsed_or layer2 xmit_hashtype_tbl (relevant (is_xor_or_lacp m) g.xmit_hash_policy)
  rate ← parsed_or 0 o.lacp_tbl (relevant (is_lacp m) g.lacp_rate)
  validate ← validated_by m (interval_of g m) g.arp_validate
  fom ← parsed_or fom_none fail_over_mac_tbl g.fail_over_mac
  some (fill o g m policy rate validate fom)

-- ===== src/Tests/Parameters.antt =====
-- The module parameters at concrete inputs.
use hoolock.Common.{◌≡◌, refl, [], ◌∷◌, true, false, none, some, pos, negsuc}
use hoolock.Bond.State.{hoolock_mode, fom_none}
use hoolock.Transmit.{layer2}
use hoolock.Parameters.{parse_parm, find_parm}
use hoolock.Parameters.Check.{
  Outside, Given, Checked, check_params, parsed_or, validated_by, fill, targets, all_good,
}
use hoolock.Parameters.Limits.{IsChecked, check_params-IsChecked}

abbrev outside : Outside
outside = record { in_aton = λ t. 7; lacp_tbl = [] }

-- "hoolock" with both monitors, a negative delay and a target.
abbrev given : Given
given = record {
  max_bonds = negsuc 4;
  num_grat_arp = pos 300;
  miimon = pos 100;
  updelay = pos 250;
  downdelay = negsuc 0;
  use_carrier = pos 2;
  arp_interval = pos 60;
  mode = some (104 ∷ 111 ∷ 111 ∷ 108 ∷ 111 ∷ 99 ∷ 107 ∷ []);
  xmit_hash_policy = some (120 ∷ []);
  lacp_rate = none;
  primary = some (101 ∷ 116 ∷ 104 ∷ 48 ∷ []);
  arp_ip_target = (49 ∷ 48 ∷ []) ∷ [];
  arp_validate = none;
  fail_over_mac = none;
}

abbrev checked : Checked
checked = record {
  params = record {
    mode = hoolock_mode;
    miimon = 100;
    num_grat_arp = 1;
    arp_interval = 0;
    validate_active = false;
    validate_backup = false;
    use_carrier = true;
    fail_over_mac = fom_none;
    updelay = 2;
    downdelay = 0;
    primary = 101 ∷ 116 ∷ 104 ∷ 48 ∷ [];
    arp_targets = 7 ∷ 0 ∷ 0 ∷ 0 ∷ 0 ∷ 0 ∷ 0 ∷ 0 ∷ 0 ∷ 0 ∷ 0 ∷ 0 ∷ 0 ∷ 0 ∷ 0 ∷ 0 ∷ [];
  };
  xmit_policy = layer2;
  lacp_fast = 0;
  max_bonds = 1;
}

given-checked : check_params outside given ≡ some checked
unfolding check_params parsed_or validated_by fill targets all_good parse_parm find_parm
given-checked = refl

check_params-IsChecked_example : IsChecked checked.params
check_params-IsChecked_example = check_params-IsChecked outside given checked given-checked

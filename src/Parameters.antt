-- ===== src/Parameters.antt =====
-- The module parameters: bond_parse_parm and bond_check_params of 27/bond_main.c.
pub mod Check
pub mod Limits
use hoolock.Common.{
  ℕ, zero, suc, ◌+◌, ◌-◌, ◌*◌, ◌/◌, ◌%◌, ◌^◌, List, [], ◌∷◌, Bool, true, false, ◌&&◌, ◌||◌, not,
  Option, none, some, if◌then◌else◌, ◌==◌, leb, ltb, take, length, is_some, ℤ, pos, negsuc,
}
use hoolock.Bond.State.{
  Mode, round_robin, active_backup, balance_xor, broadcast, lacp, tlb, alb, hoolock_mode,
  FailOverMac, fom_none, fom_active, fom_follow, Params,
}
use hoolock.Bond.Slaves.{uses_primary}
use hoolock.Transmit.{XmitPolicy, layer2, layer23, layer34}

-- `isdigit` and `isspace`, of ASCII.
abbrev pub is_digit : ℕ → Bool
is_digit c = leb 48 c && leb c 57

abbrev pub is_space : ℕ → Bool
is_space c = c == 32 || (leb 9 c && leb c 13)

abbrev pub skip_spaces : List ℕ → List ℕ
skip_spaces [] = []
skip_spaces (c ∷ cs) = if is_space c then skip_spaces cs else c ∷ cs

-- The loop over `buf`.
abbrev pub is_numeric : List ℕ → Bool
is_numeric [] = true
is_numeric (c ∷ cs) = (is_digit c || is_space c) && is_numeric cs

-- `sscanf` with "%20s" and with "%d", where there is something to read.
abbrev pub word : ℕ → List ℕ → List ℕ
word zero cs = []
word (suc n) [] = []
word (suc n) (c ∷ cs) = if is_space c then [] else c ∷ word n cs

abbrev pub number : ℕ → List ℕ → ℕ
number acc [] = acc
number acc (c ∷ cs) = let rest = number (acc * 10 + (c - 48)) cs in if is_digit c then rest else acc

-- An entry of a `struct bond_parm_tbl`: the name, the number, and what it stands for.
pub record Parm {ℓ} (A : Type ℓ) : Type ℓ where
  pub name : List ℕ
  pub num : ℕ
  pub value : A

-- `strcmp(a, b) == 0`.
abbrev pub same_text : List ℕ → List ℕ → Bool
same_text [] [] = true
same_text [] (d ∷ ds) = false
same_text (c ∷ cs) [] = false
same_text (c ∷ cs) (d ∷ ds) = c == d && same_text cs ds

-- `mode` is -1, the `none`, where the text is no number, and `modestr` empty where it is one.
unfoldable pub find_parm {ℓ} : {A : Type ℓ} → Option ℕ → List ℕ → List (Parm A) → Option A
find_parm mode text [] = none
find_parm none text (e ∷ es) =
    if same_text text e.name then some e.value else find_parm none text es
find_parm (some n) text (e ∷ es) =
    if n == e.num || same_text text e.name then some e.value else find_parm (some n) text es

-- A number without a digit: `sscanf` reads nothing.
unfoldable pub parse_digits {ℓ} : {A : Type ℓ} → List ℕ → List (Parm A) → Option A
unfolding find_parm
parse_digits [] tbl = none
parse_digits (c ∷ cs) tbl = find_parm (some (number 0 (c ∷ cs) % 2 ^ 32)) [] tbl

-- `bond_parse_parm`; -1 is `none`.
unfoldable pub parse_parm {ℓ} : {A : Type ℓ} → List ℕ → List (Parm A) → Option A
unfolding find_parm parse_digits
parse_parm buf tbl =
    if is_numeric buf
    then parse_digits (skip_spaces buf) tbl
    else find_parm none (word 20 (skip_spaces buf)) tbl

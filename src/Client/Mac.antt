-- ===== src/Client/Mac.antt =====
-- The hardware address as src/hoolock_client.cc writes it, in hexadecimal digits.
pub mod Digits
use Prim.Native.Nat.{bit_or}
use hoolock.Common.{
  ℕ, zero, suc, ◌+◌, ◌-◌, ◌*◌, ◌/◌, ◌%◌, ◌^◌, List, [], ◌∷◌, ◌++◌, Bool, true, false, if◌then◌else◌,
  ltb, length,
}

-- `sa_data`, of an Ethernet device.
pub record HwAddr : Type 0 where
  pub b0 : ℕ
  pub b1 : ℕ
  pub b2 : ℕ
  pub b3 : ℕ
  pub b4 : ℕ
  pub b5 : ℕ

-- `memcpy(&n_dec_mac, sa_data, 6)`: the first byte is the lowest.
abbrev pub n_dec_mac : HwAddr → ℕ
n_dec_mac h = h.b0 + 256 * (h.b1 + 256 * (h.b2 + 256 * (h.b3 + 256 * (h.b4 + 256 * h.b5))))

-- `ntohl` and `ntohs`, which turn the bytes of their argument round.
abbrev pub ntohl : ℕ → ℕ
ntohl n =
    (n % 256) * 256 ^ 3 + (n / 256 % 256) * 256 ^ 2 + (n / 256 ^ 2 % 256) * 256 + n / 256 ^ 3 % 256

abbrev pub ntohs : ℕ → ℕ
ntohs n = (n % 256) * 256 + n / 256 % 256

-- `dec_mac`; the conversions to `long` and `short` are cut off to 32 and 16 bits.
unfoldable pub dec_mac : HwAddr → ℕ
dec_mac h = bit_or (ntohl (n_dec_mac h % 2 ^ 32) * 2 ^ 16) (ntohs (n_dec_mac h / 2 ^ 32 % 2 ^ 16))

-- A digit of `%llx`.
abbrev pub hex_digit : ℕ → ℕ
hex_digit d = if ltb d 10 then 48 + d else 87 + d

-- `sprintf(tmpmac, "%llx", n)`, with fuel for the digits of the number.
unfoldable pub hex : ℕ → ℕ → List ℕ
hex zero n = []
hex (suc fuel) n =
    let rest = hex fuel (n / 16) in
    if ltb n 16 then hex_digit n ∷ [] else rest ++ (hex_digit (n % 16) ∷ [])

-- The loop that writes `n` zeros in front of a text.
unfoldable pub with_zeros : ℕ → List ℕ → List ℕ
with_zeros zero xs = xs
with_zeros (suc n) xs = 48 ∷ with_zeros n xs

unfoldable pub padded : ℕ → List ℕ → List ℕ
unfolding with_zeros
padded n xs = with_zeros (n - length xs) xs

-- `hexmac`; a `long long` has at most 16 digits.
unfoldable pub hexmac : HwAddr → List ℕ
unfolding dec_mac hex padded
hexmac h = padded 12 (hex 16 (dec_mac h))

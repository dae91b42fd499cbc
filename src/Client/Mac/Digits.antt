-- ===== src/Client/Mac/Digits.antt =====
-- The digits of the hardware address in src/hoolock_client.cc.
use Prim.Native.Nat.{bit_or-bitwise, digits, max}
use hoolock.Common.{
  ℕ, zero, suc, ◌+◌, ◌-◌, ◌*◌, ◌/◌, ◌%◌, ◌^◌, ◌≤◌, ◌<◌, ◌≡◌, inl, inr, refl, sym, ap, ap₂, ◌∙◌,
  List, [], ◌∷◌, ◌++◌, true, false, ltb, length, arith, Bool-cases, length-append, append_assoc,
}
use hoolock.Client.Mac.{
  HwAddr, n_dec_mac, ntohl, ntohs, dec_mac, hex_digit, hex, with_zeros, padded, hexmac,
}

-- The `|` of numbers without a common digit; first with 0.
or_zero : (n x : ℕ) → x ≤ n → digits (λ b. b) max n x 0 ≡ x
or_zero zero zero h = refl
or_zero (suc n) zero h = refl
or_zero zero (suc x) h = absurd (omega (arith, h))
or_zero (suc n) (suc x) h =
    ap (λ y. y * 2 + max (suc x % 2) 0) (or_zero n (suc x / 2) (omega (arith, h))) ∙ omega arith

power : ℕ → ℕ
power zero = 1
power (suc k) = 2 * power k

or_apart :
    (k n a x y : ℕ) → a ≡ x * power k → y < power k → a ≤ n → digits (λ b. b) max n a y ≡ a + y
unfolding power
or_apart zero n a x y e h l =
    ap (digits (λ b. b) max n a) (zero_below y h) ∙ or_zero n a l ∙ omega (arith, zero_below y h)
  where
    zero_below : (y : ℕ) → y < 1 → y ≡ 0
    zero_below y h = omega arith
or_apart (suc k) zero zero x y e h l = omega arith
or_apart (suc k) (suc n) zero x y e h l = omega arith
or_apart (suc k) zero (suc a) x y e h l = absurd (omega (arith, l))
or_apart (suc k) (suc n) (suc a) x y e h l =
    let t : suc a ≡ 2 * (x * power k) = e ∙ twice x (power k) in
    ap (λ z. z * 2 + max (suc a % 2) (y % 2))
      (or_apart k n (suc a / 2) x (y / 2) (omega (arith, t)) (omega (arith, h)) (omega (arith, l)))
    ∙ ap (λ z. (suc a / 2 + y / 2) * 2 + max z (y % 2)) (even a (x * power k) t)
    ∙ omega (arith, t)
  where
    twice : (x q : ℕ) → x * (2 * q) ≡ 2 * (x * q)
    twice x q = omega arith

    even : (a m : ℕ) → suc a ≡ 2 * m → suc a % 2 ≡ 0
    even a m t = omega arith

-- The last `w` digits of a number, zeros included.
fixed : ℕ → ℕ → List ℕ
fixed zero n = []
fixed (suc w) n = fixed w (n / 16) ++ (hex_digit (n % 16) ∷ [])

with_zeros-append : (n : ℕ) (xs ys : List ℕ) → with_zeros n (xs ++ ys) ≡ with_zeros n xs ++ ys
unfolding with_zeros
with_zeros-append zero xs ys = refl
with_zeros-append (suc n) xs ys = ap (λ zs. 48 ∷ zs) (with_zeros-append n xs ys)

padded-append : (w d : ℕ) (xs : List ℕ) → padded (suc w) (xs ++ (d ∷ [])) ≡ padded w xs ++ (d ∷ [])
unfolding padded
padded-append w d xs =
    ap (λ n. with_zeros n (xs ++ (d ∷ []))) (omega (arith, length-append xs (d ∷ [])))
    ∙ with_zeros-append (w - length xs) xs (d ∷ [])

fixed-zero : (w : ℕ) → fixed w 0 ≡ with_zeros w []
unfolding fixed with_zeros
fixed-zero zero = refl
fixed-zero (suc w) = ap (λ xs. xs ++ (48 ∷ [])) (fixed-zero w) ∙ last w
  where
    last : (w : ℕ) → with_zeros w [] ++ (48 ∷ []) ≡ 48 ∷ with_zeros w []
    last zero = refl
    last (suc w) = ap (λ xs. 48 ∷ xs) (last w)

bound : ℕ → ℕ
bound zero = 1
bound (suc w) = 16 * bound w

ltb_below : (n : ℕ) → ltb n 16 ≡ true → n < 16
ltb_below n h = ground arith

ltb_above : (n : ℕ) → ltb n 16 ≡ false → 16 ≤ n
ltb_above n h = ground arith

ltb_under : (n : ℕ) → n < 16 → ltb n 16 ≡ true
ltb_under n h = ground arith

one_digit : (w n : ℕ) → n < 16 → padded (suc w) (hex_digit n ∷ []) ≡ fixed (suc w) n
unfolding padded fixed
one_digit w n t =
    padded-append w (hex_digit n) []
    ∙ ap (λ j. with_zeros j [] ++ (hex_digit n ∷ [])) (no_less w)
    ∙ ap₂ (λ xs d. xs ++ (hex_digit d ∷ [])) (sym (fixed-zero w)) (omega (arith, t))
    ∙ ap (λ m. fixed w m ++ (hex_digit (n % 16) ∷ [])) (omega (arith, t))
  where
    no_less : (w : ℕ) → w - 0 ≡ w
    no_less w = omega arith

-- With fuel for them all, the digits behind zeros are the fixed ones.
padded-hex :
    (w fuel n : ℕ)
    → n < bound (suc w)
    → suc w ≤ fuel
    → padded (suc w) (hex fuel n) ≡ fixed (suc w) n
unfolding bound fixed hex padded
padded-hex w zero n h l = absurd (omega (arith, l))
padded-hex zero (suc fuel) n h l =
    rw (ltb_under n (omega (arith, h)), hex) (one_digit zero n (omega (arith, h)))
padded-hex (suc w) (suc fuel) n h l = elim (Bool-cases (ltb n 16)) [
  | inl t ↦ rw (t, hex) (one_digit (suc w) n (ltb_below n t))
  | inr f ↦
      rw (f, hex)
        (padded-append (suc w) (hex_digit (n % 16)) (hex fuel (n / 16))
          ∙ ap (λ xs. xs ++ (hex_digit (n % 16) ∷ []))
              (padded-hex w fuel (n / 16) (omega (arith, h)) (omega (arith, l))))
]

-- The two digits of a byte.
abbrev pub two_digits : ℕ → List ℕ
two_digits b = hex_digit (b / 16) ∷ hex_digit (b % 16) ∷ []

fixed-byte : (w x b : ℕ) → b < 256 → fixed (suc (suc w)) (x * 256 + b) ≡ fixed w x ++ two_digits b
unfolding fixed
fixed-byte w x b h =
    append_assoc (fixed w ((x * 256 + b) / 16 / 16)) _ _
    ∙ ap₂ (λ y ds. fixed w y ++ ds) (omega (arith, h))
        (ap₂ (λ d e. hex_digit d ∷ hex_digit e ∷ []) (omega (arith, h)) (omega (arith, h)))

-- The bytes of an address.
pub record IsBytes (h : HwAddr) : Type 0 where
  pub b0 : h.b0 < 256
  pub b1 : h.b1 < 256
  pub b2 : h.b2 < 256
  pub b3 : h.b3 < 256
  pub b4 : h.b4 < 256
  pub b5 : h.b5 < 256

-- The number that is printed has the first byte at the top.
in_order : HwAddr → ℕ
in_order h = ((((h.b0 * 256 + h.b1) * 256 + h.b2) * 256 + h.b3) * 256 + h.b4) * 256 + h.b5

dec_mac-in_order : (h : HwAddr) → IsBytes h → dec_mac h ≡ in_order h
unfolding dec_mac in_order power
dec_mac-in_order h k =
    (λ i. bit_or-bitwise a b i)
    ∙ or_apart 16 a a x b refl (omega (arith, low)) (omega arith)
    ∙ omega (arith, k.b0, k.b1, k.b2, k.b3, k.b4, k.b5)
  where
    x : ℕ
    x = ntohl (n_dec_mac h % 2 ^ 32)

    a : ℕ
    a = x * 2 ^ 16

    b : ℕ
    b = ntohs (n_dec_mac h / 2 ^ 32 % 2 ^ 16)

    low : b < 2 ^ 16
    low = omega (arith, k.b0, k.b1, k.b2, k.b3, k.b4, k.b5)

in_order-bound : (h : HwAddr) → IsBytes h → in_order h < bound 12
unfolding in_order bound
in_order-bound h k = omega (arith, k.b0, k.b1, k.b2, k.b3, k.b4, k.b5)

fixed-first : (b : ℕ) → b < 256 → fixed 2 b ≡ two_digits b
unfolding fixed
fixed-first b h = ap (fixed 2) (as_low b) ∙ fixed-byte 0 0 b h ∙ no_digits b
  where
    as_low : (b : ℕ) → b ≡ 0 * 256 + b
    as_low b = omega arith

    no_digits : (b : ℕ) → fixed 0 0 ++ two_digits b ≡ two_digits b
    no_digits b = refl

fixed-in_order :
    (h : HwAddr)
    → IsBytes h
    → fixed 12 (in_order h)
      ≡ two_digits h.b0
        ++ two_digits h.b1
        ++ two_digits h.b2
        ++ two_digits h.b3
        ++ two_digits h.b4
        ++ two_digits h.b5
unfolding in_order
fixed-in_order h k =
    fixed-byte 10 _ h.b5 k.b5
    ∙ ap (λ ds. ds ++ two_digits h.b5)
        (fixed-byte 8 _ h.b4 k.b4
          ∙ ap (λ ds. ds ++ two_digits h.b4)
              (fixed-byte 6 _ h.b3 k.b3
                ∙ ap (λ ds. ds ++ two_digits h.b3)
                    (fixed-byte 4 _ h.b2 k.b2
                      ∙ ap (λ ds. ds ++ two_digits h.b2)
                          (fixed-byte 2 h.b0 h.b1 k.b1
                            ∙ ap (λ ds. ds ++ two_digits h.b1) (fixed-first h.b0 k.b0)))))

-- The text of the hardware address that the client sends to the controller is that of its six
-- bytes in their order, each as two hexadecimal digits: twelve digits, with the zeros in front.
pub hexmac_lem :
    (h : HwAddr)
    → IsBytes h
    → hexmac h
      ≡ two_digits h.b0
        ++ two_digits h.b1
        ++ two_digits h.b2
        ++ two_digits h.b3
        ++ two_digits h.b4
        ++ two_digits h.b5
unfolding hexmac
hexmac_lem h k =
    ap (λ n. padded 12 (hex 16 n)) (dec_mac-in_order h k)
    ∙ padded-hex 11 16 (in_order h) (in_order-bound h k) (omega arith)
    ∙ fixed-in_order h k

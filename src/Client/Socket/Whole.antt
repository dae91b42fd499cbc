-- ===== src/Client/Socket/Whole.antt =====
-- The writing and the reading loop of src/hoolock_client.cc where no call fails.
use hoolock.Common.{
  ℕ, zero, suc, ◌+◌, ◌-◌, ◌≤◌, ◌<◌, ◌≡◌, ◌⊎◌, inl, inr, refl, sym, ap, ap₂, ◌∙◌, List, [], ◌∷◌,
  ◌++◌, map, true, false, ltb, take, drop, length, pos, arith, append_assoc, append-nil,
  length-append, Bool-cases,
}
use hoolock.Client.Socket.{sent, and_sent, write_all, lesser, received, put, read_all}

abbrev pub sum : List ℕ → ℕ
sum [] = 0
sum (k ∷ ks) = k + sum ks

drop_all : (n : ℕ) (xs : List ℕ) → length xs ≤ n → drop n xs ≡ []
unfolding drop
drop_all zero [] h = refl
drop_all (suc n) [] h = refl
drop_all zero (x ∷ xs) h = absurd (omega (arith, h))
drop_all (suc n) (x ∷ xs) h = drop_all n xs (omega arith)

take-drop : (m : ℕ) (xs : List ℕ) → take m xs ++ drop m xs ≡ xs
unfolding take drop
take-drop zero xs = refl
take-drop (suc m) [] = refl
take-drop (suc m) (x ∷ xs) = ap (λ ys. x ∷ ys) (take-drop m xs)

drop-nil : (k : ℕ) → ◌≡◌ {A = List ℕ} [] (drop k [])
unfolding drop
drop-nil zero = refl
drop-nil (suc k) = refl

drop-drop : (m n k : ℕ) (xs : List ℕ) → n + m ≡ k → drop m (drop n xs) ≡ drop k xs
unfolding drop
drop-drop m zero k xs e = ap (λ j. drop j xs) (omega arith)
drop-drop zero (suc n) k [] e = drop-nil k
drop-drop (suc m) (suc n) (suc k) [] e = refl
drop-drop (suc m) (suc n) zero [] e = absurd (omega (arith, e))
drop-drop m (suc n) zero (x ∷ xs) e = absurd (omega (arith, e))
drop-drop m (suc n) (suc k) (x ∷ xs) e = drop-drop m n k xs (omega arith)

take-take : (m r k : ℕ) (xs : List ℕ) → m + k ≡ r → take m xs ++ take k (drop m xs) ≡ take r xs
unfolding take drop
take-take zero r k xs e = ap (λ j. take j xs) (omega arith)
take-take (suc m) zero k xs e = absurd (omega (arith, e))
take-take (suc m) (suc r) zero [] e = refl
take-take (suc m) (suc r) (suc k) [] e = refl
take-take (suc m) (suc r) k (x ∷ xs) e = ap (λ ys. x ∷ ys) (take-take m r k xs (omega arith))

length-take : (m : ℕ) (xs : List ℕ) → m ≤ length xs → length (take m xs) ≡ m
unfolding take
length-take zero xs h = refl
length-take (suc m) [] h = absurd (omega (arith, h))
length-take (suc m) (x ∷ xs) h = ap suc (length-take m xs (omega arith))

length-drop : (m : ℕ) (xs : List ℕ) → length (drop m xs) ≡ length xs - m
unfolding drop
length-drop zero xs = omega arith
length-drop (suc m) [] = omega arith
length-drop (suc m) (x ∷ xs) = length-drop m xs ∙ omega arith

pub take-append : (n : ℕ) (xs ys : List ℕ) → length xs ≡ n → take n (xs ++ ys) ≡ xs
unfolding take
take-append zero [] ys e = refl
take-append (suc n) [] ys e = absurd (omega (arith, e))
take-append zero (x ∷ xs) ys e = absurd (omega (arith, e))
take-append (suc n) (x ∷ xs) ys e = ap (λ zs. x ∷ zs) (take-append n xs ys (omega arith))

pub drop-append : (n k : ℕ) (xs ys : List ℕ) → length xs ≡ n → drop (n + k) (xs ++ ys) ≡ drop k ys
unfolding drop
drop-append n k xs ys e = sym (drop-drop k n (n + k) (xs ++ ys) refl) ∙ ap (drop k) (past n xs e)
  where
    past : (n : ℕ) (xs : List ℕ) → length xs ≡ n → drop n (xs ++ ys) ≡ ys
    past zero [] e = refl
    past (suc n) [] e = absurd (omega (arith, e))
    past zero (x ∷ xs) e = absurd (omega (arith, e))
    past (suc n) (x ∷ xs) e = past n xs (omega arith)

take-all : (n : ℕ) (xs : List ℕ) → length xs ≡ n → take n xs ≡ xs
take-all n xs e = ap (take n) (sym (append-nil xs)) ∙ take-append n xs [] e

lesser_le : (a b : ℕ) → (lesser a b ≤ a) × (lesser a b ≤ b)
lesser_le a b = (ground arith, ground arith)

lesser_cases : (a b : ℕ) → (lesser a b ≡ a) ⊎ (lesser a b ≡ b)
lesser_cases a b = ground arith

ltb-true : (a b : ℕ) → a < b → ltb a b ≡ true
ltb-true a b h = ground arith

ltb_le : (a b : ℕ) → ltb a b ≡ false → b ≤ a
ltb_le a b h = ground arith

ltb-false : (a b : ℕ) → b ≤ a → ltb a b ≡ false
ltb-false a b h = ground arith

-- Where no `write` fails and together they take enough, the message goes out.
pub write_all-sent :
    (msg : List ℕ) (n : ℕ) (ks : List ℕ)
    → n ≤ length msg
    → length msg ≤ n + sum ks
    → write_all msg n (map pos ks) ≡ sent (drop n msg)
unfolding write_all
write_all-sent msg n [] h e =
    rw (ltb-false n (length msg) (omega arith), drop_all n msg (omega arith)) refl
write_all-sent msg n (k ∷ ks) h e =
    let m = lesser k (length msg - n) in
    elim (Bool-cases (ltb n (length msg))) [
      | inl t ↦
          rw (t, write_all)
            (ap (and_sent (take m (drop n msg))) (
                write_all-sent msg (n + m) ks (omega (arith, h, lesser_le k (length msg - n)))
                  (omega (arith, h, e, lesser_cases k (length msg - n))))
              ∙ ap (λ ys. sent (take m (drop n msg) ++ ys)) (sym (drop-drop m n (n + m) msg refl))
              ∙ ap sent (take-drop m (drop n msg)))
      | inr f ↦ rw (f, write_all) (ap sent (sym (drop_all n msg (ltb_le n (length msg) f))))
    ]

-- A piece is put behind what has come in already.
put-append :
    (n m : ℕ) (got pad bs : List ℕ)
    → length got ≡ n
    → length bs ≡ m
    → put n bs (got ++ pad) ≡ (got ++ bs) ++ drop m pad
put-append n m got pad bs e f =
    ap₂ (λ xs ys. xs ++ (bs ++ ys)) (take-append n got pad e)
      (ap (λ j. drop (n + j) (got ++ pad)) f ∙ drop-append n m got pad e)
    ∙ sym (append_assoc got bs (drop m pad))

-- The buffer is full.
filled :
    (r : ℕ) (got pad incoming : List ℕ)
    → length pad ≡ r
    → r ≡ 0
    → received (got ++ pad) incoming ≡ received (got ++ take r incoming) (drop r incoming)
unfolding take drop
filled zero got [] incoming e z = refl
filled (suc r) got pad incoming e z = absurd (omega (arith, z))
filled zero got (x ∷ xs) incoming e z = absurd (omega (arith, e))

-- One piece, and then the rest of them.
pieces :
    (m j r : ℕ) (got incoming : List ℕ)
    → m + j ≡ r
    → received ((got ++ take m incoming) ++ take j (drop m incoming)) (drop j (drop m incoming))
      ≡ received (got ++ take r incoming) (drop r incoming)
pieces m j r got incoming e =
    ap₂ received
      (append_assoc got (take m incoming) (take j (drop m incoming))
        ∙ ap (λ ys. got ++ ys) (take-take m r j incoming e))
      (drop-drop j m r incoming e)

-- Where no `read` fails and together they bring enough, the buffer is filled, and what follows
-- on the stream stays there.
pub read_all-received :
    (size r n : ℕ) (got pad incoming ks : List ℕ)
    → length got ≡ n
    → length pad ≡ r
    → n + r ≡ size
    → r ≤ length incoming
    → r ≤ sum ks
    → read_all size (got ++ pad) n incoming (map pos ks)
      ≡ received (got ++ take r incoming) (drop r incoming)
unfolding read_all
read_all-received size r n got pad incoming [] e f s i h =
    rw (ltb-false n size (omega (arith, s, h)), read_all)
      (filled r got pad incoming f (omega (arith, h)))
read_all-received size r n got pad incoming (k ∷ ks) e f s i h =
    let m = lesser k (lesser (size - n) (length incoming)) in
    let l = lesser_le k (lesser (size - n) (length incoming)) in
    let u = lesser_le (size - n) (length incoming) in
    let c = lesser_cases k (lesser (size - n) (length incoming)) in
    let d = lesser_cases (size - n) (length incoming) in
    elim (Bool-cases (ltb n size)) [
      | inl t ↦
          rw (t, read_all)
            (ap (λ buffer. read_all size buffer (n + m) (drop m incoming) (map pos ks))
                (put-append n m got pad (take m incoming) e
                  (length-take m incoming (omega (arith, l, u))))
              ∙ read_all-received size (r - m) (n + m) (got ++ take m incoming) (drop m pad)
                  (drop m incoming) ks
                  (length-append got (take m incoming)
                    ∙ omega (arith, e, length-take m incoming (omega (arith, l, u))))
                  (length-drop m pad ∙ omega (arith, f)) (omega (arith, s, l, u))
                  (omega (arith, i, length-drop m incoming)) (omega (arith, s, i, h, c, d))
              ∙ pieces m (r - m) r got incoming (omega (arith, s, l, u)))
      | inr g ↦ rw (g, read_all) (filled r got pad incoming f (omega (arith, s, ltb_le n size g)))
    ]

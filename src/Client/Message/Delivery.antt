-- ===== src/Client/Message/Delivery.antt =====
-- A request of src/hoolock_client.cc on its way through the two loops.
use hoolock.Common.{
  ℕ, zero, suc, ◌+◌, ◌*◌, ◌≤◌, ◌≡◌, refl, ap, ap₂, ◌∙◌, List, [], ◌∷◌, ◌++◌, map, pos, drop, byte,
  length, length-append, arith,
}
use hoolock.Client.Message.{
  HoolockCmd, make_req, make_ack, break_req, break_ack, code, msg_size, request, as_msg, hoolock_id,
  strncpy, int_bytes,
}
use hoolock.Client.Socket.{sent, received, write_all, read_all}
use hoolock.Client.Socket.Whole.{sum, write_all-sent, read_all-received, take-append, drop-append}

length-strncpy : (n : ℕ) (s : List ℕ) → length (strncpy n s) ≡ n
unfolding strncpy
length-strncpy zero s = refl
length-strncpy (suc n) [] = ap suc (length-strncpy n [])
length-strncpy (suc n) (c ∷ cs) = ap suc (length-strncpy n cs)

strncpy_whole : (n : ℕ) (s : List ℕ) → length s ≡ n → strncpy n s ≡ s
unfolding strncpy
strncpy_whole zero [] e = refl
strncpy_whole (suc n) [] e = absurd (omega (arith, e))
strncpy_whole zero (c ∷ cs) e = absurd (omega (arith, e))
strncpy_whole (suc n) (c ∷ cs) e = ap (λ s. c ∷ s) (strncpy_whole n cs (omega arith))

byte-append : (k j : ℕ) (xs ys : List ℕ) → length xs + k ≡ j → byte (xs ++ ys) j ≡ byte ys k
byte-append k j [] ys e = ap (byte ys) (omega (arith, e))
byte-append k zero (x ∷ xs) ys e = absurd (omega (arith, e))
byte-append k (suc j) (x ∷ xs) ys e = byte-append k j xs ys (omega (arith, e))

length-request : (junk : ℕ) (mac : List ℕ) (c : HoolockCmd) → length (request junk mac c) ≡ msg_size
unfolding request
length-request junk mac c =
    length-append (strncpy 7 hoolock_id) (strncpy 12 mac ++ behind)
    ∙ omega (
      arith,
      length-strncpy 7 hoolock_id,
      length-strncpy 12 mac,
      length-append (strncpy 12 mac) behind,
    )
  where
    behind : List ℕ
    behind = junk ∷ (int_bytes (code c) ++ (59 ∷ []))

cmd_of : List ℕ → ℕ
cmd_of rest = byte rest 1 + 256 * (byte rest 2 + 256 * (byte rest 3 + 256 * byte rest 4))

-- The fields of a message whose first two are known.
as_msg-fields :
    (mac rest : List ℕ)
    → length mac ≡ 12
    → as_msg (hoolock_id ++ (mac ++ rest))
      ≡ record { msg_id = hoolock_id; host_mac = mac; separator1 = byte rest 0; cmd = cmd_of rest }
unfolding as_msg cmd_of
as_msg-fields mac rest e = λ i. record {
  msg_id = hoolock_id;
  host_mac = take-append 12 mac rest e i;
  separator1 = byte-append 0 12 mac rest (omega (arith, e)) i;
  cmd =
      byte-append 1 13 mac rest (omega (arith, e)) i
      + 256
        * (byte-append 2 14 mac rest (omega (arith, e)) i
            + 256
              * (byte-append 3 15 mac rest (omega (arith, e)) i
                  + 256 * byte-append 4 16 mac rest (omega (arith, e)) i));
}

cmd_of-code :
    (junk : ℕ) (c : HoolockCmd) → cmd_of (junk ∷ (int_bytes (code c) ++ (59 ∷ []))) ≡ code c
unfolding cmd_of
cmd_of-code junk make_req = refl
cmd_of-code junk make_ack = refl
cmd_of-code junk break_req = refl
cmd_of-code junk break_ack = refl

as_msg-request :
    (junk : ℕ) (mac : List ℕ) (c : HoolockCmd)
    → length mac ≡ 12
    → as_msg (request junk mac c)
      ≡ record { msg_id = hoolock_id; host_mac = mac; separator1 = junk; cmd = code c }
unfolding request strncpy
as_msg-request junk mac c e =
    let behind = junk ∷ (int_bytes (code c) ++ (59 ∷ [])) in
    ap (λ m. as_msg (hoolock_id ++ (m ++ behind))) (strncpy_whole 12 mac e)
    ∙ as_msg-fields mac behind e
    ∙ ap (λ n. record { msg_id = hoolock_id; host_mac = mac; separator1 = junk; cmd = n })
        (cmd_of-code junk c)

-- In whatever pieces `write` takes a request and `read` brings it, where no call fails and they
-- take and bring enough: the bytes that leave are 25, a reader with the client's reading loop gets
-- them all and leaves what follows on the stream, and finds in them the identifier, the twelve
-- digits of the address and the command.
pub request-delivered :
    (junk : ℕ) (mac : List ℕ) (c : HoolockCmd) (ks js buffer more : List ℕ)
    → length mac ≡ 12
    → length buffer ≡ msg_size
    → msg_size ≤ sum ks
    → msg_size ≤ sum js
    → (bs : List ℕ) × (write_all (request junk mac c) 0 (map pos ks) ≡ sent bs)
      × (read_all msg_size buffer 0 (bs ++ more) (map pos js) ≡ received bs more)
      × (as_msg bs
          ≡ record { msg_id = hoolock_id; host_mac = mac; separator1 = junk; cmd = code c })
unfolding drop
request-delivered junk mac c ks js buffer more e f h k =
    let bs = request junk mac c in
    let l = length-request junk mac c in
    (
      bs,
      write_all-sent bs 0 ks (omega arith) (omega (arith, l, h)),
      read_all-received msg_size msg_size 0 [] buffer (bs ++ more) js refl f refl
            (omega (arith, l, length-append bs more)) k
          ∙ ap₂ received (take-append 25 bs more l) (drop-append 25 0 bs more l),
      as_msg-request junk mac c e,
    )

-- ===== src/Client/Message.antt =====
-- The messages between the client and the controller: src/message.h, and where
-- src/hoolock_client.cc fills one and reads one.
pub mod Delivery
use hoolock.Common.{ℕ, zero, suc, ◌+◌, ◌*◌, ◌/◌, ◌%◌, ◌^◌, List, [], ◌∷◌, ◌++◌, take, drop, byte}

-- `enum hoolock_cmd`, and its values.
pub data HoolockCmd : Type 0 where
  make_req make_ack break_req break_ack : HoolockCmd

abbrev pub code : HoolockCmd → ℕ
code make_req = 0
code make_ack = 1
code break_req = 2
code break_ack = 3

-- `struct Hoolock_msg`, where `cmd` is what stands in the place of the enumeration.
pub record HoolockMsg : Type 0 where
  pub msg_id : List ℕ
  pub host_mac : List ℕ
  pub separator1 : ℕ
  pub cmd : ℕ

-- The 24 bytes of the structure, and one for a semicolon.
abbrev pub msg_size : ℕ
msg_size = 25

-- An `int`, lowest byte first.
abbrev pub int_bytes : ℕ → List ℕ
int_bytes n = n % 256 ∷ n / 256 % 256 ∷ n / 256 ^ 2 % 256 ∷ n / 256 ^ 3 % 256 ∷ []

-- `strncpy(dest, s, n)`.
unfoldable pub strncpy : ℕ → List ℕ → List ℕ
strncpy zero s = []
strncpy (suc n) [] = 0 ∷ strncpy n []
strncpy (suc n) (c ∷ cs) = c ∷ strncpy n cs

-- "hoolock".
abbrev pub hoolock_id : List ℕ
hoolock_id = 104 ∷ 111 ∷ 111 ∷ 108 ∷ 111 ∷ 99 ∷ 107 ∷ []

-- A request as it is filled in. The separator is not written: `junk` is what `new` left there.
unfoldable pub request : ℕ → List ℕ → HoolockCmd → List ℕ
unfolding strncpy
request junk mac c =
    strncpy 7 hoolock_id ++ (strncpy 12 mac ++ (junk ∷ (int_bytes (code c) ++ (59 ∷ []))))

-- The cast of a buffer to `struct Hoolock_msg *`.
unfoldable pub as_msg : List ℕ → HoolockMsg
unfolding take drop
as_msg bs = record {
  msg_id = take 7 bs;
  host_mac = take 12 (drop 7 bs);
  separator1 = byte bs 19;
  cmd = byte bs 20 + 256 * (byte bs 21 + 256 * (byte bs 22 + 256 * byte bs 23));
}

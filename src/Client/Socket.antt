-- ===== src/Client/Socket.antt =====
-- The loops of src/hoolock_client.cc that write a message to the controller and read one.
pub mod Whole
use hoolock.Common.{
  ℕ, zero, suc, ◌+◌, ◌-◌, List, [], ◌∷◌, ◌++◌, Bool, true, false, if◌then◌else◌, ltb, take, drop,
  length, ℤ, pos, negsuc,
}

abbrev pub lesser : ℕ → ℕ → ℕ
lesser a b = if ltb a b then a else b

-- How the writing loop ends, with the bytes that went out: it has written the message, `write`
-- does not return, or it writes from an address before the message.
pub data Writing : Type 0 where
  sent : List ℕ → Writing
  write_blocks : List ℕ → Writing
  write_outside : List ℕ → Writing

abbrev pub and_sent : List ℕ → Writing → Writing
and_sent bs (sent cs) = sent (bs ++ cs)
and_sent bs (write_blocks cs) = write_blocks (bs ++ cs)
and_sent bs (write_outside cs) = write_outside (bs ++ cs)

-- `while(bytes_out < msg_size)`, where `bytes_out` is `n`, over the answers of `write`: at most
-- the bytes asked for, or a negative number, which is added all the same.
unfoldable pub write_all : List ℕ → ℕ → List ℤ → Writing
unfolding take drop
write_all msg n [] = if ltb n (length msg) then write_blocks [] else sent []
write_all msg n (pos k ∷ answers) =
    let m = lesser k (length msg - n) in
    let rest = write_all msg (n + m) answers in
    if ltb n (length msg) then and_sent (take m (drop n msg)) rest else sent []
write_all msg n (negsuc k ∷ answers) =
    let rest = write_all msg (n - suc k) answers in
    if ltb n (length msg) then (if ltb k n then rest else write_outside []) else sent []

-- How the reading loop ends: it has filled its buffer, with the bytes that are still to be read;
-- `read` does not return; or it reads to an address before the buffer.
pub data Reading : Type 0 where
  received : List ℕ → List ℕ → Reading
  read_blocks : Reading
  read_outside : Reading

-- A copy into the buffer at index `n`.
abbrev pub put : ℕ → List ℕ → List ℕ → List ℕ
put n bs buffer = take n buffer ++ (bs ++ drop (n + length bs) buffer)

-- `while(bytes_in < msg_size)`, where `bytes_in` is `n`, over the answers of `read`, which takes
-- from the incoming bytes; 0 is the end of the stream.
unfoldable pub read_all : ℕ → List ℕ → ℕ → List ℕ → List ℤ → Reading
unfolding take drop
read_all size buffer n incoming [] = if ltb n size then read_blocks else received buffer incoming
read_all size buffer n incoming (pos k ∷ answers) =
    let m = lesser k (lesser (size - n) (length incoming)) in
    let rest = read_all size (put n (take m incoming) buffer) (n + m) (drop m incoming) answers in
    if ltb n size then rest else received buffer incoming
read_all size buffer n incoming (negsuc k ∷ answers) =
    let rest = read_all size buffer (n - suc k) incoming answers in
    if ltb n size then (if ltb k n then rest else read_outside) else received buffer incoming

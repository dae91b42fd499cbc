-- ===== src/Plumber.antt =====
-- src/plumb.c: the server that makes and breaks the pipes between the switches.
pub mod Pipes
pub mod Ports
use hoolock.Common.{
  ℕ, zero, suc, ◌+◌, ◌-◌, List, [], ◌∷◌, Bool, true, false, ◌&&◌, not, Option, none, some,
  if◌then◌else◌, ◌==◌, take, byte, ℤ, pos, negsuc,
}

-- `strncmp(s, prefix, strlen(prefix)) == 0`, for a prefix without zeros.
unfoldable pub starts_with : List ℕ → List ℕ → Bool
starts_with [] s = true
starts_with (c ∷ cs) [] = false
starts_with (c ∷ cs) (d ∷ ds) = c == d && starts_with cs ds

-- "make", "break", "hard" and "lossy".
abbrev pub make_word : List ℕ
make_word = 109 ∷ 97 ∷ 107 ∷ 101 ∷ []

abbrev pub break_word : List ℕ
break_word = 98 ∷ 114 ∷ 101 ∷ 97 ∷ 107 ∷ []

abbrev pub hard_word : List ℕ
hard_word = 104 ∷ 97 ∷ 114 ∷ 100 ∷ []

abbrev pub lossy_word : List ℕ
lossy_word = 108 ∷ 111 ∷ 115 ∷ 115 ∷ 121 ∷ []

-- '0' and '1'.
abbrev pub char_0 : ℕ
char_0 = 48

abbrev pub char_1 : ℕ
char_1 = 49

-- The switches, and a `dpipe` between two of them, with the loss that `wirefilter` is given.
pub data Switch : Type 0 where
  mobile0 mobile1 openflow0 openflow1 : Switch

pub record Pipe : Type 0 where
  pub near : Switch
  pub far : Switch
  pub loss : Option ℕ

-- The variables of `main`, and the processes that it has started and not killed.
pub record Plumber : Type 0 where
  pub eth0_pid : ℤ
  pub eth1_pid : ℤ
  pub is_hard : Bool
  pub is_lossy : Bool
  pub children : List (ℕ × Pipe)

abbrev pub is_negative : ℤ → Bool
is_negative (pos n) = false
is_negative (negsuc n) = true

-- `pid > 0`.
abbrev pub is_positive : ℤ → Bool
is_positive (pos zero) = false
is_positive (pos (suc n)) = true
is_positive (negsuc n) = false

-- `main` up to its loop, from `argv`; `none` is the exit for too few arguments.
unfoldable pub start : List (List ℕ) → Option Plumber
unfolding starts_with
start (prog ∷ conn_type ∷ handover_type ∷ more) = some (record {
  eth0_pid = negsuc 0;
  eth1_pid = negsuc 0;
  is_hard = starts_with hard_word handover_type;
  is_lossy = starts_with lossy_word conn_type;
  children = [];
})
start _ = none

-- The pipes of `make`.
abbrev pub loss_of : Plumber → Option ℕ
loss_of p = if p.is_lossy then some 10 else none

abbrev pub pipe0 : Plumber → Pipe
pipe0 p = record { near = Switch.mobile0; far = Switch.openflow0; loss = loss_of p }

abbrev pub pipe1 : Plumber → Pipe
pipe1 p = record {
  near = (if p.is_hard then Switch.mobile0 else Switch.mobile1);
  far = Switch.openflow1;
  loss = loss_of p;
}

-- What `fork` answers in the parent: a child is there, or -1.
abbrev pub started : ℤ → Pipe → List (ℕ × Pipe) → List (ℕ × Pipe)
started (pos n) k cs = (n, k) ∷ cs
started (negsuc n) k cs = cs

-- `kill(pid, 9)` of a child.
abbrev pub without : ℕ → List (ℕ × Pipe) → List (ℕ × Pipe)
without n [] = []
without n (c ∷ cs) = if c.0 == n then without n cs else c ∷ without n cs

-- `if(pid > 0) kill(pid, 9);`
abbrev pub killed : ℤ → List (ℕ × Pipe) → List (ℕ × Pipe)
killed (pos zero) cs = cs
killed (pos (suc n)) cs = without (suc n) cs
killed (negsuc n) cs = cs

-- A command that starts with "make", where a `fork` answers `f`.
unfoldable pub do_make : ℤ → List ℕ → Plumber → Plumber
do_make f buffer p =
    if byte buffer 5 == char_0
    then if is_negative p.eth0_pid
      then record p { eth0_pid = f; children = started f (pipe0 p) p.children }
      else p
    else if byte buffer 5 == char_1
    then if is_negative p.eth1_pid
      then record p { eth1_pid = f; children = started f (pipe1 p) p.children }
      else p
    else p

-- A command that starts with "break".
unfoldable pub do_break : List ℕ → Plumber → Plumber
do_break buffer p =
    if byte buffer 6 == char_0
    then record p { eth0_pid = negsuc 0; children = killed p.eth0_pid p.children }
    else if byte buffer 6 == char_1
    then record p { eth1_pid = negsuc 0; children = killed p.eth1_pid p.children }
    else p

-- The part of the loop between `read` and `write`: any other command is only reported.
unfoldable pub command : ℤ → List ℕ → Plumber → Plumber
unfolding starts_with do_make do_break
command f buffer p =
    if starts_with make_word buffer
    then do_make f buffer p
    else if starts_with break_word buffer
    then do_break buffer p
    else p

-- One connection: whether `accept` succeeds, what `read` delivers, the answer to a `fork`, and
-- whether `write` succeeds.
pub record Connection : Type 0 where
  pub accepted : Bool
  pub command_in : Option (List ℕ)
  pub forked : ℤ
  pub written : Bool

-- The server is in its loop, or it has left it by `error`, with status 1.
pub data Serving : Type 0 where
  listening : Plumber → Serving
  failed : Plumber → Serving

abbrev pub executed : Connection → Option (List ℕ) → Plumber → Serving
executed c none p = failed p
executed c (some bytes) p =
    let q = command c.forked (take 255 bytes) p in if c.written then listening q else failed q

unfoldable pub serve_one : Connection → Plumber → Serving
unfolding command take
serve_one c p = if c.accepted then executed c c.command_in p else failed p

-- The loop, over the connections that come in.
unfoldable pub serve : List Connection → Serving → Serving
unfolding serve_one
serve [] s = s
serve (c ∷ cs) (failed p) = failed p
serve (c ∷ cs) (listening p) = serve cs (serve_one c p)

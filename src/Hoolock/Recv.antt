-- ===== src/Hoolock/Recv.antt =====
-- bond_hoolock_recv of 27/bond_main.c, the packet handler of the hoolock mode.
pub mod Arrivals
use hoolock.Common.{
  ℕ, ◌≡◌, ◌≢◌, refl, List, [], ◌∷◌, ◌++◌, Bool, true, false, ◌&&◌, Option, none, some,
  if◌then◌else◌, ◌==◌, same, arith,
}
use hoolock.Bond.State.{Bonding, SkBuff, Status, ok, ebuffered}

-- The test under which a packet goes into the buffer: the code compares the receiving device
-- with the active slave's own address.
abbrev pub buffers : SkBuff → ℕ → Bonding → Bool
buffers k orig b = b.buffer_mode && same (some orig) b.curr_active_slave

-- `bond_hoolock_recv`, on a packet that came in on the device at `orig`. That the handler drops
-- one reference on every path is in `Net.Receive.call_handler`.
unfoldable pub recv : SkBuff → ℕ → Bonding → Status × Bonding
recv k orig b =
    if k.saddr == b.master_ip
    then (ok, b)
    else if buffers k orig b
    then (ebuffered, record b { pbuff = b.pbuff ++ (k ∷ []) })
    else (ok, b)

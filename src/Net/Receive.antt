-- ===== src/Net/Receive.antt =====
-- netif_receive_skb and deliver_skb of 27/dev.c, in a build without CONFIG_NET_CLS_ACT,
-- CONFIG_BRIDGE and CONFIG_MACVLAN.
pub mod Keeps
use hoolock.Common.{
  ℕ, ◌+◌, ◌-◌, List, [], ◌∷◌, Bool, true, false, ◌&&◌, ◌||◌, Option, none, some, if◌then◌else◌,
  same, is_some,
}
use hoolock.Bond.State.{Bonding, SkBuff, Status, ok, efailed, ebuffered}
use hoolock.Hoolock.Recv.{recv}

-- The function of a packet type: the bond's, or another protocol's by number.
pub data Handler : Type 0 where
  hoolock_recv : Handler
  other : ℕ → Handler

-- `struct packet_type`; `dev` is NULL for every device.
pub record PacketType : Type 0 where
  pub dev : Option ℕ
  pub func : Handler

-- What the walk reads and does not own: `ptype_all`, the entries of `ptype_base` for the packet's
-- type, the masters of the devices, and what code outside the sources answers.
pub record Network : Type 0 where
  pub ptype_all : List PacketType
  pub ptype_base : List PacketType
  pub master_of : ℕ → Option ℕ
  pub vlan_takes : SkBuff → Bool
  pub netpoll_takes : SkBuff → Bool
  pub should_drop : SkBuff → Bool
  pub net_alive : Bool
  pub other_returns : ℕ → SkBuff → Status

-- The packet on its way, with its reference count, and the bond.
pub record Rx : Type 0 where
  pub bond : Bonding
  pub packet : SkBuff
  pub users : ℕ
  pub delivered : List Handler

-- The variables of the two loops: `pt_prev`, `ret` and `buffered`.
pub record Walk : Type 0 where
  pub rx : Rx
  pub pt_prev : Option Handler
  pub ret : Status
  pub buffered : Bool

abbrev pub is_buffered : Status → Bool
is_buffered ebuffered = true
is_buffered _ = false

-- A packet handler consumes one reference.
unfoldable pub call_handler : Network → ℕ → Handler → Rx → Status × Rx
call_handler net orig hoolock_recv r =
    let (ret, b) = recv r.packet orig r.bond in
    (ret, record r { bond = b; users = r.users - 1; delivered = hoolock_recv ∷ r.delivered })
call_handler net orig (other n) r = (
  net.other_returns n r.packet,
  record r { users = r.users - 1; delivered = other n ∷ r.delivered },
)

-- `deliver_skb`.
unfoldable pub deliver_skb : Network → ℕ → Handler → Rx → Status × Rx
unfolding call_handler
deliver_skb net orig h r = call_handler net orig h (record r { users = r.users + 1 })

-- The test of both loops, with `null_or_orig`.
unfoldable pub matches : Option ℕ → ℕ → SkBuff → PacketType → Bool
matches null_or_orig orig k t =
    same t.dev null_or_orig || same t.dev (some k.dev) || same t.dev (some orig)

-- The visit of a packet type that matches: what was kept back is delivered.
unfoldable pub visit_after : Option Handler → Network → ℕ → Handler → Walk → Walk
unfolding deliver_skb
visit_after none net orig h w = record w { pt_prev = some h }
visit_after (some prev) net orig h w =
    let (ret, rx) = deliver_skb net orig prev w.rx in
    record { rx = rx; pt_prev = some h; ret = ret; buffered = w.buffered || is_buffered ret }

unfoldable pub visit : Network → ℕ → Handler → Walk → Walk
unfolding visit_after
visit net orig h w = visit_after w.pt_prev net orig h w

-- The loop over `ptype_all`.
unfoldable pub walk_all : Network → Option ℕ → ℕ → List PacketType → Walk → Walk
unfolding visit matches
walk_all net wild orig [] w = w
walk_all net wild orig (t ∷ ts) w =
    walk_all net wild orig ts
      (if matches wild orig w.rx.packet t then visit net orig t.func w else w)

-- The loop over `ptype_base`: it leaves at once where the packet was buffered (`true`).
unfoldable pub walk_base : Network → Option ℕ → ℕ → List PacketType → Walk → Bool × Walk
unfolding visit matches
walk_base net wild orig [] w = (false, w)
walk_base net wild orig (t ∷ ts) w =
    let w' = visit net orig t.func w in
    let onward = walk_base net wild orig ts w' in
    let skip = walk_base net wild orig ts w in
    if matches wild orig w.rx.packet t
    then (if is_some w.pt_prev && is_buffered w'.ret
        then (true, record w' { pt_prev = w.pt_prev })
        else onward)
    else skip

-- The end: the last handler gets the packet itself, and with no handler it is freed.
unfoldable pub last_after : Option Handler → Network → ℕ → Rx → Status × Rx
unfolding call_handler
last_after none net orig r = (efailed, record r { users = r.users - 1 })
last_after (some h) net orig r = call_handler net orig h r

unfoldable pub last_delivery : Network → ℕ → Walk → Status × Rx
unfolding last_after
last_delivery net orig w = last_after w.pt_prev net orig w.rx

-- What follows the loop over `ptype_all` (`w`), given where that over `ptype_base` ends.
unfoldable pub settle : Network → ℕ → Walk → Bool × Walk → Status × Rx
unfolding last_delivery
settle net orig w (out, v) =
    if w.buffered then (ok, w.rx) else if out then (v.ret, v.rx) else last_delivery net orig v

abbrev pub start_walk : Rx → Walk
start_walk r = record { rx = r; pt_prev = none; ret = efailed; buffered = false }

-- The walk behind the test of the namespace.
unfoldable pub deliver_all : Network → Option ℕ → ℕ → Rx → Status × Rx
unfolding walk_all walk_base settle
deliver_all net wild orig r =
    let w = walk_all net wild orig net.ptype_all (start_walk r) in
    settle net orig w (walk_base net wild orig net.ptype_base w)

-- `null_or_orig`, and the device that the packet counts for: its device's master, unless the
-- packet is for exact matches only.
abbrev pub exact_only : Network → SkBuff → Bool
exact_only net k = is_some (net.master_of k.dev) && net.should_drop k

abbrev pub null_or_orig : Network → SkBuff → Option ℕ
null_or_orig net k = if exact_only net k then some k.dev else none

abbrev pub or_else : Option ℕ → ℕ → ℕ
or_else none d = d
or_else (some m) d = m

abbrev pub to_master : Network → SkBuff → SkBuff
to_master net k = record k {
  dev = if exact_only net k then k.dev else or_else (net.master_of k.dev) k.dev;
}

-- A packet with `n` references, before any delivery.
abbrev pub fresh : Bonding → SkBuff → ℕ → Rx
fresh b k n = record { bond = b; packet = k; users = n; delivered = [] }

unfoldable pub receive_alive : Network → SkBuff → Bonding → Status × Rx
unfolding deliver_all
receive_alive net k b =
    if net.net_alive
    then deliver_all net (null_or_orig net k) k.dev (fresh b (to_master net k) 1)
    else (efailed, fresh b (to_master net k) 1)

-- `netif_receive_skb`, of a packet with one reference; `efailed` is NET_RX_DROP.
unfoldable pub netif_receive_skb : Network → SkBuff → Bonding → Status × Rx
unfolding receive_alive
netif_receive_skb net k b =
    if net.vlan_takes k
    then (ok, fresh b k 0)
    else if net.netpoll_takes k
    then (efailed, fresh b k 0)
    else receive_alive net k b

-- ===== src/Device.antt =====
-- bond_open and bond_close of 27/bond_main.c with the packet types that they register, and
-- dev_add_pack and dev_remove_pack of 27/dev.c.
pub mod RoundTrip
use hoolock.Common.{
  ℕ, ◌≡◌, List, [], ◌∷◌, ◌++◌, Bool, true, false, ◌||◌, not, Option, none, some, if◌then◌else◌,
  ◌==◌,
}
use hoolock.Bond.State.{
  Bonding, Params, Mode, round_robin, active_backup, balance_xor, broadcast, lacp, tlb, alb,
  hoolock_mode,
}

-- The packet types of a bond, and its delayed works. A `type` does not change while the entry is
-- in a list, so that the lists are told apart by the kind.
pub data PacketKind : Type 0 where
  ad_pkt_type arp_mon_pt hoolock_pt : PacketKind

pub data Work : Type 0 where
  alb_work mii_work arp_work ad_work : Work

-- A bond with what it has registered: `types` are its entries in the lists of packet types, the
-- last one added first; the fields `type` of two of them (true where not 0); the queued works.
pub record Registered : Type 0 where
  pub bond : Bonding
  pub types : List PacketKind
  pub arp_type : Bool
  pub hoolock_type : Bool
  pub works : List Work

abbrev pub same_kind : PacketKind → PacketKind → Bool
same_kind ad_pkt_type ad_pkt_type = true
same_kind arp_mon_pt arp_mon_pt = true
same_kind hoolock_pt hoolock_pt = true
same_kind _ _ = false

abbrev pub same_work : Work → Work → Bool
same_work alb_work alb_work = true
same_work mii_work mii_work = true
same_work arp_work arp_work = true
same_work ad_work ad_work = true
same_work _ _ = false

-- `dev_add_pack`.
abbrev pub dev_add_pack : PacketKind → Registered → Registered
dev_add_pack k r = record r { types = k ∷ r.types }

-- `dev_remove_pack`: the first entry at that address is taken out, if there is one.
unfoldable pub remove_type : PacketKind → List PacketKind → List PacketKind
remove_type k [] = []
remove_type k (x ∷ xs) = let rest = remove_type k xs in if same_kind k x then xs else x ∷ rest

abbrev pub dev_remove_pack : PacketKind → Registered → Registered
dev_remove_pack k r = record r { types = remove_type k r.types }

-- `queue_delayed_work` and `cancel_delayed_work`.
abbrev pub queue_work : Work → Registered → Registered
queue_work w r = record r { works = w ∷ r.works }

unfoldable pub cancel : Work → List Work → List Work
cancel w [] = []
cancel w (x ∷ xs) = let rest = cancel w xs in if same_work w x then rest else x ∷ rest

abbrev pub cancel_work : Work → Registered → Registered
cancel_work w r = record r { works = cancel w r.works }

-- `bond_register_arp` and `bond_unregister_arp`.
unfoldable pub register_arp : Registered → Registered
register_arp r = if r.arp_type then r else dev_add_pack arp_mon_pt (record r { arp_type = true })

unfoldable pub unregister_arp : Registered → Registered
unfolding remove_type
unregister_arp r = record (dev_remove_pack arp_mon_pt r) { arp_type = false }

-- `bond_register_hoolock` and `bond_unregister_hoolock`.
unfoldable pub register_hoolock : Registered → Registered
register_hoolock r =
    if r.hoolock_type then r else dev_add_pack hoolock_pt (record r { hoolock_type = true })

unfoldable pub unregister_hoolock : Registered → Registered
unfolding remove_type
unregister_hoolock r = record (dev_remove_pack hoolock_pt r) { hoolock_type = false }

-- `params.arp_validate`, as a number not 0.
abbrev pub arp_validate : Params → Bool
arp_validate ps = ps.validate_active || ps.validate_backup

-- What bond_alb.c does: `none` where `bond_alb_initialize` fails.
pub record Alb : Type 0 where
  pub initialize : Bonding → Option Bonding
  pub deinitialize : Bonding → Bonding

unfoldable pub open_links : Registered → Registered
open_links r = if r.bond.params.miimon == 0 then r else queue_work mii_work r

unfoldable pub open_arp : Registered → Registered
unfolding register_arp
open_arp r =
    let r₁ = queue_work arp_work r in
    let r₂ = if arp_validate r.bond.params then register_arp r₁ else r₁ in
    if r.bond.params.arp_interval == 0 then r else r₂

unfoldable pub open_mode : Mode → Registered → Registered
unfolding register_hoolock
open_mode lacp r = dev_add_pack ad_pkt_type (queue_work ad_work r)
open_mode hoolock_mode r = register_hoolock r
open_mode _ r = r

unfoldable pub open_rest : Registered → Registered
unfolding open_links open_arp open_mode
open_rest r = open_mode r.bond.params.mode (open_arp (open_links r))

abbrev pub alb_opened : Registered → Option Bonding → Option Registered
alb_opened r none = none
alb_opened r (some b) = some (queue_work alb_work (record r { bond = b }))

-- `bond_alb_initialize`, in the balancing modes; `none` ends the open with -1.
unfoldable pub open_alb : Alb → Registered → Option Registered
open_alb x r = alb_opened r (x.initialize r.bond)

unfoldable pub open_first : Alb → Mode → Registered → Option Registered
unfolding open_alb
open_first x tlb r = open_alb x r
open_first x alb r = open_alb x r
open_first x _ r = some r

-- `bond_open`: true if it succeeds. It clears `kill_timers` even where it fails.
abbrev pub opened : Registered → Option Registered → Bool × Registered
opened r none = (false, r)
opened r (some c) = (true, open_rest c)

unfoldable pub bond_open : Alb → Registered → Bool × Registered
unfolding open_first open_rest
bond_open x r =
    let r₁ = record r { bond = record (r.bond) { kill_timers = false } } in
    opened r₁ (open_first x r.bond.params.mode r₁)

unfoldable pub close_mode : Mode → Registered → Registered
unfolding remove_type unregister_hoolock
close_mode lacp r = dev_remove_pack ad_pkt_type r
close_mode hoolock_mode r = unregister_hoolock r
close_mode _ r = r

unfoldable pub cancel_mode : Alb → Mode → Registered → Registered
unfolding cancel
cancel_mode x lacp r = cancel_work ad_work r
cancel_mode x tlb r = let c = cancel_work alb_work r in record c { bond = x.deinitialize c.bond }
cancel_mode x alb r = let c = cancel_work alb_work r in record c { bond = x.deinitialize c.bond }
cancel_mode x _ r = r

-- `bond_close`.
unfoldable pub bond_close : Alb → Registered → Registered
unfolding close_mode unregister_arp cancel cancel_mode
bond_close x r =
    let ps = r.bond.params in
    let r₁ = close_mode ps.mode r in
    let r₂ = if arp_validate ps then unregister_arp r₁ else r₁ in
    let r₃ = record r₂ { bond = record (r₂.bond) { send_grat_arp = 0; kill_timers = true } } in
    let r₄ = if ps.miimon == 0 then r₃ else cancel_work mii_work r₃ in
    let r₅ = if ps.arp_interval == 0 then r₄ else cancel_work arp_work r₄ in
    cancel_mode x ps.mode r₅

-- ===== src/Net/Receive/Keeps.antt =====
-- What the walk of netif_receive_skb, 27/dev.c, keeps of the bond and of the packet.
use hoolock.Common.{
  ℕ, ◌≡◌, refl, ◌∙◌, ap, List, [], ◌∷◌, Bool, true, false, ◌&&◌, Option, none, some, if◌then◌else◌,
  arith, is_some,
}
use hoolock.Bond.State.{Bonding, SkBuff, Status}
use hoolock.Hoolock.Recv.{recv}
use hoolock.Net.Receive.{
  visit_after, last_after, receive_alive, fresh, to_master, null_or_orig, settle, start_walk,
  Network, Rx, Walk, Handler, hoolock_recv, other, PacketType, call_handler, deliver_skb, visit,
  matches, walk_all, walk_base, last_delivery, deliver_all, netif_receive_skb, is_buffered,
}

-- A choice by a test has what both sides have.
if_both {ℓ κ} :
    {A : Type ℓ} (Q : A → Type κ) (t : Bool) (a c : A) → Q a → Q c → Q (if t then a else c)
if_both Q true a c h k = h
if_both Q false a c h k = k

module _ (P : Rx → Type 0) (net : Network)
    (calls : (orig : ℕ) (h : Handler) (r : Rx) → P r → P (call_handler net orig h r).1)
    (counts : (n : ℕ) (r : Rx) → P r → P (record r { users = n })) where
  visit_after-keeps :
      (prev : Option Handler) (orig : ℕ) (h : Handler) (w : Walk)
      → P w.rx
      → P (visit_after prev net orig h w).rx
  unfolding visit_after deliver_skb
  visit_after-keeps none orig h w p = p
  visit_after-keeps (some prev) orig h w p = calls orig prev _ (counts _ w.rx p)

  visit-keeps : (orig : ℕ) (h : Handler) (w : Walk) → P w.rx → P (visit net orig h w).rx
  unfolding visit
  visit-keeps orig h w p = visit_after-keeps w.pt_prev orig h w p

  step-keeps :
      (t : Bool) (orig : ℕ) (h : Handler) (w : Walk)
      → P w.rx
      → P (if t then visit net orig h w else w).rx
  step-keeps true orig h w p = visit-keeps orig h w p
  step-keeps false orig h w p = p

  walk_all-keeps :
      (wild : Option ℕ) (orig : ℕ) (ts : List PacketType) (w : Walk)
      → P w.rx
      → P (walk_all net wild orig ts w).rx
  unfolding walk_all
  walk_all-keeps wild orig [] w p = p
  walk_all-keeps wild orig (t ∷ ts) w p =
      walk_all-keeps wild orig ts
        (if matches wild orig w.rx.packet t then visit net orig t.func w else w)
        (step-keeps (matches wild orig w.rx.packet t) orig t.func w p)

  walk_base-keeps :
      (wild : Option ℕ) (orig : ℕ) (ts : List PacketType) (w : Walk)
      → P w.rx
      → P (walk_base net wild orig ts w).1.rx
  unfolding walk_base
  walk_base-keeps wild orig [] w p = p
  walk_base-keeps wild orig (t ∷ ts) w p =
      let v = visit net orig t.func w in
      if_both Q (matches wild orig w.rx.packet t) _ _
        (if_both Q (is_some w.pt_prev && is_buffered v.ret) (true, record v { pt_prev = w.pt_prev })
          (walk_base net wild orig ts v) (visit-keeps orig t.func w p)
          (walk_base-keeps wild orig ts v (visit-keeps orig t.func w p)))
        (walk_base-keeps wild orig ts w p)
    where
      Q : Bool × Walk → Type 0
      Q v = P v.1.rx

  last_after-keeps : (h : Option Handler) (orig : ℕ) (r : Rx) → P r → P (last_after h net orig r).1
  unfolding last_after
  last_after-keeps none orig r p = counts _ r p
  last_after-keeps (some h) orig r p = calls orig h r p

  settle-keeps :
      (orig : ℕ) (w : Walk) (v : Bool × Walk) → P w.rx → P v.1.rx → P (settle net orig w v).1
  unfolding settle last_delivery
  settle-keeps orig w (out, v) h k =
      if_both Q w.buffered (Status.ok, w.rx) _ h
        (if_both Q out (v.ret, v.rx) (last_after v.pt_prev net orig v.rx) k
          (last_after-keeps v.pt_prev orig v.rx k))
    where
      Q : Status × Rx → Type 0
      Q v = P v.1

  deliver_all-keeps :
      (wild : Option ℕ) (orig : ℕ) (r : Rx) → P r → P (deliver_all net wild orig r).1
  unfolding deliver_all
  deliver_all-keeps wild orig r p =
      let w = walk_all net wild orig net.ptype_all (start_walk r) in
      let h = walk_all-keeps wild orig net.ptype_all (start_walk r) p in
      settle-keeps orig w (walk_base net wild orig net.ptype_base w) h
        (walk_base-keeps wild orig net.ptype_base w h)

  receive_alive-keeps :
      (k : SkBuff) (b : Bonding) → P (fresh b (to_master net k) 1) → P (receive_alive net k b).1
  unfolding receive_alive
  receive_alive-keeps k b p =
      if_both (λ (v : Status × Rx). P v.1) net.net_alive
        (deliver_all net (null_or_orig net k) k.dev (fresh b (to_master net k) 1))
        (Status.efailed, fresh b (to_master net k) 1)
        (deliver_all-keeps (null_or_orig net k) k.dev (fresh b (to_master net k) 1) p) p

  -- What holds at the start, and is kept by each handler and each change of the count, holds at
  -- the end of `netif_receive_skb`.
  pub netif_receive_skb-keeps :
      (k : SkBuff) (b : Bonding)
      → ((j : SkBuff) (n : ℕ) → j.skb ≡ k.skb → P (fresh b j n))
      → P (netif_receive_skb net k b).1
  unfolding netif_receive_skb
  netif_receive_skb-keeps k b p =
      if_both Q (net.vlan_takes k) (Status.ok, fresh b k 0) _ (p k 0 refl)
        (if_both Q (net.netpoll_takes k) (Status.efailed, fresh b k 0) (receive_alive net k b)
          (p k 0 refl) (receive_alive-keeps k b (p (to_master net k) 1 refl)))
    where
      Q : Status × Rx → Type 0
      Q v = P v.1

-- With the buffer mode off the handler changes nothing.
recv-idle : (k : SkBuff) (orig : ℕ) (b : Bonding) → b.buffer_mode ≡ false → (recv k orig b).1 ≡ b
unfolding recv
recv-idle k orig b e = ground arith

call_handler-idle :
    (net : Network) (orig : ℕ) (h : Handler) (r : Rx)
    → r.bond.buffer_mode ≡ false
    → (call_handler net orig h r).1.bond ≡ r.bond
unfolding call_handler
call_handler-idle net orig hoolock_recv r e = recv-idle r.packet orig r.bond e
call_handler-idle net orig (other n) r e = refl

-- With the buffer mode off, `netif_receive_skb` leaves the bond as it is, whatever packet types are
-- registered.
pub netif_receive_skb-idle :
    (net : Network) (k : SkBuff) (b : Bonding)
    → b.buffer_mode ≡ false
    → (netif_receive_skb net k b).1.bond ≡ b
netif_receive_skb-idle net k b e =
    netif_receive_skb-keeps (λ r. r.bond ≡ b) net
      (λ orig h r p. call_handler-idle net orig h r (ap (λ (c : Bonding). c.buffer_mode) p ∙ e) ∙ p)
      (λ n r p. p) k b (λ j n q. refl)

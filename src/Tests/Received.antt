-- ===== src/Tests/Received.antt =====
-- What the bond's tap and one protocol answer to the packets of a break.
use hoolock.Common.{ℕ, ◌≡◌, refl, List, [], ◌∷◌, false, Option, arith}
use hoolock.Bond.State.{Bonding, SkBuff, Status, ok}
use hoolock.Hoolock.Recv.{recv}
use hoolock.Hoolock.Break.Drains.{last_result}
use hoolock.Net.Receive.{
  deliver_all, receive_alive, netif_receive_skb, fresh, to_master, null_or_orig, call_handler,
  deliver_skb, visit_after, visit, walk_all, walk_base, last_after, last_delivery, settle,
}
use hoolock.Client.Calls.{is_error}
use hoolock.Client.Moves.{IsReceiving}
use hoolock.Tests.Samples.{network, extern}

-- The bond with the buffer mode off.
abbrev off : Bonding → List SkBuff → Bonding
off b ks = record b { buffer_mode = false; pbuff = ks }

network-deliver_all :
    (wild : Option ℕ) (orig : ℕ) (k : SkBuff) (b : Bonding) (ks : List SkBuff)
    → is_error (deliver_all network wild orig (fresh (off b ks) k 1)).0 ≡ false
unfolding deliver_all call_handler deliver_skb visit_after visit walk_all walk_base last_after
    last_delivery settle recv
network-deliver_all wild orig k b ks = ground arith

network-netif_receive_skb :
    (k : SkBuff) (b : Bonding) (ks : List SkBuff)
    → is_error (netif_receive_skb network k (off b ks)).0 ≡ false
unfolding netif_receive_skb receive_alive
network-netif_receive_skb k b ks =
    network-deliver_all (null_or_orig network k) k.dev (to_master network k) b ks

network-last_result :
    (b : Bonding) (p : ℕ) (ks : List SkBuff) (st : Status)
    → is_error st ≡ false
    → is_error (last_result (λ k. network) (off b []) p st ks) ≡ false
network-last_result b p [] st e = e
network-last_result b p (k ∷ ks) st e =
    network-last_result b p ks _ (network-netif_receive_skb _ b ks)

-- Whatever is buffered is received without an error.
pub extern-IsReceiving : (b : Bonding) → IsReceiving extern (λ k. network) b
extern-IsReceiving b = record {
  unlocked = refl;
  received = λ p e. network-last_result b p b.pbuff ok refl;
}

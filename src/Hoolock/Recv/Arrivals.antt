-- ===== src/Hoolock/Recv/Arrivals.antt =====
-- What a run of received packets does to the buffer.
use hoolock.Common.{
  ℕ, ◌≡◌, refl, ap, sym, ◌∙◌, List, [], ◌∷◌, ◌++◌, append-nil, append_assoc, Bool, true, false,
  ◌&&◌, not, some, same, if◌then◌else◌, ◌==◌,
}
use hoolock.Bond.State.{Bonding, SkBuff, Status}
use hoolock.Hoolock.Recv.{recv, buffers}

-- A packet, and the address of the device that it came in on.
abbrev pub Arrival : Type 0
Arrival = SkBuff × ℕ

-- The handler called for each arrival in turn.
pub recv_each : List Arrival → Bonding → Bonding
recv_each [] b = b
recv_each ((k, orig) ∷ as') b = recv_each as' (recv k orig b).1

-- An arrival that is not the bond's own transmission and comes in, with the buffer mode on, on the
-- device whose address is the active slave's.
abbrev pub is_wanted : Bonding → Arrival → Bool
is_wanted b (k, orig) =
    not (k.saddr == b.master_ip) && (b.buffer_mode && same (some orig) b.curr_active_slave)

abbrev pub wanted : Bonding → List Arrival → List SkBuff
wanted b [] = []
wanted b (a ∷ as') = if is_wanted b a then a.0 ∷ wanted b as' else wanted b as'

queue : List SkBuff → Bonding → Bonding
queue ks b = record b { pbuff = ks }

recv_choice :
    (own hit : Bool) (b : Bonding) (ks js : List SkBuff)
    → (if◌then◌else◌ {A = Status × Bonding} own
        (Status.ok, queue ks b)
        (if hit then (Status.ebuffered, queue js b) else (Status.ok, queue ks b))).1
      ≡ queue (if not own && hit then js else ks) b
recv_choice true hit b ks js = refl
recv_choice false true b ks js = refl
recv_choice false false b ks js = refl

recv-queue :
    (k : SkBuff) (orig : ℕ) (b : Bonding) (ks : List SkBuff)
    → (recv k orig (queue ks b)).1 ≡ queue (if is_wanted b (k, orig) then ks ++ (k ∷ []) else ks) b
unfolding recv queue
recv-queue k orig b ks =
    recv_choice (k.saddr == b.master_ip) (buffers k orig b) b ks (ks ++ (k ∷ []))

one_more :
    (t : Bool) (k : SkBuff) (ks js : List SkBuff)
    → (if t then ks ++ (k ∷ []) else ks) ++ js ≡ ks ++ (if t then k ∷ js else js)
one_more true k ks js = append_assoc ks (k ∷ []) js
one_more false k ks js = refl

recv_each-queue :
    (as' : List Arrival) (b : Bonding) (ks : List SkBuff)
    → recv_each as' (queue ks b) ≡ queue (ks ++ wanted b as') b
unfolding recv_each
recv_each-queue [] b ks = ap (λ js. queue js b) (sym (append-nil ks))
recv_each-queue ((k, orig) ∷ as') b ks =
    ap (recv_each as') (recv-queue k orig b ks)
    ∙ recv_each-queue as' b (if is_wanted b (k, orig) then ks ++ (k ∷ []) else ks)
    ∙ ap (λ js. queue js b) (one_more (is_wanted b (k, orig)) k ks (wanted b as'))

-- Whatever arrives, the handler only appends to the buffer: behind what was there, and in the
-- order of arrival, exactly the packets that are not from the bond's own address and that came in,
-- with the buffer mode on, on the device whose address is the active slave's.
pub recv_each_lem :
    (as' : List Arrival) (b : Bonding)
    → recv_each as' b ≡ record b { pbuff = b.pbuff ++ wanted b as' }
unfolding queue
recv_each_lem as' b = recv_each-queue as' b b.pbuff

-- ===== src/Bond/Arp/Receive.antt =====
-- bond_arp_rcv of 27/bond_main.c.
use hoolock.Common.{
  ℕ, ◌≡◌, refl, ap, sym, List, [], ◌∷◌, Bool, true, false, Option, none, some, In, inl, inr,
  if◌then◌else◌, ◌⊎◌, ◌&&◌, ◌==◌, ==_sound,
}
use hoolock.Bond.State.{Bonding, freed}
use hoolock.Bond.Slaves.{is_active, edit, log, do_arp_validate, get_slave_by_dev}
use hoolock.Bond.Arp.{
  ArpFrame, is_readable, has_this_ip, validate_from, validate_arp, arp_found, arp_rcv,
}

-- The slave at `p` is stamped with the time at which it received.
abbrev pub stamped : ℕ → ℕ → Bonding → Bonding
stamped now p b = edit p (λ s. record s { last_arp_rx = now }) b

-- Either the bond is as before, or the sender is a target and the slave is stamped.
abbrev Seen : ℕ → ℕ → ℕ → ℕ → List ℕ → Bonding → Bonding → Type 0
Seen now p sip tip ts b c =
    (c ≡ b) ⊎ (In sip ts × (has_this_ip b tip ≡ true) × (c ≡ stamped now p b))

seen_later :
    (now p sip tip t : ℕ) (ts : List ℕ) (b c : Bonding)
    → Seen now p sip tip ts b c
    → Seen now p sip tip (t ∷ ts) b c
seen_later now p sip tip t ts b c (inl f) = inl f
seen_later now p sip tip t ts b c (inr (k, g, f)) = inr (inr k, g, f)

by_test :
    (now p sip tip t : ℕ) (ts : List ℕ) (b rest : Bonding) (z e h : Bool)
    → (sip == t) ≡ e
    → has_this_ip b tip ≡ h
    → Seen now p sip tip ts b rest
    → Seen now p sip tip
        (t ∷ ts)
        b
        (if z then b else if e then (if h then stamped now p b else b) else rest)
by_test now p sip tip t ts b rest true e h i j k = inl refl
by_test now p sip tip t ts b rest false true true i j k =
    inr (inl (sym (==_sound sip t i)), j, refl)
by_test now p sip tip t ts b rest false true false i j k = inl refl
by_test now p sip tip t ts b rest false false h i j k = seen_later now p sip tip t ts b rest k

validated :
    (now p sip tip : ℕ) (ts : List ℕ) (b : Bonding)
    → Seen now p sip tip ts b (validate_from now p sip tip ts b)
unfolding validate_from
validated now p sip tip [] b = inl refl
validated now p sip tip (t ∷ ts) b =
    by_test now p sip tip t ts b (validate_from now p sip tip ts b) (t == 0) (sip == t)
      (has_this_ip b tip) refl refl (validated now p sip tip ts b)

-- The address that has to be a target, and the one that has to be the bond's: for a backup slave
-- they change places.
abbrev pub asked : Bonding → ℕ → ArpFrame → ℕ
asked b p f = if is_active (b.mem p).state then f.sip else f.tip

abbrev pub answered : Bonding → ℕ → ArpFrame → ℕ
answered b p f = if is_active (b.mem p).state then f.tip else f.sip

-- A packet that stamps the slave at `p`.
pub record Validates (b : Bonding) (addr_len orig p : ℕ) (f : ArpFrame) : Type 0 where
  pub found : get_slave_by_dev b orig ≡ some p
  pub validates : do_arp_validate b (b.mem p) ≡ true
  pub readable : is_readable addr_len f ≡ true
  pub target : In (asked b p f) b.params.arp_targets
  pub own : has_this_ip b (answered b p f) ≡ true

by_state :
    (now p : ℕ) (f : ArpFrame) (b : Bonding) (t : Bool)
    → Seen now p
        (if t then f.sip else f.tip)
        (if t then f.tip else f.sip)
        b.params.arp_targets
        b
        (if t then validate_arp now p f.sip f.tip b else validate_arp now p f.tip f.sip b)
unfolding validate_arp
by_state now p f b true = validated now p f.sip f.tip b.params.arp_targets b
by_state now p f b false = validated now p f.tip f.sip b.params.arp_targets b

-- What the handler does with the bond, before it frees the packet.
abbrev Handled : ℕ → ℕ → ℕ → ArpFrame → Bonding → Bonding → Type 0
Handled now addr_len orig f b c =
    (c ≡ b) ⊎ ((p : ℕ) × Validates b addr_len orig p f × (c ≡ stamped now p b))

under_tests :
    (now addr_len orig p : ℕ) (f : ArpFrame) (b seen : Bonding) (v t : Bool)
    → get_slave_by_dev b orig ≡ some p
    → do_arp_validate b (b.mem p) ≡ v
    → is_readable addr_len f ≡ t
    → Seen now p (asked b p f) (answered b p f) b.params.arp_targets b seen
    → Handled now addr_len orig f b (if v && t then seen else b)
under_tests now addr_len orig p f b seen true true g v t (inl e) = inl e
under_tests now addr_len orig p f b seen true true g v t (inr (i, h, e)) =
    inr (p, record { found = g; validates = v; readable = t; target = i; own = h }, e)
under_tests now addr_len orig p f b seen true false g v t k = inl refl
under_tests now addr_len orig p f b seen false t₁ g v t k = inl refl

handled :
    (now addr_len orig : ℕ) (f : ArpFrame) (b : Bonding) (o : Option ℕ)
    → get_slave_by_dev b orig ≡ o
    → Handled now addr_len orig f b (arp_found now addr_len o f b)
unfolding arp_found
handled now addr_len orig f b none g = inl refl
handled now addr_len orig f b (some p) g =
    under_tests now addr_len orig p f b
      (if is_active (b.mem p).state
        then validate_arp now p f.sip f.tip b
        else validate_arp now p f.tip f.sip b)
      (do_arp_validate b (b.mem p)) (is_readable addr_len f) g refl refl
      (by_state now p f b (is_active (b.mem p).state))

by_bond :
    (now addr_len orig : ℕ) (f : ArpFrame) (b : Bonding) (t : Bool)
    → Handled now addr_len orig f b
        (if t then arp_found now addr_len (get_slave_by_dev b orig) f b else b)
by_bond now addr_len orig f b true = handled now addr_len orig f b _ refl
by_bond now addr_len orig f b false = inl refl

-- `bond_arp_rcv` frees the packet and, besides, changes at most the receive time of one slave: the
-- one that is found for the device on which the packet came in, where its state calls for
-- validation, the header can be read, one of the packet's addresses is a target and the other one
-- an address of the bond or of its VLANs: the sender and the target address for an active slave,
-- the other way round for a backup.
pub arp_rcv_lem :
    (now addr_len orig : ℕ) (f : ArpFrame) (b : Bonding)
    → (arp_rcv now addr_len orig f b ≡ log (freed f.skb) b)
      ⊎ ((p : ℕ) × Validates b addr_len orig p f
          × (arp_rcv now addr_len orig f b ≡ log (freed f.skb) (stamped now p b)))
unfolding arp_rcv
arp_rcv_lem now addr_len orig f b = elim (by_bond now addr_len orig f b b.dev.iff_bonding) [
  | inl e ↦ inl (ap (log (freed f.skb)) e)
  | inr (p, v, e) ↦ inr (p, v, ap (log (freed f.skb)) e)
]

-- ===== src/Bond/Arp/Probe.antt =====
-- bond_ab_arp_probe of 27/bond_main.c.
use hoolock.Common.{
  ℕ, ◌≡◌, refl, ◌∙◌, ap, sym, subst, List, [], ◌∷◌, Bool, true, false, Option, none, some, In, inl,
  inr, if◌then◌else◌, ◌⊎◌, arith, ==_sound, ==_refl,
}
use hoolock.Bond.State.{Bonding, Slave, link_down, link_back, active}
use hoolock.Bond.Slaves.{
  each_from, first_slave, first_that, is_up, is_link_up, set_slave_inactive_flags,
  set_slave_active_flags, edit,
}
use hoolock.Bond.Monitor.{count_failure}
use hoolock.Bond.Arp.{Routes, arp_send_all}
use hoolock.Bond.Arp.Watch.{arp_send_all-Logs}
use hoolock.Bond.Arp.Backup.{passed_over, candidate, search_from, next_slave, probe_from, ab_probe}

first_that-same :
    (t u : ℕ → Bool) (xs : List ℕ) → ((q : ℕ) → t q ≡ u q) → first_that t xs ≡ first_that u xs
unfolding first_that
first_that-same t u [] h = refl
first_that-same t u (x ∷ xs) h = rw (h x, first_that-same t u xs h) refl

-- The devices of the slaves are usable or not, whatever is written to the slave at `p`.
abbrev up_at : Bonding → ℕ → Bool
up_at b q = is_up (b.mem q).dev

up-edit :
    (p q : ℕ) (s : Slave) (b : Bonding)
    → is_up s.dev ≡ is_up (b.mem p).dev
    → up_at (edit p (λ _. s) b) q ≡ up_at b q
up-edit p q s b e = ground (arith, ==_sound q p, e)

up-inactive : (b : Bonding) (s : Slave) → is_up (set_slave_inactive_flags b s).dev ≡ is_up s.dev
unfolding set_slave_inactive_flags
up-inactive b s = ground arith

up-passed_over : (p q : ℕ) (b : Bonding) → up_at (passed_over p b) q ≡ up_at b q
up-passed_over p q b = passed (is_link_up (b.mem p).link)
  where
    passed :
        (t : Bool)
        → up_at
            (if t
              then edit p
                  (λ s. set_slave_inactive_flags b (record s {
                    link = link_down;
                    link_failure_count = count_failure s.link_failure_count;
                  }))
                  b
              else b)
            q
          ≡ up_at b q
    passed true = up-edit p q _ b (up-inactive b _)
    passed false = refl

pub link-inactive : (b : Bonding) (s : Slave) → (set_slave_inactive_flags b s).link ≡ s.link
unfolding set_slave_inactive_flags
link-inactive b s = ground arith

abbrev down_slave : Bonding → ℕ → Slave
down_slave b p = set_slave_inactive_flags b (record (b.mem p) {
  link = link_down;
  link_failure_count = count_failure (b.mem p).link_failure_count;
})

link-edit :
    (p q : ℕ) (s : Slave) (b : Bonding)
    → is_link_up s.link ≡ false
    → is_link_up (b.mem q).link ≡ false
    → is_link_up ((edit p (λ _. s) b).mem q).link ≡ false
link-edit p q s b e h = ground (arith, e, h)

pub link-edit_own : (p : ℕ) (s : Slave) (b : Bonding) → (edit p (λ _. s) b).mem p ≡ s
link-edit_own p s b = rw (==_refl p) refl

-- A slave with its link up is marked down where it is passed over, and none is marked up.
down-passed_over : (p : ℕ) (b : Bonding) → is_link_up ((passed_over p b).mem p).link ≡ false
down-passed_over p b = passed (is_link_up (b.mem p).link) refl
  where
    passed :
        (t : Bool)
        → is_link_up (b.mem p).link ≡ t
        → is_link_up ((if t then edit p (λ _. down_slave b p) b else b).mem p).link ≡ false
    passed true e =
        ap (λ s. is_link_up s.link) (link-edit_own p (down_slave b p) b)
        ∙ ap is_link_up (link-inactive b _)
    passed false e = e

still_down :
    (p q : ℕ) (b : Bonding)
    → is_link_up (b.mem q).link ≡ false
    → is_link_up ((passed_over p b).mem q).link ≡ false
still_down p q b e = passed (is_link_up (b.mem p).link)
  where
    passed :
        (t : Bool)
        → is_link_up ((if t then edit p (λ _. down_slave b p) b else b).mem q).link ≡ false
    passed true = link-edit p q (down_slave b p) b (ap is_link_up (link-inactive b _)) e
    passed false = e

-- What the search ends with: the slave that it found, or none.
pub record Probed (now q : ℕ) (c : Bonding) : Type 0 where
  pub candidate : c.current_arp_slave ≡ some q
  pub link : (c.mem q).link ≡ link_back
  pub state : (c.mem q).state ≡ active
  pub jiffies : (c.mem q).jiffies ≡ now

pub record GaveUp (ps : List ℕ) (b c : Bonding) : Type 0 where
  pub candidate : c.current_arp_slave ≡ b.current_arp_slave
  pub downs : (q : ℕ) → is_link_up (b.mem q).link ≡ false → is_link_up (c.mem q).link ≡ false
  pub links : (q : ℕ) → In q ps → is_link_up (c.mem q).link ≡ false

candidate-Probed : (r : Routes) (now p : ℕ) (b : Bonding) → Probed now p (candidate r now p b)
unfolding set_slave_active_flags
candidate-Probed r now p b =
    let s = set_slave_active_flags (record (b.mem p) { link = link_back }) in
    let b₁ = edit p (λ _. s) b in
    let c = arp_send_all r p b₁ in
    let m = ap (λ (z : Bonding). z.mem p) (arp_send_all-Logs r p b₁) ∙ link-edit_own p s b in
    let n = link-edit_own p (record (c.mem p) { jiffies = now }) c in
    record {
      candidate = refl;
      link = ap (λ (z : Slave). z.link) n ∙ ap (λ (z : Slave). z.link) m;
      state = ap (λ (z : Slave). z.state) n ∙ ap (λ (z : Slave). z.state) m;
      jiffies = ap (λ (z : Slave). z.jiffies) n;
    }

-- The search takes the first usable slave, and marks those that it passes over down.
abbrev pub Ends : ℕ → List ℕ → Bonding → Bonding → Type 0
Ends now ps b c =
    ((q : ℕ) × (first_that (up_at b) ps ≡ some q) × Probed now q c)
    ⊎ ((first_that (up_at b) ps ≡ none) × GaveUp ps b c)

passed_candidate : (p : ℕ) (b : Bonding) → (passed_over p b).current_arp_slave ≡ b.current_arp_slave
passed_candidate p b = ground arith

GaveUp-after :
    (p : ℕ) (ps : List ℕ) (b c : Bonding) → GaveUp ps (passed_over p b) c → GaveUp (p ∷ ps) b c
GaveUp-after p ps b c g = record {
  candidate = g.candidate ∙ passed_candidate p b;
  downs = λ q e. g.downs q (still_down p q b e);
  links = λ q i. elim i [
    | inl e ↦ subst (λ z. is_link_up (c.mem z).link ≡ false) e (g.downs p (down-passed_over p b))
    | inr j ↦ g.links q j
  ];
}

search-Ends :
    (r : Routes) (now : ℕ) (ps : List ℕ) (b : Bonding) → Ends now ps b (search_from r now ps b)
unfolding search_from first_that
search-Ends r now [] b =
    inr (refl, record { candidate = refl; downs = λ q e. e; links = λ q i. elim i [ ] })
search-Ends r now (p ∷ ps) b =
    let c = passed_over p b in
    let rest = search_from r now ps c in
    let h : first_that (up_at c) ps ≡ first_that (up_at b) ps =
      first_that-same (up_at c) (up_at b) ps (λ q. up-passed_over p q b) in
    stopped (up_at b p) (elim (search-Ends r now ps c) [
      | inl (q, f, k) ↦ inl (q, sym h ∙ f, k)
      | inr (f, g) ↦ inr (sym h ∙ f, GaveUp-after p ps b rest g)
    ])
  where
    stopped :
        (t : Bool)
        → (((q : ℕ) × (first_that (up_at b) ps ≡ some q)
              × Probed now q (search_from r now ps (passed_over p b)))
            ⊎ ((first_that (up_at b) ps ≡ none)
                × GaveUp (p ∷ ps) b (search_from r now ps (passed_over p b))))
        → (((q : ℕ) × ((if t then some p else first_that (up_at b) ps) ≡ some q)
              × Probed now q
                  (if t then candidate r now p b else search_from r now ps (passed_over p b)))
            ⊎ (((if t then some p else first_that (up_at b) ps) ≡ none)
                × GaveUp
                    (p ∷ ps)
                    b
                    (if t then candidate r now p b else search_from r now ps (passed_over p b))))
    stopped true k = inl (p, refl, candidate-Probed r now p b)
    stopped false k = k

-- Where the search of `bond_ab_arp_probe` starts.
abbrev pub last_candidate : Bonding → Option ℕ
last_candidate b = elim b.current_arp_slave [ some p ↦ some p | none ↦ first_slave b ]

-- The order of the search: the circle from the slave after `p`.
abbrev pub probe_order : ℕ → Bonding → List ℕ
probe_order p b = each_from (next_slave p b.slaves) b.slaves

abbrev pub ProbeResult : ℕ → ℕ → Bonding → Bonding → Type 0
ProbeResult now p b c =
    ((q : ℕ) × (first_that (up_at b) (probe_order p b) ≡ some q) × Probed now q c)
    ⊎ ((first_that (up_at b) (probe_order p b) ≡ none)
        × (c.current_arp_slave ≡ some p)
        × ((q : ℕ) → In q (probe_order p b) → is_link_up (c.mem q).link ≡ false))

probe_from-result :
    (r : Routes) (now p : ℕ) (b : Bonding) → ProbeResult now p b (probe_from r now (some p) b)
unfolding probe_from
probe_from-result r now p b =
    let b₁ = edit p (set_slave_inactive_flags b) (record b { current_arp_slave = some p }) in
    let h : first_that (up_at b₁) (probe_order p b) ≡ first_that (up_at b) (probe_order p b) =
      first_that-same (up_at b₁) (up_at b) (probe_order p b)
        (λ q. up-edit p q (set_slave_inactive_flags b (b.mem p)) b (up-inactive b (b.mem p))) in
    elim (search-Ends r now (probe_order p b) b₁) [
      | inl (q, f, k) ↦ inl (q, sym h ∙ f, k)
      | inr (f, g) ↦ inr (sym h ∙ f, g.candidate, g.links)
    ]

-- Without an active slave and with a slave to start from, `bond_ab_arp_probe` makes the first usable
-- slave of the circle from the one after it the new candidate, with its link back, active and
-- stamped with the time; if no slave is usable, the candidate is the slave it started from, and no
-- slave of the circle has its link up.
pub ab_probe_lem :
    (r : Routes) (now p : ℕ) (b : Bonding)
    → b.curr_active_slave ≡ none
    → last_candidate b ≡ some p
    → ProbeResult now p b (ab_probe r now b)
unfolding ab_probe
ab_probe_lem r now p b e f =
    subst (ProbeResult now p b)
      (sym (
        ap
          (λ (o : Option ℕ). elim o [
            | some q ↦ arp_send_all r q b
            | none ↦ probe_from r now (last_candidate b) b
          ])
          e
        ∙ ap (λ o. probe_from r now o b) f))
      (probe_from-result r now p b)

-- ===== src/Bond/Multicast/Settled.antt =====
-- bond_set_multicast_list of 27/bond_main.c, called again.
use hoolock.Common.{
  ℕ, zero, suc, ◌≡◌, ◌≤◌, refl, ◌∙◌, ap, sym, subst, List, [], ◌∷◌, Bool, true, false, ◌&&◌, ◌||◌,
  not, Option, none, some, if◌then◌else◌, ◌==◌, ==_refl, In, inl, inr, length, arith,
}
use hoolock.Bond.State.{Bonding, NetDevice, Status, Event, mc_add, mc_delete}
use hoolock.Bond.Slaves.{log, uses_primary, is_ok}
use hoolock.Bond.Arp.Watch.{Logs, Logs-trans, if-Logs}
use hoolock.Net.Device.{Inc, plus, minus, dev_set_promiscuity, dev_set_allmulti}
use hoolock.Bond.Multicast.{
  set_at, push_each, push_active, set_promiscuity, set_allmulti, log_each, log_active, mc_tell,
  find_dmi, tell_missing, mc_list_copy, push_flags, set_multicast_list,
}

or_swap : (a b c : Bool) → (b || (a || c)) ≡ ((a || b) || c)
or_swap true true c = refl
or_swap true false c = refl
or_swap false b c = refl

-- With room for all, the copy has the same addresses.
find_dmi-copy :
    (a room : ℕ) (xs acc : List ℕ)
    → length xs ≤ room
    → find_dmi a (mc_list_copy room xs acc) ≡ (find_dmi a xs || find_dmi a acc)
unfolding find_dmi mc_list_copy
find_dmi-copy a zero [] acc h = refl
find_dmi-copy a zero (x ∷ xs) acc h = absurd (omega (arith, h))
find_dmi-copy a (suc room) [] acc h = refl
find_dmi-copy a (suc room) (x ∷ xs) acc h =
    find_dmi-copy a room xs (x ∷ acc) (omega (arith, h))
    ∙ or_swap (a == x) (find_dmi a xs) (find_dmi a acc)

In-find_dmi : (a : ℕ) (xs : List ℕ) → In a xs → find_dmi a xs ≡ true
unfolding find_dmi
In-find_dmi a [] i = elim i [ ]
In-find_dmi a (x ∷ xs) i = ground (arith, In-find_dmi a xs, ==_refl a)

-- Where no address is missing nothing is told.
tell_missing-none :
    (e : ℕ → ℕ → Event) (known xs : List ℕ) (b : Bonding)
    → ((a : ℕ) → In a xs → find_dmi a known ≡ true)
    → tell_missing e known xs b ≡ b
unfolding tell_missing
tell_missing-none e known [] b h = refl
tell_missing-none e known (x ∷ xs) b h =
    ap (λ (t : Bool). tell_missing e known xs (if t then b else mc_tell e x b)) (h x (inl refl))
    ∙ tell_missing-none e known xs b (λ a i. h a (inr i))

log_each-Logs : (e : ℕ → ℕ → Event) (a : ℕ) (ps : List ℕ) (b : Bonding) → Logs b (log_each e a ps b)
unfolding log_each
log_each-Logs e a [] b = refl
log_each-Logs e a (p ∷ ps) b =
    let c = log (e (b.mem p).dev.ptr a) b in
    Logs-trans b c (log_each e a ps c) refl (log_each-Logs e a ps c)

log_active-Logs :
    (e : ℕ → ℕ → Event) (a : ℕ) (o : Option ℕ) (b : Bonding) → Logs b (log_active e a o b)
log_active-Logs e a none b = refl
log_active-Logs e a (some p) b = refl

mc_tell-Logs : (e : ℕ → ℕ → Event) (a : ℕ) (b : Bonding) → Logs b (mc_tell e a b)
unfolding mc_tell
mc_tell-Logs e a b =
    if-Logs (uses_primary b.params.mode) b _ _ (log_active-Logs e a b.curr_active_slave b)
      (log_each-Logs e a b.slaves b)

tell_missing-Logs :
    (e : ℕ → ℕ → Event) (known xs : List ℕ) (b : Bonding) → Logs b (tell_missing e known xs b)
unfolding tell_missing
tell_missing-Logs e known [] b = refl
tell_missing-Logs e known (x ∷ xs) b =
    let c = if find_dmi x known then b else mc_tell e x b in
    Logs-trans b c (tell_missing e known xs c)
      (if-Logs (find_dmi x known) b b _ refl (mc_tell-Logs e x b)) (tell_missing-Logs e known xs c)

-- What the bond has saved is what its device has.
pub record Settled (room : ℕ) (c : Bonding) : Type 0 where
  pub promisc : c.flag_promisc ≡ c.dev.iff_promisc
  pub allmulti : c.flag_allmulti ≡ c.dev.iff_allmulti
  pub mc_list : c.mc_list ≡ mc_list_copy room c.dev.mc_list []

set-Settled : (room : ℕ) (b : Bonding) → Settled room (set_multicast_list room b)
unfolding set_multicast_list push_flags
set-Settled room b =
    let b₁ = push_flags b in
    let b₂ = tell_missing mc_add b₁.mc_list b₁.dev.mc_list b₁ in
    let b₃ = tell_missing mc_delete b₂.dev.mc_list b₂.mc_list b₂ in
    let l =
      Logs-trans b₁ b₂ b₃ (tell_missing-Logs mc_add b₁.mc_list b₁.dev.mc_list b₁)
        (tell_missing-Logs mc_delete b₂.dev.mc_list b₂.mc_list b₂) in
    record {
      promisc =
          ap (λ (z : Bonding). z.flag_promisc) l ∙ sym (ap (λ (z : Bonding). z.dev.iff_promisc) l);
      allmulti =
          ap (λ (z : Bonding). z.flag_allmulti) l
          ∙ sym (ap (λ (z : Bonding). z.dev.iff_allmulti) l);
      mc_list = refl;
    }

skipped : (t : Bool) (b c : Bonding) → t ≡ false → (if t then c else b) ≡ b
skipped t b c e = ap (λ (u : Bool). if u then c else b) e

both_ways : (t u : Bool) → u ≡ t → ((t && not u) ≡ false) × ((not t && u) ≡ false)
both_ways true u e = ground (arith, e)
both_ways false u e = ground (arith, e)

push_flags-Settled : (room : ℕ) (c : Bonding) → Settled room c → push_flags c ≡ c
unfolding push_flags
push_flags-Settled room c s =
    let p = both_ways c.dev.iff_promisc c.flag_promisc s.promisc in
    let a = both_ways c.dev.iff_allmulti c.flag_allmulti s.allmulti in
    let end = λ (z : Bonding). record z {
      flag_promisc = z.dev.iff_promisc;
      flag_allmulti = z.dev.iff_allmulti;
    } in
    let f₄ = λ (z : Bonding).
      if not z.dev.iff_allmulti && z.flag_allmulti then set_allmulti minus z else z in
    let f₃ = λ (z : Bonding).
      if z.dev.iff_allmulti && not z.flag_allmulti then set_allmulti plus z else z in
    let f₂ = λ (z : Bonding).
      if not z.dev.iff_promisc && z.flag_promisc then set_promiscuity minus z else z in
    ap (λ z. end (f₄ (f₃ (f₂ z)))) (skipped _ c (set_promiscuity plus c) p.0)
    ∙ ap (λ z. end (f₄ (f₃ z))) (skipped _ c (set_promiscuity minus c) p.1)
    ∙ ap (λ z. end (f₄ z)) (skipped _ c (set_allmulti plus c) a.0)
    ∙ ap end (skipped _ c (set_allmulti minus c) a.1)
    ∙ ap (λ (t : Bool). record c { flag_promisc = t; flag_allmulti = c.dev.iff_allmulti })
        (sym s.promisc)
    ∙ ap (λ (t : Bool). record c { flag_allmulti = t }) (sym s.allmulti)

or_false : (t : Bool) → (t || false) ≡ t
or_false true = refl
or_false false = refl

again :
    (room : ℕ) (c : Bonding)
    → Settled room c
    → length c.dev.mc_list ≤ room
    → set_multicast_list room c ≡ c
unfolding set_multicast_list
again room c s h =
    let xs = c.dev.mc_list in
    let same = λ (a : ℕ).
      ap (find_dmi a) s.mc_list ∙ find_dmi-copy a room xs [] h ∙ or_false (find_dmi a xs) in
    let g = λ (b₃ : Bonding). record b₃ { mc_list = mc_list_copy room b₃.dev.mc_list [] } in
    let f = λ (b₂ : Bonding). g (tell_missing mc_delete b₂.dev.mc_list b₂.mc_list b₂) in
    ap (λ (b₁ : Bonding). f (tell_missing mc_add b₁.mc_list b₁.dev.mc_list b₁))
      (push_flags-Settled room c s)
    ∙ ap f (tell_missing-none mc_add c.mc_list xs c (λ a i. same a ∙ In-find_dmi a xs i))
    ∙ ap g (
        tell_missing-none mc_delete xs c.mc_list c
          (λ a i. sym (same a) ∙ In-find_dmi a c.mc_list i))
    ∙ ap (λ ys. record c { mc_list = ys }) (sym s.mc_list)

-- The master's own device stays as it is.
if_dev :
    (t : Bool) (b c d : Bonding) → c.dev ≡ b.dev → d.dev ≡ b.dev → (if t then c else d).dev ≡ b.dev
if_dev true b c d h k = h
if_dev false b c d h k = k

push_each-dev :
    (set : NetDevice → Status × NetDevice) (ps : List ℕ) (b : Bonding)
    → (push_each set ps b).dev ≡ b.dev
unfolding push_each
push_each-dev set [] b = refl
push_each-dev set (p ∷ ps) b =
    if_dev (is_ok (set (b.mem p).dev).0) b (push_each set ps (set_at set p b)) (set_at set p b)
      (push_each-dev set ps (set_at set p b)) refl

push_active-dev :
    (set : NetDevice → Status × NetDevice) (o : Option ℕ) (b : Bonding)
    → (push_active set o b).dev ≡ b.dev
push_active-dev set none b = refl
push_active-dev set (some p) b = refl

set_promiscuity-dev : (inc : Inc) (b : Bonding) → (set_promiscuity inc b).dev ≡ b.dev
unfolding set_promiscuity
set_promiscuity-dev inc b =
    let set = λ (d : NetDevice). dev_set_promiscuity d inc in
    if_dev (uses_primary b.params.mode) b (push_active set b.curr_active_slave b)
      (push_each set b.slaves b) (push_active-dev set b.curr_active_slave b)
      (push_each-dev set b.slaves b)

set_allmulti-dev : (inc : Inc) (b : Bonding) → (set_allmulti inc b).dev ≡ b.dev
unfolding set_allmulti
set_allmulti-dev inc b =
    let set = λ (d : NetDevice). dev_set_allmulti d inc in
    if_dev (uses_primary b.params.mode) b (push_active set b.curr_active_slave b)
      (push_each set b.slaves b) (push_active-dev set b.curr_active_slave b)
      (push_each-dev set b.slaves b)

push_flags-dev : (b : Bonding) → (push_flags b).dev ≡ b.dev
unfolding push_flags
push_flags-dev b =
    let b₁ = if b.dev.iff_promisc && not b.flag_promisc then set_promiscuity plus b else b in
    let b₂ = if not b₁.dev.iff_promisc && b₁.flag_promisc then set_promiscuity minus b₁ else b₁ in
    let b₃ = if b₂.dev.iff_allmulti && not b₂.flag_allmulti then set_allmulti plus b₂ else b₂ in
    if_dev (not b₃.dev.iff_allmulti && b₃.flag_allmulti) b₃ (set_allmulti minus b₃) b₃
      (set_allmulti-dev minus b₃) refl
    ∙ if_dev (b₂.dev.iff_allmulti && not b₂.flag_allmulti) b₂ (set_allmulti plus b₂) b₂
        (set_allmulti-dev plus b₂) refl
    ∙ if_dev (not b₁.dev.iff_promisc && b₁.flag_promisc) b₁ (set_promiscuity minus b₁) b₁
        (set_promiscuity-dev minus b₁) refl
    ∙ if_dev (b.dev.iff_promisc && not b.flag_promisc) b (set_promiscuity plus b) b
        (set_promiscuity-dev plus b) refl

set-dev : (room : ℕ) (b : Bonding) → (set_multicast_list room b).dev ≡ b.dev
unfolding set_multicast_list
set-dev room b =
    let b₁ = push_flags b in
    let b₂ = tell_missing mc_add b₁.mc_list b₁.dev.mc_list b₁ in
    ap (λ (z : Bonding). z.dev) (tell_missing-Logs mc_delete b₂.dev.mc_list b₂.mc_list b₂)
    ∙ ap (λ (z : Bonding). z.dev) (tell_missing-Logs mc_add b₁.mc_list b₁.dev.mc_list b₁)
    ∙ push_flags-dev b

-- Where the allocations for the copy of the list succeed, `bond_set_multicast_list` called again
-- changes nothing: no counter of a device, no address told to a slave, and no order of the list.
pub set_multicast_list-again :
    (room : ℕ) (b : Bonding)
    → length b.dev.mc_list ≤ room
    → set_multicast_list room (set_multicast_list room b) ≡ set_multicast_list room b
set_multicast_list-again room b h =
    again room (set_multicast_list room b) (set-Settled room b)
      (subst (λ (d : NetDevice). length d.mc_list ≤ room) (sym (set-dev room b)) h)

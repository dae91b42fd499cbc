-- ===== src/Bond/Active/Change.antt =====
-- What a change of the active slave keeps and what it sets.
use hoolock.Common.{
  ℕ, ◌≡◌, inl, inr, refl, sym, ◌∙◌, List, [], ◌∷◌, false, Option, none, some, same, same_sound,
  Bool-cases,
}
use hoolock.Bond.State.{
  Bonding, Mode, active_backup, lacp, tlb, alb, LinkState, link_up, FailOverMac, fom_none,
  fom_active, fom_follow,
}
use hoolock.Bond.Active.{
  Extern, set_carrier, mc_swap, carrier_for, fail_over, link_change, install, do_fail_over_mac,
  take_over, inactive_at, active_at, announce, switch_to, change_active_slave, select_active_slave,
  find_best_slave,
}
use hoolock.Bond.Invariant.{Keeps, Keeps-refl, Keeps-trans, ExternLaws}
use hoolock.Bond.Active.Steps.{
  Leaves, Leaves-trans, active_at-Leaves, count_arp-Leaves, either-Leaves, if-Leaves,
  inactive_at-Leaves, log-Leaves, mc_swap-Leaves, put_dev-Leaves, put_slave-Leaves,
  send_gratuitous_arp-Leaves, set_dev-Leaves, turn_carrier-Leaves,
}

-- The list and the buffer stay, and `new` is the active slave.
abbrev pub Sets : Bonding → Option ℕ → Bonding → Type 0
Sets b new c = Keeps b c × (c.curr_active_slave ≡ new)

Sets-Leaves : {b c d : Bonding} (new : Option ℕ) → Sets b new c → Leaves c d → Sets b new d
Sets-Leaves new (h, p) (k, q) = (Keeps-trans h k, q ∙ p)

pub install_active :
    (new : Option ℕ) (b : Bonding) → Sets b new (record b { curr_active_slave = new })
install_active new b = (
  record {
    slaves = refl;
    params = refl;
    buffer_mode = refl;
    pbuff = refl;
    primary_slave = refl;
    current_arp_slave = refl;
    kill_timers = refl;
    master_ip = refl;
    bond_dev = refl;
    slave_devs = λ q. refl;
  },
  refl,
)

module _ (x : Extern) (laws : ExternLaws x) where
  carrier_for-Leaves : (m : Mode) (ps : List ℕ) (b : Bonding) → Leaves b (carrier_for x m ps b).1
  unfolding carrier_for
  carrier_for-Leaves m [] b = turn_carrier-Leaves false b
  carrier_for-Leaves lacp (p ∷ ps) b = (laws.carrier_keeps b, laws.carrier_active b)
  carrier_for-Leaves _ (p ∷ ps) b = turn_carrier-Leaves _ b

  pub set_carrier-Leaves : (b : Bonding) → Leaves b (set_carrier x b).1
  unfolding set_carrier
  set_carrier-Leaves b = carrier_for-Leaves b.params.mode b.slaves b

  fail_over-Leaves :
      (m : FailOverMac) (p : ℕ) (old : Option ℕ) (b : Bonding) → Leaves b (fail_over x m p old b)
  unfolding fail_over
  fail_over-Leaves fom_none p old b = (Keeps-refl b, refl)
  fail_over-Leaves fom_active p old b = set_dev-Leaves _ b refl
  fail_over-Leaves fom_follow p none b = put_dev-Leaves p _ b (laws.mac_keeps _ _)
  fail_over-Leaves fom_follow p (some q) b =
      Leaves-trans (put_dev-Leaves p _ b (laws.mac_keeps _ _))
        (if-Leaves _ (put_dev-Leaves q _ _ (laws.mac_keeps _ _)))

  pub link_change-Leaves :
      (m : Mode) (p : ℕ) (l : LinkState) (b : Bonding) → Leaves b (link_change x m p l b)
  unfolding link_change
  link_change-Leaves lacp p l b = (laws.ad_keeps p l b, laws.ad_active p l b)
  link_change-Leaves tlb p l b = (laws.alb_keeps p l b, laws.alb_active p l b)
  link_change-Leaves alb p l b = (laws.alb_keeps p l b, laws.alb_active p l b)
  link_change-Leaves _ p l b = (Keeps-refl b, refl)

  take_over-Leaves : (now : ℕ) (new : Option ℕ) (b : Bonding) → Leaves b (take_over x now new b)
  unfolding take_over
  take_over-Leaves now none b = (Keeps-refl b, refl)
  take_over-Leaves now (some p) b =
      let h = put_slave-Leaves p (record (b.mem p) { jiffies = now }) b refl in
      either-Leaves _
        (Leaves-trans (Leaves-trans h (put_slave-Leaves p _ _ refl))
          (link_change-Leaves b.params.mode p link_up _))
        h

  announce-Leaves : (new old : Option ℕ) (b : Bonding) → Leaves b (announce x new old b)
  unfolding announce do_fail_over_mac
  announce-Leaves none old b = inactive_at-Leaves old b
  announce-Leaves (some p) old b =
      Leaves-trans (Leaves-trans (inactive_at-Leaves old b) (active_at-Leaves (some p) _)) (
        Leaves-trans (fail_over-Leaves _ p old _) (
          Leaves-trans (count_arp-Leaves b.params.num_grat_arp _)
            (Leaves-trans (send_gratuitous_arp-Leaves _) (log-Leaves _ _))))

  balanced-Sets :
      (new old : Option ℕ) (b : Bonding)
      → Sets b new (active_at new (inactive_at old (x.alb_handle_active_change new b)))
  balanced-Sets new old b =
      Sets-Leaves new
        (Sets-Leaves new (laws.change_keeps new b, laws.change_active new b)
          (inactive_at-Leaves old _))
        (active_at-Leaves new _)

  install-Sets : (m : Mode) (new old : Option ℕ) (b : Bonding) → Sets b new (install x m new old b)
  unfolding install
  install-Sets tlb new old b = balanced-Sets new old b
  install-Sets alb new old b = balanced-Sets new old b
  install-Sets active_backup new old b =
      Sets-Leaves new (install_active new b) (announce-Leaves new old _)
  install-Sets _ new old b = install_active new b

  switch_to-Sets : (now : ℕ) (new : Option ℕ) (b : Bonding) → Sets b new (switch_to x now new b)
  unfolding switch_to
  switch_to-Sets now new b =
      let s =
        install-Sets b.params.mode new b.curr_active_slave
          (mc_swap new b.curr_active_slave (take_over x now new b)) in
      (
        Keeps-trans
            (Leaves-trans (take_over-Leaves now new b) (mc_swap-Leaves new b.curr_active_slave _)).0
            s.0,
        s.1,
      )

  -- `bond_change_active_slave` makes the slave that it is given the active one, in every mode,
  -- and leaves the slave list, the parameters, the packet buffer and the devices' identity alone.
  pub change_active_slave-Sets :
      (now : ℕ) (new : Option ℕ) (b : Bonding) → Sets b new (change_active_slave x now new b)
  unfolding change_active_slave
  change_active_slave-Sets now new b = elim (Bool-cases (same b.curr_active_slave new)) [
    | inl e ↦ rw (e, change_active_slave) (Keeps-refl b, same_sound _ _ e)
    | inr e ↦ rw (e, change_active_slave) (switch_to-Sets now new b)
  ]

  -- `bond_select_active_slave` makes what `bond_find_best_slave` finds the active slave.
  pub select_active_slave-Sets :
      (now : ℕ) (b : Bonding) → Sets b (find_best_slave b) (select_active_slave x now b)
  unfolding select_active_slave
  select_active_slave-Sets now b =
      elim (Bool-cases (same (find_best_slave b) b.curr_active_slave)) [
        | inl e ↦ rw (e, select_active_slave) (Keeps-refl b, sym (same_sound _ _ e))
        | inr e ↦
            rw (e, select_active_slave)
              (Sets-Leaves (find_best_slave b) (change_active_slave-Sets now (find_best_slave b) b)
                (set_carrier-Leaves _))
      ]

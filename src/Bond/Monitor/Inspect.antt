-- ===== src/Bond/Monitor/Inspect.antt =====
-- The loop of bond_miimon_inspect in 27/bond_main.c.
use hoolock.Common.{
  ℕ, ◌+◌, ◌≡◌, refl, ◌∙◌, ap, ap₂, subst, List, [], ◌∷◌, Bool, false, if◌then◌else◌, ◌==◌, arith,
  In, NotIn, Distinct, inl, inr, ==_ne, ==_refl,
}
use hoolock.Bond.State.{Bonding, Slave}
use hoolock.Bond.Slaves.{edit}
use hoolock.Bond.Invariant.{IsWellFormed}
use hoolock.Bond.Monitor.{Drivers, inspect_slave, check_dev_link, is_linked, inspect_each, inspect}

-- The slave as the loop leaves it, and whether a change is due.
abbrev pub inspected : Drivers → ℕ → Bonding → ℕ → Bool × Slave
inspected v now b p =
    inspect_slave b.params now (is_linked (check_dev_link v b.params (b.mem p).dev false)) (b.mem p)

-- How many of these slaves have a change due.
abbrev pub due_count : Drivers → ℕ → Bonding → List ℕ → ℕ
due_count v now b [] = 0
due_count v now b (p ∷ ps) =
    if (inspected v now b p).0 then due_count v now b ps + 1 else due_count v now b ps

In-NotIn : (p q : ℕ) (ps : List ℕ) → In q ps → NotIn p ps → (q == p) ≡ false
In-NotIn p q [] i n = elim i [ ]
In-NotIn p q (x ∷ ps) i n = ground (arith, In-NotIn p q ps)

-- Both loops look at the slaves of the list only.
inspect_each-other :
    (v : Drivers) (now : ℕ) (ps : List ℕ) (b : Bonding) (q : ℕ)
    → NotIn q ps
    → (inspect_each v now ps b).1.mem q ≡ b.mem q
unfolding inspect_each
inspect_each-other v now [] b q n = refl
inspect_each-other v now (p ∷ ps) b q n =
    inspect_each-other v now ps (edit p (λ _. (inspected v now b p).1) b) q n.1
    ∙ ground (arith, n.0)

store_self : (p : ℕ) (s : Slave) (b : Bonding) → (edit p (λ _. s) b).mem p ≡ s
store_self p s b = ground (arith, ==_refl p)

store_other :
    (p q : ℕ) (s : Slave) (b : Bonding) → (q == p) ≡ false → (edit p (λ _. s) b).mem q ≡ b.mem q
store_other p q s b e = ground arith

-- A slave that has not been looked at gives the same answer as before.
inspected-edit :
    (v : Drivers) (now : ℕ) (b : Bonding) (p q : ℕ) (s : Slave)
    → (q == p) ≡ false
    → inspected v now (edit p (λ _. s) b) q ≡ inspected v now b q
inspected-edit v now b p q s e =
    ap
      (λ (r : Slave).
        inspect_slave b.params now (is_linked (check_dev_link v b.params r.dev false)) r)
      (store_other p q s b e)

inspect_each-In :
    (v : Drivers) (now : ℕ) (ps : List ℕ) (b : Bonding) (q : ℕ)
    → Distinct ps
    → In q ps
    → (inspect_each v now ps b).1.mem q ≡ (inspected v now b q).1
unfolding inspect_each
inspect_each-In v now [] b q d i = elim i [ ]
inspect_each-In v now (p ∷ ps) b q d (inl e) =
    subst (λ r. (inspect_each v now (p ∷ ps) b).1.mem r ≡ (inspected v now b r).1) e
      (inspect_each-other v now ps (edit p (λ _. (inspected v now b p).1) b) p d.0
        ∙ store_self p (inspected v now b p).1 b)
inspect_each-In v now (p ∷ ps) b q d (inr i) =
    inspect_each-In v now ps (edit p (λ _. (inspected v now b p).1) b) q d.1 i
    ∙ ap (λ (r : Bool × Slave). r.1)
        (inspected-edit v now b p q (inspected v now b p).1 (In-NotIn p q ps i d.0))

due_count-edit :
    (v : Drivers) (now : ℕ) (b : Bonding) (p : ℕ) (s : Slave) (ps : List ℕ)
    → NotIn p ps
    → due_count v now (edit p (λ _. s) b) ps ≡ due_count v now b ps
due_count-edit v now b p s [] n = refl
due_count-edit v now b p s (q ∷ ps) n =
    ap₂ (λ (r : Bool × Slave) (k : ℕ). if r.0 then k + 1 else k)
      (inspected-edit v now b p q s (==_ne q p n.0)) (due_count-edit v now b p s ps n.1)

inspect_each-count :
    (v : Drivers) (now : ℕ) (ps : List ℕ) (b : Bonding)
    → Distinct ps
    → (inspect_each v now ps b).0 ≡ due_count v now b ps
unfolding inspect_each
inspect_each-count v now [] b d = refl
inspect_each-count v now (p ∷ ps) b d =
    ap (λ (k : ℕ). if (inspected v now b p).0 then k + 1 else k)
      (inspect_each-count v now ps (edit p (λ _. (inspected v now b p).1) b) d.1
        ∙ due_count-edit v now b p (inspected v now b p).1 ps d.0)

-- On a well-formed bond `bond_miimon_inspect` inspects each slave of the list once, from the state
-- that it had before the loop, touches no other slave, and counts the slaves with a change due.
inspect_lem :
    (v : Drivers) (now : ℕ) (b : Bonding)
    → IsWellFormed b
    → ((p : ℕ) → In p b.slaves → (inspect v now b).1.mem p ≡ (inspected v now b p).1)
      × ((p : ℕ) → NotIn p b.slaves → (inspect v now b).1.mem p ≡ b.mem p)
      × ((inspect v now b).0 ≡ due_count v now b b.slaves)
unfolding inspect
inspect_lem v now b w = (
  (λ p i. inspect_each-In v now b.slaves b p w.distinct i),
  (λ p n. inspect_each-other v now b.slaves b p n),
  inspect_each-count v now b.slaves b w.distinct,
)

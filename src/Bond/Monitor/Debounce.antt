-- ===== src/Bond/Monitor/Debounce.antt =====
-- The delays of the link monitor.
use hoolock.Common.{ℕ, suc, ◌+◌, ◌≤◌, ◌≡◌, List, [], ◌∷◌, Bool, true, false, ◌==◌, arith, length}
use hoolock.Bond.State.{Slave, Params, link_up, link_fail, link_down, link_back}
use hoolock.Bond.Monitor.{inspect_slave}

-- A slave inspected at each of these times, with the same answer of its device.
pub run : Params → Bool → List ℕ → Slave → Slave
run ps up [] s = s
run ps up (t ∷ ts) s = run ps up ts (inspect_slave ps t up s).1

step-fail :
    (ps : Params) (t : ℕ) (s : Slave)
    → s.link ≡ link_fail
    → 1 ≤ s.delay
    → ((inspect_slave ps t false s).1.link ≡ link_fail)
      × ((inspect_slave ps t false s).1.delay + 1 ≡ s.delay)
unfolding inspect_slave
step-fail ps t s e h = ground arith

step-back :
    (ps : Params) (t : ℕ) (s : Slave)
    → s.link ≡ link_back
    → 1 ≤ s.delay
    → ((inspect_slave ps t true s).1.link ≡ link_back)
      × ((inspect_slave ps t true s).1.delay + 1 ≡ s.delay)
unfolding inspect_slave
step-back ps t s e h = ground arith

run-fail :
    (ps : Params) (ts : List ℕ) (s : Slave)
    → s.link ≡ link_fail
    → length ts ≤ s.delay
    → ((run ps false ts s).link ≡ link_fail) × ((run ps false ts s).delay + length ts ≡ s.delay)
unfolding run
run-fail ps [] s e h = (e, omega arith)
run-fail ps (t ∷ ts) s e h =
    let k = step-fail ps t s e (omega arith) in
    let r = run-fail ps ts (inspect_slave ps t false s).1 k.0 (omega (arith, k.1)) in
    (r.0, omega (arith, r.1, k.1))

run-back :
    (ps : Params) (ts : List ℕ) (s : Slave)
    → s.link ≡ link_back
    → length ts ≤ s.delay
    → ((run ps true ts s).link ≡ link_back) × ((run ps true ts s).delay + length ts ≡ s.delay)
unfolding run
run-back ps [] s e h = (e, omega arith)
run-back ps (t ∷ ts) s e h =
    let k = step-back ps t s e (omega arith) in
    let r = run-back ps ts (inspect_slave ps t true s).1 k.0 (omega (arith, k.1)) in
    (r.0, omega (arith, r.1, k.1))

first-fail :
    (ps : Params) (t : ℕ) (s : Slave)
    → s.link ≡ link_up
    → 1 ≤ ps.downdelay
    → ((inspect_slave ps t false s).1.link ≡ link_fail)
      × ((inspect_slave ps t false s).1.delay + 1 ≡ ps.downdelay)
unfolding inspect_slave
first-fail ps t s e h = ground arith

first-back :
    (ps : Params) (t : ℕ) (s : Slave)
    → s.link ≡ link_down
    → 1 ≤ ps.updelay
    → ((inspect_slave ps t true s).1.link ≡ link_back)
      × ((inspect_slave ps t true s).1.delay + 1 ≡ ps.updelay)
unfolding inspect_slave
first-back ps t s e h = ground arith

-- What the next inspection does to a slave that has missed its link, with its delay left.
abbrev pub Losing : Params → ℕ → ℕ → Slave → Type 0
Losing ps n t s =
    ((inspect_slave ps t false s).0 ≡ (n == ps.downdelay))
    × ((inspect_slave ps t true s).0 ≡ false)
    × ((inspect_slave ps t true s).1.link ≡ link_up)

abbrev pub Returning : Params → ℕ → ℕ → Slave → Type 0
Returning ps n t s =
    ((inspect_slave ps t true s).0 ≡ (n == ps.updelay))
    × ((inspect_slave ps t false s).0 ≡ false)
    × ((inspect_slave ps t false s).1.link ≡ link_down)

Losing-fail :
    (ps : Params) (n t : ℕ) (s : Slave)
    → s.link ≡ link_fail
    → s.delay + n ≡ ps.downdelay
    → Losing ps n t s
unfolding inspect_slave
Losing-fail ps n t s e h = ground arith

Returning-back :
    (ps : Params) (n t : ℕ) (s : Slave)
    → s.link ≡ link_back
    → s.delay + n ≡ ps.updelay
    → Returning ps n t s
unfolding inspect_slave
Returning-back ps n t s e h = ground arith

-- A slave whose link is up, and whose device then reports no link at `n` inspections in a row, at
-- most `downdelay` of them: one more such report makes the loss due exactly if `n` is `downdelay`,
-- and a report of a link takes the slave back to link up with nothing due.
pub inspect_slave-Losing :
    (ps : Params) (ts : List ℕ) (t : ℕ) (s : Slave)
    → s.link ≡ link_up
    → length ts ≤ ps.downdelay
    → Losing ps (length ts) t (run ps false ts s)
unfolding run inspect_slave
inspect_slave-Losing ps [] t s e h = ground arith
inspect_slave-Losing ps (u ∷ ts) t s e h =
    let k = first-fail ps u s e (omega arith) in
    let r = run-fail ps ts (inspect_slave ps u false s).1 k.0 (omega (arith, k.1)) in
    Losing-fail ps (suc (length ts)) t (run ps false ts (inspect_slave ps u false s).1) r.0
      (omega (arith, r.1, k.1))

-- A slave whose link is down, and whose device then reports a link at `n` inspections in a row, at
-- most `updelay` of them: one more such report makes the return due exactly if `n` is `updelay`,
-- and a report of no link takes the slave back to link down with nothing due.
pub inspect_slave-Returning :
    (ps : Params) (ts : List ℕ) (t : ℕ) (s : Slave)
    → s.link ≡ link_down
    → length ts ≤ ps.updelay
    → Returning ps (length ts) t (run ps true ts s)
unfolding run inspect_slave
inspect_slave-Returning ps [] t s e h = ground arith
inspect_slave-Returning ps (u ∷ ts) t s e h =
    let k = first-back ps u s e (omega arith) in
    let r = run-back ps ts (inspect_slave ps u true s).1 k.0 (omega (arith, k.1)) in
    Returning-back ps (suc (length ts)) t (run ps true ts (inspect_slave ps u true s).1) r.0
      (omega (arith, r.1, k.1))

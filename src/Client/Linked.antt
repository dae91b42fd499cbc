-- ===== src/Client/Linked.antt =====
-- The slave that carries the traffic and the pipes of the plumber, during src/hoolock_client.cc.
use hoolock.Common.{ℕ, ◌≡◌, List, [], ◌∷◌, true, some, All, byte}
use hoolock.Bond.State.{Bonding}
use hoolock.Bond.Active.Names.{Names}
use hoolock.Plumber.{Plumber, Serving, listening}
use hoolock.Plumber.Ports.{connected, IsNumbered}
use hoolock.Client.Calls.{World}

-- The character by which the plumber knows a slave: the fourth of its device's name.
abbrev pub side : Bonding → ℕ → ℕ
side b p = byte (b.mem p).dev.name 3

-- The plumber listens, and holds these sides connected.
abbrev pub Joins : List ℕ → Serving → Type 0
Joins cs s = (p : Plumber) × (s ≡ listening p) × IsNumbered p × All (λ c. connected c p ≡ true) cs

-- There is an active slave, and its side is connected.
abbrev pub IsLinked : World → Type 0
IsLinked w = (p : ℕ) × (w.bond.curr_active_slave ≡ some p) × Joins (side w.bond p ∷ []) w.plumber

-- What others do to the driver meanwhile leaves the slaves, their names and the active one.
pub record Quiet (b c : Bonding) : Type 0 where
  pub slaves : c.slaves ≡ b.slaves
  pub active : c.curr_active_slave ≡ b.curr_active_slave
  pub names : Names b c

abbrev pub IsQuiet : (Bonding → Bonding) → Type 0
IsQuiet f = (b : Bonding) → Quiet b (f b)

-- ===== src/Tests/Device.antt =====
-- Opening and closing the device at a concrete input.
use hoolock.Common.{◌≡◌, refl, true, some, ap, sym}
use hoolock.Bond.State.{Bonding}
use hoolock.Device.{Alb, bond_open, bond_close}
use hoolock.Device.RoundTrip.{AlbLaws, IsIdle, idle, bond_close-bond_open}
use hoolock.Tests.Samples.{bond}

abbrev services : Alb
services = record { initialize = λ b. some b; deinitialize = λ b. b }

some_inj : (b c : Bonding) → some b ≡ some c → b ≡ c
some_inj b c h = cc

services-AlbLaws : AlbLaws services
services-AlbLaws = record {
  keeps_params = λ b c h. sym (ap (λ (d : Bonding). d.params) (some_inj b c h));
}

opens : (bond_open services (idle bond)).0 ≡ true
unfolding bond_open hoolock.Device.open_first
opens = refl

bond_close-bond_open_example : IsIdle (bond_close services (bond_open services (idle bond)).1)
bond_close-bond_open_example = bond_close-bond_open services services-AlbLaws bond opens

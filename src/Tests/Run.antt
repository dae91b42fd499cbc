-- ===== src/Tests/Run.antt =====
-- Entry points one after the other, at concrete inputs.
use hoolock.Common.{refl, [], true, none, some, arith}
use hoolock.Bond.State.{Bonding}
use hoolock.Bond.Invariant.{IsWellFormed}
use hoolock.Ioctl.Commands.{enslave, do_command}
use hoolock.Bond.Monitor.{mii_monitor}
use hoolock.Run.{Brings, commanded, mii, Reaches, here, after}
use hoolock.Run.Reachable.{Reaches-IsWellFormed}
use hoolock.Tests.Samples.{bond}
use hoolock.Tests.Enslave.{services, services-ServicesLaws, free_device}

abbrev new_bond : Bonding
new_bond = record bond { slaves = []; curr_active_slave = none }

-- The device is enslaved, and the link monitor runs.
abbrev with_slave : Bonding
with_slave = (do_command services 7 (some 30) true enslave (some free_device) new_bond).1

brings : Brings (some 30) (some free_device) new_bond
brings = record { no_master = λ d e f. ground arith; fresh = λ p e. tt }

run : Reaches services new_bond (mii_monitor services.extern services.drivers 8 with_slave).1
run =
    after new_bond with_slave (mii_monitor services.extern services.drivers 8 with_slave).1
      (after new_bond new_bond with_slave (here new_bond)
        (commanded 7 (some 30) true enslave (some free_device) new_bond brings))
      (mii 8 with_slave)

Reaches-IsWellFormed_example :
    IsWellFormed (mii_monitor services.extern services.drivers 8 with_slave).1
Reaches-IsWellFormed_example =
    Reaches-IsWellFormed services services-ServicesLaws (λ d. refl) new_bond
      (mii_monitor services.extern services.drivers 8 with_slave).1
      (record {
        slaves = refl;
        curr_active_slave = refl;
        primary_slave = refl;
        current_arp_slave = refl;
      })
      run

-- ===== src/Tests/Handover.antt =====
-- Make, receive and break at concrete inputs.
use hoolock.Hoolock.Make.Laws.{make-make}
use hoolock.Common.{inl, some, arith, ◌≡◌, refl, [], ◌∷◌, true, false}
use hoolock.Bond.State.{Bonding, ok}
use hoolock.Hoolock.Make.{make}
use hoolock.Hoolock.Make.Laws.{make_lem}
use hoolock.Hoolock.Recv.Arrivals.{recv_each, recv_each_lem}
use hoolock.Hoolock.Break.{break, finished}
use hoolock.Hoolock.Break.Drains.{received, last_result, break-drains}
use hoolock.Tests.Samples.{bond, extern, extern-ExternLaws, packet, network}

abbrev holding : Bonding
holding = record bond { buffer_mode = true; pbuff = packet 3 ∷ packet 4 ∷ [] }

make_lem_example : (make extern 7 bond).1.buffer_mode ≡ true
make_lem_example = (make_lem extern extern-ExternLaws 7 bond).1

-- The first packet is from the address of the active slave, the second from its device.
recv_each_lem_example :
    recv_each ((packet 6, 10) ∷ (packet 7, 100) ∷ []) holding
    ≡ record holding { pbuff = packet 3 ∷ packet 4 ∷ packet 6 ∷ [] }
recv_each_lem_example = recv_each_lem ((packet 6, 10) ∷ (packet 7, 100) ∷ []) holding

break-drains_example :
    break false (λ k. network) holding
    ≡ finished
        (last_result (λ k. network) (record holding { buffer_mode = false }) 10 ok holding.pbuff)
        (record holding { buffer_mode = false; pbuff = [] })
        (received (λ k. network) (record holding { buffer_mode = false }) 10 holding.pbuff)
break-drains_example = break-drains false (λ k. network) holding 10 refl

make-make_example :
    ((make extern 7 bond).1.curr_active_slave ≡ some 20)
    × ((make extern 8 (make extern 7 bond).1).1.curr_active_slave ≡ some 10)
make-make_example = make-make extern extern-ExternLaws 7 8 bond 10 20 (omega arith) (inl refl) refl

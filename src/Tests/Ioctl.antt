-- ===== src/Tests/Ioctl.antt =====
-- The ioctls at concrete inputs.
use hoolock.Common.{◌≡◌, refl, true, some, pos}
use hoolock.Bond.State.{ok}
use hoolock.Bond.Slaves.{get_slave_by_dev}
use hoolock.Hoolock.Make.{first_other}
use hoolock.Ioctl.{
  Request, do_ioctl, get_passive, hoolock_make, returned, slave_reply, info_of, ioctl_change_active,
}
use hoolock.Ioctl.Answers.{left_by, do_ioctl-passive_make}
use hoolock.Ioctl.Changes.{Answer, ioctl_change_active_lem}
use hoolock.Tests.Samples.{bond, device, extern, extern-ExternLaws, network}

abbrev request : Request
request = record { mii_reg_num = some 1; copies_in = true; copies_out = true; slave_id = pos 1 }

passive : first_other bond ≡ some 20
unfolding first_other
passive = refl

ioctl_change_active_lem_example :
    Answer bond (get_slave_by_dev bond 200) (ioctl_change_active extern 7 (device 200) bond)
ioctl_change_active_lem_example =
    ioctl_change_active_lem extern extern-ExternLaws 7 bond (device 200)

do_ioctl-passive_make_example :
    (do_ioctl extern (λ k. network) 7 get_passive request bond
      ≡ returned ok (slave_reply (info_of (bond.mem 20))) bond)
    × ((left_by (do_ioctl extern (λ k. network) 7 hoolock_make request bond) bond).curr_active_slave
        ≡ some 20)
do_ioctl-passive_make_example =
    do_ioctl-passive_make extern extern-ExternLaws (λ k. network) 7 request bond 20 passive

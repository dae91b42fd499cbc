-- ===== src/Tests/Enslave.antt =====
-- bond_enslave, bond_release, bond_release_all and the VLANs at concrete inputs.
use hoolock.Common.{ℕ, ◌≡◌, refl, [], ◌∷◌, true, false, none, some, In, NotIn, arith, inl, inr}
use hoolock.Bond.State.{NetDevice, ok, enodev}
use hoolock.Bond.Invariant.{Keeps-refl}
use hoolock.Bond.Vlans.{VlanOps, del_vlan, rx_add_vid, rx_kill_vid}
use hoolock.Bond.Vlans.RoundTrip.{rx_kill_vid-rx_add_vid}
use hoolock.Bond.Enslave.{Services, bond_enslave}
use hoolock.Bond.Enslave.Laws.{ServicesLaws}
use hoolock.Bond.Enslave.Errors.{Succeeded, Outcome}
use hoolock.Bond.Enslave.Outcomes.{bond_enslave_lem}
use hoolock.Bond.Enslave.Success.{Suits, bond_enslave-ok}
use hoolock.Bond.Release.{Remains, bond_release, bond_release_all}
use hoolock.Bond.Release.Freed.{Released, bond_release_lem}
use hoolock.Bond.Release.Drained.{Drained, bond_release_all-Drained}
use hoolock.Net.Device.{dev_open}
use hoolock.Tests.Samples.{bond, device, extern, extern-ExternLaws, bond-IsWellFormed, drivers}

abbrev vlan_ops : VlanOps
vlan_ops = record {
  registers = λ d. true;
  adds = λ d. true;
  kills = λ d. true;
  alb_clear_vlan = λ vid b. b;
}

-- Kernel services where every call succeeds.
abbrev pub services : Services
services = record {
  extern = extern;
  drivers = drivers;
  driver = record {
    present = λ d. true;
    validate_addr = λ d. ok;
    open_device = λ d. (ok, true);
    stop_device = λ d. false;
  };
  vlan_ops = vlan_ops;
  alb_init_slave = λ s b. (ok, s.dev, b);
  alb_deinit_slave = λ p b. b;
  ad_bind_slave = λ p b. b;
  ad_unbind_slave = λ p b. b;
  create_symlinks = λ d. ok;
  ether = 1;
  lacpdu_mc = 66;
}

pub services-ServicesLaws : ServicesLaws services
services-ServicesLaws = record {
  extern = extern-ExternLaws;
  mac_same = λ d a. record { ptr = refl; master = refl; iff_slave = refl; iff_up = refl };
  alb_init = λ s b. (Keeps-refl b, refl);
  alb_init_same = λ s b. record { ptr = refl; master = refl; iff_slave = refl; iff_up = refl };
  alb_deinit = λ p b. (Keeps-refl b, refl);
  ad_bind = λ p b. (Keeps-refl b, refl);
  ad_unbind = λ p b. (Keeps-refl b, refl);
}

-- A device that is free and down.
abbrev pub free_device : NetDevice
free_device = record (device 300) {
  master = none;
  iff_slave = false;
  iff_up = false;
  iff_bonding = false;
}

-- The structure of the new slave is at 30.
fresh : (p : ℕ) → some 30 ≡ some p → NotIn p (10 ∷ 20 ∷ [])
fresh p e = ground arith

bond_enslave_lem_example :
    Outcome services bond free_device (some 30) (bond_enslave services 7 (some 30) free_device bond)
bond_enslave_lem_example =
    bond_enslave_lem services services-ServicesLaws 7 (some 30) free_device bond bond-IsWellFormed
      fresh refl

suits : Suits services bond free_device
unfolding dev_open
suits = record {
  mode = refl;
  no_slave = refl;
  no_master = refl;
  down = refl;
  vlans = refl;
  dev_type = refl;
  can_set_mac = refl;
  sets_mac = λ a. refl;
  keeps_master = λ a. refl;
  opens = λ e. ground arith;
  links = λ e. refl;
}

bond_enslave-ok_example :
    Succeeded bond free_device 30 (bond_enslave services 7 (some 30) free_device bond)
    × ((bond_enslave services 7 (some 30) free_device bond).bond.curr_active_slave ≡ some 10)
bond_enslave-ok_example =
    bond_enslave-ok services services-ServicesLaws 7 30 free_device bond bond-IsWellFormed
      (fresh 30 refl) suits

bond_release_lem_example :
    (p : ℕ) × In p bond.slaves
    × ((bond.mem p).dev.ptr ≡ 200)
    × Released bond p (bond_release services 7 (device 200) bond)
bond_release_lem_example =
    bond_release_lem services services-ServicesLaws bond bond-IsWellFormed 7 20 (device 200) refl
      refl (inr (inl refl)) refl

bond_release_all-Drained_example :
    (r : Remains) × (bond_release_all services 7 bond ≡ some r) × Drained bond r
bond_release_all-Drained_example =
    bond_release_all-Drained services services-ServicesLaws 7 bond bond-IsWellFormed

rx_kill_vid-rx_add_vid_example :
    ((rx_kill_vid vlan_ops 4 (rx_add_vid vlan_ops true 4 bond)).vlan_list ≡ [])
    × ((rx_kill_vid vlan_ops 4 (rx_add_vid vlan_ops true 4 bond)).slaves ≡ 10 ∷ 20 ∷ [])
    × (del_vlan vlan_ops 4 bond ≡ (enodev, bond))
rx_kill_vid-rx_add_vid_example =
    rx_kill_vid-rx_add_vid vlan_ops 4 bond
      (record { slaves = λ vid b. refl; vlans = λ vid b. refl }) tt

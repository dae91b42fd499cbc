-- ===== src/Tests/HardClient.antt =====
-- The client that breaks first, at a concrete input.
use hoolock.Common.{◌≡◌, refl, [], ◌∷◌, true, false, All, pos, negsuc, inl, arith}
use hoolock.Plumber.{Plumber, listening}
use hoolock.Client.Calls.{goes, Visit}
use hoolock.Client.{run, visits}
use hoolock.HardClient.{Host, HardRound, hard_round, hard_rounds}
use hoolock.HardClient.Exclusive.{IsExclusive}
use hoolock.HardClient.Rounds.{IsObeyed, IsSingle, Goes, hard_rounds-Exclusive, hard_round-goes}

abbrev visit : Visit
visit = record {
  socket_ok = true;
  connects = true;
  delivered = 7;
  accepted = true;
  read_ok = true;
  forked = pos 72;
  written = true;
}

abbrev one_round : HardRound
one_round = record {
  output_socket = true;
  output_connects = true;
  forked = pos 80;
  key = 10;
  break_visit = visit;
  make_visit = visit;
}

abbrev plumber : Plumber
plumber = record {
  eth0_pid = pos 71;
  eth1_pid = negsuc 0;
  is_hard = true;
  is_lossy = false;
  children = [];
}

abbrev host : Host
host = record {
  plumber = listening plumber;
  act_ch = 48;
  pas_ch = 0;
  iperf_pid = negsuc 0;
  kills = [];
}

one_round-IsObeyed : IsObeyed one_round
one_round-IsObeyed = record {
  break_visit = record {
    accepted = refl;
    read_ok = refl;
    delivered = omega arith;
    forked = refl;
    written = refl;
  };
  make_visit = record {
    accepted = refl;
    read_ok = refl;
    delivered = omega arith;
    forked = refl;
    written = refl;
  };
}

host-IsSingle : IsSingle 48 49 host
host-IsSingle = record {
  opposite = inl (refl, refl);
  act_ch = refl;
  sides = (plumber, refl, ((λ e. ground arith), (λ e. ground arith)), refl, refl);
}

hard_rounds-Exclusive_example :
    All IsExclusive (visits (hard_rounds (one_round ∷ one_round ∷ [])) host)
hard_rounds-Exclusive_example =
    hard_rounds-Exclusive (one_round ∷ one_round ∷ []) 48 49 host
      (one_round-IsObeyed, (one_round-IsObeyed, tt)) host-IsSingle

one_round-Goes : Goes one_round
one_round-Goes =
    (tt, (refl, (refl, ((λ e. ground arith), (omega arith, (refl, (refl, (tt, (tt, tt)))))))))

hard_round-goes_example : (v : Host) × (run (hard_round one_round) host ≡ goes v) × IsSingle 49 48 v
hard_round-goes_example =
    hard_round-goes 48 49 one_round host one_round-IsObeyed one_round-Goes host-IsSingle

-- ===== src/Choking/Tests.antt =====
-- The choking manager of src/torrent/choking.rs at concrete inputs: one slot and two peers.
use gosh_dl.Base.{
  ◌≡◌, refl, true, false, [], ◌∷◌, none, some, has, lookup, IsMap, if◌then◌else◌, ltb,
}
use gosh_dl.Choking.{ChokingManager, PeerStats, Peers, recalculate, to_unchoke, duration_since}
use gosh_dl.Choking.Decisions.{after, recalculate_lem}

abbrev manager : ChokingManager
manager = record {
  config = record { unchoke_slots = 1; recalculate_interval = 10; optimistic_interval = 30 };
  last_recalculate = 0;
  last_optimistic_rotate = 0;
  optimistic_peer = none;
  rng_counter = 0;
}

abbrev slow : PeerStats
slow = record {
  download_rate = 10;
  upload_rate = 0;
  peer_interested = true;
  am_interested = true;
  is_unchoked = true;
  is_seeder = false;
}

abbrev fast : PeerStats
fast = record {
  download_rate = 90;
  upload_rate = 0;
  peer_interested = true;
  am_interested = true;
  is_unchoked = false;
  is_seeder = false;
}

abbrev peers : Peers
peers = (1, slow) ∷ (2, fast) ∷ []

peers-IsMap : IsMap peers
unfolding lookup
peers-IsMap = (refl, (refl, tt))

slow_there : lookup 1 peers ≡ some slow
unfolding lookup
slow_there = refl

recalculate_lem_example :
    after (recalculate manager peers false 20).1 1 true
    ≡ (if ltb (duration_since 20 0) 10 then true else has (to_unchoke manager peers false 20) 1)
recalculate_lem_example = recalculate_lem manager peers false 20 1 slow peers-IsMap slow_there

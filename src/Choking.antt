-- ===== src/Choking.antt =====
-- src/torrent/choking.rs: `ChokingManager`, which decides what peers to serve. An address and a time, in
-- seconds, are numbers; the time of a call is its argument. The map of peers is the list in the order in
-- which it is iterated.
mod Decisions
mod Tests
use gosh_dl.Base.{
  ℕ, zero, suc, ◌+◌, ◌-◌, ◌%◌, ◌^◌, Bool, true, false, not, ◌&&◌, List, [], ◌∷◌, ◌++◌, Option, none,
  some, if◌then◌else◌, ◌==◌, ltb, leb, length, get_elem?, take, keep, map, has, contains, lookup,
  sort_by,
}

pub record ChokingConfig : Type 0 where
  pub unchoke_slots : ℕ
  pub recalculate_interval : ℕ
  pub optimistic_interval : ℕ

pub record PeerStats : Type 0 where
  pub download_rate : ℕ
  pub upload_rate : ℕ
  pub peer_interested : Bool
  pub am_interested : Bool
  pub is_unchoked : Bool
  pub is_seeder : Bool

pub data ChokingDecision : Type 0 where
  unchoke choke : ℕ → ChokingDecision

pub record ChokingManager : Type 0 where
  pub config : ChokingConfig
  pub last_recalculate : ℕ
  pub last_optimistic_rotate : ℕ
  pub optimistic_peer : Option ℕ
  pub rng_counter : ℕ

-- A new manager may choose an optimistic peer at once: the last rotation is 60 seconds ago.
pub new : ChokingConfig → ℕ → ChokingManager
new config now = record {
  config = config;
  last_recalculate = now;
  last_optimistic_rotate = now - 60;
  optimistic_peer = none;
  rng_counter = 0;
}

-- `ChokingConfig::default`.
abbrev pub default_config : ChokingConfig
default_config = record { unchoke_slots = 4; recalculate_interval = 10; optimistic_interval = 30 }

pub with_defaults : ℕ → ChokingManager
unfolding new
with_defaults now = new default_config now

abbrev pub Peers : Type 0
Peers = List (ℕ × PeerStats)

abbrev pub rate : Bool → PeerStats → ℕ
rate is_seeding stats = if is_seeding then stats.upload_rate else stats.download_rate

abbrev pub faster : Bool → ℕ × PeerStats → ℕ × PeerStats → Bool
faster is_seeding p q = ltb (rate is_seeding q.1) (rate is_seeding p.1)

abbrev pub addresses : Peers → List ℕ
addresses [] = []
addresses ((addr, stats) ∷ peers) = addr ∷ addresses peers

-- The interested peers, the fastest first.
pub interested_peers : Peers → Bool → Peers
unfolding sort_by
interested_peers peers is_seeding =
    sort_by (faster is_seeding) (keep (λ (addr, stats). stats.peer_interested) peers)

pub regular_slots : ChokingManager → Peers → Bool → List ℕ
unfolding interested_peers
regular_slots m peers is_seeding =
    take m.config.unchoke_slots (addresses (interested_peers peers is_seeding))

pub rotate_optimistic : ChokingManager → Peers → List ℕ → ChokingManager
rotate_optimistic m interested currently_unchoked =
    let candidates = keep (λ addr. not (has currently_unchoked addr)) (addresses interested) in
    if length candidates == 0
    then record m { optimistic_peer = none }
    else let rng_counter = (m.rng_counter + 1) % 2 ^ 64 in
      record m {
        rng_counter = rng_counter;
        optimistic_peer = get_elem? candidates (rng_counter % length candidates);
      }

-- The regular slots, and the optimistic peer if it is still there and not among them.
abbrev pub with_optimistic : Option ℕ → Peers → List ℕ → List ℕ
with_optimistic none peers to_unchoke = to_unchoke
with_optimistic (some peer) peers to_unchoke =
    if contains peer peers && not (has to_unchoke peer) then to_unchoke ++ peer ∷ [] else to_unchoke

abbrev pub unchoke_if : ℕ → Option PeerStats → List ChokingDecision → List ChokingDecision
unchoke_if addr none rest = rest
unchoke_if addr (some stats) rest = if not stats.is_unchoked then unchoke addr ∷ rest else rest

abbrev pub unchokes : Peers → List ℕ → List ChokingDecision
unchokes peers [] = []
unchokes peers (addr ∷ to_unchoke) = unchoke_if addr (lookup addr peers) (unchokes peers to_unchoke)

abbrev pub chokes : Peers → List ℕ → List ChokingDecision
chokes [] to_unchoke = []
chokes ((addr, stats) ∷ peers) to_unchoke =
    if stats.is_unchoked && not (has to_unchoke addr)
    then choke addr ∷ chokes peers to_unchoke
    else chokes peers to_unchoke

-- The time since `then_`; 0 if it lies ahead.
abbrev pub duration_since : ℕ → ℕ → ℕ
duration_since now then_ = now - then_

-- The manager after the rotation of a call at `now`.
pub rotated : ChokingManager → Peers → Bool → ℕ → ChokingManager
unfolding rotate_optimistic regular_slots interested_peers
rotated m peers is_seeding now =
    let m' = record m { last_recalculate = now } in
    if leb m.config.optimistic_interval (duration_since now m.last_optimistic_rotate)
    then rotate_optimistic (record m' { last_optimistic_rotate = now })
        (interested_peers peers is_seeding) (regular_slots m peers is_seeding)
    else m'

pub to_unchoke : ChokingManager → Peers → Bool → ℕ → List ℕ
unfolding rotated regular_slots
to_unchoke m peers is_seeding now =
    with_optimistic (rotated m peers is_seeding now).optimistic_peer peers
      (regular_slots m peers is_seeding)

pub recalculate : ChokingManager → Peers → Bool → ℕ → ChokingManager × List ChokingDecision
unfolding rotated to_unchoke
recalculate m peers is_seeding now =
    if ltb (duration_since now m.last_recalculate) m.config.recalculate_interval then (m, []) else (
      rotated m peers is_seeding now,
      unchokes peers (to_unchoke m peers is_seeding now)
          ++ chokes peers (to_unchoke m peers is_seeding now),
    )

pub peer_disconnected : ChokingManager → ℕ → ℕ → ChokingManager
peer_disconnected m addr now = elim m.optimistic_peer [
  | none ↦ m
  | some peer ↦
      if peer == addr
      then record m {
        optimistic_peer = none;
        last_optimistic_rotate = now - m.config.optimistic_interval;
      }
      else m
]

pub should_recalculate : ChokingManager → ℕ → Bool
should_recalculate m now = leb m.config.recalculate_interval (duration_since now m.last_recalculate)

pub is_optimistic : ChokingManager → ℕ → Bool
is_optimistic m addr = elim m.optimistic_peer [ none ↦ false | some peer ↦ peer == addr ]

pub invalidate : ChokingManager → ℕ → ChokingManager
invalidate m now = record m { last_recalculate = now - m.config.recalculate_interval }

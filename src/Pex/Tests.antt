-- ===== src/Pex/Tests.antt =====
-- src/torrent/pex.rs: concrete inputs for the theorems on the exchange of addresses.
use gosh_dl.Base.{◌≡◌, refl, true, [], ◌∷◌, arith}
use gosh_dl.Bencode.{ok}
use gosh_dl.Pex.{
  SocketAddr, v4, v6, PexMessage, new, changes, can_send, build_message, parse_message,
  encode_message,
}
use gosh_dl.Pex.View.{SameSet}
use gosh_dl.Pex.Told.{told, told_peers-SameSet}
use gosh_dl.Pex.Wire.{IsSplit, capped, parse_message-encode_message}

abbrev first_peer : SocketAddr
first_peer = v4 (10 ∷ 0 ∷ 0 ∷ 1 ∷ []) 6881

abbrev second_peer : SocketAddr
second_peer = v6 (32 ∷ 1 ∷ 0 ∷ 0 ∷ 0 ∷ 0 ∷ 0 ∷ 0 ∷ 0 ∷ 0 ∷ 0 ∷ 0 ∷ 0 ∷ 0 ∷ 0 ∷ 1 ∷ []) 51413

abbrev some_message : PexMessage
some_message = changes (first_peer ∷ second_peer ∷ []) []

some_message-IsSplit : IsSplit some_message
some_message-IsSplit = record {
  added_v4 = ((refl, omega arith), tt);
  dropped_v4 = tt;
  added_v6 = ((refl, omega arith), tt);
  dropped_v6 = tt;
  added_room = omega arith;
  dropped_room = omega arith;
  added6_room = omega arith;
  dropped6_room = omega arith;
  flags_room = omega arith;
  flags6_room = omega arith;
}

parse_message-encode_message_example :
    parse_message (encode_message some_message) ≡ ok (capped some_message)
parse_message-encode_message_example =
    parse_message-encode_message some_message some_message-IsSplit

-- Both peers are sent, and known at the other side.
told_peers-SameSet_example :
    let (message, after) = build_message 1000 (first_peer ∷ second_peer ∷ []) (new 1000 1) in
    SameSet (told message []) after.shared_peers
    × (can_send 1000 (new 1000 1) ≡ true
        → SameSet after.shared_peers (first_peer ∷ second_peer ∷ []))
told_peers-SameSet_example =
    told_peers-SameSet 1000 (first_peer ∷ second_peer ∷ []) [] (new 1000 1)
      ((refl, omega arith), ((refl, omega arith), tt)) tt (omega arith) (omega arith) (λ a. refl)

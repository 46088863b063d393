-- ===== src/Peer/Tests.antt =====
-- Runs of src/torrent/peer.rs on small inputs.
use gosh_dl.Base.{ℕ, ◌≡◌, refl, true, false, List, [], ◌∷◌, ◌++◌, some, arith, replicate, get_elem?}
use gosh_dl.Base.Result.{failed}
use gosh_dl.Peer.Message.{PeerMessage, encode, decode, decode_body, id_of}
use gosh_dl.Peer.Connection.{
  PeerConnection, new, with_extensions, supports_extension_protocol, supports_dht, supports_fast,
  max_message_size, bit_set, copy_bits, copy_bytes, handle_message, recv, recv_body, read_exact,
  send, choke, unchoke, interested, not_interested, peer_has_piece, handshaking,
}
use gosh_dl.Peer.RoundTrip.{body}
use gosh_dl.Peer.Pieces.{handle_message_marks, mark_after}
use gosh_dl.Peer.Handshake.{handshake, handshake_message, handshake_meets, HasSizes, greeted}
use gosh_dl.Peer.Stream.{
  Fits, sent_is_received, sent_message-Fits, send_all, recv_times, handle_all,
}

abbrev request_block : PeerMessage
request_block = PeerMessage.request 1 16384 16384

request_encoded :
    encode request_block ≡ 0 ∷ 0 ∷ 0 ∷ 13 ∷ 6 ∷ 0 ∷ 0 ∷ 0 ∷ 1 ∷ 0 ∷ 0 ∷ 64 ∷ 0 ∷ 0 ∷ 0 ∷ 64 ∷ 0 ∷ []
unfolding encode
request_encoded = refl

have_too_short : decode (4 ∷ 0 ∷ 0 ∷ []) ≡ failed
unfolding decode decode_body
have_too_short = refl

id_of_extended : id_of (PeerMessage.extended 1 []) ≡ some 20
unfolding id_of
id_of_extended = refl

advertised :
    (supports_extension_protocol with_extensions ≡ true)
    × ((supports_fast with_extensions ≡ true) × (supports_dht with_extensions ≡ false))
advertised = (refl, (refl, refl))

limit_small : max_message_size 262104 ≡ 32768
unfolding max_message_size
limit_small = refl

limit_large : max_message_size 262144 ≡ 32773
unfolding max_message_size
limit_large = refl

abbrev hash_of : ℕ → List ℕ
hash_of b = replicate 20 b

abbrev ours : PeerConnection
ours = new (hash_of 7) (hash_of 1) 10

abbrev theirs : PeerConnection
theirs = new (hash_of 7) (hash_of 2) 10

-- Ten pieces: the first and the ninth.
abbrev first_and_ninth : PeerMessage
first_and_ninth = PeerMessage.bitfield (128 ∷ 128 ∷ [])

peer_has_ninth : peer_has_piece (handle_message first_and_ninth ours) 8 ≡ true
unfolding handle_message copy_bytes copy_bits bit_set
peer_has_ninth = refl

too_large_refused : (recv (record ours { incoming = 0 ∷ 0 ∷ 128 ∷ 1 ∷ 4 ∷ [] })).0 ≡ failed
unfolding recv recv_body read_exact max_message_size
too_large_refused = refl

choking_states :
    ((unchoke ours).1.am_choking ≡ false)
    × (((choke ours).1.am_choking ≡ true)
        × (((interested ours).1.am_interested ≡ true)
            × ((not_interested ours).1.am_interested ≡ false)))
unfolding choke unchoke interested not_interested send
choking_states = (refl, (refl, (refl, refl)))

handle_message_marks_example :
    get_elem? (handle_message first_and_ninth ours).peer_pieces 8
    ≡ mark_after first_and_ninth 8 (some false)
handle_message_marks_example = handle_message_marks first_and_ninth ours 8 refl (omega arith)

abbrev greeting : PeerConnection
greeting = record ours { incoming = handshake_message theirs ++ (0 ∷ []) }

theirs-HasSizes : HasSizes theirs
theirs-HasSizes = record { reserved = refl; info_hash = refl; our_peer_id = refl }

handshake_meets_example :
    handshake greeting
    ≡ greeted theirs.reserved (hash_of 7) (hash_of 2) (record greeting {
      incoming = 0 ∷ [];
      outgoing = handshake_message greeting;
      connection_state = handshaking;
    })
handshake_meets_example = handshake_meets greeting theirs (0 ∷ []) theirs-HasSizes refl refl

abbrev conversation : List PeerMessage
conversation = PeerMessage.unchoke ∷ first_and_ninth ∷ PeerMessage.keep_alive ∷ request_block ∷ []

unchoke-Fits : Fits 10 PeerMessage.unchoke
unfolding max_message_size body encode
unchoke-Fits = record { in_range = tt; size = omega arith }

keep_alive-Fits : Fits 10 PeerMessage.keep_alive
unfolding max_message_size body encode
keep_alive-Fits = record { in_range = tt; size = omega arith }

request-Fits : Fits 10 request_block
unfolding max_message_size body encode
request-Fits = record { in_range = (omega arith, omega arith, omega arith); size = omega arith }

bitfield-Fits : Fits 10 first_and_ninth
bitfield-Fits = sent_message-Fits 10 first_and_ninth (omega arith) (omega arith) refl

sent_is_received_example :
    recv_times 4 (record theirs { incoming = (send_all conversation ours).outgoing })
    ≡ (conversation, handle_all conversation (record theirs { incoming = [] }))
sent_is_received_example =
    sent_is_received ours theirs conversation refl refl
      (unchoke-Fits, (bitfield-Fits, (keep_alive-Fits, (request-Fits, tt))))

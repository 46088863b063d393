-- ===== src/Peer/Handshake.antt =====
-- src/torrent/peer.rs: `PeerConnection::handshake`: what it writes, and what it makes of the 68
-- bytes that it reads. An error leaves what was stored before it.
use gosh_dl.Base.{
  ℕ, ◌+◌, ◌≡◌, refl, ap, sym, ◌∙◌, Bool, true, false, not, List, [], ◌∷◌, ◌++◌, Option, none, some,
  arith, if◌then◌else◌, ◌==◌, length, get_or, take, drop, same_bytes, Bool-cases, inl, inr,
  take-append, drop-append, drop-drop, length-append, append-nil, if_true,
}
use gosh_dl.Peer.Connection.{PeerConnection, handshaking, connected, read_exact, read_exact-append}

abbrev pub handshake_size : ℕ
handshake_size = 68

-- "BitTorrent protocol"
abbrev pub protocol_string : List ℕ
protocol_string =
    66 ∷ 105 ∷ 116 ∷ 84 ∷ 111 ∷ 114 ∷ 114 ∷ 101 ∷ 110 ∷ 116 ∷ 32 ∷ 112 ∷ 114 ∷ 111 ∷ 116 ∷ 111 ∷ 99
    ∷ 111 ∷ 108 ∷ []

unfoldable pub handshake_message : PeerConnection → List ℕ
handshake_message c = 19 ∷ protocol_string ++ (c.reserved ++ (c.info_hash ++ c.our_peer_id))

unfoldable pub check_handshake : List ℕ → PeerConnection → Bool × PeerConnection
check_handshake response c =
    if not (get_or response 0 0 == length protocol_string)
    then (false, c)
    else if not (same_bytes (take (get_or response 0 0) (drop 1 response)) protocol_string)
    then (false, c)
    else let c' = record c { peer_reserved = take 8 (drop 20 response) } in
      if not (same_bytes (take 20 (drop 28 response)) c.info_hash) then (false, c') else (
        true,
        record c' { peer_id = some (take 20 (drop 48 response)); connection_state = connected },
      )

abbrev pub check_read : Option (List ℕ) → PeerConnection → Bool × PeerConnection
check_read none c = (false, c)
check_read (some response) c = check_handshake response c

unfoldable pub handshake : PeerConnection → Bool × PeerConnection
handshake c =
    if c.writable
    then (let (bytes, c') = read_exact handshake_size (record c {
      outgoing = c.outgoing ++ handshake_message c;
      connection_state = handshaking;
    }) in
        check_read bytes c')
    else (false, record c { connection_state = handshaking })

-- The parts of a handshake have the sizes of their types.
pub record HasSizes (c : PeerConnection) : Type 0 where
  pub reserved : length c.reserved ≡ 8
  pub info_hash : length c.info_hash ≡ 20
  pub our_peer_id : length c.our_peer_id ≡ 20

-- A part of known size behind a part of known size.
slice :
    (n m : ℕ) (xs ys zs rest : List ℕ)
    → length xs ≡ n
    → length ys ≡ m
    → rest ≡ xs ++ (ys ++ zs)
    → (take m (drop n rest) ≡ ys) × (drop (n + m) rest ≡ zs)
slice n m xs ys zs rest e f h =
    let behind : drop n rest ≡ ys ++ zs =
      ap (drop n) h ∙ ap (λ k. drop k (xs ++ (ys ++ zs))) (sym e) ∙ drop-append xs (ys ++ zs) in
    (
      ap (take m) behind ∙ ap (λ k. take k (ys ++ zs)) (sym f) ∙ take-append ys zs,
      sym (drop-drop m n rest)
          ∙ ap (drop m) behind
          ∙ ap (λ k. drop k (ys ++ zs)) (sym f)
          ∙ drop-append ys zs,
    )

-- The connection behind a handshake with its parts in place.
unfoldable pub greeted : List ℕ → List ℕ → List ℕ → PeerConnection → Bool × PeerConnection
greeted reserved info_hash peer_id c =
    let c' = record c { peer_reserved = reserved } in
    if same_bytes info_hash c.info_hash
    then (true, record c' { peer_id = some peer_id; connection_state = connected })
    else (false, c')

check_lem :
    (response reserved info_hash peer_id : List ℕ) (c : PeerConnection)
    → get_or response 0 0 ≡ 19
    → take 19 (drop 1 response) ≡ protocol_string
    → take 8 (drop 20 response) ≡ reserved
    → take 20 (drop 28 response) ≡ info_hash
    → take 20 (drop 48 response) ≡ peer_id
    → check_handshake response c ≡ greeted reserved info_hash peer_id c
unfolding check_handshake greeted
check_lem response reserved info_hash peer_id c a b d e f =
    elim (Bool-cases (same_bytes info_hash c.info_hash)) [
      | inl same ↦ rw (a, b, d, e, f, same) refl
      | inr other ↦ rw (a, b, d, e, f, other) refl
    ]

length-handshake_message :
    (d : PeerConnection) → HasSizes d → length (handshake_message d) ≡ handshake_size
unfolding handshake_message
length-handshake_message d s = omega (
  arith,
  length-append d.reserved (d.info_hash ++ d.our_peer_id),
  length-append d.info_hash d.our_peer_id,
  s.reserved,
  s.info_hash,
  s.our_peer_id,
)

check_handshake_message :
    (c d : PeerConnection)
    → HasSizes d
    → check_handshake (handshake_message d) c ≡ greeted d.reserved d.info_hash d.our_peer_id c
unfolding handshake_message
check_handshake_message c d s =
    let (res, behind) =
      slice 20 8 (19 ∷ protocol_string) d.reserved (d.info_hash ++ d.our_peer_id) _ refl s.reserved
        refl in
    let (hash, end) =
      slice 0 20 [] d.info_hash d.our_peer_id (d.info_hash ++ d.our_peer_id) refl s.info_hash
        refl in
    let (id, _) =
      slice 0 20 [] d.our_peer_id [] d.our_peer_id refl s.our_peer_id
        (sym (append-nil d.our_peer_id)) in
    check_lem (handshake_message d) d.reserved d.info_hash d.our_peer_id c refl refl res
      (ap (take 20) behind ∙ hash)
      (ap (take 20) (sym (drop-drop 20 28 (handshake_message d)) ∙ ap (drop 20) behind ∙ end) ∙ id)

-- What the side with connection c makes of the handshake that the side with connection d wrote: it
-- takes over what the peer supports, and with the same info hash it is connected and has the peer's
-- id; with another it fails.
pub handshake_meets :
    (c d : PeerConnection) (rest : List ℕ)
    → HasSizes d
    → c.writable ≡ true
    → c.incoming ≡ handshake_message d ++ rest
    → handshake c
      ≡ greeted d.reserved d.info_hash d.our_peer_id (record c {
        incoming = rest;
        outgoing = c.outgoing ++ handshake_message c;
        connection_state = handshaking;
      })
unfolding handshake
handshake_meets c d rest s w h =
    let c' = record c {
      outgoing = c.outgoing ++ handshake_message c;
      connection_state = handshaking;
    } in
    if_true c.writable _ _ w
    ∙ ap (λ (bytes, after). check_read bytes after)
        (read_exact-append 68 (handshake_message d) rest c' (length-handshake_message d s) h)
    ∙ check_handshake_message (record c' { incoming = rest }) d s

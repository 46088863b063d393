-- ===== src/Peer/Message.antt =====
-- src/torrent/peer.rs: `PeerMessage`, its encoding and its decoding. A length is written as a u32,
-- so `u32_bytes` drops what is above 32 bits, as `as u32` does. The errors of `decode` are of the one
-- kind `PeerProtocol`, so `failed` stands for it.
use gosh_dl.Base.{
  ℕ, ◌+◌, List, [], ◌∷◌, ◌++◌, Option, none, some, if◌then◌else◌, ◌==◌, ltb, length, get_or, drop,
  u16_bytes, u32_bytes, u16_from, u32_from,
}
use gosh_dl.Base.Result.{Result, ok, failed}

pub data PeerMessage : Type 0 where
  keep_alive choke unchoke interested not_interested : PeerMessage
  have : ℕ → PeerMessage
  bitfield : List ℕ → PeerMessage
  request : ℕ → ℕ → ℕ → PeerMessage
  piece : ℕ → ℕ → List ℕ → PeerMessage
  cancel : ℕ → ℕ → ℕ → PeerMessage
  port : ℕ → PeerMessage
  suggest_piece : ℕ → PeerMessage
  have_all have_none : PeerMessage
  reject_request : ℕ → ℕ → ℕ → PeerMessage
  allowed_fast : ℕ → PeerMessage
  extended : ℕ → List ℕ → PeerMessage
  unknown : ℕ → List ℕ → PeerMessage

unfoldable pub id_of : PeerMessage → Option ℕ
id_of keep_alive = none
id_of choke = some 0
id_of unchoke = some 1
id_of interested = some 2
id_of not_interested = some 3
id_of (have _) = some 4
id_of (bitfield _) = some 5
id_of (request _ _ _) = some 6
id_of (piece _ _ _) = some 7
id_of (cancel _ _ _) = some 8
id_of (port _) = some 9
id_of (suggest_piece _) = some 13
id_of have_all = some 14
id_of have_none = some 15
id_of (reject_request _ _ _) = some 16
id_of (allowed_fast _) = some 17
id_of (extended _ _) = some 20
id_of (unknown id _) = some id

unfoldable pub encode : PeerMessage → List ℕ
encode keep_alive = 0 ∷ 0 ∷ 0 ∷ 0 ∷ []
encode choke = 0 ∷ 0 ∷ 0 ∷ 1 ∷ 0 ∷ []
encode unchoke = 0 ∷ 0 ∷ 0 ∷ 1 ∷ 1 ∷ []
encode interested = 0 ∷ 0 ∷ 0 ∷ 1 ∷ 2 ∷ []
encode not_interested = 0 ∷ 0 ∷ 0 ∷ 1 ∷ 3 ∷ []
encode (have piece_index) = (0 ∷ 0 ∷ 0 ∷ 5 ∷ 4 ∷ []) ++ u32_bytes piece_index
encode (bitfield bits) = u32_bytes (1 + length bits) ++ 5 ∷ bits
encode (request index begin len) =
    (0 ∷ 0 ∷ 0 ∷ 13 ∷ 6 ∷ []) ++ u32_bytes index ++ u32_bytes begin ++ u32_bytes len
encode (piece index begin block) =
    u32_bytes (9 + length block) ++ 7 ∷ u32_bytes index ++ u32_bytes begin ++ block
encode (cancel index begin len) =
    (0 ∷ 0 ∷ 0 ∷ 13 ∷ 8 ∷ []) ++ u32_bytes index ++ u32_bytes begin ++ u32_bytes len
encode (port number) = (0 ∷ 0 ∷ 0 ∷ 3 ∷ 9 ∷ []) ++ u16_bytes number
encode (suggest_piece piece_index) = (0 ∷ 0 ∷ 0 ∷ 5 ∷ 13 ∷ []) ++ u32_bytes piece_index
encode have_all = 0 ∷ 0 ∷ 0 ∷ 1 ∷ 14 ∷ []
encode have_none = 0 ∷ 0 ∷ 0 ∷ 1 ∷ 15 ∷ []
encode (reject_request index begin len) =
    (0 ∷ 0 ∷ 0 ∷ 13 ∷ 16 ∷ []) ++ u32_bytes index ++ u32_bytes begin ++ u32_bytes len
encode (allowed_fast piece_index) = (0 ∷ 0 ∷ 0 ∷ 5 ∷ 17 ∷ []) ++ u32_bytes piece_index
encode (extended id payload) = u32_bytes (2 + length payload) ++ 20 ∷ id ∷ payload
encode (unknown id payload) = u32_bytes (1 + length payload) ++ id ∷ payload

abbrev pub u32_at : List ℕ → ℕ → ℕ
u32_at payload i =
    u32_from (get_or payload i 0) (get_or payload (i + 1) 0) (get_or payload (i + 2) 0)
      (get_or payload (i + 3) 0)

-- The message of an id, where the payload has `least` bytes.
abbrev pub long_enough : ℕ → List ℕ → PeerMessage → Result PeerMessage
long_enough least payload msg = if ltb (length payload) least then failed else ok msg

unfoldable pub decode_body : ℕ → List ℕ → Result PeerMessage
decode_body id payload =
    if id == 0
    then ok choke
    else if id == 1
    then ok unchoke
    else if id == 2
    then ok interested
    else if id == 3
    then ok not_interested
    else if id == 4
    then long_enough 4 payload (have (u32_at payload 0))
    else if id == 5
    then ok (bitfield payload)
    else if id == 6
    then long_enough 12 payload (request (u32_at payload 0) (u32_at payload 4) (u32_at payload 8))
    else if id == 7
    then long_enough 8 payload (piece (u32_at payload 0) (u32_at payload 4) (drop 8 payload))
    else if id == 8
    then long_enough 12 payload (cancel (u32_at payload 0) (u32_at payload 4) (u32_at payload 8))
    else if id == 9
    then long_enough 2 payload (port (u16_from (get_or payload 0 0) (get_or payload 1 0)))
    else if id == 13
    then long_enough 4 payload (suggest_piece (u32_at payload 0))
    else if id == 14
    then ok have_all
    else if id == 15
    then ok have_none
    else if id == 16
    then long_enough 12 payload
        (reject_request (u32_at payload 0) (u32_at payload 4) (u32_at payload 8))
    else if id == 17
    then long_enough 4 payload (allowed_fast (u32_at payload 0))
    else if id == 20
    then long_enough 1 payload (extended (get_or payload 0 0) (drop 1 payload))
    else ok (unknown id payload)

unfoldable pub decode : List ℕ → Result PeerMessage
decode [] = ok keep_alive
decode (id ∷ payload) = decode_body id payload

-- ===== src/Peer/RoundTrip.antt =====
-- src/torrent/peer.rs: what `decode` gives of the body of an encoded message, and the length that
-- `encode` writes before it.
use gosh_dl.Base.{
  ℕ, ◌+◌, ◌^◌, ◌<◌, ◌≤◌, ◌≡◌, refl, ap, sym, false, List, [], ◌∷◌, ◌++◌, arith, ltb, length, drop,
  has, u32_bytes, u16_lem, u32_lem,
}
use gosh_dl.Base.Result.{ok}
use gosh_dl.Peer.Message.{
  PeerMessage, keep_alive, choke, unchoke, interested, not_interested, have, bitfield, request,
  piece, cancel, port, suggest_piece, have_all, have_none, reject_request, allowed_fast, extended,
  unknown, encode, decode, decode_body, u32_at,
}

-- The ids that `decode` reads as a message of their own.
abbrev pub known_ids : List ℕ
known_ids = 0 ∷ 1 ∷ 2 ∷ 3 ∷ 4 ∷ 5 ∷ 6 ∷ 7 ∷ 8 ∷ 9 ∷ 13 ∷ 14 ∷ 15 ∷ 16 ∷ 17 ∷ 20 ∷ []

-- The numbers of a message are in the range of their types, and what follows its length is shorter
-- than 2^32 bytes.
abbrev pub InRange : PeerMessage → Type 0
InRange (have piece_index) = piece_index < 2 ^ 32
InRange (bitfield bits) = 1 + length bits < 2 ^ 32
InRange (request index begin len) = (index < 2 ^ 32) × (begin < 2 ^ 32) × (len < 2 ^ 32)
InRange (piece index begin block) =
    (index < 2 ^ 32) × (begin < 2 ^ 32) × (9 + length block < 2 ^ 32)
InRange (cancel index begin len) = (index < 2 ^ 32) × (begin < 2 ^ 32) × (len < 2 ^ 32)
InRange (port number) = number < 2 ^ 16
InRange (suggest_piece piece_index) = piece_index < 2 ^ 32
InRange (reject_request index begin len) = (index < 2 ^ 32) × (begin < 2 ^ 32) × (len < 2 ^ 32)
InRange (allowed_fast piece_index) = piece_index < 2 ^ 32
InRange (extended id payload) = 2 + length payload < 2 ^ 32
InRange (unknown id payload) = (has known_ids id ≡ false) × (1 + length payload < 2 ^ 32)
InRange _ = Unit

-- What stands behind the length in the encoding of a message.
unfoldable pub body : PeerMessage → List ℕ
unfolding encode
body m = drop 4 (encode m)

triple :
    (make : ℕ → ℕ → ℕ → PeerMessage) (a b c : ℕ)
    → (a < 2 ^ 32) × (b < 2 ^ 32) × (c < 2 ^ 32)
    → make
        (u32_at (u32_bytes a ++ u32_bytes b ++ u32_bytes c) 0)
        (u32_at (u32_bytes a ++ u32_bytes b ++ u32_bytes c) 4)
        (u32_at (u32_bytes a ++ u32_bytes b ++ u32_bytes c) 8)
      ≡ make a b c
triple make a b c (ha, hb, hc) = rw (u32_lem a ha, u32_lem b hb, u32_lem c hc) refl

enough : (n : ℕ) (xs : List ℕ) → n ≤ length xs → ltb (length xs) n ≡ false
enough n xs h = ground arith

framed :
    (n : ℕ) (rest : List ℕ)
    → n ≡ length rest
    → n < 2 ^ 32
    → (length rest < 2 ^ 32) × (u32_bytes n ++ rest ≡ u32_bytes (length rest) ++ rest)
framed n rest e l = (rw (sym e) l, ap (λ k. u32_bytes k ++ rest) e)

decode_body_unknown :
    (id : ℕ) (payload : List ℕ)
    → has known_ids id ≡ false
    → decode_body id payload ≡ ok (unknown id payload)
unfolding decode_body
decode_body_unknown id payload h = ground (arith, h)

-- Decoding gives back every message whose numbers are in range.
pub decode-body : (m : PeerMessage) → InRange m → decode (body m) ≡ ok m
unfolding decode decode_body body encode
decode-body keep_alive r = refl
decode-body choke r = refl
decode-body unchoke r = refl
decode-body interested r = refl
decode-body not_interested r = refl
decode-body (have piece_index) r = rw (u32_lem piece_index r) refl
decode-body (bitfield bits) r = refl
decode-body (request index begin len) r = ap ok (triple request index begin len r)
decode-body (piece index begin block) (ri, rb, rl) =
    let long = enough 8 (u32_bytes index ++ u32_bytes begin ++ block) (omega arith) in
    rw (long, u32_lem index ri, u32_lem begin rb) refl
decode-body (cancel index begin len) r = ap ok (triple cancel index begin len r)
decode-body (port number) r = rw (u16_lem number r) refl
decode-body (suggest_piece piece_index) r = rw (u32_lem piece_index r) refl
decode-body have_all r = refl
decode-body have_none r = refl
decode-body (reject_request index begin len) r = ap ok (triple reject_request index begin len r)
decode-body (allowed_fast piece_index) r = rw (u32_lem piece_index r) refl
decode-body (extended id payload) r =
    let long = enough 1 (id ∷ payload) (omega arith) in rw long refl
decode-body (unknown id payload) (r, _) = decode_body_unknown id payload r

-- The length written before a message is the length of what stands behind it.
pub encode_frames :
    (m : PeerMessage)
    → InRange m
    → (length (body m) < 2 ^ 32) × (encode m ≡ u32_bytes (length (body m)) ++ body m)
unfolding body encode
encode_frames (bitfield bits) r = framed (1 + length bits) (5 ∷ bits) (omega arith) r
encode_frames (piece index begin block) (ri, rb, rl) =
    framed (9 + length block) (7 ∷ u32_bytes index ++ u32_bytes begin ++ block) (omega arith) rl
encode_frames (extended id payload) r =
    framed (2 + length payload) (20 ∷ id ∷ payload) (omega arith) r
encode_frames (unknown id payload) (r, l) =
    framed (1 + length payload) (id ∷ payload) (omega arith) l
encode_frames _ r = (omega arith, refl)

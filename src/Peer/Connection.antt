-- ===== src/Peer/Connection.antt =====
-- src/torrent/peer.rs: `PeerConnection`, what it sends and receives and what a message does to it.
-- The stream of a connection is what the peer sent and is not read yet, and what was written; an
-- error of the stream, a timeout included, is a failed read or write. A failed read leaves nothing
-- to read. The counters and times that no operation here reads are left out.
use gosh_dl.Base.{
  ℕ, ◌+◌, ◌-◌, ◌*◌, ◌/◌, ◌%◌, ◌^◌, min, max, Bool, true, false, List, [], ◌∷◌, ◌++◌, Option, none,
  some, if◌then◌else◌, ◌==◌, ltb, leb, length, get_elem?, get_or, set, take, drop, replicate, ◌≡◌,
  refl, ap, sym, ◌∙◌, arith, length-append, take-append, drop-append,
}
use gosh_dl.Base.Result.{Result, ok, failed, out_of_fuel}
use gosh_dl.Peer.Message.{PeerMessage, encode, decode, u32_at}

pub data ConnectionState : Type 0 where
  connecting handshaking connected disconnected : ConnectionState

pub record PeerConnection : Type 0 where
  pub incoming : List ℕ
  pub outgoing : List ℕ
  pub writable : Bool
  pub info_hash : List ℕ
  pub our_peer_id : List ℕ
  pub peer_id : Option (List ℕ)
  pub reserved : List ℕ
  pub peer_reserved : List ℕ
  pub connection_state : ConnectionState
  pub am_choking : Bool
  pub am_interested : Bool
  pub peer_choking : Bool
  pub peer_interested : Bool
  pub peer_pieces : List Bool
  pub num_pieces : ℕ
  pub uploaded : ℕ
  pub downloaded : ℕ

-- Bit 20 from the right is the extension protocol, bit 2 the fast extension.
abbrev pub with_extensions : List ℕ
with_extensions = 0 ∷ 0 ∷ 0 ∷ 0 ∷ 0 ∷ 16 ∷ 0 ∷ 4 ∷ []

abbrev pub supports_extension_protocol : List ℕ → Bool
supports_extension_protocol reserved = get_or reserved 5 0 / 2 ^ 4 % 2 == 1

abbrev pub supports_dht : List ℕ → Bool
supports_dht reserved = get_or reserved 7 0 % 2 == 1

abbrev pub supports_fast : List ℕ → Bool
supports_fast reserved = get_or reserved 7 0 / 2 ^ 2 % 2 == 1

abbrev pub new : List ℕ → List ℕ → ℕ → PeerConnection
new info_hash our_peer_id num_pieces = record {
  incoming = [];
  outgoing = [];
  writable = true;
  info_hash = info_hash;
  our_peer_id = our_peer_id;
  peer_id = none;
  reserved = with_extensions;
  peer_reserved = replicate 8 0;
  connection_state = connecting;
  am_choking = true;
  am_interested = false;
  peer_choking = true;
  peer_interested = false;
  peer_pieces = replicate num_pieces false;
  num_pieces = num_pieces;
  uploaded = 0;
  downloaded = 0;
}

abbrev pub bytes_of_bits : ℕ → ℕ
bytes_of_bits n = (n + 7) / 8

-- `saturating_add` stops at the largest usize.
unfoldable pub max_message_size : ℕ → ℕ
max_message_size num_pieces = max (32 * 1024) (min (bytes_of_bits num_pieces + 5) (2 ^ 64 - 1))

unfoldable pub bit_set : ℕ → ℕ → Bool
bit_set byte bit = byte / 2 ^ (7 - bit) % 2 == 1

unfoldable pub copy_bits : ℕ → ℕ → ℕ → List ℕ → List Bool → List Bool
copy_bits num i byte [] pieces = pieces
copy_bits num i byte (bit ∷ bits) pieces =
    copy_bits num i byte bits
      (if ltb (i * 8 + bit) num then set pieces (i * 8 + bit) (bit_set byte bit) else pieces)

unfoldable pub copy_bytes : ℕ → ℕ → List ℕ → List Bool → List Bool
copy_bytes num i [] pieces = pieces
copy_bytes num i (byte ∷ bytes) pieces =
    copy_bytes num (i + 1) bytes (copy_bits num i byte (0 ∷ 1 ∷ 2 ∷ 3 ∷ 4 ∷ 5 ∷ 6 ∷ 7 ∷ []) pieces)

unfoldable pub handle_message : PeerMessage → PeerConnection → PeerConnection
handle_message PeerMessage.choke c = record c { peer_choking = true }
handle_message PeerMessage.unchoke c = record c { peer_choking = false }
handle_message PeerMessage.interested c = record c { peer_interested = true }
handle_message PeerMessage.not_interested c = record c { peer_interested = false }
handle_message (PeerMessage.have piece_index) c =
    if ltb piece_index c.num_pieces
    then record c { peer_pieces = set c.peer_pieces piece_index true }
    else c
handle_message (PeerMessage.bitfield bits) c = record c {
  peer_pieces =
      copy_bytes c.num_pieces 0 (take (min (bytes_of_bits c.num_pieces) (length bits)) bits)
        c.peer_pieces;
}
handle_message (PeerMessage.piece index begin block) c = record c {
  downloaded = c.downloaded + length block;
}
handle_message PeerMessage.have_all c = record c {
  peer_pieces = replicate (length c.peer_pieces) true;
}
handle_message PeerMessage.have_none c = record c {
  peer_pieces = replicate (length c.peer_pieces) false;
}
handle_message _ c = c

unfoldable pub read_exact : ℕ → PeerConnection → Option (List ℕ) × PeerConnection
read_exact n c =
    if leb n (length c.incoming)
    then (some (take n c.incoming), record c { incoming = drop n c.incoming })
    else (none, record c { incoming = [] })

abbrev pub handle_decoded :
    Result PeerMessage → PeerConnection → Result PeerMessage × PeerConnection
handle_decoded (ok msg) c = (ok msg, handle_message msg c)
handle_decoded failed c = (failed, c)
handle_decoded out_of_fuel c = (out_of_fuel, c)

abbrev pub handle_body : List ℕ → PeerConnection → Result PeerMessage × PeerConnection
handle_body bytes c = handle_decoded (decode bytes) c

abbrev pub handle_read : Option (List ℕ) → PeerConnection → Result PeerMessage × PeerConnection
handle_read none c = (failed, c)
handle_read (some bytes) c = handle_body bytes c

unfoldable pub recv_body : ℕ → PeerConnection → Result PeerMessage × PeerConnection
recv_body len c =
    if len == 0
    then (ok PeerMessage.keep_alive, c)
    else if ltb (max_message_size c.num_pieces) len
    then (failed, c)
    else (let (bytes, c') = read_exact len c in handle_read bytes c')

abbrev pub recv_prefix : Option (List ℕ) → PeerConnection → Result PeerMessage × PeerConnection
recv_prefix none c = (failed, c)
recv_prefix (some prefix) c = recv_body (u32_at prefix 0) c

unfoldable pub recv : PeerConnection → Result PeerMessage × PeerConnection
recv c = let (bytes, c') = read_exact 4 c in recv_prefix bytes c'

abbrev pub block_bytes : PeerMessage → ℕ
block_bytes (PeerMessage.piece index begin block) = length block
block_bytes _ = 0

-- Whether the message was written, and the connection after it.
unfoldable pub send : PeerMessage → PeerConnection → Bool × PeerConnection
send msg c =
    if c.writable
    then (
      true,
      record c { outgoing = c.outgoing ++ encode msg; uploaded = c.uploaded + block_bytes msg },
    )
    else (false, c)

unfoldable pub choke : PeerConnection → Bool × PeerConnection
choke c = send PeerMessage.choke (record c { am_choking = true })

unfoldable pub unchoke : PeerConnection → Bool × PeerConnection
unchoke c = send PeerMessage.unchoke (record c { am_choking = false })

unfoldable pub interested : PeerConnection → Bool × PeerConnection
interested c = send PeerMessage.interested (record c { am_interested = true })

unfoldable pub not_interested : PeerConnection → Bool × PeerConnection
not_interested c = send PeerMessage.not_interested (record c { am_interested = false })

abbrev pub peer_has_piece : PeerConnection → ℕ → Bool
peer_has_piece c index = elim (get_elem? c.peer_pieces index) [ none ↦ false | some b ↦ b ]

-- Bytes that the peer sent first are what `read_exact` gives.
pub read_exact-append :
    (n : ℕ) (xs rest : List ℕ) (c : PeerConnection)
    → length xs ≡ n
    → c.incoming ≡ xs ++ rest
    → read_exact n c ≡ (some xs, record c { incoming = rest })
unfolding read_exact
read_exact-append n xs rest c e h =
    let enough : leb n (length c.incoming) ≡ true =
      ground (arith, ap length h, length-append xs rest) in
    let read : take n c.incoming ≡ xs =
      ap (take n) h ∙ ap (λ k. take k (xs ++ rest)) (sym e) ∙ take-append xs rest in
    let left : drop n c.incoming ≡ rest =
      ap (drop n) h ∙ ap (λ k. drop k (xs ++ rest)) (sym e) ∙ drop-append xs rest in
    rw (enough, read, left) refl

-- ===== src/Peer/Pieces.antt =====
-- src/torrent/peer.rs: the pieces that a connection takes its peer to have.
use gosh_dl.Base.{
  ℕ, zero, suc, ◌+◌, ◌-◌, ◌^◌, leb, ◌*◌, ◌/◌, ◌%◌, ◌<◌, ◌≡◌, refl, ap, sym, ◌∙◌, ◌≢◌, Bool, true,
  false, ◌&&◌, List, [], ◌∷◌, Option, none, some, arith, if◌then◌else◌, ◌==◌, ltb, length,
  get_elem?, set, has, All, inl, inr, Bool-cases, lt→ltb, length-set, length-replicate,
  get_elem?-set_self, get_elem?-set_ne, get_elem?-replicate, get_elem?-take, take-min,
}
use gosh_dl.Peer.Message.{PeerMessage}
use gosh_dl.Peer.Connection.{
  PeerConnection, bit_set, copy_bits, copy_bytes, handle_message, bytes_of_bits,
}

length-copy_bits :
    (num i byte : ℕ) (bits : List ℕ) (pieces : List Bool)
    → length (copy_bits num i byte bits pieces) ≡ length pieces
unfolding copy_bits
length-copy_bits num i byte [] pieces = refl
length-copy_bits num i byte (bit ∷ bits) pieces = elim (Bool-cases (ltb (i * 8 + bit) num)) [
  | inl h ↦ rw h (length-copy_bits num i byte bits _ ∙ length-set pieces _ _)
  | inr h ↦ rw h (length-copy_bits num i byte bits pieces)
]

length-copy_bytes :
    (num i : ℕ) (bytes : List ℕ) (pieces : List Bool)
    → length (copy_bytes num i bytes pieces) ≡ length pieces
unfolding copy_bytes
length-copy_bytes num i [] pieces = refl
length-copy_bytes num i (byte ∷ bytes) pieces =
    length-copy_bytes num (i + 1) bytes _ ∙ length-copy_bits num i byte _ pieces

-- There is one mark for each piece of the torrent.
abbrev pub IsMarked : PeerConnection → Type 0
IsMarked c = length c.peer_pieces ≡ c.num_pieces

pub num_pieces-handle_message :
    (m : PeerMessage) (c : PeerConnection) → (handle_message m c).num_pieces ≡ c.num_pieces
unfolding handle_message
num_pieces-handle_message (PeerMessage.have piece_index) c =
    elim (Bool-cases (ltb piece_index c.num_pieces)) [ inl lt ↦ rw lt refl | inr ge ↦ rw ge refl ]
num_pieces-handle_message _ c = refl

length-handle_message :
    (m : PeerMessage) (c : PeerConnection)
    → length (handle_message m c).peer_pieces ≡ length c.peer_pieces
unfolding handle_message
length-handle_message (PeerMessage.have piece_index) c =
    elim (Bool-cases (ltb piece_index c.num_pieces)) [
      | inl lt ↦ rw lt (length-set c.peer_pieces piece_index true)
      | inr ge ↦ rw ge refl
    ]
length-handle_message (PeerMessage.bitfield bits) c =
    length-copy_bytes c.num_pieces 0 _ c.peer_pieces
length-handle_message PeerMessage.have_all c = length-replicate _ true
length-handle_message PeerMessage.have_none c = length-replicate _ false
length-handle_message _ c = refl

-- Every message leaves one mark for each piece of the torrent.
pub handle_message-IsMarked :
    (m : PeerMessage) (c : PeerConnection) → IsMarked c → IsMarked (handle_message m c)
handle_message-IsMarked m c h = length-handle_message m c ∙ h ∙ sym (num_pieces-handle_message m c)

not_here :
    (i bit j : ℕ) (bits : List ℕ)
    → ((j / 8 == i) && has (bit ∷ bits) (j % 8)) ≡ false
    → bit < 8
    → (i * 8 + bit ≢ j) × (((j / 8 == i) && has bits (j % 8)) ≡ false)
not_here i bit j bits h b = (λ e. ground (arith, h), ground (arith, h))

-- The bits of a byte that do not reach a mark leave it.
copy_bits_miss :
    (num i byte j : ℕ) (bits : List ℕ) (pieces : List Bool)
    → All (λ bit. bit < 8) bits
    → ((j / 8 == i) && has bits (j % 8)) ≡ false
    → get_elem? (copy_bits num i byte bits pieces) j ≡ get_elem? pieces j
unfolding copy_bits
copy_bits_miss num i byte j [] pieces b m = refl
copy_bits_miss num i byte j (bit ∷ bits) pieces (b, bs) m =
    let (ne, m') = not_here i bit j bits m b in
    elim (Bool-cases (ltb (i * 8 + bit) num)) [
      | inl lt ↦ rw lt (
          copy_bits_miss num i byte j bits (set pieces (i * 8 + bit) (bit_set byte bit)) bs m'
          ∙ get_elem?-set_ne pieces (i * 8 + bit) j (bit_set byte bit) ne)
      | inr ge ↦ rw ge (copy_bits_miss num i byte j bits pieces bs m')
    ]

length-marked :
    (b : Bool) (i : ℕ) (v : Bool) (pieces : List Bool)
    → length (if b then set pieces i v else pieces) ≡ length pieces
length-marked true i v pieces = length-set pieces i v
length-marked false i v pieces = refl

here_set :
    (num i byte bit j : ℕ) (pieces : List Bool)
    → length pieces ≡ num
    → j < num
    → bit ≡ j % 8
    → i * 8 + bit ≡ j
    → get_elem?
        (if ltb (i * 8 + bit) num then set pieces (i * 8 + bit) (bit_set byte bit) else pieces)
        j
      ≡ some (bit_set byte (j % 8))
here_set num i byte bit j pieces e l q p =
    let reached = lt→ltb j num l in
    rw (p, reached, q) (get_elem?-set_self pieces j _ (omega (arith, e)))

copy_bits_hit :
    (num i byte j : ℕ) (bits : List ℕ) (pieces : List Bool)
    → All (λ bit. bit < 8) bits
    → length pieces ≡ num
    → j < num
    → j / 8 ≡ i
    → has bits (j % 8) ≡ true
    → get_elem? (copy_bits num i byte bits pieces) j ≡ some (bit_set byte (j % 8))
unfolding copy_bits
copy_bits_hit num i byte j [] pieces b e l q h = absurd cc
copy_bits_hit num i byte j (bit ∷ bits) pieces (b, bs) e l q h =
    elim (Bool-cases (has bits (j % 8))) [
      | inl later ↦
          copy_bits_hit num i byte j bits _ bs
            (length-marked (ltb (i * 8 + bit) num) (i * 8 + bit) (bit_set byte bit) pieces ∙ e) l q
            later
      | inr last ↦
          copy_bits_miss num i byte j bits _ bs (ground (arith, last))
          ∙ here_set num i byte bit j pieces e l (ground (arith, h, last))
              (ground (arith, h, last, q))
    ]

-- The pieces of one byte.
abbrev all_bits : List ℕ
all_bits = 0 ∷ 1 ∷ 2 ∷ 3 ∷ 4 ∷ 5 ∷ 6 ∷ 7 ∷ []

all_bits_lt : All (λ bit. bit < 8) all_bits
all_bits_lt = (
  ground arith,
  (
    ground arith,
    (
      ground arith,
      (ground arith, (ground arith, (ground arith, (ground arith, (ground arith, tt))))),
    ),
  ),
)

has_bit : (k : ℕ) → k < 8 → has all_bits k ≡ true
has_bit k h = ground arith

copy_bytes_before :
    (num i j : ℕ) (bytes : List ℕ) (pieces : List Bool)
    → j / 8 < i
    → get_elem? (copy_bytes num i bytes pieces) j ≡ get_elem? pieces j
unfolding copy_bytes
copy_bytes_before num i j [] pieces h = refl
copy_bytes_before num i j (byte ∷ bytes) pieces h =
    copy_bytes_before num (i + 1) j bytes _ (omega arith)
    ∙ copy_bits_miss num i byte j all_bits pieces all_bits_lt (ground arith)

-- Whether a byte, of which the higher bits do not count, has the bit: bit 0 stands for 128, bit 1 for 64,
-- and so on.
abbrev pub counts : ℕ → ℕ → Bool
counts byte bit = leb (2 ^ (7 - bit)) (byte % 2 ^ (8 - bit))

-- The mark of a piece behind its byte of a bitfield, if the bitfield reaches it.
unfoldable pub mark_from : Option ℕ → ℕ → Option Bool → Option Bool
mark_from none bit old = old
mark_from (some byte) bit old = some (counts byte bit)

bit_set-counts : (byte bit : ℕ) → bit < 8 → bit_set byte bit ≡ counts byte bit
unfolding bit_set
bit_set-counts byte zero h = ground arith
bit_set-counts byte (suc zero) h = ground arith
bit_set-counts byte (suc (suc zero)) h = ground arith
bit_set-counts byte (suc (suc (suc zero))) h = ground arith
bit_set-counts byte (suc (suc (suc (suc zero)))) h = ground arith
bit_set-counts byte (suc (suc (suc (suc (suc zero))))) h = ground arith
bit_set-counts byte (suc (suc (suc (suc (suc (suc zero)))))) h = ground arith
bit_set-counts byte (suc (suc (suc (suc (suc (suc (suc zero))))))) h = ground arith
bit_set-counts byte (suc (suc (suc (suc (suc (suc (suc (suc bit)))))))) h = absurd (omega arith)

copy_bytes_lem :
    (num i j k : ℕ) (bytes : List ℕ) (pieces : List Bool)
    → length pieces ≡ num
    → j < num
    → j / 8 ≡ i + k
    → get_elem? (copy_bytes num i bytes pieces) j
      ≡ mark_from (get_elem? bytes k) (j % 8) (get_elem? pieces j)
unfolding copy_bytes mark_from
copy_bytes_lem num i j k [] pieces e l q = refl
copy_bytes_lem num i j zero (byte ∷ bytes) pieces e l q =
    copy_bytes_before num (i + 1) j bytes _ (omega arith)
    ∙ copy_bits_hit num i byte j all_bits pieces all_bits_lt e l (omega arith)
        (has_bit (j % 8) (omega arith))
    ∙ ap some (bit_set-counts byte (j % 8) (omega arith))
copy_bytes_lem num i j (suc k) (byte ∷ bytes) pieces e l q =
    copy_bytes_lem num (i + 1) j k bytes _ (length-copy_bits num i byte all_bits pieces ∙ e) l
      (omega arith)
    ∙ ap (mark_from (get_elem? bytes k) (j % 8))
        (copy_bits_miss num i byte j all_bits pieces all_bits_lt (ground arith))

set_mark :
    (pieces : List Bool) (i j : ℕ)
    → i < length pieces
    → get_elem? (set pieces i true) j ≡ (if i == j then some true else get_elem? pieces j)
set_mark pieces i j l = elim (Bool-cases (i == j)) [
  | inl e ↦
      let same : i ≡ j = ground (arith, e) in rw (e, sym same) (get_elem?-set_self pieces i true l)
  | inr ne ↦ rw ne (get_elem?-set_ne pieces i j true (λ e. ground (arith, ne)))
]

-- The mark that a message leaves of piece j: what the message says of it, if it does.
unfoldable pub mark_after : PeerMessage → ℕ → Option Bool → Option Bool
mark_after (PeerMessage.have piece_index) j old = if piece_index == j then some true else old
mark_after (PeerMessage.bitfield bits) j old = mark_from (get_elem? bits (j / 8)) (j % 8) old
mark_after PeerMessage.have_all j old = some true
mark_after PeerMessage.have_none j old = some false
mark_after _ j old = old

-- A message leaves the mark of every piece of the torrent as the message says: the piece of a
-- `have`, the bit of a bitfield, which counts bits from the highest of each byte and may be too
-- short or too long, or all or none; it says nothing of the other pieces.
pub handle_message_marks :
    (m : PeerMessage) (c : PeerConnection) (j : ℕ)
    → IsMarked c
    → j < c.num_pieces
    → get_elem? (handle_message m c).peer_pieces j ≡ mark_after m j (get_elem? c.peer_pieces j)
unfolding handle_message mark_after
handle_message_marks (PeerMessage.have piece_index) c j h l =
    elim (Bool-cases (ltb piece_index c.num_pieces)) [
      | inl lt ↦ rw lt (set_mark c.peer_pieces piece_index j (ground (arith, lt, h)))
      | inr ge ↦ let other : (piece_index == j) ≡ false = ground (arith, ge) in rw (ge, other) refl
    ]
handle_message_marks (PeerMessage.bitfield bits) c j h l =
    copy_bytes_lem c.num_pieces 0 j (j / 8) _ c.peer_pieces h l (omega arith)
    ∙ ap (λ o. mark_from o (j % 8) (get_elem? c.peer_pieces j))
        (ap (λ bytes. get_elem? bytes (j / 8)) (take-min (bytes_of_bits c.num_pieces) _ bits refl)
          ∙ get_elem?-take (bytes_of_bits c.num_pieces) (j / 8) bits (omega arith))
handle_message_marks PeerMessage.have_all c j h l =
    get_elem?-replicate (length c.peer_pieces) j true (omega (arith, h))
handle_message_marks PeerMessage.have_none c j h l =
    get_elem?-replicate (length c.peer_pieces) j false (omega (arith, h))
handle_message_marks _ c j h l = refl

-- ===== src/Metadata.antt =====
-- src/torrent/metadata.rs: the exchange of the metadata of a magnet link. SHA-1 is an argument; a
-- message is processed with no other call between the locks that it takes; an
-- `Instant` is a number of milliseconds; errors are of the one kind `MetadataError`, so `failed`
-- stands for them.
pub mod Message
pub mod Gather
pub mod Whole
pub mod Wedge
mod Tests
use gosh_dl.Base.{
  ℕ, zero, suc, ◌+◌, ◌-◌, ◌*◌, ◌/◌, ◌%◌, Bool, true, false, not, ◌&&◌, ◌||◌, List, [], ◌∷◌, ◌++◌,
  Option, none, some, if◌then◌else◌, ◌==◌, ltb, leb, length, take, keep, lookup, insert, remove,
  contains, same_bytes,
}
use gosh_dl.Base.Result.{Result, ok, failed}

abbrev pub metadata_piece_size : ℕ
metadata_piece_size = 16 * 1024

abbrev pub max_metadata_size : ℕ
max_metadata_size = 16 * 1024 * 1024

pub data MetadataMessageType : Type 0 where
  request data_piece reject : MetadataMessageType

pub record MetadataMessage : Type 0 where
  pub msg_type : MetadataMessageType
  pub piece : ℕ
  pub total_size : Option ℕ
  pub piece_data : Option (List ℕ)

abbrev pub request_message : ℕ → MetadataMessage
request_message piece = record {
  msg_type = request;
  piece = piece;
  total_size = none;
  piece_data = none;
}

abbrev pub data_message : ℕ → ℕ → List ℕ → MetadataMessage
data_message piece total_size bytes = record {
  msg_type = data_piece;
  piece = piece;
  total_size = some total_size;
  piece_data = some bytes;
}

abbrev pub reject_message : ℕ → MetadataMessage
reject_message piece = record {
  msg_type = reject;
  piece = piece;
  total_size = none;
  piece_data = none;
}

pub record MetadataFetcher : Type 0 where
  pub info_hash : List ℕ
  pub known_size : Option ℕ
  pub pieces : List (ℕ × List ℕ)
  pub pending_requests : List (ℕ × ℕ)
  pub metadata : Option (List ℕ)

abbrev pub new : List ℕ → MetadataFetcher
new info_hash = record {
  info_hash = info_hash;
  known_size = none;
  pieces = [];
  pending_requests = [];
  metadata = none;
}

-- `div_ceil`.
abbrev pub pieces_of : ℕ → ℕ
pieces_of size = (size + (metadata_piece_size - 1)) / metadata_piece_size

-- The indices from i on, of which `left` are left.
abbrev pub indices : ℕ → ℕ → List ℕ
indices i zero = []
indices i (suc left) = i ∷ indices (i + 1) left

abbrev pub is_pending : ℕ → Option ℕ → Bool
is_pending now none = false
is_pending now (some since) = ltb (now - since) 30000

unfoldable pub get_needed_pieces : ℕ → MetadataFetcher → List ℕ
get_needed_pieces now f = elim f.known_size [
  | none ↦ 0 ∷ []
  | some size ↦
      keep (λ i. not (contains i f.pieces) && not (is_pending now (lookup i f.pending_requests)))
        (indices 0 (pieces_of size))
]

abbrev pub mark_requested : ℕ → ℕ → MetadataFetcher → MetadataFetcher
mark_requested now piece f = record f { pending_requests = insert piece now f.pending_requests }

-- The pieces from i on, one after the other, if none is missing.
unfoldable pub assembled : ℕ → ℕ → List (ℕ × List ℕ) → Option (List ℕ)
assembled i zero pieces = some []
assembled i (suc left) pieces = elim (lookup i pieces) [
  | none ↦ none
  | some piece ↦ elim (assembled (i + 1) left pieces) [
    | none ↦ none
    | some rest ↦ some (piece ++ rest)
  ]
]

abbrev pub expected_size : ℕ → ℕ → ℕ
expected_size total_size piece =
    if ltb piece (total_size / metadata_piece_size)
    then metadata_piece_size
    else total_size % metadata_piece_size

-- What is wrong with a piece, apart from a size that conflicts with the one known.
abbrev pub is_refused : ℕ → ℕ → List ℕ → Bool
is_refused total_size piece bytes =
    (total_size == 0)
    || (ltb max_metadata_size total_size
        || (leb (pieces_of total_size) piece
            || (not (length bytes == expected_size total_size piece)
                && not (expected_size total_size piece == 0))))

abbrev pub agrees : Option ℕ → ℕ → Bool
agrees none total_size = true
agrees (some known) total_size = known == total_size

module _ (sha1 : List ℕ → List ℕ) where
  -- What is done with the assembled bytes: kept if they hash to the info hash, or all is forgotten.
  abbrev pub verify : List ℕ → MetadataFetcher → Bool × MetadataFetcher
  verify bytes f =
      if same_bytes (sha1 bytes) f.info_hash
      then (true, record f { metadata = some bytes })
      else (false, record f { pieces = []; known_size = none })

  abbrev pub verify_assembled : ℕ → Option (List ℕ) → MetadataFetcher → Bool × MetadataFetcher
  verify_assembled total_size none f = (false, f)
  verify_assembled total_size (some bytes) f = verify (take total_size bytes) f

  unfoldable pub assemble_and_verify : ℕ → MetadataFetcher → Bool × MetadataFetcher
  unfolding assembled
  assemble_and_verify total_size f =
      verify_assembled total_size (assembled 0 (pieces_of total_size) f.pieces) f

  -- A piece that passed the checks is stored, and the metadata assembled if it was the last.
  unfoldable pub store_piece : ℕ → ℕ → List ℕ → MetadataFetcher → Bool × MetadataFetcher
  unfolding assemble_and_verify
  store_piece total_size piece bytes f =
      let stored = record f {
        known_size = some total_size;
        pieces = insert piece bytes f.pieces;
        pending_requests = remove piece f.pending_requests;
      } in
      if leb (pieces_of total_size) (length stored.pieces)
      then assemble_and_verify total_size stored
      else (false, stored)

  unfoldable pub process_data :
      Option ℕ → Option (List ℕ) → ℕ → MetadataFetcher → Result Bool × MetadataFetcher
  unfolding store_piece
  process_data none bytes piece f = (failed, f)
  process_data (some total_size) none piece f = (failed, f)
  process_data (some total_size) (some bytes) piece f =
      if is_refused total_size piece bytes
      then (failed, f)
      else if agrees f.known_size total_size
      then (let (complete, after) = store_piece total_size piece bytes f in (ok complete, after))
      else (failed, f)

  -- Once the metadata is there, nothing more is done.
  abbrev pub unless_done :
      Option (List ℕ)
      → Result Bool × MetadataFetcher
      → MetadataFetcher
      → Result Bool × MetadataFetcher
  unless_done none result f = result
  unless_done (some bytes) result f = (ok false, f)

  unfoldable pub process_typed :
      MetadataMessageType → MetadataMessage → MetadataFetcher → Result Bool × MetadataFetcher
  unfolding process_data
  process_typed request msg f = (ok false, f)
  process_typed reject msg f =
      (ok false, record f { pending_requests = remove msg.piece f.pending_requests })
  process_typed data_piece msg f =
      unless_done f.metadata (process_data msg.total_size msg.piece_data msg.piece f) f

  unfoldable pub process_message : MetadataMessage → MetadataFetcher → Result Bool × MetadataFetcher
  unfolding process_typed
  process_message msg f = process_typed msg.msg_type msg f

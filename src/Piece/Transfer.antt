-- ===== src/Piece/Transfer.antt =====
-- `PieceManager` of src/torrent/piece.rs: starting, filling, verifying and storing pieces, and what is
-- asked of peers. Disk accesses are the list of file ranges that a call touches, in order, and whether
-- they succeeded is an argument.
mod Extents
mod Counts
mod Endgame
mod Tests
use gosh_dl.Base.{
  same_bytes, ℕ, zero, suc, ◌+◌, ◌-◌, ◌*◌, ◌/◌, ◌%◌, ◌^◌, ◌≡◌, Bool, true, false, not, ◌&&◌, ◌||◌,
  List, [], ◌∷◌, ◌++◌, map, Option, none, some, if◌then◌else◌, ◌==◌, ltb, leb, length, get_or, set,
  take, drop, replicate, min, max, lookup, insert, remove, contains, is_some, unwrap_or, count_of,
  keep,
}
use gosh_dl.Metainfo.{
  Info, Component, FileInfo, Segment, piece_length, piece_hash, files_for_piece, normal, prefix,
  root_dir, cur_dir, parent_dir,
}
use gosh_dl.Piece.Pending
use gosh_dl.Piece.Pending.{PendingPiece}
use gosh_dl.Piece.Manager.{
  PieceManager, Error, Outcome, ok, err, peer_protocol, invalid_torrent, io, bit, num_pieces,
  have_piece,
}

-- The piece is entered as in progress, over any piece of that index, and a copy is returned.
pub start_piece : ℕ → PieceManager → ℕ → PieceManager × Option PendingPiece
start_piece now m index = elim (piece_length m.info index) [
  | none ↦ (m, none)
  | some len ↦ (
    record m { pending = insert index (Pending.new now index len) m.pending },
    some (Pending.new now index len),
  )
]

pub add_block : ℕ → PieceManager → ℕ → ℕ → List ℕ → PieceManager × Outcome Bool
add_block now m index offset bytes = elim (lookup index m.pending) [
  | none ↦ (m, err peer_protocol)
  | some p ↦
      let (p', taken) = Pending.add_block now p offset bytes in
      (
        record m { pending = insert index p' m.pending },
        if taken then ok (Pending.is_complete p') else err peer_protocol,
      )
]

-- `validate_path_component` on each component: `..`, a root and a prefix are refused.
pub valid_path : List Component → Bool
valid_path [] = true
valid_path (parent_dir ∷ path) = false
valid_path (root_dir ∷ path) = false
valid_path (prefix ∷ path) = false
valid_path (cur_dir ∷ path) = valid_path path
valid_path (normal name ∷ path) = valid_path path

-- A range of one file, with the bytes that are written there.
pub record Write : Type 0 where
  pub file_idx : ℕ
  pub file_offset : ℕ
  pub bytes : List ℕ

path_of : Info → ℕ → List FileInfo → List Component
path_of info i [] = []
path_of info zero (file ∷ files) = file.path
path_of info (suc i) (file ∷ files) = path_of info i files

-- The paths that are checked before a file is opened. A call that fails gives no writes, though the
-- segments before the failure have reached the disk.
paths_ok : Info → ℕ → Bool
unfolding path_of valid_path
paths_ok info file_idx =
    valid_path info.name && (info.is_single_file || valid_path (path_of info file_idx info.files))

-- The loop of `write_piece` over the segments: each takes its share of the data.
pub writes : List Segment → List ℕ → List Write
writes [] bytes = []
writes (s ∷ segments) bytes =
    record { file_idx = s.file_idx; file_offset = s.file_offset; bytes = take s.length bytes }
    ∷ writes segments (drop s.length bytes)

all_paths_ok : Info → List Segment → Bool
unfolding paths_ok
all_paths_ok info [] = true
all_paths_ok info (s ∷ segments) = paths_ok info s.file_idx && all_paths_ok info segments

pub write_piece : Info → ℕ → List ℕ → Bool → Outcome (List Write)
unfolding writes all_paths_ok
write_piece info index bytes disk_ok =
    if not (all_paths_ok info (files_for_piece info index))
    then err invalid_torrent
    else if disk_ok
    then ok (writes (files_for_piece info index) bytes)
    else err io

-- The bookkeeping after a piece has been written: the bit, and the counters if it was still pending.
pub finish_piece : PieceManager → ℕ → ℕ → PieceManager
finish_piece m index size =
    let counted = contains index m.pending in
    record m {
      have = set m.have index true;
      pending = remove index m.pending;
      verified_count = if counted then (m.verified_count + 1) % 2 ^ 64 else m.verified_count;
      verified_bytes = if counted then (m.verified_bytes + size) % 2 ^ 64 else m.verified_bytes;
    }

-- `verify_and_save` with no other call between its steps: the state, the result, and what a writing that
-- succeeds has put on the disk.
pub verify_and_save :
    (List ℕ → List ℕ) → PieceManager → ℕ → Bool → PieceManager × Outcome Bool × List Write
unfolding finish_piece
verify_and_save sha1 m index disk_ok = elim (lookup index m.pending) [
  | none ↦ (m, ok false, [])
  | some p ↦ elim (Pending.piece_data p) [
    | none ↦ (m, err peer_protocol, [])
    | some bytes ↦ elim (piece_hash m.info index) [
      | none ↦ (m, err invalid_torrent, [])
      | some expected ↦
          if not (same_bytes (sha1 bytes) expected)
          then (record m { pending = remove index m.pending }, ok false, [])
          else elim (write_piece m.info index bytes disk_ok) [
            | err e ↦ (m, err e, [])
            | ok written ↦ (finish_piece m index (length bytes), ok true, written)
          ]
    ]
  ]
]

pub write_piece_from_webseed : PieceManager → ℕ → List ℕ → Bool → PieceManager × Outcome (Unit {0})
write_piece_from_webseed m index bytes disk_ok =
    if have_piece m index then (m, ok tt) else elim (write_piece m.info index bytes disk_ok) [
      | err e ↦ (m, err e)
      | ok _ ↦ (
        record m {
          have = set m.have index true;
          verified_count = (m.verified_count + 1) % 2 ^ 64;
          verified_bytes = (m.verified_bytes + length bytes) % 2 ^ 64;
        },
        ok tt,
      )
    ]

pub cancel_piece : PieceManager → ℕ → PieceManager
cancel_piece m index = record m { pending = remove index m.pending }

abbrev pub is_stale : ℕ → ℕ → PendingPiece → Bool
is_stale now timeout p = not (Pending.is_complete p) && ltb timeout (now - p.last_activity)

remove_all : List ℕ → List (ℕ × PendingPiece) → List (ℕ × PendingPiece)
remove_all [] pending = pending
remove_all (i ∷ is) pending = remove_all is (remove i pending)

pub cancel_stale_pieces : ℕ → ℕ → PieceManager → PieceManager × ℕ
unfolding remove_all
cancel_stale_pieces now timeout m =
    let stale = map (λ e. e.0) (keep (λ e. is_stale now timeout e.1) m.pending) in
    (record m { pending = remove_all stale m.pending }, length stale)

pub is_block_received : PieceManager → ℕ → ℕ → Bool
is_block_received m piece offset =
    if bit m.have piece
    then true
    else elim (lookup piece m.pending) [ none ↦ false | some p ↦ Pending.has_block_at p offset ]

pub mark_block_requested : PieceManager → ℕ → ℕ → ℕ → PieceManager
mark_block_requested m piece block_index peer_id = elim (lookup piece m.pending) [
  | none ↦ m
  | some p ↦ record m {
    pending = insert piece (Pending.mark_requested p block_index peer_id) m.pending;
  }
]

-- The pieces from number `i` on, `n` of them, that are not held.
pub missing_from : List Bool → ℕ → ℕ → List ℕ
missing_from have i zero = []
missing_from have i (suc n) =
    let rest = missing_from have (suc i) n in if bit have i then rest else i ∷ rest

pub endgame_pieces : PieceManager → List ℕ
unfolding missing_from
endgame_pieces m =
    let remaining = missing_from m.have 0 (num_pieces m) in
    if leb (length remaining) 10 then remaining else []

-- The count of wanted pieces that are held is complete: all pieces, or all that are wanted.
all_wanted_held : List Bool → List Bool → ℕ → ℕ → Bool
all_wanted_held wanted have i zero = true
all_wanted_held wanted have i (suc n) =
    let rest = all_wanted_held wanted have (suc i) n in
    if bit wanted i && not (bit have i) then false else rest

pub is_complete : PieceManager → Bool
unfolding all_wanted_held
is_complete m = elim m.wanted_pieces [
  | none ↦ count_of (λ b. b) m.have == num_pieces m
  | some wanted ↦ all_wanted_held wanted m.have 0 (num_pieces m)
]

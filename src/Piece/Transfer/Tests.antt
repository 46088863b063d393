-- ===== src/Piece/Transfer/Tests.antt =====
-- The piece manager of src/torrent/piece.rs at a concrete torrent of three pieces of 4 bytes: the first
-- is held, the second has arrived and is not verified, the third is missing.
use gosh_dl.Base.{
  some_inj, ap, ◌∙◌, ℕ, ◌+◌, ◌*◌, ◌≤◌, ◌≡◌, refl, ◌≢◌, ◌⊎◌, true, false, List, [], ◌∷◌, none, some,
  arith, length, set, lookup,
}
use gosh_dl.Metainfo.{piece_length, piece_hash, piece_range, files_for_piece, overlaps}
use gosh_dl.Metainfo.Tests.{two_file_info, two_file_info-IsLaidOut, two_files}
use gosh_dl.Piece.Pending
use gosh_dl.Piece.Pending.{PendingPiece, joined}
use gosh_dl.Piece.Manager.{
  PieceManager, ok, err, invalid_torrent, num_pieces, no_stream, is_piece_wanted, select_piece,
}
use gosh_dl.Piece.Manager.Selection.{IsCandidate, IsPreferred, select_piece_best}
use gosh_dl.Piece.Transfer.{
  verify_and_save, write_piece, write_piece_from_webseed, writes, all_paths_ok, paths_ok, path_of,
  valid_path, missing_from,
}
use gosh_dl.Piece.Transfer.Counts.{
  IsSized, IsSound, verify_and_save_sound, webseed_piece_counted_twice,
}
use gosh_dl.Piece.Transfer.Extents.{Lands, write_piece-Lands}

abbrev four : List ℕ
four = 20 ∷ 21 ∷ 22 ∷ 23 ∷ []

-- A hash function for the tests.
abbrev first_byte : List ℕ → List ℕ
first_byte [] = []
first_byte (x ∷ xs) = x ∷ []

abbrev arrived : PendingPiece
arrived = record {
  index = 1;
  length = 4;
  blocks = some four ∷ [];
  block_size = 16384;
  blocks_received = 1;
  started_at = 0;
  last_activity = 5;
  requested_blocks = [];
}

abbrev manager : PieceManager
manager = record {
  info = two_file_info;
  have = true ∷ false ∷ false ∷ [];
  pending = (1, arrived) ∷ [];
  verified_count = 1;
  verified_bytes = 4;
  piece_availability = 1 ∷ 2 ∷ 1 ∷ [];
  wanted_pieces = some (true ∷ true ∷ false ∷ []);
  sequential_mode = false;
  stream_position = no_stream;
}

four_writes :
    write_piece two_file_info 1 four true
    ≡ ok (
        record { file_idx = 0; file_offset = 4; bytes = 20 ∷ 21 ∷ [] }
        ∷ record { file_idx = 1; file_offset = 0; bytes = 22 ∷ 23 ∷ [] }
        ∷ [])
unfolding write_piece writes all_paths_ok paths_ok path_of valid_path files_for_piece overlaps
    piece_range
four_writes = refl

four_writable : write_piece two_file_info 1 four true ≢ err invalid_torrent
four_writable e = absurd (ground (arith, four_writes, e))

arrived-IsSound : IsSound first_byte manager 1
unfolding lookup Pending.piece_data Pending.is_complete joined piece_hash
arrived-IsSound = record {
  piece = arrived;
  bytes = four;
  pending = refl;
  complete = refl;
  hashed = refl;
  paths = four_writable;
}

four_length : piece_length two_file_info 1 ≡ some 4
unfolding piece_length piece_range
four_length = refl

arrived-IsSized : IsSized manager 1
unfolding lookup Pending.piece_data Pending.is_complete joined
arrived-IsSized p bytes e e' =
    let is_arrived : arrived ≡ p = some_inj e in
    let is_four : four ≡ bytes = some_inj (ap Pending.piece_data is_arrived ∙ e') in
    four_length ∙ ap (λ (xs : List ℕ). some (length xs)) is_four

verify_and_save_sound_example :
    let (after, result, written) = verify_and_save first_byte manager 1 true in
    ((result ≡ ok true)
      × ((p : PendingPiece) × (bytes : List ℕ) × (lookup 1 manager.pending ≡ some p)
          × (Pending.piece_data p ≡ some bytes)
          × (piece_hash two_file_info 1 ≡ some (first_byte bytes))
          × Lands two_files (1 * 4) written bytes (1 * 4 + length bytes))
      × (after.have ≡ set manager.have 1 true)
      × (lookup 1 after.pending ≡ none))
    ⊎ ((result ≢ ok true)
        × (written ≡ [])
        × (after.have ≡ manager.have)
        × (after.verified_count ≡ 1))
verify_and_save_sound_example =
    verify_and_save_sound first_byte manager 1 true two_file_info-IsLaidOut (omega arith)
      arrived-IsSized

webseed_piece_counted_twice_example :
    let m' = (write_piece_from_webseed manager 1 four true).0 in
    let m'' = (verify_and_save first_byte m' 1 true).0 in
    (m'.have ≡ set manager.have 1 true)
    × (m''.have ≡ set (set manager.have 1 true) 1 true)
    × (m''.verified_count ≡ 1 + 2)
    × (m''.verified_bytes ≡ 4 + 2 * 4)
unfolding arrived-IsSound
webseed_piece_counted_twice_example =
    webseed_piece_counted_twice first_byte manager 1 arrived-IsSound refl (omega arith)
      (omega arith)

select_piece_best_example :
    ((select_piece manager (true ∷ true ∷ true ∷ []) ≡ none)
      × ((j : ℕ) → ¬ IsCandidate manager (true ∷ true ∷ true ∷ []) j))
    ⊎ ((i : ℕ) × (select_piece manager (true ∷ true ∷ true ∷ []) ≡ some i)
        × IsCandidate manager (true ∷ true ∷ true ∷ []) i
        × ((j : ℕ) → IsCandidate manager (true ∷ true ∷ true ∷ []) j → IsPreferred manager i j))
select_piece_best_example = select_piece_best manager (true ∷ true ∷ true ∷ [])

write_piece-Lands_example :
    Lands two_files 4
      (record { file_idx = 0; file_offset = 4; bytes = 20 ∷ 21 ∷ [] }
        ∷ record { file_idx = 1; file_offset = 0; bytes = 22 ∷ 23 ∷ [] }
        ∷ [])
      four
      8
write_piece-Lands_example =
    write_piece-Lands two_file_info 1 four true _ two_file_info-IsLaidOut (omega arith) four_length
      four_writes

few_missing : length (missing_from manager.have 0 (num_pieces manager)) ≤ 10
unfolding missing_from
few_missing = omega arith

third_unwanted : is_piece_wanted manager 2 ≡ false
unfolding is_piece_wanted
third_unwanted = refl

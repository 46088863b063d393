-- ===== src/Piece/Selected.antt =====
-- `set_selected_files` of src/torrent/piece.rs: the pieces that a partial download wants.
pub mod Marks
use gosh_dl.Base.{
  ℕ, zero, suc, ◌+◌, ◌-◌, ◌/◌, ◌%◌, ◌^◌, Bool, true, false, ◌||◌, List, [], ◌∷◌, Option, none, some,
  if◌then◌else◌, ◌==◌, leb, length, get_elem?, set, replicate, min,
}
use gosh_dl.Metainfo.{Info, FileInfo}
use gosh_dl.Piece.Manager.{PieceManager, num_pieces}

-- Sets `n` bits from number `i` on.
pub mark : List Bool → ℕ → ℕ → List Bool
mark bits i zero = bits
mark bits i (suc n) = mark (set bits i true) (suc i) n

-- The first and the last piece of a file.
abbrev pub first_piece : Info → FileInfo → ℕ
first_piece info file = file.offset / info.piece_length

abbrev pub last_piece : Info → FileInfo → ℕ
last_piece info file =
    let file_end = (file.offset + file.length) % 2 ^ 64 in
    if file_end == 0 then first_piece info file else (file_end - 1) / info.piece_length

-- The loop over the selected files; an index out of range is skipped.
pub mark_files : Info → List Bool → List ℕ → List Bool
unfolding mark
mark_files info wanted [] = wanted
mark_files info wanted (file_idx ∷ indices) = elim (get_elem? info.files file_idx) [
  | none ↦ mark_files info wanted indices
  | some file ↦
      mark_files info
        (mark wanted (first_piece info file)
          (min (last_piece info file) (length info.pieces - 1) + 1 - first_piece info file))
        indices
]

pub set_selected_files : PieceManager → Option (List ℕ) → PieceManager
unfolding mark_files
set_selected_files m none = record m { wanted_pieces = none }
set_selected_files m (some []) = record m { wanted_pieces = none }
set_selected_files m (some (index ∷ indices)) =
    if (num_pieces m == 0) || (m.info.piece_length == 0)
    then record m { wanted_pieces = none }
    else record m {
      wanted_pieces = some (mark_files m.info (replicate (num_pieces m) false) (index ∷ indices));
    }

-- ===== src/Metainfo/Tests.antt =====
-- The layout of src/torrent/metainfo.rs at a concrete torrent: two files of 6 and 4 bytes, cut into
-- three pieces of 4 bytes.
use gosh_dl.Base.{ℕ, ◌≡◌, refl, false, List, [], ◌∷◌, some, arith}
use gosh_dl.Metainfo.{
  Component, normal, FileInfo, Info, IsLaidOut, parse_files, piece_range, files_for_piece, overlaps,
}
use gosh_dl.Metainfo.Cover.{Covers, files_for_piece-Covers}

abbrev path_a : List Component
path_a = normal (97 ∷ []) ∷ []

abbrev path_b : List Component
path_b = normal (98 ∷ []) ∷ []

abbrev pub two_files : List FileInfo
two_files =
    record { path = path_a; length = 6; offset = 0 }
    ∷ record { path = path_b; length = 4; offset = 6 }
    ∷ []

abbrev pub two_file_info : Info
two_file_info = record {
  name = normal (116 ∷ []) ∷ [];
  is_single_file = false;
  piece_length = 4;
  pieces = (10 ∷ []) ∷ (20 ∷ []) ∷ (30 ∷ []) ∷ [];
  files = two_files;
  total_size = 10;
}

pub two_file_info-IsLaidOut : IsLaidOut two_file_info
two_file_info-IsLaidOut = record {
  positive = omega arith;
  buffered = omega arith;
  counted = refl;
  contiguous = (refl, (refl, refl));
  small = omega arith;
}

parsed_two : parse_files 0 ((path_a, 6) ∷ (path_b, 4) ∷ []) ≡ some (two_files, 10)
unfolding parse_files
parsed_two = refl

-- The middle piece ends the first file and starts the second.
middle_piece :
    files_for_piece two_file_info 1
    ≡ record { file_idx = 0; file_offset = 4; length = 2 }
      ∷ record { file_idx = 1; file_offset = 0; length = 2 }
      ∷ []
unfolding files_for_piece overlaps piece_range
middle_piece = refl

files_for_piece-Covers_example :
    (start : ℕ) × (stop : ℕ) × (piece_range two_file_info 1 ≡ some (start, stop))
    × Covers two_files start (files_for_piece two_file_info 1) stop
files_for_piece-Covers_example =
    files_for_piece-Covers two_file_info 1 two_file_info-IsLaidOut (omega arith)

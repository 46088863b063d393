-- ===== src/Metainfo.antt =====
-- src/torrent/metainfo.rs: the layout of a torrent, that is the files one after the other, cut into
-- pieces. Sizes are u64, so sums are taken modulo 2 ^ 64.
pub mod Ranges
pub mod Cover
pub mod Tests
use gosh_dl.Base.{
  ℕ, suc, ◌+◌, ◌-◌, ◌*◌, ◌/◌, ◌%◌, ◌^◌, ◌≡◌, ◌≤◌, ◌<◌, Bool, true, false, ◌||◌, List, [], ◌∷◌,
  Option, none, some, if◌then◌else◌, ltb, leb, length, get_elem?, min, max,
}

-- A component of a `std::path::Path`; a normal one is its bytes.
pub data Component : Type 0 where
  prefix root_dir cur_dir parent_dir : Component
  normal : List ℕ → Component

pub record FileInfo : Type 0 where
  pub path : List Component
  pub length : ℕ
  pub offset : ℕ

-- A hash is its 20 bytes.
pub record Info : Type 0 where
  pub name : List Component
  pub is_single_file : Bool
  pub piece_length : ℕ
  pub pieces : List (List ℕ)
  pub files : List FileInfo
  pub total_size : ℕ

-- The loop of `parse_files` over the entries' paths and lengths; `none` is the overflow error.
pub parse_files : ℕ → List (List Component × ℕ) → Option (List FileInfo × ℕ)
parse_files offset [] = some ([], offset)
parse_files offset ((path, len) ∷ rest) =
    let parsed = parse_files (offset + len) rest in
    if ltb (offset + len) (2 ^ 64)
    then elim parsed [
      | none ↦ none
      | some (files, total) ↦
          some (record { path = path; length = len; offset = offset } ∷ files, total)
    ]
    else none

-- `u64::div_ceil`.
abbrev pub div_ceil : ℕ → ℕ → ℕ
div_ceil a b = if ltb 0 (a % b) then a / b + 1 else a / b

unfoldable pub piece_hash : Info → ℕ → Option (List ℕ)
piece_hash info index = get_elem? info.pieces index

unfoldable pub piece_range : Info → ℕ → Option (ℕ × ℕ)
piece_range info index =
    if leb (length info.pieces) index
    then none
    else some (
      (index * info.piece_length) % 2 ^ 64,
      min (((index * info.piece_length) % 2 ^ 64 + info.piece_length) % 2 ^ 64) info.total_size,
    )

unfoldable pub piece_length : Info → ℕ → Option ℕ
unfolding piece_range
piece_length info index = elim (piece_range info index) [
  | none ↦ none
  | some (start, stop) ↦ some ((stop + 2 ^ 64 - start) % 2 ^ 64)
]

pub record Segment : Type 0 where
  pub file_idx : ℕ
  pub file_offset : ℕ
  pub length : ℕ

-- The loop of `files_for_piece` over the files from number `i` on.
unfoldable pub overlaps : ℕ → ℕ → ℕ → List FileInfo → List Segment
overlaps start stop i [] = []
overlaps start stop i (file ∷ files) =
    let rest = overlaps start stop (suc i) files in
    if leb stop file.offset || leb ((file.offset + file.length) % 2 ^ 64) start
    then rest
    else record {
      file_idx = i;
      file_offset = max start file.offset - file.offset;
      length = min stop ((file.offset + file.length) % 2 ^ 64) - max start file.offset;
    }
      ∷ rest

unfoldable pub files_for_piece : Info → ℕ → List Segment
unfolding piece_range overlaps
files_for_piece info index = elim (piece_range info index) [
  | none ↦ []
  | some (start, stop) ↦ overlaps start stop 0 info.files
]

-- The files stand one after the other from `offset` to `total`.
abbrev pub Contiguous : ℕ → List FileInfo → ℕ → Type 0
Contiguous offset [] total = offset ≡ total
Contiguous offset (file ∷ files) total =
    (file.offset ≡ offset) × Contiguous (offset + file.length) files total

-- What `parse_info` has checked: the piece length's range and the number of pieces; the sizes leave
-- room for one more piece below 2 ^ 64.
pub record IsLaidOut (info : Info) : Type 0 where
  pub positive : 0 < info.piece_length
  pub buffered : info.piece_length ≤ 256 * 1024 * 1024
  pub counted : length info.pieces ≡ div_ceil info.total_size info.piece_length
  pub contiguous : Contiguous 0 info.files info.total_size
  pub small : info.total_size + info.piece_length < 2 ^ 64

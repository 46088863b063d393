-- ===== src/Metainfo/Ranges.antt =====
-- The pieces of src/torrent/metainfo.rs: their byte ranges follow one another from 0 to the total size.
use gosh_dl.Base.{
  ℕ, suc, ◌-◌, ◌*◌, ◌/◌, ◌%◌, ◌≡◌, ◌≤◌, ◌<◌, some, ltb, leb, ltb→lt, length, min, arith, Bool-cases,
  inl, inr,
}
use gosh_dl.Metainfo.{Info, IsLaidOut, div_ceil, piece_range, piece_length}

pub mul_mono : (a b c : ℕ) → a ≤ b → a * c ≤ b * c
mul_mono a b c h = grind arith

-- Division against a multiple.
pub div-le : (a b j : ℕ) → 0 < b → a < suc j * b → a / b ≤ j
div-le a b j h k = elim (Bool-cases (leb (a / b) j)) [
  | inl le ↦ ground arith
  | inr over ↦
      let scaled = mul_mono (suc j) (a / b) b (ground arith) in absurd (omega (arith, scaled))
]

pub le-div : (a b j : ℕ) → 0 < b → j * b ≤ a → j ≤ a / b
le-div a b j h k = elim (Bool-cases (leb j (a / b))) [
  | inl le ↦ ground arith
  | inr under ↦
      let scaled = mul_mono (suc (a / b)) j b (ground arith) in absurd (omega (arith, scaled))
]

pub ceil-lower : (a b : ℕ) → 0 < b → a ≤ div_ceil a b * b
ceil-lower a b h = grind arith

pub ceil-upper : (a b i : ℕ) → 0 < b → i < div_ceil a b → i * b < a
ceil-upper a b i h k = elim (Bool-cases (ltb 0 (a % b))) [
  | inl rest ↦
      let whole : i ≤ a / b = ground arith in
      let scaled = mul_mono i (a / b) b whole in omega (arith, ltb→lt 0 (a % b) rest, scaled)
  | inr even ↦
      let whole : suc i ≤ a / b = ground arith in
      let scaled = mul_mono (suc i) (a / b) b whole in omega (arith, scaled)
]

-- In a laid out torrent a piece's range starts at its index times the piece length, is not empty, and
-- ends at the next multiple or at the total size, whichever comes first; nothing wraps.
pub piece_range_lem :
    (info : Info) (i : ℕ)
    → IsLaidOut info
    → i < length info.pieces
    → (piece_range info i
        ≡ some (i * info.piece_length, min (suc i * info.piece_length) info.total_size))
      × (i * info.piece_length < min (suc i * info.piece_length) info.total_size)
unfolding piece_range
piece_range_lem info i w h =
    let below = ceil-upper info.total_size info.piece_length i w.positive (rw (← w.counted) h) in
    (ground (arith, below), omega (arith, below, w.positive))

-- The piece's length is that of its range: the piece length, or less for the last piece.
pub piece_length_lem :
    (info : Info) (i : ℕ)
    → IsLaidOut info
    → i < length info.pieces
    → piece_length info i
      ≡ some (min (suc i * info.piece_length) info.total_size - i * info.piece_length)
unfolding piece_length
piece_length_lem info i w h =
    let (range, nonempty) = piece_range_lem info i w h in
    rw (range, piece_length) (ground (arith, nonempty))

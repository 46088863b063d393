-- ===== src/Piece/Pending/Tests.antt =====
-- A pending piece of src/torrent/piece.rs at concrete inputs: a piece of 4 bytes, and one of two blocks
-- whose second is a single byte.
use gosh_dl.Base.{
  ℕ, ◌*◌, ◌<◌, ◌≡◌, refl, true, List, [], ◌∷◌, none, some, arith, get_elem?, lookup, In, first,
  later,
}
use gosh_dl.Piece.Pending.{new, add_block, is_complete, piece_data}
use gosh_dl.Piece.Pending.Blocks.{IsValid, new-IsValid}
use gosh_dl.Piece.Pending.Arrivals.{arrive, arrive_whole}
use gosh_dl.Piece.Pending.Requests.{IsRequest}

abbrev four : List ℕ
four = 20 ∷ 21 ∷ 22 ∷ 23 ∷ []

-- The one block arrives twice, among offsets that are none of the piece's.
four_covered : (j : ℕ) → j * 16384 < 4 → In (j * 16384) (5 ∷ 0 ∷ 0 ∷ 16384 ∷ [])
four_covered j h = later 5 (first (omega arith))

arrive_whole_example :
    (is_complete (arrive 1 four (5 ∷ 0 ∷ 0 ∷ 16384 ∷ []) (new 1 7 4)) ≡ true)
    × (piece_data (arrive 1 four (5 ∷ 0 ∷ 0 ∷ 16384 ∷ []) (new 1 7 4)) ≡ some four)
arrive_whole_example = arrive_whole 1 7 four (5 ∷ 0 ∷ 0 ∷ 16384 ∷ []) (omega arith) four_covered

two_blocks-IsValid : IsValid (new 1 7 16385)
two_blocks-IsValid = new-IsValid 1 7 16385 (omega arith)

-- The last block, of one byte, is taken.
last_block_taken : (add_block 2 (new 1 7 16385) 16384 (9 ∷ [])).1 ≡ true
unfolding add_block new
last_block_taken = refl

second_missing : get_elem? (new 1 7 16385).blocks 1 ≡ some none
unfolding new
second_missing = refl

second_unasked : lookup 1 (new 1 7 16385).requested_blocks ≡ none
unfolding new lookup
second_unasked = refl

second-IsRequest : IsRequest (new 1 7 16385) (16384, 1)
unfolding new
second-IsRequest = record {
  block = 1;
  missing = second_missing;
  unasked = second_unasked;
  at = refl;
  inside = omega arith;
  filled = refl;
  nonempty = omega arith;
}

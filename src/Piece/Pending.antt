-- ===== src/Piece/Pending.antt =====
-- `PendingPiece` of src/torrent/piece.rs: a piece that is received block by block. Times are an argument;
-- u32 and u64 sums are taken modulo 2 ^ 32 and 2 ^ 64.
pub mod Blocks
mod Assemble
mod Arrivals
mod Requests
mod Tests
use gosh_dl.Base.{
  ℕ, suc, ◌+◌, ◌-◌, ◌*◌, ◌/◌, ◌%◌, ◌^◌, ◌≡◌, Bool, true, false, not, ◌&&◌, ◌||◌, List, [], ◌∷◌,
  ◌++◌, Option, none, some, if◌then◌else◌, ◌==◌, leb, length, get_elem?, set, take, replicate, min,
  lookup, insert, remove, contains, is_some,
}
use gosh_dl.Metainfo.{div_ceil}

abbrev pub block_size_max : ℕ
block_size_max = 16384

pub record PendingPiece : Type 0 where
  pub index : ℕ
  pub length : ℕ
  pub blocks : List (Option (List ℕ))
  pub block_size : ℕ
  pub blocks_received : ℕ
  pub started_at : ℕ
  pub last_activity : ℕ
  pub requested_blocks : List (ℕ × ℕ)

unfoldable pub new : ℕ → ℕ → ℕ → PendingPiece
new now index piece_length = record {
  index = index;
  length = piece_length;
  blocks = replicate (div_ceil piece_length block_size_max) none;
  block_size = block_size_max;
  blocks_received = 0;
  started_at = now;
  last_activity = now;
  requested_blocks = [];
}

-- The size that block `block_index` at `offset` must have: the last block may be smaller.
unfoldable pub expected_size : PendingPiece → ℕ → ℕ → ℕ
expected_size p block_index offset =
    if block_index == length p.blocks - 1
    then min ((p.length + 2 ^ 64 - offset) % 2 ^ 64) p.block_size
    else p.block_size

-- Whether a block has arrived; an index out of range has not.
unfoldable pub received : PendingPiece → ℕ → Bool
received p i = elim (get_elem? p.blocks i) [ none ↦ false | some b ↦ is_some b ]

unfoldable pub add_block : ℕ → PendingPiece → ℕ → List ℕ → PendingPiece × Bool
unfolding expected_size received remove
add_block now p offset bytes =
    let block_index = offset / p.block_size in
    if leb (length p.blocks) block_index
    then (p, false)
    else if not (offset % p.block_size == 0)
    then (p, false)
    else if not (length bytes == expected_size p block_index offset)
    then (p, false)
    else (
      record p {
        blocks_received =
            if received p block_index then p.blocks_received else p.blocks_received + 1;
        blocks = set p.blocks block_index (some bytes);
        requested_blocks = remove (block_index % 2 ^ 32) p.requested_blocks;
        last_activity = now;
      },
      true,
    )

unfoldable pub is_complete : PendingPiece → Bool
is_complete p = p.blocks_received == length p.blocks

-- The blocks joined; `none` if one is missing.
unfoldable pub joined : List (Option (List ℕ)) → Option (List ℕ)
joined [] = some []
joined (none ∷ blocks) = none
joined (some b ∷ blocks) = elim (joined blocks) [ none ↦ none | some rest ↦ some (b ++ rest) ]

-- The method `data`.
unfoldable pub piece_data : PendingPiece → Option (List ℕ)
unfolding is_complete joined
piece_data p =
    if not (is_complete p)
    then none
    else elim (joined p.blocks) [ none ↦ none | some bytes ↦ some (take p.length bytes) ]

unfoldable pub has_block_at : PendingPiece → ℕ → Bool
unfolding received
has_block_at p offset = received p (offset / p.block_size)

unfoldable pub block_offset : PendingPiece → ℕ → ℕ
block_offset p i = ((i % 2 ^ 32) * p.block_size) % 2 ^ 32

unfoldable pub block_length : PendingPiece → ℕ → ℕ
unfolding block_offset
block_length p i =
    if i == length p.blocks - 1
    then min ((p.length + 2 ^ 64 - block_offset p i) % 2 ^ 64) p.block_size % 2 ^ 32
    else p.block_size

-- The loop of `unrequested_blocks` over the blocks from number `i` on: offsets and lengths.
unfoldable pub unrequested_from : PendingPiece → ℕ → List (Option (List ℕ)) → List (ℕ × ℕ)
unfolding block_length
unrequested_from p i [] = []
unrequested_from p i (b ∷ blocks) =
    let rest = unrequested_from p (suc i) blocks in
    if not (is_some b) && not (contains (i % 2 ^ 32) p.requested_blocks)
    then (block_offset p i, block_length p i) ∷ rest
    else rest

unfoldable pub unrequested_blocks : PendingPiece → List (ℕ × ℕ)
unfolding unrequested_from
unrequested_blocks p = unrequested_from p 0 p.blocks

unfoldable pub mark_requested : PendingPiece → ℕ → ℕ → PendingPiece
unfolding insert
mark_requested p block_index peer_id = record p {
  requested_blocks = insert block_index peer_id p.requested_blocks;
}

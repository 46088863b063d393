-- ===== src/Piece/Requests.antt =====
-- `PieceManager` of src/torrent/piece.rs: the requests that are sent to peers, one for each block.
use gosh_dl.Base.{
  ℕ, suc, List, [], ◌∷◌, ◌++◌, map, Option, none, some, if◌then◌else◌, lookup, is_some,
}
use gosh_dl.Piece.Pending.{PendingPiece, unrequested_blocks, block_offset, block_length}
use gosh_dl.Piece.Manager.{PieceManager}

pub record BlockRequest : Type 0 where
  pub piece : ℕ
  pub offset : ℕ
  pub length : ℕ

pub get_block_requests : PieceManager → ℕ → List BlockRequest
unfolding unrequested_blocks
get_block_requests m index = elim (lookup index m.pending) [
  | none ↦ []
  | some p ↦ map (λ r. record { piece = index; offset = r.0; length = r.1 }) (unrequested_blocks p)
]

-- The blocks from number `i` on that have not arrived, whether or not they have been asked for.
pub missing_requests : PendingPiece → ℕ → List (Option (List ℕ)) → List BlockRequest
unfolding block_offset block_length
missing_requests p i [] = []
missing_requests p i (b ∷ blocks) =
    let rest = missing_requests p (suc i) blocks in
    if is_some b
    then rest
    else record { piece = p.index; offset = block_offset p i; length = block_length p i } ∷ rest

pub requests_of : List (ℕ × PendingPiece) → List BlockRequest
unfolding missing_requests
requests_of [] = []
requests_of ((index, p) ∷ pending) = missing_requests p 0 p.blocks ++ requests_of pending

pub endgame_requests : PieceManager → List BlockRequest
unfolding requests_of
endgame_requests m = requests_of m.pending

-- ===== src/Piece/Manager.antt =====
-- `PieceManager` of src/torrent/piece.rs: which pieces are held, in progress and wanted, and the choice of
-- the next one. The locks are held for each call as a whole, so a call is a function of the state;
-- counters are u64 and u32 as in the code. SHA-1 is an argument.
pub mod Selection
pub mod Contiguous
use gosh_dl.Base.{
  ℕ, zero, suc, ◌+◌, ◌-◌, ◌*◌, ◌/◌, ◌%◌, ◌^◌, ◌≡◌, Bool, true, false, not, ◌&&◌, ◌||◌, List, [],
  ◌∷◌, ◌++◌, map, Option, none, some, if◌then◌else◌, ◌==◌, ltb, leb, length, get_elem?, get_or, set,
  replicate, min, lookup, insert, remove, contains, is_some, unwrap_or, sort_by, head?, count_of,
  keep,
}
use gosh_dl.Metainfo.{Info, piece_length, piece_hash}
use gosh_dl.Piece.Pending
use gosh_dl.Piece.Pending.{PendingPiece, piece_data, is_complete, has_block_at}

-- The value `u32::MAX`, which stands for no stream.
abbrev pub no_stream : ℕ
no_stream = 2 ^ 32 - 1

pub record PieceManager : Type 0 where
  pub info : Info
  pub have : List Bool
  pub pending : List (ℕ × PendingPiece)
  pub verified_count : ℕ
  pub verified_bytes : ℕ
  pub piece_availability : List ℕ
  pub wanted_pieces : Option (List Bool)
  pub sequential_mode : Bool
  pub stream_position : ℕ

pub data Error : Type 0 where
  peer_protocol invalid_torrent io : Error

pub data Outcome {ℓ} (A : Type ℓ) : Type ℓ where
  ok : A → Outcome A
  err : Error → Outcome A

-- `bits.get(i).map(|b| *b).unwrap_or(false)`.
abbrev pub bit : List Bool → ℕ → Bool
bit bits i = get_or bits i false

abbrev pub num_pieces : PieceManager → ℕ
num_pieces m = length m.info.pieces

pub new : Info → PieceManager
new info = record {
  info = info;
  have = replicate (length info.pieces) false;
  pending = [];
  verified_count = 0;
  verified_bytes = 0;
  piece_availability = replicate (length info.pieces) 0;
  wanted_pieces = none;
  sequential_mode = false;
  stream_position = no_stream;
}

pub set_sequential : PieceManager → Bool → PieceManager
set_sequential m sequential = record m { sequential_mode = sequential }

pub set_stream_position : PieceManager → Option ℕ → PieceManager
set_stream_position m piece = record m { stream_position = unwrap_or piece no_stream }

unfoldable pub have_piece : PieceManager → ℕ → Bool
have_piece m index = bit m.have index

unfoldable pub is_piece_wanted : PieceManager → ℕ → Bool
is_piece_wanted m index = elim m.wanted_pieces [ none ↦ true | some bits ↦ bit bits index ]

pub need_piece : PieceManager → ℕ → Bool
need_piece m index =
    if leb (num_pieces m) index
    then false
    else not (bit m.have index) && not (contains index m.pending)

saturating_change : Bool → ℕ → ℕ
saturating_change add slot = if add then min (slot + 1) (2 ^ 32 - 1) else slot - 1

pub update_piece_availability : PieceManager → ℕ → Bool → PieceManager
unfolding saturating_change
update_piece_availability m index add = elim (get_elem? m.piece_availability index) [
  | none ↦ m
  | some slot ↦ record m {
    piece_availability = set m.piece_availability index (saturating_change add slot);
  }
]

-- The loop of `update_availability`; `none` is the panic on a bit beyond the pieces.
pub change_all : List ℕ → List Bool → Bool → Option (List ℕ)
unfolding saturating_change
change_all slots [] add = some slots
change_all [] (b ∷ bits) add = let rest = change_all [] bits add in if b then none else rest
change_all (slot ∷ slots) (b ∷ bits) add = elim (change_all slots bits add) [
  | none ↦ none
  | some rest ↦ some ((if b then saturating_change add slot else slot) ∷ rest)
]

pub update_availability : PieceManager → List Bool → Bool → Option PieceManager
unfolding change_all
update_availability m peer_pieces add = elim (change_all m.piece_availability peer_pieces add) [
  | none ↦ none
  | some slots ↦ some (record m { piece_availability = slots })
]

-- The run of held pieces from piece `i` on, `fuel` pieces at most: where it ends, in bytes.
pub run_end : Info → List Bool → ℕ → ℕ → ℕ → ℕ
run_end info have zero i end = end
run_end info have (suc fuel) i end =
    let rest =
      run_end info have fuel (suc i) (min ((suc i * info.piece_length) % 2 ^ 64) info.total_size) in
    if bit have i then rest else end

pub contiguous_available_from : PieceManager → ℕ → ℕ
unfolding run_end
contiguous_available_from m offset =
    if leb m.info.total_size offset || (m.info.piece_length == 0)
    then 0
    else run_end m.info m.have (num_pieces m - offset / m.info.piece_length)
        (offset / m.info.piece_length) offset
      - offset

-- The passes of `select_piece` over the pieces from number `i` on, `n` of them.
unfoldable pub is_candidate : PieceManager → List Bool → ℕ → Bool
unfolding is_piece_wanted
is_candidate m peer_has i =
    not (bit m.have i) && not (contains i m.pending) && is_piece_wanted m i && bit peer_has i

pub candidates : PieceManager → List Bool → ℕ → ℕ → List (ℕ × ℕ)
unfolding is_candidate
candidates m peer_has i zero = []
candidates m peer_has i (suc n) =
    let rest = candidates m peer_has (suc i) n in
    if is_candidate m peer_has i then (i, get_or m.piece_availability i 0) ∷ rest else rest

-- The keys that the candidates (index, count) are sorted by.
abbrev pub by_index : ℕ × ℕ → ℕ × ℕ → Bool
by_index a b = ltb a.0 b.0

abbrev pub by_count : ℕ × ℕ → ℕ × ℕ → Bool
by_count a b = ltb a.1 b.1

-- (0, index, count) from the read position on, else (1, 0, count), in lexicographic order.
abbrev pub by_stream : ℕ → ℕ × ℕ → ℕ × ℕ → Bool
by_stream pos a b =
    if leb pos a.0
    then (if leb pos b.0 then ltb a.0 b.0 || ((a.0 == b.0) && ltb a.1 b.1) else true)
    else (if leb pos b.0 then false else ltb a.1 b.1)

abbrev pub order : PieceManager → ℕ × ℕ → ℕ × ℕ → Bool
order m =
    if not (m.stream_position == no_stream)
    then by_stream m.stream_position
    else if m.sequential_mode
    then by_index
    else by_count

pub select_piece : PieceManager → List Bool → Option ℕ
unfolding candidates sort_by
select_piece m peer_has =
    elim (head? (sort_by (order m) (candidates m peer_has 0 (num_pieces m)))) [
      | none ↦ none
      | some best ↦ some best.0
    ]

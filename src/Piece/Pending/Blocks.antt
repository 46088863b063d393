-- ===== src/Piece/Pending/Blocks.antt =====
-- The well-formed pending piece of src/torrent/piece.rs, and that its operations keep it.
use gosh_dl.Base.{
  ℕ, suc, zero, ◌+◌, ◌-◌, ◌*◌, ◌/◌, ◌%◌, ◌^◌, ◌≤◌, ◌<◌, ◌≡◌, refl, ◌⊎◌, inl, inr, true, false, List,
  Option, none, some, arith, if◌then◌else◌, ◌==◌, leb, length, set, replicate, min, is_some,
  count_of, count_of-set, length-set, length-replicate, get_elem?_in, AllFrom, AllFrom-set,
  AllFrom-replicate, Bool-cases, ◌≢◌, ◌∙◌, remove,
}
use gosh_dl.Metainfo.{div_ceil}
use gosh_dl.Piece.Pending.{PendingPiece, new, expected_size, received, add_block}

-- A block that is there has the size of block `i` of a piece of `total` bytes.
abbrev pub IsSized : ℕ → ℕ → Option (List ℕ) → Type 0
IsSized total i none = Unit
IsSized total i (some b) = length b ≡ min 16384 (total - i * 16384)

pub record IsValid (p : PendingPiece) : Type 0 where
  pub unit : p.block_size ≡ 16384
  pub bounded : p.length ≤ 256 * 1024 * 1024
  pub divided : length p.blocks ≡ div_ceil p.length 16384
  pub counted : p.blocks_received ≡ count_of is_some p.blocks
  pub sized : AllFrom (IsSized p.length) 0 p.blocks

count-none : (n : ℕ) → count_of is_some (replicate {A = Option (List ℕ)} n none) ≡ 0
count-none zero = refl
count-none (suc n) = count-none n

-- A new pending piece of at most 256 MiB is well formed.
pub new-IsValid : (now index total : ℕ) → total ≤ 256 * 1024 * 1024 → IsValid (new now index total)
unfolding new
new-IsValid now index total h = record {
  unit = refl;
  bounded = h;
  divided = length-replicate (div_ceil total 16384) none;
  counted = omega (arith, count-none (div_ceil total 16384));
  sized = AllFrom-replicate (IsSized total) 0 (div_ceil total 16384) none (λ j. tt);
}

-- The size that the code expects of an aligned block is that of its place in the piece.
pub expected_size_lem :
    (p : PendingPiece) (i offset : ℕ)
    → IsValid p
    → i < length p.blocks
    → offset ≡ i * 16384
    → expected_size p i offset ≡ min 16384 (p.length - offset)
unfolding expected_size
expected_size_lem p i offset v h at = ground (arith, v.divided, v.unit, v.bounded)

pub received-count :
    (p : PendingPiece) (i : ℕ) (bytes : List ℕ)
    → i < length p.blocks
    → count_of is_some (set p.blocks i (some bytes))
      ≡ (if received p i then count_of is_some p.blocks else count_of is_some p.blocks + 1)
unfolding received
received-count p i bytes h =
    let (b, at) = get_elem?_in p.blocks i h in
    ground (arith, at, count_of-set is_some p.blocks i (some bytes) b at)

-- The pending piece after block `i` has been stored.
abbrev pub stored : ℕ → PendingPiece → ℕ → List ℕ → PendingPiece
stored now p i bytes = record p {
  blocks_received = if received p i then p.blocks_received else p.blocks_received + 1;
  blocks = set p.blocks i (some bytes);
  requested_blocks = remove (i % 2 ^ 32) p.requested_blocks;
  last_activity = now;
}

-- A valid pending piece refuses a block, with nothing changed, or stores it: it stores exactly the
-- blocks whose offset is a multiple of the block size inside the piece, and whose length is what is
-- left there up to the block size.
pub add_block_cases :
    (now : ℕ) (p : PendingPiece) (offset : ℕ) (bytes : List ℕ)
    → IsValid p
    → ((((i : ℕ)
          → offset ≡ i * 16384
          → i < length p.blocks
          → length bytes ≢ min 16384 (p.length - offset))
        × (add_block now p offset bytes ≡ (p, false))))
      ⊎ ((i : ℕ) × (offset ≡ i * 16384)
          × (i < length p.blocks)
          × (length bytes ≡ min 16384 (p.length - offset))
          × (add_block now p offset bytes ≡ (stored now p i bytes, true)))
unfolding add_block
add_block_cases now p offset bytes v = elim (Bool-cases (leb (length p.blocks) (offset / 16384))) [
  | inl outside ↦ inl (λ i at fits size. ground arith, ground arith)
  | inr inside ↦ elim (Bool-cases (offset % 16384 == 0)) [
    | inr askew ↦ inl (λ i at fits size. ground arith, ground arith)
    | inl aligned ↦
        let i = offset / 16384 in
        let fits : i < length p.blocks = ground arith in
        let at : offset ≡ i * 16384 = ground arith in
        let size : expected_size p i offset ≡ min 16384 (p.length - offset) =
          expected_size_lem p i offset v fits at in
        elim (Bool-cases (length bytes == expected_size p i offset)) [
          | inr wrong ↦ inl (λ j at' fits' right. ground (arith, size), ground (arith, v.unit))
          | inl right ↦ inr (i, at, fits, ground (arith, size), ground (arith, v.unit))
        ]
  ]
]

-- Whatever block arrives, a valid pending piece stays valid.
pub add_block-IsValid :
    (now : ℕ) (p : PendingPiece) (offset : ℕ) (bytes : List ℕ)
    → IsValid p
    → IsValid (add_block now p offset bytes).0
unfolding add_block
add_block-IsValid now p offset bytes v = elim (add_block_cases now p offset bytes v) [
  | inl (_, e) ↦ rw e v
  | inr (i, at, fits, size, e) ↦ rw e (record {
    unit = v.unit;
    bounded = v.bounded;
    divided = length-set p.blocks i (some bytes) ∙ v.divided;
    counted = ground (arith, received-count p i bytes fits, v.counted);
    sized = AllFrom-set (IsSized p.length) 0 i p.blocks (some bytes) v.sized (omega arith);
  })
]

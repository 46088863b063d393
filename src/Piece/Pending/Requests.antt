-- ===== src/Piece/Pending/Requests.antt =====
-- The block requests of a pending piece of src/torrent/piece.rs: what `unrequested_blocks` lists is
-- what is missing, and each request is one that `add_block` takes the answer to.
use gosh_dl.Base.{
  ℕ, suc, zero, ◌+◌, ◌-◌, ◌*◌, ◌%◌, ◌^◌, ◌≤◌, ◌<◌, ◌≡◌, refl, inl, inr, true, List, [], ◌∷◌, Option,
  none, some, arith, not, ◌&&◌, length, get_elem?, min, is_some, Bool-cases, In, first, later,
  lookup, contains, ap, ◌∙◌, get_elem?_lt, All,
}
use mathlib.Core.Path.{subst}
use gosh_dl.Piece.Pending.{
  PendingPiece, add_block, block_offset, block_length, unrequested_from, unrequested_blocks,
}
use gosh_dl.Piece.Pending.Blocks.{IsValid, add_block_cases}

-- Block `i` of a valid piece: its offset and length do not wrap.
block_lem :
    (p : PendingPiece) (i : ℕ)
    → IsValid p
    → i < length p.blocks
    → (block_offset p i ≡ i * 16384)
      × (block_length p i ≡ min 16384 (p.length - i * 16384))
      × (i % 2 ^ 32 ≡ i)
      × (i * 16384 < p.length)
unfolding block_offset block_length
block_lem p i v h =
    let inside : i * 16384 < p.length = ground (arith, v.divided) in
    let offset : block_offset p i ≡ i * 16384 = ground (arith, v.unit, v.bounded) in
    (offset, ground (arith, v.divided, v.unit, v.bounded, offset), omega arith, inside)

-- A request for block `i`, which has neither arrived nor been requested.
pub record IsRequest (p : PendingPiece) (r : ℕ × ℕ) : Type 0 where
  pub block : ℕ
  pub missing : get_elem? p.blocks block ≡ some none
  pub unasked : lookup block p.requested_blocks ≡ none
  pub at : r.0 ≡ block * 16384
  pub inside : r.0 + r.1 ≤ p.length
  pub filled : r.1 ≡ min 16384 (p.length - r.0)
  pub nonempty : 0 < r.1

-- The suffix of the blocks from number `i` on.
abbrev From : PendingPiece → ℕ → List (Option (List ℕ)) → Type 0
From p i blocks = (k : ℕ) → get_elem? p.blocks (i + k) ≡ get_elem? blocks k

From-head :
    (p : PendingPiece) (i : ℕ) (b : Option (List ℕ)) (blocks : List (Option (List ℕ)))
    → From p i (b ∷ blocks)
    → get_elem? p.blocks i ≡ some b
From-head p i b blocks f = subst (λ n. get_elem? p.blocks n ≡ some b) (omega arith) (f zero)

From-tail :
    (p : PendingPiece) (i : ℕ) (b : Option (List ℕ)) (blocks : List (Option (List ℕ)))
    → From p i (b ∷ blocks)
    → From p (suc i) blocks
From-tail p i b blocks f k =
    subst (λ n. get_elem? p.blocks n ≡ get_elem? blocks k) {x = i + suc k} {y = suc i + k}
      (omega arith) (f (suc k))

asked_block :
    (p : PendingPiece) (i : ℕ)
    → IsValid p
    → get_elem? p.blocks i ≡ some none
    → lookup i p.requested_blocks ≡ none
    → IsRequest p (block_offset p i, block_length p i)
asked_block p i v missing unasked =
    let (offset, size, _, inside) = block_lem p i v (get_elem?_lt p.blocks i none missing) in
    record {
      block = i;
      missing = missing;
      unasked = unasked;
      at = offset;
      inside = omega (arith, offset, size, inside);
      filled = omega (arith, offset, size);
      nonempty = omega (arith, offset, size, inside);
    }

unrequested_from_sound :
    (p : PendingPiece) (i : ℕ) (blocks : List (Option (List ℕ)))
    → IsValid p
    → From p i blocks
    → All (IsRequest p) (unrequested_from p i blocks)
unfolding unrequested_from
unrequested_from_sound p i [] v f = tt
unrequested_from_sound p i (b ∷ blocks) v f =
    elim (Bool-cases (not (is_some b) && not (contains (i % 2 ^ 32) p.requested_blocks))) [
      | inr skip ↦ rw skip (unrequested_from_sound p (suc i) blocks v (From-tail p i b blocks f))
      | inl hit ↦
          let at = From-head p i b blocks f in
          let (_, _, small, _) = block_lem p i v (get_elem?_lt p.blocks i b at) in
          let empty : b ≡ none = ground arith in
          let unasked : lookup i p.requested_blocks ≡ none = ground (arith, small) in
          rw hit (
            asked_block p i v (at ∙ ap some empty) unasked,
            unrequested_from_sound p (suc i) blocks v (From-tail p i b blocks f),
          )
    ]

-- Every request listed for a valid pending piece is for a block that is missing and not yet asked for,
-- is aligned, not empty, and lies inside the piece.
pub unrequested_blocks_sound :
    (p : PendingPiece) → IsValid p → All (IsRequest p) (unrequested_blocks p)
unfolding unrequested_blocks
unrequested_blocks_sound p v = unrequested_from_sound p 0 p.blocks v (λ k.
    subst (λ n. get_elem? p.blocks n ≡ get_elem? p.blocks k) {x = k} {y = 0 + k} (omega arith) refl)

unrequested_from_complete :
    (p : PendingPiece) (i k : ℕ) (blocks : List (Option (List ℕ)))
    → get_elem? blocks k ≡ some none
    → lookup (i + k) p.requested_blocks ≡ none
    → (i + k) % 2 ^ 32 ≡ i + k
    → In (block_offset p (i + k), block_length p (i + k)) (unrequested_from p i blocks)
unfolding unrequested_from
unrequested_from_complete p i k [] missing unasked small = absurd (cc)
unrequested_from_complete p i zero (b ∷ blocks) missing unasked small =
    let here : i + zero ≡ i = omega arith in
    let test : (not (is_some b) && not (contains (i % 2 ^ 32) p.requested_blocks)) ≡ true =
      ground (arith, rw here at small, rw here at unasked) in
    rw test (first (ap (λ n. (block_offset p n, block_length p n)) here))
unrequested_from_complete p i (suc k) (b ∷ blocks) missing unasked small =
    let there : i + suc k ≡ suc i + k = omega arith in
    let rest =
      unrequested_from_complete p (suc i) k blocks missing (rw there at unasked)
        (rw there at small) in
    let rest' = rw (← there) at rest in
    elim (Bool-cases (not (is_some b) && not (contains (i % 2 ^ 32) p.requested_blocks))) [
      | inr skip ↦ rw skip rest'
      | inl hit ↦ rw hit (later _ rest')
    ]

-- Every block of a valid pending piece that is missing and not asked for is listed, at its offset and
-- with its length.
pub unrequested_blocks_complete :
    (p : PendingPiece) (i : ℕ)
    → IsValid p
    → get_elem? p.blocks i ≡ some none
    → lookup i p.requested_blocks ≡ none
    → In (i * 16384, min 16384 (p.length - i * 16384)) (unrequested_blocks p)
unfolding unrequested_blocks
unrequested_blocks_complete p i v missing unasked =
    let (offset, size, small, _) = block_lem p i v (get_elem?_lt p.blocks i none missing) in
    let at : zero + i ≡ i = omega arith in
    let listed =
      unrequested_from_complete p zero i p.blocks missing (rw at unasked) (rw at small) in
    rw (← size, ← offset) (rw at at listed)

-- A valid pending piece takes the answer to a request for one of its missing blocks, if it has the
-- length asked for.
pub request_accepted :
    (now : ℕ) (p : PendingPiece) (r : ℕ × ℕ) (bytes : List ℕ)
    → IsValid p
    → IsRequest p r
    → length bytes ≡ r.1
    → (add_block now p r.0 bytes).1 ≡ true
request_accepted now p r bytes v q len = elim (add_block_cases now p r.0 bytes v) [
  | inl (refused, _) ↦
      absurd (refused q.block q.at (get_elem?_lt p.blocks q.block none q.missing) (len ∙ q.filled))
  | inr (_, _, _, _, e) ↦ rw e
]

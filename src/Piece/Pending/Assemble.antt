-- ===== src/Piece/Pending/Assemble.antt =====
-- The bytes of a completed piece, as `data` of src/torrent/piece.rs joins them.
use gosh_dl.Base.{
  ℕ, suc, ◌+◌, ◌-◌, ◌*◌, ◌≤◌, ◌≡◌, refl, ◌⊎◌, inl, inr, true, false, List, [], ◌∷◌, ◌++◌, Option,
  none, some, arith, length, take, drop, is_some, length-append, length-take, take-append-drop,
  drop-drop, drop_all, take_all, All, AllFrom, AllFrom-set, Bool-cases, count_of_full, ap, sym, ◌∙◌,
}
use gosh_dl.Piece.Pending.{PendingPiece, add_block, is_complete, joined, piece_data}
use gosh_dl.Piece.Pending.Blocks.{IsValid, IsSized, add_block_cases}

-- A block that is there is block `i` of the bytes `whole`.
abbrev pub IsPart : List ℕ → ℕ → Option (List ℕ) → Type 0
IsPart whole i none = Unit
IsPart whole i (some b) = b ≡ take 16384 (drop (i * 16384) whole)

-- All blocks received so far are the blocks of `whole`.
abbrev pub Holds : List ℕ → PendingPiece → Type 0
Holds whole p = AllFrom (IsPart whole) 0 p.blocks

joined-parts :
    (whole : List ℕ) (i : ℕ) (blocks : List (Option (List ℕ)))
    → AllFrom (IsPart whole) i blocks
    → All (λ b. is_some b ≡ true) blocks
    → length whole ≤ (i + length blocks) * 16384
    → joined blocks ≡ some (drop (i * 16384) whole)
unfolding joined
joined-parts whole i [] parts all fits = ap some (sym (drop_all (i * 16384) whole (omega arith)))
joined-parts whole i (none ∷ blocks) parts all fits = absurd (cc)
joined-parts whole i (some b ∷ blocks) parts all fits =
    let rest = joined-parts whole (suc i) blocks parts.1 all.1 (omega arith) in
    let here = drop (i * 16384) whole in
    let next : drop (suc i * 16384) whole ≡ drop 16384 here =
      ap (λ n. drop n whole) (omega arith) ∙ sym (drop-drop 16384 (i * 16384) whole) in
    rw (rest, next, parts.0) (ap some (take-append-drop 16384 here))

-- The sizes alone: the blocks that are all there make up the piece's length.
joined-sized :
    (total i : ℕ) (blocks : List (Option (List ℕ)))
    → AllFrom (IsSized total) i blocks
    → All (λ b. is_some b ≡ true) blocks
    → total ≤ (i + length blocks) * 16384
    → (bytes : List ℕ) × (joined blocks ≡ some bytes) × (length bytes ≡ total - i * 16384)
unfolding joined
joined-sized total i [] sized all fits = ([], refl, omega arith)
joined-sized total i (none ∷ blocks) sized all fits = absurd (cc)
joined-sized total i (some b ∷ blocks) sized all fits =
    let (rest, e, len) = joined-sized total (suc i) blocks sized.1 all.1 (omega arith) in
    (b ++ rest, rw e, omega (arith, length-append b rest, sized.0, len))

complete-All :
    (p : PendingPiece) → IsValid p → is_complete p ≡ true → All (λ b. is_some b ≡ true) p.blocks
unfolding is_complete
complete-All p v h = count_of_full is_some p.blocks (ground (arith, v.counted))

-- A valid pending piece that is complete gives exactly as many bytes as the piece is long; an
-- incomplete one gives none.
pub piece_data_length :
    (p : PendingPiece)
    → IsValid p
    → ((is_complete p ≡ false) × (piece_data p ≡ none))
      ⊎ ((bytes : List ℕ) × (piece_data p ≡ some bytes) × (length bytes ≡ p.length))
unfolding piece_data
piece_data_length p v = elim (Bool-cases (is_complete p)) [
  | inr partial ↦ inl (partial, ground (arith, partial))
  | inl complete ↦
      let (bytes, e, len) =
        joined-sized p.length 0 p.blocks v.sized (complete-All p v complete)
          (ground (arith, v.divided)) in
      inr (
        take p.length bytes,
        ground (arith, complete, e),
        omega (arith, length-take p.length bytes, len),
      )
]

-- If the blocks received are those of `whole`, the completed piece is `whole`.
pub piece_data-Holds :
    (whole : List ℕ) (p : PendingPiece)
    → IsValid p
    → Holds whole p
    → length whole ≡ p.length
    → is_complete p ≡ true
    → piece_data p ≡ some whole
unfolding piece_data
piece_data-Holds whole p v holds len complete =
    let e =
      joined-parts whole 0 p.blocks holds (complete-All p v complete) (ground (arith, v.divided)) in
    let same = take_all p.length whole (omega arith) in ground (arith, complete, e, same)

-- Storing the block of `whole` at its place keeps the received blocks those of `whole`.
pub add_block-Holds :
    (now : ℕ) (whole : List ℕ) (p : PendingPiece) (offset : ℕ)
    → IsValid p
    → Holds whole p
    → Holds whole (add_block now p offset (take 16384 (drop offset whole))).0
add_block-Holds now whole p offset v holds =
    elim (add_block_cases now p offset (take 16384 (drop offset whole)) v) [
      | inl (_, e) ↦ rw e holds
      | inr (i, at, fits, size, e) ↦ rw e (
          AllFrom-set (IsPart whole) 0 i p.blocks _ holds
            (ap (λ n. take 16384 (drop n whole)) (omega arith)))
    ]

-- ===== src/Piece/Transfer/Endgame.antt =====
-- The end of a download in src/torrent/piece.rs: completion, and the pieces of endgame mode.
use gosh_dl.Base.{
  ℕ, zero, suc, ◌+◌, ◌≡◌, ◌≤◌, ◌<◌, refl, ◌⊎◌, inl, inr, Bool, true, false, not, List, [], ◌∷◌,
  Option, none, some, arith, ◌==◌, leb, length, count_of, Bool-cases, In, first, later, All, ◌&&◌,
  ◌↔◌, count_of_full, ap,
}
use gosh_dl.Piece.Manager.{PieceManager, bit, num_pieces, is_piece_wanted}
use gosh_dl.Piece.Transfer.{missing_from, endgame_pieces, all_wanted_held, is_complete}

missing_from_complete :
    (have : List Bool) (i n j : ℕ)
    → bit have j ≡ false
    → i ≤ j
    → j < i + n
    → In j (missing_from have i n)
unfolding missing_from
missing_from_complete have i zero j gone low high = absurd (omega arith)
missing_from_complete have i (suc n) j gone low high = elim (Bool-cases (i == j)) [
  | inl same ↦ let e : j ≡ i = ground arith in rw (rw e at gone) (first e)
  | inr other ↦
      let rest = missing_from_complete have (suc i) n j gone (ground arith) (omega arith) in
      elim (Bool-cases (bit have i)) [
        | inl held ↦ rw held rest
        | inr missing ↦ rw missing (later i rest)
      ]
]

missing_from_sound :
    (have : List Bool) (i n : ℕ)
    → All (λ j. (bit have j ≡ false) × (j < i + n)) (missing_from have i n)
unfolding missing_from
missing_from_sound have i zero = tt
missing_from_sound have i (suc n) = elim (Bool-cases (bit have i)) [
  | inl held ↦ rw held (widen (missing_from have (suc i) n) (missing_from_sound have (suc i) n))
  | inr missing ↦ rw missing (
    (missing, omega arith),
    widen (missing_from have (suc i) n) (missing_from_sound have (suc i) n),
  )
]
  where
    widen :
        (js : List ℕ)
        → All (λ j. (bit have j ≡ false) × (j < suc i + n)) js
        → All (λ j. (bit have j ≡ false) × (j < i + suc n)) js
    widen [] a = tt
    widen (j ∷ js) a = ((a.0.0, omega (arith, a.0.1)), widen js a.1)

-- Endgame mode is entered exactly with at most ten pieces missing, and then lists exactly the pieces of
-- the torrent that are not held.
pub endgame_pieces_lem :
    (m : PieceManager)
    → ((10 < length (missing_from m.have 0 (num_pieces m))) × (endgame_pieces m ≡ []))
      ⊎ ((length (missing_from m.have 0 (num_pieces m)) ≤ 10)
          × ((j : ℕ) → j < num_pieces m → bit m.have j ≡ false → In j (endgame_pieces m))
          × All (λ j. (bit m.have j ≡ false) × (j < num_pieces m)) (endgame_pieces m))
unfolding endgame_pieces
endgame_pieces_lem m = elim (Bool-cases (leb (length (missing_from m.have 0 (num_pieces m))) 10)) [
  | inr many ↦ inl (ground arith, rw many)
  | inl few ↦
      let whole : 0 + num_pieces m ≡ num_pieces m = omega arith in
      inr (
        ground arith,
        λ j inside gone.
            rw few
              (missing_from_complete m.have 0 (num_pieces m) j gone (omega arith) (omega arith)),
        rw few (rw whole at (missing_from_sound m.have 0 (num_pieces m))),
      )
]

-- Endgame mode asks for pieces that the file selection excludes: with at most ten pieces missing, a
-- missing piece is listed although it is not wanted.
pub endgame_ignores_selection :
    (m : PieceManager) (j : ℕ)
    → length (missing_from m.have 0 (num_pieces m)) ≤ 10
    → j < num_pieces m
    → bit m.have j ≡ false
    → is_piece_wanted m j ≡ false
    → In j (endgame_pieces m)
endgame_ignores_selection m j few inside gone unwanted = elim (endgame_pieces_lem m) [
  | inl (many, _) ↦ absurd (omega arith)
  | inr (_, all, _) ↦ all j inside gone
]

all_wanted_held_iff :
    (wanted have : List Bool) (i n : ℕ)
    → (all_wanted_held wanted have i n ≡ true)
      ↔ ((j : ℕ) → i ≤ j → j < i + n → bit wanted j ≡ true → bit have j ≡ true)
unfolding all_wanted_held
all_wanted_held_iff wanted have i zero = (λ t j low high w. absurd (omega arith), λ h. refl)
all_wanted_held_iff wanted have i (suc n) = elim (Bool-cases (bit wanted i && not (bit have i))) [
  | inl stuck ↦
      rw stuck (λ t j low high w. cc, λ h. ground (arith, h i (omega arith) (omega arith)))
  | inr fine ↦ rw fine (
    (λ t j low high w. elim (Bool-cases (i == j)) [
      | inl same ↦ let e : j ≡ i = ground arith in let w' = rw e at w in rw e (ground (arith, w'))
      | inr other ↦ (all_wanted_held_iff wanted have (suc i) n).0 t j (ground arith) (omega arith) w
    ]),
    λ h.
        (all_wanted_held_iff wanted have (suc i) n).1
          (λ j low high. h j (omega arith) (omega arith)),
  )
]

All-bit :
    (bits : List Bool) (j : ℕ) → All (λ b. b ≡ true) bits → j < length bits → bit bits j ≡ true
All-bit [] j a h = absurd (omega arith)
All-bit (b ∷ bits) zero a h = a.0
All-bit (b ∷ bits) (suc j) a h = All-bit bits j a.1 (omega arith)

bits-count :
    (bits : List Bool)
    → ((j : ℕ) → j < length bits → bit bits j ≡ true)
    → count_of (λ b. b) bits ≡ length bits
bits-count [] h = refl
bits-count (b ∷ bits) h =
    rw (h zero (omega arith)) (ap suc (bits-count bits (λ j k. h (suc j) (omega arith))))

-- With a bit for each piece, the download counts as complete exactly if every wanted piece of the
-- torrent is held.
pub is_complete_iff :
    (m : PieceManager)
    → length m.have ≡ num_pieces m
    → (is_complete m ≡ true)
      ↔ ((j : ℕ) → j < num_pieces m → is_piece_wanted m j ≡ true → bit m.have j ≡ true)
unfolding is_complete is_piece_wanted
is_complete_iff m sized = by_selection m.wanted_pieces refl
  where
    by_selection :
        (wanted : Option (List Bool))
        → m.wanted_pieces ≡ wanted
        → (is_complete m ≡ true)
          ↔ ((j : ℕ) → j < num_pieces m → is_piece_wanted m j ≡ true → bit m.have j ≡ true)
    by_selection none e = (
      (λ t j h w.
          All-bit m.have j
            (count_of_full (λ b. b) m.have (ground (arith, rw (e, is_complete) at t)))
            (omega arith)),
      λ h.
          rw (e, is_complete)
            (ground
              (arith, bits-count m.have (λ j k. h j (omega arith) (rw (e, is_piece_wanted) refl)))),
    )
    by_selection (some wanted) e = (
      (λ t j h w.
          (all_wanted_held_iff wanted m.have 0 (num_pieces m)).0 (rw (e, is_complete) at t) j
            (omega arith) (omega arith) (rw (e, is_piece_wanted) at w)),
      λ h.
          rw (e, is_complete)
            ((all_wanted_held_iff wanted m.have 0 (num_pieces m)).1
              (λ j low high w. h j (omega arith) (rw (e, is_piece_wanted) w))),
    )

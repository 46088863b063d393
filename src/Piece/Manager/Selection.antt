-- ===== src/Piece/Manager/Selection.antt =====
-- What `select_piece` of src/torrent/piece.rs picks: a piece that is missing, wanted and offered, and the
-- best one by the strategy in force.
use gosh_dl.Base.{
  ℕ, suc, zero, ◌+◌, ◌≤◌, ◌<◌, ◌≡◌, refl, ◌≢◌, ◌⊎◌, inl, inr, Bool, true, false, List, [], ◌∷◌,
  none, some, arith, ◌==◌, get_or, All, In, first, later, Bool-cases, head-sort_by, lookup, ap, sym,
}
use mathlib.Core.Path.{subst}
use gosh_dl.Piece.Manager.{
  PieceManager, bit, num_pieces, is_candidate, candidates, order, select_piece, no_stream,
  is_piece_wanted,
}

-- Entry (j, count) is a candidate among pieces `i` to `i + n`.
abbrev IsEntry : PieceManager → List Bool → ℕ → ℕ → ℕ × ℕ → Type 0
IsEntry m peer_has i n c =
    (is_candidate m peer_has c.0 ≡ true)
    × (c.1 ≡ get_or m.piece_availability c.0 0)
    × (i ≤ c.0)
    × (c.0 < i + n)

All-In {ℓ κ} : {A : Type ℓ} (P : A → Type κ) {a : A} {xs : List A} → In a xs → All P xs → P a
All-In P (first e) h = subst P (sym e) h.0
All-In P (later _ m) h = All-In P m h.1

widen :
    (m : PieceManager) (peer_has : List Bool) (i n : ℕ) (cs : List (ℕ × ℕ))
    → All (IsEntry m peer_has (suc i) n) cs
    → All (IsEntry m peer_has i (suc n)) cs
widen m peer_has i n [] h = tt
widen m peer_has i n (c ∷ cs) h =
    ((h.0.0, h.0.1, omega (arith, h.0.2), omega (arith, h.0.3)), widen m peer_has i n cs h.1)

candidates_sound :
    (m : PieceManager) (peer_has : List Bool) (i n : ℕ)
    → All (IsEntry m peer_has i n) (candidates m peer_has i n)
unfolding candidates
candidates_sound m peer_has i zero = tt
candidates_sound m peer_has i (suc n) = elim (Bool-cases (is_candidate m peer_has i)) [
  | inl hit ↦ rw hit (
    (hit, refl, omega arith, omega arith),
    widen m peer_has i n _ (candidates_sound m peer_has (suc i) n),
  )
  | inr miss ↦ rw miss (widen m peer_has i n _ (candidates_sound m peer_has (suc i) n))
]

candidates_complete :
    (m : PieceManager) (peer_has : List Bool) (i n j : ℕ)
    → is_candidate m peer_has j ≡ true
    → i ≤ j
    → j < i + n
    → In (j, get_or m.piece_availability j 0) (candidates m peer_has i n)
unfolding candidates
candidates_complete m peer_has i zero j hit low high = absurd (omega arith)
candidates_complete m peer_has i (suc n) j hit low high = elim (Bool-cases (i == j)) [
  | inl same ↦
      let e : j ≡ i = ground arith in
      rw (rw e at hit) (first (ap (λ k. (k, get_or m.piece_availability k 0)) e))
  | inr other ↦
      let rest = candidates_complete m peer_has (suc i) n j hit (ground arith) (omega arith) in
      elim (Bool-cases (is_candidate m peer_has i)) [
        | inl here ↦ rw here (later _ rest)
        | inr skip ↦ rw skip rest
      ]
]

order_asym : (m : PieceManager) (a b : ℕ × ℕ) → order m a b ≡ true → order m b a ≡ false
order_asym m a b h = elim (Bool-cases (m.stream_position == no_stream)) [
  | inr streaming ↦ ground arith
  | inl idle ↦ ground arith
]

order_link :
    (m : PieceManager) (a b c : ℕ × ℕ)
    → order m a b ≡ false
    → order m b c ≡ false
    → order m a c ≡ false
order_link m a b c h k = elim (Bool-cases (m.stream_position == no_stream)) [
  | inr streaming ↦ ground arith
  | inl idle ↦ ground arith
]

-- Piece `i` of the torrent is missing, not in progress, wanted, and offered by the peer.
abbrev pub IsCandidate : PieceManager → List Bool → ℕ → Type 0
IsCandidate m peer_has i =
    (i < num_pieces m)
    × (bit m.have i ≡ false)
    × (lookup i m.pending ≡ none)
    × (is_piece_wanted m i ≡ true)
    × (bit peer_has i ≡ true)

candidate_iff :
    (m : PieceManager) (peer_has : List Bool) (i : ℕ)
    → i < num_pieces m
    → (is_candidate m peer_has i ≡ true → IsCandidate m peer_has i)
      × (IsCandidate m peer_has i → is_candidate m peer_has i ≡ true)
unfolding is_candidate
candidate_iff m peer_has i h =
    (λ t. (h, ground arith, ground arith, ground arith, ground arith), λ c. ground arith)

no_In {ℓ} : {A : Type ℓ} {a : A} {xs : List A} → In a xs → xs ≢ []
no_In (first e) = cc
no_In (later x m) = cc

abbrev availability : PieceManager → ℕ → ℕ
availability m i = get_or m.piece_availability i 0

-- No candidate comes before `i` in the order in force.
chosen :
    (m : PieceManager) (peer_has : List Bool)
    → ((select_piece m peer_has ≡ none) × ((j : ℕ) → ¬ IsCandidate m peer_has j))
      ⊎ ((i : ℕ) × (select_piece m peer_has ≡ some i)
          × IsCandidate m peer_has i
          × ((j : ℕ)
              → IsCandidate m peer_has j
              → order m (j, availability m j) (i, availability m i) ≡ false))
unfolding select_piece
chosen m peer_has =
    elim (head-sort_by (order m) (order_asym m) (order_link m)
      (candidates m peer_has 0 (num_pieces m))) [
        | inl (empty, e) ↦ inl (
          rw (e, select_piece),
          λ j c.
              no_In
                (candidates_complete m peer_has 0 (num_pieces m) j
                  ((candidate_iff m peer_has j c.0).1 c) (omega arith) (omega (arith, c.0)))
                empty,
        )
        | inr ((i, count), e, least) ↦
            let entry = All-In _ least.0 (candidates_sound m peer_has 0 (num_pieces m)) in
            let inside : i < num_pieces m = omega (arith, entry.3) in
            inr (
              i,
              rw (e, select_piece),
              (candidate_iff m peer_has i inside).0 entry.0,
              λ j c.
                  let listed =
                    candidates_complete m peer_has 0 (num_pieces m) j
                      ((candidate_iff m peer_has j c.0).1 c) (omega arith) (omega (arith, c.0)) in
                  let best = All-In (λ y. order m y (i, count) ≡ false) listed least.1 in
                  subst (λ n. order m (j, availability m j) (i, n) ≡ false) entry.1 best,
            )
      ]

-- `i` is at least as good as `j` by the strategy in force: the rarest piece; in sequential mode the
-- first; with a stream the first from the read position on, and before it the rarest.
abbrev pub IsPreferred : PieceManager → ℕ → ℕ → Type 0
IsPreferred m i j =
    (m.stream_position ≡ no_stream
      → m.sequential_mode ≡ false
      → get_or m.piece_availability i 0 ≤ get_or m.piece_availability j 0)
    × (m.stream_position ≡ no_stream → m.sequential_mode ≡ true → i ≤ j)
    × (m.stream_position ≢ no_stream → m.stream_position ≤ j → (m.stream_position ≤ i) × (i ≤ j))
    × (m.stream_position ≢ no_stream
        → i < m.stream_position
        → (j < m.stream_position)
          × (get_or m.piece_availability i 0 ≤ get_or m.piece_availability j 0))

order-IsPreferred :
    (m : PieceManager) (i j : ℕ)
    → order m (j, availability m j) (i, availability m i) ≡ false
    → IsPreferred m i j
order-IsPreferred m i j h = (
  λ a b. ground arith,
  λ a b. ground arith,
  λ a b. (ground arith, ground arith),
  λ a b. (ground arith, ground arith),
)

-- `select_piece` gives up only if no piece is missing, free, wanted and offered; otherwise it returns
-- such a piece, and no other such piece is better by the strategy in force.
pub select_piece_best :
    (m : PieceManager) (peer_has : List Bool)
    → ((select_piece m peer_has ≡ none) × ((j : ℕ) → ¬ IsCandidate m peer_has j))
      ⊎ ((i : ℕ) × (select_piece m peer_has ≡ some i)
          × IsCandidate m peer_has i
          × ((j : ℕ) → IsCandidate m peer_has j → IsPreferred m i j))
select_piece_best m peer_has = elim (chosen m peer_has) [
  | inl stop ↦ inl stop
  | inr (i, e, c, best) ↦ inr (i, e, c, λ j k. order-IsPreferred m i j (best j k))
]

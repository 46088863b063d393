-- ===== src/Piece/Pending/Arrivals.antt =====
-- A whole piece arriving at the `PendingPiece` of src/torrent/piece.rs block by block, in any order.
use gosh_dl.Base.{
  ℕ, ◌*◌, ◌≤◌, ◌<◌, ◌≡◌, refl, ◌⊎◌, inl, inr, true, List, [], ◌∷◌, none, some, arith, ◌==◌, length,
  take, drop, is_some, length-take, length-drop, AllFrom-replicate, Bool-cases, count_of_all, sym,
  ◌≢◌, In, first, later, get_elem?-set_self, get_elem?-set_ne, get_elem?_lt,
}
use gosh_dl.Metainfo.{div_ceil}
use gosh_dl.Metainfo.Ranges.{ceil-upper}
use gosh_dl.Piece.Pending.{PendingPiece, new, add_block, received, is_complete, piece_data}
use gosh_dl.Piece.Pending.Blocks.{IsValid, stored, add_block_cases, add_block-IsValid, new-IsValid}
use gosh_dl.Piece.Pending.Assemble.{IsPart, Holds, add_block-Holds, piece_data-Holds}

new-Holds : (now index : ℕ) (whole : List ℕ) → Holds whole (new now index (length whole))
unfolding new
new-Holds now index whole =
    AllFrom-replicate (IsPart whole) 0 (div_ceil (length whole) 16384) none (λ j. tt)

new_length : (now index : ℕ) (whole : List ℕ) → length whole ≡ (new now index (length whole)).length
unfolding new
new_length now index whole = refl

each_complete :
    (p : PendingPiece)
    → IsValid p
    → ((j : ℕ) → j < length p.blocks → received p j ≡ true)
    → is_complete p ≡ true
unfolding is_complete received
each_complete p v each =
    let full =
      count_of_all is_some p.blocks
        λ i x at. let here = each i (get_elem?_lt p.blocks i x at) in rw (at, received) at here in
    ground (arith, v.counted, full)

-- The blocks of `whole` at the given offsets arrive in turn.
pub arrive : ℕ → List ℕ → List ℕ → PendingPiece → PendingPiece
arrive now whole [] p = p
arrive now whole (offset ∷ offsets) p =
    arrive now whole offsets (add_block now p offset (take 16384 (drop offset whole))).0

-- What every arrival keeps.
record Keeps (whole : List ℕ) (p : PendingPiece) : Type 0 where
  valid : IsValid p
  holds : Holds whole p
  size : length whole ≡ p.length

received_set :
    (now : ℕ) (p : PendingPiece) (i j : ℕ) (bytes : List ℕ)
    → i < length p.blocks
    → (received p j ≡ true) ⊎ (i ≡ j)
    → received (stored now p i bytes) j ≡ true
unfolding received
received_set now p i j bytes fits h = elim (Bool-cases (i == j)) [
  | inl same ↦
      let e : i ≡ j = ground arith in
      ground (arith, rw e at (get_elem?-set_self p.blocks i (some bytes) fits))
  | inr other ↦
      let n : i ≢ j = ground arith in ground (arith, get_elem?-set_ne p.blocks i j (some bytes) n)
]

step-Keeps :
    (now : ℕ) (whole : List ℕ) (p : PendingPiece) (offset : ℕ)
    → Keeps whole p
    → Keeps whole (add_block now p offset (take 16384 (drop offset whole))).0
step-Keeps now whole p offset k = record {
  valid = add_block-IsValid now p offset _ k.valid;
  holds = add_block-Holds now whole p offset k.valid k.holds;
  size = elim (add_block_cases now p offset (take 16384 (drop offset whole)) k.valid) [
    | inl (_, e) ↦ rw e k.size
    | inr (i, at, fits, size, e) ↦ rw e k.size
  ];
}

-- An arrival forgets no block, and its own block has then been received.
step-received :
    (now : ℕ) (whole : List ℕ) (p : PendingPiece) (offset j : ℕ)
    → Keeps whole p
    → (received p j ≡ true) ⊎ ((offset ≡ j * 16384) × (offset < length whole))
    → received (add_block now p offset (take 16384 (drop offset whole))).0 j ≡ true
step-received now whole p offset j k h =
    elim (add_block_cases now p offset (take 16384 (drop offset whole)) k.valid) [
      | inl (refused, e) ↦ rw e (elim h [
        | inl old ↦ old
        | inr (at, inside) ↦ absurd (
            refused j at (ground (arith, k.valid.divided, k.size)) (
              omega
                (arith, length-take 16384 (drop offset whole), length-drop offset whole, k.size)))
      ])
      | inr (i, at, fits, size, e) ↦ rw e (
          received_set now p i j _ fits
            (elim h [ inl old ↦ inl old | inr (at', _) ↦ inr (omega arith) ]))
    ]

arrive-Keeps :
    (now : ℕ) (whole offsets : List ℕ) (p : PendingPiece)
    → Keeps whole p
    → Keeps whole (arrive now whole offsets p)
unfolding arrive
arrive-Keeps now whole [] p k = k
arrive-Keeps now whole (offset ∷ offsets) p k =
    arrive-Keeps now whole offsets _ (step-Keeps now whole p offset k)

arrive-received :
    (now : ℕ) (whole offsets : List ℕ) (p : PendingPiece) (j : ℕ)
    → Keeps whole p
    → j * 16384 < length whole
    → (received p j ≡ true) ⊎ In (j * 16384) offsets
    → received (arrive now whole offsets p) j ≡ true
unfolding arrive
arrive-received now whole [] p j k inside (inl old) = old
arrive-received now whole [] p j k inside (inr m) = elim m [ ]
arrive-received now whole (offset ∷ offsets) p j k inside (inl old) =
    arrive-received now whole offsets _ j (step-Keeps now whole p offset k) inside
      (inl (step-received now whole p offset j k (inl old)))
arrive-received now whole (offset ∷ offsets) p j k inside (inr m) =
    arrive-received now whole offsets _ j (step-Keeps now whole p offset k) inside (now_or_later m)
  where
    now_or_later :
        In (j * 16384) (offset ∷ offsets)
        → (received (add_block now p offset (take 16384 (drop offset whole))).0 j ≡ true)
          ⊎ In (j * 16384) offsets
    now_or_later (first e) =
        inl (step-received now whole p offset j k (inr (sym e, rw (← e) inside)))
    now_or_later (later _ rest) = inr rest

-- A piece of at most 256 MiB whose blocks arrive in any order, with repetitions and among other
-- offsets, is complete once every block has come, and then gives back exactly its bytes.
pub arrive_whole :
    (now index : ℕ) (whole offsets : List ℕ)
    → length whole ≤ 256 * 1024 * 1024
    → ((j : ℕ) → j * 16384 < length whole → In (j * 16384) offsets)
    → (is_complete (arrive now whole offsets (new now index (length whole))) ≡ true)
      × (piece_data (arrive now whole offsets (new now index (length whole))) ≡ some whole)
arrive_whole now index whole offsets small all =
    (complete, piece_data-Holds whole after k.valid k.holds k.size complete)
  where
    start : Keeps whole (new now index (length whole))
    start = record {
      valid = new-IsValid now index (length whole) small;
      holds = new-Holds now index whole;
      size = new_length now index whole;
    }

    after : PendingPiece
    after = arrive now whole offsets (new now index (length whole))

    k : Keeps whole after
    k = arrive-Keeps now whole offsets _ start

    each : (j : ℕ) → j < length after.blocks → received after j ≡ true
    each j h =
        let inside : j * 16384 < length whole = omega (
          arith,
          k.size,
          ceil-upper after.length 16384 j (omega arith) (rw (← k.valid.divided) h),
        ) in
        arrive-received now whole offsets _ j start inside (inr (all j inside))

    complete : is_complete after ≡ true
    complete = each_complete after k.valid each

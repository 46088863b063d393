-- ===== src/Piece/Selected/Marks.antt =====
-- Which pieces a file selection of src/torrent/piece.rs wants.
use gosh_dl.Base.{
  ℕ, zero, suc, ◌+◌, ◌-◌, ◌*◌, ◌%◌, ◌^◌, ◌≡◌, ◌≤◌, ◌<◌, refl, ◌⊎◌, inl, inr, Bool, true, false,
  List, [], ◌∷◌, none, some, arith, if◌then◌else◌, ◌==◌, leb, length, get_elem?, set, replicate,
  min, Bool-cases, Option-cases, ◌||◌, In, first, later, length-set, length-replicate,
}
use mathlib.Core.Path.{subst, ◌∙◌}
use gosh_dl.Metainfo.{Info, FileInfo}
use gosh_dl.Metainfo.Ranges.{div-le, le-div}
use gosh_dl.Piece.Manager.{PieceManager, num_pieces, bit, is_piece_wanted}
use gosh_dl.Piece.Selected.{mark, first_piece, last_piece, mark_files, set_selected_files}

bit-set :
    (bits : List Bool) (i j : ℕ)
    → bit (set bits i true) j
      ≡ (if i == j then leb (suc j) (length bits) || bit bits j else bit bits j)
bit-set [] i j = ground arith
bit-set (b ∷ bits) zero zero = ground arith
bit-set (b ∷ bits) zero (suc j) = ground arith
bit-set (b ∷ bits) (suc i) zero = ground arith
bit-set (b ∷ bits) (suc i) (suc j) = ground (arith, bit-set bits i j)

-- `mark` sets exactly its range, as far as there are bits.
bit-mark :
    (bits : List Bool) (i n j : ℕ)
    → j < length bits
    → (bit (mark bits i n) j ≡ true → (bit bits j ≡ true) ⊎ ((i ≤ j) × (j < i + n)))
      × ((bit bits j ≡ true) ⊎ ((i ≤ j) × (j < i + n)) → bit (mark bits i n) j ≡ true)
unfolding mark
bit-mark bits i zero j h = (λ t. inl t, λ c. elim c [ inl t ↦ t | inr r ↦ absurd (omega arith) ])
bit-mark bits i (suc n) j h =
    let (down, up) =
      bit-mark (set bits i true) (suc i) n j (omega (arith, length-set bits i true)) in
    let here = bit-set bits i j in
    (
      λ t. elim (down t) [
        | inl set_now ↦ elim (Bool-cases (i == j)) [
          | inl same ↦ inr (ground arith, ground arith)
          | inr other ↦ inl (ground (arith, here, set_now))
        ]
        | inr r ↦ inr (omega arith, omega arith)
      ],
      λ c. elim c [
        | inl old ↦ up (inl (ground (arith, here, old)))
        | inr r ↦ elim (Bool-cases (i == j)) [
          | inl same ↦ up (inl (ground (arith, here)))
          | inr other ↦ up (inr (ground arith, omega arith))
        ]
      ],
    )

length-mark : (bits : List Bool) (i n : ℕ) → length (mark bits i n) ≡ length bits
unfolding mark
length-mark bits i zero = refl
length-mark bits i (suc n) =
    omega (arith, length-mark (set bits i true) (suc i) n, length-set bits i true)

bit-none : (n j : ℕ) → bit (replicate n false) j ≡ false
bit-none zero j = refl
bit-none (suc n) zero = refl
bit-none (suc n) (suc j) = bit-none n j

-- Piece `j` is one of those that the file spans by the code's reckoning.
abbrev pub Spans : Info → FileInfo → ℕ → Type 0
Spans info file j = (first_piece info file ≤ j) × (j ≤ last_piece info file)

-- A selected file of the torrent spans piece `j`.
abbrev pub Selects : Info → List ℕ → ℕ → Type 0
Selects info indices j =
    (k : ℕ) × (file : FileInfo) × In k indices
    × (get_elem? info.files k ≡ some file)
    × Spans info file j

later_Selects :
    (info : Info) (index : ℕ) (indices : List ℕ) (j : ℕ)
    → Selects info indices j
    → Selects info (index ∷ indices) j
later_Selects info index indices j (k, file, m, at, spans) = (k, file, later index m, at, spans)

mark_files_sound :
    (info : Info) (wanted : List Bool) (indices : List ℕ) (j : ℕ)
    → length wanted ≡ length info.pieces
    → j < length info.pieces
    → bit (mark_files info wanted indices) j ≡ true
    → (bit wanted j ≡ true) ⊎ Selects info indices j
unfolding mark_files
mark_files_sound info wanted [] j sized h t = inl t
mark_files_sound info wanted (index ∷ indices) j sized h t =
    elim (Option-cases (get_elem? info.files index)) [
      | inl e ↦ elim (mark_files_sound info wanted indices j sized h (rw (e, mark_files) at t)) [
        | inl old ↦ inl old
        | inr found ↦ inr (later_Selects info index indices j found)
      ]
      | inr (file, e) ↦
          let i = first_piece info file in
          let n = min (last_piece info file) (length info.pieces - 1) + 1 - i in
          elim (mark_files_sound info (mark wanted i n) indices j (length-mark wanted i n ∙ sized) h
            (rw (e, mark_files) at t)) [
              | inr found ↦ inr (later_Selects info index indices j found)
              | inl marked ↦ elim ((bit-mark wanted i n j (omega (arith, sized))).0 marked) [
                | inl old ↦ inl old
                | inr (low, high) ↦ inr (index, file, first refl, e, (low, omega arith))
              ]
            ]
    ]

mark_files_complete :
    (info : Info) (wanted : List Bool) (indices : List ℕ) (j : ℕ)
    → length wanted ≡ length info.pieces
    → j < length info.pieces
    → (bit wanted j ≡ true) ⊎ Selects info indices j
    → bit (mark_files info wanted indices) j ≡ true
unfolding mark_files
mark_files_complete info wanted [] j sized h (inl old) = old
mark_files_complete info wanted [] j sized h (inr (k, file, m, at, spans)) = elim m [ ]
mark_files_complete info wanted (index ∷ indices) j sized h c =
    elim (Option-cases (get_elem? info.files index)) [
      | inl e ↦
          rw (e, mark_files)
            (mark_files_complete info wanted indices j sized h (elim c [
              | inl old ↦ inl old
              | inr (k, file, m, at, spans) ↦ inr (k, file, not_first k file at e m, at, spans)
            ]))
      | inr (file, e) ↦
          let i = first_piece info file in
          let n = min (last_piece info file) (length info.pieces - 1) + 1 - i in
          let marks = (bit-mark wanted i n j (omega (arith, sized))).1 in
          rw (e, mark_files)
            (mark_files_complete info (mark wanted i n) indices j (length-mark wanted i n ∙ sized) h
              (elim c [
                | inl old ↦ inl (marks (inl old))
                | inr found ↦ elim (head_or_later found) [
                  | inr rest ↦ inr rest
                  | inl spans ↦ inl (marks (inr (here file e spans)))
                ]
              ]))
    ]
  where
    not_first :
        (k : ℕ) (file : FileInfo)
        → get_elem? info.files k ≡ some file
        → get_elem? info.files index ≡ none
        → In k (index ∷ indices)
        → In k indices
    not_first k file at gone (first e) = absurd (let at' = rw e at at in cc)
    not_first k file at gone (later _ m) = m

    head_or_later :
        Selects info (index ∷ indices) j
        → ((file : FileInfo) × (get_elem? info.files index ≡ some file) × Spans info file j)
          ⊎ Selects info indices j
    head_or_later (k, file, first e, at, spans) = inl (file, rw e at at, spans)
    head_or_later (k, file, later _ m, at, spans) = inr (k, file, m, at, spans)

    here :
        (file : FileInfo)
        → get_elem? info.files index ≡ some file
        → ((other : FileInfo) × (get_elem? info.files index ≡ some other) × Spans info other j)
        → (first_piece info file ≤ j)
          × (j
              < first_piece info file
                + (min (last_piece info file) (length info.pieces - 1) + 1 - first_piece info file))
    here file e (other, e', spans) =
        let same : other ≡ file = ground (arith, e, e') in
        let spans' = subst (λ f. Spans info f j) same spans in (spans'.0, omega (arith, spans'))

-- With a positive piece length, after a selection of files a piece of the torrent is wanted exactly if
-- one of the selected files spans it; with no file selected every piece is wanted.
pub set_selected_files-wanted :
    (m : PieceManager) (index : ℕ) (indices : List ℕ) (j : ℕ)
    → 0 < m.info.piece_length
    → j < num_pieces m
    → (is_piece_wanted (set_selected_files m (some (index ∷ indices))) j ≡ true
        → Selects m.info (index ∷ indices) j)
      × (Selects m.info (index ∷ indices) j
          → is_piece_wanted (set_selected_files m (some (index ∷ indices))) j ≡ true)
      × (is_piece_wanted (set_selected_files m none) j ≡ true)
      × (is_piece_wanted (set_selected_files m (some [])) j ≡ true)
unfolding set_selected_files is_piece_wanted
set_selected_files-wanted m index indices j positive h =
    let none_set = replicate (num_pieces m) false in
    let sized = length-replicate (num_pieces m) false in
    let guard : ((num_pieces m == 0) || (m.info.piece_length == 0)) ≡ false = ground arith in
    (
      λ t. elim (mark_files_sound m.info none_set (index ∷ indices) j sized h (rw guard at t)) [
        | inl old ↦ absurd (let clear = bit-none (num_pieces m) j in cc)
        | inr found ↦ found
      ],
      λ c. rw guard (mark_files_complete m.info none_set (index ∷ indices) j sized h (inr c)),
      refl,
      refl,
    )

-- A file that is not empty spans every piece that its bytes overlap.
pub overlap-Spans :
    (info : Info) (file : FileInfo) (j : ℕ)
    → 0 < info.piece_length
    → file.offset + file.length < 2 ^ 64
    → file.offset < suc j * info.piece_length
    → j * info.piece_length < file.offset + file.length
    → Spans info file j
overlap-Spans info file j positive room before after =
    let size : (file.offset + file.length) % 2 ^ 64 ≡ file.offset + file.length = omega arith in
    (
      div-le file.offset info.piece_length j positive before,
      ground (
        arith,
        size,
        le-div (file.offset + file.length - 1) info.piece_length j positive (omega arith),
      ),
    )

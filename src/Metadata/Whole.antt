-- ===== src/Metadata/Whole.antt =====
-- src/torrent/metadata.rs: the pieces of the metadata, in any order, give the metadata.
use gosh_dl.Base.{
  ℕ, zero, suc, ◌+◌, ◌-◌, ◌*◌, ◌/◌, ◌%◌, ◌≤◌, ◌<◌, min, ◌≡◌, refl, ap, sym, ◌∙◌, subst, ◌⊎◌, inl,
  inr, ◌≢◌, Bool, true, false, not, ◌&&◌, ◌||◌, List, [], ◌∷◌, ◌++◌, none, some, arith, ◌==◌, ltb,
  leb, length, take, drop, lookup, insert, remove, IsMap, insert-IsMap, lookup-insert,
  lookup-insert_cases, IsBelow, length_full, length_missing, same_bytes, same_bytes_self,
  Bool-cases, ltb→lt, ==_refl, Option-cases, if_true, if_false, has, take-drop, drop-drop, drop_all,
  length-take, length-drop, leb→le,
}
use gosh_dl.Base.Result.{Result, ok}
use gosh_dl.Metadata.{
  data_message, MetadataFetcher, new, metadata_piece_size, max_metadata_size, pieces_of, assembled,
  expected_size, is_refused, agrees, verify, verify_assembled, assemble_and_verify, store_piece,
  process_data, unless_done, process_typed, process_message,
}

whole_size :
    (len i : ℕ)
    → i < len / metadata_piece_size
    → min metadata_piece_size (len - i * metadata_piece_size) ≡ metadata_piece_size
whole_size len i h = omega arith

last_size :
    (len i : ℕ)
    → len / metadata_piece_size ≤ i
    → i < pieces_of len
    → min metadata_piece_size (len - i * metadata_piece_size) ≡ len % metadata_piece_size
last_size len i h l = omega arith

pub accept :
    (a b c d e : Bool)
    → a ≡ false
    → b ≡ false
    → c ≡ false
    → d ≡ true
    → (a || (b || (c || (not d && not e)))) ≡ false
accept a b c d e ha hb hc hd = rw (ha, hb, hc, hd) refl

not_lt : (a b : ℕ) → ltb a b ≡ false → b ≤ a
not_lt a b h = ground arith

some_is_something {ℓ} : {A : Type ℓ} {a : A} → some a ≡ none → ⊥
some_is_something h = absurd cc

module _ (metadata : List ℕ) where
  abbrev pub piece_of : ℕ → List ℕ
  piece_of i = take metadata_piece_size (drop (i * metadata_piece_size) metadata)

  abbrev pub count : ℕ
  count = pieces_of (length metadata)

  length-piece_of : (i : ℕ) → i < count → length (piece_of i) ≡ expected_size (length metadata) i
  length-piece_of i l =
      let size =
        length-take metadata_piece_size (drop (i * metadata_piece_size) metadata)
        ∙ ap (min metadata_piece_size) (length-drop (i * metadata_piece_size) metadata) in
      elim (Bool-cases (ltb i (length metadata / metadata_piece_size))) [
        | inl whole ↦ rw whole (
            size
            ∙ whole_size (length metadata) i
                (ltb→lt i (length metadata / metadata_piece_size) whole))
        | inr last ↦ rw last (size ∙ last_size (length metadata) i (not_lt i _ last) l)
      ]

  piece_accepted :
      (i : ℕ)
      → i < count
      → 0 < length metadata
      → length metadata ≤ max_metadata_size
      → is_refused (length metadata) i (piece_of i) ≡ false
  piece_accepted i l p m =
      let some_bytes : (length metadata == 0) ≡ false = ground arith in
      let small : ltb max_metadata_size (length metadata) ≡ false = ground arith in
      let known : leb count i ≡ false = ground arith in
      let sized : (length (piece_of i) == expected_size (length metadata) i) ≡ true =
        rw (length-piece_of i l) (==_refl (expected_size (length metadata) i)) in
      accept (length metadata == 0) (ltb max_metadata_size (length metadata)) (leb count i)
        (length (piece_of i) == expected_size (length metadata) i)
        (expected_size (length metadata) i == 0) some_bytes small known sized

  assembled_pieces :
      (i left : ℕ) (pieces : List (ℕ × List ℕ))
      → i + left ≡ count
      → ((j : ℕ) → j < count → lookup j pieces ≡ some (piece_of j))
      → assembled i left pieces ≡ some (drop (i * metadata_piece_size) metadata)
  unfolding assembled
  assembled_pieces i zero pieces e h =
      ap some (sym (drop_all (i * metadata_piece_size) metadata (omega arith)))
  assembled_pieces i (suc left) pieces e h =
      let here_piece = h i (omega arith) in
      let later = assembled_pieces (i + 1) left pieces (omega arith) h in
      rw (assembled, here_piece, later)
        (ap some (
          ap (λ k. piece_of i ++ drop k metadata) {x = (i + 1) * metadata_piece_size}
            {y = i * metadata_piece_size + metadata_piece_size} (omega arith)
          ∙ ap (λ rest. piece_of i ++ rest)
              (sym (drop-drop metadata_piece_size (i * metadata_piece_size) metadata))
          ∙ take-drop metadata_piece_size (drop (i * metadata_piece_size) metadata)))

  -- All pieces together, cut to the size of the metadata, are the metadata.
  assembled_whole :
      (pieces : List (ℕ × List ℕ))
      → ((j : ℕ) → j < count → lookup j pieces ≡ some (piece_of j))
      → assembled 0 count pieces ≡ some metadata
  assembled_whole pieces h =
      assembled_pieces 0 count pieces (omega arith) h
      ∙ ap (λ k. some (drop k metadata)) {x = 0 * metadata_piece_size} {y = 0} (omega arith)

still_there :
    (i j : ℕ) (delivered : List ℕ) (new_piece : List ℕ) (pieces : List (ℕ × List ℕ))
    → has (i ∷ delivered) j ≡ true
    → (has delivered j ≡ true → lookup j pieces ≢ none)
    → lookup j (insert i new_piece pieces) ≢ none
still_there i j delivered new_piece pieces h before gone = elim (Bool-cases (i == j)) [
  | inl same ↦
      let there : lookup j (insert i new_piece pieces) ≡ some new_piece =
        lookup-insert i j new_piece pieces ∙ if_true (i == j) _ _ same in
      absurd (some_is_something {a = new_piece} (sym there ∙ gone))
  | inr differs ↦
      let there : lookup j (insert i new_piece pieces) ≡ lookup j pieces =
        lookup-insert i j new_piece pieces ∙ if_false (i == j) _ _ differs in
      before (ground (arith, h, differs)) (sym there ∙ gone)
]

some_pieces : (len : ℕ) → 0 < len → 0 < pieces_of len
some_pieces len p = omega arith

contradiction : (a b : ℕ) → a < b → b ≤ a → ⊥
contradiction a b h k = absurd (omega arith)

not_leb : (a b : ℕ) → leb a b ≡ false → b < a
not_leb a b h = ground arith

has_self : (i : ℕ) (later : List ℕ) → has (i ∷ later) i ≡ true
has_self i later = rw (==_refl i) refl

take_whole : (xs : List ℕ) → take (length xs) xs ≡ xs
take_whole [] = refl
take_whole (x ∷ xs) = ap (λ ys. x ∷ ys) (take_whole xs)

module _ (sha1 : List ℕ → List ℕ) (metadata : List ℕ) where
  -- The pieces that are there are the right ones, and those delivered are there.
  pub record Parts (delivered : List ℕ) (pieces : List (ℕ × List ℕ)) : Type 0 where
    pub below : IsBelow (count metadata) pieces
    pub right : (i : ℕ) (p : List ℕ) → lookup i pieces ≡ some p → p ≡ piece_of metadata i
    pub there : (i : ℕ) → has delivered i ≡ true → lookup i pieces ≢ none
    pub distinct : IsMap pieces

  insert-Parts :
      (delivered : List ℕ) (i : ℕ) (pieces : List (ℕ × List ℕ))
      → Parts delivered pieces
      → i < count metadata
      → Parts (i ∷ delivered) (insert i (piece_of metadata i) pieces)
  insert-Parts delivered i pieces g l =
      let new_piece = piece_of metadata i in
      record {
        below = λ j p h. elim (lookup-insert_cases i j new_piece p pieces h) [
          | inl (same, _) ↦ subst (λ k. k < count metadata) same l
          | inr before ↦ g.below j p before
        ];
        right = λ j p h. elim (lookup-insert_cases i j new_piece p pieces h) [
          | inl (same, e) ↦ e ∙ ap (piece_of metadata) same
          | inr before ↦ g.right j p before
        ];
        there = λ j h gone. still_there i j delivered new_piece pieces h (g.there j) gone;
        distinct = insert-IsMap i new_piece pieces g.distinct;
      }

  -- Parts that are not all there yet.
  pub record Gathering (delivered : List ℕ) (f : MetadataFetcher) : Type 0 where
    pub unknown : f.metadata ≡ none
    pub wanted : f.info_hash ≡ sha1 metadata
    pub size : agrees f.known_size (length metadata) ≡ true
    pub parts : Parts delivered f.pieces
    pub few : length f.pieces < count metadata

  -- The metadata is there, or it is being gathered.
  abbrev pub Gathered : List ℕ → MetadataFetcher → Type 0
  Gathered delivered f = (f.metadata ≡ some metadata) ⊎ Gathering delivered f

  -- When there are as many pieces as the metadata has, each of them is there.
  every_piece :
      (delivered : List ℕ) (pieces : List (ℕ × List ℕ)) (j : ℕ)
      → Parts delivered pieces
      → count metadata ≤ length pieces
      → j < count metadata
      → lookup j pieces ≡ some (piece_of metadata j)
  every_piece delivered pieces j g full l = elim (Option-cases (lookup j pieces)) [
    | inl e ↦
        let short = length_missing (count metadata) j pieces g.distinct g.below l e in
        absurd (contradiction (length pieces) (count metadata) short full)
    | inr (p, e) ↦ e ∙ ap some (g.right j p e)
  ]

  complete_lem :
      (f : MetadataFetcher)
      → f.info_hash ≡ sha1 metadata
      → ((j : ℕ) → j < count metadata → lookup j f.pieces ≡ some (piece_of metadata j))
      → (assemble_and_verify sha1 (length metadata) f).1.metadata ≡ some metadata
  unfolding assemble_and_verify
  complete_lem f w h =
      let hashed : same_bytes (sha1 metadata) f.info_hash ≡ true =
        ap (same_bytes (sha1 metadata)) w ∙ same_bytes_self (sha1 metadata) in
      ap (λ r. (verify_assembled sha1 (length metadata) r f).1.metadata)
        (assembled_whole metadata f.pieces h)
      ∙ ap (λ bytes. (verify sha1 bytes f).1.metadata) (take_whole metadata)
      ∙ ap (λ (r : Bool × MetadataFetcher). r.1.metadata)
          (if_true (same_bytes (sha1 metadata) f.info_hash) _ _ hashed)

  store_lem :
      (delivered : List ℕ) (i : ℕ) (f : MetadataFetcher)
      → Gathering delivered f
      → i < count metadata
      → Gathered (i ∷ delivered) (store_piece sha1 (length metadata) i (piece_of metadata i) f).1
  unfolding store_piece
  store_lem delivered i f g l =
      let stored = record f {
        known_size = some (length metadata);
        pieces = insert i (piece_of metadata i) f.pieces;
        pending_requests = remove i f.pending_requests;
      } in
      let parts = insert-Parts delivered i f.pieces g.parts l in
      elim (Bool-cases (leb (count metadata) (length stored.pieces))) [
        | inl full ↦
            let enough = leb→le (count metadata) (length stored.pieces) full in
            inl (
              ap (λ (r : Bool × MetadataFetcher). r.1.metadata)
                (if_true (leb (count metadata) (length stored.pieces)) _ _ full)
              ∙ complete_lem stored g.wanted
                  (λ j. every_piece (i ∷ delivered) stored.pieces j parts enough))
        | inr part ↦
            let still : Gathering (i ∷ delivered) stored = record {
              unknown = g.unknown;
              wanted = g.wanted;
              size = ==_refl (length metadata);
              parts = parts;
              few = not_leb (count metadata) (length stored.pieces) part;
            } in
            subst (λ (r : Bool × MetadataFetcher). Gathered (i ∷ delivered) r.1)
              (sym (if_false (leb (count metadata) (length stored.pieces)) _ (false, stored) part))
              (inr still)
      ]

  -- A peer that has the metadata sends a piece of it.
  abbrev pub send_piece : ℕ → MetadataFetcher → MetadataFetcher
  send_piece i f =
      (process_message sha1 (data_message i (length metadata) (piece_of metadata i)) f).1

  -- The pieces that the list names are delivered, its last first.
  unfoldable pub send_all : List ℕ → MetadataFetcher → MetadataFetcher
  send_all [] f = f
  send_all (i ∷ later) f = send_piece i (send_all later f)

  send_piece_lem :
      (delivered : List ℕ) (i : ℕ) (f : MetadataFetcher)
      → Gathered delivered f
      → i < count metadata
      → 0 < length metadata
      → length metadata ≤ max_metadata_size
      → Gathered (i ∷ delivered) (send_piece i f)
  unfolding process_message process_typed process_data
  send_piece_lem delivered i f (inl e) l p m = inl (
      ap
        (λ done.
          (unless_done sha1 done
            (process_data sha1 (some (length metadata)) (some (piece_of metadata i)) i f)
            f).1.metadata)
        e
      ∙ e)
  send_piece_lem delivered i f (inr g) l p m =
      let result = process_data sha1 (some (length metadata)) (some (piece_of metadata i)) i f in
      let (complete, after) = store_piece sha1 (length metadata) i (piece_of metadata i) f in
      let taken : result ≡ (ok complete, after) =
        if_false (is_refused (length metadata) i (piece_of metadata i)) _ _
          (piece_accepted metadata i l p m)
        ∙ if_true (agrees f.known_size (length metadata)) _ _ g.size in
      subst (λ done. Gathered (i ∷ delivered) (unless_done sha1 done result f).1) (sym g.unknown)
        (subst (λ (r : Result Bool × MetadataFetcher). Gathered (i ∷ delivered) r.1) (sym taken)
          (store_lem delivered i f g l))

  send_all_lem :
      (delivered : List ℕ) (f : MetadataFetcher)
      → Gathered [] f
      → ((i : ℕ) → has delivered i ≡ true → i < count metadata)
      → 0 < length metadata
      → length metadata ≤ max_metadata_size
      → Gathered delivered (send_all delivered f)
  unfolding send_all
  send_all_lem [] f g below p m = g
  send_all_lem (i ∷ later) f g below p m =
      send_piece_lem later i (send_all later f)
        (send_all_lem later f g (λ j h. below j (ground (arith, h))) p m)
        (below i (has_self i later)) p m

  new_lem : 0 < length metadata → Gathered [] (new (sha1 metadata))
  unfolding lookup
  new_lem p = inr record {
    unknown = refl;
    wanted = refl;
    size = refl;
    parts = record {
      below = λ i piece e. absurd (some_is_something (sym e));
      right = λ i piece e. absurd (some_is_something (sym e));
      there = λ i e. absurd cc;
      distinct = tt;
    };
    few = some_pieces (length metadata) p;
  }

  -- Metadata of 1 to 16777216 bytes, delivered piece by piece in any order, with repetitions, are
  -- at the end the metadata that the fetcher has, if each piece was delivered.
  pub send_all_complete :
      (delivered : List ℕ)
      → 0 < length metadata
      → length metadata ≤ max_metadata_size
      → ((i : ℕ) → has delivered i ≡ true → i < count metadata)
      → ((i : ℕ) → i < count metadata → has delivered i ≡ true)
      → (send_all delivered (new (sha1 metadata))).metadata ≡ some metadata
  send_all_complete delivered p m below every =
      elim (send_all_lem delivered (new (sha1 metadata)) (new_lem p) below p m) [
        | inl e ↦ e
        | inr g ↦
            let f = send_all delivered (new (sha1 metadata)) in
            let full = length_full (count metadata) f.pieces (λ i l. g.parts.there i (every i l)) in
            absurd (contradiction (length f.pieces) (count metadata) g.few full)
      ]

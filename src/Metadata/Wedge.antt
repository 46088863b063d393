-- ===== src/Metadata/Wedge.antt =====
-- src/torrent/metadata.rs: the size that the first peer claims, when it is wrong.
use gosh_dl.Base.{
  ℕ, ◌/◌, ◌≤◌, ◌<◌, ◌≡◌, ◌≢◌, refl, ap, ◌∙◌, Bool, true, false, List, [], ◌∷◌, Option, none, some,
  arith, if◌then◌else◌, ◌==◌, ltb, leb, length, insert, remove, if_true, if_false,
}
use gosh_dl.Base.Result.{Result, failed}
use gosh_dl.Metadata.{
  data_message, MetadataFetcher, new, metadata_piece_size, max_metadata_size, pieces_of,
  expected_size, is_refused, agrees, store_piece, process_data, unless_done, process_typed,
  process_message,
}
use gosh_dl.Metadata.Whole.{accept, send_piece, send_all, piece_of}

first_size :
    (claimed : ℕ) → metadata_piece_size < claimed → expected_size claimed 0 ≡ metadata_piece_size
first_size claimed l = if_true (ltb 0 (claimed / metadata_piece_size)) _ _ (ground arith)

several : (claimed : ℕ) → metadata_piece_size < claimed → 1 < pieces_of claimed
several claimed l = omega arith

first_accepted :
    (claimed : ℕ) (bytes : List ℕ)
    → metadata_piece_size < claimed
    → claimed ≤ max_metadata_size
    → length bytes ≡ metadata_piece_size
    → is_refused claimed 0 bytes ≡ false
first_accepted claimed bytes l m e =
    let some_bytes : (claimed == 0) ≡ false = ground arith in
    let small : ltb max_metadata_size claimed ≡ false = ground arith in
    let many = several claimed l in
    let known : leb (pieces_of claimed) 0 ≡ false = ground (arith, many) in
    let sized : (length bytes == expected_size claimed 0) ≡ true =
      rw (e, first_size claimed l) refl in
    accept (claimed == 0) (ltb max_metadata_size claimed) (leb (pieces_of claimed) 0)
      (length bytes == expected_size claimed 0) (expected_size claimed 0 == 0) some_bytes small
      known sized

either_way {ℓ} : {A : Type ℓ} (b : Bool) {x y z : A} → x ≡ z → y ≡ z → (if b then x else y) ≡ z
either_way true h k = h
either_way false h k = k

unless_done_same :
    (sha1 : List ℕ → List ℕ) (done : Option (List ℕ)) (r : Result Bool × MetadataFetcher)
    (f : MetadataFetcher)
    → r.1 ≡ f
    → (unless_done sha1 done r f).1 ≡ f
unless_done_same sha1 none r f h = h
unless_done_same sha1 (some bytes) r f h = refl

module _ (sha1 : List ℕ → List ℕ) (metadata : List ℕ) where
  -- A claim that is known keeps a piece of metadata of another size out.
  send_piece_refused :
      (i claimed : ℕ) (f : MetadataFetcher)
      → f.known_size ≡ some claimed
      → claimed ≢ length metadata
      → send_piece sha1 metadata i f ≡ f
  unfolding process_message process_typed process_data
  send_piece_refused i claimed f e n =
      let disagree : agrees f.known_size (length metadata) ≡ false =
        ap (λ k. agrees k (length metadata)) e ∙ ground (arith, n) in
      let refused : process_data sha1 (some (length metadata)) (some (piece_of metadata i)) i f
          ≡ (failed, f) =
        either_way (is_refused (length metadata) i (piece_of metadata i)) refl
          (if_false (agrees f.known_size (length metadata)) _ _ disagree) in
      unless_done_same sha1 f.metadata _ f (ap (λ (r : Result Bool × MetadataFetcher). r.1) refused)

  send_all_refused :
      (delivered : List ℕ) (claimed : ℕ) (f : MetadataFetcher)
      → f.known_size ≡ some claimed
      → claimed ≢ length metadata
      → send_all sha1 metadata delivered f ≡ f
  unfolding send_all
  send_all_refused [] claimed f e n = refl
  send_all_refused (i ∷ later) claimed f e n =
      ap (send_piece sha1 metadata i) (send_all_refused later claimed f e n)
      ∙ send_piece_refused i claimed f e n

  -- The fetcher after the first message, with a piece of metadata of a size that is claimed.
  abbrev pub after_claim : ℕ → List ℕ → MetadataFetcher
  after_claim claimed junk = record {
    info_hash = sha1 metadata;
    known_size = some claimed;
    pieces = insert 0 junk [];
    pending_requests = [];
    metadata = none;
  }

  store_first :
      (claimed : ℕ) (junk : List ℕ)
      → metadata_piece_size < claimed
      → (store_piece sha1 claimed 0 junk (new (sha1 metadata))).1 ≡ after_claim claimed junk
  unfolding store_piece insert remove
  store_first claimed junk l =
      let many = several claimed l in
      let part : leb (pieces_of claimed) 1 ≡ false = ground (arith, many) in
      ap (λ (r : Bool × MetadataFetcher). r.1)
        (if_false (leb (pieces_of claimed) 1) _ (false, after_claim claimed junk) part)

  claim_lem :
      (claimed : ℕ) (junk : List ℕ)
      → metadata_piece_size < claimed
      → claimed ≤ max_metadata_size
      → length junk ≡ metadata_piece_size
      → (process_message sha1 (data_message 0 claimed junk) (new (sha1 metadata))).1
        ≡ after_claim claimed junk
  unfolding process_message process_typed process_data
  claim_lem claimed junk l m e =
      ap (λ (r : Result Bool × MetadataFetcher). r.1)
        (if_false (is_refused claimed 0 junk) _ _ (first_accepted claimed junk l m e))
      ∙ store_first claimed junk l

  -- When the first piece comes from a peer that claims another size, of several pieces, whatever
  -- pieces of the metadata others then send_piece, the metadata never becomes known.
  pub wrong_size_blocks :
      (claimed : ℕ) (junk : List ℕ) (delivered : List ℕ)
      → metadata_piece_size < claimed
      → claimed ≤ max_metadata_size
      → length junk ≡ metadata_piece_size
      → claimed ≢ length metadata
      → let (_, first) = process_message sha1 (data_message 0 claimed junk) (new (sha1 metadata)) in
        (send_all sha1 metadata delivered first).metadata ≡ none
  wrong_size_blocks claimed junk delivered l m e n =
      ap (λ f. (send_all sha1 metadata delivered f).metadata) (claim_lem claimed junk l m e)
      ∙ ap (λ (f : MetadataFetcher). f.metadata)
          (send_all_refused delivered claimed (after_claim claimed junk) refl n)

-- ===== src/Metadata/Gather.antt =====
-- src/torrent/metadata.rs: what a fetcher has is verified, and the pieces of the metadata, in any
-- order, give the metadata.
use gosh_dl.Base.{
  ℕ, ◌≡◌, inl, inr, Bool, true, false, List, Option, none, some, if◌then◌else◌, leb, length, take,
  insert, same_bytes, same_bytes-eq, Bool-cases,
}
use gosh_dl.Base.Result.{Result}
use gosh_dl.Metadata.{
  MetadataMessage, MetadataMessageType, request, data_piece, reject, MetadataFetcher, pieces_of,
  assembled, is_refused, agrees, verify, verify_assembled, assemble_and_verify, store_piece,
  process_data, unless_done, process_typed, process_message,
}

module _ (sha1 : List ℕ → List ℕ) where
  -- The metadata that a fetcher has hash to the info hash.
  abbrev pub IsVerified : Option (List ℕ) → List ℕ → Type 0
  IsVerified none info_hash = Unit
  IsVerified (some bytes) info_hash = sha1 bytes ≡ info_hash

  verify-IsVerified :
      (bytes : List ℕ) (f : MetadataFetcher)
      → IsVerified f.metadata f.info_hash
      → let (_, after) = verify sha1 bytes f in IsVerified after.metadata after.info_hash
  verify-IsVerified bytes f h = elim (Bool-cases (same_bytes (sha1 bytes) f.info_hash)) [
    | inl same ↦ rw same (same_bytes-eq (sha1 bytes) f.info_hash same)
    | inr other ↦ rw other h
  ]

  choose-IsVerified {ℓ} :
      {A : Type ℓ} (b : Bool) (x y : A × MetadataFetcher)
      → IsVerified x.1.metadata x.1.info_hash
      → IsVerified y.1.metadata y.1.info_hash
      → let r = if b then x else y in IsVerified r.1.metadata r.1.info_hash
  choose-IsVerified true x y h k = h
  choose-IsVerified false x y h k = k

  verify_assembled-IsVerified :
      (size : ℕ) (bytes : Option (List ℕ)) (f : MetadataFetcher)
      → IsVerified f.metadata f.info_hash
      → let (_, after) = verify_assembled sha1 size bytes f in
        IsVerified after.metadata after.info_hash
  verify_assembled-IsVerified size none f h = h
  verify_assembled-IsVerified size (some bytes) f h = verify-IsVerified (take size bytes) f h

  store_piece-IsVerified :
      (size piece : ℕ) (bytes : List ℕ) (f : MetadataFetcher)
      → IsVerified f.metadata f.info_hash
      → let (_, after) = store_piece sha1 size piece bytes f in
        IsVerified after.metadata after.info_hash
  unfolding store_piece assemble_and_verify
  store_piece-IsVerified size piece bytes f h =
      choose-IsVerified (leb (pieces_of size) (length (insert piece bytes f.pieces))) _ _
        (verify_assembled-IsVerified size
          (assembled 0 (pieces_of size) (insert piece bytes f.pieces)) _ h)
        h

  process_data-IsVerified :
      (size : Option ℕ) (bytes : Option (List ℕ)) (piece : ℕ) (f : MetadataFetcher)
      → IsVerified f.metadata f.info_hash
      → let (_, after) = process_data sha1 size bytes piece f in
        IsVerified after.metadata after.info_hash
  unfolding process_data
  process_data-IsVerified none bytes piece f h = h
  process_data-IsVerified (some size) none piece f h = h
  process_data-IsVerified (some size) (some bytes) piece f h =
      choose-IsVerified (is_refused size piece bytes) _ _ h (
        choose-IsVerified (agrees f.known_size size) _ _
          (store_piece-IsVerified size piece bytes f h) h)

  unless_done-IsVerified :
      (done : Option (List ℕ)) (r : Result Bool × MetadataFetcher) (f : MetadataFetcher)
      → IsVerified r.1.metadata r.1.info_hash
      → IsVerified f.metadata f.info_hash
      → let (_, after) = unless_done sha1 done r f in IsVerified after.metadata after.info_hash
  unless_done-IsVerified none r f h k = h
  unless_done-IsVerified (some bytes) r f h k = k

  process_typed-IsVerified :
      (t : MetadataMessageType) (m : MetadataMessage) (f : MetadataFetcher)
      → IsVerified f.metadata f.info_hash
      → let (_, after) = process_typed sha1 t m f in IsVerified after.metadata after.info_hash
  unfolding process_typed
  process_typed-IsVerified request m f h = h
  process_typed-IsVerified reject m f h = h
  process_typed-IsVerified data_piece m f h =
      unless_done-IsVerified f.metadata (process_data sha1 m.total_size m.piece_data m.piece f) f
        (process_data-IsVerified m.total_size m.piece_data m.piece f h) h

  -- Whatever messages peers send, the metadata that a fetcher has hash to its info hash.
  pub process_message-IsVerified :
      (m : MetadataMessage) (f : MetadataFetcher)
      → IsVerified f.metadata f.info_hash
      → let (_, after) = process_message sha1 m f in IsVerified after.metadata after.info_hash
  unfolding process_message
  process_message-IsVerified m f h = process_typed-IsVerified m.msg_type m f h

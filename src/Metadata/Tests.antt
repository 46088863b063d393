-- ===== src/Metadata/Tests.antt =====
-- src/torrent/metadata.rs: concrete inputs for the theorems on the exchange of metadata.
use gosh_dl.Base.{
  replicate, length-replicate, none, ℕ, ◌<◌, ◌≡◌, true, List, [], ◌∷◌, some, arith, has,
}
use gosh_dl.Metadata.{data_message, new, process_message}
use gosh_dl.Base.Result.{ok}
use gosh_dl.Metadata.Message.{parse_metadata, encode_metadata}
use gosh_dl.Metadata.Message.Wire.{parse_metadata-encode_metadata}
use gosh_dl.Metadata.Gather.{process_message-IsVerified, IsVerified}
use gosh_dl.Metadata.Wedge.{wrong_size_blocks}
use gosh_dl.Metadata.Whole.{send_all, send_all_complete}

abbrev first_two : List ℕ → List ℕ
first_two [] = []
first_two (x ∷ []) = x ∷ []
first_two (x ∷ (y ∷ xs)) = x ∷ (y ∷ [])

abbrev some_metadata : List ℕ
some_metadata = 100 ∷ (101 ∷ (102 ∷ []))

only_first : (i : ℕ) → has (0 ∷ []) i ≡ true → i < 1
only_first i h = ground (arith, h)

first_there : (i : ℕ) → i < 1 → has (0 ∷ []) i ≡ true
first_there i h = ground (arith, h)

send_all_complete_example :
    (send_all first_two some_metadata (0 ∷ []) (new (first_two some_metadata))).metadata
    ≡ some some_metadata
send_all_complete_example =
    send_all_complete first_two some_metadata (0 ∷ []) (omega arith) (omega arith) only_first
      first_there

process_message-IsVerified_example :
    let (_, after) =
      process_message first_two (data_message 0 3 some_metadata) (new (first_two some_metadata)) in
    IsVerified first_two after.metadata after.info_hash
process_message-IsVerified_example =
    process_message-IsVerified first_two (data_message 0 3 some_metadata)
      (new (first_two some_metadata)) tt

wrong_size_blocks_example :
    let (_, first) =
      process_message first_two
        (data_message 0 20000 (replicate 16384 0))
        (new (first_two some_metadata)) in
    (send_all first_two some_metadata (0 ∷ []) first).metadata ≡ none
wrong_size_blocks_example =
    wrong_size_blocks first_two some_metadata 20000 (replicate 16384 0) (0 ∷ []) (omega arith)
      (omega arith) (length-replicate {A = ℕ} 16384 0) (λ e. absurd (omega arith))

parse_metadata-encode_metadata_example :
    parse_metadata (encode_metadata (data_message 0 3 some_metadata))
    ≡ ok (data_message 0 3 some_metadata)
parse_metadata-encode_metadata_example =
    parse_metadata-encode_metadata (data_message 0 3 some_metadata) (omega arith) (omega arith) tt

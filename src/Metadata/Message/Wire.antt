-- ===== src/Metadata/Message/Wire.antt =====
-- src/torrent/metadata.rs: a message read back from its bytes.
use gosh_dl.Base.{
  ℕ, ◌-◌, ◌%◌, ◌^◌, ◌<◌, ◌≡◌, refl, ap, ◌∙◌, List, [], ◌∷◌, ◌++◌, Option, none, some, arith, ltb,
  length, drop-append, length-append, if_true,
}
use gosh_dl.Base.Int.{pos}
use gosh_dl.Bencode.{dict, encode, ok, key_lt}
use gosh_dl.Bencode.RoundTrip.{FitsAt, EntriesFit, parse-encode}
use gosh_dl.Metadata.{MetadataMessageType, request, data_piece, reject, MetadataMessage}
use gosh_dl.Metadata.Message.{
  type_code, from_u8, as_i64, message_entries, bytes_behind, encode_metadata, read_entries,
  data_behind, parse_metadata,
}

-- Only a message with data has bytes behind it, and then it has some.
abbrev pub HasData : MetadataMessageType → Option (List ℕ) → Type 0
HasData t none = Unit
HasData data_piece (some (x ∷ xs)) = Unit
HasData data_piece (some []) = ⊥
HasData request (some xs) = ⊥
HasData reject (some xs) = ⊥

abbrev pub IsSmall : Option ℕ → Type 0
IsSmall none = Unit
IsSmall (some size) = size < 2 ^ 63

as_i64_small : (n : ℕ) → n < 2 ^ 63 → as_i64 n ≡ pos n
as_i64_small n l = if_true (ltb n (2 ^ 63)) _ _ (ground arith)

type_code_small : (t : MetadataMessageType) → type_code t < 2 ^ 63
type_code_small request = omega arith
type_code_small data_piece = omega arith
type_code_small reject = omega arith

message_entries-FitsAt :
    (t : MetadataMessageType) (piece : ℕ) (size : Option ℕ) (bytes : Option (List ℕ))
    → piece < 2 ^ 63
    → IsSmall size
    → FitsAt 0 (
        dict (
          message_entries
            (record { msg_type = t; piece = piece; total_size = size; piece_data = bytes })))
unfolding FitsAt EntriesFit key_lt
message_entries-FitsAt t piece none bytes l s = rw (as_i64_small piece l) (
  omega arith,
  (refl, omega arith, (omega arith, type_code_small t), (refl, omega arith, (omega arith, l), tt)),
)
message_entries-FitsAt t piece (some size) bytes l s =
    rw (as_i64_small piece l, as_i64_small size s)
      (
        omega arith,
        (
          refl,
          omega arith,
          (omega arith, type_code_small t),
          (refl, omega arith, (omega arith, l), (refl, omega arith, (omega arith, s), tt)),
        ),
      )

data_behind-append :
    (t : MetadataMessageType) (before : List ℕ) (bytes : Option (List ℕ))
    → HasData t bytes
    → data_behind t (length before) (before ++ bytes_behind bytes) ≡ bytes
data_behind-append request before none h = refl
data_behind-append reject before none h = refl
data_behind-append data_piece before none h = ground (arith, length-append before [])
data_behind-append data_piece before (some (x ∷ xs)) h =
    ground (arith, length-append before (x ∷ xs), drop-append before (x ∷ xs))
data_behind-append data_piece before (some []) h = elim h [ ]
data_behind-append request before (some xs) h = elim h [ ]
data_behind-append reject before (some xs) h = elim h [ ]

consumed : (before rest : List ℕ) → length (before ++ rest) - length rest ≡ length before
consumed before rest = omega (arith, length-append before rest)

from_u8-type_code : (t : MetadataMessageType) → from_u8 (type_code t % 2 ^ 8) ≡ some t
from_u8-type_code request = refl
from_u8-type_code data_piece = refl
from_u8-type_code reject = refl

read_entries_lem :
    (t : MetadataMessageType) (piece : ℕ) (size : Option ℕ) (bytes : Option (List ℕ)) (n : ℕ)
    (input : List ℕ)
    → piece < 2 ^ 63
    → IsSmall size
    → data_behind t n input ≡ bytes
    → read_entries
        (message_entries
          (record { msg_type = t; piece = piece; total_size = size; piece_data = bytes }))
        n
        input
      ≡ ok (record { msg_type = t; piece = piece; total_size = size; piece_data = bytes })
read_entries_lem t piece none bytes n input l s h =
    rw (as_i64_small piece l, from_u8-type_code t, h) refl
read_entries_lem t piece (some size) bytes n input l s h =
    rw (as_i64_small piece l, as_i64_small size s, from_u8-type_code t, h) refl

-- A message whose numbers are below 2^63, and which has bytes, and not none, only if it is one with data,
-- is read back from its bytes.
pub parse_metadata-encode_metadata :
    (m : MetadataMessage)
    → m.piece < 2 ^ 63
    → IsSmall m.total_size
    → HasData m.msg_type m.piece_data
    → parse_metadata (encode_metadata m) ≡ ok m
unfolding parse_metadata encode_metadata
parse_metadata-encode_metadata m l s h =
    let before = encode (dict (message_entries m)) in
    let rest = bytes_behind m.piece_data in
    let behind =
      ap (λ n. data_behind m.msg_type n (before ++ rest)) (consumed before rest)
      ∙ data_behind-append m.msg_type before m.piece_data h in
    rw
      (parse-encode (dict (message_entries m)) rest
        (message_entries-FitsAt m.msg_type m.piece m.total_size m.piece_data l s))
      (read_entries_lem m.msg_type m.piece m.total_size m.piece_data _ (before ++ rest) l s behind)

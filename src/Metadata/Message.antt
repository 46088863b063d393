-- ===== src/Metadata/Message.antt =====
-- src/torrent/metadata.rs: messages as bytes: a bencode dictionary, and behind it the piece. The errors
-- are of the one kind `MetadataError`, or those of the bencode parser.
pub mod Wire
use gosh_dl.Base.{
  ℕ, zero, suc, ◌+◌, ◌-◌, ◌%◌, ◌^◌, Bool, true, false, ◌&&◌, List, [], ◌∷◌, ◌++◌, Option, none,
  some, if◌then◌else◌, ltb, length, drop,
}
use gosh_dl.Base.Int.{ℤ, pos, negsuc}
use gosh_dl.Bencode.{
  BencodeValue, Entries, integer, dict, no_entries, entry, parse, encode, Result, ok, failed, ◌>>=◌,
  or_fail,
}
use gosh_dl.Bencode.Access.{as_uint, as_dict, find_entry}
use gosh_dl.Metadata.{MetadataMessageType, request, data_piece, reject, MetadataMessage}

abbrev pub type_code : MetadataMessageType → ℕ
type_code request = 0
type_code data_piece = 1
type_code reject = 2

abbrev pub from_u8 : ℕ → Option MetadataMessageType
from_u8 zero = some request
from_u8 (suc zero) = some data_piece
from_u8 (suc (suc zero)) = some reject
from_u8 (suc (suc (suc v))) = none

-- `usize as i64`.
abbrev pub as_i64 : ℕ → ℤ
as_i64 n = if ltb n (2 ^ 63) then pos n else negsuc (2 ^ 64 - n - 1)

abbrev pub key_msg_type : List ℕ
key_msg_type = b'm' ∷ b's' ∷ b'g' ∷ b'_' ∷ b't' ∷ b'y' ∷ b'p' ∷ b'e' ∷ []

abbrev pub key_piece : List ℕ
key_piece = b'p' ∷ b'i' ∷ b'e' ∷ b'c' ∷ b'e' ∷ []

abbrev pub key_total_size : List ℕ
key_total_size = b't' ∷ b'o' ∷ b't' ∷ b'a' ∷ b'l' ∷ b'_' ∷ b's' ∷ b'i' ∷ b'z' ∷ b'e' ∷ []

abbrev pub size_entry : Option ℕ → Entries
size_entry none = no_entries
size_entry (some size) = entry key_total_size (integer (as_i64 size)) no_entries

-- The entries of a message, in the order of their keys.
abbrev pub message_entries : MetadataMessage → Entries
message_entries m =
    entry key_msg_type (integer (pos (type_code m.msg_type)))
      (entry key_piece (integer (as_i64 m.piece)) (size_entry m.total_size))

abbrev pub bytes_behind : Option (List ℕ) → List ℕ
bytes_behind none = []
bytes_behind (some piece) = piece

unfoldable pub encode_metadata : MetadataMessage → List ℕ
encode_metadata m = encode (dict (message_entries m)) ++ bytes_behind m.piece_data

abbrev pub uint_at : List ℕ → Entries → Option ℕ
uint_at key es = elim (find_entry es key) [ none ↦ none | some value ↦ as_uint value ]

-- `v as u8` keeps the lowest eight bits.
abbrev pub type_at : Entries → Option MetadataMessageType
type_at es = elim (uint_at key_msg_type es) [ none ↦ none | some v ↦ from_u8 (v % 2 ^ 8) ]

abbrev pub is_data : MetadataMessageType → Bool
is_data request = false
is_data data_piece = true
is_data reject = false

-- The bytes behind the dictionary, of a message with data.
abbrev pub data_behind : MetadataMessageType → ℕ → List ℕ → Option (List ℕ)
data_behind t consumed input =
    if is_data t && ltb consumed (length input) then some (drop consumed input) else none

abbrev pub read_entries : Entries → ℕ → List ℕ → Result MetadataMessage
read_entries es consumed input = or_fail (type_at es) >>= λ t.
    (or_fail (uint_at key_piece es) >>= λ piece. ok record {
      msg_type = t;
      piece = piece;
      total_size = uint_at key_total_size es;
      piece_data = data_behind t consumed input;
    })

unfoldable pub parse_metadata : List ℕ → Result MetadataMessage
parse_metadata input = parse input >>= λ (value, remaining).
    (or_fail (as_dict value) >>= λ es. read_entries es (length input - length remaining) input)

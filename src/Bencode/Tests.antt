-- ===== src/Bencode/Tests.antt =====
-- The bencode parser of src/torrent/bencode.rs at concrete inputs.
use gosh_dl.Base.{ℕ, ◌≡◌, refl, [], ◌∷◌, ◌++◌, arith}
use gosh_dl.Base.Int.{pos, negsuc}
use gosh_dl.Bencode.{
  BencodeValue, Entries, ok, failed, list, dict, bytes, integer, no_items, no_entries, item, entry,
  parse, parse_exact, no_rest, parse_at_depth, parse_integer, key_lt, encode,
}
use gosh_dl.Bencode.Number.{
  is_digit, digits, to_string, int_to_string, parse_digits, parse_below, parse_i64,
}
use gosh_dl.Bencode.RoundTrip.{FitsAt, parse_exact-encode}
use gosh_dl.Bencode.Outcome.{Progress, parse-Progress}
use gosh_dl.Bencode.Limits.{parse_exact-FitsAt}
use gosh_dl.Bencode.Info.{info_key, find_info_dict_bytes, find_info_dict_bytes_lem}

-- `d1:ali3ei-4eee`.
abbrev sample : BencodeValue
sample = dict (
    entry (97 ∷ []) (list (item (integer (pos 3)) (item (integer (negsuc 3)) no_items))) no_entries)

sample-FitsAt : FitsAt 0 sample
unfolding FitsAt key_lt
sample-FitsAt = (
  omega arith,
  (
    refl,
    omega arith,
    (omega arith, ((omega arith, omega arith), ((omega arith, omega arith), tt))),
    tt,
  ),
)

sample_encoded :
    encode sample
    ≡ b'd' ∷ b'1' ∷ b':' ∷ b'a' ∷ b'l' ∷ b'i' ∷ b'3' ∷ b'e' ∷ b'i' ∷ b'-' ∷ b'4' ∷ b'e' ∷ b'e'
      ∷ b'e' ∷ []
unfolding encode to_string int_to_string digits
sample_encoded = refl

parse_exact-encode_example :
    (parse_exact (encode sample) ≡ ok sample)
    × ((c : ℕ) → parse_exact (encode sample ++ c ∷ []) ≡ failed)
parse_exact-encode_example = parse_exact-encode sample [] sample-FitsAt

parse-Progress_example : Progress 3 (parse (b'i' ∷ b'5' ∷ b'e' ∷ []))
parse-Progress_example = parse-Progress (b'i' ∷ b'5' ∷ b'e' ∷ [])

-- A sign is accepted in front of a number.
parsed_plus : parse_exact (b'i' ∷ b'+' ∷ b'5' ∷ b'e' ∷ []) ≡ ok (integer (pos 5))
unfolding parse_exact parse no_rest parse_at_depth parse_integer parse_i64 parse_below parse_digits
    is_digit
parsed_plus = refl

parse_exact-FitsAt_example : FitsAt 0 (integer (pos 5))
parse_exact-FitsAt_example =
    parse_exact-FitsAt (b'i' ∷ b'+' ∷ b'5' ∷ b'e' ∷ []) (integer (pos 5)) parsed_plus

abbrev inner : Entries
inner = entry (97 ∷ []) (integer (pos 1)) no_entries

abbrev torrent : Entries
torrent = entry (b'a' ∷ []) (bytes (b'x' ∷ [])) (entry info_key (dict inner) no_entries)

torrent-FitsAt : FitsAt 0 (dict torrent)
unfolding FitsAt key_lt
torrent-FitsAt = (
  omega arith,
  (
    refl,
    omega arith,
    (omega arith, omega arith),
    (refl, omega arith, (omega arith, (refl, omega arith, (omega arith, omega arith), tt)), tt),
  ),
)

find_info_dict_bytes_lem_example :
    find_info_dict_bytes (encode (dict torrent)) ≡ ok (encode (dict inner))
find_info_dict_bytes_lem_example = find_info_dict_bytes_lem torrent inner torrent-FitsAt refl

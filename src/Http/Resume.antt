-- ===== src/Http/Resume.antt =====
-- src/http/resume.rs: the validators of a partial file, the `Range` and `Content-Range` headers, and
-- what response to a ranged request is taken. A text is its bytes, a status is its number.
pub mod Headers
use gosh_dl.Base.{
  ℕ, zero, suc, ◌+◌, Bool, true, false, not, ◌&&◌, ◌||◌, List, [], ◌∷◌, ◌++◌, Option, none, some,
  if◌then◌else◌, ◌==◌, same_bytes, length, take, drop,
}
use gosh_dl.Bencode.Number.{to_string, parse_usize}

pub record ResumeValidators : Type 0 where
  pub etag : Option (List ℕ)
  pub last_modified : Option (List ℕ)

-- A saved validator that is missing or different now does not match.
abbrev pub still_valid : Option (List ℕ) → Option (List ℕ) → Bool
still_valid (some saved) (some current) = same_bytes saved current
still_valid (some saved) none = false
still_valid none current = true

abbrev pub validators_match : ResumeValidators → ResumeValidators → Bool
validators_match saved current =
    still_valid saved.etag current.etag && still_valid saved.last_modified current.last_modified

-- "bytes="
unfoldable pub calculate_range_header : ℕ → Option ℕ → List ℕ
unfolding to_string
calculate_range_header start none =
    (98 ∷ 121 ∷ 116 ∷ 101 ∷ 115 ∷ 61 ∷ []) ++ (to_string start ++ (b'-' ∷ []))
calculate_range_header start (some end) =
    (98 ∷ 121 ∷ 116 ∷ 101 ∷ 115 ∷ 61 ∷ []) ++ (to_string start ++ (b'-' ∷ to_string end))

-- "bytes "
abbrev pub bytes_prefix : List ℕ
bytes_prefix = 98 ∷ 121 ∷ 116 ∷ 101 ∷ 115 ∷ 32 ∷ []

abbrev pub strip_prefix : List ℕ → List ℕ → Option (List ℕ)
strip_prefix [] text = some text
strip_prefix (p ∷ ps) [] = none
strip_prefix (p ∷ ps) (c ∷ cs) = if p == c then strip_prefix ps cs else none

-- `str::split` on a character: the parts between its occurrences.
unfoldable pub split_on : ℕ → List ℕ → List ℕ → List (List ℕ)
split_on separator part [] = part ∷ []
split_on separator part (c ∷ cs) =
    if c == separator
    then part ∷ split_on separator [] cs
    else split_on separator (part ++ (c ∷ [])) cs

abbrev pub pair_of : List (List ℕ) → Option (List ℕ × List ℕ)
pair_of (a ∷ b ∷ []) = some (a, b)
pair_of _ = none

pub record ContentRange : Type 0 where
  pub range_start : ℕ
  pub range_end : ℕ
  pub range_total : Option ℕ

abbrev pub total_of : List ℕ → Option ℕ
total_of text = if same_bytes text (b'*' ∷ []) then none else parse_usize text

abbrev pub range_of : Option ℕ → Option ℕ → Option ℕ → Option ContentRange
range_of (some start) (some end) total =
    some (record { range_start = start; range_end = end; range_total = total })
range_of _ _ total = none

abbrev pub parse_span : Option (List ℕ × List ℕ) → Option ℕ → Option ContentRange
parse_span none total = none
parse_span (some (start, end)) total = range_of (parse_usize start) (parse_usize end) total

abbrev pub parse_parts : Option (List ℕ × List ℕ) → Option ContentRange
parse_parts none = none
parse_parts (some (span, total)) = parse_span (pair_of (split_on b'-' [] span)) (total_of total)

unfoldable pub parse_content_range : List ℕ → Option ContentRange
unfolding split_on parse_usize
parse_content_range header = elim (strip_prefix bytes_prefix header) [
  | none ↦ none
  | some rest ↦ parse_parts (pair_of (split_on b'/' [] rest))
]

abbrev pub starts_at : ℕ → Option ContentRange → Bool
starts_at start none = false
starts_at start (some range) = range.range_start == start

abbrev pub ends_at : ℕ → Option ContentRange → Bool
ends_at end none = false
ends_at end (some range) = range.range_end == end

unfoldable pub validate_resumed_position : ℕ → List ℕ → Bool
unfolding parse_content_range
validate_resumed_position expected_start header =
    starts_at expected_start (parse_content_range header)

abbrev pub validate_end : Option ℕ → List ℕ → Bool
unfolding parse_content_range
validate_end none header = true
validate_end (some expected_end) header = ends_at expected_end (parse_content_range header)

-- Whether the response is accepted. Every status but 206 is refused; the validators of the request
-- and of the response decide only the message.
unfoldable pub validate_ranged_response : ℕ → Option ℕ → ℕ → Option (List ℕ) → Bool
unfolding validate_resumed_position validate_end
validate_ranged_response expected_start expected_end status none = false
validate_ranged_response expected_start expected_end status (some header) =
    (status == 206)
    && (validate_resumed_position expected_start header && validate_end expected_end header)

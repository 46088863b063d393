-- ===== src/Http/Resume/Headers.antt =====
-- src/http/resume.rs: the headers that a server of ranges writes are read back, and what response is
-- accepted for a range.
use gosh_dl.Base.{
  ℕ, ◌^◌, ◌<◌, ◌≡◌, refl, ap, sym, ◌∙◌, true, false, List, [], ◌∷◌, ◌++◌, some, arith, ◌==◌, ◌&&◌,
  same_bytes, All, All-append, append_assoc, append-nil, if_true, if_false, ==_refl,
}
use gosh_dl.Bencode.Number.{to_string, digits-digit, is_digit, parse_usize}
use gosh_dl.Bencode.Encode.{parse_usize-to_string}
use gosh_dl.Http.Resume.{
  bytes_prefix, split_on, pair_of, parse_parts, parse_span, total_of, range_of, parse_content_range,
  validate_resumed_position, validate_ranged_response,
}

-- Bytes without the separator are one part.
split_on_last :
    (separator : ℕ) (part text : List ℕ)
    → All (λ c. (c == separator) ≡ false) text
    → split_on separator part text ≡ (part ++ text) ∷ []
unfolding split_on
split_on_last separator part [] a = ap (λ xs. xs ∷ []) (sym (append-nil part))
split_on_last separator part (c ∷ cs) (a, rest) =
    if_false (c == separator) _ _ a
    ∙ split_on_last separator (part ++ (c ∷ [])) cs rest
    ∙ ap (λ xs. xs ∷ []) (append_assoc part (c ∷ []) cs)

split_on_next :
    (separator : ℕ) (part text rest : List ℕ)
    → All (λ c. (c == separator) ≡ false) text
    → split_on separator part (text ++ (separator ∷ rest))
      ≡ (part ++ text) ∷ split_on separator [] rest
unfolding split_on
split_on_next separator part [] rest a =
    if_true (separator == separator) _ _ (==_refl separator)
    ∙ ap (λ xs. xs ∷ split_on separator [] rest) (sym (append-nil part))
split_on_next separator part (c ∷ cs) rest (a, more) =
    if_false (c == separator) _ _ a
    ∙ split_on_next separator (part ++ (c ∷ [])) cs rest more
    ∙ ap (λ xs. xs ∷ split_on separator [] rest) (append_assoc part (c ∷ []) cs)

-- What an HTTP server writes for the bytes from start to end of a file.
unfoldable pub content_range_header : ℕ → ℕ → ℕ → List ℕ
content_range_header start end total =
    bytes_prefix ++ (to_string start ++ (b'-' ∷ to_string end) ++ (b'/' ∷ to_string total))

no_separator :
    (separator : ℕ) (text : List ℕ)
    → is_digit separator ≡ false
    → All (λ c. is_digit c ≡ true) text
    → All (λ c. (c == separator) ≡ false) text
unfolding is_digit
no_separator separator [] s a = tt
no_separator separator (c ∷ cs) s (a, rest) =
    (ground (arith, a, s), no_separator separator cs s rest)

to_string-digit : (n : ℕ) → All (λ c. is_digit c ≡ true) (to_string n)
unfolding to_string
to_string-digit n = digits-digit n n (omega arith)

without :
    (separator n : ℕ)
    → is_digit separator ≡ false
    → All (λ c. (c == separator) ≡ false) (to_string n)
without separator n s = no_separator separator (to_string n) s (to_string-digit n)

span_without :
    (start end : ℕ) → All (λ c. (c == b'/') ≡ false) (to_string start ++ (b'-' ∷ to_string end))
unfolding is_digit
span_without start end =
    All-append (λ c. (c == b'/') ≡ false) (to_string start) (b'-' ∷ to_string end)
      (without b'/' start refl) (refl, without b'/' end refl)

not_star : (text : List ℕ) → All (λ c. is_digit c ≡ true) text → same_bytes text (b'*' ∷ []) ≡ false
unfolding is_digit
not_star [] a = refl
not_star (c ∷ cs) (a, rest) = let other : (c == b'*') ≡ false = ground (arith, a) in rw other refl

total_of-to_string : (n : ℕ) → n < 2 ^ 64 → total_of (to_string n) ≡ some n
total_of-to_string n h =
    if_false (same_bytes (to_string n) (b'*' ∷ [])) _ _ (not_star (to_string n) (to_string-digit n))
    ∙ parse_usize-to_string n h

-- The header that a server writes for a range of a file whose numbers fit 64 bits is read back.
pub parse_content_range_lem :
    (start end total : ℕ)
    → start < 2 ^ 64
    → end < 2 ^ 64
    → total < 2 ^ 64
    → parse_content_range (content_range_header start end total)
      ≡ some (record { range_start = start; range_end = end; range_total = some total })
unfolding parse_content_range content_range_header
parse_content_range_lem start end total s e t =
    let span = to_string start ++ (b'-' ∷ to_string end) in
    let parts : pair_of (split_on b'/' [] (span ++ (b'/' ∷ to_string total)))
        ≡ some (span, to_string total) =
      ap pair_of (
        split_on_next b'/' [] span (to_string total) (span_without start end)
        ∙ ap (λ r. span ∷ r) (split_on_last b'/' [] (to_string total) (without b'/' total refl))) in
    let bounds : pair_of (split_on b'-' [] span) ≡ some (to_string start, to_string end) =
      ap pair_of (
        split_on_next b'-' [] (to_string start) (to_string end) (without b'-' start refl)
        ∙ ap (λ r. to_string start ∷ r)
            (split_on_last b'-' [] (to_string end) (without b'-' end refl))) in
    ap parse_parts parts
    ∙ ap (λ o. parse_span o (total_of (to_string total))) bounds
    ∙ ap (λ o. range_of o (parse_usize (to_string end)) (total_of (to_string total)))
        (parse_usize-to_string start s)
    ∙ ap (λ o. range_of (some start) o (total_of (to_string total))) (parse_usize-to_string end e)
    ∙ ap (λ o. range_of (some start) (some end) o) (total_of-to_string total t)

-- The response of a server of ranges, of whatever status, with the header for the bytes from start to end
-- of a file whose numbers fit 64 bits, is accepted for the bytes from `first` to `last` exactly if its
-- status is 206 and these are the bytes.
pub served_range_lem :
    (first last status start end total : ℕ)
    → start < 2 ^ 64
    → end < 2 ^ 64
    → total < 2 ^ 64
    → validate_ranged_response first
        (some last)
        status
        (some (content_range_header start end total))
      ≡ ((status == 206) && ((start == first) && (end == last)))
unfolding validate_ranged_response validate_resumed_position
served_range_lem first last status start end total s e t =
    rw (parse_content_range_lem start end total s e t) refl

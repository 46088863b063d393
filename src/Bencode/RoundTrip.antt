-- ===== src/Bencode/RoundTrip.antt =====
-- src/torrent/bencode.rs: the parser reads back what `encode` writes.
use gosh_dl.Base.{
  ℕ, zero, suc, ◌+◌, ◌*◌, ◌≤◌, ◌<◌, ◌≡◌, refl, true, false, List, [], ◌∷◌, ◌++◌, Option, none, some,
  arith, ◌==◌, ltb, length, append_assoc, length-append, ap, subst, sym, ◌∙◌, append-nil,
}
use gosh_dl.Bencode.{
  BencodeValue, Items, Entries, ok, failed, ◌>>=◌, list, dict, bytes, integer, no_items, no_entries,
  item, entry, max_parse_depth, max_string_length, parse_bytes, parse_at_depth, parse_list,
  parse_dict, parse, parse_exact, no_rest, in_order, encode, encode_items, encode_entries,
}
use gosh_dl.Bencode.Number.{is_digit, to_string}
use gosh_dl.Bencode.Encode.{
  IsI64, Numeral, to_string-Numeral, parse_integer-encode, parse_bytes-encode,
}

unfoldable mutual
  -- A value that may stand at a depth: integers are in the range of i64, strings are at most 100 MiB,
  -- keys come in strict order, and nothing nests deeper than 64.
  pub FitsAt : ℕ → BencodeValue → Type 0
  FitsAt depth (integer n) = (depth ≤ max_parse_depth) × IsI64 n
  FitsAt depth (bytes s) = (depth ≤ max_parse_depth) × (length s ≤ max_string_length)
  FitsAt depth (list xs) = (depth ≤ max_parse_depth) × ItemsFit (depth + 1) xs
  FitsAt depth (dict es) = (depth ≤ max_parse_depth) × EntriesFit (depth + 1) none es

  pub ItemsFit : ℕ → Items → Type 0
  ItemsFit depth no_items = Unit
  ItemsFit depth (item v vs) = FitsAt depth v × ItemsFit depth vs

  pub EntriesFit : ℕ → Option (List ℕ) → Entries → Type 0
  EntriesFit depth last no_entries = Unit
  EntriesFit depth last (entry key v es) =
      (in_order last key ≡ true)
      × (length key ≤ max_string_length)
      × FitsAt depth v
      × EntriesFit depth (some key) es

-- Something other than the end mark comes first.
abbrev pub Starts : List ℕ → Type 0
Starts [] = ⊥
Starts (c ∷ cs) = (c == b'e') ≡ false

Starts-append : (xs ys : List ℕ) → Starts xs → Starts (xs ++ ys)
Starts-append [] ys s = absurd s
Starts-append (x ∷ xs) ys s = s

Starts-Numeral : (ds : List ℕ) → Numeral ds → Starts ds
unfolding is_digit
Starts-Numeral [] d = absurd d
Starts-Numeral (c ∷ cs) d = ground (arith, d.0)

pub encode-Starts : (v : BencodeValue) → Starts (encode v)
unfolding encode
encode-Starts (integer n) = refl
encode-Starts (bytes s) =
    Starts-append (to_string (length s)) (b':' ∷ s)
      (Starts-Numeral (to_string (length s)) (to_string-Numeral (length s)))
encode-Starts (list xs) = refl
encode-Starts (dict es) = refl

pub Starts-length : (xs ys : List ℕ) → Starts xs → length ys < length (xs ++ ys)
Starts-length [] ys s = absurd s
Starts-length (x ∷ xs) ys s = omega (arith, length-append xs ys)

parse_list_more :
    (f depth : ℕ) (input left left' : List ℕ) (v : BencodeValue) (vs : Items)
    → Starts input
    → parse_at_depth f (depth + 1) input ≡ ok (v, left)
    → parse_list f depth left ≡ ok (vs, left')
    → parse_list (suc f) depth input ≡ ok (item v vs, left')
unfolding parse_list
parse_list_more f depth [] left left' v vs s h k = absurd s
parse_list_more f depth (c ∷ cs) left left' v vs s h k = rw (s, h, k) refl

parse_dict_more :
    (f depth : ℕ) (last : Option (List ℕ)) (input left left' left'' key : List ℕ) (v : BencodeValue)
    (es : Entries)
    → Starts input
    → parse_bytes input ≡ ok (key, left)
    → in_order last key ≡ true
    → parse_at_depth f (depth + 1) left ≡ ok (v, left')
    → parse_dict f depth (some key) left' ≡ ok (es, left'')
    → parse_dict (suc f) depth last input ≡ ok (entry key v es, left'')
unfolding parse_dict
parse_dict_more f depth last [] left left' left'' key v es s b o h k = absurd s
parse_dict_more f depth last (c ∷ cs) left left' left'' key v es s b o h k = rw (s, b, o, h, k) refl

parse_at_depth-Numeral :
    (f depth : ℕ) (ds rest : List ℕ)
    → Numeral ds
    → depth ≤ max_parse_depth
    → parse_at_depth (suc f) depth (ds ++ rest)
      ≡ (parse_bytes (ds ++ rest) >>= λ (s, left). ok (bytes s, left))
unfolding parse_at_depth is_digit
parse_at_depth-Numeral f depth [] rest d h = absurd d
parse_at_depth-Numeral f depth (c ∷ cs) rest d h =
    let depth_ok : ltb max_parse_depth depth ≡ false = ground arith in
    let not_i : (c == b'i') ≡ false = ground (arith, d.0) in
    let not_l : (c == b'l') ≡ false = ground (arith, d.0) in
    let not_d : (c == b'd') ≡ false = ground (arith, d.0) in
    rw (depth_ok, not_i, not_l, not_d, d.0) refl

-- What is to be shown at the fuel `f`.
abbrev Values : ℕ → Type 0
Values f =
    (depth : ℕ) (v : BencodeValue) (rest : List ℕ)
    → FitsAt depth v
    → 2 * length (encode v ++ rest) < f
    → parse_at_depth f depth (encode v ++ rest) ≡ ok (v, rest)

abbrev Lists : ℕ → Type 0
Lists f =
    (depth : ℕ) (vs : Items) (rest : List ℕ)
    → ItemsFit (depth + 1) vs
    → 2 * length (encode_items vs ++ rest) + 1 < f
    → parse_list f depth (encode_items vs ++ rest) ≡ ok (vs, rest)

abbrev Dicts : ℕ → Type 0
Dicts f =
    (depth : ℕ) (last : Option (List ℕ)) (es : Entries) (rest : List ℕ)
    → EntriesFit (depth + 1) last es
    → 2 * length (encode_entries es ++ rest) + 1 < f
    → parse_dict f depth last (encode_entries es ++ rest) ≡ ok (es, rest)

Lists-step : (f : ℕ) → Values f → Lists f → Lists (suc f)
unfolding parse_list encode_items ItemsFit
Lists-step f values lists depth no_items rest fit h = refl
Lists-step f values lists depth (item v vs) rest fit h =
    let tail = encode_items vs ++ rest in
    let shorter = Starts-length (encode v) tail (encode-Starts v) in
    let input = append_assoc (encode v) (encode_items vs) rest in
    let enough : 2 * length (encode v ++ tail) + 1 < suc f =
      subst (λ s. 2 * length s + 1 < suc f) input h in
    ap (parse_list (suc f) depth) input
    ∙ parse_list_more f depth (encode v ++ tail) tail rest v vs
        (Starts-append (encode v) tail (encode-Starts v))
        (values (depth + 1) v tail fit.0 (omega arith)) (lists depth vs rest fit.1 (omega arith))

Dicts-step : (f : ℕ) → Values f → Dicts f → Dicts (suc f)
unfolding parse_dict encode_entries EntriesFit encode
Dicts-step f values dicts depth last no_entries rest fit h = refl
Dicts-step f values dicts depth last (entry key v es) rest (sorted, small, v_fits, es_fit) h =
    let tail = encode_entries es ++ rest in
    let name = encode (bytes key) in
    let shorter = Starts-length (encode v) tail (encode-Starts v) in
    let shorter' = Starts-length name (encode v ++ tail) (encode-Starts (bytes key)) in
    let input =
      append_assoc name (encode v ++ encode_entries es) rest
      ∙ ap (◌++◌ name) (append_assoc (encode v) (encode_entries es) rest) in
    let enough : 2 * length (name ++ (encode v ++ tail)) + 1 < suc f =
      subst (λ s. 2 * length s + 1 < suc f) input h in
    ap (parse_dict (suc f) depth last) input
    ∙ parse_dict_more f depth last (name ++ (encode v ++ tail)) (encode v ++ tail) tail rest key v
        es (Starts-append name (encode v ++ tail) (encode-Starts (bytes key)))
        (parse_bytes-encode key (encode v ++ tail) small) sorted
        (values (depth + 1) v tail v_fits (omega arith))
        (dicts depth (some key) es rest es_fit (omega arith))

Values-step : (f : ℕ) → Lists f → Dicts f → Values (suc f)
unfolding parse_at_depth encode FitsAt
Values-step f lists dicts depth (integer n) rest (shallow, fit) h =
    let depth_ok : ltb max_parse_depth depth ≡ false = ground arith in
    rw depth_ok (parse_integer-encode n rest fit)
Values-step f lists dicts depth (bytes s) rest (shallow, fit) h =
    let num = to_string (length s) in
    ap (parse_at_depth (suc f) depth) (append_assoc num (b':' ∷ s) rest)
    ∙ parse_at_depth-Numeral f depth num (b':' ∷ (s ++ rest)) (to_string-Numeral (length s)) shallow
    ∙ ap (λ r. r >>= λ (s, left). ok (bytes s, left))
        (sym (ap parse_bytes (append_assoc num (b':' ∷ s) rest)) ∙ parse_bytes-encode s rest fit)
Values-step f lists dicts depth (list vs) rest (shallow, fit) h =
    let depth_ok : ltb max_parse_depth depth ≡ false = ground arith in
    rw (depth_ok, lists depth vs rest fit (omega arith)) refl
Values-step f lists dicts depth (dict es) rest (shallow, fit) h =
    let depth_ok : ltb max_parse_depth depth ≡ false = ground arith in
    rw (depth_ok, dicts depth none es rest fit (omega arith)) refl

parser_reads : (f : ℕ) → Values f × Lists f × Dicts f
parser_reads zero = (
  λ d v r fit h. absurd (omega arith),
  λ d vs r fit h. absurd (omega arith),
  λ d l es r fit h. absurd (omega arith),
)
parser_reads (suc f) =
    let (values, lists, dicts) = parser_reads f in
    (Values-step f lists dicts, Lists-step f values lists, Dicts-step f values dicts)

-- A value whose integers are in the range of i64, whose strings are at most 100 MiB long, whose keys
-- come in strict order and which nests at most 64 deep is read back by `parse` from what `encode` writes,
-- and what follows it is left.
pub parse-encode :
    (v : BencodeValue) (rest : List ℕ) → FitsAt 0 v → parse (encode v ++ rest) ≡ ok (v, rest)
unfolding parse
parse-encode v rest fit =
    (parser_reads (2 * length (encode v ++ rest) + 2)).0 0 v rest fit (omega arith)

-- `parse_exact` gives such a value back from its encoding, and refuses the encoding with anything behind
-- it.
pub parse_exact-encode :
    (v : BencodeValue) (rest : List ℕ)
    → FitsAt 0 v
    → (parse_exact (encode v) ≡ ok v) × ((c : ℕ) → parse_exact (encode v ++ c ∷ rest) ≡ failed)
unfolding parse_exact no_rest
parse_exact-encode v rest fit =
    let alone : parse (encode v) ≡ ok (v, []) =
      subst (λ s. parse s ≡ ok (v, [])) (append-nil (encode v)) (parse-encode v [] fit) in
    (rw alone refl, λ c. rw (parse-encode v (c ∷ rest) fit) refl)

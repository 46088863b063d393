-- ===== src/Bencode/Info.antt =====
-- src/torrent/bencode.rs: `find_info_dict_bytes`, the span whose hash identifies a torrent.
use gosh_dl.Base.{
  some_inj, ℕ, zero, suc, ◌+◌, ◌-◌, ◌≤◌, ◌≡◌, refl, Bool, true, false, not, List, [], ◌∷◌, ◌++◌,
  Option, none, some, arith, if◌then◌else◌, ◌==◌, length, take, drop, append_assoc, length-append,
  ap, sym, ◌∙◌, same_bytes, is_some, inl, inr, Bool-cases, take-append, drop-append,
}
use gosh_dl.Bencode.{
  BencodeValue, Items, Entries, Result, ok, failed, out_of_fuel, ◌>>=◌, or_fail, list, dict, bytes,
  integer, no_items, no_entries, item, entry, parse_bytes, parse, parse_exact, encode,
  encode_entries,
}
use gosh_dl.Bencode.Access.{as_dict, find_entry}
use gosh_dl.Bencode.Encode.{parse_bytes-encode}
use gosh_dl.Bencode.RoundTrip.{
  FitsAt, ItemsFit, EntriesFit, Starts, encode-Starts, Starts-length, parse-encode,
  parse_exact-encode,
}

abbrev pub info_key : List ℕ
info_key = b'i' ∷ b'n' ∷ b'f' ∷ b'o' ∷ []

abbrev head_test : (ℕ → Bool) → List ℕ → Bool
head_test p [] = false
head_test p (c ∷ cs) = p c

-- The walk over the top-level dictionary, from the offset `pos` on; one unit of fuel for an entry.
pub walk : ℕ → List ℕ → ℕ → Result (List ℕ)
walk zero input pos = out_of_fuel
walk (suc f) input pos =
    let step = parse_bytes (drop pos input) >>= λ (key, remaining).
    (let start = length input - length remaining in
      parse (drop start input) >>= λ (value, remaining').
      (let value_end = length input - length remaining' in
        let rest = walk f input value_end in
        if same_bytes key info_key
        then if head_test (λ c. c == b'd') (drop start input)
          then ok (take (value_end - start) (drop start input))
          else failed
        else rest)) in
    if head_test (λ c. not (c == b'e')) (drop pos input) then step else failed

pub find_info_dict_bytes : List ℕ → Result (List ℕ)
unfolding walk
find_info_dict_bytes input = parse_exact input >>= λ root.
    (or_fail (as_dict root) >>= λ entries.
    (if not (is_some (find_entry entries info_key)) then failed else walk (length input) input 1))

mutual
  unfolding FitsAt

  fits_above : (m n : ℕ) (v : BencodeValue) → m ≤ n → FitsAt n v → FitsAt m v
  fits_above m n (integer i) h (k, fit) = (omega arith, fit)
  fits_above m n (bytes s) h (k, fit) = (omega arith, fit)
  fits_above m n (list xs) h (k, fit) =
      (omega arith, items_above (m + 1) (n + 1) xs (omega arith) fit)
  fits_above m n (dict es) h (k, fit) =
      (omega arith, entries_above (m + 1) (n + 1) none es (omega arith) fit)

  items_above : (m n : ℕ) (vs : Items) → m ≤ n → ItemsFit n vs → ItemsFit m vs
  items_above m n no_items h fit = tt
  items_above m n (item v vs) h (a, b) = (fits_above m n v h a, items_above m n vs h b)

  entries_above :
      (m n : ℕ) (last : Option (List ℕ)) (es : Entries)
      → m ≤ n
      → EntriesFit n last es
      → EntriesFit m last es
  entries_above m n last no_entries h fit = tt
  entries_above m n last (entry key v es) h (a, b, c, d) =
      (a, b, fits_above m n v h c, entries_above m n (some key) es h d)

Starts-test : (xs ys : List ℕ) → Starts xs → head_test (λ c. not (c == b'e')) (xs ++ ys) ≡ true
Starts-test [] ys s = absurd s
Starts-test (x ∷ xs) ys s = rw s refl

walk_step :
    (f : ℕ) (pre name body tail key : List ℕ) (v : BencodeValue)
    → Starts name
    → parse_bytes (name ++ (body ++ tail)) ≡ ok (key, body ++ tail)
    → parse (body ++ tail) ≡ ok (v, tail)
    → walk (suc f) (pre ++ (name ++ (body ++ tail))) (length pre) ≡ (
        if same_bytes key info_key
        then if head_test (λ c. c == b'd') (body ++ tail) then ok body else failed
        else walk f ((pre ++ (name ++ body)) ++ tail) (length (pre ++ (name ++ body))))
unfolding walk
walk_step f pre name body tail key v s hb hp =
    let input = pre ++ (name ++ (body ++ tail)) in
    let start : length input - length (body ++ tail) ≡ length (pre ++ name) = omega (
      arith,
      length-append pre (name ++ (body ++ tail)),
      length-append name (body ++ tail),
      length-append pre name,
    ) in
    let value_end : length input - length tail ≡ length (pre ++ (name ++ body)) = omega (
      arith,
      length-append pre (name ++ (body ++ tail)),
      length-append name (body ++ tail),
      length-append body tail,
      length-append pre (name ++ body),
      length-append name body,
    ) in
    let width : length (pre ++ (name ++ body)) - length (pre ++ name) ≡ length body =
      omega (
        arith,
        length-append pre (name ++ body),
        length-append name body,
        length-append pre name,
      ) in
    let from_start : drop (length (pre ++ name)) input ≡ body ++ tail =
      ap (drop (length (pre ++ name))) (sym (append_assoc pre name (body ++ tail)))
      ∙ drop-append (pre ++ name) (body ++ tail) in
    let split : input ≡ (pre ++ (name ++ body)) ++ tail =
      ap (◌++◌ pre) (sym (append_assoc name body tail))
      ∙ sym (append_assoc pre (name ++ body) tail) in
    rw
      (
        drop-append pre (name ++ (body ++ tail)),
        Starts-test name (body ++ tail) s,
        hb,
        start,
        from_start,
        hp,
        value_end,
        width,
        take-append body tail,
        split,
      )
      refl

if_true {ℓ} : {A : Type ℓ} (b : Bool) (x y : A) → b ≡ true → (if b then x else y) ≡ x
if_true b x y h = rw h refl

if_false {ℓ} : {A : Type ℓ} (b : Bool) (x y : A) → b ≡ false → (if b then x else y) ≡ y
if_false b x y h = rw h refl

-- From an entry of the dictionary on, the walk gives the encoding of the dictionary under `info`.
walk_finds :
    (es : Entries) (f : ℕ) (pre : List ℕ) (last : Option (List ℕ)) (info : Entries)
    → EntriesFit 1 last es
    → find_entry es info_key ≡ some (dict info)
    → length (encode_entries es) ≤ f
    → walk f (pre ++ encode_entries es) (length pre) ≡ ok (encode (dict info))
unfolding encode_entries encode EntriesFit
walk_finds no_entries f pre last info fit h k = absurd cc
walk_finds (entry key v es) zero pre last info fit h k = absurd (
    omega (
      arith,
      Starts-length (encode (bytes key)) (encode v ++ encode_entries es)
          (encode-Starts (bytes key)),
    ))
walk_finds (entry key v es) (suc f) pre last info (sorted, short, v_fits, es_fit) h k =
    let name = encode (bytes key) in
    let tail = encode_entries es in
    let step =
      walk_step f pre name (encode v) tail key v (encode-Starts (bytes key))
        (parse_bytes-encode key (encode v ++ tail) short)
        (parse-encode v tail (fits_above 0 1 v (omega arith) v_fits)) in
    let shorter = Starts-length name (encode v ++ tail) (encode-Starts (bytes key)) in
    let shorter' = Starts-length (encode v) tail (encode-Starts v) in
    elim (Bool-cases (same_bytes key info_key)) [
      | inl here ↦
          let same : v ≡ dict info =
            some_inj (sym (if_true (same_bytes key info_key) _ _ here) ∙ h) in
          step ∙ rw (here, same) refl
      | inr other ↦
          step
          ∙ rw other (
              walk_finds es f (pre ++ (name ++ encode v)) (some key) info es_fit
                (sym (if_false (same_bytes key info_key) _ _ other) ∙ h) (omega arith))
    ]

-- For a dictionary that `encode` wrote within the limits of the format, with a dictionary under `info`,
-- `find_info_dict_bytes` gives exactly the encoding of that inner dictionary.
pub find_info_dict_bytes_lem :
    (es info : Entries)
    → FitsAt 0 (dict es)
    → find_entry es info_key ≡ some (dict info)
    → find_info_dict_bytes (encode (dict es)) ≡ ok (encode (dict info))
unfolding find_info_dict_bytes FitsAt encode
find_info_dict_bytes_lem es info fit h =
    let whole = (parse_exact-encode (dict es) [] fit).0 in
    rw (whole, h)
      (walk_finds es (suc (length (encode_entries es))) (b'd' ∷ []) none info fit.1 h (omega arith))

-- A dictionary with no `info` is refused.
pub find_info_dict_bytes_missing :
    (es : Entries)
    → FitsAt 0 (dict es)
    → find_entry es info_key ≡ none
    → find_info_dict_bytes (encode (dict es)) ≡ failed
unfolding find_info_dict_bytes
find_info_dict_bytes_missing es fit h =
    let whole = (parse_exact-encode (dict es) [] fit).0 in rw (whole, h) refl

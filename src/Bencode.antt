-- ===== src/Bencode.antt =====
-- src/torrent/bencode.rs: bencode values, the parser with its depth limit, and the encoder. Every error of
-- the parser is of the one kind `BencodeParse`, so `failed` stands for it; `out_of_fuel` has no counterpart
-- in the program. A dictionary is the list of its entries in key order, as a `BTreeMap` iterates.
pub mod Number
pub mod Encode
mod Outcome
mod Limits
pub mod RoundTrip
pub mod Access
mod Info
pub mod Keys
mod Tests
use gosh_dl.Base.{
  ℕ, zero, suc, ◌+◌, ◌-◌, ◌*◌, ◌≤◌, Bool, true, false, not, ◌&&◌, List, [], ◌∷◌, ◌++◌, Option, none,
  some, if◌then◌else◌, ◌==◌, ltb, leb, length, take, drop, position,
}
use gosh_dl.Base.Int.{ℤ, pos, negsuc}
pub use gosh_dl.Base.Result.{Result, ok, failed, out_of_fuel, ◌>>=◌, or_fail}
use Number.{parse_i64, parse_usize, to_string, int_to_string, is_digit, head_is}

mutual
  pub data BencodeValue : Type 0 where
    integer : ℤ → BencodeValue
    bytes : List ℕ → BencodeValue
    list : Items → BencodeValue
    dict : Entries → BencodeValue

  pub data Items : Type 0 where
    no_items : Items
    item : BencodeValue → Items → Items

  pub data Entries : Type 0 where
    no_entries : Entries
    entry : List ℕ → BencodeValue → Entries → Entries

abbrev pub max_string_length : ℕ
max_string_length = 100 * 1024 * 1024

abbrev pub max_parse_depth : ℕ
max_parse_depth = 64

-- `i<number>e`, from the `i` on.
pub parse_integer : List ℕ → Result (BencodeValue × List ℕ)
parse_integer [] = failed
parse_integer (c ∷ body) =
    if not (c == b'i') then failed else elim (position (λ d. d == b'e') body) [
      | none ↦ failed
      | some end ↦
          let num = take end body in
          if ltb 1 (length num) && head_is b'0' num
          then failed
          else if head_is b'-' num && head_is b'0' (drop 1 num)
          then failed
          else elim (parse_i64 num) [
            | none ↦ failed
            | some value ↦ ok (integer value, drop (end + 1) body)
          ]
    ]

-- `<length>:<data>`: the string and what is left.
pub parse_bytes : List ℕ → Result (List ℕ × List ℕ)
parse_bytes input = elim (position (λ d. d == b':') input) [
  | none ↦ failed
  | some colon ↦ elim (parse_usize (take colon input)) [
    | none ↦ failed
    | some len ↦
        if ltb max_string_length len
        then failed
        else if ltb (length input) (colon + 1 + len)
        then failed
        else ok (take len (drop (colon + 1) input), drop (colon + 1 + len) input)
  ]
]

-- The order of byte strings.
unfoldable pub key_lt : List ℕ → List ℕ → Bool
key_lt [] [] = false
key_lt [] (y ∷ ys) = true
key_lt (x ∷ xs) [] = false
key_lt (x ∷ xs) (y ∷ ys) =
    let rest = key_lt xs ys in if ltb x y then true else if ltb y x then false else rest

-- A dictionary's key must come after the one before it.
abbrev pub in_order : Option (List ℕ) → List ℕ → Bool
in_order none key = true
in_order (some last) key = key_lt last key

mutual
  -- Each call spends a unit of fuel.
  pub parse_at_depth : ℕ → ℕ → List ℕ → Result (BencodeValue × List ℕ)
  parse_at_depth zero depth input = out_of_fuel
  parse_at_depth (suc f) depth [] = failed
  parse_at_depth (suc f) depth (c ∷ rest) =
      let as_list = parse_list f depth rest >>= λ (xs, left). ok (list xs, left) in
      let as_dict = parse_dict f depth none rest >>= λ (es, left). ok (dict es, left) in
      let as_bytes = parse_bytes (c ∷ rest) >>= λ (s, left). ok (bytes s, left) in
      if ltb max_parse_depth depth
      then failed
      else if c == b'i'
      then parse_integer (c ∷ rest)
      else if c == b'l'
      then as_list
      else if c == b'd'
      then as_dict
      else if is_digit c
      then as_bytes
      else failed

  -- The loop of `parse_list`, behind the `l`.
  pub parse_list : ℕ → ℕ → List ℕ → Result (Items × List ℕ)
  parse_list zero depth input = out_of_fuel
  parse_list (suc f) depth [] = failed
  parse_list (suc f) depth (c ∷ rest) =
      let more = parse_at_depth f (depth + 1) (c ∷ rest) >>= λ (v, left).
      parse_list f depth left >>= λ (vs, left'). ok (item v vs, left') in
      if c == b'e' then ok (no_items, rest) else more

  -- The loop of `parse_dict`, behind the `d`.
  pub parse_dict : ℕ → ℕ → Option (List ℕ) → List ℕ → Result (Entries × List ℕ)
  parse_dict zero depth last input = out_of_fuel
  parse_dict (suc f) depth last [] = failed
  parse_dict (suc f) depth last (c ∷ rest) =
      let more = parse_bytes (c ∷ rest) >>= λ (key, left).
      (let value = parse_at_depth f (depth + 1) left >>= λ (v, left').
      parse_dict f depth (some key) left' >>= λ (es, left''). ok (entry key v es, left'') in
        if in_order last key then value else failed) in
      if c == b'e' then ok (no_entries, rest) else more

-- Two units of fuel for each byte, and two more.
pub parse : List ℕ → Result (BencodeValue × List ℕ)
parse input = parse_at_depth (2 * length input + 2) 0 input

no_rest : BencodeValue × List ℕ → Result BencodeValue
no_rest (v, []) = ok v
no_rest (v, c ∷ rest) = failed

pub parse_exact : List ℕ → Result BencodeValue
unfolding no_rest
parse_exact input = parse input >>= no_rest

mutual
  pub encode : BencodeValue → List ℕ
  encode (integer n) = b'i' ∷ (int_to_string n ++ b'e' ∷ [])
  encode (bytes s) = to_string (length s) ++ b':' ∷ s
  encode (list xs) = b'l' ∷ encode_items xs
  encode (dict es) = b'd' ∷ encode_entries es

  pub encode_items : Items → List ℕ
  encode_items no_items = b'e' ∷ []
  encode_items (item v vs) = encode v ++ encode_items vs

  pub encode_entries : Entries → List ℕ
  encode_entries no_entries = b'e' ∷ []
  encode_entries (entry key v es) =
      (to_string (length key) ++ b':' ∷ key) ++ (encode v ++ encode_entries es)

-- ===== src/Bencode/Limits.antt =====
-- src/torrent/bencode.rs: what the parser accepts keeps the limits of the format, so it can be written
-- again and read back.
use gosh_dl.Base.{
  ℕ, zero, suc, ◌+◌, ◌*◌, ◌≤◌, ◌<◌, ◌^◌, ◌≡◌, refl, Bool, true, false, not, ◌&&◌, List, [], ◌∷◌,
  Option, none, some, arith, if◌then◌else◌, ◌==◌, ltb, length, take, drop, position, subst, sym,
  ◌∙◌, inl, inr, Bool-cases, Option-cases, length-take,
}
use gosh_dl.Base.Int.{ℤ, pos}
use gosh_dl.Bencode.{
  BencodeValue, Result, ok, failed, out_of_fuel, ◌>>=◌, max_parse_depth, max_string_length,
  parse_integer, parse_bytes, parse_at_depth, parse_list, parse_dict, parse, parse_exact, no_rest,
  in_order, encode,
}
use gosh_dl.Bencode.Number.{is_digit, head_is, negate, parse_below, parse_i64, parse_usize}
use gosh_dl.Bencode.Encode.{IsI64}
use gosh_dl.Bencode.RoundTrip.{FitsAt, ItemsFit, EntriesFit, parse_exact-encode}

-- The value, if there is one, has the property.
abbrev Gives {ℓ κ} : {A : Type ℓ} → (A → Type κ) → Result (A × List ℕ) → Type κ
Gives P (ok (a, left)) = P a
Gives P failed = Unit
Gives P out_of_fuel = Unit

module _ {ℓ κ} {A : Type ℓ} (P : A → Type κ) where
  Gives-bind {ι ξ} :
      {B : Type ι} (Q : B → Type ξ) (r : Result (B × List ℕ)) (k : B × List ℕ → Result (A × List ℕ))
      → Gives Q r
      → ((b : B) (left : List ℕ) → Q b → Gives P (k (b, left)))
      → Gives P (r >>= k)
  Gives-bind Q (ok (b, left)) k h g = g b left h
  Gives-bind Q failed k h g = tt
  Gives-bind Q out_of_fuel k h g = tt

  Gives-if :
      (b : Bool) (x y : Result (A × List ℕ))
      → (b ≡ true → Gives P x)
      → (b ≡ false → Gives P y)
      → Gives P (if b then x else y)
  Gives-if true x y f g = f refl
  Gives-if false x y f g = g refl

  Gives-option {ι} :
      {B : Type ι} (o : Option B) (k : B → Result (A × List ℕ))
      → ((b : B) → o ≡ some b → Gives P (k b))
      → Gives P (elim o [ none ↦ failed | some b ↦ k b ])
  Gives-option none k h = tt
  Gives-option (some b) k h = h b refl

parse_below-lt : (limit : ℕ) (ds : List ℕ) (n : ℕ) → parse_below limit ds ≡ some n → n < limit
unfolding parse_below
parse_below-lt limit [] n h = absurd cc
parse_below-lt limit (c ∷ cs) n h = ground arith

negate-IsI64 : (n : ℕ) → n < 2 ^ 63 + 1 → IsI64 (negate n)
unfolding negate
negate-IsI64 zero h = omega arith
negate-IsI64 (suc n) h = omega arith

parse_i64-IsI64 : (ds : List ℕ) (n : ℤ) → parse_i64 ds ≡ some n → IsI64 n
unfolding parse_i64
parse_i64-IsI64 [] n h = absurd cc
parse_i64-IsI64 (c ∷ cs) n h = elim (Bool-cases (c == b'-')) [
  | inl minus ↦ elim (Option-cases (parse_below (2 ^ 63 + 1) cs)) [
    | inl e ↦ absurd (ground (arith, h, e, minus))
    | inr (m, e) ↦
        let same : some (negate m) ≡ some n = sym (rw (minus, e) refl) ∙ h in
        let ends : negate m ≡ n = cc in
        subst IsI64 ends (negate-IsI64 m (parse_below-lt (2 ^ 63 + 1) cs m e))
  ]
  | inr plus ↦ elim (Option-cases (parse_below (2 ^ 63) (if c == b'+' then cs else c ∷ cs))) [
    | inl e ↦ absurd (ground (arith, h, e, plus))
    | inr (m, e) ↦
        let same : some (pos m) ≡ some n = sym (rw (plus, e) refl) ∙ h in
        let ends : pos m ≡ n = cc in
        subst IsI64 ends (parse_below-lt (2 ^ 63) (if c == b'+' then cs else c ∷ cs) m e)
  ]
]

parse_integer_fits :
    (depth : ℕ) (input : List ℕ)
    → depth ≤ max_parse_depth
    → Gives (FitsAt depth) (parse_integer input)
unfolding parse_integer FitsAt
parse_integer_fits depth [] k = tt
parse_integer_fits depth (c ∷ body) k =
    Gives-if (FitsAt depth) (not (c == b'i')) _ _ (λ _. tt)
      (λ _. Gives-option (FitsAt depth) (position (λ d. d == b'e') body) _ (λ end e.
        let num = take end body in
        Gives-if (FitsAt depth) (ltb 1 (length num) && head_is b'0' num) _ _ (λ _. tt)
          (λ _.
            Gives-if (FitsAt depth) (head_is b'-' num && head_is b'0' (drop 1 num)) _ _ (λ _. tt)
              (λ _.
                Gives-option (FitsAt depth) (parse_i64 num) _
                  (λ value v. (k, parse_i64-IsI64 num value v))))))

abbrev IsShort : List ℕ → Type 0
IsShort s = length s ≤ max_string_length

parse_bytes-IsShort : (input : List ℕ) → Gives IsShort (parse_bytes input)
unfolding parse_bytes
parse_bytes-IsShort input = Gives-option IsShort (position (λ d. d == b':') input) _ (λ colon e.
    Gives-option IsShort (parse_usize (take colon input)) _ (λ len l.
      Gives-if IsShort (ltb max_string_length len) _ _ (λ _. tt)
        (λ small.
          Gives-if IsShort (ltb (length input) (colon + 1 + len)) _ _ (λ _. tt)
            (λ fits. ground (arith, length-take len (drop (colon + 1) input))))))

abbrev Values : ℕ → Type 0
Values f = (depth : ℕ) (input : List ℕ) → Gives (FitsAt depth) (parse_at_depth f depth input)

abbrev Lists : ℕ → Type 0
Lists f = (depth : ℕ) (input : List ℕ) → Gives (ItemsFit (depth + 1)) (parse_list f depth input)

abbrev Dicts : ℕ → Type 0
Dicts f =
    (depth : ℕ) (last : Option (List ℕ)) (input : List ℕ)
    → Gives (EntriesFit (depth + 1) last) (parse_dict f depth last input)

Values-step : (f : ℕ) → Lists f → Dicts f → Values (suc f)
unfolding parse_at_depth FitsAt
Values-step f lists dicts depth [] = tt
Values-step f lists dicts depth (c ∷ rest) =
    let P = FitsAt depth in
    Gives-if P (ltb max_parse_depth depth) _ _ (λ _. tt)
      (λ k.
        let shallow : depth ≤ max_parse_depth = ground arith in
        Gives-if P (c == b'i') _ _ (λ _. parse_integer_fits depth (c ∷ rest) shallow)
          (λ _.
            Gives-if P (c == b'l') _ _
              (λ _.
                Gives-bind P _ (parse_list f depth rest) _ (lists depth rest)
                  (λ xs left fit. (shallow, fit)))
              (λ _.
                Gives-if P (c == b'd') _ _
                  (λ _.
                    Gives-bind P _ (parse_dict f depth none rest) _ (dicts depth none rest)
                      (λ es left fit. (shallow, fit)))
                  (λ _.
                    Gives-if P (is_digit c) _ _
                      (λ _.
                        Gives-bind P IsShort (parse_bytes (c ∷ rest)) _
                          (parse_bytes-IsShort (c ∷ rest)) (λ s left fit. (shallow, fit)))
                      (λ _. tt)))))

Lists-step : (f : ℕ) → Values f → Lists f → Lists (suc f)
unfolding parse_list ItemsFit
Lists-step f values lists depth [] = tt
Lists-step f values lists depth (c ∷ rest) =
    let P = ItemsFit (depth + 1) in
    Gives-if P (c == b'e') _ _ (λ _. tt)
      (λ _.
        Gives-bind P _ (parse_at_depth f (depth + 1) (c ∷ rest)) _ (values (depth + 1) (c ∷ rest))
          (λ v left fit.
            Gives-bind P _ (parse_list f depth left) _ (lists depth left)
              (λ vs left' more. (fit, more))))

Dicts-step : (f : ℕ) → Values f → Dicts f → Dicts (suc f)
unfolding parse_dict EntriesFit
Dicts-step f values dicts depth last [] = tt
Dicts-step f values dicts depth last (c ∷ rest) =
    let P = EntriesFit (depth + 1) last in
    Gives-if P (c == b'e') _ _ (λ _. tt)
      (λ _.
        Gives-bind P IsShort (parse_bytes (c ∷ rest)) _ (parse_bytes-IsShort (c ∷ rest))
          (λ key left short.
            Gives-if P (in_order last key) _ _
              (λ sorted.
                Gives-bind P _ (parse_at_depth f (depth + 1) left) _ (values (depth + 1) left)
                  (λ v left' fit.
                    Gives-bind P _ (parse_dict f depth (some key) left') _
                      (dicts depth (some key) left')
                      (λ es left'' more. (sorted, short, fit, more))))
              (λ _. tt)))

parser_limits : (f : ℕ) → Values f × Lists f × Dicts f
unfolding parse_at_depth parse_list parse_dict
parser_limits zero = (λ d i. tt, λ d i. tt, λ d l i. tt)
parser_limits (suc f) =
    let (values, lists, dicts) = parser_limits f in
    (Values-step f lists dicts, Lists-step f values lists, Dicts-step f values dicts)

parse-FitsAt : (input : List ℕ) → Gives (FitsAt 0) (parse input)
unfolding parse
parse-FitsAt input = (parser_limits (2 * length input + 2)).0 0 input

no_rest-inv :
    (r : Result (BencodeValue × List ℕ)) (v : BencodeValue)
    → (r >>= no_rest) ≡ ok v
    → Gives (FitsAt 0) r
    → FitsAt 0 v
unfolding no_rest
no_rest-inv (ok (w, [])) v h g = let same : w ≡ v = cc in subst (FitsAt 0) same g
no_rest-inv (ok (w, c ∷ rest)) v h g = absurd cc
no_rest-inv failed v h g = absurd cc
no_rest-inv out_of_fuel v h g = absurd cc

-- A value that `parse_exact` accepts keeps the limits of the format: its integers are in the range of i64,
-- its strings at most 100 MiB long, its keys in strict order, its depth at most 64.
pub parse_exact-FitsAt : (input : List ℕ) (v : BencodeValue) → parse_exact input ≡ ok v → FitsAt 0 v
unfolding parse_exact
parse_exact-FitsAt input v h = no_rest-inv (parse input) v h (parse-FitsAt input)

-- What `parse_exact` accepts, however it was written, is read back from what `encode` writes of it.
pub reencode :
    (input : List ℕ) (v : BencodeValue) → parse_exact input ≡ ok v → parse_exact (encode v) ≡ ok v
reencode input v h = (parse_exact-encode v [] (parse_exact-FitsAt input v h)).0

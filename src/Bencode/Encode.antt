-- ===== src/Bencode/Encode.antt =====
-- src/torrent/bencode.rs: integers and byte strings as `encode` writes them are read back.
use gosh_dl.Base.{
  ℕ, suc, ◌+◌, ◌≤◌, ◌<◌, ◌^◌, ◌≡◌, refl, Bool, true, false, ◌&&◌, List, [], ◌∷◌, ◌++◌, some, arith,
  ◌==◌, ltb, length, drop, position, All, inl, inr, Bool-cases, append_assoc, take-append,
  drop-append, length-append, drop-drop, ap, subst, sym, ◌∙◌,
}
use gosh_dl.Base.Int.{ℤ, pos, negsuc}
use gosh_dl.Bencode.{ok, integer, bytes, parse_integer, parse_bytes, encode, max_string_length}
use gosh_dl.Bencode.Number.{
  is_digit, head_is, digits, to_string, int_to_string, parse_digits, parse_below, parse_i64,
  parse_usize, parse_digits-digits, digits-digit, digits-head, negate,
}

-- The range of an i64.
abbrev pub IsI64 : ℤ → Type 0
IsI64 (pos n) = n < 2 ^ 63
IsI64 (negsuc n) = n < 2 ^ 63

position-append {ℓ} :
    {A : Type ℓ} (p : A → Bool) (xs : List A) (y : A) (ys : List A)
    → All (λ x. p x ≡ false) xs
    → p y ≡ true
    → position p (xs ++ y ∷ ys) ≡ some (length xs)
position-append p [] y ys a h = rw h refl
position-append p (x ∷ xs) y ys a h = rw (a.0, position-append p xs y ys a.1 h) refl

All-map {ℓ κ ι} :
    {A : Type ℓ} (P : A → Type κ) (Q : A → Type ι) (xs : List A)
    → ((x : A) → P x → Q x)
    → All P xs
    → All Q xs
All-map P Q [] f a = tt
All-map P Q (x ∷ xs) f a = (f x a.0, All-map P Q xs f a.1)

to_string-All :
    (p : ℕ → Bool) (n : ℕ)
    → ((c : ℕ) → is_digit c ≡ true → p c ≡ false)
    → All (λ c. p c ≡ false) (to_string n)
unfolding to_string
to_string-All p n h =
    All-map (λ c. is_digit c ≡ true) (λ c. p c ≡ false) (digits n n) h
      (digits-digit n n (omega arith))

-- A digit comes first, and a zero comes first only alone.
abbrev pub Numeral : List ℕ → Type 0
Numeral [] = ⊥
Numeral (c ∷ cs) = (is_digit c ≡ true) × (c ≡ b'0' → cs ≡ [])

pub to_string-Numeral : (n : ℕ) → Numeral (to_string n)
unfolding to_string
to_string-Numeral n =
    let (c, cs, e, d, z) = digits-head n n (omega arith) in subst Numeral (sym e) (d, λ q. (z q).1)

parse_below-Numeral :
    (limit n : ℕ) (ds : List ℕ)
    → Numeral ds
    → parse_digits 0 ds ≡ some n
    → n < limit
    → parse_below limit ds ≡ some n
unfolding parse_below
parse_below-Numeral limit n [] d h k = absurd d
parse_below-Numeral limit n (c ∷ cs) d h k = rw (parse_below, h) (ground arith)

parse_below-to_string : (limit n : ℕ) → n < limit → parse_below limit (to_string n) ≡ some n
unfolding to_string
parse_below-to_string limit n h =
    parse_below-Numeral limit n (to_string n) (to_string-Numeral n)
      (parse_digits-digits n n (omega arith)) h

parse_usize-Numeral : (ds : List ℕ) → Numeral ds → parse_usize ds ≡ parse_below (2 ^ 64) ds
unfolding parse_usize is_digit
parse_usize-Numeral [] d = absurd d
parse_usize-Numeral (c ∷ cs) d =
    let plus : (c == b'+') ≡ false = ground (arith, d.0) in rw plus refl

parse_i64-Numeral :
    (n : ℕ) (ds : List ℕ)
    → Numeral ds
    → parse_below (2 ^ 63) ds ≡ some n
    → parse_i64 ds ≡ some (pos n)
unfolding parse_i64 is_digit
parse_i64-Numeral n [] d h = absurd d
parse_i64-Numeral n (c ∷ cs) d h =
    let plus : (c == b'+') ≡ false = ground (arith, d.0) in
    let minus : (c == b'-') ≡ false = ground (arith, d.0) in rw (minus, plus, h) refl

pub parse_usize-to_string : (n : ℕ) → n < 2 ^ 64 → parse_usize (to_string n) ≡ some n
parse_usize-to_string n h =
    parse_usize-Numeral (to_string n) (to_string-Numeral n) ∙ parse_below-to_string (2 ^ 64) n h

parse_i64-int_to_string : (n : ℤ) → IsI64 n → parse_i64 (int_to_string n) ≡ some n
unfolding parse_i64 int_to_string negate
parse_i64-int_to_string (pos n) h =
    parse_i64-Numeral n (to_string n) (to_string-Numeral n) (parse_below-to_string (2 ^ 63) n h)
parse_i64-int_to_string (negsuc n) h =
    rw (parse_below-to_string (2 ^ 63 + 1) (n + 1) (omega arith))
      (ap some (ap negate {x = n + 1} {y = suc n} (omega arith)))

and_false : (b : Bool) → (b && false) ≡ false
and_false true = refl
and_false false = refl

-- The two tests of `parse_integer` on the digits.
Numeral-passes :
    (ds : List ℕ)
    → Numeral ds
    → ((ltb 1 (length ds) && head_is b'0' ds) ≡ false)
      × ((head_is b'-' ds && head_is b'0' (drop 1 ds)) ≡ false)
unfolding is_digit
Numeral-passes [] d = absurd d
Numeral-passes (c ∷ cs) d =
    let minus : (c == b'-') ≡ false = ground (arith, d.0) in
    (
      elim (Bool-cases (c == b'0')) [
        | inl zero_first ↦ let alone : cs ≡ [] = d.1 (ground arith) in rw alone refl
        | inr other ↦ rw other (and_false (ltb 1 (suc (length cs))))
      ],
      rw minus refl,
    )

int_to_string_passes :
    (n : ℤ)
    → ((ltb 1 (length (int_to_string n)) && head_is b'0' (int_to_string n)) ≡ false)
      × ((head_is b'-' (int_to_string n) && head_is b'0' (drop 1 (int_to_string n))) ≡ false)
unfolding int_to_string to_string
int_to_string_passes (pos n) = Numeral-passes (to_string n) (to_string-Numeral n)
int_to_string_passes (negsuc n) =
    let (c, cs, e, d, z) = digits-head (n + 1) (n + 1) (omega arith) in
    let positive : (c == b'0') ≡ false = ground (arith, z) in
    (
      and_false (ltb 1 (suc (length (to_string (n + 1))))),
      subst (λ ds. head_is b'0' ds ≡ false) (sym e) positive,
    )

int_to_string-All : (n : ℤ) → All (λ c. (c == b'e') ≡ false) (int_to_string n)
unfolding int_to_string is_digit
int_to_string-All (pos n) = to_string-All (λ c. c == b'e') n (λ c d. ground arith)
int_to_string-All (negsuc n) = (refl, to_string-All (λ c. c == b'e') (n + 1) (λ c d. ground arith))

drop_past {ℓ} :
    {A : Type ℓ} (xs : List A) (y : A) (ys : List A) → drop (length xs + 1) (xs ++ y ∷ ys) ≡ ys
drop_past [] y ys = refl
drop_past (x ∷ xs) y ys =
    subst (λ k. drop k (x ∷ (xs ++ y ∷ ys)) ≡ ys) {x = suc (length xs + 1)}
      {y = suc (length xs) + 1} (omega arith) (drop_past xs y ys)

parse_integer_numeral :
    (num rest : List ℕ) (n : ℤ)
    → All (λ c. (c == b'e') ≡ false) num
    → (ltb 1 (length num) && head_is b'0' num) ≡ false
    → (head_is b'-' num && head_is b'0' (drop 1 num)) ≡ false
    → parse_i64 num ≡ some n
    → parse_integer (b'i' ∷ (num ++ b'e' ∷ rest)) ≡ ok (integer n, rest)
unfolding parse_integer
parse_integer_numeral num rest n a zero_first minus h =
    let found = position-append (λ d. d == b'e') num b'e' rest a refl in
    rw (found, take-append num (b'e' ∷ rest), zero_first, minus, h, drop_past num b'e' rest) refl

-- An integer in the range of i64 is read back from what `encode` writes, whatever follows.
pub parse_integer-encode :
    (n : ℤ) (rest : List ℕ)
    → IsI64 n
    → parse_integer (encode (integer n) ++ rest) ≡ ok (integer n, rest)
unfolding encode
parse_integer-encode n rest h =
    let (zero_first, minus) = int_to_string_passes n in
    let num = int_to_string n in
    ap (λ s. parse_integer (b'i' ∷ s)) (append_assoc num (b'e' ∷ []) rest)
    ∙ parse_integer_numeral num rest n (int_to_string-All n) zero_first minus
        (parse_i64-int_to_string n h)

parse_bytes_numeral :
    (num s rest : List ℕ)
    → All (λ c. (c == b':') ≡ false) num
    → parse_usize num ≡ some (length s)
    → length s ≤ max_string_length
    → parse_bytes (num ++ b':' ∷ (s ++ rest)) ≡ ok (s, rest)
unfolding parse_bytes
parse_bytes_numeral num s rest a h k =
    let found = position-append (λ d. d == b':') num b':' (s ++ rest) a refl in
    let whole = drop_past num b':' (s ++ rest) in
    let behind : drop (length num + 1 + length s) (num ++ b':' ∷ (s ++ rest)) ≡ rest =
      sym (drop-drop (length s) (length num + 1) (num ++ b':' ∷ (s ++ rest)))
      ∙ ap (drop (length s)) whole
      ∙ drop-append s rest in
    let fits : ltb (length (num ++ b':' ∷ (s ++ rest))) (length num + 1 + length s) ≡ false =
      ground (arith, length-append num (b':' ∷ (s ++ rest)), length-append s rest) in
    let small : ltb max_string_length (length s) ≡ false = ground arith in
    rw
      (
        parse_bytes,
        found,
        take-append num (b':' ∷ (s ++ rest)),
        h,
        small,
        fits,
        whole,
        take-append s rest,
        behind,
      )
      refl

-- A byte string of admissible length is read back from what `encode` writes.
pub parse_bytes-encode :
    (s rest : List ℕ)
    → length s ≤ max_string_length
    → parse_bytes (encode (bytes s) ++ rest) ≡ ok (s, rest)
unfolding encode is_digit
parse_bytes-encode s rest h =
    let num = to_string (length s) in
    ap parse_bytes (append_assoc num (b':' ∷ s) rest)
    ∙ parse_bytes_numeral num s rest
        (to_string-All (λ d. d == b':') (length s) (λ c d. ground arith))
        (parse_usize-to_string (length s) (omega arith)) h

-- ===== src/Bencode/Number.antt =====
-- Decimal numbers in src/torrent/bencode.rs: `to_string` of an integer, and `parse::<i64>` and
-- `parse::<usize>` on bytes.
use gosh_dl.Base.{
  ℕ, zero, suc, ◌+◌, ◌-◌, ◌*◌, ◌/◌, ◌%◌, ◌^◌, ◌≤◌, ◌<◌, ◌≡◌, refl, Bool, true, false, ◌&&◌, List,
  [], ◌∷◌, ◌++◌, Option, none, some, arith, if◌then◌else◌, ◌==◌, ltb, leb, All, inl, inr,
  Bool-cases, ap, All-append, ◌∙◌,
}
use gosh_dl.Base.Int.{ℤ, pos, negsuc}

unfoldable pub is_digit : ℕ → Bool
is_digit c = leb b'0' c && leb c b'9'

abbrev pub head_is : ℕ → List ℕ → Bool
head_is c [] = false
head_is c (d ∷ ds) = d == c

-- The decimal digits, most significant first; `n` units of fuel are enough for `n`.
unfoldable pub digits : ℕ → ℕ → List ℕ
digits zero n = (b'0' + n % 10) ∷ []
digits (suc f) n =
    let front = digits f (n / 10) in
    if ltb n 10 then (b'0' + n) ∷ [] else front ++ (b'0' + n % 10) ∷ []

unfoldable pub to_string : ℕ → List ℕ
unfolding digits
to_string n = digits n n

unfoldable pub int_to_string : ℤ → List ℕ
unfolding to_string
int_to_string (pos n) = to_string n
int_to_string (negsuc n) = b'-' ∷ to_string (n + 1)

unfoldable pub parse_digits : ℕ → List ℕ → Option ℕ
unfolding is_digit
parse_digits acc [] = some acc
parse_digits acc (c ∷ cs) =
    let rest = parse_digits (acc * 10 + (c - b'0')) cs in if is_digit c then rest else none

-- At least one digit, and a value below `limit`.
unfoldable pub parse_below : ℕ → List ℕ → Option ℕ
unfolding parse_digits
parse_below limit [] = none
parse_below limit (c ∷ cs) = elim (parse_digits 0 (c ∷ cs)) [
  | none ↦ none
  | some n ↦ if ltb n limit then some n else none
]

unfoldable pub negate : ℕ → ℤ
negate zero = pos zero
negate (suc n) = negsuc n

-- `str::parse::<i64>`: an optional sign and digits, in the range of i64.
unfoldable pub parse_i64 : List ℕ → Option ℤ
unfolding parse_below negate
parse_i64 [] = none
parse_i64 (c ∷ cs) =
    if c == b'-'
    then elim (parse_below (2 ^ 63 + 1) cs) [ none ↦ none | some n ↦ some (negate n) ]
    else elim (parse_below (2 ^ 63) (if c == b'+' then cs else c ∷ cs)) [
      | none ↦ none
      | some n ↦ some (pos n)
    ]

-- `str::parse::<usize>`, on 64 bits.
unfoldable pub parse_usize : List ℕ → Option ℕ
unfolding parse_below
parse_usize [] = none
parse_usize (c ∷ cs) = parse_below (2 ^ 64) (if c == b'+' then cs else c ∷ cs)

parse_digits-snoc :
    (acc : ℕ) (cs : List ℕ) (n d : ℕ)
    → parse_digits acc cs ≡ some n
    → d < 10
    → parse_digits acc (cs ++ (b'0' + d) ∷ []) ≡ some (n * 10 + d)
unfolding parse_digits
parse_digits-snoc acc [] n d h k = ground arith
parse_digits-snoc acc (c ∷ cs) n d h k =
    ground (arith, parse_digits-snoc (acc * 10 + (c - b'0')) cs n d)

-- Reading the digits of a number gives the number.
pub parse_digits-digits : (f n : ℕ) → n ≤ f → parse_digits 0 (digits f n) ≡ some n
unfolding parse_digits digits
parse_digits-digits zero n h = ground arith
parse_digits-digits (suc f) n h = elim (Bool-cases (ltb n 10)) [
  | inl small ↦ ground arith
  | inr big ↦
      let front = parse_digits-digits f (n / 10) (ground arith) in
      let all = parse_digits-snoc 0 (digits f (n / 10)) (n / 10) (n % 10) front (omega arith) in
      rw big (all ∙ ap some (omega arith))
]

-- The digits are digits, there is at least one, and the first is a zero for zero alone.
pub digits-digit : (f n : ℕ) → n ≤ f → All (λ c. is_digit c ≡ true) (digits f n)
unfolding digits is_digit
digits-digit zero n h = (ground arith, tt)
digits-digit (suc f) n h = elim (Bool-cases (ltb n 10)) [
  | inl small ↦ rw small (ground arith, tt)
  | inr big ↦ rw big (
      All-append (λ c. is_digit c ≡ true) (digits f (n / 10)) _
        (digits-digit f (n / 10) (ground arith)) (ground arith, tt))
]

pub digits-head :
    (f n : ℕ)
    → n ≤ f
    → (c : ℕ) × (cs : List ℕ) × (digits f n ≡ c ∷ cs)
      × (is_digit c ≡ true)
      × (c ≡ b'0' → (n ≡ 0) × (cs ≡ []))
unfolding digits is_digit
digits-head zero n h = (b'0' + n % 10, [], refl, ground arith, λ e. (omega arith, refl))
digits-head (suc f) n h = elim (Bool-cases (ltb n 10)) [
  | inl small ↦ rw small (b'0' + n, [], refl, ground arith, λ e. (omega arith, refl))
  | inr big ↦
      let (c, cs, e, d, z) = digits-head f (n / 10) (ground arith) in
      rw (big, e) (c, cs ++ (b'0' + n % 10) ∷ [], refl, d, λ q. absurd (ground (arith, z q)))
]

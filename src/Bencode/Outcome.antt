-- ===== src/Bencode/Outcome.antt =====
-- The result of the parser of src/torrent/bencode.rs: it always ends, and what it leaves is shorter than
-- what it was given.
use gosh_dl.Base.{
  ℕ, zero, suc, ◌+◌, ◌*◌, ◌≤◌, ◌<◌, ◌≡◌, refl, Bool, true, false, not, ◌&&◌, List, [], ◌∷◌, Option,
  none, some, arith, if◌then◌else◌, ◌==◌, ltb, length, take, drop, position, length-drop,
}
use gosh_dl.Bencode.{
  Result, ok, failed, out_of_fuel, ◌>>=◌, list, dict, bytes, max_parse_depth, parse_integer,
  parse_bytes, max_string_length, parse_at_depth, parse_list, parse_dict, parse, in_order, item,
  entry,
}
use gosh_dl.Bencode.Number.{is_digit, parse_usize, parse_i64, head_is}

-- Not out of fuel, and the rest of a value is shorter than `n`.
abbrev pub Progress {ℓ} : {A : Type ℓ} → ℕ → Result (A × List ℕ) → Type 0
Progress n (ok (a, left)) = length left < n
Progress n failed = Unit
Progress n out_of_fuel = ⊥

module _ {ℓ κ} {A : Type ℓ} {B : Type κ} where
  Progress-bind :
      (n : ℕ) (r : Result (A × List ℕ)) (k : A × List ℕ → Result (B × List ℕ))
      → Progress n r
      → ((a : A) (left : List ℕ) → length left < n → Progress n (k (a, left)))
      → Progress n (r >>= k)
  Progress-bind n (ok (a, left)) k h g = g a left h
  Progress-bind n failed k h g = tt
  Progress-bind n out_of_fuel k h g = h

module _ {ℓ} {A : Type ℓ} where
  Progress-if :
      (n : ℕ) (b : Bool) (x y : Result (A × List ℕ))
      → (b ≡ true → Progress n x)
      → (b ≡ false → Progress n y)
      → Progress n (if b then x else y)
  Progress-if n true x y f g = f refl
  Progress-if n false x y f g = g refl

  Progress-option {κ} :
      {B : Type κ} (n : ℕ) (o : Option B) (k : B → Result (A × List ℕ))
      → ((b : B) → Progress n (k b))
      → Progress n (elim o [ none ↦ failed | some b ↦ k b ])
  Progress-option n none k h = tt
  Progress-option n (some b) k h = h b

parse_bytes-Progress : (input : List ℕ) → Progress (length input) (parse_bytes input)
unfolding parse_bytes
parse_bytes-Progress input =
    Progress-option (length input) (position (λ d. d == b':') input) _ (λ colon.
      Progress-option (length input) (parse_usize (take colon input)) _ (λ len.
        Progress-if (length input) (ltb max_string_length len) _ _ (λ _. tt)
          (λ _.
            Progress-if (length input) (ltb (length input) (colon + 1 + len)) _ _ (λ _. tt)
              (λ fits. ground (arith, length-drop (colon + 1 + len) input)))))

parse_integer-Progress : (input : List ℕ) → Progress (length input) (parse_integer input)
unfolding parse_integer
parse_integer-Progress [] = tt
parse_integer-Progress (c ∷ body) =
    Progress-if (suc (length body)) (not (c == b'i')) _ _ (λ _. tt)
      (λ _. Progress-option (suc (length body)) (position (λ d. d == b'e') body) _ (λ end.
        Progress-if (suc (length body))
          (ltb 1 (length (take end body)) && head_is b'0' (take end body)) _ _ (λ _. tt)
          (λ _.
            Progress-if (suc (length body))
              (head_is b'-' (take end body) && head_is b'0' (drop 1 (take end body))) _ _ (λ _. tt)
              (λ _.
                Progress-option (suc (length body)) (parse_i64 (take end body)) _
                  (λ value. ground (arith, length-drop (end + 1) body))))))

-- What is to be shown of the three functions at the fuel `f`.
abbrev Values : ℕ → Type 0
Values f =
    (depth : ℕ) (input : List ℕ)
    → 2 * length input < f
    → Progress (length input) (parse_at_depth f depth input)

abbrev Lists : ℕ → Type 0
Lists f =
    (depth : ℕ) (input : List ℕ)
    → 2 * length input + 1 < f
    → Progress (length input) (parse_list f depth input)

abbrev Dicts : ℕ → Type 0
Dicts f =
    (depth : ℕ) (last : Option (List ℕ)) (input : List ℕ)
    → 2 * length input + 1 < f
    → Progress (length input) (parse_dict f depth last input)

module _ {ℓ} {A : Type ℓ} where
  Progress-le : (m n : ℕ) (r : Result (A × List ℕ)) → m ≤ n → Progress m r → Progress n r
  Progress-le m n (ok (a, left)) h p = omega arith
  Progress-le m n failed h p = tt
  Progress-le m n out_of_fuel h p = p

Values-step : (f : ℕ) → Lists f → Dicts f → Values (suc f)
unfolding parse_at_depth
Values-step f lists dicts depth [] h = tt
Values-step f lists dicts depth (c ∷ rest) h =
    let n = suc (length rest) in
    let as_list =
      Progress-bind n (parse_list f depth rest) (λ (xs, left). ok (list xs, left))
        (Progress-le (length rest) n _ (omega arith) (lists depth rest (omega arith)))
        (λ xs left k. k) in
    let as_dict =
      Progress-bind n (parse_dict f depth none rest) (λ (es, left). ok (dict es, left))
        (Progress-le (length rest) n _ (omega arith) (dicts depth none rest (omega arith)))
        (λ es left k. k) in
    let as_bytes =
      Progress-bind n (parse_bytes (c ∷ rest)) (λ (s, left). ok (bytes s, left))
        (parse_bytes-Progress (c ∷ rest)) (λ s left k. k) in
    Progress-if n (ltb max_parse_depth depth) _ _ (λ _. tt)
      (λ _.
        Progress-if n (c == b'i') _ _ (λ _. parse_integer-Progress (c ∷ rest))
          (λ _.
            Progress-if n (c == b'l') _ _ (λ _. as_list)
              (λ _.
                Progress-if n (c == b'd') _ _ (λ _. as_dict)
                  (λ _. Progress-if n (is_digit c) _ _ (λ _. as_bytes) (λ _. tt)))))

Lists-step : (f : ℕ) → Values f → Lists f → Lists (suc f)
unfolding parse_list
Lists-step f values lists depth [] h = tt
Lists-step f values lists depth (c ∷ rest) h =
    let n = suc (length rest) in
    Progress-if n (c == b'e') _ _ (λ _. omega arith)
      (λ _.
        Progress-bind n (parse_at_depth f (depth + 1) (c ∷ rest)) _
          (values (depth + 1) (c ∷ rest) (omega arith))
          (λ v left k.
            Progress-bind n (parse_list f depth left) (λ (vs, left'). ok (item v vs, left'))
              (Progress-le (length left) n _ (omega arith) (lists depth left (omega arith)))
              (λ vs left' k'. k')))

Dicts-step : (f : ℕ) → Values f → Dicts f → Dicts (suc f)
unfolding parse_dict
Dicts-step f values dicts depth last [] h = tt
Dicts-step f values dicts depth last (c ∷ rest) h =
    let n = suc (length rest) in
    Progress-if n (c == b'e') _ _ (λ _. omega arith)
      (λ _.
        Progress-bind n (parse_bytes (c ∷ rest)) _ (parse_bytes-Progress (c ∷ rest)) (λ key left k.
          Progress-if n (in_order last key) _ _
            (λ _.
              Progress-bind n (parse_at_depth f (depth + 1) left) _
                (Progress-le (length left) n _ (omega arith)
                  (values (depth + 1) left (omega arith)))
                (λ v left' k'.
                  Progress-bind n (parse_dict f depth (some key) left')
                    (λ (es, left''). ok (entry key v es, left''))
                    (Progress-le (length left') n _ (omega arith)
                      (dicts depth (some key) left' (omega arith)))
                    (λ es left'' k''. k'')))
            (λ _. tt)))

-- With two units of fuel for each byte every function of the parser ends.
parser-Progress : (f : ℕ) → Values f × Lists f × Dicts f
parser-Progress zero =
    (λ d i h. absurd (omega arith), λ d i h. absurd (omega arith), λ d l i h. absurd (omega arith))
parser-Progress (suc f) =
    let (values, lists, dicts) = parser-Progress f in
    (Values-step f lists dicts, Lists-step f values lists, Dicts-step f values dicts)

-- `parse` returns a value or an error on every input, never out of fuel; the bytes it leaves behind a
-- value are fewer than those it was given.
pub parse-Progress : (input : List ℕ) → Progress (length input) (parse input)
unfolding parse
parse-Progress input = (parser-Progress (2 * length input + 2)).0 0 input (omega arith)

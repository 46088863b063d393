-- ===== src/Base/Lists.antt =====
-- Lists measured and indexed by the native numbers, under the library's names.
use Prim.Native.Nat.{ℕ, zero, suc, ◌+◌, ◌-◌, ◌≤◌, ◌<◌, min}
use mathlib.Core.Path.{◌≡◌, refl, ap, subst, sym, ◌∙◌}
use mathlib.Core.Logic.{◌≢◌, inl, inr}
use mathlib.Core.Bool.{Bool, true}
use mathlib.Core.List.{List, [], ◌∷◌, ◌++◌}
use mathlib.Core.Option.{Option, none, some}
use native.Mathlib.Omega.{arith}
use gosh_dl.Base.Tests.{if◌then◌else◌, Bool-cases}

module _ {ℓ} {A : Type ℓ} where
  abbrev pub length : List A → ℕ
  length [] = 0
  length (x ∷ xs) = suc (length xs)

  abbrev pub get_elem? : List A → ℕ → Option A
  get_elem? [] i = none
  get_elem? (x ∷ xs) zero = some x
  get_elem? (x ∷ xs) (suc i) = get_elem? xs i

  -- A write out of bounds changes nothing.
  abbrev pub set : List A → ℕ → A → List A
  set [] i v = []
  set (x ∷ xs) zero v = v ∷ xs
  set (x ∷ xs) (suc i) v = x ∷ set xs i v

  abbrev pub get_or : List A → ℕ → A → A
  get_or [] i d = d
  get_or (x ∷ xs) zero d = x
  get_or (x ∷ xs) (suc i) d = get_or xs i d

  abbrev pub take : ℕ → List A → List A
  take zero xs = []
  take (suc n) [] = []
  take (suc n) (x ∷ xs) = x ∷ take n xs

  abbrev pub drop : ℕ → List A → List A
  drop zero xs = xs
  drop (suc n) [] = []
  drop (suc n) (x ∷ xs) = drop n xs

  abbrev pub replicate : ℕ → A → List A
  replicate zero a = []
  replicate (suc n) a = a ∷ replicate n a

  -- The entries that pass a test.
  abbrev pub keep : (A → Bool) → List A → List A
  keep p [] = []
  keep p (x ∷ xs) = if p x then x ∷ keep p xs else keep p xs

  -- How many entries pass a test.
  abbrev pub count_of : (A → Bool) → List A → ℕ
  count_of p [] = 0
  count_of p (x ∷ xs) = if p x then suc (count_of p xs) else count_of p xs

  -- The index of the first entry that passes a test.
  abbrev pub position : (A → Bool) → List A → Option ℕ
  position p [] = none
  position p (x ∷ xs) =
      if p x then some 0 else elim (position p xs) [ none ↦ none | some i ↦ some (suc i) ]

  abbrev pub All {κ} : (A → Type κ) → List A → Type κ
  All P [] = Unit
  All P (x ∷ xs) = P x × All P xs

module _ {ℓ} {A : Type ℓ} where
  pub length-append : (xs ys : List A) → length (xs ++ ys) ≡ length xs + length ys
  length-append [] ys = omega arith
  length-append (x ∷ xs) ys = omega (arith, length-append xs ys)

  pub length-set : (xs : List A) (i : ℕ) (v : A) → length (set xs i v) ≡ length xs
  length-set [] i v = refl
  length-set (x ∷ xs) zero v = refl
  length-set (x ∷ xs) (suc i) v = ap suc (length-set xs i v)

  pub get_elem?-set_self :
      (xs : List A) (i : ℕ) (v : A) → i < length xs → get_elem? (set xs i v) i ≡ some v
  get_elem?-set_self [] i v h = elim h [ ]
  get_elem?-set_self (x ∷ xs) zero v h = refl
  get_elem?-set_self (x ∷ xs) (suc i) v h = get_elem?-set_self xs i v (omega arith)

  pub get_elem?-set_ne :
      (xs : List A) (i j : ℕ) (v : A) → i ≢ j → get_elem? (set xs i v) j ≡ get_elem? xs j
  get_elem?-set_ne [] i j v h = refl
  get_elem?-set_ne (x ∷ xs) zero zero v h = absurd (h refl)
  get_elem?-set_ne (x ∷ xs) zero (suc j) v h = refl
  get_elem?-set_ne (x ∷ xs) (suc i) zero v h = refl
  get_elem?-set_ne (x ∷ xs) (suc i) (suc j) v h = get_elem?-set_ne xs i j v (λ e. h (ap suc e))

  pub length-replicate : (n : ℕ) (a : A) → length (replicate n a) ≡ n
  length-replicate zero a = refl
  length-replicate (suc n) a = ap suc (length-replicate n a)

  pub get_elem?-replicate : (n i : ℕ) (a : A) → i < n → get_elem? (replicate n a) i ≡ some a
  get_elem?-replicate zero i a h = elim h [ ]
  get_elem?-replicate (suc n) zero a h = refl
  get_elem?-replicate (suc n) (suc i) a h = get_elem?-replicate n i a (omega arith)

  pub get_elem?-take : (n i : ℕ) (xs : List A) → i < n → get_elem? (take n xs) i ≡ get_elem? xs i
  get_elem?-take zero i xs h = elim h [ ]
  get_elem?-take (suc n) i [] h = refl
  get_elem?-take (suc n) zero (x ∷ xs) h = refl
  get_elem?-take (suc n) (suc i) (x ∷ xs) h = get_elem?-take n i xs (omega arith)

  pub take-min : (n m : ℕ) (xs : List A) → m ≡ min n (length xs) → take m xs ≡ take n xs
  take-min zero zero [] h = refl
  take-min zero (suc m) [] h = refl
  take-min (suc n) zero [] h = refl
  take-min (suc n) (suc m) [] h = refl
  take-min zero zero (x ∷ xs) h = refl
  take-min zero (suc m) (x ∷ xs) h = absurd (omega arith)
  take-min (suc n) zero (x ∷ xs) h = absurd (omega arith)
  take-min (suc n) (suc m) (x ∷ xs) h = ap (◌∷◌ x) (take-min n m xs (omega arith))

  pub take-drop : (n : ℕ) (xs : List A) → take n xs ++ drop n xs ≡ xs
  take-drop zero xs = refl
  take-drop (suc n) [] = refl
  take-drop (suc n) (x ∷ xs) = ap (◌∷◌ x) (take-drop n xs)

  pub length-take : (n : ℕ) (xs : List A) → length (take n xs) ≡ min n (length xs)
  length-take zero xs = omega arith
  length-take (suc n) [] = omega arith
  length-take (suc n) (x ∷ xs) = omega (arith, length-take n xs)

  pub length-drop : (n : ℕ) (xs : List A) → length (drop n xs) ≡ length xs - n
  length-drop zero xs = omega arith
  length-drop (suc n) [] = omega arith
  length-drop (suc n) (x ∷ xs) = omega (arith, length-drop n xs)

  pub take-append : (xs ys : List A) → take (length xs) (xs ++ ys) ≡ xs
  take-append [] ys = refl
  take-append (x ∷ xs) ys = ap (◌∷◌ x) (take-append xs ys)

  pub drop-append : (xs ys : List A) → drop (length xs) (xs ++ ys) ≡ ys
  drop-append [] ys = refl
  drop-append (x ∷ xs) ys = drop-append xs ys

  pub get_elem?_lt : (xs : List A) (i : ℕ) (a : A) → get_elem? xs i ≡ some a → i < length xs
  get_elem?_lt [] i a h = cc
  get_elem?_lt (x ∷ xs) zero a h = omega arith
  get_elem?_lt (x ∷ xs) (suc i) a h = omega (arith, get_elem?_lt xs i a h)

  pub count_of-le-length : (p : A → Bool) (xs : List A) → count_of p xs ≤ length xs
  count_of-le-length p [] = omega arith
  count_of-le-length p (x ∷ xs) = ground (arith, count_of-le-length p xs)

  pub length-keep-le : (p : A → Bool) (xs : List A) → length (keep p xs) ≤ length xs
  length-keep-le p [] = omega arith
  length-keep-le p (x ∷ xs) = ground (arith, length-keep-le p xs)

module _ {ℓ κ} {A : Type ℓ} where
  -- `P` holds of each entry and its index, counted from `i`.
  abbrev pub AllFrom : (ℕ → A → Type κ) → ℕ → List A → Type κ
  AllFrom P i [] = Unit
  AllFrom P i (x ∷ xs) = P i x × AllFrom P (suc i) xs

module _ {ℓ κ} {A : Type ℓ} (P : ℕ → A → Type κ) where
  pub AllFrom-set :
      (i k : ℕ) (xs : List A) (v : A) → AllFrom P i xs → P (i + k) v → AllFrom P i (set xs k v)
  AllFrom-set i k [] v a h = tt
  AllFrom-set i zero (x ∷ xs) v a h = (subst (λ n. P n v) (omega arith) h, a.1)
  AllFrom-set i (suc k) (x ∷ xs) v a h = (
    a.0,
    AllFrom-set (suc i) k xs v a.1
        (subst (λ n. P n v) {x = i + suc k} {y = suc i + k} (omega arith) h),
  )

  pub AllFrom-get_elem? :
      (i k : ℕ) (xs : List A) (v : A) → AllFrom P i xs → get_elem? xs k ≡ some v → P (i + k) v
  AllFrom-get_elem? i k [] v a h = absurd (cc)
  AllFrom-get_elem? i zero (x ∷ xs) v a h =
      subst (λ w. P (i + zero) w) {x = x} {y = v} (cc) (subst (λ n. P n x) (omega arith) a.0)
  AllFrom-get_elem? i (suc k) (x ∷ xs) v a h =
      subst (λ n. P n v) {x = suc i + k} {y = i + suc k} (omega arith)
        (AllFrom-get_elem? (suc i) k xs v a.1 h)

  pub AllFrom-replicate : (i n : ℕ) (v : A) → ((j : ℕ) → P j v) → AllFrom P i (replicate n v)
  AllFrom-replicate i zero v h = tt
  AllFrom-replicate i (suc n) v h = (h i, AllFrom-replicate (suc i) n v h)

module _ {ℓ} {A : Type ℓ} where
  pub take-append-drop : (n : ℕ) (xs : List A) → take n xs ++ drop n xs ≡ xs
  take-append-drop zero xs = refl
  take-append-drop (suc n) [] = refl
  take-append-drop (suc n) (x ∷ xs) = ap (◌∷◌ x) (take-append-drop n xs)

  drop-nil : (n : ℕ) → drop {A = A} n [] ≡ []
  drop-nil zero = refl
  drop-nil (suc n) = refl

  pub drop-drop : (m n : ℕ) (xs : List A) → drop m (drop n xs) ≡ drop (n + m) xs
  drop-drop m zero xs = subst (λ k. drop m xs ≡ drop k xs) {x = m} {y = zero + m} (omega arith) refl
  drop-drop m (suc n) [] = drop-nil m ∙ sym (drop-nil (suc n + m))
  drop-drop m (suc n) (x ∷ xs) =
      subst (λ k. drop m (drop n xs) ≡ drop k (x ∷ xs)) {x = suc (n + m)} {y = suc n + m}
        (omega arith) (drop-drop m n xs)

  pub drop_all : (n : ℕ) (xs : List A) → length xs ≤ n → drop n xs ≡ []
  drop_all zero [] h = refl
  drop_all zero (x ∷ xs) h = absurd (omega arith)
  drop_all (suc n) [] h = refl
  drop_all (suc n) (x ∷ xs) h = drop_all n xs (omega arith)

  pub take_all : (n : ℕ) (xs : List A) → length xs ≤ n → take n xs ≡ xs
  take_all zero [] h = refl
  take_all zero (x ∷ xs) h = absurd (omega arith)
  take_all (suc n) [] h = refl
  take_all (suc n) (x ∷ xs) h = ap (◌∷◌ x) (take_all n xs (omega arith))

  pub count_of-set :
      (p : A → Bool) (xs : List A) (i : ℕ) (v w : A)
      → get_elem? xs i ≡ some w
      → count_of p (set xs i v) + (if p w then 1 else 0) ≡ count_of p xs + (if p v then 1 else 0)
  count_of-set p [] i v w h = absurd (cc)
  count_of-set p (x ∷ xs) zero v w h = ground arith
  count_of-set p (x ∷ xs) (suc i) v w h = ground (arith, count_of-set p xs i v w h)

  pub get_elem?_in : (xs : List A) (i : ℕ) → i < length xs → (a : A) × (get_elem? xs i ≡ some a)
  get_elem?_in [] i h = elim h [ ]
  get_elem?_in (x ∷ xs) zero h = (x, refl)
  get_elem?_in (x ∷ xs) (suc i) h = get_elem?_in xs i (omega arith)

  -- If all entries pass a test, each one does.
  pub count_of_full :
      (p : A → Bool) (xs : List A) → count_of p xs ≡ length xs → All (λ x. p x ≡ true) xs
  count_of_full p [] h = tt
  count_of_full p (x ∷ xs) h = elim (Bool-cases (p x)) [
    | inl t ↦ (t, count_of_full p xs (ground arith))
    | inr f ↦ absurd (ground (arith, count_of-le-length p xs))
  ]

  pub count_of_all :
      (p : A → Bool) (xs : List A)
      → ((i : ℕ) (x : A) → get_elem? xs i ≡ some x → p x ≡ true)
      → count_of p xs ≡ length xs
  count_of_all p [] h = refl
  count_of_all p (x ∷ xs) h = rw (h zero x refl) (ap suc (count_of_all p xs (λ i. h (suc i))))

module _ {ℓ} {A : Type ℓ} where
  -- `a` stands in the list.
  pub data In (a : A) : List A → Type ℓ where
    first : {x : A} {xs : List A} → a ≡ x → In a (x ∷ xs)
    later : (x : A) {xs : List A} → In a xs → In a (x ∷ xs)

module _ {ℓ κ} {A : Type ℓ} (P : A → Type κ) where
  pub All-append : (xs ys : List A) → All P xs → All P ys → All P (xs ++ ys)
  All-append [] ys a b = b
  All-append (x ∷ xs) ys a b = (a.0, All-append xs ys a.1 b)

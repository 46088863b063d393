-- ===== src/Base/Sort.antt =====
-- A stable sort by a test, and its first entry.
use mathlib.Core.Path.{◌≡◌, refl}
use mathlib.Core.Logic.{◌⊎◌, inl, inr}
use mathlib.Core.Bool.{Bool, true, false}
use mathlib.Core.List.{List, [], ◌∷◌}
use mathlib.Core.Option.{Option, none, some}
use gosh_dl.Base.Tests.{if◌then◌else◌, Bool-cases}
use gosh_dl.Base.Lists.{All, In, first, later}

module _ {ℓ} {A : Type ℓ} (less : A → A → Bool) where
  unfoldable pub insert_by : A → List A → List A
  insert_by x [] = x ∷ []
  insert_by x (y ∷ ys) = if less y x then y ∷ insert_by x ys else x ∷ y ∷ ys

  -- `sort_by_key`: entries with equal keys keep their order.
  unfoldable pub sort_by : List A → List A
  unfolding insert_by
  sort_by [] = []
  sort_by (x ∷ xs) = insert_by x (sort_by xs)

abbrev pub head? {ℓ} : {A : Type ℓ} → List A → Option A
head? [] = none
head? (x ∷ xs) = some x

module _ {ℓ} {A : Type ℓ} (less : A → A → Bool) where
  -- `m` is an entry and none is less.
  abbrev pub IsLeast : A → List A → Type ℓ
  IsLeast m xs = In m xs × All (λ y. less y m ≡ false) xs

  abbrev LeastHead : List A → Option A → Type ℓ
  LeastHead xs none = xs ≡ []
  LeastHead xs (some m) = IsLeast m xs

  from_head :
      (xs : List A) (r : Option A)
      → LeastHead xs r
      → ((xs ≡ []) × (r ≡ none)) ⊎ ((m : A) × (r ≡ some m) × IsLeast m xs)
  from_head xs none h = inl (h, refl)
  from_head xs (some m) h = inr (m, refl, h)

  module _ (asym : (a b : A) → less a b ≡ true → less b a ≡ false)
      (link : (a b c : A) → less a b ≡ false → less b c ≡ false → less a c ≡ false) where
    self : (a : A) → less a a ≡ false
    self a = elim (Bool-cases (less a a)) [ inl t ↦ asym a a t | inr f ↦ f ]

    All-link :
        (h x : A) (ys : List A)
        → less h x ≡ false
        → All (λ y. less y h ≡ false) ys
        → All (λ y. less y x ≡ false) ys
    All-link h x [] k a = tt
    All-link h x (y ∷ ys) k a = (link y h x a.0 k, All-link h x ys k a.1)

    insert_by-LeastHead :
        (x : A) (xs ys : List A)
        → LeastHead xs (head? ys)
        → LeastHead (x ∷ xs) (head? (insert_by less x ys))
    unfolding insert_by
    insert_by-LeastHead x xs [] h = rw h (first refl, (self x, tt))
    insert_by-LeastHead x xs (y ∷ ys) h = elim (Bool-cases (less y x)) [
      | inl below ↦ rw below (later x h.0, (asym y x below, h.1))
      | inr above ↦ rw above (first refl, (self x, All-link y x xs above h.1))
    ]

    sort_by-LeastHead : (xs : List A) → LeastHead xs (head? (sort_by less xs))
    unfolding sort_by
    sort_by-LeastHead [] = refl
    sort_by-LeastHead (x ∷ xs) = insert_by-LeastHead x xs (sort_by less xs) (sort_by-LeastHead xs)

    -- The first entry of the sorted list is a least entry of the list.
    pub head-sort_by :
        (xs : List A)
        → ((xs ≡ []) × (head? (sort_by less xs) ≡ none))
          ⊎ ((m : A) × (head? (sort_by less xs) ≡ some m) × IsLeast m xs)
    head-sort_by xs = from_head xs _ (sort_by-LeastHead xs)

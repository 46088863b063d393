-- ===== src/Base/Maps.antt =====
-- A `HashMap` with numbers for keys, as an association list. `insert` overwrites in place, `remove`
-- drops the key; `IsMap` says that no key stands twice.
use Prim.Native.Nat.{ℕ, ◌+◌, ◌≤◌, ◌<◌}
use mathlib.Core.Path.{◌≡◌, refl, sym, ◌∙◌}
use mathlib.Core.Logic.{◌⊎◌, inl, inr}
use mathlib.Core.Bool.{Bool}
use mathlib.Core.List.{List, [], ◌∷◌}
use mathlib.Core.Option.{Option, none, some}
use native.Mathlib.Omega.{arith}
use gosh_dl.Base.Tests.{◌==◌, if◌then◌else◌, Bool-cases}
use gosh_dl.Base.Lists.{length}
use gosh_dl.Base.Options.{is_some, some_inj}

module _ {ℓ} {V : Type ℓ} where
  unfoldable pub lookup : ℕ → List (ℕ × V) → Option V
  lookup key [] = none
  lookup key ((other, value) ∷ rest) = if other == key then some value else lookup key rest

  unfoldable pub remove : ℕ → List (ℕ × V) → List (ℕ × V)
  remove key [] = []
  remove key ((other, value) ∷ rest) =
      if other == key then remove key rest else (other, value) ∷ remove key rest

  unfoldable pub insert : ℕ → V → List (ℕ × V) → List (ℕ × V)
  insert key new [] = (key, new) ∷ []
  insert key new ((other, value) ∷ rest) =
      if other == key then (key, new) ∷ rest else (other, value) ∷ insert key new rest

  abbrev pub contains : ℕ → List (ℕ × V) → Bool
  contains k m = is_some (lookup k m)

  abbrev pub IsMap : List (ℕ × V) → Type ℓ
  IsMap [] = Unit
  IsMap ((k, v) ∷ m) = (lookup k m ≡ none) × IsMap m

module _ {ℓ} {V : Type ℓ} where
  pub lookup-insert :
      (key other : ℕ) (new : V) (entries : List (ℕ × V))
      → lookup other (insert key new entries)
        ≡ (if key == other then some new else lookup other entries)
  unfolding lookup insert
  lookup-insert key other new [] = refl
  lookup-insert key other new ((i, value) ∷ rest) = ground (arith, lookup-insert key other new rest)

  pub lookup-insert_cases :
      (key other : ℕ) (new value : V) (entries : List (ℕ × V))
      → lookup other (insert key new entries) ≡ some value
      → ((key ≡ other) × (value ≡ new)) ⊎ (lookup other entries ≡ some value)
  lookup-insert_cases key other new value entries e = elim (Bool-cases (key == other)) [
    | inl same ↦ inl (
      ground (arith, same),
      sym (some_inj (sym (lookup-insert key other new entries ∙ rw same refl) ∙ e)),
    )
    | inr differs ↦ inr (sym (lookup-insert key other new entries ∙ rw differs refl) ∙ e)
  ]

  pub lookup-remove :
      (k j : ℕ) (m : List (ℕ × V)) → lookup j (remove k m) ≡ (if k == j then none else lookup j m)
  unfolding lookup remove
  lookup-remove k j [] = ground arith
  lookup-remove k j ((i, w) ∷ m) = ground (arith, lookup-remove k j m)

  pub lookup_absent :
      (k j : ℕ) (m : List (ℕ × V)) → lookup j m ≡ none → lookup j (remove k m) ≡ none
  lookup_absent k j m h = ground (arith, lookup-remove k j m)

  pub length-insert_absent :
      (k : ℕ) (v : V) (m : List (ℕ × V)) → lookup k m ≡ none → length (insert k v m) ≡ length m + 1
  unfolding lookup insert
  length-insert_absent k v [] h = omega arith
  length-insert_absent k v ((j, w) ∷ m) h = ground (arith, length-insert_absent k v m)

  pub length-insert_present :
      (k : ℕ) (v w : V) (m : List (ℕ × V)) → lookup k m ≡ some w → length (insert k v m) ≡ length m
  unfolding lookup insert
  length-insert_present k v w [] h = cc
  length-insert_present k v w ((j, u) ∷ m) h = ground (arith, length-insert_present k v w m)

  pub length-remove_absent :
      (k : ℕ) (m : List (ℕ × V)) → lookup k m ≡ none → length (remove k m) ≡ length m
  unfolding lookup remove
  length-remove_absent k [] h = refl
  length-remove_absent k ((j, w) ∷ m) h = ground (arith, length-remove_absent k m)

  pub length-remove-le : (k : ℕ) (m : List (ℕ × V)) → length (remove k m) ≤ length m
  unfolding remove
  length-remove-le k [] = omega arith
  length-remove-le k ((j, w) ∷ m) = ground (arith, length-remove-le k m)

  pub length-remove-lt :
      (k : ℕ) (v : V) (m : List (ℕ × V)) → lookup k m ≡ some v → length (remove k m) < length m
  unfolding lookup remove
  length-remove-lt k v [] h = absurd cc
  length-remove-lt k v ((j, w) ∷ m) h = ground (arith, length-remove-lt k v m, length-remove-le k m)

  pub lookup_empty : (k : ℕ) (m : List (ℕ × V)) → length m ≤ 0 → lookup k m ≡ none
  unfolding lookup
  lookup_empty k [] h = refl
  lookup_empty k (e ∷ m) h = absurd (omega arith)

  pub length-remove_present :
      (k : ℕ) (v : V) (m : List (ℕ × V))
      → IsMap m
      → lookup k m ≡ some v
      → length (remove k m) + 1 ≡ length m
  unfolding lookup remove
  length-remove_present k v [] u h = cc
  length-remove_present k v ((j, w) ∷ m) u h =
      ground (arith, length-remove_present k v m u.1, length-remove_absent k m)

  pub insert-IsMap : (k : ℕ) (v : V) (m : List (ℕ × V)) → IsMap m → IsMap (insert k v m)
  unfolding lookup insert
  insert-IsMap k v [] u = (refl, tt)
  insert-IsMap k v ((j, w) ∷ m) u = ground (arith, insert-IsMap k v m u.1, lookup-insert k j v m)

  pub remove-IsMap : (k : ℕ) (m : List (ℕ × V)) → IsMap m → IsMap (remove k m)
  unfolding lookup remove
  remove-IsMap k [] u = tt
  remove-IsMap k ((j, w) ∷ m) u = ground (arith, remove-IsMap k m u.1, lookup_absent k j m)

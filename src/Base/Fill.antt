-- ===== src/Base/Fill.antt =====
-- A finite map whose keys are below a number, and how many entries it has when it is full.
use Prim.Native.Nat.{ℕ, zero, suc, ◌≤◌, ◌<◌}
use mathlib.Core.Path.{◌≡◌, refl}
use mathlib.Core.Logic.{◌≢◌, inl, inr}
use mathlib.Core.List.{List, [], ◌∷◌}
use mathlib.Core.Option.{none, some}
use native.Mathlib.Omega.{arith}
use gosh_dl.Base.Tests.{◌==◌, Bool-cases, if_true, ==_refl}
use gosh_dl.Base.Lists.{length}
use gosh_dl.Base.Options.{Option-cases}
use gosh_dl.Base.Maps.{
  lookup, remove, IsMap, lookup-remove, length-remove-lt, length-remove_present, remove-IsMap,
}

module _ {ℓ} {V : Type ℓ} where
  abbrev pub IsBelow : ℕ → List (ℕ × V) → Type ℓ
  IsBelow n m = (k : ℕ) (v : V) → lookup k m ≡ some v → k < n

  -- A map that has every key below n has as many entries.
  pub length_full :
      (n : ℕ) (m : List (ℕ × V)) → ((k : ℕ) → k < n → lookup k m ≢ none) → n ≤ length m
  length_full zero m h = omega arith
  length_full (suc n) m h = elim (Option-cases (lookup n m)) [
    | inl e ↦ absurd (h n (omega arith) e)
    | inr (v, e) ↦
        let rest =
          length_full n (remove n m)
            (λ k l gone. h k (omega arith) (ground (arith, lookup-remove n k m, gone, l))) in
        omega (arith, rest, length-remove-lt n v m e)
  ]

  IsBelow-without : (n : ℕ) (m : List (ℕ × V)) → IsBelow (suc n) m → lookup n m ≡ none → IsBelow n m
  IsBelow-without n m b e k v h = ground (arith, b k v h, e, h)

  IsBelow-remove : (n : ℕ) (m : List (ℕ × V)) → IsBelow (suc n) m → IsBelow n (remove n m)
  IsBelow-remove n m b k v h = ground (arith, b k v, lookup-remove n k m, h)

  empty_below : (m : List (ℕ × V)) → IsBelow 0 m → length m ≡ 0
  unfolding lookup
  empty_below [] b = refl
  empty_below ((k, v) ∷ m) b =
      absurd (omega (arith, b k v (if_true (k == k) (some v) (lookup k m) (==_refl k))))

  pub length_below : (n : ℕ) (m : List (ℕ × V)) → IsMap m → IsBelow n m → length m ≤ n
  length_below zero m u b = omega (arith, empty_below m b)
  length_below (suc n) m u b = elim (Option-cases (lookup n m)) [
    | inl e ↦ omega (arith, length_below n m u (IsBelow-without n m b e))
    | inr (v, e) ↦ omega (
      arith,
      length_below n (remove n m) (remove-IsMap n m u) (IsBelow-remove n m b),
      length-remove_present n v m u e,
    )
  ]

  -- A map with keys below n that lacks one of them has fewer entries.
  pub length_missing :
      (n k : ℕ) (m : List (ℕ × V))
      → IsMap m
      → IsBelow n m
      → k < n
      → lookup k m ≡ none
      → length m < n
  length_missing zero k m u b l h = elim l [ ]
  length_missing (suc n) k m u b l h = elim (Option-cases (lookup n m)) [
    | inl e ↦ omega (arith, length_below n m u (IsBelow-without n m b e))
    | inr (v, e) ↦
        let other : k < n = elim (Bool-cases (k == n)) [
          | inl same ↦ absurd (ground (arith, same, h, e))
          | inr differs ↦ ground (arith, differs)
        ] in
        omega (
          arith,
          length_missing n k (remove n m) (remove-IsMap n m u) (IsBelow-remove n m b) other
              (ground (arith, lookup-remove n k m, h)),
          length-remove_present n v m u e,
        )
  ]

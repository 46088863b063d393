-- ===== src/Mirror/Available.antt =====
-- src/http/mirror.rs: the available URLs and their count.
use gosh_dl.Base.{
  has, ℕ, suc, ◌+◌, ◌≤◌, ◌<◌, ◌≡◌, refl, false, List, [], ◌∷◌, arith, if◌then◌else◌, ◌==◌, ltb,
  length, All, inl, inr, Bool-cases, ◌∙◌, ap, subst,
}
use gosh_dl.Mirror.{
  Url, MirrorManager, available_from, available_urls, available_count, has_available,
}
use gosh_dl.Mirror.Invariant.{IsDistinct, IsValid}

-- Those listed and those available make up all, from the index `i` on.
abbrev failed_from : List ℕ → ℕ → List Url → ℕ
failed_from failed i [] = 0
failed_from failed i (url ∷ urls) =
    if has failed i then suc (failed_from failed (suc i) urls) else failed_from failed (suc i) urls

available_and_failed :
    (failed : List ℕ) (i : ℕ) (urls : List Url)
    → length (available_from failed i urls) + failed_from failed i urls ≡ length urls
available_and_failed failed i [] = refl
available_and_failed failed i (url ∷ urls) =
    ground (arith, available_and_failed failed (suc i) urls)

failed_from_nil : (i : ℕ) (urls : List Url) → failed_from [] i urls ≡ 0
failed_from_nil i [] = refl
failed_from_nil i (url ∷ urls) = failed_from_nil (suc i) urls

-- An index below `i` does not matter.
failed_from_below :
    (x : ℕ) (xs : List ℕ) (i : ℕ) (urls : List Url)
    → x < i
    → failed_from (x ∷ xs) i urls ≡ failed_from xs i urls
failed_from_below x xs i [] h = refl
failed_from_below x xs i (url ∷ urls) h =
    let other : (x == i) ≡ false = ground arith in
    rw (other, failed_from_below x xs (suc i) urls (omega arith)) refl

failed_from_cons :
    (x : ℕ) (xs : List ℕ) (i : ℕ) (urls : List Url)
    → has xs x ≡ false
    → i ≤ x
    → x < i + length urls
    → failed_from (x ∷ xs) i urls ≡ suc (failed_from xs i urls)
failed_from_cons x xs i [] f h k = absurd (omega arith)
failed_from_cons x xs i (url ∷ urls) f h k = elim (Bool-cases (x == i)) [
  | inl here ↦
      let e : x ≡ i = ground arith in
      let fresh : has xs i ≡ false = subst (λ j. has xs j ≡ false) e f in
      rw (here, fresh, failed_from_below x xs (suc i) urls (omega arith)) refl
  | inr there ↦
      let later = failed_from_cons x xs (suc i) urls f (ground arith) (omega arith) in
      rw (there, later) (ground arith)
]

failed_from_lem :
    (failed : List ℕ) (urls : List Url)
    → IsDistinct failed
    → All (λ i. i < length urls) failed
    → failed_from failed 0 urls ≡ length failed
unfolding IsDistinct
failed_from_lem [] urls d a = failed_from_nil 0 urls
failed_from_lem (x ∷ xs) urls d a =
    failed_from_cons x xs 0 urls d.0 (omega arith) (omega (arith, a.0))
    ∙ ap suc (failed_from_lem xs urls d.1 a.1)

ltb_shift : (f n a : ℕ) → a + f ≡ n → ltb f n ≡ ltb 0 a
ltb_shift f n a h = ground arith

-- In a valid state `available_count` is the length of `available_urls`, and `has_available` holds exactly
-- if there is one.
pub available_count_lem :
    (m : MirrorManager)
    → IsValid m
    → (available_count m ≡ length (available_urls m))
      × (has_available m ≡ ltb 0 (length (available_urls m)))
unfolding available_count available_urls has_available
available_count_lem m v =
    let all = available_and_failed m.failed 0 m.urls in
    let bad = failed_from_lem m.failed m.urls v.distinct v.in_range in
    (
      omega arith,
      ltb_shift (length m.failed) (length m.urls) (length (available_urls m)) (omega arith),
    )

-- ===== src/Mirror/Invariant.antt =====
-- src/http/mirror.rs: the index, the counts and the failed mirrors stay in range under every method.
use gosh_dl.Base.{
  has, ℕ, zero, suc, ◌+◌, ◌%◌, ◌^◌, ◌<◌, ◌≡◌, refl, Bool, false, ◌||◌, List, [], ◌∷◌, ◌++◌, some,
  arith, if◌then◌else◌, ◌==◌, leb, length, get_or, set, position, same_bytes, All, All-append,
  length-set, length-replicate, inl, inr, Bool-cases, Option-cases, ◌∙◌,
}
use gosh_dl.Mirror.{
  Url, MirrorManager, push_new, new, switch_to_next, count_failure, report_failure,
  report_url_failure, failover_from, report_success, reset, current_url,
}
use gosh_dl.Mirror.Switch.{switch_to_next_lem}

-- No failed mirror is listed twice.
unfoldable pub IsDistinct : List ℕ → Type 0
IsDistinct [] = Unit
IsDistinct (x ∷ xs) = (has xs x ≡ false) × IsDistinct xs

pub record IsValid (m : MirrorManager) : Type 0 where
  pub current : m.current_index < length m.urls
  pub counts : length m.failure_counts ≡ length m.urls
  pub in_range : All (λ i. i < length m.urls) m.failed
  pub distinct : IsDistinct m.failed

has-snoc : (xs : List ℕ) (x i : ℕ) → has (xs ++ x ∷ []) i ≡ (has xs i || (x == i))
has-snoc [] x i = ground arith
has-snoc (y ∷ xs) x i = ground (arith, has-snoc xs x i)

IsDistinct-snoc :
    (xs : List ℕ) (x : ℕ) → has xs x ≡ false → IsDistinct xs → IsDistinct (xs ++ x ∷ [])
unfolding IsDistinct
IsDistinct-snoc [] x h d = (refl, tt)
IsDistinct-snoc (y ∷ xs) x h d =
    (ground (arith, has-snoc xs x y, d.0), IsDistinct-snoc xs x (ground arith) d.1)

push_new-IsDistinct : (xs : List ℕ) (i : ℕ) → IsDistinct xs → IsDistinct (push_new xs i)
push_new-IsDistinct xs i d = elim (Bool-cases (has xs i)) [
  | inl there ↦ rw there d
  | inr fresh ↦ rw fresh (IsDistinct-snoc xs i fresh d)
]

push_new-All :
    (n : ℕ) (xs : List ℕ) (i : ℕ) → i < n → All (λ j. j < n) xs → All (λ j. j < n) (push_new xs i)
push_new-All n xs i h a = elim (Bool-cases (has xs i)) [
  | inl there ↦ rw there a
  | inr fresh ↦ rw fresh (All-append (λ j. j < n) xs (i ∷ []) a (h, tt))
]

mark-IsValid :
    (m : MirrorManager) (i : ℕ)
    → i < length m.urls
    → IsValid m
    → IsValid (record m { failed = push_new m.failed i })
mark-IsValid m i h v = record {
  current = v.current;
  counts = v.counts;
  in_range = push_new-All (length m.urls) m.failed i h v.in_range;
  distinct = push_new-IsDistinct m.failed i v.distinct;
}

counts-IsValid :
    (m : MirrorManager) (i count : ℕ)
    → IsValid m
    → IsValid (record m { failure_counts = set m.failure_counts i count })
counts-IsValid m i count v = record {
  current = v.current;
  counts = length-set m.failure_counts i count ∙ v.counts;
  in_range = v.in_range;
  distinct = v.distinct;
}

count_failure-IsValid :
    (m : MirrorManager) (i : ℕ) → i < length m.urls → IsValid m → IsValid (count_failure m i)
unfolding count_failure
count_failure-IsValid m i h v =
    let count = (get_or m.failure_counts i 0 + 1) % 2 ^ 32 in
    let counted = counts-IsValid m i count v in
    elim (Bool-cases (leb m.max_failures count)) [
      | inl many ↦
          rw many
            (mark-IsValid (record m { failure_counts = set m.failure_counts i count }) i h counted)
      | inr few ↦ rw few counted
    ]

move-IsValid :
    (m : MirrorManager) (i : ℕ)
    → i < length m.urls
    → IsValid m
    → IsValid (record m { current_index = i })
move-IsValid m i h v = record {
  current = h;
  counts = v.counts;
  in_range = v.in_range;
  distinct = v.distinct;
}

switch_to_next-IsValid : (m : MirrorManager) → IsValid m → IsValid (switch_to_next m).0
switch_to_next-IsValid m v = elim (switch_to_next_lem m v.current) [
  | inl (i, h, d, good, e) ↦ rw e (move-IsValid m i h v)
  | inr (e, bad) ↦ rw e v
]

position-lt {ℓ} :
    {A : Type ℓ} (p : A → Bool) (xs : List A) (i : ℕ) → position p xs ≡ some i → i < length xs
position-lt p [] i h = absurd cc
position-lt p (x ∷ xs) i h = elim (Bool-cases (p x)) [
  | inl here ↦ ground (arith, h, here)
  | inr there ↦ elim (Option-cases (position p xs)) [
    | inl e ↦ absurd (ground (arith, h, there, e))
    | inr (j, e) ↦ let below = position-lt p xs j e in ground (arith, h, there, e, below)
  ]
]

-- A new manager has its index, its counts and its failed mirrors in range, with none listed twice.
pub new_mirrors-IsValid : (url : Url) (mirrors : List Url) → IsValid (new url mirrors)
unfolding new IsDistinct
new_mirrors-IsValid url mirrors = record {
  current = omega arith;
  counts = length-replicate (suc (length mirrors)) (zero);
  in_range = tt;
  distinct = tt;
}

report_failure-IsValid : (m : MirrorManager) → IsValid m → IsValid (report_failure m).0
unfolding report_failure
report_failure-IsValid m v =
    switch_to_next-IsValid (count_failure m m.current_index)
      (count_failure-IsValid m m.current_index v.current v)

-- The last step of both methods that name a URL.
leave-IsValid :
    (m : MirrorManager) (i : ℕ)
    → IsValid m
    → IsValid (if m.current_index == i then switch_to_next m else (m, current_url m)).0
leave-IsValid m i v = elim (Bool-cases (m.current_index == i)) [
  | inl here ↦ rw here (switch_to_next-IsValid m v)
  | inr elsewhere ↦ rw elsewhere v
]

report_url_failure-IsValid :
    (m : MirrorManager) (url : Url) → IsValid m → IsValid (report_url_failure m url).0
unfolding report_url_failure
report_url_failure-IsValid m url v = elim (Option-cases (position (λ u. same_bytes u url) m.urls)) [
  | inl e ↦ rw (report_url_failure, e) v
  | inr (i, e) ↦
      let h = position-lt (λ u. same_bytes u url) m.urls i e in
      rw (report_url_failure, e)
        (leave-IsValid (count_failure m i) i (count_failure-IsValid m i h v))
]

failover_from-IsValid :
    (m : MirrorManager) (url : Url) → IsValid m → IsValid (failover_from m url).0
unfolding failover_from
failover_from-IsValid m url v = elim (Option-cases (position (λ u. same_bytes u url) m.urls)) [
  | inl e ↦ rw (failover_from, e) v
  | inr (i, e) ↦
      let h = position-lt (λ u. same_bytes u url) m.urls i e in
      rw (failover_from, e)
        (leave-IsValid (record m { failed = push_new m.failed i }) i (mark-IsValid m i h v))
]

report_success-IsValid : (m : MirrorManager) → IsValid m → IsValid (report_success m)
unfolding report_success
report_success-IsValid m v = counts-IsValid m m.current_index 0 v

reset-IsValid : (m : MirrorManager) → IsValid m → IsValid (reset m)
unfolding reset IsDistinct
reset-IsValid m v = record {
  current = omega (arith, v.current);
  counts = length-replicate (length m.urls) zero;
  in_range = tt;
  distinct = tt;
}

-- Every method that changes the state, on every branch, keeps the index, the counts and the failed
-- mirrors in range, and no mirror listed twice.
pub mirrors-IsValid :
    (m : MirrorManager) (url : Url)
    → IsValid m
    → IsValid (report_failure m).0
      × IsValid (report_url_failure m url).0
      × IsValid (failover_from m url).0
      × IsValid (report_success m)
      × IsValid (reset m)
mirrors-IsValid m url v = (
  report_failure-IsValid m v,
  report_url_failure-IsValid m url v,
  failover_from-IsValid m url v,
  report_success-IsValid m v,
  reset-IsValid m v,
)

-- ===== src/Mirror/Switch.antt =====
-- src/http/mirror.rs: `switch_to_next` leaves the current mirror for the next that has not failed.
use native.Mathlib.Nat.{mod-eq_of_lt, mod-eq-sub-mod}
use gosh_dl.Base.{
  has, ℕ, zero, suc, ◌+◌, ◌-◌, ◌%◌, ◌≤◌, ◌<◌, ◌≡◌, refl, ◌≢◌, ◌⊎◌, true, false, none, some, arith,
  ◌==◌, ltb, length, get_elem?, inl, inr, Bool-cases, Option-cases, sym, ◌∙◌, ap,
}
use gosh_dl.Mirror.{MirrorManager, next_from, switch_to_next}

-- Where an offset from the current mirror leads.
abbrev Turns : ℕ → ℕ → ℕ → Type 0
Turns current offset n =
    ((current + offset < n) × ((current + offset) % n ≡ current + offset))
    ⊎ ((n ≤ current + offset) × ((current + offset) % n ≡ current + offset - n))

turns : (c o n : ℕ) → c < n → o < n → Turns c o n
turns c o n h k = elim (Bool-cases (ltb (c + o) n)) [
  | inl inside ↦ let lt : c + o < n = ground arith in inl (lt, mod-eq_of_lt lt)
  | inr outside ↦
      let le : n ≤ c + o = ground arith in
      inr (le, mod-eq-sub-mod le ∙ mod-eq_of_lt {n = c + o - n} {m = n} (omega arith))
]

module _ (m : MirrorManager) where
  abbrev n : ℕ
  n = length m.urls

  next_from-some :
      (k offset i : ℕ)
      → m.current_index < n
      → 0 < offset
      → offset + k ≤ n
      → next_from k m offset ≡ some i
      → (i < n) × (i ≢ m.current_index) × (has m.failed i ≡ false)
  unfolding next_from
  next_from-some zero offset i h p q e = absurd cc
  next_from-some (suc k) offset i h p q e =
      let idx = (m.current_index + offset) % n in
      elim (Bool-cases (has m.failed idx)) [
        | inl bad ↦
            next_from-some k (suc offset) i h (omega arith) (omega arith) (sym (rw bad refl) ∙ e)
        | inr good ↦
            let found : some idx ≡ some i = sym (rw good refl) ∙ e in
            let same : idx ≡ i = cc in
            elim (turns m.current_index offset n h (omega arith)) [
              | inl (lt, t) ↦
                  (omega arith, λ z. absurd (omega arith), sym (ap (has m.failed) same) ∙ good)
              | inr (le, t) ↦
                  (omega arith, λ z. absurd (omega arith), sym (ap (has m.failed) same) ∙ good)
            ]
      ]

  next_from-none :
      (k offset o : ℕ)
      → next_from k m offset ≡ none
      → offset ≤ o
      → o < offset + k
      → has m.failed ((m.current_index + o) % n) ≡ true
  unfolding next_from
  next_from-none zero offset o e p q = absurd (omega arith)
  next_from-none (suc k) offset o e p q =
      elim (Bool-cases (has m.failed ((m.current_index + offset) % n))) [
        | inl bad ↦ elim (Bool-cases (offset == o)) [
          | inl here ↦
              let same : offset ≡ o = ground arith in
              sym (ap (λ x. has m.failed ((m.current_index + x) % n)) same) ∙ bad
          | inr later ↦
              next_from-none k (suc offset) o (sym (rw bad refl) ∙ e) (ground arith) (omega arith)
        ]
        | inr good ↦
            let found : some ((m.current_index + offset) % n) ≡ none = sym (rw good refl) ∙ e in
            absurd cc
      ]

  -- Every other mirror is some offset away.
  reached :
      (i : ℕ)
      → m.current_index < n
      → i < n
      → i ≢ m.current_index
      → (o : ℕ) × (1 ≤ o) × (o < 1 + (n - 1)) × ((m.current_index + o) % n ≡ i)
  reached i h k d = elim (Bool-cases (ltb m.current_index i)) [
    | inl ahead ↦
        let lt : m.current_index < i = ground arith in
        (
          i - m.current_index,
          omega arith,
          omega arith,
          elim (turns m.current_index (i - m.current_index) n h (omega arith)) [
            | inl (a, t) ↦ omega arith
            | inr (a, t) ↦ omega arith
          ],
        )
    | inr behind ↦
        let lt : i < m.current_index = ground (arith, d) in
        (
          i + n - m.current_index,
          omega arith,
          omega arith,
          elim (turns m.current_index (i + n - m.current_index) n h (omega arith)) [
            | inl (a, t) ↦ omega arith
            | inr (a, t) ↦ omega arith
          ],
        )
  ]

-- From a current mirror in range, `switch_to_next` either moves to another mirror in range that has not
-- failed and gives its URL, or gives none and changes nothing, and then every other mirror has failed.
pub switch_to_next_lem :
    (m : MirrorManager)
    → m.current_index < length m.urls
    → ((i : ℕ) × (i < length m.urls)
        × (i ≢ m.current_index)
        × (has m.failed i ≡ false)
        × (switch_to_next m ≡ (record m { current_index = i }, get_elem? m.urls i)))
      ⊎ ((switch_to_next m ≡ (m, none))
          × ((i : ℕ) → i < length m.urls → i ≢ m.current_index → has m.failed i ≡ true))
unfolding switch_to_next
switch_to_next_lem m h = elim (Option-cases (next_from (length m.urls - 1) m 1)) [
  | inl e ↦ inr (
    rw (switch_to_next, e) refl,
    λ i k d.
        let (o, p, q, t) = reached m i h k d in
        sym (ap (has m.failed) t) ∙ next_from-none m (length m.urls - 1) 1 o e p q,
  )
  | inr (i, e) ↦
      let (k, d, good) = next_from-some m (length m.urls - 1) 1 i h (omega arith) (omega arith) e in
      inl (i, k, d, good, rw (switch_to_next, e) refl)
]

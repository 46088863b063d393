-- ===== src/Queue/Numbers.antt =====
-- The sequence numbers of src/priority_queue.rs that calls of `acquire` have taken, before they join the
-- queue with them.
use gosh_dl.Base.{
  ℕ, ◌+◌, ◌^◌, refl, insert, ◌≤◌, ◌<◌, ◌≡◌, ap, ◌||◌, false, List, [], ◌∷◌, ◌++◌, none, some, arith,
  ◌==◌, lookup, has, Option-cases, inl, inr,
}
use gosh_dl.Queue.Entry.{DownloadPriority, tickets}
use gosh_dl.Queue.Heap.{Removed-lookup}
use gosh_dl.Queue.{Semaphore, PriorityQueue, take_number, poll, try_acquire, set_priority, remove}
use gosh_dl.Queue.Invariant.{IsValid, All-fresh, keep-absent, tickets-reprioritised}
use gosh_dl.Queue.Grant.{poll_serves_next, poll-Granted}

-- The numbers are distinct, below the counter, and none is that of an entry.
abbrev pub AreTaken : ℕ → List (ℕ × ℕ) → List ℕ → Type 0
AreTaken sequence entries [] = Unit
AreTaken sequence entries (n ∷ ns) =
    (n < sequence) × (lookup n entries ≡ none) × (has ns n ≡ false) × AreTaken sequence entries ns

pub AreTaken-mono :
    (m n : ℕ) (entries others : List (ℕ × ℕ)) (ns : List ℕ)
    → m ≤ n
    → ((k : ℕ) → lookup k entries ≡ none → lookup k others ≡ none)
    → AreTaken m entries ns
    → AreTaken n others ns
AreTaken-mono m n entries others [] l f t = tt
AreTaken-mono m n entries others (k ∷ ns) l f (below, fresh, apart, rest) =
    (omega arith, f k fresh, apart, AreTaken-mono m n entries others ns l f rest)

below_has :
    (m k : ℕ) (entries : List (ℕ × ℕ)) (ns : List ℕ)
    → AreTaken m entries ns
    → m ≤ k
    → has ns k ≡ false
below_has m k entries [] t l = refl
below_has m k entries (n ∷ ns) (below, fresh, apart, rest) l =
    ground (arith, below_has m k entries ns rest l)

has_between :
    (before : List ℕ) (n m : ℕ) (behind : List ℕ)
    → has (before ++ n ∷ behind) m ≡ ((n == m) || has (before ++ behind) m)
has_between [] n m behind = refl
has_between (k ∷ before) n m behind = ground (arith, has_between before n m behind)

-- One of the numbers, and the others.
pub AreTaken-between :
    (sequence : ℕ) (entries : List (ℕ × ℕ)) (before : List ℕ) (n : ℕ) (behind : List ℕ)
    → AreTaken sequence entries (before ++ n ∷ behind)
    → (n < sequence)
      × (lookup n entries ≡ none)
      × (has (before ++ behind) n ≡ false)
      × AreTaken sequence entries (before ++ behind)
AreTaken-between sequence entries [] n behind t = t
AreTaken-between sequence entries (k ∷ before) n behind (below, fresh, apart, rest) =
    let (a, b, c, d) = AreTaken-between sequence entries before n behind rest in
    (
      a,
      b,
      ground (arith, has_between before n k behind, apart, c),
      (below, fresh, ground (arith, has_between before n k behind, apart), d),
    )

-- An entry with another number.
pub AreTaken-push :
    (sequence n id : ℕ) (entries : List (ℕ × ℕ)) (ns : List ℕ)
    → has ns n ≡ false
    → AreTaken sequence entries ns
    → AreTaken sequence ((n, id) ∷ entries) ns
unfolding lookup
AreTaken-push sequence n id entries [] h t = tt
AreTaken-push sequence n id entries (k ∷ ns) h (below, fresh, apart, rest) = (
  below,
  ground (arith, h, fresh),
  apart,
  AreTaken-push sequence n id entries ns (ground (arith, h)) rest,
)

module _ (sem : Semaphore) where
  open sem use {Sem}

  abbrev pub Holds : PriorityQueue Sem → List ℕ → Type 0
  Holds q ns = AreTaken q.sequence (tickets q.waiting) ns

  pub take_number-Holds :
      (q : PriorityQueue Sem) (ns : List ℕ)
      → IsValid q
      → q.sequence + 1 < 2 ^ 64
      → Holds q ns
      → Holds (take_number sem q) (q.sequence ∷ ns)
  take_number-Holds q ns v room t = (
    omega arith,
    All-fresh q.sequence q.waiting v.counted,
    below_has q.sequence q.sequence (tickets q.waiting) ns t (omega arith),
    AreTaken-mono q.sequence _ (tickets q.waiting) (tickets q.waiting) ns (omega arith) (λ k h. h)
        t,
  )

  pub poll-Holds :
      (q : PriorityQueue Sem) (id : ℕ) (p : DownloadPriority) (q' : PriorityQueue Sem) (ns : List ℕ)
      → IsValid q
      → poll sem q id p ≡ some q'
      → Holds q ns
      → Holds q' ns
  poll-Holds q id p q' ns v h t =
      let ((m, _, r, _), _, _, _, _, _) = poll_serves_next sem q id p q' v h in
      let same = ap (λ s. s.sequence) (poll-Granted sem q id p q' h).result in
      AreTaken-mono q.sequence _ (tickets q.waiting) (tickets q'.waiting) ns (omega (arith, same))
        (λ k e. ground (arith, e, Removed-lookup (λ x. (x.sequence, x.id)) k r v.numbers)) t

  pub try_acquire-Holds :
      (q : PriorityQueue Sem) (id : ℕ) (p : DownloadPriority) (q' : PriorityQueue Sem) (ns : List ℕ)
      → try_acquire sem q id p ≡ some q'
      → Holds q ns
      → Holds q' ns
  unfolding try_acquire
  try_acquire-Holds q id p q' ns h t = elim (Option-cases (sem.try_acquire_owned q.semaphore)) [
    | inl none_left ↦ absurd (ground arith)
    | inr (permit, a) ↦
        let result : q' ≡ record q { semaphore = permit; active = insert id p q.active } =
          ground arith in
        rw result t
  ]

  pub set_priority-Holds :
      (q : PriorityQueue Sem) (id : ℕ) (p : DownloadPriority) (ns : List ℕ)
      → Holds q ns
      → Holds (set_priority sem q id p).0 ns
  unfolding set_priority
  set_priority-Holds q id p ns t = elim (Option-cases (lookup id q.waiting_priorities)) [
    | inr (old, e) ↦ rw (e, tickets-reprioritised id p q.waiting) t
    | inl e ↦ elim (Option-cases (lookup id q.active)) [
      | inl idle ↦ rw (e, idle) t
      | inr (old, held) ↦ rw (e, held) t
    ]
  ]

  pub remove-Holds :
      (q : PriorityQueue Sem) (id : ℕ) (ns : List ℕ) → Holds q ns → Holds (remove sem q id) ns
  unfolding remove
  remove-Holds q id ns t =
      AreTaken-mono q.sequence _ (tickets q.waiting) _ ns (omega arith)
        (λ k e. keep-absent (λ x. (x.sequence, x.id)) _ k q.waiting e) t

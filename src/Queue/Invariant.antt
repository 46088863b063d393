-- ===== src/Queue/Invariant.antt =====
-- What holds of the priority queue of src/priority_queue.rs between its operations.
use gosh_dl.Base.{
  ℕ, ◌+◌, ◌^◌, ◌≤◌, ◌<◌, ◌≡◌, refl, ◌⊎◌, inl, inr, Bool, List, [], ◌∷◌, map, none, some, arith,
  if◌then◌else◌, ◌==◌, length, lookup, All, IsMap, Option-cases, Bool-cases, not, keep,
  lookup-insert, lookup-remove, insert-IsMap, remove-IsMap,
}
use gosh_dl.Queue.Entry.{QueueEntry, DownloadPriority, priorities, tickets}
use gosh_dl.Queue.{
  Semaphore, PriorityQueue, reprioritised, new, take_number, enqueue, leave_active, set_priority,
  remove,
}

module _ {Sem : Type 0} where
  pub record IsValid (q : PriorityQueue Sem) : Type 0 where
    -- an id waits once, an id is active once, and no id does both
    pub ids : IsMap (priorities q.waiting)
    pub active_ids : IsMap q.active
    pub exclusive : (k : ℕ) → (lookup k (priorities q.waiting) ≡ none) ⊎ (lookup k q.active ≡ none)
    -- the side table agrees with the heap
    pub table : (k : ℕ) → lookup k q.waiting_priorities ≡ lookup k (priorities q.waiting)
    -- sequence numbers are distinct and below the counter
    pub numbers : IsMap (tickets q.waiting)
    pub counted : All (λ e. e.sequence < q.sequence) q.waiting

  -- Whoever finds a free slot finds a permit, or `owed` permits make up for it, which calls that have
  -- not ended are going to put back or to add.
  abbrev pub IsBacked : (Sem → ℕ) → ℕ → PriorityQueue Sem → Type 0
  IsBacked available owed q = q.max_concurrent ≤ available q.semaphore + length q.active + owed

pub All-fresh :
    (n : ℕ) (es : List QueueEntry) → All (λ e. e.sequence < n) es → lookup n (tickets es) ≡ none
unfolding lookup
All-fresh n [] h = refl
All-fresh n (e ∷ es) h = ground (arith, All-fresh n es h.1)

All-mono :
    (m n : ℕ) (es : List QueueEntry)
    → m ≤ n
    → All (λ e. e.sequence < m) es
    → All (λ e. e.sequence < n) es
All-mono m n [] h a = tt
All-mono m n (e ∷ es) h a = (omega arith, All-mono m n es h a.1)

-- The heap rebuilt by `set_priority`, and filtered by `remove`.
lookup-reprioritised :
    (id k : ℕ) (p : DownloadPriority) (es : List QueueEntry)
    → lookup k (priorities (reprioritised id p es)) ≡ (
        if id == k
        then elim (lookup k (priorities es)) [ none ↦ none | some _ ↦ some p ]
        else lookup k (priorities es))
unfolding lookup reprioritised
lookup-reprioritised id k p [] = ground arith
lookup-reprioritised id k p (e ∷ es) = ground (arith, lookup-reprioritised id k p es)

reprioritised-ids :
    (id : ℕ) (p : DownloadPriority) (es : List QueueEntry)
    → IsMap (priorities es)
    → IsMap (priorities (reprioritised id p es))
unfolding reprioritised
reprioritised-ids id p [] u = tt
reprioritised-ids id p (e ∷ es) u =
    (ground (arith, u.0, lookup-reprioritised id e.id p es), reprioritised-ids id p es u.1)

pub tickets-reprioritised :
    (id : ℕ) (p : DownloadPriority) (es : List QueueEntry)
    → tickets (reprioritised id p es) ≡ tickets es
unfolding reprioritised
tickets-reprioritised id p [] = refl
tickets-reprioritised id p (e ∷ es) = ground (arith, tickets-reprioritised id p es)

reprioritised-counted :
    (n id : ℕ) (p : DownloadPriority) (es : List QueueEntry)
    → All (λ e. e.sequence < n) es
    → All (λ e. e.sequence < n) (reprioritised id p es)
unfolding reprioritised
reprioritised-counted n id p [] a = tt
reprioritised-counted n id p (e ∷ es) a = (ground arith, reprioritised-counted n id p es a.1)

pub keep-absent {ℓ} :
    {V : Type ℓ} (f : QueueEntry → ℕ × V) (t : QueueEntry → Bool) (k : ℕ) (es : List QueueEntry)
    → lookup k (map f es) ≡ none
    → lookup k (map f (keep t es)) ≡ none
unfolding lookup
keep-absent f t k [] h = h
keep-absent f t k (e ∷ es) h = ground (arith, keep-absent f t k es)

keep-IsMap {ℓ} :
    {V : Type ℓ} (f : QueueEntry → ℕ × V) (t : QueueEntry → Bool) (es : List QueueEntry)
    → IsMap (map f es)
    → IsMap (map f (keep t es))
keep-IsMap f t [] u = tt
keep-IsMap f t (e ∷ es) u = ground (arith, keep-absent f t (f e).0 es u.0, keep-IsMap f t es u.1)

keep-All {ℓ} :
    (P : QueueEntry → Type ℓ) (t : QueueEntry → Bool) (es : List QueueEntry)
    → All P es
    → All P (keep t es)
keep-All P t [] a = tt
keep-All P t (e ∷ es) a = elim (Bool-cases (t e)) [
  | inl kept ↦ rw kept (a.0, keep-All P t es a.1)
  | inr dropped ↦ rw dropped (keep-All P t es a.1)
]

lookup-keep :
    (id k : ℕ) (es : List QueueEntry)
    → lookup k (priorities (keep (λ e. not (e.id == id)) es))
      ≡ (if id == k then none else lookup k (priorities es))
unfolding lookup
lookup-keep id k [] = ground arith
lookup-keep id k (e ∷ es) = ground (arith, lookup-keep id k es)

module _ (sem : Semaphore) where
  open sem use {Sem, available}

  pub new-IsValid : (n : ℕ) → IsValid (new sem n)
  unfolding new lookup
  new-IsValid n = record {
    ids = tt;
    active_ids = tt;
    exclusive = λ k. inl refl;
    table = λ k. refl;
    numbers = tt;
    counted = tt;
  }

  pub take_number-IsValid :
      (q : PriorityQueue Sem) → IsValid q → q.sequence + 1 < 2 ^ 64 → IsValid (take_number sem q)
  take_number-IsValid q v room = record {
    ids = v.ids;
    active_ids = v.active_ids;
    exclusive = v.exclusive;
    table = v.table;
    numbers = v.numbers;
    counted = All-mono q.sequence _ q.waiting (omega arith) v.counted;
  }

  pub enqueue-IsValid :
      (q : PriorityQueue Sem) (n id : ℕ) (p : DownloadPriority)
      → IsValid q
      → lookup id q.waiting_priorities ≡ none
      → lookup id q.active ≡ none
      → n < q.sequence
      → lookup n (tickets q.waiting) ≡ none
      → IsValid (enqueue sem q n id p)
  unfolding enqueue lookup
  enqueue-IsValid q n id p v idle inactive l fresh = record {
    ids = (ground (arith, v.table id), v.ids);
    active_ids = v.active_ids;
    exclusive = λ k. ground (arith, v.exclusive k);
    table = λ k. ground (arith, v.table k, lookup-insert id k p q.waiting_priorities);
    numbers = (fresh, v.numbers);
    counted = (l, v.counted);
  }

  pub leave_active-IsValid :
      (q : PriorityQueue Sem) (id : ℕ) → IsValid q → IsValid (leave_active sem q id)
  leave_active-IsValid q id v = record {
    ids = v.ids;
    active_ids = remove-IsMap id q.active v.active_ids;
    exclusive = λ k. ground (arith, v.exclusive k, lookup-remove id k q.active);
    table = v.table;
    numbers = v.numbers;
    counted = v.counted;
  }

  pub set_priority-IsValid :
      (q : PriorityQueue Sem) (id : ℕ) (p : DownloadPriority)
      → IsValid q
      → IsValid (set_priority sem q id p).0
  unfolding set_priority
  set_priority-IsValid q id p v = elim (Option-cases (lookup id q.waiting_priorities)) [
    | inr (old, e) ↦ rw e (record {
      ids = reprioritised-ids id p q.waiting v.ids;
      active_ids = v.active_ids;
      exclusive = λ k. ground (arith, v.exclusive k, lookup-reprioritised id k p q.waiting);
      table = λ k. ground (
        arith,
        v.table k,
        e,
        lookup-insert id k p q.waiting_priorities,
        lookup-reprioritised id k p q.waiting,
      );
      numbers = rw (tickets-reprioritised id p q.waiting) v.numbers;
      counted = reprioritised-counted q.sequence id p q.waiting v.counted;
    })
    | inl e ↦ rw e (elim (Option-cases (lookup id q.active)) [
      | inl none_active ↦ rw none_active v
      | inr (old, held) ↦ rw held (record {
        ids = v.ids;
        active_ids = insert-IsMap id p q.active v.active_ids;
        exclusive = λ k. ground (arith, v.exclusive k, v.table k, e, lookup-insert id k p q.active);
        table = v.table;
        numbers = v.numbers;
        counted = v.counted;
      })
    ])
  ]

  pub remove-IsValid : (q : PriorityQueue Sem) (id : ℕ) → IsValid q → IsValid (remove sem q id)
  unfolding remove
  remove-IsValid q id v = record {
    ids = keep-IsMap _ _ q.waiting v.ids;
    active_ids = v.active_ids;
    exclusive = λ k. ground (arith, v.exclusive k, lookup-keep id k q.waiting);
    table = λ k.
        ground
          (arith, v.table k, lookup-remove id k q.waiting_priorities, lookup-keep id k q.waiting);
    numbers = keep-IsMap _ _ q.waiting v.numbers;
    counted = keep-All _ _ q.waiting v.counted;
  }

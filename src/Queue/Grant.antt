-- ===== src/Queue/Grant.antt =====
-- How the priority queue of src/priority_queue.rs hands out slots: what a grant presupposes and
-- changes, that the head of the queue gets a free slot, and that nobody jumps the queue.
use gosh_dl.Base.{
  ap, ℕ, ◌+◌, ◌≤◌, ◌<◌, ◌≡◌, refl, ◌⊎◌, inl, inr, List, none, some, arith, length, lookup, insert,
  remove as remove_key, All, Option-cases, lookup-insert, lookup-remove, insert-IsMap,
  length-insert_absent, ◌≢◌,
}
use gosh_dl.Queue.Entry.{QueueEntry, DownloadPriority, rank, pop, peek, Before}
use gosh_dl.Queue.Heap.{
  Removed, pop-Removed, pop-Before, Removed-All, Removed-lookup, Removed-IsMap, Removed-found,
}
use gosh_dl.Queue.{Semaphore, PriorityQueue, poll, try_acquire}
use gosh_dl.Queue.Invariant.{IsValid, IsBacked}

module _ (sem : Semaphore) where
  open sem use {Sem, available}

  -- What a granted round of `acquire` finds and leaves.
  pub record Granted (q : PriorityQueue Sem) (id : ℕ) (p : DownloadPriority)
      (q' : PriorityQueue Sem) : Type 0 where
    pub next : QueueEntry
    pub rest : List QueueEntry
    pub permit : Sem
    pub popped : pop q.waiting ≡ some (next, rest)
    pub head : next.id ≡ id
    pub room : length q.active < q.max_concurrent
    pub acquired : sem.try_acquire_owned q.semaphore ≡ some permit
    pub result : q' ≡ record q {
      semaphore = permit;
      waiting = rest;
      waiting_priorities = remove_key id q.waiting_priorities;
      active = insert id p q.active;
    }

  pub poll-Granted :
      (q : PriorityQueue Sem) (id : ℕ) (p : DownloadPriority) (q' : PriorityQueue Sem)
      → poll sem q id p ≡ some q'
      → Granted q id p q'
  unfolding poll
  poll-Granted q id p q' h = elim (Option-cases (pop q.waiting)) [
    | inl e ↦ absurd (ground arith)
    | inr ((next, rest), e) ↦ elim (Option-cases (sem.try_acquire_owned q.semaphore)) [
      | inl none_left ↦ absurd (ground arith)
      | inr (permit, a) ↦ record {
        next = next;
        rest = rest;
        permit = permit;
        popped = e;
        head = ground arith;
        room = ground arith;
        acquired = a;
        result = ground arith;
      }
    ]
  ]

  Granted-IsValid :
      (q : PriorityQueue Sem) (id : ℕ) (p : DownloadPriority) (q' : PriorityQueue Sem)
      → IsValid q
      → Granted q id p q'
      → IsValid q'
  Granted-IsValid q id p q' v g =
      let r = pop-Removed q.waiting g.next g.rest g.popped in
      let found = Removed-found (λ e. (e.id, e.priority)) r v.ids in
      let inactive : lookup id q.active ≡ none = ground (arith, g.head, found, v.exclusive id) in
      rw g.result (record {
        ids = Removed-IsMap _ r v.ids;
        active_ids = insert-IsMap id p q.active v.active_ids;
        exclusive = λ k. ground (
          arith,
          g.head,
          v.exclusive k,
          lookup-insert id k p q.active,
          Removed-lookup (λ e. (e.id, e.priority)) k r v.ids,
        );
        table = λ k. ground (
          arith,
          g.head,
          v.table k,
          lookup-remove id k q.waiting_priorities,
          Removed-lookup (λ e. (e.id, e.priority)) k r v.ids,
        );
        numbers = Removed-IsMap _ r v.numbers;
        counted = (Removed-All (λ e. e.sequence < q.sequence) r v.counted).1;
      })

  pub poll-IsValid :
      (q : PriorityQueue Sem) (id : ℕ) (p : DownloadPriority) (q' : PriorityQueue Sem)
      → IsValid q
      → poll sem q id p ≡ some q'
      → IsValid q'
  poll-IsValid q id p q' v h = Granted-IsValid q id p q' v (poll-Granted q id p q' h)

  pub try_acquire-IsValid :
      (q : PriorityQueue Sem) (id : ℕ) (p : DownloadPriority) (q' : PriorityQueue Sem)
      → IsValid q
      → lookup id q.waiting_priorities ≡ none
      → lookup id q.active ≡ none
      → try_acquire sem q id p ≡ some q'
      → IsValid q'
  unfolding try_acquire
  try_acquire-IsValid q id p q' v idle inactive h =
      elim (Option-cases (sem.try_acquire_owned q.semaphore)) [
        | inl none_left ↦ absurd (ground arith)
        | inr (permit, a) ↦
            let result : q' ≡ record q { semaphore = permit; active = insert id p q.active } =
              ground arith in
            rw result (record {
              ids = v.ids;
              active_ids = insert-IsMap id p q.active v.active_ids;
              exclusive =
                  λ k. ground (arith, v.exclusive k, v.table k, lookup-insert id k p q.active);
              table = v.table;
              numbers = v.numbers;
              counted = v.counted;
            })
      ]

  -- In a valid state a granted round of `acquire` takes out the entry of that id that is before all
  -- others, hands it one permit and a slot below the ceiling, and records it as active.
  pub poll_serves_next :
      (q : PriorityQueue Sem) (id : ℕ) (p : DownloadPriority) (q' : PriorityQueue Sem)
      → IsValid q
      → poll sem q id p ≡ some q'
      → ((m : QueueEntry) × (m.id ≡ id)
          × Removed m q.waiting q'.waiting
          × All (Before m) q'.waiting)
        × (length q'.active ≤ q'.max_concurrent)
        × (length q'.active ≡ length q.active + 1)
        × (available q'.semaphore + 1 ≡ available q.semaphore)
        × (lookup id q'.active ≡ some p)
        × (lookup id q'.waiting_priorities ≡ none)
  poll_serves_next q id p q' v h =
      let g = poll-Granted q id p q' h in
      let first = pop-Before q.waiting g.next g.rest v.numbers g.popped in
      let found = Removed-found (λ e. (e.id, e.priority)) first.0 v.ids in
      let inactive : lookup id q.active ≡ none = ground (arith, g.head, found, v.exclusive id) in
      let grown = length-insert_absent id p q.active inactive in
      let room = g.room in
      let taken = sem.acquired q.semaphore g.permit g.acquired in
      rw g.result (
        (g.next, g.head, first.0, first.1),
        omega arith,
        grown,
        taken,
        ground (arith, lookup-insert id id p q.active),
        ground (arith, lookup-remove id id q.waiting_priorities),
      )

  -- When every free slot has its permit, and one is free, the download at the head of the queue is granted it at its next round,
  -- under whatever priority its task was started with.
  pub head_is_granted :
      (q : PriorityQueue Sem) (m : QueueEntry) (p : DownloadPriority)
      → IsBacked available 0 q
      → peek q.waiting ≡ some m
      → length q.active < q.max_concurrent
      → (q' : PriorityQueue Sem) × (poll sem q m.id p ≡ some q')
  unfolding poll peek
  head_is_granted q m p backed at_head room = elim (Option-cases (pop q.waiting)) [
    | inl e ↦ absurd (ground arith)
    | inr ((next, rest), e) ↦ elim (Option-cases (sem.try_acquire_owned q.semaphore)) [
      | inl none_left ↦ absurd (omega (arith, backed, sem.exhausted q.semaphore none_left))
      | inr (permit, a) ↦ (
        record q {
          semaphore = permit;
          waiting = rest;
          waiting_priorities = remove_key m.id q.waiting_priorities;
          active = insert m.id p q.active;
        },
        ground arith,
      )
    ]
  ]

  -- A task that is not at the head, or finds no free slot, goes back to sleep.
  pub poll_refused :
      (q : PriorityQueue Sem) (id : ℕ) (p : DownloadPriority)
      → ((m : QueueEntry) → peek q.waiting ≡ some m → m.id ≢ id)
        ⊎ (q.max_concurrent ≤ length q.active)
      → poll sem q id p ≡ none
  unfolding poll peek
  poll_refused q id p (inl other) = elim (Option-cases (pop q.waiting)) [
    | inl e ↦ ground arith
    | inr ((next, rest), e) ↦ ground (arith, other next)
  ]
  poll_refused q id p (inr full) = ground arith

  -- An opportunistic `try_acquire` is granted only if nobody of a higher priority waits, and only below
  -- the ceiling; it leaves the queue of waiting downloads as it was.
  pub try_acquire_no_barging :
      (q : PriorityQueue Sem) (id : ℕ) (p : DownloadPriority) (q' : PriorityQueue Sem)
      → try_acquire sem q id p ≡ some q'
      → (length q.active < q.max_concurrent)
        × (q'.waiting ≡ q.waiting)
        × (lookup id q'.active ≡ some p)
        × ((peek q.waiting ≡ none)
            ⊎ ((m : QueueEntry) × (peek q.waiting ≡ some m) × (rank m.priority ≤ rank p)))
  unfolding try_acquire
  try_acquire_no_barging q id p q' h = elim (Option-cases (sem.try_acquire_owned q.semaphore)) [
    | inl none_left ↦ absurd (ground arith)
    | inr (permit, a) ↦ (
      ground arith,
      ground arith,
      ground (arith, lookup-insert id id p q.active),
      elim (Option-cases (peek q.waiting)) [
        | inl e ↦ inl e
        | inr (m, e) ↦ inr (m, e, ground arith)
      ],
    )
  ]

  -- A granted call uses up as many permits as slots.
  pub poll-IsBacked :
      (owed : ℕ) (q : PriorityQueue Sem) (id : ℕ) (p : DownloadPriority) (q' : PriorityQueue Sem)
      → IsValid q
      → IsBacked available owed q
      → poll sem q id p ≡ some q'
      → IsBacked available owed q'
  poll-IsBacked owed q id p q' v b h =
      let (_, _, grown, taken, _, _) = poll_serves_next q id p q' v h in
      let same = ap (λ r. r.max_concurrent) (poll-Granted q id p q' h).result in
      omega (arith, b, grown, taken, same)

  pub try_acquire-IsBacked :
      (owed : ℕ) (q : PriorityQueue Sem) (id : ℕ) (p : DownloadPriority) (q' : PriorityQueue Sem)
      → lookup id q.active ≡ none
      → IsBacked available owed q
      → try_acquire sem q id p ≡ some q'
      → IsBacked available owed q'
  unfolding try_acquire
  try_acquire-IsBacked owed q id p q' inactive b h =
      elim (Option-cases (sem.try_acquire_owned q.semaphore)) [
        | inl none_left ↦ absurd (ground arith)
        | inr (permit, a) ↦
            let result : q' ≡ record q { semaphore = permit; active = insert id p q.active } =
              ground arith in
            rw result (
              omega (
                arith,
                b,
                sem.acquired q.semaphore permit a,
                length-insert_absent id p q.active inactive,
              ))
      ]

  -- A round that fails though it is the head's and a slot is free finds no permit.
  pub poll_fails_exhausted :
      (owed : ℕ) (q : PriorityQueue Sem) (m : QueueEntry) (p : DownloadPriority)
      → IsBacked available owed q
      → peek q.waiting ≡ some m
      → length q.active < q.max_concurrent
      → poll sem q m.id p ≡ none
      → 0 < owed
  unfolding poll peek
  poll_fails_exhausted owed q m p b at_head room h = elim (Option-cases (pop q.waiting)) [
    | inl e ↦ absurd (ground arith)
    | inr ((next, rest), e) ↦ elim (Option-cases (sem.try_acquire_owned q.semaphore)) [
      | inl none_left ↦ omega (arith, b, room, sem.exhausted q.semaphore none_left)
      | inr (permit, a) ↦ absurd (ground arith)
    ]
  ]

  pub poll_keeps_max :
      (q : PriorityQueue Sem) (id : ℕ) (p : DownloadPriority) (q' : PriorityQueue Sem)
      → poll sem q id p ≡ some q'
      → (q'.max_concurrent ≡ q.max_concurrent) × (q'.notified ≡ q.notified)
  poll_keeps_max q id p q' h = let g = (poll-Granted q id p q' h).result in rw g (refl, refl)

  pub try_acquire_grows :
      (q : PriorityQueue Sem) (id : ℕ) (p : DownloadPriority) (q' : PriorityQueue Sem)
      → lookup id q.active ≡ none
      → try_acquire sem q id p ≡ some q'
      → (q'.max_concurrent ≡ q.max_concurrent) × (length q'.active ≤ q.max_concurrent)
  unfolding try_acquire
  try_acquire_grows q id p q' inactive h = elim (Option-cases (sem.try_acquire_owned q.semaphore)) [
    | inl none_left ↦ absurd (ground arith)
    | inr (permit, a) ↦ ground (arith, length-insert_absent id p q.active inactive)
  ]

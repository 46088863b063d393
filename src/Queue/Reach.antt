-- ===== src/Queue/Reach.antt =====
-- Every history of the priority queue of src/priority_queue.rs: what is done under the lock, and each
-- step outside it, as steps that other calls may come between, under the engine's discipline that an
-- id is queued or active at most once.
use gosh_dl.Base.{
  inl, inr, ℕ, suc, ◌+◌, ◌^◌, ◌≤◌, ◌<◌, ◌≡◌, refl, sym, ap, ◌∙◌, subst, List, [], ◌∷◌, ◌++◌, Option,
  none, some, arith, length, lookup, Option-cases, Bool-cases, ltb, length-remove-le,
  length-insert_present, length-remove_present,
}
use gosh_dl.Queue.Entry.{DownloadPriority, tickets}
use gosh_dl.Queue.{
  Semaphore, PriorityQueue, new, take_number, enqueue, poll, try_acquire, leave_active,
  return_permit, swap_ceiling, raised_by, add_raise, notify_waiters, set_priority, remove,
}
use gosh_dl.Queue.Invariant.{
  IsValid, IsBacked, new-IsValid, take_number-IsValid, enqueue-IsValid, leave_active-IsValid,
  set_priority-IsValid, remove-IsValid,
}
use gosh_dl.Queue.Numbers.{
  AreTaken, AreTaken-between, AreTaken-push, Holds, take_number-Holds, poll-Holds,
  try_acquire-Holds, set_priority-Holds, remove-Holds,
}
use gosh_dl.Queue.Grant.{
  poll-IsValid, poll_serves_next, try_acquire-IsValid, try_acquire_grows, poll_keeps_max,
  poll-IsBacked, try_acquire-IsBacked,
}

abbrev pub total : List ℕ → ℕ
total [] = 0
total (n ∷ ns) = n + total ns

total_between :
    (before : List ℕ) (n : ℕ) (behind : List ℕ)
    → total (before ++ n ∷ behind) ≡ n + total (before ++ behind)
total_between [] n behind = refl
total_between (m ∷ before) n behind = omega (arith, total_between before n behind)

module _ (sem : Semaphore) where
  open sem use {Sem, available}

  -- The queue, and the calls between their steps: the numbers of those that have yet to join the queue, how
  -- many have yet to return a permit, by how much others have yet to raise the permits, and how many have
  -- yet to notify.
  pub record System : Type 0 where
    pub queue : PriorityQueue Sem
    pub joining : List ℕ
    pub returning : ℕ
    pub raising : List ℕ
    pub notifying : ℕ

  -- The permits that calls are going to put back or to add.
  abbrev pub owed : System → ℕ
  owed s = s.returning + total s.raising

  -- The id is neither queued nor active.
  abbrev pub IsFresh : ℕ → PriorityQueue Sem → Type 0
  IsFresh id q = (lookup id q.waiting_priorities ≡ none) × (lookup id q.active ≡ none)

  -- `set_max_concurrent` after the swap.
  abbrev pub after_swap : Option ℕ → System → System
  after_swap none s = record s { notifying = s.notifying + 1 }
  after_swap (some n) s = record s { raising = n ∷ s.raising }

  -- One step of a call. A download joins with a number that was taken. It joins, or tries, only while its id is neither queued nor active; only a
  -- permit that is held is dropped; the ceiling is never raised above `limit`; the sequence counter does
  -- not wrap.
  pub data Step (limit : ℕ) (s : System) : System → Type 0 where
    numbers :
        s.queue.sequence + 1 < 2 ^ 64
        → Step limit s
            (record s { queue = take_number sem s.queue; joining = s.queue.sequence ∷ s.joining })
    enqueues :
        (n : ℕ) (before behind : List ℕ) (id : ℕ) (p : DownloadPriority)
        → s.joining ≡ before ++ n ∷ behind
        → IsFresh id s.queue
        → Step limit s (record s { queue = enqueue sem s.queue n id p; joining = before ++ behind })
    polls :
        {q : PriorityQueue Sem} (id : ℕ) (p : DownloadPriority)
        → poll sem s.queue id p ≡ some q
        → Step limit s (record s { queue = q })
    tries :
        {q : PriorityQueue Sem} (id : ℕ) (p : DownloadPriority)
        → IsFresh id s.queue
        → try_acquire sem s.queue id p ≡ some q
        → Step limit s (record s { queue = q })
    leaves :
        (id : ℕ) (p : DownloadPriority)
        → lookup id s.queue.active ≡ some p
        → Step limit s
            (record s { queue = leave_active sem s.queue id; returning = s.returning + 1 })
    returns :
        (n : ℕ)
        → s.returning ≡ suc n
        → Step limit s (record s {
          queue = return_permit sem s.queue;
          returning = n;
          notifying = s.notifying + 1;
        })
    swaps :
        (max : ℕ)
        → max ≤ limit
        → Step limit s (
            after_swap
              (raised_by sem s.queue.max_concurrent max)
              (record s { queue = swap_ceiling sem s.queue max }))
    adds :
        (n : ℕ) (before behind : List ℕ)
        → s.raising ≡ before ++ n ∷ behind
        → Step limit s (record s {
          queue = add_raise sem (some n) s.queue;
          raising = before ++ behind;
          notifying = s.notifying + 1;
        })
    notifies :
        (n : ℕ)
        → s.notifying ≡ suc n
        → Step limit s (record s { queue = notify_waiters sem s.queue; notifying = n })
    sets :
        (id : ℕ) (p : DownloadPriority)
        → Step limit s (record s { queue = (set_priority sem s.queue id p).0 })
    removes : (id : ℕ) → Step limit s (record s { queue = remove sem s.queue id })

  pub data Reach (limit : ℕ) : System → Type 0 where
    start :
        (n : ℕ)
        → n ≤ limit
        → Reach limit
            (record { queue = new sem n; joining = []; returning = 0; raising = []; notifying = 0 })
    next : {s t : System} → Reach limit s → Step limit s t → Reach limit t

  -- What holds between any two steps.
  pub record IsConsistent (s : System) : Type 0 where
    pub valid : IsValid s.queue
    pub backed : IsBacked available (owed s) s.queue
    pub taken : Holds sem s.queue s.joining

  swapped-IsConsistent :
      (s : System) (max : ℕ)
      → IsConsistent s
      → IsConsistent (
          after_swap
            (raised_by sem s.queue.max_concurrent max)
            (record s { queue = swap_ceiling sem s.queue max }))
  swapped-IsConsistent s max c =
      let v = c.valid in
      let v' : IsValid (swap_ceiling sem s.queue max) = record {
        ids = v.ids;
        active_ids = v.active_ids;
        exclusive = v.exclusive;
        table = v.table;
        numbers = v.numbers;
        counted = v.counted;
      } in
      elim (Bool-cases (ltb s.queue.max_concurrent max)) [
        | inl up ↦
            rw up (record { valid = v'; backed = ground (arith, c.backed, up); taken = c.taken })
        | inr down ↦
            rw down
              (record { valid = v'; backed = ground (arith, c.backed, down); taken = c.taken })
      ]

  semaphore-IsValid :
      (t : Sem) (n : ℕ) (q : PriorityQueue Sem)
      → IsValid q
      → IsValid (record q { semaphore = t; notified = n })
  semaphore-IsValid t n q v = record {
    ids = v.ids;
    active_ids = v.active_ids;
    exclusive = v.exclusive;
    table = v.table;
    numbers = v.numbers;
    counted = v.counted;
  }

  set_priority_sizes :
      (q : PriorityQueue Sem) (id : ℕ) (p : DownloadPriority)
      → ((set_priority sem q id p).0.max_concurrent ≡ q.max_concurrent)
        × (length (set_priority sem q id p).0.active ≡ length q.active)
        × ((set_priority sem q id p).0.semaphore ≡ q.semaphore)
  unfolding set_priority
  set_priority_sizes q id p = elim (Option-cases (lookup id q.active)) [
    | inl e ↦ ground arith
    | inr (old, e) ↦ ground (arith, length-insert_present id p old q.active e)
  ]

  set_priority-IsBacked :
      (n : ℕ) (q : PriorityQueue Sem) (id : ℕ) (p : DownloadPriority)
      → IsBacked available n q
      → IsBacked available n (set_priority sem q id p).0
  set_priority-IsBacked n q id p b =
      let (ceiling, active, permits) = set_priority_sizes q id p in
      omega (arith, b, ceiling, active, ap available permits)

  Step-IsConsistent : {limit : ℕ} {s t : System} → Step limit s t → IsConsistent s → IsConsistent t
  unfolding enqueue remove
  Step-IsConsistent {s = s} (numbers room) c = record {
    valid = take_number-IsValid sem s.queue c.valid room;
    backed = c.backed;
    taken = take_number-Holds sem s.queue s.joining c.valid room c.taken;
  }
  Step-IsConsistent {s = s} (enqueues n before behind id p e f) c =
      let q = s.queue in
      let held = subst (AreTaken q.sequence (tickets q.waiting)) e c.taken in
      let (below, fresh, apart, rest) =
        AreTaken-between q.sequence (tickets q.waiting) before n behind held in
      record {
        valid = enqueue-IsValid sem q n id p c.valid f.0 f.1 below fresh;
        backed = c.backed;
        taken = AreTaken-push q.sequence n id (tickets q.waiting) (before ++ behind) apart rest;
      }
  Step-IsConsistent {s = s} (polls id p h) c = record {
    valid = poll-IsValid sem s.queue id p _ c.valid h;
    backed = poll-IsBacked sem (owed s) s.queue id p _ c.valid c.backed h;
    taken = poll-Holds sem s.queue id p _ s.joining c.valid h c.taken;
  }
  Step-IsConsistent {s = s} (tries id p f h) c = record {
    valid = try_acquire-IsValid sem s.queue id p _ c.valid f.0 f.1 h;
    backed = try_acquire-IsBacked sem (owed s) s.queue id p _ f.1 c.backed h;
    taken = try_acquire-Holds sem s.queue id p _ s.joining h c.taken;
  }
  Step-IsConsistent {s = s} (leaves id p held) c = record {
    valid = leave_active-IsValid sem s.queue id c.valid;
    backed =
        omega (arith, c.backed, length-remove_present id p s.queue.active c.valid.active_ids held);
    taken = c.taken;
  }
  Step-IsConsistent {s = s} (returns n e) c = record {
    valid = semaphore-IsValid _ s.queue.notified s.queue c.valid;
    backed = omega (arith, c.backed, e, sem.available-give_back s.queue.semaphore);
    taken = c.taken;
  }
  Step-IsConsistent {s = s} (swaps max h) c = swapped-IsConsistent s max c
  Step-IsConsistent {s = s} (adds n before behind e) c = record {
    valid = semaphore-IsValid _ s.queue.notified s.queue c.valid;
    backed = omega (
      arith,
      c.backed,
      ap total e ∙ total_between before n behind,
      sem.available-add_permits n s.queue.semaphore,
    );
    taken = c.taken;
  }
  Step-IsConsistent {s = s} (notifies n e) c = record {
    valid = semaphore-IsValid s.queue.semaphore _ s.queue c.valid;
    backed = c.backed;
    taken = c.taken;
  }
  Step-IsConsistent {s = s} (sets id p) c = record {
    valid = set_priority-IsValid sem s.queue id p c.valid;
    backed = set_priority-IsBacked (owed s) s.queue id p c.backed;
    taken = set_priority-Holds sem s.queue id p s.joining c.taken;
  }
  Step-IsConsistent {s = s} (removes id) c = record {
    valid = remove-IsValid sem s.queue id c.valid;
    backed = c.backed;
    taken = remove-Holds sem s.queue id s.joining c.taken;
  }

  new-IsBacked : (n : ℕ) → IsBacked available 0 (new sem n)
  unfolding new
  new-IsBacked n = omega (arith, sem.available-new n)

  pub Reach-IsConsistent : {limit : ℕ} {s : System} → Reach limit s → IsConsistent s
  Reach-IsConsistent (start n h) = record {
    valid = new-IsValid sem n;
    backed = new-IsBacked n;
    taken = tt;
  }
  Reach-IsConsistent (next r step) = Step-IsConsistent step (Reach-IsConsistent r)

  abbrev IsWithin : ℕ → PriorityQueue Sem → Type 0
  IsWithin limit q = (q.max_concurrent ≤ limit) × (length q.active ≤ limit)

  after_swap_queue : (o : Option ℕ) (s : System) → (after_swap o s).queue ≡ s.queue
  after_swap_queue none s = refl
  after_swap_queue (some n) s = refl

  Step-IsWithin :
      {limit : ℕ} {s t : System}
      → Step limit s t
      → IsConsistent s
      → IsWithin limit s.queue
      → IsWithin limit t.queue
  unfolding enqueue remove
  Step-IsWithin (numbers room) c w = w
  Step-IsWithin (enqueues n before behind id p e f) c w = w
  Step-IsWithin {s = s} (polls id p h) c w = omega (
    arith,
    w,
    poll_keeps_max sem s.queue id p _ h,
    (poll_serves_next sem s.queue id p _ c.valid h).1,
  )
  Step-IsWithin {s = s} (tries id p f h) c w =
      omega (arith, w, try_acquire_grows sem s.queue id p _ f.1 h)
  Step-IsWithin {s = s} (leaves id p held) c w =
      (w.0, omega (arith, w.1, length-remove-le id s.queue.active))
  Step-IsWithin (returns n e) c w = w
  Step-IsWithin {limit = limit} {s = s} (swaps max h) c w =
      subst (IsWithin limit) (sym (after_swap_queue (raised_by sem s.queue.max_concurrent max) _))
        (h, w.1)
  Step-IsWithin (adds n before behind e) c w = w
  Step-IsWithin (notifies n e) c w = w
  Step-IsWithin {s = s} (sets id p) c w =
      let (ceiling, active, _) = set_priority_sizes s.queue id p in
      omega (arith, ceiling, active, w)
  Step-IsWithin (removes id) c w = w

  Reach-IsWithin : {limit : ℕ} {s : System} → Reach limit s → IsWithin limit s.queue
  unfolding new
  Reach-IsWithin (start n h) = (h, omega arith)
  Reach-IsWithin (next r step) = Step-IsWithin step (Reach-IsConsistent r) (Reach-IsWithin r)

  -- However the steps of the calls interleave, the number of active downloads never exceeds the highest
  -- ceiling that was set.
  pub active_bounded : {limit : ℕ} {s : System} → Reach limit s → length s.queue.active ≤ limit
  active_bounded r = (Reach-IsWithin r).1

-- ===== src/Queue/Wakeups.antt =====
-- What the waiting tasks of src/priority_queue.rs are told: which calls notify them, a wakeup that is
-- lost between two rounds, and the priority that a granted task is recorded under.
use gosh_dl.Base.{
  ℕ, ◌+◌, ◌<◌, ◌≡◌, refl, ◌≢◌, ◌⊎◌, inl, inr, true, List, Option, none, some, arith, length,
  contains, Option-cases, Bool-cases, lookup-insert,
}
use gosh_dl.Queue.Entry.{QueueEntry, DownloadPriority, pop, peek}
use gosh_dl.Queue.Heap.{Removed-IsMap, pop-Removed, Removed-lookup, Removed-found}
use gosh_dl.Queue.{
  Semaphore, PriorityQueue, poll, set_priority, remove, drop_permit, set_max_concurrent, add_raise,
  raised_by, swap_ceiling, get_priority,
}
use gosh_dl.Queue.Invariant.{IsValid, IsBacked, set_priority-IsValid}
use gosh_dl.Queue.Grant.{
  poll_serves_next, poll_keeps_max, poll-Granted, poll_refused, head_is_granted,
}

module _ (sem : Semaphore) where
  open sem use {Sem, available}

  -- The second in line is not the first.
  second_apart :
      (q : PriorityQueue Sem) (a b : QueueEntry) (rest : List QueueEntry)
      → IsValid q
      → pop q.waiting ≡ some (a, rest)
      → peek rest ≡ some b
      → a.id ≢ b.id
  unfolding peek
  second_apart q a b rest v first second same = elim (Option-cases (pop rest)) [
    | inl e ↦ absurd (ground arith)
    | inr ((c, others), e) ↦
        let r = pop-Removed q.waiting a rest first in
        let r' = pop-Removed rest c others e in
        let gone = Removed-lookup (λ x. (x.id, x.priority)) a.id r v.ids in
        let there_still =
          Removed-found (λ x. (x.id, x.priority)) r'
            (Removed-IsMap (λ x. (x.id, x.priority)) r v.ids) in
        ground (arith, gone, there_still)
  ]

  -- A lost wakeup: in a valid state two downloads wait, there is room for both, and every free slot has
  -- its permit. If the second in
  -- line runs its round first it goes to sleep; then the first is granted its slot, which notifies
  -- nobody. The second is now the head, a slot is free, and no notification has been sent since it went
  -- to sleep.
  pub second_sleeps_beside_free_slot :
      (q : PriorityQueue Sem) (a b : QueueEntry) (rest : List QueueEntry) (pa pb : DownloadPriority)
      → IsValid q
      → IsBacked available 0 q
      → pop q.waiting ≡ some (a, rest)
      → peek rest ≡ some b
      → length q.active + 1 < q.max_concurrent
      → (poll sem q b.id pb ≡ none)
        × ((q' : PriorityQueue Sem) × (poll sem q a.id pa ≡ some q')
            × (peek q'.waiting ≡ some b)
            × (length q'.active < q'.max_concurrent)
            × (q'.notified ≡ q.notified))
  unfolding peek
  second_sleeps_beside_free_slot q a b rest pa pb v backed first second room =
      let at_head : peek q.waiting ≡ some a = ground (arith, first) in
      let (q', granted) = head_is_granted sem q a pa backed at_head (omega arith) in
      let facts = poll_serves_next sem q a.id pa q' v granted in
      let kept = poll_keeps_max sem q a.id pa q' granted in
      let g = poll-Granted sem q a.id pa q' granted in
      let rest_is : q'.waiting ≡ rest = ground (arith, g.popped, g.result) in
      (
        poll_refused sem q b.id pb
            (inl (λ m h same. second_apart q a b rest v first second (ground arith))),
        (q', granted, rw rest_is second, omega (arith, facts, kept), kept.1),
      )

  -- In a valid state a download that waits is given another priority, and is then granted: it is
  -- recorded under the priority that its task was started with, not the one it was given.
  pub grant_forgets_set_priority :
      (q : PriorityQueue Sem) (id : ℕ) (started chosen : DownloadPriority) (q' : PriorityQueue Sem)
      → IsValid q
      → contains id q.waiting_priorities ≡ true
      → poll sem (set_priority sem q id chosen).0 id started ≡ some q'
      → (get_priority sem (set_priority sem q id chosen).0 id ≡ some chosen)
        × (get_priority sem q' id ≡ some started)
  unfolding get_priority set_priority
  grant_forgets_set_priority q id started chosen q' v waits granted =
      let facts =
        poll_serves_next sem (set_priority sem q id chosen).0 id started q'
          (set_priority-IsValid sem q id chosen v) granted in
      let (_, _, _, _, recorded, left) = facts in
      (
        ground (arith, lookup-insert id id chosen q.waiting_priorities),
        ground (arith, recorded, left),
      )

  notified-add_raise :
      (o : Option ℕ) (q : PriorityQueue Sem) → (add_raise sem o q).notified ≡ q.notified
  notified-add_raise none q = refl
  notified-add_raise (some n) q = refl

  -- A call that frees a slot, raises the ceiling or takes an entry out of line notifies the waiting
  -- tasks, as does `set_priority` for a download that waits.
  pub changes_notify :
      (q : PriorityQueue Sem) (id max : ℕ) (p : DownloadPriority)
      → (q.notified < (drop_permit sem q id).notified)
        × (q.notified < (remove sem q id).notified)
        × (q.notified < (set_max_concurrent sem q max).notified)
        × (((set_priority sem q id p).0.waiting ≡ q.waiting)
            ⊎ (q.notified < (set_priority sem q id p).0.notified))
  unfolding drop_permit remove set_max_concurrent set_priority
  changes_notify q id max p = (
    omega arith,
    omega arith,
    omega (arith, notified-add_raise (raised_by sem q.max_concurrent max) (swap_ceiling sem q max)),
    (elim (Bool-cases (contains id q.waiting_priorities)) [
      | inl waits ↦ inr (rw waits (omega arith))
      | inr idle ↦ inl (ground arith)
    ]),
  )

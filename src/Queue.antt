-- ===== src/Queue.antt =====
-- src/priority_queue.rs: the priority queue of downloads. The semaphore is tokio's, and enters as
-- an interface; what is done under the lock is one step. `notified` counts the calls of
-- `notify_waiters`: a task that registered when it was `n` is woken once it is above `n`.
pub mod Entry
mod Heap
mod Invariant
mod Grant
mod Numbers
mod Reach
mod Settle
mod Sorted
mod Wakeups
mod Position
mod Tests
use gosh_dl.Base.{
  ℕ, suc, ◌+◌, ◌-◌, ◌%◌, ◌^◌, ◌≡◌, Bool, true, false, not, ◌&&◌, List, [], ◌∷◌, map, Option, none,
  some, if◌then◌else◌, ◌==◌, ltb, leb, length, keep, position, lookup, insert, remove as remove_key,
  contains,
}
use Entry.{QueueEntry, DownloadPriority, rank, greater, pop, peek}

-- What the queue uses of `tokio::sync::Semaphore`, with the documented effect on the number of
-- available permits.
pub record Semaphore : Type 1 where
  pub Sem : Type 0
  pub new : ℕ → Sem
  pub try_acquire_owned : Sem → Option Sem
  pub give_back : Sem → Sem
  pub add_permits : ℕ → Sem → Sem
  pub available : Sem → ℕ
  pub available-new : (n : ℕ) → available (new n) ≡ n
  pub acquired : (s t : Sem) → try_acquire_owned s ≡ some t → available t + 1 ≡ available s
  pub exhausted : (s : Sem) → try_acquire_owned s ≡ none → available s ≡ 0
  pub available-give_back : (s : Sem) → available (give_back s) ≡ available s + 1
  pub available-add_permits : (n : ℕ) (s : Sem) → available (add_permits n s) ≡ available s + n

pub record PriorityQueue (Sem : Type 0) : Type 0 where
  pub semaphore : Sem
  pub max_concurrent : ℕ
  pub waiting : List QueueEntry
  pub active : List (ℕ × DownloadPriority)
  pub waiting_priorities : List (ℕ × DownloadPriority)
  pub sequence : ℕ
  pub notified : ℕ

-- `set_priority` rebuilds the heap entry by entry; the sequence number stays.
pub reprioritised : ℕ → DownloadPriority → List QueueEntry → List QueueEntry
reprioritised id p [] = []
reprioritised id p (e ∷ es) =
    (if e.id == id then record { id = e.id; priority = p; sequence = e.sequence } else e)
    ∷ reprioritised id p es

-- `sort_by(|a, b| b.cmp(a))`: a stable sort, greatest first.
pub place : QueueEntry → List QueueEntry → List QueueEntry
place e [] = e ∷ []
place e (x ∷ xs) = if greater x e then x ∷ place e xs else e ∷ x ∷ xs

pub sorted : List QueueEntry → List QueueEntry
unfolding place
sorted [] = []
sorted (e ∷ es) = place e (sorted es)

module _ (sem : Semaphore) where
  open sem use {Sem}

  pub new : ℕ → PriorityQueue Sem
  new max_concurrent = record {
    semaphore = sem.new max_concurrent;
    max_concurrent = max_concurrent;
    waiting = [];
    active = [];
    waiting_priorities = [];
    sequence = 0;
    notified = 0;
  }

  -- The start of `acquire`: a number is taken, without the lock, and then the download joins the queue
  -- with it.
  abbrev pub take_number : PriorityQueue Sem → PriorityQueue Sem
  take_number q = record q { sequence = (q.sequence + 1) % 2 ^ 64 }

  pub enqueue : PriorityQueue Sem → ℕ → ℕ → DownloadPriority → PriorityQueue Sem
  unfolding insert
  enqueue q sequence id priority = record q {
    waiting = record { id = id; priority = priority; sequence = sequence } ∷ q.waiting;
    waiting_priorities = insert id priority q.waiting_priorities;
  }

  grant :
      PriorityQueue Sem
      → ℕ
      → DownloadPriority
      → List QueueEntry
      → Option Sem
      → Option (PriorityQueue Sem)
  grant q id priority rest none = none
  grant q id priority rest (some s) = some (record q {
    semaphore = s;
    waiting = rest;
    waiting_priorities = remove_key id q.waiting_priorities;
    active = insert id priority q.active;
  })

  -- One round of the loop of `acquire`, under the lock; `none` means that the task goes back to
  -- sleep with the queue unchanged.
  pub poll : PriorityQueue Sem → ℕ → DownloadPriority → Option (PriorityQueue Sem)
  unfolding grant
  poll q id priority = elim (pop q.waiting) [
    | none ↦ none
    | some (next, rest) ↦
        if next.id == id && ltb (length q.active) q.max_concurrent
        then grant q id priority rest (sem.try_acquire_owned q.semaphore)
        else none
  ]

  admit : PriorityQueue Sem → ℕ → DownloadPriority → Option Sem → Option (PriorityQueue Sem)
  admit q id priority none = none
  admit q id priority (some s) =
      some (record q { semaphore = s; active = insert id priority q.active })

  outranked : DownloadPriority → Option QueueEntry → Bool
  outranked priority none = false
  outranked priority (some next) = ltb (rank priority) (rank next.priority)

  pub try_acquire : PriorityQueue Sem → ℕ → DownloadPriority → Option (PriorityQueue Sem)
  unfolding admit outranked
  try_acquire q id priority =
      if leb q.max_concurrent (length q.active)
      then none
      else if outranked priority (peek q.waiting)
      then none
      else admit q id priority (sem.try_acquire_owned q.semaphore)

  abbrev pub notify_waiters : PriorityQueue Sem → PriorityQueue Sem
  notify_waiters q = record q { notified = q.notified + 1 }

  -- The three steps of the `Drop` of a permit: the download is no longer active, under the lock; then
  -- the permit goes back, without it; then the tasks are notified.
  abbrev pub leave_active : PriorityQueue Sem → ℕ → PriorityQueue Sem
  leave_active q id = record q { active = remove_key id q.active }

  abbrev pub return_permit : PriorityQueue Sem → PriorityQueue Sem
  return_permit q = record q { semaphore = sem.give_back q.semaphore }

  -- `Drop` of a permit with no other call between its steps.
  pub drop_permit : PriorityQueue Sem → ℕ → PriorityQueue Sem
  drop_permit q id = notify_waiters (return_permit (leave_active q id))

  pub set_priority : PriorityQueue Sem → ℕ → DownloadPriority → PriorityQueue Sem × Bool
  unfolding reprioritised
  set_priority q id p =
      if contains id q.waiting_priorities
      then (
        record q {
          waiting = reprioritised id p q.waiting;
          waiting_priorities = insert id p q.waiting_priorities;
          notified = q.notified + 1;
        },
        true,
      )
      else if contains id q.active
      then (record q { active = insert id p q.active }, true)
      else (q, false)

  pub remove : PriorityQueue Sem → ℕ → PriorityQueue Sem
  remove q id = record q {
    waiting_priorities = remove_key id q.waiting_priorities;
    waiting = keep (λ e. not (e.id == id)) q.waiting;
    notified = q.notified + 1;
  }

  pub get_priority : PriorityQueue Sem → ℕ → Option DownloadPriority
  get_priority q id = elim (lookup id q.waiting_priorities) [
    | some p ↦ some p
    | none ↦ lookup id q.active
  ]

  -- The steps of `set_max_concurrent`, none under the lock: the ceiling is swapped, which gives by how
  -- much it was raised; then so many permits are added; then the tasks are notified.
  abbrev pub swap_ceiling : PriorityQueue Sem → ℕ → PriorityQueue Sem
  swap_ceiling q max = record q { max_concurrent = max }

  abbrev pub raised_by : ℕ → ℕ → Option ℕ
  raised_by previous max = if ltb previous max then some (max - previous) else none

  abbrev pub add_raise : Option ℕ → PriorityQueue Sem → PriorityQueue Sem
  add_raise none q = q
  add_raise (some n) q = record q { semaphore = sem.add_permits n q.semaphore }

  -- `set_max_concurrent` with no other call between its steps.
  pub set_max_concurrent : PriorityQueue Sem → ℕ → PriorityQueue Sem
  set_max_concurrent q max =
      notify_waiters (add_raise (raised_by q.max_concurrent max) (swap_ceiling q max))

  pub active_count : PriorityQueue Sem → ℕ
  active_count q = length q.active

  pub waiting_count : PriorityQueue Sem → ℕ
  waiting_count q = length q.waiting

  pub queue_position : PriorityQueue Sem → ℕ → Option ℕ
  unfolding sorted
  queue_position q id =
      if contains id q.waiting_priorities
      then elim (position (λ e. e.id == id) (sorted q.waiting)) [
        | none ↦ none
        | some p ↦ some (p + 1)
      ]
      else none

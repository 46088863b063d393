-- ===== src/Queue/Tests.antt =====
-- The priority queue of src/priority_queue.rs at concrete inputs: two downloads wait for two slots of
-- a counting semaphore.
use gosh_dl.Base.{
  ℕ, zero, suc, ◌+◌, ◌≤◌, ◌<◌, ◌≡◌, refl, ◌⊎◌, true, [], ◌∷◌, Option, none, some, arith, length,
  lookup, insert, remove as remove_key, All, count_of, contains,
}
use gosh_dl.Queue.Entry.{QueueEntry, normal, high, critical, cmp, greater, pop, sift, peek, Before}
use gosh_dl.Queue.Heap.{Removed}
use gosh_dl.Queue.{
  Semaphore, PriorityQueue, new, enqueue, poll, try_acquire, set_priority, reprioritised,
  queue_position, grant, admit, outranked, sorted, place,
}
use gosh_dl.Queue.Invariant.{IsValid}
use gosh_dl.Queue.Grant.{poll_serves_next}
use gosh_dl.Queue.Reach.{
  System, Reach, start, next, numbers, enqueues, polls, leaves, Reach-IsConsistent, active_bounded,
}
use gosh_dl.Queue.Position.{queue_position_counts}
use gosh_dl.Queue.Sorted.{Among}
use gosh_dl.Queue.Wakeups.{second_sleeps_beside_free_slot}

abbrev take_permit : ℕ → Option ℕ
take_permit zero = none
take_permit (suc n) = some n

take_permit-some : (s t : ℕ) → take_permit s ≡ some t → t + 1 ≡ s
take_permit-some zero t h = absurd cc
take_permit-some (suc n) t h = ground arith

take_permit-none : (s : ℕ) → take_permit s ≡ none → s ≡ 0
take_permit-none zero h = refl
take_permit-none (suc n) h = absurd cc

-- A semaphore that is its number of permits.
abbrev counting : Semaphore
counting = record {
  Sem = ℕ;
  new = λ n. n;
  try_acquire_owned = take_permit;
  give_back = λ s. s + 1;
  add_permits = λ n s. s + n;
  available = λ s. s;
  available-new = λ n. refl;
  acquired = take_permit-some;
  exhausted = take_permit-none;
  available-give_back = λ s. refl;
  available-add_permits = λ n s. refl;
}

abbrev first_come : QueueEntry
first_come = record { id = 7; priority = normal; sequence = 0 }

abbrev urgent : QueueEntry
urgent = record { id = 8; priority = high; sequence = 1 }

abbrev two_waiting : PriorityQueue ℕ
two_waiting = record {
  semaphore = 2;
  max_concurrent = 2;
  waiting = urgent ∷ first_come ∷ [];
  active = [];
  waiting_priorities = (7, normal) ∷ (8, high) ∷ [];
  sequence = 2;
  notified = 0;
}

abbrev one_active : PriorityQueue ℕ
one_active = record {
  semaphore = 1;
  max_concurrent = 2;
  waiting = first_come ∷ [];
  active = (8, high) ∷ [];
  waiting_priorities = (7, normal) ∷ [];
  sequence = 2;
  notified = 0;
}

abbrev at_rest : PriorityQueue ℕ → System counting
at_rest q = record { queue = q; joining = []; returning = 0; raising = []; notifying = 0 }

two_waiting-Reach : Reach counting 2 (at_rest two_waiting)
unfolding new enqueue insert lookup
two_waiting-Reach =
    next
      (next (next (next (start 2 (omega arith)) (numbers (omega arith))) (numbers (omega arith)))
        (enqueues 0 (1 ∷ []) [] 7 normal refl (refl, refl)))
      (enqueues 1 [] [] 8 high refl (refl, refl))

two_waiting-IsValid : IsValid two_waiting
two_waiting-IsValid = (Reach-IsConsistent counting two_waiting-Reach).valid

pop-urgent : pop two_waiting.waiting ≡ some (urgent, first_come ∷ [])
unfolding pop sift cmp
pop-urgent = refl

poll_urgent : poll counting two_waiting 8 high ≡ some one_active
unfolding poll pop sift cmp grant insert remove_key
poll_urgent = refl

poll_serves_next_example :
    ((m : QueueEntry) × (m.id ≡ 8)
      × Removed m two_waiting.waiting one_active.waiting
      × All (Before m) one_active.waiting)
    × (length one_active.active ≤ one_active.max_concurrent)
    × (length one_active.active ≡ length two_waiting.active + 1)
    × (1 + 1 ≡ 2)
    × (lookup 8 one_active.active ≡ some high)
    × (lookup 8 one_active.waiting_priorities ≡ none)
poll_serves_next_example =
    poll_serves_next counting two_waiting 8 high one_active two_waiting-IsValid poll_urgent

-- One download has left, and its permit is not back yet.
abbrev one_left : System counting
one_left = record {
  queue = record one_active { active = [] };
  joining = [];
  returning = 1;
  raising = [];
  notifying = 0;
}

one_left-Reach : Reach counting 2 one_left
unfolding lookup remove_key
one_left-Reach = next (next two_waiting-Reach (polls 8 high poll_urgent)) (leaves 8 high refl)

peek-urgent : peek two_waiting.waiting ≡ some urgent
unfolding peek pop sift cmp
peek-urgent = refl

peek-first_come : peek (first_come ∷ []) ≡ some first_come
unfolding peek pop sift cmp
peek-first_come = refl

active_bounded_example : length one_left.queue.active ≤ 2
active_bounded_example = active_bounded counting one_left-Reach

queue_position_counts_example :
    ((lookup 7 two_waiting.waiting_priorities ≡ none)
      × (queue_position counting two_waiting 7 ≡ none))
    ⊎ ((y : QueueEntry) × (y.id ≡ 7)
        × Among y two_waiting.waiting
        × (queue_position counting two_waiting 7
            ≡ some (count_of (λ x. greater x y) two_waiting.waiting + 1)))
queue_position_counts_example = queue_position_counts counting two_waiting 7 two_waiting-IsValid

-- The download that came first stands behind the urgent one.
position_of_first_come : queue_position counting two_waiting 7 ≡ some 2
unfolding queue_position sorted place lookup cmp
position_of_first_come = refl

abbrev try_critical : PriorityQueue ℕ
try_critical = record {
  semaphore = 1;
  max_concurrent = 2;
  waiting = urgent ∷ first_come ∷ [];
  active = (9, critical) ∷ [];
  waiting_priorities = (7, normal) ∷ (8, high) ∷ [];
  sequence = 2;
  notified = 0;
}

tried : try_acquire counting two_waiting 9 critical ≡ some try_critical
unfolding try_acquire admit outranked peek pop sift cmp insert
tried = refl

second_sleeps_beside_free_slot_example :
    (poll counting two_waiting 7 normal ≡ none)
    × ((q' : PriorityQueue ℕ) × (poll counting two_waiting 8 high ≡ some q')
        × (peek q'.waiting ≡ some first_come)
        × (length q'.active < q'.max_concurrent)
        × (q'.notified ≡ 0))
second_sleeps_beside_free_slot_example =
    second_sleeps_beside_free_slot counting two_waiting urgent first_come (first_come ∷ []) high
      normal two_waiting-IsValid (omega arith) pop-urgent peek-first_come (omega arith)

abbrev raised_active : PriorityQueue ℕ
raised_active = record {
  semaphore = 1;
  max_concurrent = 2;
  waiting = urgent ∷ [];
  active = (7, normal) ∷ [];
  waiting_priorities = (8, high) ∷ [];
  sequence = 2;
  notified = 1;
}

waits_7 : contains 7 two_waiting.waiting_priorities ≡ true
unfolding lookup
waits_7 = refl

poll_raised :
    poll counting (set_priority counting two_waiting 7 critical).0 7 normal ≡ some raised_active
unfolding set_priority reprioritised lookup insert poll pop sift cmp grant remove_key
poll_raised = refl

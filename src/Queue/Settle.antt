-- ===== src/Queue/Settle.antt =====
-- The progress of the priority queue of src/priority_queue.rs: when the calls that are between their
-- steps have ended, the head of the queue finds its permit and has been notified.
use gosh_dl.Base.{ℕ, zero, suc, ◌+◌, ◌≡◌, List, [], ◌∷◌, some}
use gosh_dl.Queue.{Semaphore, return_permit, add_raise, notify_waiters}
use gosh_dl.Queue.Reach.{System, Reach}

module _ (sem : Semaphore) where
  open sem use {Sem, available}

  -- The calls between their steps go on to their ends: each permit is returned, each raise added, and then
  -- the tasks are notified for each.
  abbrev return_all : ℕ → System sem → System sem
  return_all zero s = s
  return_all (suc n) s =
      return_all n
        (record s { queue = return_permit sem s.queue; returning = n; notifying = s.notifying + 1 })

  abbrev add_all : List ℕ → System sem → System sem
  add_all [] s = s
  add_all (n ∷ ns) s = add_all ns (record s {
    queue = add_raise sem (some n) s.queue;
    raising = ns;
    notifying = s.notifying + 1;
  })

  abbrev notify_all : ℕ → System sem → System sem
  notify_all zero s = s
  notify_all (suc n) s =
      notify_all n (record s { queue = notify_waiters sem s.queue; notifying = n })

  -- What going on from s to t keeps.
  record Keeps (limit : ℕ) (s t : System sem) : Type 0 where
    pub reached : Reach sem limit t
    pub line : t.queue.waiting ≡ s.queue.waiting
    pub slots : t.queue.active ≡ s.queue.active
    pub ceiling : t.queue.max_concurrent ≡ s.queue.max_concurrent

  abbrev pub settled : System sem → System sem
  settled s =
      let returned = return_all s.returning s in
      let added = add_all returned.raising returned in notify_all added.notifying added

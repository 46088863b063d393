-- ===== src/Queue/Entry.antt =====
-- src/priority_queue.rs: queue entries, their order, and the `BinaryHeap` of entries as a bag with
-- a greatest element; src/protocol/options.rs: the priorities.
use Prim.Native.Nat.{compare, Ordering}
use gosh_dl.Base.{
  ℕ, ◌<◌, ◌≡◌, ◌⊎◌, Bool, true, false, List, [], ◌∷◌, map, Option, none, some, if◌then◌else◌,
}

pub data DownloadPriority : Type 0 where
  low normal high critical : DownloadPriority

-- The derived order is that of the discriminants; they start at -1, so one is added to each.
abbrev pub rank : DownloadPriority → ℕ
rank low = 0
rank normal = 1
rank high = 2
rank critical = 3

pub record QueueEntry : Type 0 where
  pub id : ℕ
  pub priority : DownloadPriority
  pub sequence : ℕ

unfoldable pub cmp : QueueEntry → QueueEntry → Ordering
cmp a b = elim (compare (rank a.priority) (rank b.priority)) [
  | Ordering.eq ↦ compare b.sequence a.sequence
  | other ↦ other
]

abbrev pub greater : QueueEntry → QueueEntry → Bool
unfolding cmp
greater a b = elim (cmp a b) [ Ordering.gt ↦ true | _ ↦ false ]

-- `BinaryHeap::pop`: the greatest entry and the others.
unfoldable pub sift :
    QueueEntry
    → List QueueEntry
    → Option (QueueEntry × List QueueEntry)
    → Option (QueueEntry × List QueueEntry)
sift e es none = some (e, es)
sift e es (some (m, rest)) = if greater e m then some (e, es) else some (m, e ∷ rest)

unfoldable pub pop : List QueueEntry → Option (QueueEntry × List QueueEntry)
unfolding sift
pop [] = none
pop (e ∷ es) = sift e es (pop es)

unfoldable pub peek : List QueueEntry → Option QueueEntry
peek es = elim (pop es) [ none ↦ none | some (m, rest) ↦ some m ]

-- The entries as a map from ids to priorities, and from sequence numbers to ids.
abbrev pub priorities : List QueueEntry → List (ℕ × DownloadPriority)
priorities = map λ e. (e.id, e.priority)

abbrev pub tickets : List QueueEntry → List (ℕ × ℕ)
tickets = map λ e. (e.sequence, e.id)

-- `a` is served before `b`: a higher priority, or the same and an earlier arrival.
abbrev pub Before : QueueEntry → QueueEntry → Type 0
Before a b =
    (rank b.priority < rank a.priority)
    ⊎ ((rank a.priority ≡ rank b.priority) × (a.sequence < b.sequence))

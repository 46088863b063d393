-- ===== src/Queue/Heap.antt =====
-- The heap of the priority queue: what `pop` takes out, and that it is first in the order.
use gosh_dl.Base.{
  ℕ, ◌+◌, ◌≡◌, refl, ◌≢◌, inl, inr, true, false, List, [], ◌∷◌, map, Option, none, some, arith,
  if◌then◌else◌, ◌==◌, length, lookup, All, IsMap, Bool-cases,
}
use gosh_dl.Queue.Entry.{QueueEntry, cmp, greater, sift, pop, tickets, Before}

-- `rest` is `es` without one occurrence of `m`.
pub data Removed (m : QueueEntry) : List QueueEntry → List QueueEntry → Type 0 where
  here : {es : List QueueEntry} → Removed m (m ∷ es) es
  there :
      (e : QueueEntry) {es rest : List QueueEntry}
      → Removed m es rest
      → Removed m (e ∷ es) (e ∷ rest)

-- No entry of `es` is greater than `m`.
abbrev pub Greatest : QueueEntry → List QueueEntry → Type 0
Greatest m = All (λ e. greater e m ≡ false)

abbrev pub Pops : List QueueEntry → Option (QueueEntry × List QueueEntry) → Type 0
Pops es none = es ≡ []
Pops es (some (m, rest)) = Removed m es rest × Greatest m es

greater_trans :
    (x e m : QueueEntry) → greater e m ≡ true → greater x m ≡ false → greater x e ≡ false
unfolding cmp
greater_trans x e m h k = ground arith

greater_irrefl : (x : QueueEntry) → greater x x ≡ false
unfolding cmp
greater_irrefl x = ground arith

Greatest-up :
    (e m : QueueEntry) (es : List QueueEntry) → greater e m ≡ true → Greatest m es → Greatest e es
Greatest-up e m [] h g = tt
Greatest-up e m (x ∷ es) h g = (greater_trans x e m h g.0, Greatest-up e m es h g.1)

sift-Pops :
    (e : QueueEntry) (es : List QueueEntry) (r : Option (QueueEntry × List QueueEntry))
    → Pops es r
    → Pops (e ∷ es) (sift e es r)
unfolding sift
sift-Pops e es none h = rw h (here, (greater_irrefl e, tt))
sift-Pops e es (some (m, rest)) h = elim (Bool-cases (greater e m)) [
  | inl up ↦ rw up (here, (greater_irrefl e, Greatest-up e m es up h.1))
  | inr down ↦ rw down (there e h.0, (down, h.1))
]

-- `pop` fails on the empty heap only, and otherwise removes one entry than which none is greater.
pub pop-Pops : (es : List QueueEntry) → Pops es (pop es)
unfolding pop
pop-Pops [] = refl
pop-Pops (e ∷ es) = sift-Pops e es (pop es) (pop-Pops es)

pub pop-Removed :
    (es : List QueueEntry) (m : QueueEntry) (rest : List QueueEntry)
    → pop es ≡ some (m, rest)
    → Removed m es rest
pop-Removed es m rest h = (rw h at (pop-Pops es)).0

pub pop-Greatest :
    (es : List QueueEntry) (m : QueueEntry) (rest : List QueueEntry)
    → pop es ≡ some (m, rest)
    → Greatest m es
pop-Greatest es m rest h = (rw h at (pop-Pops es)).1

pub Removed-length :
    {m : QueueEntry} {es rest : List QueueEntry} → Removed m es rest → length es ≡ length rest + 1
Removed-length here = omega arith
Removed-length (there e r) = omega (arith, Removed-length r)

pub Removed-All {ℓ} :
    {m : QueueEntry} {es rest : List QueueEntry} (P : QueueEntry → Type ℓ)
    → Removed m es rest
    → All P es
    → P m × All P rest
Removed-All P here h = h
Removed-All P (there e r) h = let below = Removed-All P r h.1 in (below.0, (h.0, below.1))

-- Reading the entries as a map, under any key.
module _ {V : Type 0} (f : QueueEntry → ℕ × V) where
  pub Removed-found :
      {m : QueueEntry} {es rest : List QueueEntry}
      → Removed m es rest
      → IsMap (map f es)
      → lookup (f m).0 (map f es) ≡ some (f m).1
  unfolding lookup
  Removed-found here u = ground arith
  Removed-found (there e r) u = ground (arith, Removed-found r u.1)

  pub Removed-lookup :
      {m : QueueEntry} {es rest : List QueueEntry} (k : ℕ)
      → Removed m es rest
      → IsMap (map f es)
      → lookup k (map f rest) ≡ (if (f m).0 == k then none else lookup k (map f es))
  unfolding lookup
  Removed-lookup {m} k here u = ground arith
  Removed-lookup {m} k (there e r) u = ground (arith, Removed-lookup k r u.1, Removed-found r u.1)

  pub Removed-IsMap :
      {m : QueueEntry} {es rest : List QueueEntry}
      → Removed m es rest
      → IsMap (map f es)
      → IsMap (map f rest)
  Removed-IsMap here u = u.1
  Removed-IsMap (there e r) u = ground (arith, Removed-lookup (f e).0 r u.1, Removed-IsMap r u.1)

absent-apart :
    (k : ℕ) (es : List QueueEntry) → lookup k (tickets es) ≡ none → All (λ e. e.sequence ≢ k) es
unfolding lookup
absent-apart k [] h = tt
absent-apart k (e ∷ es) h = (ground arith, absent-apart k es (ground arith))

Removed-apart :
    {m : QueueEntry} {es rest : List QueueEntry}
    → Removed m es rest
    → IsMap (tickets es)
    → All (λ e. e.sequence ≢ m.sequence) rest
unfolding lookup
Removed-apart {m} {es} {rest} here u = absent-apart m.sequence rest u.0
Removed-apart {m} (there e r) u = (
  (let at_m = Removed-found (λ e. (e.sequence, e.id)) r u.1 in ground (arith, u.0, at_m)),
  Removed-apart r u.1,
)

not_greater-Before : (e m : QueueEntry) → greater e m ≡ false → e.sequence ≢ m.sequence → Before m e
unfolding cmp
not_greater-Before e m h d = ground arith

Greatest-Before :
    (m : QueueEntry) (es : List QueueEntry)
    → Greatest m es
    → All (λ e. e.sequence ≢ m.sequence) es
    → All (Before m) es
Greatest-Before m [] g d = tt
Greatest-Before m (e ∷ es) g d = (not_greater-Before e m g.0 d.0, Greatest-Before m es g.1 d.1)

-- With distinct sequence numbers `pop` takes the entry that is before all others: it has the highest
-- priority and, among the entries of that priority, arrived first.
pub pop-Before :
    (es : List QueueEntry) (m : QueueEntry) (rest : List QueueEntry)
    → IsMap (tickets es)
    → pop es ≡ some (m, rest)
    → Removed m es rest × All (Before m) rest
pop-Before es m rest u h =
    let r = pop-Removed es m rest h in
    let g = Removed-All (λ e. greater e m ≡ false) r (pop-Greatest es m rest h) in
    (r, Greatest-Before m rest g.1 (Removed-apart r u))

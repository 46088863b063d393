-- ===== src/Queue/Sorted.antt =====
-- The sorted copy of the heap that `queue_position` of src/priority_queue.rs makes.
use gosh_dl.Base.{
  sym, ℕ, ◌≡◌, refl, ◌≢◌, inl, inr, Bool, true, false, List, [], ◌∷◌, none, some, arith, ◌==◌,
  lookup, All, IsMap, Bool-cases, count_of,
}
use gosh_dl.Queue.Entry.{QueueEntry, DownloadPriority, cmp, greater, priorities, tickets}
use gosh_dl.Queue.{place, sorted}

pub data Among (y : QueueEntry) : List QueueEntry → Type 0 where
  here : {es : List QueueEntry} → Among y (y ∷ es)
  there : (e : QueueEntry) {es : List QueueEntry} → Among y es → Among y (e ∷ es)

-- Strictly falling.
abbrev pub Desc : List QueueEntry → Type 0
Desc [] = Unit
Desc (x ∷ xs) = All (λ z. greater x z ≡ true) xs × Desc xs

pub greater_total :
    (a b : QueueEntry) → a.sequence ≢ b.sequence → greater a b ≡ false → greater b a ≡ true
unfolding cmp
greater_total a b d h = ground arith

pub greater_chain :
    (a b c : QueueEntry) → greater a b ≡ true → greater b c ≡ true → greater a c ≡ true
unfolding cmp
greater_chain a b c h k = ground arith

pub greater_asym : (a b : QueueEntry) → greater a b ≡ true → greater b a ≡ false
unfolding cmp
greater_asym a b h = ground arith

pub greater_self : (a : QueueEntry) → greater a a ≡ false
unfolding cmp
greater_self a = ground arith

pub Among-All {ℓ} :
    {y : QueueEntry} {es : List QueueEntry} (P : QueueEntry → Type ℓ) → Among y es → All P es → P y
Among-All P here a = a.0
Among-All P (there e m) a = Among-All P m a.1

pub greater_over :
    (e x y : QueueEntry) → greater x e ≡ false → greater x y ≡ true → greater e y ≡ true
unfolding cmp
greater_over e x y h k = ground arith

pub lookup-Among :
    (id : ℕ) (p : DownloadPriority) (es : List QueueEntry)
    → lookup id (priorities es) ≡ some p
    → (y : QueueEntry) × (y.id ≡ id) × Among y es
unfolding lookup
lookup-Among id p [] h = absurd (cc)
lookup-Among id p (e ∷ es) h = elim (Bool-cases (e.id == id)) [
  | inl hit ↦ (e, ground arith, here)
  | inr miss ↦ let (y, q, m) = lookup-Among id p es (ground arith) in (y, q, there e m)
]

pub All-above :
    (x e : QueueEntry) (xs : List QueueEntry)
    → greater x e ≡ true
    → All (λ z. greater e z ≡ true) xs
    → All (λ z. greater x z ≡ true) xs
All-above x e [] h a = tt
All-above x e (z ∷ xs) h a = (greater_chain x e z h a.0, All-above x e xs h a.1)

pub place-All {ℓ} :
    (P : QueueEntry → Type ℓ) (e : QueueEntry) (xs : List QueueEntry)
    → P e
    → All P xs
    → All P (place e xs)
unfolding place
place-All P e [] h a = (h, tt)
place-All P e (x ∷ xs) h a = elim (Bool-cases (greater x e)) [
  | inl up ↦ rw up (a.0, place-All P e xs h a.1)
  | inr down ↦ rw down (h, a)
]

pub sorted-All {ℓ} : (P : QueueEntry → Type ℓ) (es : List QueueEntry) → All P es → All P (sorted es)
unfolding sorted
sorted-All P [] a = tt
sorted-All P (e ∷ es) a = place-All P e (sorted es) a.0 (sorted-All P es a.1)

pub place-Desc :
    (e : QueueEntry) (xs : List QueueEntry)
    → All (λ x. x.sequence ≢ e.sequence) xs
    → Desc xs
    → Desc (place e xs)
unfolding place
place-Desc e [] d s = (tt, tt)
place-Desc e (x ∷ xs) d s = elim (Bool-cases (greater x e)) [
  | inl up ↦ rw up (place-All (λ z. greater x z ≡ true) e xs up s.0, place-Desc e xs d.1 s.1)
  | inr down ↦
      let above = greater_total x e d.0 down in rw down ((above, All-above e x xs above s.0), s)
]

pub absent-apart :
    (k : ℕ) (es : List QueueEntry) → lookup k (tickets es) ≡ none → All (λ e. e.sequence ≢ k) es
unfolding lookup
absent-apart k [] h = tt
absent-apart k (e ∷ es) h = (ground arith, absent-apart k es (ground arith))

pub sorted-Desc : (es : List QueueEntry) → IsMap (tickets es) → Desc (sorted es)
unfolding sorted
sorted-Desc [] u = tt
sorted-Desc (e ∷ es) u =
    place-Desc e (sorted es) (sorted-All _ es (absent-apart e.sequence es u.0)) (sorted-Desc es u.1)

pub count-place :
    (t : QueueEntry → Bool) (e : QueueEntry) (xs : List QueueEntry)
    → count_of t (place e xs) ≡ count_of t (e ∷ xs)
unfolding place
count-place t e [] = refl
count-place t e (x ∷ xs) = ground (arith, count-place t e xs)

pub count-sorted :
    (t : QueueEntry → Bool) (es : List QueueEntry) → count_of t (sorted es) ≡ count_of t es
unfolding sorted
count-sorted t [] = refl
count-sorted t (e ∷ es) = ground (arith, count-place t e (sorted es), count-sorted t es)

-- No two entries share an id.
abbrev pub Distinct : List QueueEntry → Type 0
Distinct [] = Unit
Distinct (x ∷ xs) = All (λ z. z.id ≢ x.id) xs × Distinct xs

pub absent-ids :
    (k : ℕ) (es : List QueueEntry) → lookup k (priorities es) ≡ none → All (λ e. e.id ≢ k) es
unfolding lookup
absent-ids k [] h = tt
absent-ids k (e ∷ es) h = (ground arith, absent-ids k es (ground arith))

pub Distinct-ids : (es : List QueueEntry) → IsMap (priorities es) → Distinct es
Distinct-ids [] u = tt
Distinct-ids (e ∷ es) u = (absent-ids e.id es u.0, Distinct-ids es u.1)

pub place-Distinct :
    (e : QueueEntry) (xs : List QueueEntry)
    → All (λ z. z.id ≢ e.id) xs
    → Distinct xs
    → Distinct (place e xs)
unfolding place
place-Distinct e [] a u = (tt, tt)
place-Distinct e (x ∷ xs) a u = elim (Bool-cases (greater x e)) [
  | inl up ↦
      rw up (
        place-All (λ z. z.id ≢ x.id) e xs (λ same. a.0 (sym same)) u.0,
        place-Distinct e xs a.1 u.1,
      )
  | inr down ↦ rw down (a, u)
]

pub sorted-Distinct : (es : List QueueEntry) → Distinct es → Distinct (sorted es)
unfolding sorted
sorted-Distinct [] u = tt
sorted-Distinct (e ∷ es) u =
    place-Distinct e (sorted es) (sorted-All (λ z. z.id ≢ e.id) es u.0) (sorted-Distinct es u.1)

pub place-here : (e : QueueEntry) (xs : List QueueEntry) → Among e (place e xs)
unfolding place
place-here e [] = here
place-here e (x ∷ xs) = elim (Bool-cases (greater x e)) [
  | inl up ↦ rw up (there x (place-here e xs))
  | inr down ↦ rw down here
]

pub place-Among :
    (e : QueueEntry) {y : QueueEntry} (xs : List QueueEntry) → Among y xs → Among y (place e xs)
unfolding place
place-Among e [] m = there e m
place-Among e {y} (x ∷ xs) here = elim (Bool-cases (greater y e)) [
  | inl up ↦ rw up here
  | inr down ↦ rw down (there e here)
]
place-Among e (x ∷ xs) (there _ m) = elim (Bool-cases (greater x e)) [
  | inl up ↦ rw up (there x (place-Among e xs m))
  | inr down ↦ rw down (there e (there x m))
]

pub sorted-Among : {y : QueueEntry} {es : List QueueEntry} → Among y es → Among y (sorted es)
unfolding sorted
sorted-Among {es = []} m = elim m [ ]
sorted-Among {y} {es = _ ∷ es} here = place-here y (sorted es)
sorted-Among {es = _ ∷ es} (there e m) = place-Among e (sorted es) (sorted-Among m)

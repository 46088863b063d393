-- ===== src/Queue/Position.antt =====
-- `queue_position` of src/priority_queue.rs: the sorted copy of the heap, and the place in it.
use gosh_dl.Base.{
  subst, sym, ◌∙◌, ℕ, suc, ◌+◌, ◌≡◌, refl, ◌≢◌, ◌⊎◌, inl, inr, true, List, [], ◌∷◌, none, some,
  arith, if◌then◌else◌, ◌==◌, lookup, All, IsMap, Option-cases, Bool-cases, position, count_of,
}
use gosh_dl.Queue.Entry.{QueueEntry, DownloadPriority, greater, tickets}
use gosh_dl.Queue.{Semaphore, PriorityQueue, place, sorted, queue_position}
use gosh_dl.Queue.Invariant.{IsValid}
use gosh_dl.Queue.Sorted.{
  Among, Desc, greater_total, greater_asym, greater_self, Among-All, greater_over, lookup-Among,
  All-above, sorted-All, absent-apart, sorted-Desc, count-sorted, Distinct, Distinct-ids,
  sorted-Distinct, sorted-Among, here, there,
}

-- The entry that is placed stands behind those that are greater.
none_greater :
    (e : QueueEntry) (xs : List QueueEntry)
    → All (λ z. greater e z ≡ true) xs
    → count_of (λ x. greater x e) xs ≡ 0
none_greater e [] a = refl
none_greater e (x ∷ xs) a = ground (arith, greater_asym e x a.0, none_greater e xs a.1)

position_placed :
    (e : QueueEntry) (xs : List QueueEntry)
    → All (λ x. x.id ≢ e.id) xs
    → All (λ x. x.sequence ≢ e.sequence) xs
    → Desc xs
    → position (λ x. x.id == e.id) (place e xs) ≡ some (count_of (λ x. greater x e) xs)
unfolding place
position_placed e [] i d s = ground arith
position_placed e (x ∷ xs) i d s = elim (Bool-cases (greater x e)) [
  | inl up ↦ rw up (ground (arith, i.0, position_placed e xs i.1 d.1 s.1))
  | inr down ↦
      let above = greater_total x e d.0 down in
      let rest = none_greater e xs (All-above e x xs above s.0) in rw down (ground (arith, rest))
]

-- An entry already there moves back by one if the entry that is placed is greater.
position_moved :
    (e y : QueueEntry) (xs : List QueueEntry) (i : ℕ)
    → e.id ≢ y.id
    → y.sequence ≢ e.sequence
    → Among y xs
    → Desc xs
    → Distinct xs
    → position (λ x. x.id == y.id) xs ≡ some i
    → position (λ x. x.id == y.id) (place e xs) ≡ some (if greater e y then suc i else i)
unfolding place
position_moved e y [] i n d m s u h = absurd (cc)
position_moved e y (x ∷ xs) i n d here s u h = ground (arith, greater_asym x e, greater_total x e d)
position_moved e y (x ∷ xs) i n d (there _ m) s u h =
    elim (Option-cases (position (λ z. z.id == y.id) xs)) [
      | inl missing ↦ absurd (ground (arith, apart, missing))
      | inr (j, found) ↦ ground (
        arith,
        apart,
        found,
        greater_over e x y,
        Among-All (λ z. greater x z ≡ true) m s.0,
        position_moved e y xs j n d m s.1 u.1 found,
      )
    ]
  where
    apart : y.id ≢ x.id
    apart = Among-All (λ z. z.id ≢ x.id) m u.0

-- In a heap with distinct ids and sequence numbers an entry stands behind those that are greater.
position-sorted :
    (y : QueueEntry) (es : List QueueEntry)
    → Distinct es
    → IsMap (tickets es)
    → Among y es
    → position (λ x. x.id == y.id) (sorted es) ≡ some (count_of (λ x. greater x y) es)
unfolding sorted
position-sorted y [] u t m = elim m [ ]
position-sorted y (e ∷ es) u t here =
    let placed =
      position_placed y (sorted es) (sorted-All _ es u.0)
        (sorted-All _ es (absent-apart y.sequence es t.0)) (sorted-Desc es t.1) in
    ground (arith, placed, greater_self y, count-sorted (λ x. greater x y) es)
position-sorted y (e ∷ es) u t (there _ m) =
    let ahead = count_of (λ x. greater x y) es in
    let moved =
      position_moved e y (sorted es) ahead (λ same. Among-All (λ z. z.id ≢ e.id) m u.0 (sym same))
        (Among-All (λ z. z.sequence ≢ e.sequence) m (absent-apart e.sequence es t.0))
        (sorted-Among m) (sorted-Desc es t.1) (sorted-Distinct es u.1)
        (position-sorted y es u.1 t.1 m) in
    ground (arith, moved)

module _ (sem : Semaphore) where
  open sem use {Sem, available}

  queue_position_waiting :
      (q : PriorityQueue Sem) (id : ℕ) (p : DownloadPriority) (y : QueueEntry)
      → IsValid q
      → lookup id q.waiting_priorities ≡ some p
      → y.id ≡ id
      → Among y q.waiting
      → queue_position sem q id ≡ some (count_of (λ x. greater x y) q.waiting + 1)
  unfolding queue_position
  queue_position_waiting q id p y v e at_id m =
      let at_y = position-sorted y q.waiting (Distinct-ids q.waiting v.ids) v.numbers m in
      let at_it =
        subst
          (λ k.
            position (λ x. x.id == k) (sorted q.waiting)
            ≡ some (count_of (λ x. greater x y) q.waiting))
          at_id at_y in
      rw (e, at_it) refl

  -- In a valid state the position of a waiting download is one more than the number of downloads that
  -- are served before it; a download that does not wait has none.
  pub queue_position_counts :
      (q : PriorityQueue Sem) (id : ℕ)
      → IsValid q
      → ((lookup id q.waiting_priorities ≡ none) × (queue_position sem q id ≡ none))
        ⊎ ((y : QueueEntry) × (y.id ≡ id)
            × Among y q.waiting
            × (queue_position sem q id ≡ some (count_of (λ x. greater x y) q.waiting + 1)))
  unfolding queue_position
  queue_position_counts q id v = elim (Option-cases (lookup id q.waiting_priorities)) [
    | inl e ↦ inl (e, rw e)
    | inr (p, e) ↦
        let (y, at_id, m) = lookup-Among id p q.waiting (sym (v.table id) ∙ e) in
        inr (y, at_id, m, queue_position_waiting q id p y v e at_id m)
  ]

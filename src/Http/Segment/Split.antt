-- ===== src/Http/Segment/Split.antt =====
-- src/http/segment.rs: `init_segments` divides the file into consecutive ranges.
use gosh_dl.Base.{
  ℕ, zero, suc, ◌+◌, ◌-◌, ◌*◌, ◌/◌, ◌≤◌, ◌<◌, min, max, ◌≡◌, refl, ap, sym, ◌∙◌, subst, true, false,
  List, [], ◌∷◌, arith, ◌==◌, ltb, length, inl, inr, Bool-cases, All, length-replicate, ltb→lt,
}
use native.Mathlib.Nat.{
  mul-div-le, div-mul-le_self, le-div_iff_mul-le, mul-le-mul_right, mul-le-mul_left, div-le_self,
  mul_comm,
}
use gosh_dl.Http.Segment.{
  Segment, SegmentedDownload, split, init_segments, calculate_segment_count, size,
}

-- The segments stand one after the other from an offset to the end of the file, numbered from i on,
-- and none is empty.
abbrev pub Tiles : ℕ → ℕ → ℕ → List Segment → Type 0
Tiles i offset total_size [] = offset ≡ total_size
Tiles i offset total_size (s ∷ segments) =
    (s.index ≡ i)
    × (s.start ≡ offset)
    × (s.start ≤ s.end)
    × Tiles (i + 1) (s.end + 1) total_size segments

mul_suc : (i n : ℕ) → (i + 1) * n ≡ i * n + n
mul_suc i n = omega arith

split-Tiles :
    (total_size count segment_size i left : ℕ)
    → 0 < segment_size
    → i + left ≡ count
    → 0 < left
    → count * segment_size ≤ total_size
    → Tiles i (i * segment_size) total_size (split total_size count segment_size i left)
unfolding split
split-Tiles total_size count segment_size i zero p e l h = absurd (omega arith)
split-Tiles total_size count segment_size i (suc zero) p e l h =
    let last : (i == count - 1) ≡ true = ground (arith, e) in
    let fits : (i + 1) * segment_size ≤ total_size =
      subst (λ k. k * segment_size ≤ total_size) (sym e) h in
    rw last (
      refl,
      refl,
      omega (arith, fits, mul_suc i segment_size),
      omega (arith, fits, mul_suc i segment_size),
    )
split-Tiles total_size count segment_size i (suc (suc left)) p e l h =
    let inner : (i == count - 1) ≡ false = ground (arith, e) in
    let next : (i + 1) * segment_size - 1 + 1 ≡ (i + 1) * segment_size =
      omega (arith, mul_suc i segment_size) in
    rw inner (
      refl,
      refl,
      omega (arith, mul_suc i segment_size),
      subst
          (λ offset.
            Tiles (i + 1) offset total_size
              (split total_size count segment_size (i + 1) (suc left)))
          (sym next)
          (split-Tiles total_size count segment_size (i + 1) (suc left) p (omega (arith, e))
            (omega arith) h),
    )

length-split :
    (total_size count segment_size i left : ℕ)
    → length (split total_size count segment_size i left) ≡ left
unfolding split
length-split total_size count segment_size i zero = refl
length-split total_size count segment_size i (suc left) =
    ap suc (length-split total_size count segment_size (i + 1) left)

split_sizes :
    (least total_size count segment_size i left : ℕ)
    → 0 < segment_size
    → least ≤ segment_size
    → i + left ≡ count
    → count * segment_size ≤ total_size
    → All (λ s. least ≤ size s) (split total_size count segment_size i left)
unfolding split
split_sizes least total_size count segment_size i zero p q e h = tt
split_sizes least total_size count segment_size i (suc left) p q e h =
    let more =
      split_sizes least total_size count segment_size (i + 1) left p q (omega (arith, e)) h in
    elim (Bool-cases (i == count - 1)) [
      | inl last ↦
          let count_is : i + 1 ≡ count = ground (arith, last, e) in
          let fits : (i + 1) * segment_size ≤ total_size =
            subst (λ k. k * segment_size ≤ total_size) (sym count_is) h in
          rw last (omega (arith, fits, mul_suc i segment_size), more)
      | inr inner ↦ rw inner (omega (arith, mul_suc i segment_size), more)
    ]

-- There is a segment at least, no more than bytes of the file or the connections allow.
count_bounds :
    (total_size max_connections min_size : ℕ)
    → 0 < total_size
    → 0 < min_size
    → let count = calculate_segment_count total_size max_connections min_size in
      (0 < count)
      × (count ≤ total_size)
      × (count ≤ max max_connections 1)
      × ((1 < count) → count * min_size ≤ total_size)
unfolding calculate_segment_count
count_bounds total_size max_connections min_size t m =
    let some_bytes : (total_size == 0) ≡ false = ground arith in
    let by_size : total_size / min_size * min_size ≤ total_size =
      div-mul-le_self total_size min_size in
    let q = total_size / min_size in
    let few : q ≤ total_size = div-le_self total_size min_size in
    rw some_bytes (
      omega arith,
      omega (arith, few),
      omega arith,
      λ several.
          let within : max (min max_connections (max q 1)) 1 ≤ q = omega (arith, several) in
          omega (arith, by_size, mul-le-mul_right min_size within),
    )

each_large :
    (least total_size count : ℕ)
    → 0 < count
    → least ≤ total_size
    → ((1 < count) → count * least ≤ total_size)
    → least ≤ total_size / count
each_large least total_size count p large several =
    let enough : least * count ≤ total_size = elim (Bool-cases (ltb 1 count)) [
      | inl more ↦ omega (arith, several (ltb→lt 1 count more), mul_comm count least)
      | inr one ↦ let one_is : count ≡ 1 = ground (arith, one) in rw one_is (omega (arith, large))
    ] in
    (le-div_iff_mul-le p).1 enough

-- A file that is not empty is divided into consecutive segments, none of them empty, numbered from
-- 0, which together are the whole file; there are as many marks of progress, all 0, and no more
-- segments than connections; and each has the least size that was asked for, if the file has it.
pub init_segments-Tiles :
    (max_connections min_size : ℕ) (d : SegmentedDownload)
    → 0 < d.total_size
    → 0 < min_size
    → let d' = init_segments max_connections min_size d in
      Tiles 0 0 d.total_size d'.segments
      × (length d'.segment_progress ≡ length d'.segments)
      × (length d'.segments ≤ max max_connections 1)
      × All (λ s. min min_size d.total_size ≤ size s) d'.segments
unfolding init_segments
init_segments-Tiles max_connections min_size d t m =
    let count = calculate_segment_count d.total_size max_connections min_size in
    let (some_segment, by_bytes, by_connections, several) =
      count_bounds d.total_size max_connections min_size t m in
    let segment_size = d.total_size / count in
    let not_empty : 0 < segment_size =
      (le-div_iff_mul-le some_segment).1 (omega (arith, by_bytes)) in
    let within : count * segment_size ≤ d.total_size = mul-div-le d.total_size count in
    let small : min min_size d.total_size ≤ min_size = omega arith in
    let counted = length-split d.total_size count segment_size 0 count in
    (
      subst (λ offset. Tiles 0 offset d.total_size (split d.total_size count segment_size 0 count))
          {x = 0 * segment_size} {y = 0} (omega arith)
          (split-Tiles d.total_size count segment_size 0 count not_empty (omega arith) some_segment
            within),
      length-replicate count 0 ∙ sym counted,
      omega (arith, counted, by_connections),
      split_sizes (min min_size d.total_size) d.total_size count segment_size 0 count not_empty
          (each_large (min min_size d.total_size) d.total_size count some_segment (omega arith)
            (λ more. omega (arith, several more, mul-le-mul_left count small)))
          (omega arith) within,
    )

-- ===== src/Http/Segment/Available.antt =====
-- src/http/segment.rs: `contiguous_available` is the end of the bytes that are there from the start
-- of the file on.
use gosh_dl.Base.{
  ℕ, ◌+◌, ◌≤◌, ◌<◌, ◌≡◌, refl, ap, sym, ◌∙◌, subst, ◌⊎◌, inl, inr, false, List, [], ◌∷◌, arith, ltb,
  Bool-cases, sort_by, insert_by, if_true, if_false, ltb→lt,
}
use gosh_dl.Http.Segment.{
  Segment, SegmentedDownload, size, progress_of, first_gap, contiguous_available, starts_before,
}
use gosh_dl.Http.Segment.Split.{Tiles}

-- Byte b is one of those downloaded of some segment.
abbrev pub Held : List ℕ → List Segment → ℕ → Type 0
Held progress [] b = ⊥
Held progress (s ∷ segments) b =
    ((s.start ≤ b) × (b ≤ s.end) × (b < s.start + progress_of progress s))
    ⊎ Held progress segments b

insert_first :
    (s : Segment) (segments : List Segment) (i offset total_size : ℕ)
    → s.start < offset
    → Tiles i offset total_size segments
    → insert_by starts_before s segments ≡ s ∷ segments
unfolding insert_by
insert_first s [] i offset total_size l h = refl
insert_first s (next ∷ segments) i offset total_size l (_, e, _, _) =
    let behind : ltb next.start s.start ≡ false = ground (arith, e) in
    if_false (ltb next.start s.start) (next ∷ insert_by starts_before s segments)
      (s ∷ next ∷ segments) behind

sort-Tiles :
    (segments : List Segment) (i offset total_size : ℕ)
    → Tiles i offset total_size segments
    → sort_by starts_before segments ≡ segments
unfolding sort_by
sort-Tiles [] i offset total_size h = refl
sort-Tiles (s ∷ segments) i offset total_size (_, e, l, more) =
    ap (insert_by starts_before s) (sort-Tiles segments (i + 1) (s.end + 1) total_size more)
    ∙ insert_first s segments (i + 1) (s.end + 1) total_size (omega arith) more

Tiles-reach :
    (segments : List Segment) (i offset total_size : ℕ)
    → Tiles i offset total_size segments
    → offset ≤ total_size
Tiles-reach [] i offset total_size h = omega (arith, h)
Tiles-reach (s ∷ segments) i offset total_size (_, e, l, more) =
    omega (arith, Tiles-reach segments (i + 1) (s.end + 1) total_size more)

not_before :
    (progress : List ℕ) (segments : List Segment) (i offset total_size b : ℕ)
    → Tiles i offset total_size segments
    → b < offset
    → Held progress segments b
    → ⊥
not_before progress [] i offset total_size b h l k = k
not_before progress (s ∷ segments) i offset total_size b (_, e, m, more) l (inl (a, _, _)) =
    absurd (omega arith)
not_before progress (s ∷ segments) i offset total_size b (_, e, m, more) l (inr later) =
    not_before progress segments (i + 1) (s.end + 1) total_size b more (omega arith) later

-- The first byte from an offset on that is not held, or the end of the file.
pub record IsGap (offset total_size : ℕ) (progress : List ℕ) (segments : List Segment) (gap : ℕ)
    : Type 0 where
  pub lower : offset ≤ gap
  pub upper : gap ≤ total_size
  pub held : (b : ℕ) → offset ≤ b → b < gap → Held progress segments b
  pub missing : gap < total_size → Held progress segments gap → ⊥

first_gap-IsGap :
    (segments : List Segment) (progress : List ℕ) (i offset total_size : ℕ)
    → Tiles i offset total_size segments
    → IsGap offset total_size progress segments (first_gap total_size progress segments)
unfolding first_gap
first_gap-IsGap [] progress i offset total_size h = record {
  lower = omega (arith, h);
  upper = omega arith;
  held = λ b l k. absurd (omega (arith, h));
  missing = λ l k. k;
}
first_gap-IsGap (s ∷ segments) progress i offset total_size (_, e, l, more) =
    let p = progress_of progress s in
    let reach = Tiles-reach segments (i + 1) (s.end + 1) total_size more in
    let behind = first_gap-IsGap segments progress (i + 1) (s.end + 1) total_size more in
    let gap = first_gap total_size progress segments in
    elim (Bool-cases (ltb p (size s))) [
      | inl part ↦
          let short = ltb→lt p (size s) part in
          subst (IsGap offset total_size progress (s ∷ segments))
            (sym (if_true (ltb p (size s)) (s.start + p) gap part))
            (record {
              lower = omega (arith, e);
              upper = omega (arith, short, reach, l);
              held = λ b m k. inl (omega (arith, e), omega (arith, short, l), k);
              missing = λ m k. elim k [
                | inl (_, _, c) ↦ absurd (omega arith)
                | inr later ↦
                    not_before progress segments (i + 1) (s.end + 1) total_size (s.start + p) more
                      (omega (arith, short, l)) later
              ];
            })
      | inr whole ↦
          let full : size s ≤ p = ground (arith, whole) in
          subst (IsGap offset total_size progress (s ∷ segments))
            (sym (if_false (ltb p (size s)) (s.start + p) gap whole))
            (record {
              lower = omega (arith, e, l, behind.lower);
              upper = behind.upper;
              held = λ b m k. elim (Bool-cases (ltb s.end b)) [
                | inl past ↦ inr (behind.held b (ground (arith, past)) k)
                | inr inside ↦
                    inl (omega (arith, e), ground (arith, inside), ground (arith, inside, full, l))
              ];
              missing = λ m k. elim k [
                | inl (_, c, _) ↦ absurd (omega (arith, behind.lower))
                | inr later ↦ behind.missing m later
              ];
            })
    ]

-- For consecutive segments of the whole file, whatever their progress: every byte before what
-- `contiguous_available` gives is there, and the byte at it is not, unless it is the end of the file.
pub contiguous_available-IsGap :
    (d : SegmentedDownload)
    → Tiles 0 0 d.total_size d.segments
    → IsGap 0 d.total_size d.segment_progress d.segments (contiguous_available d)
unfolding contiguous_available
contiguous_available-IsGap d h =
    subst
      (λ segments.
        IsGap 0 d.total_size d.segment_progress d.segments
          (first_gap d.total_size d.segment_progress segments))
      (sym (sort-Tiles d.segments 0 0 d.total_size h))
      (first_gap-IsGap d.segments d.segment_progress 0 0 d.total_size h)

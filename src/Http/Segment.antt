-- ===== src/Http/Segment.antt =====
-- src/storage/mod.rs: `Segment`. src/http/segment.rs: the segments of `SegmentedDownload`, their
-- number, and how far the file can be read. Locks and atomics are plain fields.
pub mod Split
pub mod Available
use gosh_dl.Base.{
  ℕ, zero, suc, ◌+◌, ◌-◌, ◌*◌, ◌/◌, min, max, Bool, true, false, List, [], ◌∷◌, Option, none, some,
  if◌then◌else◌, ◌==◌, ltb, leb, length, get_elem?, replicate, map, sort_by,
}

pub data SegmentState : Type 0 where
  pending downloading completed : SegmentState
  failed : List ℕ → ℕ → SegmentState

pub record Segment : Type 0 where
  pub index : ℕ
  pub start : ℕ
  pub end : ℕ
  pub downloaded : ℕ
  pub segment_state : SegmentState

abbrev pub new_segment : ℕ → ℕ → ℕ → Segment
new_segment index start end = record {
  index = index;
  start = start;
  end = end;
  downloaded = 0;
  segment_state = pending;
}

abbrev pub size : Segment → ℕ
size s = s.end - s.start + 1

abbrev pub remaining : Segment → ℕ
remaining s = size s - s.downloaded

pub record SegmentedDownload : Type 0 where
  pub total_size : ℕ
  pub segments : List Segment
  pub segment_progress : List ℕ
  pub downloaded : ℕ

unfoldable pub calculate_segment_count : ℕ → ℕ → ℕ → ℕ
calculate_segment_count total_size max_connections min_segment_size =
    if total_size == 0
    then 1
    else max (min max_connections (max (total_size / min_segment_size) 1)) 1

-- The loop over the indices from i on, of which `left` are left of `count`.
unfoldable pub split : ℕ → ℕ → ℕ → ℕ → ℕ → List Segment
split total_size count segment_size i zero = []
split total_size count segment_size i (suc left) =
    new_segment i (i * segment_size)
      (if i == count - 1 then total_size - 1 else (i + 1) * segment_size - 1)
    ∷ split total_size count segment_size (i + 1) left

unfoldable pub init_segments : ℕ → ℕ → SegmentedDownload → SegmentedDownload
unfolding calculate_segment_count split
init_segments max_connections min_segment_size d =
    let count = calculate_segment_count d.total_size max_connections min_segment_size in
    record d {
      segments = split d.total_size count (d.total_size / count) 0 count;
      segment_progress = replicate count 0;
    }

abbrev pub sum : List ℕ → ℕ
sum [] = 0
sum (x ∷ xs) = x + sum xs

unfoldable pub restore_segments : List Segment → SegmentedDownload → SegmentedDownload
restore_segments saved d =
    let progress = map (λ s. s.downloaded) saved in
    record d { segments = saved; segment_progress = progress; downloaded = sum progress }

-- One segment with its progress, if there is any for it.
abbrev pub with_progress : Segment → Option ℕ → Segment
with_progress s none = s
with_progress s (some n) = record s {
  downloaded = n;
  segment_state =
      if leb (size s) n then completed else if ltb 0 n then downloading else s.segment_state;
}

abbrev pub progress_from : ℕ → List Segment → List ℕ → List Segment
progress_from i [] progress = []
progress_from i (s ∷ segments) progress =
    with_progress s (get_elem? progress i) ∷ progress_from (i + 1) segments progress

unfoldable pub segments_with_progress : SegmentedDownload → List Segment
segments_with_progress d = progress_from 0 d.segments d.segment_progress

abbrev pub progress_of : List ℕ → Segment → ℕ
progress_of progress s = elim (get_elem? progress s.index) [ none ↦ s.downloaded | some n ↦ n ]

-- The loop over the segments in the order of their starts.
unfoldable pub first_gap : ℕ → List ℕ → List Segment → ℕ
first_gap total_size progress [] = total_size
first_gap total_size progress (s ∷ segments) =
    if ltb (progress_of progress s) (size s)
    then s.start + progress_of progress s
    else first_gap total_size progress segments

abbrev pub starts_before : Segment → Segment → Bool
starts_before a b = ltb a.start b.start

unfoldable pub contiguous_available : SegmentedDownload → ℕ
unfolding first_gap
contiguous_available d =
    first_gap d.total_size d.segment_progress (sort_by starts_before d.segments)

abbrev pub is_complete : SegmentedDownload → Bool
is_complete d = leb d.total_size d.downloaded

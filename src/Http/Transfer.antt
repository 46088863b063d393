-- ===== src/Http/Transfer.antt =====
-- src/http/segment.rs: the tasks of `start_with_scope`. Each task fetches one segment; what it does
-- with a chunk of the response is `receive_chunk`, and the chunks of several tasks arrive in any
-- order. The file is the function from an offset to the byte there. A failed write, the pauses and
-- the rate limit are not modelled.
pub mod Assemble
pub mod Overrun
use gosh_dl.Base.{
  ℕ, zero, suc, ◌+◌, ◌-◌, ◌≤◌, ◌<◌, Bool, true, false, ◌&&◌, List, [], ◌∷◌, Option, none, some,
  if◌then◌else◌, ltb, leb, length, get_elem?, get_or, set,
}
use gosh_dl.Http.Segment.{Segment, size, SegmentedDownload}

-- The file, the marks of progress and the count of bytes that the tasks share.
pub record Shared : Type 0 where
  pub file : ℕ → ℕ
  pub segment_progress : List ℕ
  pub downloaded : ℕ

-- What a task knows of its segment: the place of its mark, its range, and its bytes so far.
pub record Task : Type 0 where
  pub segment_idx : ℕ
  pub start : ℕ
  pub end : ℕ
  pub segment_bytes : ℕ

pub data Outcome : Type 0 where
  more segment_exceeded download_exceeded : Outcome

abbrev pub write_at : ℕ → List ℕ → (ℕ → ℕ) → ℕ → ℕ
write_at position chunk file b =
    if leb position b && ltb b (position + length chunk)
    then get_or chunk (b - position) 0
    else file b

-- Where the task asks the server to start.
abbrev pub resume_start : Task → ℕ
resume_start t = t.start + t.segment_bytes

abbrev pub expected_segment_size : Task → ℕ
expected_segment_size t = t.end - t.start + 1

-- The chunk is written before its size is looked at.
unfoldable pub receive_chunk : ℕ → List ℕ → Task → Shared → Outcome × (Task × Shared)
receive_chunk total_size chunk t shared =
    let written = record shared { file = write_at (resume_start t) chunk shared.file } in
    let t' = record t { segment_bytes = t.segment_bytes + length chunk } in
    let counted = record written {
      segment_progress = set shared.segment_progress t.segment_idx t'.segment_bytes;
      downloaded = shared.downloaded + length chunk;
    } in
    if ltb (expected_segment_size t) t'.segment_bytes
    then (segment_exceeded, (t', written))
    else if ltb total_size counted.downloaded
    then (download_exceeded, (t', counted))
    else (more, (t', counted))

-- A task for a segment that is not complete, from its progress.
abbrev pub task_of : ℕ → Segment → Task
task_of idx s = record {
  segment_idx = idx;
  start = s.start;
  end = s.end;
  segment_bytes = s.downloaded;
}

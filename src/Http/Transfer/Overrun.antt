-- ===== src/Http/Transfer/Overrun.antt =====
-- src/http/segment.rs: a response that is longer than the range that was asked for.
use gosh_dl.Base.{
  ℕ, ◌+◌, ◌-◌, ◌≤◌, ◌<◌, ◌≡◌, refl, true, ◌&&◌, List, arith, ltb, leb, length, get_or, if_true,
}
use gosh_dl.Http.Transfer.{
  Shared, Task, segment_exceeded, resume_start, expected_segment_size, receive_chunk,
}

-- A chunk that reaches past the end of its segment fails the download, but it was written: the bytes
-- behind the segment, which belong to the next one, are those of the chunk, while the progress of
-- every segment stays as it was.
pub overrun_written :
    (total_size b : ℕ) (chunk : List ℕ) (t : Task) (shared : Shared)
    → t.start ≤ t.end
    → t.segment_bytes ≤ expected_segment_size t
    → t.end < b
    → b < resume_start t + length chunk
    → let (outcome, (_, after)) = receive_chunk total_size chunk t shared in
      (outcome ≡ segment_exceeded)
      × (after.file b ≡ get_or chunk (b - resume_start t) 0)
      × (after.segment_progress ≡ shared.segment_progress)
unfolding receive_chunk
overrun_written total_size b chunk t shared o r l h =
    let over : ltb (expected_segment_size t) (t.segment_bytes + length chunk) ≡ true =
      ground arith in
    let reached : (leb (resume_start t) b && ltb b (resume_start t + length chunk)) ≡ true =
      ground arith in
    rw over (
      refl,
      if_true (leb (resume_start t) b && ltb b (resume_start t + length chunk)) _ _ reached,
      refl,
    )

-- ===== src/Http/Tests.antt =====
-- Runs of src/http/segment.rs and src/http/resume.rs on small inputs.
use gosh_dl.Base.{
  ℕ, zero, suc, ◌+◌, ◌≤◌, ◌<◌, ◌≡◌, refl, false, List, [], ◌∷◌, none, some, arith, length, All,
  get_or, sort_by, insert_by, min, max, if◌then◌else◌, ◌==◌, subst, sym,
}
use gosh_dl.Bencode.Number.{to_string, digits}
use gosh_dl.Http.Segment.{
  SegmentedDownload, size, new_segment, calculate_segment_count, split, init_segments,
  restore_segments, segments_with_progress, contiguous_available, first_gap,
}
use gosh_dl.Http.Segment.Split.{Tiles, init_segments-Tiles}
use gosh_dl.Http.Transfer.{Task, Shared, segment_exceeded, receive_chunk}
use gosh_dl.Http.Transfer.Assemble.{receive_all, receive_all_assembles, ServesAll, Holds}
use gosh_dl.Http.Transfer.Overrun.{overrun_written}
use gosh_dl.Http.Resume.{validators_match, calculate_range_header, validate_ranged_response}
use gosh_dl.Http.Resume.Headers.{content_range_header, served_range_lem}

abbrev fresh : SegmentedDownload
fresh = record { total_size = 10; segments = []; segment_progress = []; downloaded = 0 }

-- Three segments of 3, 3 and 4 bytes.
abbrev divided : SegmentedDownload
divided = record fresh {
  segments = new_segment 0 0 2 ∷ new_segment 1 3 5 ∷ new_segment 2 6 9 ∷ [];
  segment_progress = 0 ∷ 0 ∷ 0 ∷ [];
}

init_divides : init_segments 4 3 fresh ≡ divided
unfolding init_segments calculate_segment_count split
init_divides = refl

saved_progress :
    (restore_segments
      (segments_with_progress (record divided { segment_progress = 3 ∷ 1 ∷ 0 ∷ [] }))
      fresh).downloaded
    ≡ 4
unfolding restore_segments segments_with_progress
saved_progress = refl

range_header :
    calculate_range_header 3 (some 12) ≡ 98 ∷ 121 ∷ 116 ∷ 101 ∷ 115 ∷ 61 ∷ 51 ∷ 45 ∷ 49 ∷ 50 ∷ []
unfolding calculate_range_header to_string digits
range_header = refl

etag_gone :
    validators_match
      (record { etag = some (1 ∷ []); last_modified = none })
      (record { etag = none; last_modified = none })
    ≡ false
etag_gone = refl

init_segments-Tiles_example :
    Tiles 0 0 10 (init_segments 4 3 fresh).segments
    × (length (init_segments 4 3 fresh).segment_progress
        ≡ length (init_segments 4 3 fresh).segments)
    × (length (init_segments 4 3 fresh).segments ≤ max 4 1)
    × All (λ s. min 3 10 ≤ size s) (init_segments 4 3 fresh).segments
init_segments-Tiles_example = init_segments-Tiles 4 3 fresh (omega arith) (omega arith)

abbrev partial : SegmentedDownload
partial = record divided { segment_progress = 3 ∷ 1 ∷ 4 ∷ [] }

partial_available : contiguous_available partial ≡ 4
unfolding contiguous_available first_gap sort_by insert_by
partial_available = refl

divided-Tiles : Tiles 0 0 10 divided.segments
divided-Tiles =
    (refl, refl, omega arith, (refl, refl, omega arith, (refl, refl, omega arith, refl)))

abbrev content : ℕ → ℕ
content b = b + 100

abbrev front : Task
front = record { segment_idx = 0; start = 0; end = 1; segment_bytes = 0 }

abbrev back : Task
back = record { segment_idx = 1; start = 2; end = 3; segment_bytes = 1 }

-- The third byte is there.
abbrev shared : Shared
shared = record {
  file = λ b. if b == 2 then 102 else 0;
  segment_progress = 0 ∷ 1 ∷ [];
  downloaded = 1;
}

abbrev chunks : List (ℕ × List ℕ)
chunks = (1, 103 ∷ []) ∷ (0, 100 ∷ 101 ∷ []) ∷ []

back_bytes : (j : ℕ) → j < 1 → get_or (103 ∷ []) j 0 ≡ 2 + 1 + j + 100
back_bytes zero h = refl
back_bytes (suc j) h = absurd (omega arith)

front_bytes : (j : ℕ) → j < 2 → get_or (100 ∷ 101 ∷ []) j 0 ≡ 0 + 0 + j + 100
front_bytes zero h = refl
front_bytes (suc zero) h = refl
front_bytes (suc (suc j)) h = absurd (omega arith)

chunks-ServesAll : ServesAll content 4 chunks (front ∷ back ∷ []) shared
unfolding ServesAll receive_chunk
chunks-ServesAll = (
  record { bytes = back_bytes; fits = omega arith },
  (record { bytes = front_bytes; fits = omega arith }, tt),
)

only_third : (b : ℕ) → 2 ≤ b → b < 3 → shared.file b ≡ content b
only_third b l h =
    let two : b ≡ 2 = omega arith in subst (λ k. shared.file k ≡ content k) (sym two) refl

starts_right : Holds content 4 shared.file 0 (front ∷ back ∷ [])
starts_right = (
  refl,
  omega arith,
  omega arith,
  λ b l h. absurd (omega arith),
  (refl, omega arith, omega arith, only_third, refl),
)

all_there : (receive_all content 4 chunks (front ∷ back ∷ []) shared).1.downloaded ≡ 4
unfolding receive_all receive_chunk
all_there = refl

receive_all_assembles_example :
    (receive_all content 4 chunks (front ∷ back ∷ []) shared).1.file 1 ≡ 101
receive_all_assembles_example =
    receive_all_assembles content 4 chunks (front ∷ back ∷ []) shared starts_right refl
      chunks-ServesAll all_there 1 (omega arith)

overrun_written_example :
    ((receive_chunk 4 (1 ∷ 2 ∷ 3 ∷ []) front shared).0 ≡ segment_exceeded)
    × ((receive_chunk 4 (1 ∷ 2 ∷ 3 ∷ []) front shared).1.1.file 2 ≡ 3)
    × ((receive_chunk 4 (1 ∷ 2 ∷ 3 ∷ []) front shared).1.1.segment_progress ≡ 0 ∷ 1 ∷ [])
overrun_written_example =
    overrun_written 4 2 (1 ∷ 2 ∷ 3 ∷ []) front shared (omega arith) (omega arith) (omega arith)
      (omega arith)

-- A wrong range is refused.
served_range_lem_example :
    validate_ranged_response 3 (some 12) 206 (some (content_range_header 3 11 40)) ≡ false
served_range_lem_example =
    served_range_lem 3 12 206 3 11 40 (omega arith) (omega arith) (omega arith)

-- ===== src/Http/Transfer/Assemble.antt =====
-- src/http/segment.rs: the chunks of all tasks together give the file of the server.
use gosh_dl.Base.{
  ℕ, zero, suc, ◌+◌, ◌-◌, ◌≤◌, ◌<◌, ◌≡◌, refl, ap, sym, ◌∙◌, subst, false, ◌&&◌, List, [], ◌∷◌,
  arith, ltb, leb, length, get_or, inl, inr, Bool-cases, if_true, if_false, set,
}
use gosh_dl.Http.Transfer.{
  Shared, Task, write_at, resume_start, expected_segment_size, receive_chunk,
}

-- The tasks, one for each segment.
module _ (content : ℕ → ℕ) (total_size : ℕ) where
  -- The ranges of the tasks stand one after the other from an offset to the end of the file, and the
  -- bytes that each has so far are those of the content.
  abbrev pub Holds : (ℕ → ℕ) → ℕ → List Task → Type 0
  Holds file offset [] = offset ≡ total_size
  Holds file offset (t ∷ tasks) =
      (t.start ≡ offset)
      × (t.start ≤ t.end)
      × (t.segment_bytes ≤ expected_segment_size t)
      × ((b : ℕ) → t.start ≤ b → b < resume_start t → file b ≡ content b)
      × Holds file (t.end + 1) tasks

  abbrev pub bytes_of : List Task → ℕ
  bytes_of [] = 0
  bytes_of (t ∷ tasks) = t.segment_bytes + bytes_of tasks

  -- A chunk is the content from where the task asked on, and no longer than its range.
  pub record Serves (t : Task) (chunk : List ℕ) : Type 0 where
    pub bytes : (j : ℕ) → j < length chunk → get_or chunk j 0 ≡ content (resume_start t + j)
    pub fits : t.segment_bytes + length chunk ≤ expected_segment_size t

  -- The k-th task receives a chunk.
  abbrev pub receive_at : ℕ → List ℕ → List Task → Shared → List Task × Shared
  receive_at k chunk [] shared = ([], shared)
  receive_at zero chunk (t ∷ tasks) shared =
      let (_, (t', after)) = receive_chunk total_size chunk t shared in (t' ∷ tasks, after)
  receive_at (suc k) chunk (t ∷ tasks) shared =
      let (tasks', after) = receive_at k chunk tasks shared in (t ∷ tasks', after)

  -- The k-th task is served the chunk.
  abbrev pub ServesAt : ℕ → List ℕ → List Task → Type 0
  ServesAt k chunk [] = ⊥
  ServesAt zero chunk (t ∷ tasks) = Serves t chunk
  ServesAt (suc k) chunk (t ∷ tasks) = ServesAt k chunk tasks

  -- Several chunks, each for the task that is given with it.
  unfoldable pub receive_all : List (ℕ × List ℕ) → List Task → Shared → List Task × Shared
  receive_all [] tasks shared = (tasks, shared)
  receive_all ((k, chunk) ∷ chunks) tasks shared =
      let (tasks', after) = receive_at k chunk tasks shared in receive_all chunks tasks' after

  unfoldable pub ServesAll : List (ℕ × List ℕ) → List Task → Shared → Type 0
  ServesAll [] tasks shared = Unit
  ServesAll ((k, chunk) ∷ chunks) tasks shared =
      ServesAt k chunk tasks
      × (let (tasks', after) = receive_at k chunk tasks shared in ServesAll chunks tasks' after)

  -- What is written before an offset leaves what the tasks behind it have.
  Holds-behind :
      (file : ℕ → ℕ) (offset position : ℕ) (chunk : List ℕ) (tasks : List Task)
      → position + length chunk ≤ offset
      → Holds file offset tasks
      → Holds (write_at position chunk file) offset tasks
  Holds-behind file offset position chunk [] l h = h
  Holds-behind file offset position chunk (t ∷ tasks) l (e, o, r, same, rest) = (
    e,
    o,
    r,
    λ b a c.
        if_false (leb position b && ltb b (position + length chunk)) _ _ (ground (arith, e))
        ∙ same b a c,
    Holds-behind file (t.end + 1) position chunk tasks (omega (arith, e)) rest,
  )

  receive_served :
      (t : Task) (chunk : List ℕ) (shared : Shared)
      → Serves t chunk
      → (receive_chunk total_size chunk t shared).1 ≡ (
        record t { segment_bytes = t.segment_bytes + length chunk },
        record shared {
          file = write_at (resume_start t) chunk shared.file;
          segment_progress =
              set shared.segment_progress t.segment_idx (t.segment_bytes + length chunk);
          downloaded = shared.downloaded + length chunk;
        },
      )
  unfolding receive_chunk
  receive_served t chunk shared s =
      let inside : ltb (expected_segment_size t) (t.segment_bytes + length chunk) ≡ false =
        ground (arith, s.fits) in
      elim (Bool-cases (ltb total_size (shared.downloaded + length chunk))) [
        | inl over ↦ rw (inside, over) refl
        | inr within ↦ rw (inside, within) refl
      ]

  -- What a step keeps: the bytes before the ranges of the tasks, what the tasks have, and the count.
  record Kept (offset : ℕ) (tasks : List Task) (shared : Shared) (result : List Task × Shared)
      : Type 0 where
    before : (b : ℕ) → b < offset → result.1.file b ≡ shared.file b
    holds : Holds result.1.file offset result.0
    counted : result.1.downloaded + bytes_of tasks ≡ shared.downloaded + bytes_of result.0

  -- The bytes of a task after a chunk that it was served.
  served_bytes :
      (t : Task) (chunk : List ℕ) (file : ℕ → ℕ) (b : ℕ)
      → Serves t chunk
      → ((c : ℕ) → t.start ≤ c → c < resume_start t → file c ≡ content c)
      → t.start ≤ b
      → b < t.start + (t.segment_bytes + length chunk)
      → write_at (resume_start t) chunk file b ≡ content b
  served_bytes t chunk file b s same a c =
      elim (Bool-cases (leb (resume_start t) b && ltb b (resume_start t + length chunk))) [
        | inl new ↦
            let j = b - resume_start t in
            let place : resume_start t + j ≡ b = ground (arith, new) in
            if_true (leb (resume_start t) b && ltb b (resume_start t + length chunk)) _ _ new
            ∙ s.bytes j (ground (arith, new))
            ∙ ap content place
        | inr old ↦
            if_false (leb (resume_start t) b && ltb b (resume_start t + length chunk)) _ _ old
            ∙ same b a (ground (arith, old))
      ]

  receive_at-Kept :
      (k : ℕ) (chunk : List ℕ) (offset : ℕ) (tasks : List Task) (shared : Shared)
      → Holds shared.file offset tasks
      → ServesAt k chunk tasks
      → Kept offset tasks shared (receive_at k chunk tasks shared)
  receive_at-Kept k chunk offset [] shared h s = elim s [ ]
  receive_at-Kept zero chunk offset (t ∷ tasks) shared (e, o, r, same, rest) s =
      subst (λ (t', after). Kept offset (t ∷ tasks) shared (t' ∷ tasks, after))
        (sym (receive_served t chunk shared s))
        (record {
          before = λ b l.
              if_false (leb (resume_start t) b && ltb b (resume_start t + length chunk)) _ _
                (ground (arith, e));
          holds = (
            e,
            o,
            s.fits,
            λ b a c. served_bytes t chunk shared.file b s same a c,
            Holds-behind shared.file (t.end + 1) (resume_start t) chunk tasks
                (omega (arith, s.fits, o)) rest,
          );
          counted = omega arith;
        })
  receive_at-Kept (suc k) chunk offset (t ∷ tasks) shared (e, o, r, same, rest) s =
      let kept = receive_at-Kept k chunk (t.end + 1) tasks shared rest s in
      record {
        before = λ b l. kept.before b (omega (arith, e, o));
        holds = (e, o, r, λ b a c. kept.before b (omega (arith, r, o)) ∙ same b a c, kept.holds);
        counted = omega (arith, kept.counted);
      }

  bytes_bound :
      (file : ℕ → ℕ) (offset : ℕ) (tasks : List Task)
      → Holds file offset tasks
      → bytes_of tasks + offset ≤ total_size
  bytes_bound file offset [] h = omega (arith, h)
  bytes_bound file offset (t ∷ tasks) (e, o, r, same, rest) =
      omega (arith, e, o, r, bytes_bound file (t.end + 1) tasks rest)

  all_bytes :
      (file : ℕ → ℕ) (offset : ℕ) (tasks : List Task)
      → Holds file offset tasks
      → bytes_of tasks + offset ≡ total_size
      → (b : ℕ) → offset ≤ b
      → b < total_size
      → file b ≡ content b
  all_bytes file offset [] h c b l u = absurd (omega (arith, h))
  all_bytes file offset (t ∷ tasks) (e, o, r, same, rest) c b l u =
      let bound = bytes_bound file (t.end + 1) tasks rest in
      let full : t.segment_bytes ≡ expected_segment_size t = omega (arith, e, o, r, bound, c) in
      elim (Bool-cases (ltb t.end b)) [
        | inl later ↦
            all_bytes file (t.end + 1) tasks rest (omega (arith, e, o, full, c)) b
              (ground (arith, later)) u
        | inr here_byte ↦ same b (omega (arith, e)) (ground (arith, here_byte, full, o))
      ]

  receive_all-Kept :
      (chunks : List (ℕ × List ℕ)) (tasks : List Task) (shared : Shared)
      → Holds shared.file 0 tasks
      → ServesAll chunks tasks shared
      → Kept 0 tasks shared (receive_all chunks tasks shared)
  unfolding receive_all ServesAll
  receive_all-Kept [] tasks shared h s = record { before = λ b l. refl; holds = h; counted = refl }
  receive_all-Kept ((k, chunk) ∷ chunks) tasks shared h (s, more_served) =
      let kept = receive_at-Kept k chunk 0 tasks shared h s in
      let (tasks', after) = receive_at k chunk tasks shared in
      let later = receive_all-Kept chunks tasks' after kept.holds more_served in
      record {
        before = λ b l. absurd (omega arith);
        holds = later.holds;
        counted = omega (arith, kept.counted, later.counted);
      }

  -- Tasks for consecutive segments of the whole file, which have the right bytes so far, are served
  -- chunks in any order, each the content from where its task asked on and within its range: the
  -- bytes counted never exceed the file.
  pub receive_all_bounded :
      (chunks : List (ℕ × List ℕ)) (tasks : List Task) (shared : Shared)
      → Holds shared.file 0 tasks
      → shared.downloaded ≡ bytes_of tasks
      → ServesAll chunks tasks shared
      → let (_, after) = receive_all chunks tasks shared in after.downloaded ≤ total_size
  receive_all_bounded chunks tasks shared h e s =
      let (tasks', after) = receive_all chunks tasks shared in
      let kept = receive_all-Kept chunks tasks shared h s in
      omega (arith, kept.counted, e, bytes_bound after.file 0 tasks' kept.holds)

  -- Tasks for consecutive segments of the whole file, which have the right bytes so far, are served
  -- chunks in any order, each the content from where its task asked on and within its range: when as
  -- many bytes are counted as the file has, every byte of the file is that of the content.
  pub receive_all_assembles :
      (chunks : List (ℕ × List ℕ)) (tasks : List Task) (shared : Shared)
      → Holds shared.file 0 tasks
      → shared.downloaded ≡ bytes_of tasks
      → ServesAll chunks tasks shared
      → let (_, after) = receive_all chunks tasks shared in
        after.downloaded ≡ total_size → (b : ℕ) → b < total_size → after.file b ≡ content b
  receive_all_assembles chunks tasks shared h e s complete b l =
      let (tasks', after) = receive_all chunks tasks shared in
      let kept = receive_all-Kept chunks tasks shared h s in
      all_bytes after.file 0 tasks' kept.holds (omega (arith, kept.counted, e, complete)) b
        (omega arith) l

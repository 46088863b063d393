-- ===== src/Metainfo/Cover.antt =====
-- `files_for_piece` of src/torrent/metainfo.rs: the segments of a piece cover its byte range, in order
-- and without gap or overlap, and each lies inside its file. `parse_files` lays the files out so.
use gosh_dl.Base.{
  ℕ, suc, zero, ◌+◌, ◌*◌, ◌%◌, ◌^◌, ◌≡◌, ◌≤◌, ◌<◌, List, [], ◌∷◌, some, leb, length, min, max,
  arith, refl, Option-cases, Bool-cases, inl, inr, get_elem?, ◌||◌, map, ap,
}
use gosh_dl.Metainfo.{
  Component, Info, FileInfo, IsLaidOut, Segment, piece_range, overlaps, files_for_piece,
  parse_files, Contiguous,
}
use mathlib.Core.Path.{subst}
use gosh_dl.Metainfo.Ranges.{piece_range_lem}

-- The segments stand for the bytes from `pos` to `stop` of the files joined end to end.
abbrev pub Covers : List FileInfo → ℕ → List Segment → ℕ → Type 0
Covers files pos [] stop = pos ≡ stop
Covers files pos (s ∷ ss) stop =
    ((file : FileInfo) × (get_elem? files s.file_idx ≡ some file)
      × (file.offset + s.file_offset ≡ pos)
      × (s.file_offset + s.length ≤ file.length))
    × Covers files (pos + s.length) ss stop

pub Contiguous-le :
    (offset total : ℕ) (files : List FileInfo) → Contiguous offset files total → offset ≤ total
Contiguous-le offset total [] c = omega arith
Contiguous-le offset total (file ∷ files) c =
    omega (arith, Contiguous-le (offset + file.length) total files c.1)

-- One file more in front of the files whose segments cover the rest.
overlaps-step :
    (all : List FileInfo) (start stop i offset total : ℕ) (file : FileInfo) (files : List FileInfo)
    → get_elem? all i ≡ some file
    → Contiguous offset (file ∷ files) total
    → start < stop
    → total < 2 ^ 64
    → Covers all
        (min stop (max start (offset + file.length)))
        (overlaps start stop (suc i) files)
        stop
    → Covers all (min stop (max start offset)) (overlaps start stop i (file ∷ files)) stop
unfolding overlaps
overlaps-step all start stop i offset total file files at c h room rest =
    elim (Bool-cases (leb stop file.offset || leb ((file.offset + file.length) % 2 ^ 64) start)) [
      | inl skip ↦ rw skip (subst (λ pos. Covers all pos segments stop) (ground (arith, fits)) rest)
      | inr hit ↦ rw hit (
        (file, at, ground (arith, fits), ground (arith, fits)),
        subst (λ pos. Covers all pos segments stop) (ground (arith, fits)) rest,
      )
    ]
  where
    segments : List Segment
    segments = overlaps start stop (suc i) files

    fits : offset + file.length ≤ total
    fits = Contiguous-le (offset + file.length) total files c.1

overlaps-Covers :
    (all : List FileInfo) (start stop i offset total : ℕ) (files : List FileInfo)
    → ((k : ℕ) → get_elem? all (i + k) ≡ get_elem? files k)
    → Contiguous offset files total
    → start < stop
    → stop ≤ total
    → total < 2 ^ 64
    → Covers all (min stop (max start offset)) (overlaps start stop i files) stop
unfolding overlaps
overlaps-Covers all start stop i offset total [] at c h k room = omega arith
overlaps-Covers all start stop i offset total (file ∷ files) at c h k room =
    let here : get_elem? all i ≡ some file =
      subst (λ n. get_elem? all n ≡ some file) (omega arith) (at zero) in
    let shift = λ (k' : ℕ).
      subst (λ n. get_elem? all n ≡ get_elem? files k') {x = i + suc k'} {y = suc i + k'}
        (omega arith) (at (suc k')) in
    overlaps-step all start stop i offset total file files here c h room
      (overlaps-Covers all start stop (suc i) (offset + file.length) total files shift c.1 h k room)

-- The segments of a piece of a laid out torrent cover the piece's byte range exactly, in order, and
-- none leaves its file.
pub files_for_piece-Covers :
    (info : Info) (i : ℕ)
    → IsLaidOut info
    → i < length info.pieces
    → (start : ℕ) × (stop : ℕ) × (piece_range info i ≡ some (start, stop))
      × Covers info.files start (files_for_piece info i) stop
unfolding files_for_piece
files_for_piece-Covers info i w h =
    let (range, nonempty) = piece_range_lem info i w h in
    let start = i * info.piece_length in
    let stop = min (suc i * info.piece_length) info.total_size in
    let covers =
      overlaps-Covers info.files start stop 0 0 info.total_size info.files
        (λ k.
          subst (λ n. get_elem? info.files n ≡ get_elem? info.files k) {x = k} {y = 0 + k}
            (omega arith) refl)
        w.contiguous nonempty (omega arith) (omega (arith, w.small)) in
    (
      start,
      stop,
      range,
      rw (range, files_for_piece)
          (subst (λ pos. Covers info.files pos (overlaps start stop 0 info.files) stop)
            (omega (arith, nonempty)) covers),
    )

-- What `parse_files` accepts is laid out from its first offset on, keeps the lengths, and ends at the
-- total, which is below 2 ^ 64 if the first offset is.
pub parse_files-Contiguous :
    (offset : ℕ) (entries : List (List Component × ℕ)) (files : List FileInfo) (total : ℕ)
    → offset < 2 ^ 64
    → parse_files offset entries ≡ some (files, total)
    → Contiguous offset files total
      × (total < 2 ^ 64)
      × (map (λ file. (file.path, file.length)) files ≡ entries)
unfolding parse_files
parse_files-Contiguous offset [] files total room h =
    let none_left : [] ≡ files = ground arith in rw (← none_left) (ground arith, ground arith, refl)
parse_files-Contiguous offset ((path, len) ∷ entries) files total room h =
    elim (Option-cases (parse_files (offset + len) entries)) [
      | inl e ↦ absurd (ground arith)
      | inr ((fs, t), e) ↦
          let fits : offset + len < 2 ^ 64 = ground arith in
          let rest = parse_files-Contiguous (offset + len) entries fs t fits e in
          let all : record { path = path; length = len; offset = offset } ∷ fs ≡ files =
            ground arith in
          let same : t ≡ total = ground arith in
          rw (← all, ← same) ((refl, rest.0), rest.1, ap (◌∷◌ (path, len)) rest.2)
    ]

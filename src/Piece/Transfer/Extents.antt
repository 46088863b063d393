-- ===== src/Piece/Transfer/Extents.antt =====
-- Where `write_piece` of src/torrent/piece.rs puts a piece's bytes.
use gosh_dl.Base.{
  ℕ, suc, ◌+◌, ◌-◌, ◌*◌, ◌≡◌, ◌≤◌, ◌<◌, refl, Bool, List, [], ◌∷◌, ◌++◌, some, arith, length,
  get_elem?, take, drop, min, length-take, length-drop, take-append-drop, sym,
}
use mathlib.Core.Path.{subst}
use gosh_dl.Metainfo.{Info, FileInfo, Segment, IsLaidOut, piece_length, files_for_piece}
use gosh_dl.Metainfo.Ranges.{piece_range_lem, piece_length_lem}
use gosh_dl.Metainfo.Cover.{Covers, files_for_piece-Covers}
use gosh_dl.Piece.Manager.{ok}
use gosh_dl.Piece.Transfer.{Write, writes, write_piece}

-- The writes put the bytes, one after the other, to the places from `pos` to `stop` of the files joined
-- end to end, each inside its file.
abbrev pub Lands : List FileInfo → ℕ → List Write → List ℕ → ℕ → Type 0
Lands files pos [] bytes stop = (bytes ≡ []) × (pos ≡ stop)
Lands files pos (w ∷ ws) bytes stop =
    ((file : FileInfo) × (get_elem? files w.file_idx ≡ some file)
      × (file.offset + w.file_offset ≡ pos)
      × (w.file_offset + length w.bytes ≤ file.length))
    × ((rest : List ℕ) × (bytes ≡ w.bytes ++ rest)
        × Lands files (pos + length w.bytes) ws rest stop)

Covers-le :
    (files : List FileInfo) (pos : ℕ) (segments : List Segment) (stop : ℕ)
    → Covers files pos segments stop
    → pos ≤ stop
Covers-le files pos [] stop c = omega arith
Covers-le files pos (s ∷ segments) stop c =
    omega (arith, Covers-le files (pos + s.length) segments stop c.1)

empty_of_length : (bytes : List ℕ) → length bytes ≡ 0 → bytes ≡ []
empty_of_length [] h = refl
empty_of_length (x ∷ bytes) h = absurd (omega arith)

writes-Lands :
    (files : List FileInfo) (pos : ℕ) (segments : List Segment) (bytes : List ℕ) (stop : ℕ)
    → Covers files pos segments stop
    → pos + length bytes ≡ stop
    → Lands files pos (writes segments bytes) bytes stop
unfolding writes
writes-Lands files pos [] bytes stop c len = (empty_of_length bytes (omega arith), c)
writes-Lands files pos (s ∷ segments) bytes stop c len =
    let above = Covers-le files (pos + s.length) segments stop c.1 in
    let size : length (take s.length bytes) ≡ s.length =
      omega (arith, length-take s.length bytes) in
    let (file, at, place, fits) = c.0 in
    rw size (
      (file, at, place, fits),
      (
        drop s.length bytes,
        sym (take-append-drop s.length bytes),
        writes-Lands files (pos + s.length) segments (drop s.length bytes) stop c.1
            (omega (arith, length-drop s.length bytes)),
      ),
    )

-- If `write_piece` succeeds on a piece of the right length, its writes put all bytes of the piece, in
-- order and without gap, to the piece's range in the torrent, and no write leaves its file.
pub write_piece-Lands :
    (info : Info) (i : ℕ) (bytes : List ℕ) (disk_ok : Bool) (ws : List Write)
    → IsLaidOut info
    → i < length info.pieces
    → piece_length info i ≡ some (length bytes)
    → write_piece info i bytes disk_ok ≡ ok ws
    → Lands info.files (i * info.piece_length) ws bytes (i * info.piece_length + length bytes)
unfolding write_piece
write_piece-Lands info i bytes disk_ok ws w h len done =
    let (start, stop, range, covers) = files_for_piece-Covers info i w h in
    let (range', nonempty) = piece_range_lem info i w h in
    let len' = piece_length_lem info i w h in
    let size : length bytes
        ≡ min (suc i * info.piece_length) info.total_size - i * info.piece_length =
      ground (arith, len, len') in
    let at : start ≡ i * info.piece_length = ground (arith, range, range') in
    let until : stop ≡ i * info.piece_length + length bytes =
      ground (arith, range, range', size, nonempty) in
    let made : writes (files_for_piece info i) bytes ≡ ws = ground arith in
    let placed =
      writes-Lands info.files start (files_for_piece info i) bytes stop covers
        (omega (arith, at, until)) in
    subst
      (λ ws.
        Lands info.files (i * info.piece_length) ws bytes (i * info.piece_length + length bytes))
      made
      (subst
        (λ s.
          Lands info.files (i * info.piece_length) (writes (files_for_piece info i) bytes) bytes s)
        until
        (subst (λ s. Lands info.files s (writes (files_for_piece info i) bytes) bytes stop) at
          placed))

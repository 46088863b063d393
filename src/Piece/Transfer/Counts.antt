-- ===== src/Piece/Transfer/Counts.antt =====
-- What `verify_and_save` of src/torrent/piece.rs vouches for, and the counters of verified pieces.
use gosh_dl.Base.{
  same_bytes, same_bytes-eq, same_bytes_self, ℕ, ◌+◌, ◌*◌, ◌^◌, ◌≡◌, ◌<◌, refl, subst, [], ◌≢◌, ◌⊎◌,
  inl, inr, Bool, true, false, List, none, some, arith, length, set, lookup, lookup-remove,
  Bool-cases, Option-cases,
}
use gosh_dl.Metainfo.{Info, piece_hash, files_for_piece, piece_length, IsLaidOut}
use gosh_dl.Piece.Transfer.Extents.{Lands, write_piece-Lands}
use gosh_dl.Piece.Pending
use gosh_dl.Piece.Pending.{PendingPiece}
use gosh_dl.Piece.Manager.{PieceManager, Error, Outcome, ok, err, invalid_torrent, bit, have_piece}
use gosh_dl.Piece.Transfer.{
  writes, Write, verify_and_save, write_piece, finish_piece, write_piece_from_webseed,
}

Outcome-cases {ℓ} :
    {A : Type ℓ} (r : Outcome A) → ((a : A) × (r ≡ ok a)) ⊎ ((e : Error) × (r ≡ err e))
Outcome-cases (ok a) = inl (a, refl)
Outcome-cases (err e) = inr (e, refl)

-- The blocks of a piece in progress that is complete make up the length of the piece.
abbrev pub IsSized : PieceManager → ℕ → Type 0
IsSized m index =
    (p : PendingPiece) (bytes : List ℕ)
    → lookup index m.pending ≡ some p
    → Pending.piece_data p ≡ some bytes
    → piece_length m.info index ≡ some (length bytes)

-- With the files laid out and the blocks making up the length of the piece: a piece is reported as saved
-- only if the bytes of all its blocks hash to the torrent's hash of that piece, and then these bytes were
-- written, in order and without gap, to the piece's range in the torrent, each write inside its file; its
-- bit is set and it is no longer pending. In every other case nothing is known to be written, and the bits
-- of the pieces held and their count are untouched.
pub verify_and_save_sound :
    (sha1 : List ℕ → List ℕ) (m : PieceManager) (index : ℕ) (disk_ok : Bool)
    → IsLaidOut m.info
    → index < length m.info.pieces
    → IsSized m index
    → let (after, result, written) = verify_and_save sha1 m index disk_ok in
      ((result ≡ ok true)
        × ((p : PendingPiece) × (bytes : List ℕ) × (lookup index m.pending ≡ some p)
            × (Pending.piece_data p ≡ some bytes)
            × (piece_hash m.info index ≡ some (sha1 bytes))
            × Lands m.info.files
                (index * m.info.piece_length)
                written
                bytes
                (index * m.info.piece_length + length bytes))
        × (after.have ≡ set m.have index true)
        × (lookup index after.pending ≡ none))
      ⊎ ((result ≢ ok true)
          × (written ≡ [])
          × (after.have ≡ m.have)
          × (after.verified_count ≡ m.verified_count))
unfolding verify_and_save finish_piece
verify_and_save_sound sha1 m index disk_ok laid inside sized =
    elim (Option-cases (lookup index m.pending)) [
      | inl e ↦ inr (ground arith, ground arith, ground arith, ground arith)
      | inr (p, e) ↦ elim (Option-cases (Pending.piece_data p)) [
        | inl e' ↦ inr (ground arith, ground arith, ground arith, ground arith)
        | inr (bytes, e') ↦ elim (Option-cases (piece_hash m.info index)) [
          | inl e'' ↦ inr (ground arith, ground arith, ground arith, ground arith)
          | inr (expected, e'') ↦ elim (Bool-cases (same_bytes (sha1 bytes) expected)) [
            | inr bad ↦ inr (ground arith, ground arith, ground arith, ground arith)
            | inl good ↦
                let same = same_bytes-eq (sha1 bytes) expected good in
                elim (Outcome-cases (write_piece m.info index bytes disk_ok)) [
                  | inr (failed, w) ↦ inr (ground arith, ground arith, ground arith, ground arith)
                  | inl (ws, w) ↦
                      let lands =
                        write_piece-Lands m.info index bytes disk_ok ws laid inside
                          (sized p bytes e e') w in
                      let made : ws ≡ (verify_and_save sha1 m index disk_ok).2 = ground arith in
                      inl (
                        ground arith,
                        (
                          p,
                          bytes,
                          e,
                          e',
                          ground (arith, same),
                          subst
                              (λ ws.
                                Lands m.info.files (index * m.info.piece_length) ws bytes
                                  (index * m.info.piece_length + length bytes))
                              made lands,
                        ),
                        ground arith,
                        ground (arith, lookup-remove index index m.pending),
                      )
                ]
          ]
        ]
      ]
    ]

-- The bytes of a piece that is in progress, complete, and hashes as it should.
pub record IsSound (sha1 : List ℕ → List ℕ) (m : PieceManager) (index : ℕ) : Type 0 where
  pub piece : PendingPiece
  pub bytes : List ℕ
  pub pending : lookup index m.pending ≡ some piece
  pub complete : Pending.piece_data piece ≡ some bytes
  pub hashed : piece_hash m.info index ≡ some (sha1 bytes)
  pub paths : write_piece m.info index bytes true ≢ err invalid_torrent

write_piece_goes :
    (info : Info) (i : ℕ) (bytes : List ℕ)
    → write_piece info i bytes true ≢ err invalid_torrent
    → (ws : List Write) × (write_piece info i bytes true ≡ ok ws)
unfolding write_piece
write_piece_goes info i bytes h = (writes (files_for_piece info i) bytes, ground arith)

-- A complete piece with the right hash, safe paths and a working disk is saved, and counted once with
-- its bytes, as long as the counters do not overflow.
pub verify_and_save_counts :
    (sha1 : List ℕ → List ℕ) (m : PieceManager) (index : ℕ) (s : IsSound sha1 m index)
    → m.verified_count + 1 < 2 ^ 64
    → m.verified_bytes + length s.bytes < 2 ^ 64
    → ((verify_and_save sha1 m index true).1 ≡ ok true)
      × ((verify_and_save sha1 m index true).0.verified_count ≡ m.verified_count + 1)
      × ((verify_and_save sha1 m index true).0.verified_bytes ≡ m.verified_bytes + length s.bytes)
unfolding verify_and_save finish_piece
verify_and_save_counts sha1 m index s room room' =
    let (ws, w) = write_piece_goes m.info index s.bytes s.paths in
    let same = same_bytes_self (sha1 s.bytes) in
    (
      ground (arith, s.pending, s.complete, s.hashed, same, w),
      ground (arith, s.pending, s.complete, s.hashed, same, w),
      ground (arith, s.pending, s.complete, s.hashed, same, w),
    )

-- A web seed delivers a piece that is not held while peers download it. The piece stays in progress, so
-- when it is complete and verified with the right hash it is counted a second time, with its bytes; the
-- counters do not overflow.
pub webseed_piece_counted_twice :
    (sha1 : List ℕ → List ℕ) (m : PieceManager) (index : ℕ) (s : IsSound sha1 m index)
    → bit m.have index ≡ false
    → m.verified_count + 2 < 2 ^ 64
    → m.verified_bytes + 2 * length s.bytes < 2 ^ 64
    → let m' = (write_piece_from_webseed m index s.bytes true).0 in
      let m'' = (verify_and_save sha1 m' index true).0 in
      (m'.have ≡ set m.have index true)
      × (m''.have ≡ set (set m.have index true) index true)
      × (m''.verified_count ≡ m.verified_count + 2)
      × (m''.verified_bytes ≡ m.verified_bytes + 2 * length s.bytes)
unfolding write_piece_from_webseed verify_and_save finish_piece have_piece
webseed_piece_counted_twice sha1 m index s missing room room' =
    let (ws, w) = write_piece_goes m.info index s.bytes s.paths in
    let same = same_bytes_self (sha1 s.bytes) in
    (
      ground (arith, s.pending, s.complete, s.hashed, same, w),
      ground (arith, s.pending, s.complete, s.hashed, same, w),
      ground (arith, s.pending, s.complete, s.hashed, same, w),
      ground (arith, s.pending, s.complete, s.hashed, same, w),
    )

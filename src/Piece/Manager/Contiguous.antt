-- ===== src/Piece/Manager/Contiguous.antt =====
-- `contiguous_available_from` of src/torrent/piece.rs: what a streaming reader may read.
use gosh_dl.Base.{
  ℕ, zero, suc, ◌+◌, ◌-◌, ◌*◌, ◌/◌, ◌%◌, ◌^◌, ◌≡◌, ◌≤◌, ◌<◌, ◌⊎◌, inl, inr, Bool, true, false, List,
  arith, if◌then◌else◌, ◌==◌, leb, length, min, Bool-cases, ◌||◌, ap,
}
use gosh_dl.Metainfo.{Info, IsLaidOut, div_ceil}
use gosh_dl.Metainfo.Ranges.{ceil-upper, mul_mono}
use gosh_dl.Piece.Manager.{PieceManager, bit, num_pieces, run_end, contiguous_available_from}

-- The run of held pieces from `i` on ends at piece `j`: all from `i` to `j` are held, and `j` is missing
-- or past the last.
pub record IsRun (have : List Bool) (i n j : ℕ) : Type 0 where
  pub low : i ≤ j
  pub high : j ≤ i + n
  pub held : (k : ℕ) → i ≤ k → k < j → bit have k ≡ true
  pub stop : (j ≡ i + n) ⊎ (bit have j ≡ false)

-- The end of the run, in bytes: where it started if nothing is held.
abbrev end_of : Info → ℕ → ℕ → ℕ → ℕ
end_of info i end j = if j == i then end else min (j * info.piece_length) info.total_size

end_step :
    (info : Info) (i j end r : ℕ)
    → suc i ≤ j
    → suc i * info.piece_length < 2 ^ 64
    → r ≡ end_of info (suc i) (min ((suc i * info.piece_length) % 2 ^ 64) info.total_size) j
    → r ≡ end_of info i end j
end_step info i j end r low room e = elim (Bool-cases (j == suc i)) [
  | inl same ↦ let q : j ≡ suc i = ground arith in ground (arith, ap (λ t. t * info.piece_length) q)
  | inr other ↦ ground arith
]

run_end_lem :
    (info : Info) (have : List Bool) (n i end : ℕ)
    → ((k : ℕ) → k ≤ i + n → k * info.piece_length < 2 ^ 64)
    → (j : ℕ) × IsRun have i n j × (run_end info have n i end ≡ end_of info i end j)
unfolding run_end
run_end_lem info have zero i end small = (
  i,
  record {
    low = omega arith;
    high = omega arith;
    held = λ k a b. absurd (omega arith);
    stop = inl (omega arith);
  },
  ground arith,
)
run_end_lem info have (suc n) i end small = elim (Bool-cases (bit have i)) [
  | inr missing ↦ (
    i,
    record {
      low = omega arith;
      high = omega arith;
      held = λ k a b. absurd (omega arith);
      stop = inr missing;
    },
    ground arith,
  )
  | inl held ↦
      let next = min ((suc i * info.piece_length) % 2 ^ 64) info.total_size in
      let (j, run, e) = run_end_lem info have n (suc i) next (λ k h. small k (omega arith)) in
      let room = small (suc i) (omega arith) in
      (
        j,
        record {
          low = omega (arith, run.low);
          high = omega (arith, run.high);
          held = λ k a b. elim (Bool-cases (k == i)) [
            | inl same ↦ (let q : k ≡ i = ground arith in rw q held)
            | inr other ↦ run.held k (ground arith) b
          ];
          stop = elim run.stop [ inl last ↦ inl (omega arith) | inr gone ↦ inr gone ];
        },
        rw held (end_step info i j end _ run.low room e),
      )
]

small_lem :
    (info : Info) (offset k : ℕ)
    → IsLaidOut info
    → offset < info.total_size
    → k ≤ offset / info.piece_length + (length info.pieces - offset / info.piece_length)
    → k * info.piece_length < 2 ^ 64
small_lem info offset zero w inside h = omega (arith, w.small)
small_lem info offset (suc k) w inside h =
    elim (Bool-cases (leb (suc k) (offset / info.piece_length))) [
      | inl before ↦
          let scaled =
            mul_mono (suc k) (offset / info.piece_length) info.piece_length (ground arith) in
          omega (arith, scaled, w.small, w.positive)
      | inr after ↦
          let counted : k < div_ceil info.total_size info.piece_length =
            rw (← w.counted) (ground arith) in
          omega (arith, ceil-upper info.total_size info.piece_length k w.positive counted, w.small)
    ]

-- In a laid out torrent, from an offset below its size on, the reader is offered everything up to the
-- end of the run of held pieces that starts with the piece the offset lies in, and nothing if that
-- piece is missing.
pub contiguous_available_from_lem :
    (m : PieceManager) (offset : ℕ)
    → IsLaidOut m.info
    → offset < m.info.total_size
    → let first = offset / m.info.piece_length in
      (j : ℕ) × IsRun m.have first (num_pieces m - first) j
      × (contiguous_available_from m offset
          ≡ (if j == first then 0 else min (j * m.info.piece_length) m.info.total_size - offset))
unfolding contiguous_available_from
contiguous_available_from_lem m offset w inside =
    let first = offset / m.info.piece_length in
    let n = num_pieces m - first in
    let (j, run, e) =
      run_end_lem m.info m.have n first offset (λ k h. small_lem m.info offset k w inside h) in
    let guard : (leb m.info.total_size offset || (m.info.piece_length == 0)) ≡ false =
      ground (arith, w.positive) in
    (j, run, ground (arith, guard, e))

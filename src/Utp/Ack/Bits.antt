-- ===== src/Utp/Ack/Bits.antt =====
-- src/torrent/utp/packet.rs: a packet set as acknowledged is acknowledged, and no other changes.
use gosh_dl.Base.{
  ℕ, zero, suc, ◌+◌, ◌-◌, ◌*◌, ◌/◌, ◌%◌, ◌≤◌, ◌<◌, ◌≡◌, refl, ◌≢◌, true, false, ◌||◌, List, [], ◌∷◌,
  ◌++◌, arith, ◌==◌, leb, length, get_or, set, replicate, inl, inr, Bool-cases, length-append,
  length-replicate, ap, sym, subst, ◌∙◌,
}
use gosh_dl.Utp.Ack.{SelectiveAck, has_bit, set_bit, is_acked, extend, set_acked}

has_bit-set_bit : (k b : ℕ) → has_bit k (set_bit k b) ≡ true
has_bit-set_bit zero b = ground arith
has_bit-set_bit (suc k) b =
    let halved : (b % 2 + 2 * set_bit k (b / 2)) / 2 ≡ set_bit k (b / 2) = omega arith in
    rw halved (has_bit-set_bit k (b / 2))

has_bit-set_bit_other : (j k b : ℕ) → j ≢ k → has_bit j (set_bit k b) ≡ has_bit j b
has_bit-set_bit_other zero zero b h = absurd (h refl)
has_bit-set_bit_other zero (suc k) b h =
    let low : (b % 2 + 2 * set_bit k (b / 2)) % 2 ≡ b % 2 = omega arith in rw low refl
has_bit-set_bit_other (suc j) zero b h = elim (Bool-cases (b % 2 == 1)) [
  | inl odd ↦ rw odd refl
  | inr even ↦ let halved : (b + 1) / 2 ≡ b / 2 = ground arith in rw (even, halved) refl
]
has_bit-set_bit_other (suc j) (suc k) b h =
    let halved : (b % 2 + 2 * set_bit k (b / 2)) / 2 ≡ set_bit k (b / 2) = omega arith in
    rw halved (has_bit-set_bit_other j k (b / 2) (λ e. h (omega arith)))

-- A byte of the mask, zero behind its end.
has_bit_zero : (k : ℕ) → has_bit k 0 ≡ false
has_bit_zero zero = refl
has_bit_zero (suc k) = has_bit_zero k

module _ {ℓ} {A : Type ℓ} where
  get_or_past : (xs : List A) (i : ℕ) (d : A) → length xs ≤ i → get_or xs i d ≡ d
  get_or_past [] i d h = refl
  get_or_past (x ∷ xs) zero d h = absurd (omega arith)
  get_or_past (x ∷ xs) (suc i) d h = get_or_past xs i d (omega arith)

  get_or-replicate : (n i : ℕ) (d : A) → get_or (replicate n d) i d ≡ d
  get_or-replicate zero i d = refl
  get_or-replicate (suc n) zero d = refl
  get_or-replicate (suc n) (suc i) d = get_or-replicate n i d

  get_or_padded : (xs : List A) (n i : ℕ) (d : A) → get_or (xs ++ replicate n d) i d ≡ get_or xs i d
  get_or_padded [] n i d = get_or-replicate n i d
  get_or_padded (x ∷ xs) n zero d = refl
  get_or_padded (x ∷ xs) n (suc i) d = get_or_padded xs n i d

  get_or-set : (xs : List A) (i : ℕ) (v d : A) → i < length xs → get_or (set xs i v) i d ≡ v
  get_or-set [] i v d h = absurd (omega arith)
  get_or-set (x ∷ xs) zero v d h = refl
  get_or-set (x ∷ xs) (suc i) v d h = get_or-set xs i v d (omega arith)

  get_or-set_other :
      (xs : List A) (i j : ℕ) (v d : A) → i ≢ j → get_or (set xs i v) j d ≡ get_or xs j d
  get_or-set_other [] i j v d h = refl
  get_or-set_other (x ∷ xs) zero zero v d h = absurd (h refl)
  get_or-set_other (x ∷ xs) zero (suc j) v d h = refl
  get_or-set_other (x ∷ xs) (suc i) zero v d h = refl
  get_or-set_other (x ∷ xs) (suc i) (suc j) v d h =
      get_or-set_other xs i j v d (λ e. h (omega arith))

-- `is_acked` reads a mask as if zeros went on behind its end.
is_acked_lem :
    (s : SelectiveAck) (i : ℕ) → is_acked s i ≡ has_bit (7 - i % 8) (get_or s.bitmask (i / 8) 0)
unfolding is_acked
is_acked_lem s i = elim (Bool-cases (leb (length s.bitmask) (i / 8))) [
  | inl past ↦
      rw (past, get_or_past s.bitmask (i / 8) 0 (ground arith), has_bit_zero (7 - i % 8)) refl
  | inr inside ↦ rw inside refl
]

extend_long : (mask : List ℕ) (i : ℕ) → i < length (extend mask i)
extend_long mask i = omega (
  arith,
  length-append mask (replicate (i + 1 - length mask) 0),
  length-replicate {A = ℕ} (i + 1 - length mask) 0,
)

-- After `set_acked` at an offset, `is_acked` holds at that offset, and at every other as before.
pub set_acked_lem :
    (s : SelectiveAck) (i j : ℕ) → is_acked (set_acked s i) j ≡ ((i == j) || is_acked s j)
unfolding set_acked
set_acked_lem s i j =
    let mask = extend s.bitmask (i / 8) in
    let byte = get_or mask (i / 8) 0 in
    let read = is_acked_lem (set_acked s i) j in
    let before : has_bit (7 - j % 8) (get_or mask (j / 8) 0) ≡ is_acked s j =
      ap (has_bit (7 - j % 8)) (get_or_padded s.bitmask (i / 8 + 1 - length s.bitmask) (j / 8) 0)
      ∙ sym (is_acked_lem s j) in
    let there : i / 8 ≡ j / 8
        → get_or (set mask (i / 8) (set_bit (7 - i % 8) byte)) (j / 8) 0
          ≡ set_bit (7 - i % 8) byte =
      λ e.
        subst
          (λ k. get_or (set mask (i / 8) (set_bit (7 - i % 8) byte)) k 0 ≡ set_bit (7 - i % 8) byte)
          e
          (get_or-set mask (i / 8) (set_bit (7 - i % 8) byte) 0 (extend_long s.bitmask (i / 8))) in
    elim (Bool-cases (i == j)) [
      | inl same ↦
          let e : i ≡ j = ground arith in
          read ∙ rw (there (ap (λ k. k / 8) e), same, ← e) (has_bit-set_bit (7 - i % 8) byte)
      | inr different ↦ elim (Bool-cases (i / 8 == j / 8)) [
        | inl together ↦
            let e : i / 8 ≡ j / 8 = ground arith in
            let bits : 7 - j % 8 ≢ 7 - i % 8 = λ q. absurd (ground arith) in
            read
            ∙ ap (has_bit (7 - j % 8)) (there e)
            ∙ has_bit-set_bit_other (7 - j % 8) (7 - i % 8) byte bits
            ∙ ap (λ k. has_bit (7 - j % 8) (get_or mask k 0)) e
            ∙ before
            ∙ rw different refl
        | inr apart ↦
            let other =
              get_or-set_other mask (i / 8) (j / 8) (set_bit (7 - i % 8) byte) 0 (ground arith) in
            read ∙ rw (other, different) before
      ]
    ]

-- ===== src/Utp/Ack.antt =====
-- src/torrent/utp/packet.rs: `SelectiveAck`. A byte is a number below 256; `0x80 >> i` is its bit `7 - i`.
pub mod Bits
use gosh_dl.Base.{
  ℕ, zero, suc, ◌+◌, ◌-◌, ◌*◌, ◌/◌, ◌%◌, Bool, true, false, List, [], ◌∷◌, ◌++◌, if◌then◌else◌,
  ◌==◌, leb, length, ◌^◌, get_or, set, replicate,
}

pub record SelectiveAck : Type 0 where
  pub bitmask : List ℕ

-- Bit `k` of a byte, and the byte with that bit set.
abbrev pub has_bit : ℕ → ℕ → Bool
has_bit zero b = b % 2 == 1
has_bit (suc k) b = has_bit k (b / 2)

abbrev pub set_bit : ℕ → ℕ → ℕ
set_bit zero b = if b % 2 == 1 then b else b + 1
set_bit (suc k) b = b % 2 + 2 * set_bit k (b / 2)

pub is_acked : SelectiveAck → ℕ → Bool
is_acked s packet_offset =
    if leb (length s.bitmask) (packet_offset / 8)
    then false
    else has_bit (7 - packet_offset % 8) (get_or s.bitmask (packet_offset / 8) 0)

-- `while bitmask.len() <= byte_idx { bitmask.push(0) }`
abbrev pub extend : List ℕ → ℕ → List ℕ
extend bitmask byte_idx = bitmask ++ replicate (byte_idx + 1 - length bitmask) 0

pub set_acked : SelectiveAck → ℕ → SelectiveAck
set_acked s packet_offset =
    let byte_idx = packet_offset / 8 in
    let extended = extend s.bitmask byte_idx in
    record {
      bitmask =
          set extended byte_idx (set_bit (7 - packet_offset % 8) (get_or extended byte_idx 0));
    }

-- Next extension, length as a byte, bitmask.
unfoldable pub encode : SelectiveAck → List ℕ
encode s = 0 ∷ length s.bitmask % 2 ^ 8 ∷ s.bitmask

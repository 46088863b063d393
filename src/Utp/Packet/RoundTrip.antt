-- ===== src/Utp/Packet/RoundTrip.antt =====
-- src/torrent/utp/packet.rs: a packet whose fields are in range is decoded from its encoding, and
-- decoding ends on every input.
use gosh_dl.Base.{
  ℕ, zero, suc, ◌+◌, ◌-◌, ◌*◌, ◌/◌, ◌%◌, ◌^◌, ◌≤◌, ◌<◌, ◌≡◌, refl, ◌≢◌, Bool, true, false, not,
  ◌&&◌, List, [], ◌∷◌, ◌++◌, Option, none, some, arith, if◌then◌else◌, ◌==◌, ltb, leb, length,
  get_or, take, drop, inl, inr, Bool-cases, length-append, take-append, drop-append, drop-drop, ap,
  subst, sym, ◌∙◌, u16_lem, u32_lem,
}
use gosh_dl.Base.Result.{Result, ok, failed, out_of_fuel, ◌>>=◌, or_fail}
use gosh_dl.Utp.Ack
use gosh_dl.Utp.Ack.{SelectiveAck}
use gosh_dl.Utp.Packet.{
  PacketType, data_packet, fin_packet, state_packet, reset_packet, syn_packet, to_byte, try_from,
  Packet, encode, encode_extensions, extension_type, extensions, decode, header_size, utp_version,
}

extensions_more :
    (f : ℕ) (input : List ℕ) (next offset : ℕ) (sack : Option SelectiveAck)
    → (not (next == 0) && leb (offset + 2) (length input)) ≡ true
    → ltb (length input) (offset + 2 + get_or input (offset + 1) 0) ≡ false
    → extensions (suc f) input next offset sack
      ≡ extensions f input (get_or input offset 0) (offset + 2 + get_or input (offset + 1) 0) (
          if next == 1
          then some
              (record { bitmask = take (get_or input (offset + 1) 0) (drop (offset + 2) input) })
          else sack)
unfolding extensions
extensions_more f input next offset sack more fits = rw (more, fits) refl

extensions_ends :
    (f : ℕ) (input : List ℕ) (next offset : ℕ) (sack : Option SelectiveAck)
    → offset ≤ length input
    → length input < f + offset
    → extensions f input next offset sack ≢ out_of_fuel
unfolding extensions
extensions_ends zero input next offset sack k h e = absurd (omega arith)
extensions_ends (suc f) input next offset sack k h e =
    elim (Bool-cases (not (next == 0) && leb (offset + 2) (length input))) [
      | inl more ↦
          elim (Bool-cases (ltb (length input) (offset + 2 + get_or input (offset + 1) 0))) [
            | inl short ↦ absurd (ground (arith, e, more, short))
            | inr fits ↦
                extensions_ends f input _ (offset + 2 + get_or input (offset + 1) 0) _
                  (ground arith) (ground arith)
                  (sym (extensions_more f input next offset sack more fits) ∙ e)
          ]
      | inr last ↦ absurd (ground (arith, e, last))
    ]

type_lem : (t : PacketType) → try_from ((to_byte t * 2 ^ 4 + 1) / 2 ^ 4) ≡ some t
type_lem data_packet = refl
type_lem fin_packet = refl
type_lem state_packet = refl
type_lem reset_packet = refl
type_lem syn_packet = refl

version_lem : (t : PacketType) → ((to_byte t * 2 ^ 4 + 1) % 2 ^ 4 == 1) ≡ true
version_lem data_packet = refl
version_lem fin_packet = refl
version_lem state_packet = refl
version_lem reset_packet = refl
version_lem syn_packet = refl

-- The fields are in the range of their types, and the mask has at most 255 bytes, as its length is
-- written in one byte.
abbrev pub SackInRange : Option SelectiveAck → Type 0
SackInRange none = Unit
SackInRange (some sack) = length sack.bitmask < 2 ^ 8

pub record InRange (p : Packet) : Type 0 where
  pub connection_id : p.connection_id < 2 ^ 16
  pub timestamp_us : p.timestamp_us < 2 ^ 32
  pub timestamp_diff_us : p.timestamp_diff_us < 2 ^ 32
  pub wnd_size : p.wnd_size < 2 ^ 32
  pub seq_nr : p.seq_nr < 2 ^ 16
  pub ack_nr : p.ack_nr < 2 ^ 16
  pub selective_ack : SackInRange p.selective_ack

long_enough : (input : List ℕ) → header_size ≤ length input → ltb (length input) header_size ≡ false
long_enough input h = ground arith

-- What `decode` gives once the extensions are read.
decode_header :
    (p : Packet) (offset : ℕ)
    → InRange p
    → extensions (length (encode p)) (encode p) (extension_type p.selective_ack) header_size none
      ≡ ok (offset, p.selective_ack)
    → drop offset (encode p) ≡ p.payload
    → decode (encode p) ≡ ok p
unfolding decode encode
decode_header p offset r h k =
    let long = long_enough (encode p) (omega arith) in
    rw
      (
        long,
        type_lem p.packet_type,
        version_lem p.packet_type,
        h,
        k,
        u16_lem p.connection_id r.connection_id,
        u32_lem p.timestamp_us r.timestamp_us,
        u32_lem p.timestamp_diff_us r.timestamp_diff_us,
        u32_lem p.wnd_size r.wnd_size,
        u16_lem p.seq_nr r.seq_nr,
        u16_lem p.ack_nr r.ack_nr,
      )
      refl

get_or-drop {ℓ} :
    {A : Type ℓ} (n i : ℕ) (xs : List A) (d : A) → get_or xs (n + i) d ≡ get_or (drop n xs) i d
get_or-drop zero i xs d = ap (λ k. get_or xs k d) {x = 0 + i} {y = i} (omega arith)
get_or-drop (suc n) i [] d = refl
get_or-drop (suc n) i (x ∷ xs) d =
    ap (λ k. get_or (x ∷ xs) k d) {x = suc n + i} {y = suc (n + i)} (omega arith)
    ∙ get_or-drop n i xs d

-- One selective acknowledgement behind the header is found, and the payload stands behind it.
extensions_sack :
    (f : ℕ) (input : List ℕ) (sack : SelectiveAck) (payload : List ℕ)
    → drop 20 input ≡ 0 ∷ length sack.bitmask % 2 ^ 8 ∷ (sack.bitmask ++ payload)
    → length input ≡ 22 + length sack.bitmask + length payload
    → length sack.bitmask < 2 ^ 8
    → (extensions (suc (suc f)) input 1 20 none ≡ ok (22 + length sack.bitmask, some sack))
      × (drop (22 + length sack.bitmask) input ≡ payload)
unfolding extensions
extensions_sack f input sack payload h k small =
    let mask = sack.bitmask in
    let next : get_or input 20 0 ≡ 0 = get_or-drop 20 0 input 0 ∙ ap (λ xs. get_or xs 0 0) h in
    let len : get_or input 21 0 ≡ length mask =
      get_or-drop 20 1 input 0 ∙ ap (λ xs. get_or xs 1 0) h ∙ omega arith in
    let behind : drop 22 input ≡ mask ++ payload = sym (drop-drop 2 20 input) ∙ ap (drop 2) h in
    let end : drop (22 + length mask) input ≡ payload =
      sym (drop-drop (length mask) 22 input)
      ∙ ap (drop (length mask)) behind
      ∙ drop-append mask payload in
    let more : leb 22 (length input) ≡ true = ground (arith, k) in
    let fits : ltb (length input) (22 + length mask) ≡ false = ground (arith, k) in
    (rw (more, len, fits, next, behind, take-append mask payload) refl, end)

extensions_read :
    (input payload : List ℕ) (sack : Option SelectiveAck)
    → SackInRange sack
    → drop 20 input ≡ encode_extensions sack ++ payload
    → length input ≡ 20 + length (encode_extensions sack ++ payload)
    → (offset : ℕ) × (extensions (length input) input (extension_type sack) 20 none
        ≡ ok (offset, sack))
      × (drop offset input ≡ payload)
unfolding extensions Ack.encode
extensions_read input payload none r h k =
    let fuel : length input ≡ suc (length input - 1) = omega arith in
    (20, subst (λ n. extensions n input 0 20 none ≡ ok (20, none)) (sym fuel) refl, h)
extensions_read input payload (some sack) r h k =
    let fuel : length input ≡ suc (suc (length input - 2)) = omega arith in
    let long : length input ≡ 22 + length sack.bitmask + length payload =
      omega (arith, length-append sack.bitmask payload) in
    let (found, behind) = extensions_sack (length input - 2) input sack payload h long r in
    (
      22 + length sack.bitmask,
      subst (λ n. extensions n input 1 20 none ≡ ok (22 + length sack.bitmask, some sack))
          (sym fuel) found,
      behind,
    )

-- A packet whose fields are in the range of their types, with a mask of at most 255 bytes, is what
-- `decode` gives of its encoding.
pub decode-encode : (p : Packet) → InRange p → decode (encode p) ≡ ok p
unfolding encode
decode-encode p r =
    let (offset, found, behind) =
      extensions_read (encode p) p.payload p.selective_ack r.selective_ack refl (omega arith) in
    decode_header p offset r found behind

bind-ne-out_of_fuel {ℓ κ} :
    {A : Type ℓ} {B : Type κ} (r : Result A) (k : A → Result B)
    → r ≢ out_of_fuel
    → ((a : A) → k a ≢ out_of_fuel)
    → (r >>= k) ≢ out_of_fuel
bind-ne-out_of_fuel (ok a) k h g = g a
bind-ne-out_of_fuel failed k h g = λ e. absurd cc
bind-ne-out_of_fuel out_of_fuel k h g = absurd (h refl)

if-ne-out_of_fuel {ℓ} :
    {A : Type ℓ} (b : Bool) (x y : Result A)
    → (b ≡ true → x ≢ out_of_fuel)
    → (b ≡ false → y ≢ out_of_fuel)
    → (if b then x else y) ≢ out_of_fuel
if-ne-out_of_fuel true x y f g = f refl
if-ne-out_of_fuel false x y f g = g refl

or_fail-ne-out_of_fuel {ℓ} : {A : Type ℓ} (o : Option A) → or_fail o ≢ out_of_fuel
or_fail-ne-out_of_fuel none = λ e. absurd cc
or_fail-ne-out_of_fuel (some a) = λ e. absurd cc

-- `decode` returns a packet or an error on every input: its loop over the extensions ends.
pub decode-ne-out_of_fuel : (input : List ℕ) → decode input ≢ out_of_fuel
unfolding decode
decode-ne-out_of_fuel input =
    if-ne-out_of_fuel (ltb (length input) header_size) _ _ (λ _ e. absurd cc)
      (λ long.
        bind-ne-out_of_fuel (or_fail (try_from (get_or input 0 0 / 2 ^ 4))) _
          (or_fail-ne-out_of_fuel (try_from (get_or input 0 0 / 2 ^ 4)))
          (λ packet_type.
            if-ne-out_of_fuel (not (get_or input 0 0 % 2 ^ 4 == utp_version)) _ _ (λ _ e. absurd cc)
              (λ _.
                bind-ne-out_of_fuel
                  (extensions (length input) input (get_or input 1 0) header_size none) _
                  (extensions_ends (length input) input (get_or input 1 0) header_size none
                    (ground arith) (omega arith))
                  (λ _ e. absurd cc))))

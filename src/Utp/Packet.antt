-- ===== src/Utp/Packet.antt =====
-- src/torrent/utp/packet.rs: `Packet`, its encoding and decoding. Numbers are written and read in
-- big-endian order; errors of decoding are of the one kind `InvalidData`, so `failed` stands for it.
pub mod RoundTrip
use gosh_dl.Base.{
  ℕ, zero, suc, ◌+◌, ◌-◌, ◌*◌, ◌/◌, ◌%◌, ◌^◌, Bool, true, false, not, ◌&&◌, List, [], ◌∷◌, ◌++◌,
  Option, none, some, if◌then◌else◌, ◌==◌, ltb, leb, length, get_or, take, drop, u16_bytes,
  u32_bytes, u16_from, u32_from,
}
use gosh_dl.Base.Result.{Result, ok, failed, out_of_fuel, ◌>>=◌, or_fail}
use gosh_dl.Utp.Ack
use gosh_dl.Utp.Ack.{SelectiveAck}

pub data PacketType : Type 0 where
  data_packet fin_packet state_packet reset_packet syn_packet : PacketType

abbrev pub to_byte : PacketType → ℕ
to_byte data_packet = 0
to_byte fin_packet = 1
to_byte state_packet = 2
to_byte reset_packet = 3
to_byte syn_packet = 4

abbrev pub try_from : ℕ → Option PacketType
try_from n =
    if n == 0
    then some data_packet
    else if n == 1
    then some fin_packet
    else if n == 2
    then some state_packet
    else if n == 3
    then some reset_packet
    else if n == 4
    then some syn_packet
    else none

pub record Packet : Type 0 where
  pub packet_type : PacketType
  pub connection_id : ℕ
  pub timestamp_us : ℕ
  pub timestamp_diff_us : ℕ
  pub wnd_size : ℕ
  pub seq_nr : ℕ
  pub ack_nr : ℕ
  pub selective_ack : Option SelectiveAck
  pub payload : List ℕ

abbrev pub header_size : ℕ
header_size = 20

abbrev pub utp_version : ℕ
utp_version = 1

unfoldable pub new : PacketType → ℕ → ℕ → ℕ → Packet
new packet_type connection_id seq_nr ack_nr = record {
  packet_type = packet_type;
  connection_id = connection_id;
  timestamp_us = 0;
  timestamp_diff_us = 0;
  wnd_size = 0;
  seq_nr = seq_nr;
  ack_nr = ack_nr;
  selective_ack = none;
  payload = [];
}

pub syn : ℕ → ℕ → Packet
syn connection_id seq_nr = new syn_packet connection_id seq_nr 0

pub state : ℕ → ℕ → ℕ → Packet
state = new state_packet

pub data_of : ℕ → ℕ → ℕ → List ℕ → Packet
data_of connection_id seq_nr ack_nr payload = record (new data_packet connection_id seq_nr ack_nr) {
  payload = payload;
}

pub fin : ℕ → ℕ → ℕ → Packet
unfolding new
fin = new fin_packet

pub reset : ℕ → ℕ → ℕ → Packet
unfolding new
reset = new reset_packet

unfoldable pub with_timestamps : Packet → ℕ → ℕ → Packet
with_timestamps p timestamp_us timestamp_diff_us = record p {
  timestamp_us = timestamp_us;
  timestamp_diff_us = timestamp_diff_us;
}

unfoldable pub with_window : Packet → ℕ → Packet
with_window p wnd_size = record p { wnd_size = wnd_size }

unfoldable pub with_selective_ack : Packet → SelectiveAck → Packet
with_selective_ack p sack = record p { selective_ack = some sack }

abbrev pub encode_extensions : Option SelectiveAck → List ℕ
encode_extensions none = []
encode_extensions (some sack) = Ack.encode sack

abbrev pub extension_type : Option SelectiveAck → ℕ
extension_type none = 0
extension_type (some sack) = 1

-- The low four bits of the first byte are the version.
pub encode : Packet → List ℕ
encode p =
    (to_byte p.packet_type * 2 ^ 4 + utp_version)
      ∷ extension_type p.selective_ack
      ∷ u16_bytes p.connection_id
    ++ u32_bytes p.timestamp_us
    ++ u32_bytes p.timestamp_diff_us
    ++ u32_bytes p.wnd_size
    ++ u16_bytes p.seq_nr
    ++ u16_bytes p.ack_nr
    ++ encode_extensions p.selective_ack
    ++ p.payload

-- The loop over the extensions: the offset behind the last, and the selective acknowledgement found.
pub extensions : ℕ → List ℕ → ℕ → ℕ → Option SelectiveAck → Result (ℕ × Option SelectiveAck)
extensions zero input next_ext offset sack = out_of_fuel
extensions (suc f) input next_ext offset sack =
    let ext_len = get_or input (offset + 1) 0 in
    let found : Option SelectiveAck =
      if next_ext == 1
      then some (record { bitmask = take ext_len (drop (offset + 2) input) })
      else sack in
    let rest = extensions f input (get_or input offset 0) (offset + 2 + ext_len) found in
    if not (next_ext == 0) && leb (offset + 2) (length input)
    then if ltb (length input) (offset + 2 + ext_len) then failed else rest
    else ok (offset, sack)

pub decode : List ℕ → Result Packet
unfolding extensions
decode input =
    if ltb (length input) header_size
    then failed
    else or_fail (try_from (get_or input 0 0 / 2 ^ 4)) >>= λ packet_type.
        (if not (get_or input 0 0 % 2 ^ 4 == utp_version)
          then failed
          else extensions (length input) input (get_or input 1 0) header_size none
            >>= λ (offset, sack). ok (record {
              packet_type = packet_type;
              connection_id = u16_from (get_or input 2 0) (get_or input 3 0);
              timestamp_us =
                  u32_from (get_or input 4 0) (get_or input 5 0) (get_or input 6 0)
                    (get_or input 7 0);
              timestamp_diff_us =
                  u32_from (get_or input 8 0) (get_or input 9 0) (get_or input 10 0)
                    (get_or input 11 0);
              wnd_size =
                  u32_from (get_or input 12 0) (get_or input 13 0) (get_or input 14 0)
                    (get_or input 15 0);
              seq_nr = u16_from (get_or input 16 0) (get_or input 17 0);
              ack_nr = u16_from (get_or input 18 0) (get_or input 19 0);
              selective_ack = sack;
              payload = drop offset input;
            }))

-- ===== src/Utp/Tests.antt =====
-- The packets of src/torrent/utp/packet.rs at concrete inputs.
use gosh_dl.Base.{◌≡◌, [], ◌∷◌, some, arith}
use gosh_dl.Base.Result.{ok}
use gosh_dl.Utp.Ack.{SelectiveAck}
use gosh_dl.Utp.Packet.{Packet, data_packet, encode, decode}
use gosh_dl.Utp.Packet.RoundTrip.{InRange, decode-encode}

abbrev sack : SelectiveAck
sack = record { bitmask = 128 ∷ 0 ∷ [] }

abbrev packet : Packet
packet = record {
  packet_type = data_packet;
  connection_id = 513;
  timestamp_us = 16909060;
  timestamp_diff_us = 7;
  wnd_size = 65536;
  seq_nr = 65535;
  ack_nr = 0;
  selective_ack = some sack;
  payload = 1 ∷ 2 ∷ [];
}

packet-InRange : InRange packet
packet-InRange = record {
  connection_id = omega arith;
  timestamp_us = omega arith;
  timestamp_diff_us = omega arith;
  wnd_size = omega arith;
  seq_nr = omega arith;
  ack_nr = omega arith;
  selective_ack = omega arith;
}

decode-encode_example : decode (encode packet) ≡ ok packet
decode-encode_example = decode-encode packet packet-InRange

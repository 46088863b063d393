-- ===== src/Utp/State.antt =====
-- src/torrent/utp/state.rs: the states of a connection, the packets that wait for an
-- acknowledgement, and the counters. An `Instant` is a number of microseconds.
use gosh_dl.Base.{ℕ, ◌+◌, ◌%◌, ◌^◌, Bool, true, false, List, length}
use gosh_dl.Utp.Packet.{PacketType, data_packet}

pub data ConnectionState : Type 0 where
  idle syn_sent syn_recv connected fin_sent closing closed was_reset timed_out : ConnectionState

abbrev pub can_send_data : ConnectionState → Bool
can_send_data connected = true
can_send_data fin_sent = true
can_send_data _ = false

abbrev pub can_receive_data : ConnectionState → Bool
can_receive_data connected = true
can_receive_data syn_recv = true
can_receive_data fin_sent = true
can_receive_data closing = true
can_receive_data _ = false

abbrev pub is_closed : ConnectionState → Bool
is_closed closed = true
is_closed was_reset = true
is_closed timed_out = true
is_closed _ = false

abbrev pub is_active : ConnectionState → Bool
is_active syn_sent = true
is_active syn_recv = true
is_active connected = true
is_active fin_sent = true
is_active closing = true
is_active _ = false

pub record PendingPacket : Type 0 where
  pub seq_nr : ℕ
  pub bytes : List ℕ
  pub payload : List ℕ
  pub first_sent : ℕ
  pub last_sent : ℕ
  pub retransmits : ℕ
  pub size : ℕ
  pub packet_type : PacketType

abbrev pub new_pending : ℕ → ℕ → List ℕ → List ℕ → PendingPacket
new_pending now seq_nr bytes payload = record {
  seq_nr = seq_nr;
  bytes = bytes;
  payload = payload;
  first_sent = now;
  last_sent = now;
  retransmits = 0;
  size = length bytes % 2 ^ 32;
  packet_type = data_packet;
}

abbrev pub mark_retransmit : ℕ → PendingPacket → PendingPacket
mark_retransmit now p = record p { last_sent = now; retransmits = p.retransmits + 1 }

pub record ConnectionStats : Type 0 where
  pub packets_sent : ℕ
  pub packets_received : ℕ
  pub bytes_sent : ℕ
  pub bytes_received : ℕ
  pub retransmits : ℕ

abbrev pub no_stats : ConnectionStats
no_stats = record {
  packets_sent = 0;
  packets_received = 0;
  bytes_sent = 0;
  bytes_received = 0;
  retransmits = 0;
}

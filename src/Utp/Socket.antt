-- ===== src/Utp/Socket.antt =====
-- src/torrent/utp/socket.rs: `UtpSocketInner`. What is sent stands encoded in `sent`; a send fails
-- when the channel to the multiplexer is closed. An operation gives whether it returned `Ok`, and the
-- socket after it, as an error leaves the changes made before it. The clock of a call, its time in
-- microseconds and the low 32 bits of the time of day, are an argument. The floating-point change of
-- the congestion window is a parameter, as in Congestion.
pub mod Receive
pub mod Process
pub mod Order
pub mod Window
pub mod Send
mod Tests
use gosh_dl.Base.{
  ℕ, zero, suc, ◌+◌, ◌-◌, ◌*◌, ◌%◌, ◌^◌, min, max, Bool, true, false, not, ◌&&◌, ◌||◌, List, [],
  ◌∷◌, ◌++◌, Option, none, some, if◌then◌else◌, ◌==◌, ltb, leb, length, take, drop, lookup, insert,
  remove, get_elem?,
}
use gosh_dl.Base.Int.{ℤ}
use gosh_dl.Utp.Ack
use gosh_dl.Utp.Ack.{SelectiveAck, is_acked, set_acked}
use gosh_dl.Utp.Packet
use gosh_dl.Utp.Packet.{
  Packet, PacketType, data_packet, fin_packet, state_packet, reset_packet, syn_packet,
  with_timestamps, with_window, with_selective_ack,
}
use gosh_dl.Utp.State.{
  ConnectionState, idle, syn_sent, syn_recv, connected, fin_sent, closing, closed, was_reset,
  timed_out, can_send_data, can_receive_data, PendingPacket, new_pending, mark_retransmit,
  ConnectionStats, no_stats,
}
use gosh_dl.Utp.Congestion
use gosh_dl.Utp.Congestion.{LedbatController, set_params, on_send, on_timeout, can_send, mss}

abbrev pub max_retransmits : ℕ
max_retransmits = 8

abbrev pub max_ooo_packets : ℕ
max_ooo_packets = 256

abbrev pub max_payload_size : ℕ
max_payload_size = 1380

pub record UtpConfig : Type 0 where
  pub enable_sack : Bool
  pub max_window_size : ℕ
  pub recv_window : ℕ
  pub target_delay_us : ℕ

pub record UtpSocket : Type 0 where
  pub sent : List (List ℕ)
  pub channel_open : Bool
  pub send_conn_id : ℕ
  pub recv_conn_id : ℕ
  pub connection_state : ConnectionState
  pub seq_nr : ℕ
  pub ack_nr : ℕ
  pub last_ack_sent : ℕ
  pub congestion : LedbatController
  pub pending_packets : List (ℕ × PendingPacket)
  pub ooo_packets : List (ℕ × List ℕ)
  pub recv_buffer : List ℕ
  pub recv_window : ℕ
  pub remote_window : ℕ
  pub reply_micro : ℕ
  pub pending_fin : Option ℕ
  pub stats : ConnectionStats
  pub config : UtpConfig
  pub fin_received : Bool
  pub fin_was_sent : Bool

pub record Clock : Type 0 where
  pub now : ℕ
  pub timestamp_us : ℕ

abbrev pub wrapping_add : ℕ → ℕ → ℕ
wrapping_add a b = (a + b) % 2 ^ 16

abbrev pub wrapping_sub : ℕ → ℕ → ℕ
wrapping_sub a b = (a + 2 ^ 16 - b) % 2 ^ 16

abbrev pub seq_before_eq : ℕ → ℕ → Bool
seq_before_eq a b = (wrapping_sub b a == 0) || ltb (wrapping_sub b a) 32768

abbrev pub seq_after : ℕ → ℕ → Bool
seq_after a b = ltb 0 (wrapping_sub a b) && ltb (wrapping_sub a b) 32768

abbrev pub same_type : PacketType → PacketType → Bool
same_type a b = Packet.to_byte a == Packet.to_byte b

abbrev pub new : ℕ → ℕ → ConnectionState → ℕ → ℕ → UtpConfig → UtpSocket
new send_conn_id recv_conn_id connection_state seq_nr ack_nr config = record {
  sent = [];
  channel_open = true;
  send_conn_id = send_conn_id;
  recv_conn_id = recv_conn_id;
  connection_state = connection_state;
  seq_nr = seq_nr;
  ack_nr = ack_nr;
  last_ack_sent = ack_nr;
  congestion = set_params config.max_window_size config.target_delay_us Congestion.new;
  pending_packets = [];
  ooo_packets = [];
  recv_buffer = [];
  recv_window = config.recv_window;
  remote_window = 64 * 1024;
  reply_micro = 0;
  pending_fin = none;
  stats = no_stats;
  config = config;
  fin_received = false;
  fin_was_sent = false;
}

abbrev pub new_outgoing : ℕ → UtpConfig → UtpSocket
new_outgoing conn_id config = new (wrapping_add conn_id 1) conn_id idle 1 0 config

-- The random sequence number is an argument.
abbrev pub new_incoming : ℕ → ℕ → ℕ → UtpConfig → UtpSocket
new_incoming random syn_conn_id peer_seq_nr config =
    new syn_conn_id (wrapping_add syn_conn_id 1) syn_recv (max random 1) peer_seq_nr config

abbrev pub available_recv_window : UtpSocket → ℕ
available_recv_window s = s.recv_window - length s.recv_buffer % 2 ^ 32

-- The out-of-order packets that a selective acknowledgement can name.
abbrev pub sack_of : ℕ → List (ℕ × List ℕ) → SelectiveAck → SelectiveAck
sack_of ack_nr [] sack = sack
sack_of ack_nr ((seq, payload) ∷ packets) sack =
    let offset = wrapping_sub (wrapping_sub seq ack_nr) 2 in
    sack_of ack_nr packets (if ltb offset 256 then set_acked sack offset else sack)

abbrev pub is_empty {ℓ} : {A : Type ℓ} → List A → Bool
is_empty [] = true
is_empty (_ ∷ _) = false

abbrev pub takes_seq_nr : PacketType → Bool
takes_seq_nr t = same_type t data_packet || same_type t syn_packet || same_type t fin_packet

-- The packet, and the socket with its next sequence number.
unfoldable pub build_packet : Clock → PacketType → List ℕ → UtpSocket → Packet × UtpSocket
build_packet clock pkt_type payload s =
    let conn_id = if same_type pkt_type syn_packet then s.recv_conn_id else s.send_conn_id in
    let s' = if takes_seq_nr pkt_type then record s { seq_nr = wrapping_add s.seq_nr 1 } else s in
    let pkt =
      with_window
        (with_timestamps (Packet.new pkt_type conn_id s.seq_nr s.ack_nr) clock.timestamp_us
          s.reply_micro)
        (available_recv_window s) in
    let sacked =
      if s.config.enable_sack && not (is_empty s.ooo_packets) && same_type pkt_type state_packet
      then with_selective_ack pkt (sack_of s.ack_nr s.ooo_packets (record { bitmask = [] }))
      else pkt in
    (record sacked { payload = payload }, s')

abbrev pub acks : PacketType → Bool
acks t = same_type t state_packet || same_type t data_packet || same_type t fin_packet

unfoldable pub send_packet_direct : Packet → UtpSocket → Bool × UtpSocket
send_packet_direct pkt s =
    if s.channel_open
    then (
      true,
      record s {
        sent = s.sent ++ (Packet.encode pkt ∷ []);
        stats = record s.stats {
          packets_sent = s.stats.packets_sent + 1;
          bytes_sent = s.stats.bytes_sent + length pkt.payload;
        };
        last_ack_sent = if acks pkt.packet_type then pkt.ack_nr else s.last_ack_sent;
      },
    )
    else (false, s)

-- `?`: what follows runs only after an `Ok`.
abbrev pub and_then : Bool × UtpSocket → (UtpSocket → Bool × UtpSocket) → Bool × UtpSocket
and_then (true, s) f = f s
and_then (false, s) f = (false, s)

abbrev pub track : Clock → Packet → UtpSocket → UtpSocket
track clock pkt s =
    let pending = record (new_pending clock.now pkt.seq_nr (Packet.encode pkt) pkt.payload) {
      packet_type = pkt.packet_type;
    } in
    record s {
      congestion = on_send pending.size s.congestion;
      pending_packets = insert pkt.seq_nr pending s.pending_packets;
    }

unfoldable pub send_packet : Clock → Packet → UtpSocket → Bool × UtpSocket
send_packet clock pkt s =
    and_then (send_packet_direct pkt s)
      (λ s'. (true, if takes_seq_nr pkt.packet_type then track clock pkt s' else s'))

-- The packet of a type without payload, sent as `send_packet_direct` does.
abbrev pub send_ack : Clock → UtpSocket → Bool × UtpSocket
send_ack clock s = let (ack, s') = build_packet clock state_packet [] s in send_packet_direct ack s'

unfoldable pub connect : Clock → UtpSocket → Bool × UtpSocket
connect clock s = elim s.connection_state [
  | idle ↦
      let (pkt, s') = build_packet clock syn_packet [] (record s { connection_state = syn_sent }) in
      send_packet clock pkt s'
  | _ ↦ (false, s)
]

unfoldable pub accept : Clock → UtpSocket → Bool × UtpSocket
accept clock s = elim s.connection_state [
  | syn_recv ↦
      and_then (send_ack clock s) (λ s'. (true, record s' { connection_state = connected }))
  | _ ↦ (false, s)
]

unfoldable pub close : Clock → UtpSocket → Bool × UtpSocket
close clock s =
    let (fin, s') = build_packet clock fin_packet [] (record s { fin_was_sent = true }) in
    elim s.connection_state [
      | connected ↦
          and_then (send_packet clock fin s')
            (λ s''. (true, record s'' { connection_state = fin_sent }))
      | closing ↦ if not s.fin_was_sent then send_packet clock fin s' else (true, s)
      | _ ↦ (true, s)
    ]

unfoldable pub maybe_send_ack : Clock → UtpSocket → Bool × UtpSocket
maybe_send_ack clock s =
    if not (s.ack_nr == s.last_ack_sent) && can_receive_data s.connection_state
    then send_ack clock s
    else (true, s)

-- The bytes read, and the socket without them.
unfoldable pub read_data : ℕ → UtpSocket → List ℕ × UtpSocket
read_data size s =
    let len = min size (length s.recv_buffer) in
    (take len s.recv_buffer, record s { recv_buffer = drop len s.recv_buffer })

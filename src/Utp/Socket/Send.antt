-- ===== src/Utp/Socket/Send.antt =====
-- src/torrent/utp/socket.rs: sending data within the windows, and the retransmission timer.
use gosh_dl.Base.{
  ℕ, zero, suc, ◌-◌, ◌+◌, max, Bool, true, false, not, ◌&&◌, List, [], ◌∷◌, none, some,
  if◌then◌else◌, ltb, leb, length, take, drop, lookup, insert, keep,
}
use gosh_dl.Utp.Packet
use gosh_dl.Utp.Packet.{Packet, data_packet, syn_packet, with_timestamps, with_window}
use gosh_dl.Utp.State.{timed_out, can_send_data, PendingPacket, mark_retransmit}
use gosh_dl.Utp.Congestion.{on_timeout, can_send, mss}
use gosh_dl.Utp.Socket.{
  UtpSocket, Clock, same_type, build_packet, send_packet_direct, send_packet, and_then,
  available_recv_window, max_retransmits, max_payload_size, is_empty,
}
use gosh_dl.Utp.Socket.Process.{keys}

-- Both windows have room, and there is data left.
abbrev pub may_send : List ℕ → UtpSocket → Bool
may_send rest s =
    not (is_empty rest)
    && (can_send s.congestion && ltb s.congestion.bytes_in_flight (max s.remote_window mss))

abbrev pub after_send :
    (List ℕ → UtpSocket → Bool × (List ℕ × UtpSocket))
    → List ℕ
    → Bool × UtpSocket
    → Bool × (List ℕ × UtpSocket)
after_send more rest (true, s) = more (drop max_payload_size rest) s
after_send more rest (false, s) = (false, (rest, s))

-- The loop of `send_data`, with the number of bytes left as fuel: whether it is `Ok`, and what is
-- left to send.
unfoldable pub send_chunks : ℕ → Clock → List ℕ → UtpSocket → Bool × (List ℕ × UtpSocket)
send_chunks zero clock rest s = (true, (rest, s))
send_chunks (suc fuel) clock rest s =
    let (pkt, s') = build_packet clock data_packet (take max_payload_size rest) s in
    let sent = after_send (send_chunks fuel clock) rest (send_packet clock pkt s') in
    if may_send rest s then sent else (true, (rest, s))

unfoldable pub send_data : Clock → List ℕ → UtpSocket → Bool × (List ℕ × UtpSocket)
unfolding send_chunks
send_data clock bytes s =
    if can_send_data s.connection_state
    then send_chunks (length bytes) clock bytes s
    else (false, (bytes, s))

-- A packet that was sent before, as its original type, with fresh times and acknowledgement.
unfoldable pub resent : Clock → PendingPacket → UtpSocket → Packet
resent clock p s =
    let conn_id = if same_type p.packet_type syn_packet then s.recv_conn_id else s.send_conn_id in
    record (with_window
      (with_timestamps (Packet.new p.packet_type conn_id p.seq_nr s.ack_nr) clock.timestamp_us
        s.reply_micro)
      (available_recv_window s)) { payload = p.payload }

abbrev pub mark_resent : Clock → ℕ → PendingPacket → UtpSocket → UtpSocket
mark_resent clock seq p s = record s {
  pending_packets = insert seq (mark_retransmit clock.now p) s.pending_packets;
  stats = record s.stats { retransmits = s.stats.retransmits + 1 };
}

unfoldable pub retransmit_one : Clock → ℕ → UtpSocket → Bool × UtpSocket
unfolding resent
retransmit_one clock seq s = elim (lookup seq s.pending_packets) [
  | none ↦ (true, s)
  | some p ↦
      if leb max_retransmits p.retransmits
      then (false, record s { connection_state = timed_out })
      else and_then (send_packet_direct (resent clock p s) s)
          (λ s'. (true, mark_resent clock seq p s'))
]

unfoldable pub retransmit_each : Clock → List ℕ → UtpSocket → Bool × UtpSocket
unfolding retransmit_one
retransmit_each clock [] s = (true, s)
retransmit_each clock (seq ∷ seqs) s =
    and_then (retransmit_one clock seq s) (retransmit_each clock seqs)

-- The packets that wait longer than the timeout.
abbrev pub overdue : Clock → UtpSocket → List ℕ
overdue clock s =
    keys (keep (λ (_, p). ltb s.congestion.rto_us (clock.now - p.last_sent)) s.pending_packets)

unfoldable pub check_retransmits : Clock → UtpSocket → Bool × UtpSocket
unfolding retransmit_each
check_retransmits clock s = and_then (retransmit_each clock (overdue clock s) s) (λ s'. (
  true,
  if is_empty (overdue clock s) then s' else record s' { congestion = on_timeout s'.congestion },
))

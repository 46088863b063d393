-- ===== src/Utp/Socket/Process.antt =====
-- src/torrent/utp/socket.rs: what a packet of the peer does to a socket, sending data, and the
-- retransmission timer. The floating-point change of the congestion window is a parameter.
pub mod Flight
pub mod Fin
pub mod Counted
use gosh_dl.Base.{
  ℕ, zero, suc, ◌+◌, ◌-◌, ◌*◌, ◌%◌, ◌^◌, min, max, Bool, true, false, not, ◌&&◌, ◌||◌, List, [],
  ◌∷◌, Option, none, some, if◌then◌else◌, ◌==◌, ltb, leb, length, take, drop, lookup, insert,
  remove, sort_by, keep, map,
}
use gosh_dl.Base.Int.{ℤ}
use gosh_dl.Utp.Ack.{SelectiveAck, is_acked}
use gosh_dl.Utp.Packet
use gosh_dl.Utp.Packet.{
  Packet, data_packet, fin_packet, state_packet, reset_packet, syn_packet, with_timestamps,
  with_window,
}
use gosh_dl.Utp.State.{
  ConnectionState, syn_sent, connected, fin_sent, closing, closed, was_reset, timed_out,
  can_send_data, can_receive_data, PendingPacket, mark_retransmit,
}
use gosh_dl.Utp.Congestion.{on_ack, on_timeout, can_send, mss}
use gosh_dl.Utp.Socket.{
  UtpSocket, Clock, wrapping_add, wrapping_sub, seq_before_eq, same_type, build_packet,
  send_packet_direct, send_packet, send_ack, and_then, available_recv_window, max_retransmits,
  max_payload_size, is_empty,
}
use gosh_dl.Utp.Socket.Receive.{receive_data}

-- The keys of a `BTreeMap`, in their order.
abbrev pub keys {ℓ} : {A : Type ℓ} → List (ℕ × A) → List ℕ
keys m = sort_by ltb (map (λ (k, _). k) m)

abbrev pub rtt_sample : ℕ → PendingPacket → Option ℕ
rtt_sample now p = if p.retransmits == 0 then some ((now - p.first_sent) % 2 ^ 32) else none

-- The sequence numbers that a mask acknowledges, from bit i on.
abbrev pub sacked : SelectiveAck → ℕ → ℕ → ℕ → List ℕ
sacked sack ack_nr i zero = []
sacked sack ack_nr i (suc n) =
    if is_acked sack i
    then wrapping_add (wrapping_add ack_nr 2) i ∷ sacked sack ack_nr (i + 1) n
    else sacked sack ack_nr (i + 1) n

abbrev pub sacked_seqs : Option SelectiveAck → ℕ → List ℕ
sacked_seqs none ack_nr = []
sacked_seqs (some sack) ack_nr = sacked sack ack_nr 0 (length sack.bitmask * 8)

-- What every packet does, in any state.
unfoldable pub note_packet : Clock → Packet → UtpSocket → UtpSocket
note_packet clock pkt s = record s {
  remote_window =
      if ltb 0 pkt.wnd_size
        || (same_type pkt.packet_type state_packet || same_type pkt.packet_type data_packet)
      then pkt.wnd_size
      else s.remote_window;
  stats = record s.stats { packets_received = s.stats.packets_received + 1 };
  reply_micro =
      if pkt.timestamp_us == 0
      then s.reply_micro
      else (clock.timestamp_us + 2 ^ 32 - pkt.timestamp_us) % 2 ^ 32;
}

-- A FIN takes effect in order, or is kept until then.
unfoldable pub receive_fin : Bool → ℕ → UtpSocket → UtpSocket
receive_fin had_payload seq_nr s =
    if not had_payload && (seq_nr == wrapping_add s.ack_nr 1)
    then record s { ack_nr = seq_nr; fin_received = true }
    else record s { pending_fin = some seq_nr }

unfoldable pub reach_pending : Option ℕ → UtpSocket → UtpSocket
reach_pending none s = s
reach_pending (some seq) s =
    if (seq == wrapping_add s.ack_nr 1) || (seq == s.ack_nr)
    then record s { ack_nr = seq; fin_received = true; pending_fin = none }
    else s

abbrev pub reach_fin : UtpSocket → UtpSocket
reach_fin s = reach_pending s.pending_fin s

-- The payload and the FIN of a packet.
unfoldable pub take_in : Packet → UtpSocket → UtpSocket
unfolding receive_fin reach_pending receive_data
take_in pkt s =
    let is_data = same_type pkt.packet_type data_packet in
    let is_fin = same_type pkt.packet_type fin_packet in
    let had_payload = not (is_empty pkt.payload) in
    let s' =
      if (is_data || is_fin) && had_payload then receive_data pkt.seq_nr pkt.payload s else s in
    reach_fin (if is_fin then receive_fin had_payload pkt.seq_nr s' else s')

-- A FIN that was reached is acknowledged promptly.
unfoldable pub answer_fin : Clock → UtpSocket → Bool × UtpSocket
answer_fin clock s =
    if s.fin_received
    then and_then (send_ack clock s)
        (λ s'. (true, record s' { connection_state = if s'.fin_was_sent then closed else closing }))
    else (true, s)

unfoldable pub answer_data : Clock → Packet → UtpSocket → Bool × UtpSocket
answer_data clock pkt s =
    if same_type pkt.packet_type data_packet && can_receive_data s.connection_state
    then send_ack clock s
    else (true, s)

-- "Our FIN fully acknowledged?"
abbrev pub settle_in : ConnectionState → UtpSocket → UtpSocket
settle_in fin_sent s =
    if s.fin_was_sent && is_empty s.pending_packets
    then record s { connection_state = if s.fin_received then closed else fin_sent }
    else s
settle_in _ s = s

abbrev pub settle : UtpSocket → UtpSocket
settle s = settle_in s.connection_state s

module _ (cwnd_delta : ℕ → ℕ → ℕ → ℕ → ℤ) where
  -- `pending_packets.remove(&seq)`, and the acknowledgement if the packet was there.
  unfoldable pub ack_one : ℕ → ℕ → (PendingPacket → Option ℕ) → ℕ → UtpSocket → UtpSocket
  ack_one now delay_us rtt seq s = elim (lookup seq s.pending_packets) [
    | none ↦ s
    | some p ↦ record s {
      pending_packets = remove seq s.pending_packets;
      congestion = on_ack cwnd_delta now p.size delay_us (rtt p) s.congestion;
    }
  ]

  unfoldable pub ack_each : ℕ → ℕ → (PendingPacket → Option ℕ) → List ℕ → UtpSocket → UtpSocket
  unfolding ack_one
  ack_each now delay_us rtt [] s = s
  ack_each now delay_us rtt (seq ∷ seqs) s =
      ack_each now delay_us rtt seqs (ack_one now delay_us rtt seq s)

  unfoldable pub process_acks : ℕ → ℕ → Option SelectiveAck → ℕ → UtpSocket → UtpSocket
  unfolding ack_each
  process_acks now ack_nr sack delay_us s =
      ack_each now delay_us (λ _. none) (sacked_seqs sack ack_nr)
        (ack_each now delay_us (rtt_sample now)
          (keep (λ seq. seq_before_eq seq ack_nr) (keys s.pending_packets)) s)

  abbrev pub acks_of : Clock → Packet → UtpSocket → UtpSocket
  acks_of clock pkt s = process_acks clock.now pkt.ack_nr pkt.selective_ack pkt.timestamp_diff_us s

  unfoldable pub process_connected : Clock → Packet → UtpSocket → Bool × UtpSocket
  unfolding answer_fin answer_data process_acks take_in
  process_connected clock pkt s =
      if same_type pkt.packet_type reset_packet
      then (true, record s { connection_state = was_reset })
      else if same_type pkt.packet_type syn_packet
      then send_ack clock s
      else and_then
          (and_then (answer_fin clock (take_in pkt (acks_of clock pkt s))) (answer_data clock pkt))
          (λ s'. (true, settle s'))

  -- The answer to our SYN: the peer's next number is the one given, so its last is one less.
  unfoldable pub process_syn_sent : Clock → Packet → UtpSocket → UtpSocket
  unfolding process_acks
  process_syn_sent clock pkt s =
      if same_type pkt.packet_type state_packet
      then record (acks_of clock pkt (record s {
        ack_nr = wrapping_sub pkt.seq_nr 1;
        last_ack_sent = wrapping_sub pkt.seq_nr 1;
      })) { connection_state = connected }
      else if same_type pkt.packet_type reset_packet
      then record s { connection_state = was_reset }
      else s

  unfoldable pub process_closing : Clock → Packet → UtpSocket → UtpSocket
  unfolding process_acks
  process_closing clock pkt s =
      let s' = acks_of clock pkt s in
      if same_type pkt.packet_type reset_packet
      then record s { connection_state = was_reset }
      else if is_empty s'.pending_packets && s'.fin_was_sent
      then record s' { connection_state = closed }
      else s'

  unfoldable pub process_in : ConnectionState → Clock → Packet → UtpSocket → Bool × UtpSocket
  unfolding process_connected process_syn_sent process_closing
  process_in syn_sent clock pkt s = (true, process_syn_sent clock pkt s)
  process_in connected clock pkt s = process_connected clock pkt s
  process_in fin_sent clock pkt s = process_connected clock pkt s
  process_in closing clock pkt s = (true, process_closing clock pkt s)
  process_in _ clock pkt s = (true, s)

  unfoldable pub process_packet : Clock → Packet → UtpSocket → Bool × UtpSocket
  unfolding process_in note_packet
  process_packet clock pkt s = process_in s.connection_state clock pkt (note_packet clock pkt s)

-- ===== src/Utp/Socket/Process/Fin.antt =====
-- src/torrent/utp/socket.rs: a FIN with a payload that does not fit the receive window.
use gosh_dl.Base.{
  ℕ, ◌+◌, ◌<◌, ◌≡◌, refl, ap, ◌∙◌, inl, inr, Bool, Bool-cases, Option-cases, Option, not, ◌&&◌,
  ◌++◌, if◌then◌else◌, lookup, remove, keep, true, false, List, [], ◌∷◌, none, arith, length, ◌==◌,
  if_true, if_false, ◌||◌,
}
use gosh_dl.Utp.Packet
use gosh_dl.Utp.Packet.{Packet, data_packet, fin_packet, state_packet, reset_packet, syn_packet}
use gosh_dl.Utp.Socket.{
  UtpSocket, Clock, wrapping_add, same_type, is_empty, build_packet, send_packet_direct, send_ack,
  and_then, acks, seq_before_eq,
}
use gosh_dl.Utp.Socket.Receive.{receive_data, buffered_bytes, fits_recv_window}
use gosh_dl.Base.Int.{ℤ}
use gosh_dl.Utp.State.{ConnectionState, connected, closing, closed, PendingPacket}
use gosh_dl.Utp.Congestion.{LedbatController, on_ack}
use gosh_dl.Utp.Socket.Process.{
  take_in, receive_fin, reach_pending, reach_fin, ack_one, ack_each, acks_of, process_acks,
  rtt_sample, sacked_seqs, keys, note_packet, answer_fin, answer_data, settle, settle_in,
  process_connected, process_closing, process_in, process_packet,
}

not_empty : (xs : List ℕ) → 0 < length xs → is_empty xs ≡ false
not_empty [] h = absurd (omega arith)
not_empty (x ∷ xs) h = refl

receive_data_full :
    (seq : ℕ) (payload : List ℕ) (s : UtpSocket)
    → seq ≡ wrapping_add s.ack_nr 1
    → s.recv_window < buffered_bytes s + length payload
    → receive_data seq payload s ≡ s
unfolding receive_data
receive_data_full seq payload s e w =
    let now : (seq == wrapping_add s.ack_nr 1) ≡ true = ground (arith, e) in
    let full : fits_recv_window s (length payload) ≡ false = ground (arith, w) in
    if_true (seq == wrapping_add s.ack_nr 1) _ _ now
    ∙ if_false (fits_recv_window s (length payload)) _ s full

-- What is kept of a FIN with a payload takes effect at once when it comes next.
fin_next :
    (seq : ℕ) (s : UtpSocket)
    → seq ≡ wrapping_add s.ack_nr 1
    → reach_fin (receive_fin true seq s)
      ≡ record s { ack_nr = seq; fin_received = true; pending_fin = none }
unfolding receive_fin reach_pending
fin_next seq s e =
    let next : ((seq == wrapping_add s.ack_nr 1) || (seq == s.ack_nr)) ≡ true = ground (arith, e) in
    if_true ((seq == wrapping_add s.ack_nr 1) || (seq == s.ack_nr)) _ _ next

take_in_fin :
    (pkt : Packet) (s : UtpSocket)
    → pkt.packet_type ≡ fin_packet
    → 0 < length pkt.payload
    → take_in pkt s
      ≡ reach_fin (receive_fin true pkt.seq_nr (receive_data pkt.seq_nr pkt.payload s))
unfolding take_in
take_in_fin pkt s t p =
    let is_data : same_type pkt.packet_type data_packet ≡ false = rw t refl in
    let is_fin : same_type pkt.packet_type fin_packet ≡ true = rw t refl in
    let had : is_empty pkt.payload ≡ false = not_empty pkt.payload p in
    rw (is_data, is_fin, had) refl

-- A FIN that comes next and carries a payload for which there is no room takes effect without it.
fin_taken :
    (pkt : Packet) (s : UtpSocket)
    → pkt.packet_type ≡ fin_packet
    → pkt.seq_nr ≡ wrapping_add s.ack_nr 1
    → 0 < length pkt.payload
    → s.recv_window < buffered_bytes s + length pkt.payload
    → take_in pkt s ≡ record s { ack_nr = pkt.seq_nr; fin_received = true; pending_fin = none }
fin_taken pkt s t e p w =
    take_in_fin pkt s t p
    ∙ ap (λ r. reach_fin (receive_fin true pkt.seq_nr r))
        (receive_data_full pkt.seq_nr pkt.payload s e w)
    ∙ fin_next pkt.seq_nr s e

-- The acknowledgement that is sent names the last packet in order.
build_packet_ack :
    (clock : Clock) (s : UtpSocket)
    → let (ack, after) = build_packet clock state_packet [] s in
      (ack.packet_type ≡ state_packet) × (ack.ack_nr ≡ s.ack_nr) × (after ≡ s)
unfolding build_packet Packet.new Packet.with_timestamps Packet.with_window
    Packet.with_selective_ack
build_packet_ack clock s =
    elim (Bool-cases (s.config.enable_sack && not (is_empty s.ooo_packets))) [
      | inl sacks ↦ rw sacks (refl, refl, refl)
      | inr none_sacked ↦ rw none_sacked (refl, refl, refl)
    ]

-- The socket after an acknowledgement was sent.
abbrev pub acked : Clock → UtpSocket → UtpSocket
acked clock s =
    let ack = (build_packet clock state_packet [] s).0 in
    record s {
      sent = s.sent ++ (Packet.encode ack ∷ []);
      stats = record s.stats {
        packets_sent = s.stats.packets_sent + 1;
        bytes_sent = s.stats.bytes_sent + length ack.payload;
      };
      last_ack_sent = if acks ack.packet_type then ack.ack_nr else s.last_ack_sent;
    }

send_ack_open :
    (clock : Clock) (s : UtpSocket)
    → s.channel_open ≡ true
    → send_ack clock s ≡ (true, acked clock s)
unfolding send_packet_direct build_packet
send_ack_open clock s o = if_true s.channel_open _ _ o

recv_buffer_choice :
    (b : Bool) (st : ConnectionState) (s : UtpSocket)
    → (if b then record s { connection_state = st } else s).recv_buffer ≡ s.recv_buffer
recv_buffer_choice true st s = refl
recv_buffer_choice false st s = refl

module _ (cwnd_delta : ℕ → ℕ → ℕ → ℕ → ℤ) where
  -- What acknowledgements of the peer change: only the packets in flight and the congestion controller.
  abbrev FlightOnly : UtpSocket → UtpSocket → Type 0
  FlightOnly s t =
      (p : List (ℕ × PendingPacket)) × ((c : LedbatController) × (t
          ≡ record s { pending_packets = p; congestion = c }))

  ack_one-FlightOnly :
      (now delay : ℕ) (rtt : PendingPacket → Option ℕ) (seq : ℕ) (s : UtpSocket)
      → FlightOnly s (ack_one cwnd_delta now delay rtt seq s)
  unfolding ack_one
  ack_one-FlightOnly now delay rtt seq s = elim (Option-cases (lookup seq s.pending_packets)) [
    | inl none_there ↦ (s.pending_packets, (s.congestion, rw (ack_one, none_there) refl))
    | inr (q, there) ↦ (
      remove seq s.pending_packets,
      (on_ack cwnd_delta now q.size delay (rtt q) s.congestion, rw (ack_one, there) refl),
    )
  ]

  ack_each-FlightOnly :
      (now delay : ℕ) (rtt : PendingPacket → Option ℕ) (seqs : List ℕ) (s : UtpSocket)
      → FlightOnly s (ack_each cwnd_delta now delay rtt seqs s)
  unfolding ack_each
  ack_each-FlightOnly now delay rtt [] s = (s.pending_packets, (s.congestion, refl))
  ack_each-FlightOnly now delay rtt (seq ∷ seqs) s =
      let (_, (_, one)) = ack_one-FlightOnly now delay rtt seq s in
      let (p, (c, e)) =
        ack_each-FlightOnly now delay rtt seqs (ack_one cwnd_delta now delay rtt seq s) in
      (p, (c, e ∙ ap (λ (t : UtpSocket). record t { pending_packets = p; congestion = c }) one))

  acks_of-FlightOnly :
      (clock : Clock) (pkt : Packet) (s : UtpSocket) → FlightOnly s (acks_of cwnd_delta clock pkt s)
  unfolding process_acks
  acks_of-FlightOnly clock pkt s =
      let first =
        ack_each cwnd_delta clock.now pkt.timestamp_diff_us (rtt_sample clock.now)
          (keep (λ seq. seq_before_eq seq pkt.ack_nr) (keys s.pending_packets)) s in
      let (p, (c, e)) =
        ack_each-FlightOnly clock.now pkt.timestamp_diff_us (rtt_sample clock.now)
          (keep (λ seq. seq_before_eq seq pkt.ack_nr) (keys s.pending_packets)) s in
      let (p', (c', e')) =
        ack_each-FlightOnly clock.now pkt.timestamp_diff_us (λ _. none)
          (sacked_seqs pkt.selective_ack pkt.ack_nr) first in
      (p', (c', e' ∙ ap (λ (t : UtpSocket). record t { pending_packets = p'; congestion = c' }) e))

  -- The socket after a FIN took effect.
  abbrev ended : Packet → UtpSocket → UtpSocket
  ended pkt s = record s { ack_nr = pkt.seq_nr; fin_received = true; pending_fin = none }

  abbrev state_after_fin : Bool → ConnectionState
  state_after_fin was_sent = if was_sent then closed else closing

  settle_after_fin :
      (was_sent : Bool) (s : UtpSocket)
      → s.connection_state ≡ state_after_fin was_sent
      → settle s ≡ s
  settle_after_fin true s e = ap (λ st. settle_in st s) e
  settle_after_fin false s e = ap (λ st. settle_in st s) e

  not_data :
      (clock : Clock) (pkt : Packet) (s : UtpSocket)
      → pkt.packet_type ≡ fin_packet
      → answer_data clock pkt s ≡ (true, s)
  unfolding answer_data
  not_data clock pkt s t =
      let is_data : same_type pkt.packet_type data_packet ≡ false = rw t refl in rw is_data refl

  answer_ended :
      (clock : Clock) (pkt : Packet) (s : UtpSocket)
      → s.channel_open ≡ true
      → answer_fin clock (ended pkt s) ≡ (
        true,
        record (acked clock (ended pkt s)) { connection_state = state_after_fin s.fin_was_sent },
      )
  unfolding answer_fin
  answer_ended clock pkt s o =
      ap
        (λ r. and_then r (λ s'.
          (true, record s' { connection_state = if s'.fin_was_sent then closed else closing })))
        (send_ack_open clock (ended pkt s) o)

  process_connected_fin :
      (clock : Clock) (pkt : Packet) (s : UtpSocket)
      → pkt.packet_type ≡ fin_packet
      → pkt.seq_nr ≡ wrapping_add s.ack_nr 1
      → 0 < length pkt.payload
      → s.recv_window < buffered_bytes s + length pkt.payload
      → s.channel_open ≡ true
      → (p : List (ℕ × PendingPacket)) × ((c : LedbatController) × (process_connected cwnd_delta
              clock pkt s
            ≡ (
              true,
              record (acked clock (ended pkt (record s { pending_packets = p; congestion = c }))) {
                connection_state = state_after_fin s.fin_was_sent;
              },
            )))
  unfolding process_connected
  process_connected_fin clock pkt s t e b w o =
      let is_reset : same_type pkt.packet_type reset_packet ≡ false = rw t refl in
      let is_syn : same_type pkt.packet_type syn_packet ≡ false = rw t refl in
      let (p, (c, only)) = acks_of-FlightOnly clock pkt s in
      let s' = record s { pending_packets = p; congestion = c } in
      let after = record (acked clock (ended pkt s')) {
        connection_state = state_after_fin s.fin_was_sent;
      } in
      let rest = λ (r : Bool × UtpSocket).
        and_then (and_then r (answer_data clock pkt)) (λ t. (true, settle t)) in
      (
        p,
        (
          c,
          if_false (same_type pkt.packet_type reset_packet) _ _ is_reset
              ∙ if_false (same_type pkt.packet_type syn_packet) _ _ is_syn
              ∙ ap (λ t. rest (answer_fin clock t))
                  (ap (take_in pkt) only ∙ fin_taken pkt s' t e b w)
              ∙ ap rest (answer_ended clock pkt s' o)
              ∙ ap (λ r. and_then r (λ t. (true, settle t))) (not_data clock pkt after t)
              ∙ ap (λ t. (true, t)) (settle_after_fin s.fin_was_sent after refl),
        ),
      )

  -- Once the peer's FIN took effect, no packet brings the reader anything.
  process_ended :
      (was_sent : Bool) (clock : Clock) (pkt : Packet) (s : UtpSocket)
      → s.connection_state ≡ state_after_fin was_sent
      → (process_packet cwnd_delta clock pkt s).1.recv_buffer ≡ s.recv_buffer
  unfolding process_packet process_in process_closing note_packet
  process_ended true clock pkt s e =
      ap (λ st. (process_in cwnd_delta st clock pkt (note_packet clock pkt s)).1.recv_buffer) e
  process_ended false clock pkt s e =
      let noted = note_packet clock pkt s in
      let (p, (c, only)) = acks_of-FlightOnly clock pkt noted in
      let kept = ap (λ (t : UtpSocket). t.recv_buffer) only in
      let s' = acks_of cwnd_delta clock pkt noted in
      ap (λ st. (process_in cwnd_delta st clock pkt noted).1.recv_buffer) e
      ∙ elim (Bool-cases (same_type pkt.packet_type reset_packet)) [
        | inl resets ↦
            ap (λ (t : UtpSocket). t.recv_buffer)
              (if_true (same_type pkt.packet_type reset_packet) _ _ resets)
        | inr other ↦
            ap (λ (t : UtpSocket). t.recv_buffer)
              (if_false (same_type pkt.packet_type reset_packet) _ _ other)
            ∙ recv_buffer_choice (is_empty s'.pending_packets && s'.fin_was_sent) closed s'
            ∙ kept
      ]

  -- A FIN that comes next to a connected socket, with a payload for which there is no room, is
  -- acknowledged: the packet that is sent names it. The reader gets nothing, then or from whatever packet
  -- comes next, be it the same FIN.
  pub fin_payload_lost :
      (clock later : Clock) (pkt after_it : Packet) (s : UtpSocket)
      → s.connection_state ≡ connected
      → s.channel_open ≡ true
      → pkt.packet_type ≡ fin_packet
      → pkt.seq_nr ≡ wrapping_add s.ack_nr 1
      → 0 < length pkt.payload
      → s.recv_window < buffered_bytes s + length pkt.payload
      → let (fine, t) = process_packet cwnd_delta clock pkt s in
        (fine ≡ true)
        × ((ack : Packet) × (ack.packet_type ≡ state_packet)
            × (ack.ack_nr ≡ pkt.seq_nr)
            × (t.sent ≡ s.sent ++ (Packet.encode ack ∷ [])))
        × (t.fin_received ≡ true)
        × (t.recv_buffer ≡ s.recv_buffer)
        × ((process_packet cwnd_delta later after_it t).1.recv_buffer ≡ s.recv_buffer)
  unfolding process_packet process_in note_packet
  fin_payload_lost clock later pkt after_it s st o ty e b w =
      let noted = note_packet clock pkt s in
      let (p, (c, done)) = process_connected_fin clock pkt noted ty e b w o in
      let ended_socket = ended pkt (record noted { pending_packets = p; congestion = c }) in
      let result = ap (λ st. process_in cwnd_delta st clock pkt noted) st ∙ done in
      let (kind, names, same) = build_packet_ack clock ended_socket in
      let kept = ap (λ (r : Bool × UtpSocket). r.1.recv_buffer) result in
      (
        ap (λ (r : Bool × UtpSocket). r.0) result,
        (
          (build_packet clock state_packet [] ended_socket).0,
          kind,
          names,
          ap (λ (r : Bool × UtpSocket). r.1.sent) result,
        ),
        ap (λ (r : Bool × UtpSocket). r.1.fin_received) result,
        kept,
        process_ended s.fin_was_sent later after_it (process_packet cwnd_delta clock pkt s).1
              (ap (λ (r : Bool × UtpSocket). r.1.connection_state) result)
            ∙ kept,
      )

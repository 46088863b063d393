-- ===== src/Utp/Socket/Process/Counted.antt =====
-- src/torrent/utp/socket.rs: every packet that is processed or sent keeps the count of the bytes in
-- flight.
use gosh_dl.Base.{
  ℕ, zero, suc, ◌≡◌, refl, ap, sym, ◌∙◌, subst, Bool, true, false, not, ◌&&◌, ◌||◌, List, Option,
  none, some, if◌then◌else◌, ◌==◌, ltb, lookup, inl, inr, Bool-cases, Option-cases, length, IsMap,
}
use gosh_dl.Base.Int.{ℤ}
use gosh_dl.Utp.Packet.{Packet, data_packet, fin_packet, state_packet, reset_packet, syn_packet}
use gosh_dl.Utp.State.{ConnectionState, syn_sent, connected, fin_sent, closing, can_receive_data}
use gosh_dl.Utp.Socket.{
  UtpSocket, Clock, build_packet, send_packet_direct, send_ack, and_then, same_type, wrapping_add,
  wrapping_sub, seq_after, max_ooo_packets, is_empty,
}
use gosh_dl.Utp.Socket.Receive.{append_data, deliver, receive_data, fits_recv_window}
use gosh_dl.Utp.Socket.Process.{
  note_packet, receive_fin, reach_fin, reach_pending, settle_in, process_in, process_syn_sent,
  process_closing, acks_of, take_in, answer_fin, answer_data, process_connected, process_packet,
}
use gosh_dl.Utp.Socket.Process.Flight.{pending_bytes, IsCounted, process_acks-IsCounted}

-- The packets that wait, and the controller, are as before.
record Keeps (s s' : UtpSocket) : Type 0 where
  congestion : s'.congestion ≡ s.congestion
  pending : s'.pending_packets ≡ s.pending_packets

same : (s : UtpSocket) → Keeps s s
same s = record { congestion = refl; pending = refl }

then-Keeps : (s s' s'' : UtpSocket) → Keeps s s' → Keeps s' s'' → Keeps s s''
then-Keeps s s' s'' k l = record {
  congestion = l.congestion ∙ k.congestion;
  pending = l.pending ∙ k.pending;
}

Keeps-IsCounted : (s s' : UtpSocket) → Keeps s s' → IsCounted s → IsCounted s'
Keeps-IsCounted s s' k h = record {
  in_flight =
      ap (λ l. l.bytes_in_flight) k.congestion ∙ h.in_flight ∙ ap pending_bytes (sym k.pending);
  distinct = subst IsMap (sym k.pending) h.distinct;
}

deliver-Keeps : (fuel : ℕ) (s : UtpSocket) → Keeps s (deliver fuel s)
unfolding deliver
deliver-Keeps zero s = same s
deliver-Keeps (suc fuel) s = elim (Option-cases (lookup (wrapping_add s.ack_nr 1) s.ooo_packets)) [
  | inl e ↦ rw (e, deliver) (same s)
  | inr (payload, e) ↦
      let k = deliver-Keeps fuel _ in
      rw (e, deliver) (record { congestion = k.congestion; pending = k.pending })
]

receive_data-Keeps :
    (seq : ℕ) (payload : List ℕ) (s : UtpSocket) → Keeps s (receive_data seq payload s)
unfolding receive_data
receive_data-Keeps seq payload s =
    let next = wrapping_add s.ack_nr 1 in
    elim (Bool-cases (seq == next)) [
      | inl now ↦ elim (Bool-cases (fits_recv_window s (length payload))) [
        | inl room ↦
            let k = deliver-Keeps (length s.ooo_packets) (append_data seq payload s) in
            rw (now, room) (record { congestion = k.congestion; pending = k.pending })
        | inr full ↦ rw (now, full) (same s)
      ]
      | inr other ↦
          elim (Bool-cases (
            seq_after seq next
            && (ltb (length s.ooo_packets) max_ooo_packets
                && fits_recv_window s (length payload)))) [
                  | inl kept ↦ rw (other, kept) (record { congestion = refl; pending = refl })
                  | inr dropped ↦ rw (other, dropped) (same s)
                ]
    ]

receive_fin-Keeps : (b : Bool) (seq : ℕ) (s : UtpSocket) → Keeps s (receive_fin b seq s)
unfolding receive_fin
receive_fin-Keeps b seq s = elim (Bool-cases (not b && (seq == wrapping_add s.ack_nr 1))) [
  | inl h ↦ rw h (record { congestion = refl; pending = refl })
  | inr h ↦ rw h (record { congestion = refl; pending = refl })
]

reach_pending-Keeps : (fin : Option ℕ) (s : UtpSocket) → Keeps s (reach_pending fin s)
unfolding reach_pending
reach_pending-Keeps none s = same s
reach_pending-Keeps (some seq) s =
    elim (Bool-cases ((seq == wrapping_add s.ack_nr 1) || (seq == s.ack_nr))) [
      | inl h ↦ rw h (record { congestion = refl; pending = refl })
      | inr h ↦ rw h (same s)
    ]

if-Keeps : (b : Bool) (s x y : UtpSocket) → Keeps s x → Keeps s y → Keeps s (if b then x else y)
if-Keeps true s x y k l = k
if-Keeps false s x y k l = l

take_in-Keeps : (pkt : Packet) (s : UtpSocket) → Keeps s (take_in pkt s)
unfolding take_in
take_in-Keeps pkt s =
    let is_data = same_type pkt.packet_type data_packet in
    let is_fin = same_type pkt.packet_type fin_packet in
    let had_payload = not (is_empty pkt.payload) in
    let s' =
      if (is_data || is_fin) && had_payload then receive_data pkt.seq_nr pkt.payload s else s in
    let s'' = if is_fin then receive_fin had_payload pkt.seq_nr s' else s' in
    let k : Keeps s s' =
      if-Keeps ((is_data || is_fin) && had_payload) s _ s
        (receive_data-Keeps pkt.seq_nr pkt.payload s) (same s) in
    let l : Keeps s' s'' =
      if-Keeps is_fin s' _ s' (receive_fin-Keeps had_payload pkt.seq_nr s') (same s') in
    then-Keeps s s'' (reach_fin s'') (then-Keeps s s' s'' k l)
      (reach_pending-Keeps s''.pending_fin s'')

send_ack-Keeps : (clock : Clock) (s : UtpSocket) → Keeps s (send_ack clock s).1
unfolding build_packet send_packet_direct
send_ack-Keeps clock s = elim (Bool-cases s.channel_open) [
  | inl h ↦ rw h (record { congestion = refl; pending = refl })
  | inr h ↦ rw h (record { congestion = refl; pending = refl })
]

-- An operation that keeps what a socket counts, whether it is `Ok` or not.
and_then-Keeps :
    (s : UtpSocket) (r : Bool × UtpSocket) (f : UtpSocket → Bool × UtpSocket)
    → Keeps s r.1
    → ((s' : UtpSocket) → Keeps s' (f s').1)
    → Keeps s (and_then r f).1
and_then-Keeps s (true, s') f k l = then-Keeps s s' _ k (l s')
and_then-Keeps s (false, s') f k l = k

-- A choice between two operations.
either-Keeps :
    (b : Bool) (s : UtpSocket) (x y : Bool × UtpSocket)
    → Keeps s x.1
    → Keeps s y.1
    → Keeps s (if b then x else y).1
either-Keeps true s x y k l = k
either-Keeps false s x y k l = l

answer_fin-Keeps : (clock : Clock) (s : UtpSocket) → Keeps s (answer_fin clock s).1
unfolding answer_fin
answer_fin-Keeps clock s =
    either-Keeps s.fin_received s _ (true, s)
      (and_then-Keeps s (send_ack clock s) _ (send_ack-Keeps clock s)
        (λ s'. record { congestion = refl; pending = refl }))
      (same s)

answer_data-Keeps :
    (clock : Clock) (pkt : Packet) (s : UtpSocket) → Keeps s (answer_data clock pkt s).1
unfolding answer_data
answer_data-Keeps clock pkt s =
    either-Keeps (same_type pkt.packet_type data_packet && can_receive_data s.connection_state) s
      (send_ack clock s) (true, s) (send_ack-Keeps clock s) (same s)

settle_in-Keeps : (state : ConnectionState) (s : UtpSocket) → Keeps s (settle_in state s)
settle_in-Keeps fin_sent s =
    if-Keeps (s.fin_was_sent && is_empty s.pending_packets) s _ s
      (record { congestion = refl; pending = refl }) (same s)
settle_in-Keeps _ s = same s

choose-IsCounted :
    (b : Bool) (x y : Bool × UtpSocket)
    → IsCounted x.1
    → IsCounted y.1
    → IsCounted (if b then x else y).1
choose-IsCounted true x y h k = h
choose-IsCounted false x y h k = k

if-IsCounted :
    (b : Bool) (x y : UtpSocket) → IsCounted x → IsCounted y → IsCounted (if b then x else y)
if-IsCounted true x y h k = h
if-IsCounted false x y h k = k

module _ (cwnd_delta : ℕ → ℕ → ℕ → ℕ → ℤ) where
  process_connected-IsCounted :
      (clock : Clock) (pkt : Packet) (s : UtpSocket)
      → IsCounted s
      → IsCounted (process_connected cwnd_delta clock pkt s).1
  unfolding process_connected
  process_connected-IsCounted clock pkt s h =
      let counted =
        process_acks-IsCounted cwnd_delta clock.now pkt.ack_nr pkt.selective_ack
          pkt.timestamp_diff_us s h in
      let acked = acks_of cwnd_delta clock pkt s in
      let k =
        and_then-Keeps acked
          (and_then (answer_fin clock (take_in pkt acked)) (answer_data clock pkt)) _
          (and_then-Keeps acked (answer_fin clock (take_in pkt acked)) (answer_data clock pkt)
            (then-Keeps acked (take_in pkt acked) _ (take_in-Keeps pkt acked)
              (answer_fin-Keeps clock (take_in pkt acked)))
            (answer_data-Keeps clock pkt))
          (λ s'. settle_in-Keeps s'.connection_state s') in
      choose-IsCounted (same_type pkt.packet_type reset_packet) _ _
        (Keeps-IsCounted s _ (record { congestion = refl; pending = refl }) h)
        (choose-IsCounted (same_type pkt.packet_type syn_packet) _ _
          (Keeps-IsCounted s _ (send_ack-Keeps clock s) h) (Keeps-IsCounted acked _ k counted))

  acks_of-IsCounted :
      (clock : Clock) (pkt : Packet) (s : UtpSocket)
      → IsCounted s
      → IsCounted (acks_of cwnd_delta clock pkt s)
  acks_of-IsCounted clock pkt s h =
      process_acks-IsCounted cwnd_delta clock.now pkt.ack_nr pkt.selective_ack pkt.timestamp_diff_us
        s h

  process_syn_sent-IsCounted :
      (clock : Clock) (pkt : Packet) (s : UtpSocket)
      → IsCounted s
      → IsCounted (process_syn_sent cwnd_delta clock pkt s)
  unfolding process_syn_sent
  process_syn_sent-IsCounted clock pkt s h =
      let numbered = record s {
        ack_nr = wrapping_sub pkt.seq_nr 1;
        last_ack_sent = wrapping_sub pkt.seq_nr 1;
      } in
      let k =
        acks_of-IsCounted clock pkt numbered
          (Keeps-IsCounted s numbered (record { congestion = refl; pending = refl }) h) in
      if-IsCounted (same_type pkt.packet_type state_packet) _ _
        (Keeps-IsCounted (acks_of cwnd_delta clock pkt numbered) _
          (record { congestion = refl; pending = refl }) k)
        (if-IsCounted (same_type pkt.packet_type reset_packet) _ s
          (Keeps-IsCounted s _ (record { congestion = refl; pending = refl }) h) h)

  process_closing-IsCounted :
      (clock : Clock) (pkt : Packet) (s : UtpSocket)
      → IsCounted s
      → IsCounted (process_closing cwnd_delta clock pkt s)
  unfolding process_closing
  process_closing-IsCounted clock pkt s h =
      let acked = acks_of cwnd_delta clock pkt s in
      let k = acks_of-IsCounted clock pkt s h in
      if-IsCounted (same_type pkt.packet_type reset_packet) _ _
        (Keeps-IsCounted s _ (record { congestion = refl; pending = refl }) h)
        (if-IsCounted (is_empty acked.pending_packets && acked.fin_was_sent) _ acked
          (Keeps-IsCounted acked _ (record { congestion = refl; pending = refl }) k) k)

  process_in-IsCounted :
      (state : ConnectionState) (clock : Clock) (pkt : Packet) (s : UtpSocket)
      → IsCounted s
      → IsCounted (process_in cwnd_delta state clock pkt s).1
  unfolding process_in
  process_in-IsCounted syn_sent clock pkt s h = process_syn_sent-IsCounted clock pkt s h
  process_in-IsCounted connected clock pkt s h = process_connected-IsCounted clock pkt s h
  process_in-IsCounted fin_sent clock pkt s h = process_connected-IsCounted clock pkt s h
  process_in-IsCounted closing clock pkt s h = process_closing-IsCounted clock pkt s h
  process_in-IsCounted _ clock pkt s h = h

  -- A packet of the peer, whatever it is and in whatever state it arrives, leaves the bytes in
  -- flight that the controller counts equal to the bytes of the packets that wait for an
  -- acknowledgement.
  pub process_packet-IsCounted :
      (clock : Clock) (pkt : Packet) (s : UtpSocket)
      → IsCounted s
      → IsCounted (process_packet cwnd_delta clock pkt s).1
  unfolding process_packet note_packet
  process_packet-IsCounted clock pkt s h =
      process_in-IsCounted s.connection_state clock pkt (note_packet clock pkt s)
        (Keeps-IsCounted s _ (record { congestion = refl; pending = refl }) h)

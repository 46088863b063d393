-- ===== src/Utp/Socket/Tests.antt =====
-- Runs of src/torrent/utp/socket.rs and congestion.rs on small inputs.
use gosh_dl.Base.{
  ◌++◌, ℕ, zero, suc, ◌≡◌, refl, true, List, [], ◌∷◌, some, arith, lookup, insert, remove,
  replicate,
}
use gosh_dl.Base.Int.{ℤ, pos}
use gosh_dl.Utp.Packet
use gosh_dl.Utp.Packet.{Packet, data_packet, fin_packet, state_packet}
use gosh_dl.Utp.State.{connected, syn_sent}
use gosh_dl.Utp.Congestion
use gosh_dl.Utp.Congestion.{
  set_params, on_ack, adjust_window, update_rtt, on_send, on_timeout, on_loss,
}
use gosh_dl.Utp.Congestion.Bounds.{InWindow, controller-InWindow, sent, acked, timeout, apply}
use gosh_dl.Utp.Socket.{
  UtpSocket, UtpConfig, Clock, new, new_outgoing, seq_before_eq, seq_after, connect, build_packet,
  send_packet, send_packet_direct, read_data, available_recv_window,
}
use gosh_dl.Utp.Socket.Receive.{deliver, receive_data}
use gosh_dl.Utp.Socket.Order.{Settled, SettledFrom, receive_data-Settled}
use gosh_dl.Utp.Socket.Window.{WithinWindow, receive_data-WithinWindow, gap_never_filled}
use gosh_dl.Utp.Socket.Process.{process_packet}
use gosh_dl.Utp.Socket.Process.Counted.{process_packet-IsCounted}
use gosh_dl.Utp.Socket.Process.Flight.{IsCounted, pending_bytes}
use gosh_dl.Utp.Socket.Process.Fin.{fin_payload_lost}
use gosh_dl.Utp.Socket.Send.{send_data, send_chunks}

abbrev config : UtpConfig
config = record {
  enable_sack = true;
  max_window_size = 4000;
  recv_window = 5;
  target_delay_us = 100000;
}

abbrev at : Clock
at = record { now = 7; timestamp_us = 9 }

-- A receiver that has everything up to number 65535.
abbrev receiver : UtpSocket
receiver = new 1 2 connected 1 65535 config

wraps : seq_after 1 65535 ≡ true
wraps = refl

wraps_back : seq_before_eq 65535 1 ≡ true
wraps_back = refl

abbrev payloads : ℕ → List ℕ
payloads zero = []
payloads (suc zero) = 10 ∷ 11 ∷ []
payloads (suc (suc n)) = 20 ∷ []

-- The second packet before the first.
reordered :
    (receive_data 0 (payloads 1) (receive_data 1 (payloads 2) receiver)).recv_buffer
    ≡ 10 ∷ 11 ∷ 20 ∷ []
unfolding receive_data deliver insert remove lookup
reordered = refl

read_some : (read_data 1 (record receiver { recv_buffer = 4 ∷ 5 ∷ [] })).0 ≡ 4 ∷ []
unfolding read_data
read_some = refl

abbrev steady : ℕ → ℕ → ℕ → ℕ → ℤ
steady queuing target bytes cwnd = pos 5

connects : (connect at (new_outgoing 5 config)).1.connection_state ≡ syn_sent
unfolding connect build_packet send_packet send_packet_direct Packet.new Packet.with_timestamps
    Packet.with_window
connects = refl

sends_within_window : (send_data at (1 ∷ 2 ∷ 3 ∷ []) receiver).1.0 ≡ []
unfolding send_data send_chunks build_packet send_packet send_packet_direct Packet.new
    Packet.with_timestamps Packet.with_window set_params
sends_within_window = refl

controller-InWindow_example : InWindow (
    apply steady
      (sent 1400 ∷ acked 50 1400 20000 (some 300) ∷ timeout ∷ [])
      (set_params 4000 100000 Congestion.new))
controller-InWindow_example =
    controller-InWindow steady (sent 1400 ∷ acked 50 1400 20000 (some 300) ∷ timeout ∷ []) 4000
      100000 (tt, (omega arith, (tt, tt)))

receiver-Settled : Settled 65535 payloads 0 [] receiver
unfolding lookup
receiver-Settled = record {
  received = record { acknowledged = refl; delivered = refl; ahead = λ seq payload e. absurd cc };
  waiting = refl;
}

receive_data-Settled_example : SettledFrom 65535 payloads 0 [] (receive_data 1 (20 ∷ []) receiver)
receive_data-Settled_example =
    receive_data-Settled 65535 payloads 0 2 [] receiver receiver-Settled (omega arith) (omega arith)

receiver-WithinWindow : WithinWindow receiver
receiver-WithinWindow = record { bytes = omega arith; packets = omega arith }

receive_data-WithinWindow_example : WithinWindow (receive_data 1 (20 ∷ []) receiver)
receive_data-WithinWindow_example =
    receive_data-WithinWindow 1 (20 ∷ []) receiver receiver-WithinWindow

-- Four bytes are kept for later in a window of five.
abbrev gapped : UtpSocket
gapped = record receiver { ooo_packets = (1, replicate 4 20) ∷ [] }

gap_never_filled_example :
    (available_recv_window gapped ≡ 5) × (receive_data 0 (10 ∷ 11 ∷ []) gapped ≡ gapped)
gap_never_filled_example = gap_never_filled (10 ∷ 11 ∷ []) gapped refl (omega arith)

receiver-IsCounted : IsCounted receiver
unfolding pending_bytes set_params
receiver-IsCounted = record { in_flight = refl; distinct = tt }

abbrev packet : Packet
unfolding Packet.new
packet = record (Packet.new data_packet 1 0 0) { payload = 10 ∷ 11 ∷ [] }

process_packet-IsCounted_example : IsCounted (process_packet steady at packet receiver).1
process_packet-IsCounted_example =
    process_packet-IsCounted steady at packet receiver receiver-IsCounted

abbrev long_fin : Packet
unfolding Packet.new
long_fin = record (Packet.new fin_packet 1 0 0) { payload = replicate 6 1 }

fin_payload_lost_example :
    let (fine, t) = process_packet steady at long_fin receiver in
    (fine ≡ true)
    × ((ack : Packet) × (ack.packet_type ≡ state_packet)
        × (ack.ack_nr ≡ long_fin.seq_nr)
        × (t.sent ≡ receiver.sent ++ (Packet.encode ack ∷ [])))
    × (t.fin_received ≡ true)
    × (t.recv_buffer ≡ receiver.recv_buffer)
    × ((process_packet steady at long_fin t).1.recv_buffer ≡ receiver.recv_buffer)
unfolding long_fin
fin_payload_lost_example =
    fin_payload_lost steady at at long_fin long_fin receiver refl refl refl refl (omega arith)
      (omega arith)

-- A longer sample makes the timeout wrap when it is doubled: eight microseconds.
timeout_wraps : (on_timeout (update_rtt 715827884 Congestion.new)).rto_us ≡ 8
unfolding on_timeout on_loss update_rtt
timeout_wraps = refl

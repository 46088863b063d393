-- ===== src/Utp/Socket/Receive.antt =====
-- src/torrent/utp/socket.rs: `receive_data` and the receive window.
use gosh_dl.Base.{
  ℕ, zero, suc, ◌+◌, Bool, ◌&&◌, List, [], ◌∷◌, ◌++◌, none, some, if◌then◌else◌, ◌==◌, ltb, leb,
  length, lookup, insert, remove,
}
use gosh_dl.Utp.Socket.{UtpSocket, wrapping_add, seq_after, max_ooo_packets}

abbrev pub ooo_bytes : List (ℕ × List ℕ) → ℕ
ooo_bytes [] = 0
ooo_bytes ((seq, payload) ∷ packets) = length payload + ooo_bytes packets

abbrev pub buffered_bytes : UtpSocket → ℕ
buffered_bytes s = length s.recv_buffer + ooo_bytes s.ooo_packets

abbrev pub fits_recv_window : UtpSocket → ℕ → Bool
fits_recv_window s len = leb (buffered_bytes s + len) s.recv_window

abbrev pub append_data : ℕ → List ℕ → UtpSocket → UtpSocket
append_data seq_nr payload s = record s {
  recv_buffer = s.recv_buffer ++ payload;
  ack_nr = seq_nr;
  stats = record s.stats { bytes_received = s.stats.bytes_received + length payload };
}

-- The loop that delivers buffered packets, with the number of them as fuel: each round takes one.
unfoldable pub deliver : ℕ → UtpSocket → UtpSocket
deliver zero s = s
deliver (suc fuel) s =
    let next = wrapping_add s.ack_nr 1 in
    elim (lookup next s.ooo_packets) [
      | none ↦ s
      | some payload ↦
          deliver fuel
            (append_data next payload (record s { ooo_packets = remove next s.ooo_packets }))
    ]

unfoldable pub receive_data : ℕ → List ℕ → UtpSocket → UtpSocket
unfolding deliver
receive_data seq_nr payload s =
    let expected = wrapping_add s.ack_nr 1 in
    if seq_nr == expected
    then if fits_recv_window s (length payload)
      then deliver (length s.ooo_packets) (append_data seq_nr payload s)
      else s
    else if seq_after seq_nr expected
        && (ltb (length s.ooo_packets) max_ooo_packets && fits_recv_window s (length payload))
    then record s { ooo_packets = insert seq_nr payload s.ooo_packets }
    else s

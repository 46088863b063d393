-- ===== src/Utp/Socket/Window.antt =====
-- src/torrent/utp/socket.rs: what is held for the reader stays within the receive window, and what
-- the advertised window leaves out.
use gosh_dl.Base.{
  ℕ, zero, suc, ◌+◌, ◌≤◌, ◌<◌, ◌≡◌, refl, ap, sym, ◌∙◌, Bool, true, false, ◌&&◌, List, [], ◌∷◌,
  some, arith, ◌==◌, ltb, length, lookup, insert, remove, inl, inr, Bool-cases, ==_refl,
  Option-cases, leb→le, ltb→lt, some_inj, if_true, if_false, length-append, length-remove-le,
  length-insert_absent, length-insert_present,
}
use gosh_dl.Utp.Socket.{UtpSocket, wrapping_add, seq_after, max_ooo_packets, available_recv_window}
use gosh_dl.Utp.Socket.Receive.{
  ooo_bytes, buffered_bytes, fits_recv_window, append_data, deliver, receive_data,
}

-- What is held is within the window, and few packets are kept for later.
pub record WithinWindow (s : UtpSocket) : Type 0 where
  pub bytes : buffered_bytes s ≤ s.recv_window
  pub packets : length s.ooo_packets ≤ max_ooo_packets

ooo_bytes-remove-le : (k : ℕ) (m : List (ℕ × List ℕ)) → ooo_bytes (remove k m) ≤ ooo_bytes m
unfolding remove
ooo_bytes-remove-le k [] = omega arith
ooo_bytes-remove-le k ((seq, other) ∷ m) = ground (arith, ooo_bytes-remove-le k m)

ooo_bytes-remove :
    (k : ℕ) (payload : List ℕ) (m : List (ℕ × List ℕ))
    → lookup k m ≡ some payload
    → ooo_bytes (remove k m) + length payload ≤ ooo_bytes m
unfolding lookup remove
ooo_bytes-remove k payload [] h = absurd cc
ooo_bytes-remove k payload ((seq, other) ∷ m) h = elim (Bool-cases (seq == k)) [
  | inl same ↦
      let found : other ≡ payload =
        some_inj (sym (if_true (seq == k) (some other) (lookup k m) same) ∙ h) in
      rw same (omega (arith, ap length found, ooo_bytes-remove-le k m))
  | inr differs ↦
      let later : lookup k m ≡ some payload =
        sym (if_false (seq == k) (some other) (lookup k m) differs) ∙ h in
      rw differs (omega (arith, ooo_bytes-remove k payload m later))
]

ooo_bytes-insert :
    (k : ℕ) (payload : List ℕ) (m : List (ℕ × List ℕ))
    → ooo_bytes (insert k payload m) ≤ ooo_bytes m + length payload
unfolding insert
ooo_bytes-insert k payload [] = omega arith
ooo_bytes-insert k payload ((seq, other) ∷ m) = ground (arith, ooo_bytes-insert k payload m)

length-insert-le :
    (k : ℕ) (payload : List ℕ) (m : List (ℕ × List ℕ)) → length (insert k payload m) ≤ length m + 1
length-insert-le k payload m = elim (Option-cases (lookup k m)) [
  | inl e ↦ omega (arith, length-insert_absent k payload m e)
  | inr (old, e) ↦ omega (arith, length-insert_present k payload old m e)
]

deliver-WithinWindow : (fuel : ℕ) (s : UtpSocket) → WithinWindow s → WithinWindow (deliver fuel s)
unfolding deliver
deliver-WithinWindow zero s h = h
deliver-WithinWindow (suc fuel) s h =
    let next = wrapping_add s.ack_nr 1 in
    elim (Option-cases (lookup next s.ooo_packets)) [
      | inl e ↦ rw (e, deliver) h
      | inr (payload, e) ↦
          let moved =
            append_data next payload (record s { ooo_packets = remove next s.ooo_packets }) in
          rw (e, deliver)
            (deliver-WithinWindow fuel moved (record {
              bytes = omega (
                arith,
                h.bytes,
                length-append s.recv_buffer payload,
                ooo_bytes-remove next payload s.ooo_packets e,
              );
              packets = omega (arith, h.packets, length-remove-le next s.ooo_packets);
            }))
    ]

both : (a b c : Bool) → (a && (b && c)) ≡ true → (b ≡ true) × (c ≡ true)
both true true true h = (refl, refl)
both false b c h = absurd cc
both true false c h = absurd cc
both true true false h = absurd cc

-- Whatever packets arrive, duplicated, out of order or made up, what is held for the reader stays
-- within the receive window, and at most 256 packets are kept for later.
pub receive_data-WithinWindow :
    (seq : ℕ) (payload : List ℕ) (s : UtpSocket)
    → WithinWindow s
    → WithinWindow (receive_data seq payload s)
unfolding receive_data
receive_data-WithinWindow seq payload s h =
    let next = wrapping_add s.ack_nr 1 in
    elim (Bool-cases (seq == next)) [
      | inl now ↦ elim (Bool-cases (fits_recv_window s (length payload))) [
        | inl room ↦
            rw (now, room)
              (deliver-WithinWindow (length s.ooo_packets) (append_data seq payload s) (record {
                bytes = omega (
                  arith,
                  leb→le (buffered_bytes s + length payload) s.recv_window room,
                  length-append s.recv_buffer payload,
                );
                packets = h.packets;
              }))
        | inr full ↦ rw (now, full) h
      ]
      | inr other ↦
          elim (Bool-cases (
            seq_after seq next
            && (ltb (length s.ooo_packets) max_ooo_packets
                && fits_recv_window s (length payload)))) [
                  | inl kept ↦
                      let (few, room) =
                        both (seq_after seq next) (ltb (length s.ooo_packets) max_ooo_packets) _
                          kept in
                      let count = ltb→lt (length s.ooo_packets) max_ooo_packets few in
                      rw (other, kept)
                        (record {
                          bytes = omega (
                            arith,
                            leb→le (buffered_bytes s + length payload) s.recv_window room,
                            ooo_bytes-insert seq payload s.ooo_packets,
                          );
                          packets =
                              omega (arith, count, length-insert-le seq payload s.ooo_packets);
                        })
                  | inr dropped ↦ rw (other, dropped) h
                ]
    ]

-- The window that is advertised leaves out the packets kept for later: when these fill the window
-- too far for the packet that comes next, that packet is dropped and nothing changes, however often
-- it is sent, although the reader has read everything and the whole window is advertised.
pub gap_never_filled :
    (payload : List ℕ) (s : UtpSocket)
    → s.recv_buffer ≡ []
    → s.recv_window < ooo_bytes s.ooo_packets + length payload
    → (available_recv_window s ≡ s.recv_window)
      × (receive_data (wrapping_add s.ack_nr 1) payload s ≡ s)
unfolding receive_data
gap_never_filled payload s e h =
    let next = wrapping_add s.ack_nr 1 in
    let full : fits_recv_window s (length payload) ≡ false = ground (arith, ap length e) in
    (omega (arith, ap length e), rw (==_refl next, full) refl)

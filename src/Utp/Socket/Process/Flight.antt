-- ===== src/Utp/Socket/Process/Flight.antt =====
-- src/torrent/utp/socket.rs and congestion.rs: the bytes in flight that the congestion controller
-- counts are those of the packets that wait for an acknowledgement.
use gosh_dl.Base.{
  ℕ, ◌+◌, ◌-◌, ◌≡◌, refl, ap, sym, ◌∙◌, List, [], ◌∷◌, Option, none, some, arith, ◌==◌, ltb, lookup,
  insert, remove, IsMap, remove-IsMap, inl, inr, Bool-cases, Option-cases, if_true, if_false,
  some_inj, keep,
}
use gosh_dl.Base.Int.{ℤ}
use gosh_dl.Utp.Ack.{SelectiveAck}
use gosh_dl.Utp.State.{PendingPacket}
use gosh_dl.Utp.Congestion.{
  LedbatController, on_ack, adjust_window, update_rtt, with_rtt, with_delay, base_delay,
}
use gosh_dl.Utp.Socket.{UtpSocket, seq_before_eq}
use gosh_dl.Utp.Socket.Process.{ack_one, ack_each, process_acks, rtt_sample, sacked_seqs, keys}

unfoldable pub pending_bytes : List (ℕ × PendingPacket) → ℕ
pending_bytes [] = 0
pending_bytes ((seq, p) ∷ packets) = p.size + pending_bytes packets

pub record IsCounted (s : UtpSocket) : Type 0 where
  pub in_flight : s.congestion.bytes_in_flight ≡ pending_bytes s.pending_packets
  pub distinct : IsMap s.pending_packets

pending_bytes_absent :
    (k : ℕ) (m : List (ℕ × PendingPacket))
    → lookup k m ≡ none
    → pending_bytes (remove k m) ≡ pending_bytes m
unfolding pending_bytes lookup remove
pending_bytes_absent k [] h = refl
pending_bytes_absent k ((j, p) ∷ m) h = ground (arith, pending_bytes_absent k m)

pending_bytes-remove :
    (k : ℕ) (p : PendingPacket) (m : List (ℕ × PendingPacket))
    → IsMap m
    → lookup k m ≡ some p
    → pending_bytes (remove k m) + p.size ≡ pending_bytes m
unfolding pending_bytes lookup remove
pending_bytes-remove k p [] u h = absurd cc
pending_bytes-remove k p ((j, q) ∷ m) (fresh, u) h = elim (Bool-cases (j == k)) [
  | inl same ↦
      let found : q ≡ p = some_inj (sym (if_true (j == k) (some q) (lookup k m) same) ∙ h) in
      let gone : lookup k m ≡ none = ground (arith, same, fresh) in
      rw same (omega (arith, ap (λ r. r.size) found, pending_bytes_absent k m gone))
  | inr differs ↦
      let later = sym (if_false (j == k) (some q) (lookup k m) differs) ∙ h in
      rw differs (omega (arith, pending_bytes-remove k p m u later))
]

pending_bytes-insert :
    (k : ℕ) (p : PendingPacket) (m : List (ℕ × PendingPacket))
    → lookup k m ≡ none
    → pending_bytes (insert k p m) ≡ pending_bytes m + p.size
unfolding pending_bytes lookup insert
pending_bytes-insert k p [] h = omega arith
pending_bytes-insert k p ((j, q) ∷ m) h = elim (Bool-cases (j == k)) [
  | inl same ↦ absurd (ground (arith, h, same))
  | inr differs ↦
      let later = sym (if_false (j == k) (some q) (lookup k m) differs) ∙ h in
      rw differs (omega (arith, pending_bytes-insert k p m later))
]

bytes_in_flight-update_rtt :
    (sample : ℕ) (l : LedbatController) → (update_rtt sample l).bytes_in_flight ≡ l.bytes_in_flight
unfolding update_rtt
bytes_in_flight-update_rtt sample l = elim (Bool-cases (l.rtt_us == 1000000)) [
  | inl h ↦ rw h refl
  | inr h ↦ rw h refl
]

bytes_in_flight-with_rtt :
    (rtt : Option ℕ) (l : LedbatController) → (with_rtt rtt l).bytes_in_flight ≡ l.bytes_in_flight
bytes_in_flight-with_rtt none l = refl
bytes_in_flight-with_rtt (some sample) l = bytes_in_flight-update_rtt sample l

module _ (cwnd_delta : ℕ → ℕ → ℕ → ℕ → ℤ) where
  bytes_in_flight-adjust_window :
      (bytes delay : ℕ) (l : LedbatController)
      → (adjust_window cwnd_delta bytes delay l).bytes_in_flight ≡ l.bytes_in_flight
  unfolding adjust_window
  bytes_in_flight-adjust_window bytes delay l = elim (Bool-cases l.in_slow_start) [
    | inl slow ↦ elim (Bool-cases (ltb delay l.target_delay_us)) [
      | inl low ↦ rw (slow, low) refl
      | inr high ↦ rw (slow, high) refl
    ]
    | inr steady ↦ rw steady refl
  ]

  bytes_in_flight-on_ack :
      (now bytes delay : ℕ) (rtt : Option ℕ) (l : LedbatController)
      → (on_ack cwnd_delta now bytes delay rtt l).bytes_in_flight ≡ l.bytes_in_flight - bytes
  unfolding on_ack
  bytes_in_flight-on_ack now bytes delay rtt l =
      let counted = record l {
        last_ack_time = some now;
        bytes_in_flight = l.bytes_in_flight - bytes;
      } in
      let measured = with_delay now delay rtt counted in
      bytes_in_flight-adjust_window bytes (delay - base_delay delay measured) measured
      ∙ bytes_in_flight-with_rtt rtt counted

  ack_one-IsCounted :
      (now delay : ℕ) (rtt : PendingPacket → Option ℕ) (seq : ℕ) (s : UtpSocket)
      → IsCounted s
      → IsCounted (ack_one cwnd_delta now delay rtt seq s)
  unfolding ack_one
  ack_one-IsCounted now delay rtt seq s h = elim (Option-cases (lookup seq s.pending_packets)) [
    | inl e ↦ rw (e, ack_one) h
    | inr (p, e) ↦
        rw (e, ack_one)
          (record {
            in_flight =
                bytes_in_flight-on_ack now p.size delay (rtt p) s.congestion
                ∙ omega
                    (arith, h.in_flight, pending_bytes-remove seq p s.pending_packets h.distinct e);
            distinct = remove-IsMap seq s.pending_packets h.distinct;
          })
  ]

  ack_each-IsCounted :
      (now delay : ℕ) (rtt : PendingPacket → Option ℕ) (seqs : List ℕ) (s : UtpSocket)
      → IsCounted s
      → IsCounted (ack_each cwnd_delta now delay rtt seqs s)
  unfolding ack_each
  ack_each-IsCounted now delay rtt [] s h = h
  ack_each-IsCounted now delay rtt (seq ∷ seqs) s h =
      ack_each-IsCounted now delay rtt seqs _ (ack_one-IsCounted now delay rtt seq s h)

  pub process_acks-IsCounted :
      (now ack_nr : ℕ) (sack : Option SelectiveAck) (delay : ℕ) (s : UtpSocket)
      → IsCounted s
      → IsCounted (process_acks cwnd_delta now ack_nr sack delay s)
  unfolding process_acks
  process_acks-IsCounted now ack_nr sack delay s h =
      ack_each-IsCounted now delay (λ _. none) (sacked_seqs sack ack_nr)
        (ack_each cwnd_delta now delay (rtt_sample now)
          (keep (λ seq. seq_before_eq seq ack_nr) (keys s.pending_packets)) s)
        (ack_each-IsCounted now delay (rtt_sample now)
          (keep (λ seq. seq_before_eq seq ack_nr) (keys s.pending_packets)) s h)

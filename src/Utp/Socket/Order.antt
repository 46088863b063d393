-- ===== src/Utp/Socket/Order.antt =====
-- src/torrent/utp/socket.rs: the bytes that the reader gets are those that the peer sent, in its
-- order, whatever order the packets arrive in.
use gosh_dl.Base.{
  ℕ, zero, suc, ◌+◌, ◌%◌, ◌^◌, ◌≤◌, ◌<◌, ◌≡◌, refl, ap, sym, ◌∙◌, subst, ◌≢◌, Bool, true, false,
  ◌&&◌, List, [], ◌++◌, Option, none, some, arith, ◌==◌, ltb, length, lookup, insert, remove, inl,
  inr, Bool-cases, Option-cases, lookup-insert, lookup-insert_cases, lookup-remove,
  length-remove-lt, lookup_empty, append_assoc, take, drop, min, take-drop,
}
use gosh_dl.Utp.Socket.{UtpSocket, wrapping_add, seq_after, read_data, max_ooo_packets}
use gosh_dl.Utp.Socket.Receive.{append_data, deliver, receive_data, fits_recv_window}

-- The peer sends packet n, counted from 1, under the number `start + n`, and `payloads n` in it.
and_first : (a b : Bool) → (a && b) ≡ true → a ≡ true
and_first true b h = refl
and_first false b h = h

not_waiting : (o : Option (List ℕ)) (payload : List ℕ) → o ≡ some payload → o ≢ none
not_waiting none payload e = λ _. absurd cc
not_waiting (some other) payload e = λ f. absurd cc

inserted_other :
    (key seq : ℕ) (new : List ℕ) (m : List (ℕ × List ℕ))
    → key ≢ seq
    → lookup seq m ≡ none
    → lookup seq (insert key new m) ≡ none
inserted_other key seq new m ne h =
    let other : (key == seq) ≡ false = ground arith in lookup-insert key seq new m ∙ rw other h

module _ (start : ℕ) (payloads : ℕ → List ℕ) where
  abbrev pub seq_of : ℕ → ℕ
  seq_of n = (start + n) % 2 ^ 16

  -- The bytes of the first k packets.
  abbrev pub stream : ℕ → List ℕ
  stream zero = []
  stream (suc k) = stream k ++ payloads (suc k)

  -- A packet that is kept for later is one of the next 2^15.
  abbrev pub IsAhead : ℕ → List (ℕ × List ℕ) → Type 0
  IsAhead k packets =
      (seq : ℕ) (payload : List ℕ)
      → lookup seq packets ≡ some payload
      → (n : ℕ) × (k < n) × (n ≤ k + 2 ^ 15) × (seq ≡ seq_of n) × (payload ≡ payloads n)

  -- k packets were received in order: they are acknowledged, and their bytes are those read before
  -- and those in the buffer.
  pub record Received (k : ℕ) (bytes_read : List ℕ) (s : UtpSocket) : Type 0 where
    pub acknowledged : s.ack_nr ≡ seq_of k
    pub delivered : bytes_read ++ s.recv_buffer ≡ stream k
    pub ahead : IsAhead k s.ooo_packets

  next_seq : (k ack : ℕ) → ack ≡ seq_of k → wrapping_add ack 1 ≡ seq_of (suc k)
  next_seq k ack h = omega arith

  append_data-Received :
      (k seq : ℕ) (bytes_read payload : List ℕ) (s : UtpSocket)
      → Received k bytes_read s
      → seq ≡ seq_of (suc k)
      → payload ≡ payloads (suc k)
      → ((seq' : ℕ) (payload' : List ℕ) → lookup seq' s.ooo_packets ≡ some payload' → seq' ≢ seq)
      → Received (suc k) bytes_read (append_data seq payload s)
  append_data-Received k seq bytes_read payload s r e p other = record {
    acknowledged = e;
    delivered =
        sym (append_assoc bytes_read s.recv_buffer payload)
        ∙ ap (λ xs. xs ++ payload) r.delivered
        ∙ ap (λ xs. stream k ++ xs) p;
    ahead = λ seq' payload' h.
        let (n, a, b, c, d) = r.ahead seq' payload' h in
        (n, omega (arith, other seq' payload' h), omega arith, c, d);
  }

  -- Nothing that could be delivered is kept.
  pub record Settled (k : ℕ) (bytes_read : List ℕ) (s : UtpSocket) : Type 0 where
    pub received : Received k bytes_read s
    pub waiting : lookup (seq_of (suc k)) s.ooo_packets ≡ none

  abbrev pub SettledFrom : ℕ → List ℕ → UtpSocket → Type 0
  SettledFrom k bytes_read s = (later : ℕ) × (k ≤ later) × Settled later bytes_read s

  -- The packet whose number comes next, taken out of those kept.
  take_next :
      (k : ℕ) (bytes_read payload : List ℕ) (s : UtpSocket)
      → Received k bytes_read s
      → lookup (wrapping_add s.ack_nr 1) s.ooo_packets ≡ some payload
      → Received (suc k) bytes_read (
          append_data
            (wrapping_add s.ack_nr 1)
            payload
            (record s { ooo_packets = remove (wrapping_add s.ack_nr 1) s.ooo_packets }))
  take_next k bytes_read payload s r h =
      let next = wrapping_add s.ack_nr 1 in
      let (n, a, b, c, d) = r.ahead next payload h in
      let n_is : n ≡ suc k = omega (arith, r.acknowledged) in
      let kept = record s { ooo_packets = remove next s.ooo_packets } in
      append_data-Received k next bytes_read payload kept
        (record {
          acknowledged = r.acknowledged;
          delivered = r.delivered;
          ahead = λ seq other e.
              r.ahead seq other (ground (arith, lookup-remove next seq s.ooo_packets, e));
        })
        (next_seq k s.ack_nr r.acknowledged) (d ∙ ap payloads n_is)
        (λ seq other e same. ground (arith, lookup-remove next seq s.ooo_packets, e, same))

  deliver-Settled :
      (fuel k : ℕ) (bytes_read : List ℕ) (s : UtpSocket)
      → length s.ooo_packets ≤ fuel
      → Received k bytes_read s
      → SettledFrom k bytes_read (deliver fuel s)
  unfolding deliver
  deliver-Settled zero k bytes_read s l r =
      (k, omega arith, record { received = r; waiting = lookup_empty _ s.ooo_packets l })
  deliver-Settled (suc fuel) k bytes_read s l r =
      elim (Option-cases (lookup (wrapping_add s.ack_nr 1) s.ooo_packets)) [
        | inl e ↦
            rw (e, deliver)
              (
                k,
                omega arith,
                record {
                  received = r;
                  waiting =
                      ap (λ seq. lookup seq s.ooo_packets)
                        (sym (next_seq k s.ack_nr r.acknowledged))
                      ∙ e;
                },
              )
        | inr (payload, e) ↦
            let (later, a, b) =
              deliver-Settled fuel (suc k) bytes_read _
                (omega (arith, length-remove-lt (wrapping_add s.ack_nr 1) payload s.ooo_packets e))
                (take_next k bytes_read payload s r e) in
            rw (e, deliver) (later, omega arith, b)
      ]

  -- A packet that comes next in order.
  receive_next :
      (k : ℕ) (bytes_read : List ℕ) (s : UtpSocket)
      → Settled k bytes_read s
      → SettledFrom k bytes_read
          (deliver (length s.ooo_packets) (append_data (seq_of (suc k)) (payloads (suc k)) s))
  receive_next k bytes_read s h =
      let (later, a, b) =
        deliver-Settled (length s.ooo_packets) (suc k) bytes_read _ (omega arith) (
          append_data-Received k (seq_of (suc k)) bytes_read (payloads (suc k)) s h.received refl
            refl
            (λ seq payload e same.
              not_waiting (lookup seq s.ooo_packets) payload e
                (ap (λ q. lookup q s.ooo_packets) same ∙ h.waiting))) in
      (later, omega arith, b)

  -- A packet that comes later.
  keep_packet :
      (k n : ℕ) (bytes_read : List ℕ) (s : UtpSocket)
      → Settled k bytes_read s
      → suc k < n
      → n < k + 2 ^ 15
      → Settled k bytes_read
          (record s { ooo_packets = insert (seq_of n) (payloads n) s.ooo_packets })
  keep_packet k n bytes_read s h l u = record {
    received = record {
      acknowledged = h.received.acknowledged;
      delivered = h.received.delivered;
      ahead = λ seq payload e.
          elim (lookup-insert_cases (seq_of n) seq (payloads n) payload s.ooo_packets e) [
            | inl (same, p) ↦ (n, omega arith, omega arith, sym same, p)
            | inr before ↦ h.received.ahead seq payload before
          ];
    };
    waiting =
        inserted_other (seq_of n) (seq_of (suc k)) (payloads n) s.ooo_packets
          (λ e. absurd (omega arith)) h.waiting;
  }

  next_is :
      (k n next : ℕ)
      → k < n + 2 ^ 15
      → n < k + 2 ^ 15
      → next ≡ seq_of (suc k)
      → (seq_of n == next) ≡ true
      → n ≡ suc k
  next_is k n next l u e h = ground (arith, h)

  later_than :
      (k n next : ℕ)
      → k < n + 2 ^ 15
      → n < k + 2 ^ 15
      → next ≡ seq_of (suc k)
      → seq_after (seq_of n) next ≡ true
      → suc k < n
  later_than k n next l u e h = ground (arith, h)

  -- Packet n of the peer arrives, less than 2^15 packets from the last that was received in order:
  -- however often and in whatever order packets arrive, the bytes read and those in the buffer are
  -- those of the first packets of the peer, in its order, and no fewer than before.
  pub receive_data-Settled :
      (k n : ℕ) (bytes_read : List ℕ) (s : UtpSocket)
      → Settled k bytes_read s
      → k < n + 2 ^ 15
      → n < k + 2 ^ 15
      → SettledFrom k bytes_read (receive_data (seq_of n) (payloads n) s)
  unfolding receive_data
  receive_data-Settled k n bytes_read s h l u =
      let expected = next_seq k s.ack_nr h.received.acknowledged in
      let next = wrapping_add s.ack_nr 1 in
      let same : SettledFrom k bytes_read s = (k, omega arith, h) in
      elim (Bool-cases (seq_of n == next)) [
        | inl now ↦
            let n_is : n ≡ suc k = next_is k n next l u expected now in
            elim (Bool-cases (fits_recv_window s (length (payloads n)))) [
              | inl room ↦
                  rw (now, room)
                    (subst
                      (λ m.
                        SettledFrom k bytes_read
                          (deliver (length s.ooo_packets) (append_data (seq_of m) (payloads m) s)))
                      (sym n_is) (receive_next k bytes_read s h))
              | inr full ↦ rw (now, full) same
            ]
        | inr other ↦
            elim (Bool-cases (
              seq_after (seq_of n) next
              && (ltb (length s.ooo_packets) max_ooo_packets
                  && fits_recv_window s (length (payloads n))))) [
                    | inl kept ↦
                        rw (other, kept)
                          (
                            k,
                            omega arith,
                            keep_packet k n bytes_read s h
                                (later_than k n next l u expected
                                  (and_first (seq_after (seq_of n) next) _ kept))
                                u,
                          )
                    | inr dropped ↦ rw (other, dropped) same
                  ]
      ]

  -- The reader takes some bytes.
  pub read_data-Settled :
      (k size : ℕ) (bytes_read : List ℕ) (s : UtpSocket)
      → Settled k bytes_read s
      → let (bytes, s') = read_data size s in Settled k (bytes_read ++ bytes) s'
  unfolding read_data
  read_data-Settled k size bytes_read s h =
      let len = min size (length s.recv_buffer) in
      record {
        received = record {
          acknowledged = h.received.acknowledged;
          delivered =
              append_assoc bytes_read (take len s.recv_buffer) (drop len s.recv_buffer)
              ∙ ap (λ xs. bytes_read ++ xs) (take-drop len s.recv_buffer)
              ∙ h.received.delivered;
          ahead = h.received.ahead;
        };
        waiting = h.waiting;
      }

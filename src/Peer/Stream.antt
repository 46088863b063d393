-- ===== src/Peer/Stream.antt =====
-- src/torrent/peer.rs: what one side writes by `send` is what the other reads by `recv`.
use gosh_dl.Base.{
  ℕ, zero, suc, ◌+◌, ◌^◌, ◌≤◌, ◌<◌, ◌≡◌, refl, ap, sym, ◌∙◌, true, false, List, [], ◌∷◌, ◌++◌,
  arith, ◌==◌, ltb, length, inl, inr, Bool-cases, u32_bytes, u32_lem, append_assoc, append-nil, All,
  subst, if_true,
}
use gosh_dl.Base.Result.{Result, ok}
use gosh_dl.Peer.Message.{PeerMessage, encode, decode}
use gosh_dl.Peer.Pieces.{num_pieces-handle_message}
use gosh_dl.Peer.RoundTrip.{InRange, body, decode-body, encode_frames}
use gosh_dl.Peer.Connection.{
  PeerConnection, max_message_size, handle_message, handle_decoded, handle_read, recv_body,
  recv_prefix, recv, send, read_exact-append, bytes_of_bits, block_bytes,
}

-- A message with its numbers in range whose body is within the limit of a torrent with so many
-- pieces.
pub record Fits (num_pieces : ℕ) (m : PeerMessage) : Type 0 where
  pub in_range : InRange m
  pub size : length (body m) ≤ max_message_size num_pieces

empty_body :
    (bytes : List ℕ) (m : PeerMessage)
    → length bytes ≡ 0
    → decode bytes ≡ ok m
    → PeerMessage.keep_alive ≡ m
unfolding decode
empty_body [] m h d = ap (λ r. elim r [ ok k ↦ k | _ ↦ m ]) d
empty_body (b ∷ bytes) m h d = absurd (omega arith)

recv_body_lem :
    (c : PeerConnection) (bytes rest : List ℕ) (m : PeerMessage)
    → c.incoming ≡ bytes ++ rest
    → length bytes ≤ max_message_size c.num_pieces
    → decode bytes ≡ ok m
    → recv_body (length bytes) c ≡ (ok m, handle_message m (record c { incoming = rest }))
unfolding recv_body handle_message
recv_body_lem c [] rest m h l d =
    ap (λ incoming. (ok PeerMessage.keep_alive, record c { incoming = incoming })) h
    ∙ ap (λ k. (ok k, handle_message k (record c { incoming = rest }))) (empty_body [] m refl d)
recv_body_lem c (b ∷ bytes) rest m h l d =
    let full : (length (b ∷ bytes) == 0) ≡ false = ground arith in
    let small : ltb (max_message_size c.num_pieces) (length (b ∷ bytes)) ≡ false = ground arith in
    rw (full, small)
      (ap (λ (read, after). handle_read read after)
          (read_exact-append (length (b ∷ bytes)) (b ∷ bytes) rest c refl h)
        ∙ ap (λ r. handle_decoded r (record c { incoming = rest })) d)

-- A message that fits, and was written first, is received; it is handled, and what was written
-- behind it is left.
pub recv-encode :
    (c : PeerConnection) (m : PeerMessage) (rest : List ℕ)
    → Fits c.num_pieces m
    → c.incoming ≡ encode m ++ rest
    → recv c ≡ (ok m, handle_message m (record c { incoming = rest }))
unfolding recv
recv-encode c m rest f h =
    let (small, framed) = encode_frames m f.in_range in
    let read =
      read_exact-append 4 (u32_bytes (length (body m))) (body m ++ rest) c refl
        (h ∙ ap (λ bytes. bytes ++ rest) framed) in
    ap (λ (bytes, after). recv_prefix bytes after) read
    ∙ ap (λ n. recv_body n (record c { incoming = body m ++ rest }))
        (u32_lem (length (body m)) small)
    ∙ recv_body_lem (record c { incoming = body m ++ rest }) (body m) rest m refl f.size
        (decode-body m f.in_range)

abbrev next_message :
    (PeerConnection → List PeerMessage × PeerConnection)
    → Result PeerMessage
    → PeerConnection
    → List PeerMessage × PeerConnection
next_message more (ok m) c = let (ms, c') = more c in (m ∷ ms, c')
next_message more _ c = ([], c)

-- The messages of so many calls of `recv`, up to the first that fails.
unfoldable pub recv_times : ℕ → PeerConnection → List PeerMessage × PeerConnection
recv_times zero c = ([], c)
recv_times (suc n) c = let (result, c') = recv c in next_message (recv_times n) result c'

unfoldable pub send_all : List PeerMessage → PeerConnection → PeerConnection
send_all [] c = c
send_all (m ∷ ms) c = let (_, c') = send m c in send_all ms c'

unfoldable pub handle_all : List PeerMessage → PeerConnection → PeerConnection
handle_all [] c = c
handle_all (m ∷ ms) c = handle_all ms (handle_message m c)

abbrev encode_all : List PeerMessage → List ℕ
encode_all [] = []
encode_all (m ∷ ms) = encode m ++ encode_all ms

send_all_lem :
    (ms : List PeerMessage) (c : PeerConnection)
    → c.writable ≡ true
    → (send_all ms c).outgoing ≡ c.outgoing ++ encode_all ms
unfolding send_all send
send_all_lem [] c w = sym (append-nil c.outgoing)
send_all_lem (m ∷ ms) c w =
    let c' = record c {
      outgoing = c.outgoing ++ encode m;
      uploaded = c.uploaded + block_bytes m;
    } in
    ap (λ (written, after). (send_all ms after).outgoing)
      (if_true c.writable (true, c') (false, c) w)
    ∙ send_all_lem ms c' w
    ∙ append_assoc c.outgoing (encode m) (encode_all ms)

handle_message_incoming :
    (m : PeerMessage) (c : PeerConnection) (incoming : List ℕ)
    → handle_message m (record c { incoming = incoming })
      ≡ record (handle_message m c) { incoming = incoming }
unfolding handle_message
handle_message_incoming (PeerMessage.have i) c incoming = elim (Bool-cases (ltb i c.num_pieces)) [
  | inl lt ↦ rw lt refl
  | inr ge ↦ rw ge refl
]
handle_message_incoming _ c incoming = refl

recv_times_lem :
    (ms : List PeerMessage) (c : PeerConnection) (rest : List ℕ)
    → All (Fits c.num_pieces) ms
    → c.incoming ≡ encode_all ms ++ rest
    → recv_times (length ms) c ≡ (ms, handle_all ms (record c { incoming = rest }))
unfolding recv_times handle_all
recv_times_lem [] c rest f h = ap (λ incoming. ([], record c { incoming = incoming })) h
recv_times_lem (m ∷ ms) c rest (f, fs) h =
    let left = encode_all ms ++ rest in
    let c' = handle_message m (record c { incoming = left }) in
    let read = recv-encode c m left f (h ∙ append_assoc (encode m) (encode_all ms) rest) in
    let fits =
      subst (λ n. All (Fits n) ms)
        (sym (num_pieces-handle_message m (record c { incoming = left }))) fs in
    let behind = ap (λ r. r.incoming) (handle_message_incoming m c left) in
    let later = recv_times_lem ms c' rest fits behind in
    ap (λ (result, after). next_message (recv_times (length ms)) result after) read
    ∙ ap (λ (more, after). (m ∷ more, after)) later
    ∙ ap (λ r. (m ∷ ms, handle_all ms r))
        (ap {A = PeerConnection} (λ r. record r { incoming = rest })
            (handle_message_incoming m c left)
          ∙ sym (handle_message_incoming m c rest))

-- The messages that one side wrote, each with its numbers in range and within the limit of the
-- torrent, are what the other side receives, in order; it has handled them all, and nothing is left
-- to read.
pub sent_is_received :
    (c d : PeerConnection) (ms : List PeerMessage)
    → c.writable ≡ true
    → c.outgoing ≡ []
    → All (Fits d.num_pieces) ms
    → recv_times (length ms) (record d { incoming = (send_all ms c).outgoing })
      ≡ (ms, handle_all ms (record d { incoming = [] }))
sent_is_received c d ms w e f =
    recv_times_lem ms (record d { incoming = (send_all ms c).outgoing }) [] f
      (send_all_lem ms c w ∙ ap (λ out. out ++ encode_all ms) e ∙ sym (append-nil (encode_all ms)))

-- The size of a block and of a bitfield that this side sends, and of an extension message.
abbrev pub HasSentSize : ℕ → PeerMessage → Type 0
HasSentSize num_pieces (PeerMessage.bitfield bits) = length bits ≡ bytes_of_bits num_pieces
HasSentSize num_pieces (PeerMessage.piece index begin block) = length block ≤ 16384
HasSentSize num_pieces (PeerMessage.extended id payload) = length payload ≤ 16384
HasSentSize num_pieces (PeerMessage.unknown id payload) = length payload ≤ 16384
HasSentSize num_pieces _ = Unit

length-body :
    (num_pieces : ℕ) (m : PeerMessage)
    → num_pieces < 2 ^ 32
    → HasSentSize num_pieces m
    → length (body m) ≤ max_message_size num_pieces
unfolding max_message_size body encode
length-body num_pieces (PeerMessage.bitfield bits) small s = omega arith
length-body num_pieces (PeerMessage.piece index begin block) small s = omega arith
length-body num_pieces (PeerMessage.extended id payload) small s = omega arith
length-body num_pieces (PeerMessage.unknown id payload) small s = omega arith
length-body num_pieces _ small s = omega arith

-- A bitfield of the torrent, however many pieces it has, and a message with at most a block of 16
-- KiB are within the limit of `recv`.
pub sent_message-Fits :
    (num_pieces : ℕ) (m : PeerMessage)
    → num_pieces < 2 ^ 32
    → InRange m
    → HasSentSize num_pieces m
    → Fits num_pieces m
sent_message-Fits num_pieces m small r s = record {
  in_range = r;
  size = length-body num_pieces m small s;
}

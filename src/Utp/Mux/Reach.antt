-- ===== src/Utp/Mux/Reach.antt =====
-- src/torrent/utp/multiplexer.rs: every history of the multiplexer, and the way of a connection's packets.
use gosh_dl.Base.{
  ℕ, ◌≤◌, ◌≡◌, refl, ap, ◌∙◌, inl, inr, Bool, false, ◌&&◌, List, [], ◌∷◌, ◌++◌, some, arith,
  if◌then◌else◌, ◌==◌, ltb, length, lookup, insert, insert-IsMap, lookup-insert, Bool-cases,
  if_true, if_false,
}
use gosh_dl.Utp.Packet.{Packet}
use gosh_dl.Utp.Socket.{wrapping_add, wrapping_sub}
use gosh_dl.Utp.Mux.{
  conn_channel_capacity, key_of, Channel, try_send, UtpMux, new_mux, is_syn, is_reset,
  candidate_ids, route_to, route_other, route_packet, cleanup, connect, accept, close,
}
use gosh_dl.Utp.Mux.Route.{
  IsValid, HasRoom, insert-All, lookup-HasRoom, route_packet-IsValid, connect-IsValid,
  cleanup-IsValid, accept_first-IsValid, route_to_known,
}

-- A step of the receive task, of a caller, or of the task of a connection, which takes a packet from its
-- channel or ends.
pub data Step (m : UtpMux) : UtpMux → Type 0 where
  routes : (room : Bool) (pkt : Packet) (addr : ℕ) → Step m (route_packet room pkt addr m)
  connects : (addr : ℕ) → Step m (connect addr m)
  accepts : Step m (accept m)
  cleans : (key : ℕ) → Step m (cleanup key m)
  closes : Step m (close m)
  takes :
      (key : ℕ) (pkt : Packet) (rest : List Packet) (ch : Channel)
      → lookup key m.connections ≡ some ch
      → ch.waiting ≡ pkt ∷ rest
      → Step m (record m { connections = insert key (record ch { waiting = rest }) m.connections })
  ends :
      (key : ℕ) (ch : Channel)
      → lookup key m.connections ≡ some ch
      → Step m
          (record m { connections = insert key (record ch { has_receiver = false }) m.connections })

pub data Reach : UtpMux → Type 0 where
  start : (random : ℕ) → Reach (new_mux random)
  next : {m m' : UtpMux} → Reach m → Step m m' → Reach m'

replace-IsValid :
    (key : ℕ) (ch : Channel) (m : UtpMux)
    → length ch.waiting ≤ conn_channel_capacity
    → IsValid m
    → IsValid (record m { connections = insert key ch m.connections })
replace-IsValid key ch m room w = record {
  connection_keys = insert-IsMap key ch m.connections w.connection_keys;
  pending_keys = w.pending_keys;
  backlog = w.backlog;
  channels = insert-All HasRoom key ch m.connections room w.channels;
  new_channels = w.new_channels;
}

rest_fits :
    (pkt : Packet) (rest waiting : List Packet)
    → waiting ≡ pkt ∷ rest
    → length waiting ≤ conn_channel_capacity
    → length rest ≤ conn_channel_capacity
rest_fits pkt rest waiting e h = omega (arith, h, ap (length {A = Packet}) e)

Step-IsValid : {m m' : UtpMux} → Step m m' → IsValid m → IsValid m'
Step-IsValid {m = m} (routes room pkt addr) w = route_packet-IsValid room pkt addr m w
Step-IsValid {m = m} (connects addr) w = connect-IsValid addr m w
Step-IsValid {m = m} accepts w = accept_first-IsValid m.pending_incoming m w.new_channels w
Step-IsValid {m = m} (cleans key) w = cleanup-IsValid key m w
Step-IsValid {m = m} closes w = record {
  connection_keys = tt;
  pending_keys = tt;
  backlog = omega arith;
  channels = tt;
  new_channels = tt;
}
Step-IsValid {m = m} (takes key pkt rest ch e taken) w =
    let room = lookup-HasRoom key m.connections ch e w.channels in
    replace-IsValid key (record ch { waiting = rest }) m (rest_fits pkt rest ch.waiting taken room)
      w
Step-IsValid {m = m} (ends key ch e) w =
    replace-IsValid key (record ch { has_receiver = false }) m
      (lookup-HasRoom key m.connections ch e w.channels) w

-- Whatever packets arrive and whatever the calls: no key is registered or waits twice, at most 32
-- connections wait to be accepted, and at most 256 packets in each channel.
pub reachable-IsValid : {m : UtpMux} → Reach m → IsValid m
reachable-IsValid (start random) = record {
  connection_keys = tt;
  pending_keys = tt;
  backlog = omega arith;
  channels = tt;
  new_channels = tt;
}
reachable-IsValid (next r s) = Step-IsValid s (reachable-IsValid r)

first_candidate :
    (pkt : Packet) (addr : ℕ) (connections : List (ℕ × Channel)) (ch : Channel)
    → lookup (key_of addr pkt.connection_id) connections ≡ some ch
    → route_to (candidate_ids pkt) pkt addr connections
      ≡ some (insert (key_of addr pkt.connection_id) (try_send pkt ch) connections)
first_candidate pkt addr connections ch e = elim (Bool-cases (is_reset pkt)) [
  | inl yes_reset ↦
      ap (λ ids. route_to ids pkt addr connections) (if_true (is_reset pkt) _ _ yes_reset)
      ∙ route_to_known pkt.connection_id
          (wrapping_add pkt.connection_id 1 ∷ wrapping_sub pkt.connection_id 1 ∷ []) pkt addr
          connections ch e
  | inr other ↦
      ap (λ ids. route_to ids pkt addr connections) (if_false (is_reset pkt) _ _ other)
      ∙ route_to_known pkt.connection_id [] pkt addr connections ch e
]

route_packet_known :
    (room : Bool) (pkt : Packet) (addr : ℕ) (m : UtpMux) (ch : Channel)
    → is_syn pkt ≡ false
    → lookup (key_of addr pkt.connection_id) m.connections ≡ some ch
    → route_packet room pkt addr m ≡ record m {
      connections = insert (key_of addr pkt.connection_id) (try_send pkt ch) m.connections;
    }
unfolding route_packet
route_packet_known room pkt addr m ch s e =
    if_false (is_syn pkt) _ _ s ∙ rw (route_other, first_candidate pkt addr m.connections ch e) refl

-- A packet that is no SYN and comes for a registered connection goes to the end of its channel if there is
-- room and a receiver, and no other channel changes.
pub route_packet_delivers :
    (room : Bool) (pkt : Packet) (addr other : ℕ) (m : UtpMux) (ch : Channel)
    → is_syn pkt ≡ false
    → lookup (key_of addr pkt.connection_id) m.connections ≡ some ch
    → let after = route_packet room pkt addr m in
      let key = key_of addr pkt.connection_id in
      (lookup other after.connections ≡ (
        if key == other
        then some (
            if ch.has_receiver && ltb (length ch.waiting) conn_channel_capacity
            then record ch { waiting = ch.waiting ++ pkt ∷ [] }
            else ch)
        else lookup other m.connections))
      × (after.sent ≡ m.sent)
      × (after.pending_incoming ≡ m.pending_incoming)
route_packet_delivers room pkt addr other m ch s e =
    let after = route_packet_known room pkt addr m ch s e in
    (
      ap (λ (n : UtpMux). lookup other n.connections) after
          ∙ lookup-insert (key_of addr pkt.connection_id) other (try_send pkt ch) m.connections,
      ap (λ (n : UtpMux). n.sent) after,
      ap (λ (n : UtpMux). n.pending_incoming) after,
    )

-- ===== src/Utp/Mux/Route.antt =====
-- src/torrent/utp/multiplexer.rs: where packets go, and what the tables keep to.
use gosh_dl.Base.{
  ℕ, ◌≤◌, ◌≡◌, refl, sym, ◌∙◌, subst, inl, inr, Bool, true, false, ◌&&◌, List, [], ◌∷◌, none, some,
  arith, if◌then◌else◌, ◌==◌, ltb, leb, some_inj, length, lookup, insert, remove, IsMap,
  insert-IsMap, remove-IsMap, length-remove-le, length-insert_absent, length-append, All,
  Bool-cases, Option-cases,
}
use gosh_dl.Utp.Packet.{Packet}
use gosh_dl.Utp.Socket.{wrapping_add}
use gosh_dl.Utp.Mux.{
  max_pending_incoming, conn_channel_capacity, key_of, Channel, empty_channel, try_send,
  PendingConnection, UtpMux, is_syn, is_reset, candidate_ids, route_to, queue_syn, route_syn,
  refuse, route_other, route_packet, cleanup, connect, accept_first,
}

abbrev pub HasRoom : ℕ × Channel → Type 0
HasRoom (key, ch) = length ch.waiting ≤ conn_channel_capacity

abbrev pub IsNew : ℕ × PendingConnection → Type 0
IsNew (key, conn) = conn.channel ≡ empty_channel

-- No key stands twice, the backlog and the channels keep to their bounds.
pub record IsValid (m : UtpMux) : Type 0 where
  pub connection_keys : IsMap m.connections
  pub pending_keys : IsMap m.pending_incoming
  pub backlog : length m.pending_incoming ≤ max_pending_incoming
  pub channels : All HasRoom m.connections
  pub new_channels : All IsNew m.pending_incoming

pub insert-All {ℓ κ} :
    {V : Type ℓ} (P : ℕ × V → Type κ) (k : ℕ) (v : V) (entries : List (ℕ × V))
    → P (k, v)
    → All P entries
    → All P (insert k v entries)
unfolding insert
insert-All P k v [] p h = (p, tt)
insert-All P k v ((j, w) ∷ entries) p h = elim (Bool-cases (j == k)) [
  | inl same ↦ rw same (p, h.1)
  | inr other ↦ rw other (h.0, insert-All P k v entries p h.1)
]

remove-All {ℓ κ} :
    {V : Type ℓ} (P : ℕ × V → Type κ) (k : ℕ) (entries : List (ℕ × V))
    → All P entries
    → All P (remove k entries)
unfolding remove
remove-All P k [] h = tt
remove-All P k ((j, w) ∷ entries) h = elim (Bool-cases (j == k)) [
  | inl same ↦ rw same (remove-All P k entries h.1)
  | inr other ↦ rw other (h.0, remove-All P k entries h.1)
]

pub lookup-HasRoom :
    (k : ℕ) (entries : List (ℕ × Channel)) (ch : Channel)
    → lookup k entries ≡ some ch
    → All HasRoom entries
    → length ch.waiting ≤ conn_channel_capacity
unfolding lookup
lookup-HasRoom k [] ch e h = absurd cc
lookup-HasRoom k ((j, w) ∷ entries) ch e h =
    ground (arith, lookup-HasRoom k entries ch, e, h.0, h.1)

try_send-HasRoom :
    (pkt : Packet) (ch : Channel)
    → length ch.waiting ≤ conn_channel_capacity
    → length (try_send pkt ch).waiting ≤ conn_channel_capacity
try_send-HasRoom pkt ch h =
    elim (Bool-cases (ch.has_receiver && ltb (length ch.waiting) conn_channel_capacity)) [
      | inl taken ↦ rw taken (ground (arith, length-append ch.waiting (pkt ∷ []), taken))
      | inr dropped ↦ rw dropped h
    ]

-- A packet sent to a registered connection.
send-IsValid :
    (key : ℕ) (pkt : Packet) (ch : Channel) (m : UtpMux)
    → lookup key m.connections ≡ some ch
    → IsValid m
    → IsValid (record m { connections = insert key (try_send pkt ch) m.connections })
send-IsValid key pkt ch m e w = record {
  connection_keys = insert-IsMap key (try_send pkt ch) m.connections w.connection_keys;
  pending_keys = w.pending_keys;
  backlog = w.backlog;
  channels =
      insert-All HasRoom key (try_send pkt ch) m.connections
        (try_send-HasRoom pkt ch (lookup-HasRoom key m.connections ch e w.channels)) w.channels;
  new_channels = w.new_channels;
}

queue_syn-IsValid :
    (pkt : Packet) (addr : ℕ) (m : UtpMux) → IsValid m → IsValid (queue_syn pkt addr m)
queue_syn-IsValid pkt addr m w =
    let key = key_of addr pkt.connection_id in
    let full = leb max_pending_incoming (length m.pending_incoming) in
    let conn : PendingConnection = record {
      remote_addr = addr;
      channel = empty_channel;
      pending_syn = pkt;
    } in
    elim (Option-cases (lookup key m.pending_incoming)) [
      | inr (c, e) ↦ rw e w
      | inl e ↦ elim (Bool-cases full) [
        | inl at_bound ↦ rw (e, at_bound) w
        | inr below ↦
            rw (e, below)
              record {
                connection_keys = w.connection_keys;
                pending_keys = insert-IsMap key conn m.pending_incoming w.pending_keys;
                backlog = ground (arith, length-insert_absent key conn m.pending_incoming e, below);
                channels = w.channels;
                new_channels = insert-All IsNew key conn m.pending_incoming refl w.new_channels;
              }
      ]
    ]

choose-IsValid : (b : Bool) (m n : UtpMux) → IsValid m → IsValid n → IsValid (if b then m else n)
choose-IsValid true m n v w = v
choose-IsValid false m n v w = w

answer-IsValid :
    (answers : List (List ℕ × ℕ)) (m : UtpMux) → IsValid m → IsValid (record m { sent = answers })
answer-IsValid answers m w = record {
  connection_keys = w.connection_keys;
  pending_keys = w.pending_keys;
  backlog = w.backlog;
  channels = w.channels;
  new_channels = w.new_channels;
}

refuse-IsValid :
    (room : Bool) (pkt : Packet) (addr : ℕ) (m : UtpMux)
    → IsValid m
    → IsValid (refuse room pkt addr m)
refuse-IsValid room pkt addr m w =
    choose-IsValid (is_reset pkt) m _ w (choose-IsValid room _ m (answer-IsValid _ m w) w)

route_to_unknown :
    (id : ℕ) (ids : List ℕ) (pkt : Packet) (addr : ℕ) (connections : List (ℕ × Channel))
    → lookup (key_of addr id) connections ≡ none
    → route_to (id ∷ ids) pkt addr connections ≡ route_to ids pkt addr connections
route_to_unknown id ids pkt addr connections e = rw (route_to, e) refl

pub route_to_known :
    (id : ℕ) (ids : List ℕ) (pkt : Packet) (addr : ℕ) (connections : List (ℕ × Channel))
    (ch : Channel)
    → lookup (key_of addr id) connections ≡ some ch
    → route_to (id ∷ ids) pkt addr connections
      ≡ some (insert (key_of addr id) (try_send pkt ch) connections)
route_to_known id ids pkt addr connections ch e = rw (route_to, e) refl

route_to-IsValid :
    (ids : List ℕ) (pkt : Packet) (addr : ℕ) (m : UtpMux) (after : List (ℕ × Channel))
    → route_to ids pkt addr m.connections ≡ some after
    → IsValid m
    → IsValid (record m { connections = after })
route_to-IsValid [] pkt addr m after e w = absurd cc
route_to-IsValid (id ∷ ids) pkt addr m after e w =
    elim (Option-cases (lookup (key_of addr id) m.connections)) [
      | inl none_here ↦
          route_to-IsValid ids pkt addr m after
            (sym (route_to_unknown id ids pkt addr m.connections none_here) ∙ e) w
      | inr (ch, here) ↦
          subst (λ c. IsValid (record m { connections = c }))
            (some_inj (sym (route_to_known id ids pkt addr m.connections ch here) ∙ e))
            (send-IsValid (key_of addr id) pkt ch m here w)
    ]

route_other-IsValid :
    (room : Bool) (pkt : Packet) (addr : ℕ) (m : UtpMux)
    → IsValid m
    → IsValid (route_other room pkt addr m)
route_other-IsValid room pkt addr m w =
    elim (Option-cases (route_to (candidate_ids pkt) pkt addr m.connections)) [
      | inl e ↦ rw (route_other, e) (refuse-IsValid room pkt addr m w)
      | inr (after, e) ↦
          rw (route_other, e) (route_to-IsValid (candidate_ids pkt) pkt addr m after e w)
    ]

route_syn-IsValid :
    (pkt : Packet) (addr : ℕ) (m : UtpMux) → IsValid m → IsValid (route_syn pkt addr m)
route_syn-IsValid pkt addr m w =
    let key = key_of addr (wrapping_add pkt.connection_id 1) in
    elim (Option-cases (lookup key m.connections)) [
      | inl e ↦ rw (route_syn, e) (queue_syn-IsValid pkt addr m w)
      | inr (ch, e) ↦ rw (route_syn, e) (send-IsValid key pkt ch m e w)
    ]

pub route_packet-IsValid :
    (room : Bool) (pkt : Packet) (addr : ℕ) (m : UtpMux)
    → IsValid m
    → IsValid (route_packet room pkt addr m)
unfolding route_packet
route_packet-IsValid room pkt addr m w =
    choose-IsValid (is_syn pkt) _ _ (route_syn-IsValid pkt addr m w)
      (route_other-IsValid room pkt addr m w)

register-IsValid :
    (key : ℕ) (m : UtpMux)
    → IsValid m
    → IsValid (record m { connections = insert key empty_channel m.connections })
register-IsValid key m w = record {
  connection_keys = insert-IsMap key empty_channel m.connections w.connection_keys;
  pending_keys = w.pending_keys;
  backlog = w.backlog;
  channels = insert-All HasRoom key empty_channel m.connections (omega arith) w.channels;
  new_channels = w.new_channels;
}

pub connect-IsValid : (addr : ℕ) (m : UtpMux) → IsValid m → IsValid (connect addr m)
connect-IsValid addr m w =
    let v = register-IsValid (key_of addr m.next_conn_id) m w in
    record {
      connection_keys = v.connection_keys;
      pending_keys = v.pending_keys;
      backlog = v.backlog;
      channels = v.channels;
      new_channels = v.new_channels;
    }

pub cleanup-IsValid : (key : ℕ) (m : UtpMux) → IsValid m → IsValid (cleanup key m)
cleanup-IsValid key m w = record {
  connection_keys = remove-IsMap key m.connections w.connection_keys;
  pending_keys = w.pending_keys;
  backlog = w.backlog;
  channels = remove-All HasRoom key m.connections w.channels;
  new_channels = w.new_channels;
}

pub accept_first-IsValid :
    (pending : List (ℕ × PendingConnection)) (m : UtpMux)
    → All IsNew pending
    → IsValid m
    → IsValid (accept_first pending m)
accept_first-IsValid [] m news w = w
accept_first-IsValid ((key, conn) ∷ rest) m news w =
    let registered = key_of conn.remote_addr (wrapping_add conn.pending_syn.connection_id 1) in
    let room : length conn.channel.waiting ≤ conn_channel_capacity =
      subst (λ (ch : Channel). length ch.waiting ≤ conn_channel_capacity) (sym news.0)
        (omega arith) in
    record {
      connection_keys = insert-IsMap registered conn.channel m.connections w.connection_keys;
      pending_keys = remove-IsMap key m.pending_incoming w.pending_keys;
      backlog = omega (arith, w.backlog, length-remove-le key m.pending_incoming);
      channels = insert-All HasRoom registered conn.channel m.connections room w.channels;
      new_channels = remove-All IsNew key m.pending_incoming w.new_channels;
    }

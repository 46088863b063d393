-- ===== src/Utp/Mux.antt =====
-- src/torrent/utp/multiplexer.rs: the routing of packets to connections. An address is a number; a
-- `ConnectionKey` is the number below, one for each pair of an address and a 16-bit id. A channel is the
-- packets that wait in it, and whether its receiver is still there. The UDP socket is the list of the
-- packets sent; whether the channel to it has room is an argument. A hash map is the list of its entries in
-- the order in which it is iterated.
pub mod Route
pub mod Reach
mod Tests
use gosh_dl.Base.{
  ℕ, zero, suc, ◌+◌, ◌*◌, ◌^◌, Bool, true, false, ◌&&◌, ◌||◌, List, [], ◌∷◌, ◌++◌, Option, none,
  some, if◌then◌else◌, ltb, leb, length, lookup, insert, remove, contains,
}
use gosh_dl.Utp.Packet
use gosh_dl.Utp.Packet.{Packet, syn_packet, reset_packet, encode}
use gosh_dl.Utp.Socket.{same_type, wrapping_add, wrapping_sub}

abbrev pub max_pending_incoming : ℕ
max_pending_incoming = 32

abbrev pub conn_channel_capacity : ℕ
conn_channel_capacity = 256

abbrev pub key_of : ℕ → ℕ → ℕ
key_of remote_addr conn_id = remote_addr * 2 ^ 16 + conn_id

pub record Channel : Type 0 where
  pub waiting : List Packet
  pub has_receiver : Bool

abbrev pub empty_channel : Channel
empty_channel = record { waiting = []; has_receiver = true }

-- `try_send`: a packet for which there is no room is dropped.
abbrev pub try_send : Packet → Channel → Channel
try_send pkt ch =
    if ch.has_receiver && ltb (length ch.waiting) conn_channel_capacity
    then record ch { waiting = ch.waiting ++ pkt ∷ [] }
    else ch

pub record PendingConnection : Type 0 where
  pub remote_addr : ℕ
  pub channel : Channel
  pub pending_syn : Packet

pub record UtpMux : Type 0 where
  pub connections : List (ℕ × Channel)
  pub pending_incoming : List (ℕ × PendingConnection)
  pub next_conn_id : ℕ
  pub sent : List (List ℕ × ℕ)

abbrev pub is_syn : Packet → Bool
is_syn pkt = same_type pkt.packet_type syn_packet

abbrev pub is_reset : Packet → Bool
is_reset pkt = same_type pkt.packet_type reset_packet

abbrev pub candidate_ids : Packet → List ℕ
candidate_ids pkt =
    let id = pkt.connection_id in
    if is_reset pkt then id ∷ wrapping_add id 1 ∷ wrapping_sub id 1 ∷ [] else id ∷ []

-- The loop over the ids: the first connection that is known gets the packet.
abbrev pub route_to : List ℕ → Packet → ℕ → List (ℕ × Channel) → Option (List (ℕ × Channel))
route_to [] pkt addr connections = none
route_to (id ∷ ids) pkt addr connections =
    let rest = route_to ids pkt addr connections in
    elim (lookup (key_of addr id) connections) [
      | none ↦ rest
      | some ch ↦ some (insert (key_of addr id) (try_send pkt ch) connections)
    ]

-- A SYN for which no connection is registered.
abbrev pub queue_syn : Packet → ℕ → UtpMux → UtpMux
queue_syn pkt addr m =
    let key = key_of addr pkt.connection_id in
    if contains key m.pending_incoming || leb max_pending_incoming (length m.pending_incoming)
    then m
    else record m {
      pending_incoming =
          insert key (record { remote_addr = addr; channel = empty_channel; pending_syn = pkt })
            m.pending_incoming;
    }

abbrev pub route_syn : Packet → ℕ → UtpMux → UtpMux
route_syn pkt addr m =
    let key = key_of addr (wrapping_add pkt.connection_id 1) in
    elim (lookup key m.connections) [
      | none ↦ queue_syn pkt addr m
      | some ch ↦ record m { connections = insert key (try_send pkt ch) m.connections }
    ]

-- What is done with a packet of no known connection.
abbrev pub refuse : Bool → Packet → ℕ → UtpMux → UtpMux
refuse room pkt addr m =
    if is_reset pkt
    then m
    else if room
    then record m {
      sent = m.sent ++ (encode (Packet.reset pkt.connection_id 0 pkt.seq_nr), addr) ∷ [];
    }
    else m

abbrev pub route_other : Bool → Packet → ℕ → UtpMux → UtpMux
route_other room pkt addr m = elim (route_to (candidate_ids pkt) pkt addr m.connections) [
  | none ↦ refuse room pkt addr m
  | some connections ↦ record m { connections = connections }
]

unfoldable pub route_packet : Bool → Packet → ℕ → UtpMux → UtpMux
route_packet room pkt addr m =
    if is_syn pkt then route_syn pkt addr m else route_other room pkt addr m

abbrev pub new_mux : ℕ → UtpMux
new_mux random = record {
  connections = [];
  pending_incoming = [];
  next_conn_id = random;
  sent = [];
}

-- The hook of a connection whose task ends.
abbrev pub cleanup : ℕ → UtpMux → UtpMux
cleanup key m = record m { connections = remove key m.connections }

-- The registration of a connection to an address; when it fails, `cleanup` removes it.
abbrev pub connect : ℕ → UtpMux → UtpMux
connect addr m = record m {
  connections = insert (key_of addr m.next_conn_id) empty_channel m.connections;
  next_conn_id = wrapping_add m.next_conn_id 2;
}

-- One round of the loop of `accept`: the first pending connection is registered.
abbrev pub accept_first : List (ℕ × PendingConnection) → UtpMux → UtpMux
accept_first [] m = m
accept_first ((key, conn) ∷ rest) m = record m {
  connections =
      insert (key_of conn.remote_addr (wrapping_add conn.pending_syn.connection_id 1)) conn.channel
        m.connections;
  pending_incoming = remove key m.pending_incoming;
}

abbrev pub accept : UtpMux → UtpMux
accept m = accept_first m.pending_incoming m

abbrev pub close : UtpMux → UtpMux
close m = record m { connections = []; pending_incoming = [] }

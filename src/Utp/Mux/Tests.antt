-- ===== src/Utp/Mux/Tests.antt =====
-- src/torrent/utp/multiplexer.rs: concrete inputs for the theorems on the routing of packets.
use gosh_dl.Base.{ℕ, ◌≡◌, refl, true, [], ◌∷◌, none, some, lookup, insert, remove}
use gosh_dl.Utp.Packet.{Packet, PacketType, syn_packet, data_packet}
use gosh_dl.Utp.Mux.{UtpMux, empty_channel, new_mux, accept, key_of, route_packet}
use gosh_dl.Utp.Mux.Route.{IsValid}
use gosh_dl.Utp.Mux.Reach.{start, next, routes, accepts, reachable-IsValid, route_packet_delivers}

abbrev packet_of : PacketType → ℕ → Packet
packet_of t connection_id = record {
  packet_type = t;
  connection_id = connection_id;
  timestamp_us = 0;
  timestamp_diff_us = 0;
  wnd_size = 0;
  seq_nr = 1;
  ack_nr = 0;
  selective_ack = none;
  payload = [];
}

abbrev first_packet : Packet
first_packet = packet_of syn_packet 100

abbrev second_packet : Packet
second_packet = packet_of data_packet 101

abbrev other_end : ℕ
other_end = 5

abbrev accepted : UtpMux
accepted = accept (route_packet true first_packet other_end (new_mux 7))

reachable-IsValid_example : IsValid accepted
reachable-IsValid_example =
    reachable-IsValid (next (next (start 7) (routes true first_packet other_end)) accepts)

registered : lookup (key_of other_end 101) accepted.connections ≡ some empty_channel
unfolding route_packet lookup insert remove
registered = refl

route_packet_delivers_example :
    let after = route_packet true second_packet other_end accepted in
    (lookup (key_of other_end 101) after.connections
      ≡ some (record { waiting = second_packet ∷ []; has_receiver = true }))
    × (after.sent ≡ accepted.sent)
    × (after.pending_incoming ≡ accepted.pending_incoming)
route_packet_delivers_example =
    route_packet_delivers true second_packet other_end (key_of other_end 101) accepted empty_channel
      refl registered

-- ===== src/Utp.antt =====
-- src/torrent/utp: packets and selective acknowledgements of the uTP transport.
pub mod Ack
pub mod Packet
pub mod State
pub mod Congestion
pub mod Socket
pub mod Mux
mod Tests

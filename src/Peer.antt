-- ===== src/Peer.antt =====
-- src/torrent/peer.rs: the messages of the peer wire protocol, the handshake, and the state of a
-- connection. `Stream` sends and receives whole sequences of messages.
pub mod Message
pub mod RoundTrip
pub mod Connection
pub mod Pieces
pub mod Handshake
pub mod Stream
mod Tests

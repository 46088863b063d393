-- ===== src/Piece.antt =====
-- src/torrent/piece.rs: pieces in progress, and the manager that selects, verifies and stores pieces.
pub mod Pending
pub mod Manager
pub mod Transfer
pub mod Requests
pub mod Selected

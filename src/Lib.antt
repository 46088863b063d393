-- ===== src/Lib.antt =====
-- gosh-dl is a download engine for HTTP and BitTorrent. The parts modelled here decide what is downloaded
-- and served, and read and write the formats that come from outside:
--
-- * src/priority_queue.rs gives out a bounded number of slots to downloads by priority and arrival
--   (Queue; its entries and heap are Queue/Entry, with the priorities of src/protocol/options.rs).
--   `acquire` is `take_number`, `enqueue` and rounds of `poll`; `Drop` of a permit is `drop_permit`; the other
--   methods keep their names. tokio's semaphore is the record `Semaphore`, a parameter. Queue/Reach has
--   the interleavings as a step relation: what is done under the lock is one step, and so is each of the
--   steps of `acquire`, of `Drop` and of `set_max_concurrent`, which other calls may come between; Queue/Settle lets the
--   calls that are between their steps end. `notify_waiters` is a counter.
-- * src/torrent/metainfo.rs lays the files of a torrent out and cuts them into pieces (Metainfo).
-- * src/torrent/piece.rs collects the pieces. Piece/Pending is `PendingPiece`, a piece in progress;
--   Piece/Manager is the state of `PieceManager` and the choice of the next piece; Piece/Transfer starts,
--   fills, verifies and stores pieces with the layout of Metainfo; Piece/Selected is the file selection;
--   Piece/Requests lists the blocks to ask peers for.
--   SHA-1 is an argument. A disk access is the list of its writes, and whether it succeeds an argument.
-- * src/torrent/bencode.rs parses and encodes the format of torrent files and of messages (Bencode; the
--   numbers in Bencode/Number, the accessors in Bencode/Access, the span whose hash identifies a torrent in
--   Bencode/Info).
-- * src/torrent/utp/packet.rs is the packet format of the uTP transport (Utp/Ack, Utp/Packet);
--   src/torrent/utp/socket.rs is one connection, with the states of state.rs (Utp/Socket, Utp/State):
--   receiving in Utp/Socket/Receive, `process_packet` in Utp/Socket/Process, sending data and
--   retransmission in Utp/Socket/Send. The channel to the multiplexer is the list of the packets sent,
--   and whether it is open. src/torrent/utp/congestion.rs is its congestion window (Utp/Congestion); the
--   floating-point change of the window is an argument, and sums and products of `u32` wrap.
--   src/torrent/utp/multiplexer.rs routes packets to
--   connections (Utp/Mux); Utp/Mux/Reach has the interleavings of its steps.
-- * src/torrent/peer.rs is the wire protocol of BitTorrent (Peer): messages, handshake, and the state of
--   a connection. The stream is the bytes not read yet and the bytes written; Peer/Stream puts the two
--   sides together.
-- * src/torrent/metadata.rs collects the metadata of a magnet link (Metadata); SHA-1 is an argument.
-- * src/torrent/pex.rs tells peers of other peers, in the bencode format (Pex).
-- * src/http/segment.rs divides an HTTP download into segments, with `Segment` of src/storage/mod.rs
--   (Http/Segment), and its tasks write the chunks that they receive (Http/Transfer): each step of the
--   interleaving is one chunk of one task. src/http/resume.rs validates partial files and ranged
--   responses (Http/Resume).
-- * src/http/mirror.rs is the failover between the mirrors of a file (Mirror).
-- * src/torrent/choking.rs decides what peers are served (Choking).
-- * src/scheduler.rs and src/protocol/scheduler.rs set the bandwidth limits by hour and weekday (Schedule).
--
-- Base holds what the parts share: Boolean tests, lists over the native numbers, finite maps as
-- association lists, a stable sort, integers, and the result of code whose errors are of one kind.
--
-- A call that holds its lock throughout is a function of the state; `verify_and_save` of the piece manager
-- and `process_message` of the metadata take several locks, and run here with no other call between them.
-- Machine integers are native numbers with their wrap-around written out. The current time is an argument. A hash map is the list of its
-- entries in the order in which it is iterated.
--
-- Fuel: the bencode parser spends a unit at each call, and `parse` starts with two for each byte and two
-- more, since each call that does not end reads at least one byte within two calls; the walk over the
-- top-level dictionary spends one for each entry, of at least two bytes; the loop over the extensions of a
-- packet spends one for each extension, of at least two bytes, and starts with one for each byte.
--
-- The delivery of buffered uTP packets spends a unit for each packet, and starts with as many as there are;
-- sending data spends one for each chunk of at least one byte, and starts with one for each byte.
--
-- Not modelled: network and file I/O, the tasks and channels of the engine, the requests and retries of
-- HTTP, storage, cryptography, floating-point arithmetic, and the text of errors and logs. Of the parts
-- above: reading pieces back from disk, preallocation, the statistics of the queue, the reading of the
-- fields of a torrent file from its bencode value, and the extension handshake of peers.
pub mod Base
pub mod Bencode
pub mod Choking
pub mod Http
pub mod Metadata
pub mod Metainfo
pub mod Mirror
pub mod Peer
pub mod Pex
pub mod Piece
pub mod Queue
pub mod Schedule
pub mod Utp

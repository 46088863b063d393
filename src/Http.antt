-- ===== src/Http.antt =====
-- src/http: the segments of an HTTP download, the chunks that its tasks write, and the validation
-- of ranged responses.
pub mod Segment
pub mod Transfer
pub mod Resume
mod Tests

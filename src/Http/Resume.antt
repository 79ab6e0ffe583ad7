-- ===== src/Http/Resume.antt =====
-- Reading a message in pieces: src/protocol/http_parser.c scans again from the offset of the
-- element that was not complete.
pub mod Scans
pub mod Name
pub mod Steps
pub mod Header
pub mod HeaderLoop
pub mod ChunkLoop
pub mod Reserve
pub mod Body
pub mod Append
pub mod Pieces
pub mod Message

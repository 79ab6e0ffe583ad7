-- ===== src/Http/Bounds.antt =====
-- How far the parsing functions of src/protocol/http_parser.c move their offsets: each round that
-- returns 1 moves on, and none moves past the end of the message.
pub mod Scans
pub mod Steps
pub mod ChunkSteps
pub mod Loops

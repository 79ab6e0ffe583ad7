-- ===== src/Http/Valid.antt =====
-- The invariant of a parser of src/protocol/http_parser.c between two calls.
pub mod Lengths
pub mod Body
pub mod Append
pub mod Message
use tinywf.Prelude.{ℕ, ◌≡◌, ◌≤◌, ◌<◌, ◌⊎◌, ◌-◌, true, length}
use tinywf.Http.{Parser, is_complete, size_max}

-- A length that the program has read has fifteen digits at most.
abbrev pub IsLength : ℕ → Type 0
IsLength n = (n ≡ size_max) ⊎ (n < 1_000_000_000_000_000)

-- The buffer holds `msgsize` bytes with room for one more (or nothing was allocated yet), and the
-- offsets stand inside what it holds; that of the chunks behind the header, where the body is read
-- by chunks. The lengths are those that the program can have read.
pub record IsValid (p : Parser) : Type 0 where
  pub stored : length p.msgbuf ≡ p.msgsize
  pub room : p.msgsize ≤ p.bufsize - 1
  pub header_in : p.header_offset ≤ p.msgsize
  pub chunk_in :
      is_complete p.header_state ≡ true
      → p.transfer_length ≡ size_max
      → p.chunked ≡ true
      → (p.header_offset ≤ p.chunk_offset) × (p.chunk_offset ≤ p.msgsize)
  pub content : IsLength p.content_length
  pub transfer : IsLength p.transfer_length

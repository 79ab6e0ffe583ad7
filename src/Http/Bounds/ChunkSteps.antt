-- ===== src/Http/Bounds/ChunkSteps.antt =====
-- One round of the chunk loop of src/protocol/http_parser.c.
use tinywf.Prelude.{
  ℕ, ◌+◌, ◌≡◌, ◌≢◌, [], arith, ◌<◌, ◌≤◌, length, drop, length-drop, inl, inr, none, some, Option,
}
use tinywf.Prelude.Bytes.{Bytes}
use tinywf.Http.{Parser, Status, more, ChunkState, chunk_data, trailer_part, chunk_complete}
use tinywf.Http.StartLine
use tinywf.Http.StartLine.{parse_start_line, scan_start_line, split_start_line, at_crlf}
use tinywf.Http.Chunk
use tinywf.Http.Chunk.{
  chunk_step, in_chunk, sized_chunk, scanned_chunk, parse_chunk_data, parse_trailer_part,
  scan_chunk_line, scan_trailer, strtol,
}
use tinywf.Http.Bounds.Scans.{scan_chunk_line-length, scan_trailer-bounds}
use tinywf.Http.Bounds.Steps.{Moves}

sized_chunk-Moves :
    (len i : ℕ) (size : Option ℕ) (p q : Parser)
    → i + 2 ≤ len
    → sized_chunk len i size p ≡ (more, q)
    → Moves p.chunk_offset q.chunk_offset len
unfolding sized_chunk
sized_chunk-Moves len i none p q b h = ground arith
sized_chunk-Moves len i (some n) p q b h = ground arith

pub parse_chunk_data-Moves :
    (ptr : Bytes) (p q : Parser)
    → parse_chunk_data ptr p ≡ (more, q)
    → Moves p.chunk_offset q.chunk_offset (length ptr)
unfolding parse_chunk_data
parse_chunk_data-Moves ptr p q h = elim (StartLine.LineScan-cases (scan_chunk_line 0 [] ptr)) [
  | inl stuck ↦ ground (arith, stuck)
  | inr (l, e) ↦
      sized_chunk-Moves (length ptr) (length l) (strtol l) p q
        (omega (arith, scan_chunk_line-length 0 [] ptr l e)) (rw e at h)
]

pub parse_trailer_part-Moves :
    (ptr : Bytes) (p q : Parser)
    → parse_trailer_part ptr p ≡ (more, q)
    → Moves p.chunk_offset q.chunk_offset (length ptr)
unfolding parse_trailer_part
parse_trailer_part-Moves ptr p q h = elim (Chunk.TrailerScan-cases (scan_trailer 0 ptr)) [
  | inl stuck ↦ ground (arith, stuck)
  | inr (i, e) ↦ ground (arith, e, scan_trailer-bounds 0 ptr i)
]

-- A round of the chunk loop that returns 1, from an offset inside the message, moves the offset
-- on, and not past the end.
pub chunk_step-Moves :
    (message : Bytes) (p q : Parser)
    → p.chunk_offset ≤ length message
    → chunk_step message p ≡ (more, q)
    → (p.chunk_offset < q.chunk_offset) × (q.chunk_offset ≤ length message)
unfolding chunk_step
chunk_step-Moves message p q h e = in_state p.chunk_state e
  where
    ptr : Bytes
    ptr = drop p.chunk_offset message

    within :
        Moves p.chunk_offset q.chunk_offset (length ptr)
        → (p.chunk_offset < q.chunk_offset) × (q.chunk_offset ≤ length message)
    within m = omega (arith, length-drop p.chunk_offset message)

    in_state :
        (s : ChunkState)
        → in_chunk s ptr p ≡ (more, q)
        → (p.chunk_offset < q.chunk_offset) × (q.chunk_offset ≤ length message)
    in_state chunk_data e = within (parse_chunk_data-Moves ptr p q e)
    in_state trailer_part e = within (parse_trailer_part-Moves ptr p q e)
    in_state chunk_complete e = within (parse_trailer_part-Moves ptr p q e)

sized_chunk-Stays :
    (len i : ℕ) (size : Option ℕ) (p q : Parser) (s : Status)
    → s ≢ more
    → sized_chunk len i size p ≡ (s, q)
    → q ≡ p
unfolding sized_chunk
sized_chunk-Stays len i none p q s other h = ground arith
sized_chunk-Stays len i (some n) p q s other h = ground arith

-- A round of the chunk loop that returns another value leaves the parser.
pub chunk_step-Stays :
    (message : Bytes) (p q : Parser) (s : Status) → s ≢ more → chunk_step message p ≡ (s, q) → q ≡ p
unfolding chunk_step
chunk_step-Stays message p q s other e = in_state p.chunk_state e
  where
    ptr : Bytes
    ptr = drop p.chunk_offset message

    sized : parse_chunk_data ptr p ≡ (s, q) → q ≡ p
    sized h = elim (StartLine.LineScan-cases (scan_chunk_line 0 [] ptr)) [
      | inl stuck ↦ unfold parse_chunk_data in ground (arith, stuck)
      | inr (l, k) ↦
          sized_chunk-Stays (length ptr) (length l) (strtol l) p q s other
            (unfold parse_chunk_data in rw k at h)
    ]

    trailed : parse_trailer_part ptr p ≡ (s, q) → q ≡ p
    trailed h =
        unfold parse_trailer_part in ground (arith, Chunk.TrailerScan-cases (scan_trailer 0 ptr))

    in_state : (st : ChunkState) → in_chunk st ptr p ≡ (s, q) → q ≡ p
    in_state chunk_data e = sized e
    in_state trailer_part e = trailed e
    in_state chunk_complete e = trailed e

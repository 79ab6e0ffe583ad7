-- ===== src/Http/ChunkFrame.antt =====
-- What the chunk loop of src/protocol/http_parser.c leaves alone: it reads and writes nothing of the
-- parser but the offset and the state of the chunks.
use tinywf.Prelude.{
  ℕ, zero, suc, ◌-◌, ◌≡◌, refl, false, [], arith, inl, inr, length, drop, Bool-cases, none, some,
  Option,
}
use tinywf.Prelude.Bytes.{Bytes}
use tinywf.Http.{
  Parser, Status, wait, ChunkState, chunk_data, trailer_part, chunk_complete, is_chunk_complete,
}
use tinywf.Http.StartLine
use tinywf.Http.StartLine.{
  parse_start_line, scan_start_line, split_start_line, at_crlf, scanned_start_line,
  start_line_found,
}
use tinywf.Http.Bounds.Loops.{step-cases}
use tinywf.Http.Bounds.ChunkSteps.{chunk_step-Stays}
use tinywf.Http.Chunk
use tinywf.Http.Chunk.{
  chunk_step, in_chunk, chunk_loop, parse_chunk, parse_chunk_data, parse_trailer_part, sized_chunk,
  scan_chunk_line, scan_trailer, strtol,
}

-- The parser `r` at the place in the chunks where `p` is.
abbrev pub over : Parser → Parser → Parser
over r p = record r { chunk_state = p.chunk_state; chunk_offset = p.chunk_offset }

module _ (r : Parser) where
  abbrev pub result_over : Status × Parser → Status × Parser
  result_over x = (x.0, over r x.1)

  sized_chunk-frame :
      (len i : ℕ) (size : Option ℕ) (p : Parser)
      → sized_chunk len i size (over r p) ≡ result_over (sized_chunk len i size p)
  unfolding sized_chunk
  sized_chunk-frame len i none p = refl
  sized_chunk-frame len i (some n) p = ground arith

  chunk_step-frame :
      (message : Bytes) (p : Parser)
      → chunk_step message (over r p) ≡ result_over (chunk_step message p)
  unfolding chunk_step
  chunk_step-frame message p = in_state p.chunk_state
    where
      ptr : Bytes
      ptr = drop p.chunk_offset message

      sized : parse_chunk_data ptr (over r p) ≡ result_over (parse_chunk_data ptr p)
      sized = elim (StartLine.LineScan-cases (scan_chunk_line 0 [] ptr)) [
        | inl (inl e) ↦ unfold parse_chunk_data in rw e refl
        | inl (inr e) ↦ unfold parse_chunk_data in rw e refl
        | inr (l, e) ↦
            unfold parse_chunk_data in rw e (sized_chunk-frame (length ptr) (length l) (strtol l) p)
      ]

      trailed : parse_trailer_part ptr (over r p) ≡ result_over (parse_trailer_part ptr p)
      trailed =
          unfold parse_trailer_part in ground (arith, Chunk.TrailerScan-cases (scan_trailer 0 ptr))

      in_state : (s : ChunkState) → in_chunk s ptr (over r p) ≡ result_over (in_chunk s ptr p)
      in_state chunk_data = sized
      in_state trailer_part = trailed
      in_state chunk_complete = trailed

  pub chunk_loop-frame :
      (fuel : ℕ) (message : Bytes) (p : Parser) (x : Status × Parser)
      → chunk_loop fuel message p ≡ some x
      → chunk_loop fuel message (over r p) ≡ some (result_over x)
  unfolding chunk_loop
  chunk_loop-frame zero message p x e = cc
  chunk_loop-frame (suc fuel) message p x e = elim (step-cases (chunk_step message p)) [
    | inr (s, q, k, stop) ↦ ground (arith, k, stop, chunk_step-frame message p)
    | inl (q, k) ↦ ground (arith, k, chunk_step-frame message p, chunk_loop-frame fuel message q x)
  ]

  pub parse_chunk-frame :
      (message : Bytes) (p : Parser) (x : Status × Parser)
      → parse_chunk message p ≡ some x
      → parse_chunk message (over r p) ≡ some (result_over x)
  unfolding parse_chunk
  parse_chunk-frame message p x e =
      chunk_loop-frame (suc (length message - p.chunk_offset)) message p x e

-- The chunk loop changes nothing but its place.
pub parse_chunk-over :
    (message : Bytes) (p : Parser) (s : Status) (q : Parser)
    → parse_chunk message p ≡ some (s, q)
    → q ≡ over p q
parse_chunk-over message p s q e = ground (arith, parse_chunk-frame p message p (s, q) e, e)

-- Nor has it come to the end where it waits.
pub chunk_loop-open :
    (fuel : ℕ) (message : Bytes) (p q : Parser)
    → is_chunk_complete p.chunk_state ≡ false
    → chunk_loop fuel message p ≡ some (wait, q)
    → is_chunk_complete q.chunk_state ≡ false
unfolding chunk_loop
chunk_loop-open zero message p q h e = cc
chunk_loop-open (suc fuel) message p q h e = elim (step-cases (chunk_step message p)) [
  | inr (s, p', k, stop) ↦
      let same = chunk_step-Stays message p p' s (ground (arith, stop)) k in
      ground (arith, k, stop, same)
  | inl (p', k) ↦ elim (Bool-cases (is_chunk_complete p'.chunk_state)) [
    | inl complete ↦ ground (arith, k, complete)
    | inr open_chunk ↦ chunk_loop-open fuel message p' q open_chunk (ground (arith, k, open_chunk))
  ]
]

pub parse_chunk-open :
    (message : Bytes) (p q : Parser)
    → is_chunk_complete p.chunk_state ≡ false
    → parse_chunk message p ≡ some (wait, q)
    → is_chunk_complete q.chunk_state ≡ false
unfolding parse_chunk
parse_chunk-open message p q = chunk_loop-open (suc (length message - p.chunk_offset)) message p q

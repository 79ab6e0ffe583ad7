-- ===== src/Http/Resume/ChunkLoop.antt =====
-- `__parse_chunk` of src/protocol/http_parser.c over a message that comes in two pieces.
use tinywf.Prelude.{
  ℕ, zero, suc, ◌-◌, ◌≡◌, ◌≢◌, ap, ◌∙◌, [], ◌++◌, arith, ◌≤◌, inl, inr, length, length-append, drop,
  drop-append, Bool-cases, none, some, Option, max,
}
use tinywf.Prelude.Bytes.{Bytes}
use tinywf.Http.{
  Parser, Status, more, wait, is_chunk_complete, ChunkState, chunk_data, trailer_part,
  chunk_complete,
}
use tinywf.Http.StartLine
use tinywf.Http.Chunk
use tinywf.Http.Chunk.{
  chunk_step, in_chunk, chunk_loop, parse_chunk, parse_chunk_data, parse_trailer_part, sized_chunk,
  scan_chunk_line, scan_trailer, strtol,
}
use tinywf.Http.Resume.Scans.{scan_chunk_line-append, scan_trailer-append}
use tinywf.Http.Bounds.ChunkSteps.{chunk_step-Moves, chunk_step-Stays}
use tinywf.Http.Bounds.Loops.{step-cases, chunk_loop-more, chunk_loop-total, chunk_loop-within}

sized_chunk-longer :
    (len len' i : ℕ) (size : Option ℕ) (p q : Parser) (s : Status)
    → len ≤ len'
    → s ≢ wait
    → sized_chunk len i size p ≡ (s, q)
    → sized_chunk len' i size p ≡ (s, q)
unfolding sized_chunk
sized_chunk-longer len len' i none p q s b n h = h
sized_chunk-longer len len' i (some k) p q s b n h = ground arith

parse_chunk_data-append :
    (xs ys : Bytes) (p q : Parser) (s : Status)
    → s ≢ wait
    → parse_chunk_data xs p ≡ (s, q)
    → parse_chunk_data (xs ++ ys) p ≡ (s, q)
unfolding parse_chunk_data
parse_chunk_data-append xs ys p q s n h =
    elim (StartLine.LineScan-cases (scan_chunk_line 0 [] xs)) [
      | inl (inl e) ↦ ground (arith, e)
      | inl (inr e) ↦ ground (arith, e, scan_chunk_line-append 0 [] xs ys)
      | inr (l, e) ↦
          let longer : scan_chunk_line 0 [] (xs ++ ys) ≡ StartLine.found l =
            ground (arith, e, scan_chunk_line-append 0 [] xs ys) in
          rw longer (
            sized_chunk-longer (length xs) (length (xs ++ ys)) (length l) (strtol l) p q s
              (omega (arith, length-append xs ys)) n (rw e at h))
    ]

parse_trailer_part-append :
    (xs ys : Bytes) (p q : Parser) (s : Status)
    → s ≢ wait
    → parse_trailer_part xs p ≡ (s, q)
    → parse_trailer_part (xs ++ ys) p ≡ (s, q)
unfolding parse_trailer_part
parse_trailer_part-append xs ys p q s n h =
    let over : scan_trailer 0 xs ≢ Chunk.partial = λ e. ground (arith, e) in
    rw (scan_trailer-append 0 xs ys over) h

module _ (a b : Bytes) where
  chunk_step-append :
      (p q : Parser) (s : Status)
      → p.chunk_offset ≤ length a
      → s ≢ wait
      → chunk_step a p ≡ (s, q)
      → chunk_step (a ++ b) p ≡ (s, q)
  unfolding chunk_step
  chunk_step-append p q s h n e = rw (drop-append p.chunk_offset a b h) (in_state p.chunk_state e)
    where
      ptr : Bytes
      ptr = drop p.chunk_offset a

      in_state : (st : ChunkState) → in_chunk st ptr p ≡ (s, q) → in_chunk st (ptr ++ b) p ≡ (s, q)
      in_state chunk_data e = parse_chunk_data-append ptr b p q s n e
      in_state trailer_part e = parse_trailer_part-append ptr b p q s n e
      in_state chunk_complete e = parse_trailer_part-append ptr b p q s n e

  chunk_loop-resume :
      (f g : ℕ) (p q : Parser) (r : Status × Parser)
      → p.chunk_offset ≤ length a
      → chunk_loop f a p ≡ some (wait, q)
      → chunk_loop g (a ++ b) p ≡ some r
      → chunk_loop g (a ++ b) q ≡ some r
  unfolding chunk_loop
  chunk_loop-resume zero g p q r h e k = cc
  chunk_loop-resume (suc f) zero p q r h e k = cc
  chunk_loop-resume (suc f) (suc g) p q r h e k = elim (step-cases (chunk_step a p)) [
    | inr (s, p', step, stop) ↦
        let same : q ≡ p' = ground (arith, step, stop) in
        rw (same, chunk_step-Stays a p p' s (ground (arith, stop)) step) k
    | inl (p', step) ↦ elim (Bool-cases (is_chunk_complete p'.chunk_state)) [
      | inl complete ↦ ground (arith, step, complete)
      | inr partial ↦
          let again = chunk_step-append p p' more h (λ e. cc) step in
          let rest =
            chunk_loop-resume f g p' q r (chunk_step-Moves a p p' h step).1
              (ground (arith, step, partial)) (ground (arith, again, partial)) in
          chunk_loop-more g (suc g) (a ++ b) q r (omega arith) rest
    ]
  ]

  -- Where a part of the message has left the chunks unfinished, going on with more of it ends as if
  -- all had been there from the start.
  pub parse_chunk-resume :
      (p q : Parser) (r : Status × Parser)
      → p.chunk_offset ≤ length a
      → parse_chunk a p ≡ some (wait, q)
      → parse_chunk (a ++ b) p ≡ some r
      → parse_chunk (a ++ b) q ≡ some r
  unfolding parse_chunk
  parse_chunk-resume p q r h e k =
      let fp = suc (length (a ++ b) - p.chunk_offset) in
      let fq = suc (length (a ++ b) - q.chunk_offset) in
      let l = chunk_loop-resume (suc (length a - p.chunk_offset)) fp p q r h e k in
      let hq = chunk_loop-within (suc (length a - p.chunk_offset)) a p q wait h e in
      let (r2, l2) =
        chunk_loop-total fq (a ++ b) q (omega (arith, length-append a b)) (omega arith) in
      let up = chunk_loop-more fp (max fp fq) (a ++ b) q r (omega arith) l in
      let up2 = chunk_loop-more fq (max fp fq) (a ++ b) q r2 (omega arith) l2 in
      let eq : r2 ≡ r = cc in l2 ∙ ap some eq

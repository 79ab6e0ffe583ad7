-- ===== src/HttpUtil/ChunkCursor/Chunks.antt =====
-- HttpChunkCursor of src/util/HttpUtil.cc beside `__parse_chunk_data` of src/protocol/http_parser.c.
use tinywf.Prelude.{
  ◌≡◌, refl, ◌⊎◌, ◌≤◌, ℕ, suc, ◌+◌, true, false, Option, none, some, [], ◌∷◌, ◌++◌, ◌==◌,
  if◌then◌else◌, ◌∙◌, arith, length, drop, take, Bool-cases, inl, inr, ap, sym, ltb, length-append,
}
use tinywf.Prelude.Bytes.{Bytes}
use tinywf.Http.{Parser, more, trailer_part}
use tinywf.Http.StartLine
use tinywf.Http.Chunk.{parse_chunk_data, sized_chunk, scan_chunk_line, strtol}
use tinywf.HttpUtil.ChunkCursor.{
  ChunkCursor, no_chunk, next_chunk, next, next_sized, sized_at, chunk_at, chunk_stored, finished,
  strtol_end, find_return,
}
use tinywf.HttpUtil.ChunkCursor.Lines.{strtol-append, find_return-strtol_end, scan_chunk_line-found}

drop-length : (xs ys : Bytes) (n : ℕ) → drop (length xs + n) (xs ++ ys) ≡ drop n ys
drop-length [] ys n = ap (λ m. drop m ys) (omega arith)
drop-length (x ∷ xs) ys n =
    let later : suc (length xs) + n ≡ suc (length xs + n) = omega arith in
    rw later (drop-length xs ys n)

ltb-false : (m n : ℕ) → n ≤ m → ltb m n ≡ false
ltb-false m n h = ground arith

-- What the parser takes for a chunk at `c.pos`.
pub record IsChunk (p q : Parser) (text line : Bytes) (n : ℕ) : Type 0 where
  pub rest : Bytes
  pub framed : text ≡ line ++ b'\r' ∷ rest
  pub tidy : find_return line ≡ none
  pub sized : strtol line ≡ some n
  pub fits : (n ≡ 0) ⊎ (length line + (n + 4) ≤ length text)
  pub moved : q ≡ (
      if n == 0
      then record p {
        chunk_offset = p.chunk_offset + (length line + 2);
        chunk_state = trailer_part;
      }
      else record p { chunk_offset = p.chunk_offset + (n + (length line + 4)) })

pub parse_chunk_data-IsChunk :
    (text : Bytes) (p q : Parser)
    → parse_chunk_data text p ≡ (more, q)
    → (line : Bytes) × (n : ℕ) × IsChunk p q text line n
unfolding parse_chunk_data sized_chunk find_return
parse_chunk_data-IsChunk text p q h = elim (StartLine.LineScan-cases (scan_chunk_line 0 [] text)) [
  | inl stuck ↦ absurd (ground (arith, stuck))
  | inr (line, found) ↦
      let ((rest, framed), tidy) = scan_chunk_line-found 0 [] text line refl found in
      let sized : sized_chunk (length text) (length line) (strtol line) p ≡ (more, q) =
        (rw found at h) in
      in_size line rest framed tidy (strtol line) refl sized
]
  where
    in_size :
        (line rest : Bytes)
        → text ≡ line ++ b'\r' ∷ rest
        → find_return line ≡ none
        → (size : Option ℕ) → strtol line ≡ size
        → sized_chunk (length text) (length line) size p ≡ (more, q)
        → (line : Bytes) × (n : ℕ) × IsChunk p q text line n
    in_size line rest framed tidy none e k = absurd (ground arith)
    in_size line rest framed tidy (some n) e k = (
      line,
      n,
      record {
        rest = rest;
        framed = framed;
        tidy = tidy;
        sized = e;
        fits = ground arith;
        moved = ground arith;
      },
    )

-- The cursor gives the bytes of a chunk and moves to the next one, or ends at the last.
pub next-IsChunk :
    (c : ChunkCursor) (p q : Parser) (line : Bytes) (n : ℕ)
    → c.end ≡ false
    → c.chunked ≡ true
    → IsChunk p q c.pos line n
    → next c ≡ (
        if n == 0
        then no_chunk (finished c)
        else next_chunk
            (take n (drop (length line + 2) c.pos))
            (record c { pos = drop (n + (length line + 4)) c.pos }))
unfolding next next_sized sized_at chunk_at chunk_stored
next-IsChunk c p q line n open_ chunks k =
    let value : strtol c.pos ≡ some n = rw k.framed (strtol-append line k.rest n k.sized) in
    let at : find_return (strtol_end c.pos) ≡ some (b'\r' ∷ k.rest) =
      rw k.framed (find_return-strtol_end line k.rest n k.sized k.tidy) in
    let all : length c.pos ≡ length line + length (b'\r' ∷ k.rest) =
      rw k.framed (length-append line (b'\r' ∷ k.rest)) in
    let from : (m : ℕ) → drop m (b'\r' ∷ k.rest) ≡ drop (length line + m) c.pos =
      λ m. rw k.framed (sym (drop-length line (b'\r' ∷ k.rest) m)) in
    elim (Bool-cases (n == 0)) [
      | inl e ↦ ground (arith, value, open_, chunks, e)
      | inr e ↦
          let enough : n + 4 ≤ length (b'\r' ∷ k.rest) = ground (arith, k.fits, all, e) in
          let place : length line + (n + 4) ≡ n + (length line + 4) = omega arith in
          let moved : drop (n + 4) (b'\r' ∷ k.rest) ≡ drop (n + (length line + 4)) c.pos =
            from (n + 4) ∙ ap (λ m. drop m c.pos) place in
          let inside : ltb (length (b'\r' ∷ k.rest)) (n + 4) ≡ false = ltb-false _ _ enough in
          rw (open_, chunks, value, e, at, inside, from 2, moved) refl
    ]

-- ===== src/HttpUtil/ChunkCursor/Decoded.antt =====
-- `decode_chunked_body` of src/util/HttpUtil.cc for a message that `__parse_chunk` of
-- src/protocol/http_parser.c takes for complete.
use tinywf.Prelude.{
  ◌≡◌, refl, ◌≢◌, ◌⊎◌, ◌≤◌, ◌<◌, ◌-◌, ℕ, zero, suc, ◌+◌, true, false, none, some, [], ◌∷◌, ◌++◌,
  ◌==◌, ◌∙◌, subst, arith, length, drop, take, Bool-cases, inl, inr, ap, sym,
}
use mathlib.Core.List.{append_assoc}
use tinywf.Prelude.Bytes.{Bytes}
use tinywf.Http.{Parser, more, chunk_data, is_chunk_complete}
use tinywf.Http.Chunk.{strtol, parse_chunk_data, chunk_step, in_chunk, chunk_loop}
use tinywf.Http.Bounds.Loops.{step-cases}
use tinywf.Http.Bounds.ChunkSteps.{chunk_step-Moves}
use tinywf.HttpUtil.ChunkCursor.{
  ChunkCursor, no_chunk, next_chunk, next, finished, decode_loop, find_return,
}
use tinywf.HttpUtil.ChunkCursor.Chunks.{IsChunk, parse_chunk_data-IsChunk, next-IsChunk}

-- The bytes of a chunk, behind its line.
abbrev pub bytes_of : Bytes → ℕ → Bytes → Bytes
bytes_of line n text = take n (drop (length line + 2) text)

-- The cursor behind a chunk.
abbrev passed : Bytes → ℕ → ChunkCursor → ChunkCursor
passed line n c = record c { pos = drop (n + (length line + 4)) c.pos }

-- What a chunked text says: a line with a size, two bytes, the bytes of the chunk and two bytes, until
-- a size is 0.
pub data Chunks : Bytes → Bytes → Type 0 where
  last_chunk :
      (line rest text : Bytes)
      → text ≡ line ++ b'\r' ∷ rest
      → find_return line ≡ none
      → strtol line ≡ some 0
      → Chunks text []
  then_chunk :
      (line rest text decoded : Bytes) (n : ℕ)
      → text ≡ line ++ b'\r' ∷ rest
      → find_return line ≡ none
      → strtol line ≡ some n
      → n ≢ 0
      → n + (length line + 4) ≤ length text
      → Chunks (drop (n + (length line + 4)) text) decoded
      → Chunks text (bytes_of line n text ++ decoded)

drop_nil : (n : ℕ) → drop {A = ℕ} n [] ≡ []
drop_nil zero = refl
drop_nil (suc n) = refl

drop-drop : (m n : ℕ) (xs : Bytes) → drop n (drop m xs) ≡ drop (m + n) xs
drop-drop zero n xs = let here : 0 + n ≡ n = omega arith in rw here refl
drop-drop (suc m) n [] = drop_nil n ∙ sym (drop_nil (suc m + n))
drop-drop (suc m) n (x ∷ xs) =
    let later : suc m + n ≡ suc (m + n) = omega arith in rw later (drop-drop m n xs)

append_nil : (xs : Bytes) → xs ++ [] ≡ xs
append_nil [] = refl
append_nil (x ∷ xs) = ap (◌∷◌ x) (append_nil xs)

zero_test : (n : ℕ) → (n == 0) ≡ true → n ≡ 0
zero_test n e = ground (arith, e)

zero_test-false : (n : ℕ) → (n == 0) ≡ false → n ≢ 0
zero_test-false n e = ground (arith, e)

not_zero {ℓ} : {A : Type ℓ} (n : ℕ) → n ≢ 0 → (n ≡ 0) ⊎ A → A
not_zero n h (inl e) = absurd (h e)
not_zero n h (inr a) = a

chunk_loop-later :
    (f : ℕ) (message : Bytes) (p q r : Parser)
    → chunk_loop (suc f) message p ≡ some (more, q)
    → chunk_step message p ≡ (more, r)
    → is_chunk_complete r.chunk_state ≡ false
    → chunk_loop f message r ≡ some (more, q)
unfolding chunk_loop
chunk_loop-later f message p q r h step open_ = ground (arith, h, step, open_)

-- A round of the parser's loop that goes on was a chunk.
step-IsChunk :
    (f : ℕ) (message : Bytes) (p q : Parser)
    → chunk_loop (suc f) message p ≡ some (more, q)
    → p.chunk_state ≡ chunk_data
    → (r : Parser) × (chunk_step message p ≡ (more, r))
      × (line : Bytes) × (n : ℕ) × IsChunk p r (drop p.chunk_offset message) line n
unfolding chunk_loop chunk_step
step-IsChunk f message p q h state = elim (step-cases (chunk_step message p)) [
  | inr (s, r, e, stop) ↦ absurd (ground (arith, h, e, stop))
  | inl (r, e) ↦
      let data_step : parse_chunk_data (drop p.chunk_offset message) p ≡ (more, r) =
        sym (ap (λ s. in_chunk s (drop p.chunk_offset message) p) state) ∙ e in
      let (line, n, chunk) = parse_chunk_data-IsChunk (drop p.chunk_offset message) p r data_step in
      (r, e, line, n, chunk)
]

-- Behind a chunk that is not the last, the parser and the cursor stand at the same byte.
IsChunk-next :
    (message : Bytes) (p r : Parser) (text line : Bytes) (n : ℕ)
    → text ≡ drop p.chunk_offset message
    → p.chunk_state ≡ chunk_data
    → (n == 0) ≡ false
    → IsChunk p r text line n
    → (r.chunk_state ≡ chunk_data)
      × (drop (n + (length line + 4)) text ≡ drop r.chunk_offset message)
      × (n + (length line + 4) ≤ length text)
IsChunk-next message p r text line n at state e chunk =
    let to_next : r ≡ record p { chunk_offset = p.chunk_offset + (n + (length line + 4)) } =
      (rw e at chunk.moved) in
    (
      ap (λ x. x.chunk_state) to_next ∙ state,
      ap (drop (n + (length line + 4))) at
          ∙ drop-drop p.chunk_offset (n + (length line + 4)) message
          ∙ ap (λ x. drop x.chunk_offset message) (sym to_next),
      omega (arith, not_zero n (zero_test-false n e) chunk.fits),
    )

pub decode_loop-Chunks :
    (f g : ℕ) (message decoded : Bytes) (p q : Parser) (c : ChunkCursor)
    → chunk_loop f message p ≡ some (more, q)
    → p.chunk_state ≡ chunk_data
    → p.chunk_offset ≤ length message
    → length message - p.chunk_offset < g
    → c.pos ≡ drop p.chunk_offset message
    → c.end ≡ false
    → c.chunked ≡ true
    → (found : Bytes) × Chunks c.pos found × (decode_loop g decoded c ≡ some (decoded ++ found))
unfolding chunk_loop decode_loop
decode_loop-Chunks zero g message decoded p q c h state inside enough at open_ chunks =
    absurd (ground (arith, h))
decode_loop-Chunks (suc f) zero message decoded p q c h state inside enough at open_ chunks =
    absurd (omega (arith, enough))
decode_loop-Chunks (suc f) (suc g) message decoded p q c h state inside enough at open_ chunks =
    let (r, step, line, n, here) = step-IsChunk f message p q h state in
    let chunk : IsChunk p r c.pos line n = subst (λ t. IsChunk p r t line n) (sym at) here in
    let told = next-IsChunk c p r line n open_ chunks chunk in
    elim (Bool-cases (n == 0)) [
      | inl e ↦
          let ended : next c ≡ no_chunk (finished c) = (rw e at told) in
          let none_left : n ≡ 0 = zero_test n e in
          (
            [],
            last_chunk line chunk.rest c.pos chunk.framed chunk.tidy (rw none_left at chunk.sized),
            rw (decode_loop, ended, append_nil decoded) refl,
          )
      | inr e ↦
          let given : next c ≡ next_chunk (bytes_of line n c.pos) (passed line n c) =
            (rw e at told) in
          let (state_next, there, fits) = IsChunk-next message p r c.pos line n at state e chunk in
          let inner = chunk_step-Moves message p r inside step in
          let again = chunk_loop-later f message p q r h step (rw state_next refl) in
          let (found, chunks_found, got) =
            decode_loop-Chunks f g message (decoded ++ bytes_of line n c.pos) r q (passed line n c)
              again state_next inner.1 (omega (arith, inner, enough)) there open_ chunks in
          (
            bytes_of line n c.pos ++ found,
            then_chunk line chunk.rest c.pos found n chunk.framed chunk.tidy chunk.sized
                (zero_test-false n e) fits chunks_found,
            rw (decode_loop, given)
                (got ∙ ap some (append_assoc decoded (bytes_of line n c.pos) found)),
          )
    ]

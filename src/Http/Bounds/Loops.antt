-- ===== src/Http/Bounds/Loops.antt =====
-- The two loops of src/protocol/http_parser.c end: the fuel that they are given is enough.
use tinywf.Prelude.{
  ℕ, zero, suc, ◌-◌, ◌≡◌, refl, Bool, arith, ◌<◌, ◌≤◌, length, Bool-cases, inl, inr, ◌⊎◌, some,
}
use tinywf.Prelude.Bytes.{Bytes}
use tinywf.Http.{Parser, Status, more, wait, nomem, malformed, is_complete, is_chunk_complete}
use tinywf.Http.Header.{header_step, header_loop, parse_message_header}
use tinywf.Http.Chunk.{chunk_step, chunk_loop, parse_chunk}
use tinywf.Http.Bounds.Steps.{header_step-Moves, header_step-Stays}
use tinywf.Http.Bounds.ChunkSteps.{chunk_step-Moves, chunk_step-Stays}

-- The outcome of a round, with the state that it leaves.
pub step-cases :
    (r : Status × Parser)
    → ((q : Parser) × (r ≡ (more, q)))
      ⊎ ((s : Status) × (q : Parser) × (r ≡ (s, q)) × ((s ≡ wait) ⊎ (s ≡ nomem) ⊎ (s ≡ malformed)))
step-cases (more, q) = inl (q, refl)
step-cases (wait, q) = inr (wait, q, refl, inl refl)
step-cases (nomem, q) = inr (nomem, q, refl, inr (inl refl))
step-cases (malformed, q) = inr (malformed, q, refl, inr (inr refl))

pub header_loop-total :
    (alloc : ℕ → Bool) (fuel : ℕ) (message : Bytes) (p : Parser)
    → p.header_offset ≤ length message
    → length message - p.header_offset < fuel
    → (r : Status × Parser) × (header_loop alloc fuel message p ≡ some r)
unfolding header_loop
header_loop-total alloc zero message p h f = absurd (omega arith)
header_loop-total alloc (suc fuel) message p h f = elim (step-cases (header_step alloc message p)) [
  | inr (s, q, e, stop) ↦ ((s, q), ground (arith, e, stop))
  | inl (q, e) ↦ elim (Bool-cases (is_complete q.header_state)) [
    | inl complete ↦ ((more, q), ground (arith, e, complete))
    | inr open_header ↦
        let moved = header_step-Moves alloc message p q h e in
        let (r, rest) = header_loop-total alloc fuel message q moved.1 (omega arith) in
        (r, ground (arith, e, open_header, rest))
  ]
]

-- `__parse_message_header` returns, whatever the message, if the offset stands inside it.
pub parse_message_header-total :
    (alloc : ℕ → Bool) (message : Bytes) (p : Parser)
    → p.header_offset ≤ length message
    → (r : Status × Parser) × (parse_message_header alloc message p ≡ some r)
unfolding parse_message_header
parse_message_header-total alloc message p h =
    header_loop-total alloc (suc (length message - p.header_offset)) message p h (omega arith)

pub chunk_loop-total :
    (fuel : ℕ) (message : Bytes) (p : Parser)
    → p.chunk_offset ≤ length message
    → length message - p.chunk_offset < fuel
    → (r : Status × Parser) × (chunk_loop fuel message p ≡ some r)
unfolding chunk_loop
chunk_loop-total zero message p h f = absurd (omega arith)
chunk_loop-total (suc fuel) message p h f = elim (step-cases (chunk_step message p)) [
  | inr (s, q, e, stop) ↦ ((s, q), ground (arith, e, stop))
  | inl (q, e) ↦ elim (Bool-cases (is_chunk_complete q.chunk_state)) [
    | inl complete ↦ ((more, q), ground (arith, e, complete))
    | inr open_chunk ↦
        let moved = chunk_step-Moves message p q h e in
        let (r, rest) = chunk_loop-total fuel message q moved.1 (omega arith) in
        (r, ground (arith, e, open_chunk, rest))
  ]
]

-- `__parse_chunk` returns, whatever the message, if the offset stands inside it.
pub parse_chunk-total :
    (message : Bytes) (p : Parser)
    → p.chunk_offset ≤ length message
    → (r : Status × Parser) × (parse_chunk message p ≡ some r)
unfolding parse_chunk
parse_chunk-total message p h =
    chunk_loop-total (suc (length message - p.chunk_offset)) message p h (omega arith)

-- More fuel changes no result.
pub header_loop-more :
    (alloc : ℕ → Bool) (f g : ℕ) (message : Bytes) (p : Parser) (r : Status × Parser)
    → f ≤ g
    → header_loop alloc f message p ≡ some r
    → header_loop alloc g message p ≡ some r
unfolding header_loop
header_loop-more alloc zero g message p r h e = ground arith
header_loop-more alloc (suc f) zero message p r h e = absurd (omega arith)
header_loop-more alloc (suc f) (suc g) message p r h e =
    elim (step-cases (header_step alloc message p)) [
      | inr (s, q, k, stop) ↦ ground (arith, k, stop)
      | inl (q, k) ↦ ground (arith, k, header_loop-more alloc f g message q r)
    ]

pub chunk_loop-more :
    (f g : ℕ) (message : Bytes) (p : Parser) (r : Status × Parser)
    → f ≤ g
    → chunk_loop f message p ≡ some r
    → chunk_loop g message p ≡ some r
unfolding chunk_loop
chunk_loop-more zero g message p r h e = ground arith
chunk_loop-more (suc f) zero message p r h e = absurd (omega arith)
chunk_loop-more (suc f) (suc g) message p r h e = elim (step-cases (chunk_step message p)) [
  | inr (s, q, k, stop) ↦ ground (arith, k, stop)
  | inl (q, k) ↦ ground (arith, k, chunk_loop-more f g message q r)
]

-- The header loop ends inside the message.
pub header_loop-within :
    (alloc : ℕ → Bool) (fuel : ℕ) (message : Bytes) (p q : Parser) (s : Status)
    → p.header_offset ≤ length message
    → header_loop alloc fuel message p ≡ some (s, q)
    → q.header_offset ≤ length message
unfolding header_loop
header_loop-within alloc zero message p q s h e = cc
header_loop-within alloc (suc fuel) message p q s h e =
    elim (step-cases (header_step alloc message p)) [
      | inr (t, p', step, stop) ↦ ground (arith, step, stop, header_step-Stays alloc message p p' t)
      | inl (p', step) ↦ ground (
        arith,
        step,
        header_step-Moves alloc message p p' h step,
        header_loop-within alloc fuel message p' q s,
      )
    ]

pub chunk_loop-within :
    (fuel : ℕ) (message : Bytes) (p q : Parser) (s : Status)
    → p.chunk_offset ≤ length message
    → chunk_loop fuel message p ≡ some (s, q)
    → q.chunk_offset ≤ length message
unfolding chunk_loop
chunk_loop-within zero message p q s h e = cc
chunk_loop-within (suc fuel) message p q s h e = elim (step-cases (chunk_step message p)) [
  | inr (t, p', step, stop) ↦ ground (arith, step, stop, chunk_step-Stays message p p' t)
  | inl (p', step) ↦
      ground
        (arith, step, chunk_step-Moves message p p' h step, chunk_loop-within fuel message p' q s)
]

-- The chunk loop never moves back.
chunk_loop-grows :
    (fuel : ℕ) (message : Bytes) (p q : Parser) (s : Status)
    → p.chunk_offset ≤ length message
    → chunk_loop fuel message p ≡ some (s, q)
    → p.chunk_offset ≤ q.chunk_offset
unfolding chunk_loop
chunk_loop-grows zero message p q s h e = cc
chunk_loop-grows (suc fuel) message p q s h e = elim (step-cases (chunk_step message p)) [
  | inr (t, p', step, stop) ↦ ground (arith, step, stop, chunk_step-Stays message p p' t)
  | inl (p', step) ↦
      ground
        (arith, step, chunk_step-Moves message p p' h step, chunk_loop-grows fuel message p' q s)
]

pub parse_chunk-grows :
    (message : Bytes) (p q : Parser) (s : Status)
    → p.chunk_offset ≤ length message
    → parse_chunk message p ≡ some (s, q)
    → p.chunk_offset ≤ q.chunk_offset
unfolding parse_chunk
parse_chunk-grows message p q s =
    chunk_loop-grows (suc (length message - p.chunk_offset)) message p q s

pub parse_message_header-within :
    (alloc : ℕ → Bool) (message : Bytes) (p q : Parser) (s : Status)
    → p.header_offset ≤ length message
    → parse_message_header alloc message p ≡ some (s, q)
    → q.header_offset ≤ length message
unfolding parse_message_header
parse_message_header-within alloc message p q s =
    header_loop-within alloc (suc (length message - p.header_offset)) message p q s

pub parse_chunk-within :
    (message : Bytes) (p q : Parser) (s : Status)
    → p.chunk_offset ≤ length message
    → parse_chunk message p ≡ some (s, q)
    → q.chunk_offset ≤ length message
unfolding parse_chunk
parse_chunk-within message p q s =
    chunk_loop-within (suc (length message - p.chunk_offset)) message p q s

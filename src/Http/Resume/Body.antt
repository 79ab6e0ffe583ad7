-- ===== src/Http/Resume/Body.antt =====
-- The body phase of `http_parser_append_message` in src/protocol/http_parser.c, taken up again with
-- more of the message.
use tinywf.Prelude.{
  ℕ, ◌≡◌, refl, sym, ap, ◌∙◌, true, false, ◌++◌, arith, ◌≤◌, ◌⊎◌, inl, inr, length, length-append,
  Option-cases, none, some, Option,
}
use mathlib.Core.Option
use tinywf.Prelude.Bytes.{Bytes}
use tinywf.Http.{Parser, Status, more, wait, nomem, malformed, is_chunk_complete, size_max}
use tinywf.Http.Chunk.{parse_chunk}
use tinywf.Http.Append.{body_phase, chunk_result}
use tinywf.Http.Frame.{with_buffer}
use tinywf.Http.ChunkFrame.{
  over, result_over, parse_chunk-frame, parse_chunk-over, parse_chunk-open,
}
use tinywf.Http.Resume.ChunkLoop.{parse_chunk-resume}
use tinywf.Http.Bounds.Loops.{parse_chunk-total, step-cases}

-- The status and the parser that a call leaves.
abbrev pub ending : Option (Status × ℕ × Parser) → Option (Status × Parser)
ending none = none
ending (some (s, n, r)) = some (s, r)

-- The number of new bytes changes nothing but `*n`.
pub body_phase-count : (k k' : ℕ) (x : Parser) → ending (body_phase k x) ≡ ending (body_phase k' x)
unfolding body_phase
body_phase-count k k' x = elim (Option-cases (parse_chunk x.msgbuf x)) [
  | inl lost ↦ ground (arith, lost)
  | inr (res, got) ↦ ground (arith, got, step-cases res)
]

-- The body phase waits in one of two ways.
body_phase-wait :
    (k n : ℕ) (x q : Parser)
    → body_phase k x ≡ some (wait, n, q)
    → (q ≡ x)
      ⊎ ((x.transfer_length ≡ size_max)
          × (x.chunked ≡ true)
          × (is_chunk_complete x.chunk_state ≡ false)
          × (parse_chunk x.msgbuf x ≡ some (wait, q)))
unfolding body_phase
body_phase-wait k n x q e = elim (Option-cases (parse_chunk x.msgbuf x)) [
  | inl lost ↦ ground (arith, lost)
  | inr (res, got) ↦ ground (arith, got, step-cases res)
]

-- The chunks of a parser whose body is chunked.
body_phase-chunked :
    (k : ℕ) (x : Parser)
    → x.transfer_length ≡ size_max
    → x.chunked ≡ true
    → is_chunk_complete x.chunk_state ≡ false
    → (res : Status × Parser) → parse_chunk x.msgbuf x ≡ some res
    → body_phase k x ≡ some (chunk_result k res)
unfolding body_phase
body_phase-chunked k x t c o res e = ground (arith, e)

ending-count :
    (k k' : ℕ) (res : Status × Parser)
    → ending (some (chunk_result k res)) ≡ ending (some (chunk_result k' res))
unfolding chunk_result
ending-count k k' (more, q) = refl
ending-count k k' (wait, q) = refl
ending-count k k' (nomem, q) = refl
ending-count k k' (malformed, q) = refl

module _ (a b : Bytes) (msgsize bufsize : ℕ) where
  abbrev pub whole : Parser → Parser
  whole p = with_buffer (a ++ b) msgsize bufsize false p

  chunks-resume :
      (x q : Parser)
      → x.chunk_offset ≤ length a
      → parse_chunk a x ≡ some (wait, q)
      → parse_chunk (a ++ b) (whole q) ≡ parse_chunk (a ++ b) (whole x)
  chunks-resume x q h e =
      let (rx, all) = parse_chunk-total (a ++ b) x (omega (arith, length-append a b)) in
      let again = parse_chunk-resume a b x q rx h e all in
      let moved = parse_chunk-over a x wait q e in
      let from_x : parse_chunk (a ++ b) (whole x) ≡ some (result_over (whole x) rx) =
        parse_chunk-frame (whole x) (a ++ b) x rx all in
      let from_q : parse_chunk (a ++ b) (whole q) ≡ some (result_over (whole q) rx) =
        parse_chunk-frame (whole q) (a ++ b) q rx again in
      let same : result_over (whole q) rx ≡ result_over (whole x) rx = ground (arith, moved) in
      from_q ∙ ap some same ∙ sym from_x

  -- Where the body phase has waited for a part of the message, it ends over the whole as it would
  -- have ended without that.
  pub body_phase-resume :
      (j k k' n : ℕ) (x q : Parser)
      → x.msgbuf ≡ a
      → (x.transfer_length ≡ size_max → x.chunked ≡ true → x.chunk_offset ≤ length a)
      → body_phase j x ≡ some (wait, n, q)
      → ending (body_phase k (whole q)) ≡ ending (body_phase k' (whole x))
  body_phase-resume j k k' n x q m h e = elim (body_phase-wait j n x q e) [
    | inl same ↦ rw same (body_phase-count k k' (whole x))
    | inr (t, c, o, w) ↦
        let w' : parse_chunk a x ≡ some (wait, q) =
          sym (ap (λ (t : Bytes). parse_chunk t x) m) ∙ w in
        let moved = parse_chunk-over a x wait q w' in
        let open_q = parse_chunk-open a x q o w' in
        let (res, all) =
          parse_chunk-total (a ++ b) (whole x) (omega (arith, length-append a b, h t c)) in
        let from_q = chunks-resume x q (h t c) w' ∙ all in
        ap ending (
          body_phase-chunked k (whole q) (ap (λ (r : Parser). r.transfer_length) moved ∙ t)
            (ap (λ (r : Parser). r.chunked) moved ∙ c) open_q res from_q)
        ∙ ending-count k k' res
        ∙ sym (ap ending (body_phase-chunked k' (whole x) t c o res all))
  ]

-- A body phase that waits changes nothing but the place in the chunks.
pub body_phase-over : (k n : ℕ) (x q : Parser) → body_phase k x ≡ some (wait, n, q) → q ≡ over x q
body_phase-over k n x q e = elim (body_phase-wait k n x q e) [
  | inl same ↦ ground (arith, same)
  | inr (_, _, _, w) ↦ parse_chunk-over x.msgbuf x wait q w
]

-- Another array of the header name stays as it is and changes nothing else.
pub body_phase-name :
    (k : ℕ) (name : Bytes) (x : Parser)
    → ending (body_phase k (record x { namebuf = name }))
      ≡ Option.map
          (λ (r : Status × Parser). (r.0, record r.1 { namebuf = name }))
          (ending (body_phase k x))
unfolding body_phase
body_phase-name k name x = elim (Option-cases (parse_chunk x.msgbuf x)) [
  | inl lost ↦ elim (Option-cases (parse_chunk x.msgbuf (record x { namebuf = name }))) [
    | inl lost' ↦ ground (arith, lost, lost')
    | inr (res', got') ↦
        let back = parse_chunk-frame x x.msgbuf (record x { namebuf = name }) res' got' in
        absurd (cc (sym lost ∙ back))
  ]
  | inr (res, got) ↦
      let named = parse_chunk-frame (record x { namebuf = name }) x.msgbuf x res got in
      let same = parse_chunk-over x.msgbuf x res.0 res.1 got in
      ground (arith, got, named, same, step-cases res)
]

pub body_phase-state :
    (k n : ℕ) (x : Parser) (s : Status) (r : Parser)
    → body_phase k x ≡ some (s, n, r)
    → r.header_state ≡ x.header_state
unfolding body_phase
body_phase-state k n x s r e = elim (Option-cases (parse_chunk x.msgbuf x)) [
  | inl lost ↦ ground (arith, lost)
  | inr (res, got) ↦
      ground (arith, got, step-cases res, parse_chunk-over x.msgbuf x res.0 res.1 got)
]

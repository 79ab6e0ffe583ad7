-- ===== src/Http/Valid/Body.antt =====
-- The body phase of `http_parser_append_message` of src/protocol/http_parser.c returns, and keeps the
-- invariant.
use tinywf.Prelude.{
  ℕ, ◌+◌, ◌%◌, ◌^◌, ◌≡◌, ◌≢◌, refl, sym, subst, ◌∙◌, true, arith, ◌<◌, ◌≤◌, inl, inr, length,
  length-take, leb, ◌==◌, Bool-cases, Option-cases, none, some,
}
use tinywf.Http.{
  Parser, Status, more, wait, nomem, malformed, is_complete, is_chunk_complete, size_max,
}
use tinywf.Http.Chunk.{parse_chunk}
use tinywf.Http.Append.{body_phase, cut, chunk_result}
use tinywf.Http.ChunkFrame.{over, parse_chunk-over}
use tinywf.Http.Bounds.Loops.{parse_chunk-total, parse_chunk-within, parse_chunk-grows}
use tinywf.Http.Valid.{IsValid, IsLength}

cut-IsValid :
    (n total : ℕ) (x : Parser)
    → IsValid x
    → x.header_offset ≤ total
    → total ≤ x.msgsize
    → (x.transfer_length ≡ size_max → x.chunked ≡ true → x.chunk_offset ≡ total)
    → IsValid (cut n total x).2
unfolding cut
cut-IsValid n total x v h t c = record {
  stored = omega (arith, length-take total x.msgbuf, v.stored);
  room = omega (arith, v.room);
  header_in = h;
  chunk_in = λ _ a b. omega (arith, c a b);
  content = v.content;
  transfer = v.transfer;
}

chunks-IsValid :
    (k : ℕ) (x : Parser) (res : Status × Parser)
    → IsValid x
    → is_complete x.header_state ≡ true
    → x.transfer_length ≡ size_max
    → x.chunked ≡ true
    → parse_chunk x.msgbuf x ≡ some res
    → IsValid (chunk_result k res).2
unfolding chunk_result
chunks-IsValid k x (s, q) v c t d e = by_status s e
  where
    before : (x.header_offset ≤ x.chunk_offset) × (x.chunk_offset ≤ x.msgsize)
    before = v.chunk_in c t d

    inside : x.chunk_offset ≤ length x.msgbuf
    inside = omega (arith, before, v.stored)

    kept : (s : Status) → parse_chunk x.msgbuf x ≡ some (s, q) → IsValid q
    kept s e = subst IsValid (sym (parse_chunk-over x.msgbuf x s q e)) (record {
      stored = v.stored;
      room = v.room;
      header_in = v.header_in;
      chunk_in = λ _ _ _. (
        omega (arith, before, parse_chunk-grows x.msgbuf x q s inside e),
        omega (arith, v.stored, parse_chunk-within x.msgbuf x q s inside e),
      );
      content = v.content;
      transfer = v.transfer;
    })

    by_status :
        (s : Status) → parse_chunk x.msgbuf x ≡ some (s, q) → IsValid (chunk_result k (s, q)).2
    by_status more e =
        let same = parse_chunk-over x.msgbuf x more q e in
        let w = kept more e in
        cut-IsValid k q.chunk_offset q w
          (ground (arith, same, before, parse_chunk-grows x.msgbuf x q more inside e))
          (ground (arith, same, v.stored, parse_chunk-within x.msgbuf x q more inside e))
          (λ _ _. refl)
    by_status wait e = kept wait e
    by_status nomem e = kept nomem e
    by_status malformed e = kept malformed e

-- The end of a body of known length stands behind the header.
end_of_body :
    (header_offset transfer_length msgsize : ℕ)
    → IsLength transfer_length
    → transfer_length ≢ size_max
    → header_offset ≤ msgsize
    → msgsize < 2 ^ 63
    → header_offset ≤ (header_offset + transfer_length) % 2 ^ 64
end_of_body h t m (inl e) n a b = absurd (n e)
end_of_body h t m (inr l) n a b = omega arith

pub body_phase-IsValid :
    (k n : ℕ) (x : Parser) (s : Status) (r : Parser)
    → IsValid x
    → is_complete x.header_state ≡ true
    → x.msgsize < 2 ^ 63
    → body_phase k x ≡ some (s, n, r)
    → IsValid r
unfolding body_phase
body_phase-IsValid k n x s r v c b e = elim (Bool-cases (x.transfer_length == size_max)) [
  | inr known ↦ elim (Bool-cases (leb ((x.header_offset + x.transfer_length) % 2 ^ 64) x.msgsize)) [
    | inr short ↦ let same : r ≡ x = ground (arith, known, short) in rw same v
    | inl whole ↦
        let total = (x.header_offset + x.transfer_length) % 2 ^ 64 in
        let known' : x.transfer_length ≢ size_max = ground (arith, known) in
        let same : r ≡ (cut k total x).2 = ground (arith, known, whole) in
        subst IsValid (sym same) (
          cut-IsValid k total x v
            (end_of_body x.header_offset x.transfer_length x.msgsize v.transfer known' v.header_in
              b)
            (ground (arith, whole)) (λ a _. absurd (known' a)))
  ]
  | inl open_end ↦
      let t : x.transfer_length ≡ size_max = ground (arith, open_end) in
      elim (Bool-cases x.chunked) [
        | inr plain ↦ let same : r ≡ x = ground (arith, open_end, plain) in rw same v
        | inl d ↦
            let at = v.chunk_in c t d in
            elim (Bool-cases (is_chunk_complete x.chunk_state)) [
              | inl over ↦
                  let same : r ≡ (cut k x.chunk_offset x).2 = ground (arith, open_end, d, over) in
                  subst IsValid (sym same)
                    (cut-IsValid k x.chunk_offset x v at.0 at.1 (λ _ _. refl))
              | inr going ↦ elim (Option-cases (parse_chunk x.msgbuf x)) [
                | inl lost ↦ ground (arith, open_end, d, going, lost)
                | inr (res, got) ↦
                    let same : r ≡ (chunk_result k res).2 =
                      ground (arith, open_end, d, going, got) in
                    subst IsValid (sym same) (chunks-IsValid k x res v c t d got)
              ]
            ]
      ]
]

pub body_phase-total :
    (k : ℕ) (x : Parser)
    → IsValid x
    → is_complete x.header_state ≡ true
    → (res : Status × ℕ × Parser) × (body_phase k x ≡ some res)
body_phase-total k x v c = elim (Option-cases (body_phase k x)) [
  | inr (res, e) ↦ (res, e)
  | inl lost ↦ absurd (never lost)
]
  where
    never : body_phase k x ≢ none
    never e =
        unfold body_phase in
        elim (Option-cases (parse_chunk x.msgbuf x)) [
          | inr (res, got) ↦ ground (arith, got)
          | inl lost ↦ elim (Bool-cases (x.transfer_length == size_max)) [
            | inr known ↦ ground (arith, known)
            | inl open_end ↦ elim (Bool-cases x.chunked) [
              | inr plain ↦ ground (arith, open_end, plain)
              | inl d ↦
                  let at = v.chunk_in c (ground (arith, open_end)) d in
                  let (res, got) = parse_chunk-total x.msgbuf x (omega (arith, at, v.stored)) in
                  cc (sym lost ∙ got)
            ]
          ]
        ]

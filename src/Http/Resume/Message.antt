-- ===== src/Http/Resume/Message.antt =====
-- The calls of `http_parser_append_message` in src/protocol/http_parser.c for two pieces of a
-- message leave what one call for both of them leaves.
use tinywf.Prelude.{
  ℕ, ◌+◌, ◌≡◌, refl, sym, ap, ◌∙◌, Bool, true, false, ◌++◌, arith, ◌≤◌, inl, inr, length,
  length-append, Bool-cases, some, Option,
}
use mathlib.Core.List.{append_assoc}
use mathlib.Core.Option
use tinywf.Prelude.Bytes.{Bytes}
use tinywf.Http.Resume.Steps.{shown}
use tinywf.Http.{Parser, Status, more, wait, nomem, malformed, is_complete, size_max}
use tinywf.Http.Header.{parse_message_header}
use tinywf.Http.Append.{
  append_message, after_header, header_phase, header_result, header_done, body_phase,
}
use tinywf.Http.Frame.{parse_message_header-frame, parse_message_header-buffer}
use tinywf.Http.Valid.{IsValid}
use tinywf.Http.Bounds.Loops.{parse_message_header-total, parse_message_header-within}
use tinywf.Http.Resume.Reserve.{grown, grown-twice}
use tinywf.Http.Resume.HeaderLoop.{
  parse_message_header-resume, parse_message_header-append, parse_message_header_complete,
  parse_message_header-open,
}
use tinywf.Http.Resume.Body.{ending, whole, body_phase-resume, body_phase-over}
use tinywf.Http.Resume.Append.{
  received, append_message-received, header_phase_complete, header_phase-open, shown_ending,
  header_done-chunk, header_done-state, header_done-buffer, header_done-with,
}
use tinywf.Http.Resume.Pieces.{finish}

-- What a waiting call keeps of the buffer that it has filled.
abbrev SameBuffer : Parser → Parser → Type 0
SameBuffer q x =
    (q.msgbuf ≡ x.msgbuf)
    × (q.msgsize ≡ x.msgsize)
    × (q.bufsize ≡ x.bufsize)
    × (q.complete ≡ x.complete)

module _ (alloc : ℕ → Bool) (a b : Bytes) (p q : Parser) (v : IsValid p)
    (fresh : p.complete ≡ false) where
  abbrev front : Bytes
  front = p.msgbuf ++ a

  abbrev all : Parser → Parser
  all = whole front b (p.msgsize + length (a ++ b)) (grown p (length (a ++ b)))

  in_front : {n : ℕ} → n ≤ p.msgsize → n ≤ length front
  in_front h = omega (arith, length-append p.msgbuf a, v.stored)

  received-all : received (a ++ b) p ≡ all (received a p)
  received-all = ground (arith, fresh, append_assoc p.msgbuf a b)

  received-again : SameBuffer q (received a p) → received b q ≡ all q
  received-again s =
      ground (arith, s, fresh, grown-twice p q (length a) (length b), length-append a b)

  -- The body phase over the first piece, with the header read before it.
  from_body :
      (k n : ℕ) (x : Parser)
      → is_complete x.header_state ≡ true
      → SameBuffer x (received a p)
      → (x.transfer_length ≡ size_max → x.chunked ≡ true → x.chunk_offset ≤ length front)
      → body_phase k x ≡ some (wait, n, q)
      → (j j' : ℕ)
      → (q.complete ≡ false)
        × (is_complete q.header_state ≡ true)
        × (received b q ≡ all q)
        × (ending (body_phase j (all q)) ≡ ending (body_phase j' (all x)))
  from_body k n x c s i e j j' =
      let kept = body_phase-over k n x q e in
      (
        ground (arith, kept, s, fresh),
        ap (λ (r : Parser). is_complete r.header_state) kept ∙ c,
        received-again (ground (arith, kept, s)),
        body_phase-resume front b (p.msgsize + length (a ++ b)) (grown p (length (a ++ b))) k j j' n
            x q s.0 i e,
      )

  shown_of :
      (r r' : Option (Status × ℕ × Parser))
      → ending r ≡ ending r'
      → shown_ending r ≡ shown_ending r'
  shown_of r r' e = ap (λ o. Option.map (λ (x : Status × Parser). (x.0, shown x.1)) o) e

  calls :
      (buf : Bytes) (r : Parser)
      → r.complete ≡ false
      → (o : Option (Status × Parser)) → header_phase alloc (received buf r) ≡ o
      → append_message true alloc buf r ≡ after_header (length buf) o
  calls buf r h o e = append_message-received alloc buf r h ∙ ap (after_header (length buf)) e

  -- The second call where the first has left the header complete.
  second_call :
      q.complete ≡ false
      → is_complete q.header_state ≡ true
      → received b q ≡ all q
      → append_message true alloc b q ≡ body_phase (length b) (all q)
  unfolding after_header
  second_call f c e =
      calls b q f (some (more, received b q)) (header_phase_complete alloc (received b q) c)
      ∙ ap (body_phase (length b)) e

  -- The header is complete before the first piece.
  pieces_of_body :
      (n : ℕ)
      → is_complete p.header_state ≡ true
      → append_message true alloc a p ≡ some (wait, n, q)
      → shown_ending (append_message true alloc b q)
        ≡ shown_ending (append_message true alloc (a ++ b) p)
  unfolding after_header
  pieces_of_body n c e =
      let x = received a p in
      let first = sym (calls a p fresh (some (more, x)) (header_phase_complete alloc x c)) ∙ e in
      let (fq, cq, again, same) =
        from_body (length a) n x c (refl, refl, refl, refl) (λ t d. in_front (v.chunk_in c t d).1)
          first (length b) (length (a ++ b)) in
      let at_once =
        calls (a ++ b) p fresh (some (more, received (a ++ b) p))
          (header_phase_complete alloc (received (a ++ b) p) c)
        ∙ ap (body_phase (length (a ++ b))) received-all in
      shown_of (append_message true alloc b q) (append_message true alloc (a ++ b) p)
        (ap ending (second_call fq cq again) ∙ same ∙ sym (ap ending at_once))

  -- One call for both pieces, where the header ends inside the first.
  at_once_after :
      (h : Parser)
      → is_complete p.header_state ≡ false
      → parse_message_header alloc front (received a p) ≡ some (more, h)
      → append_message true alloc (a ++ b) p ≡ body_phase (length (a ++ b)) (all (header_done h))
  unfolding after_header header_result
  at_once_after h o e =
      let m = p.msgsize + length (a ++ b) in
      let g = grown p (length (a ++ b)) in
      let longer =
        parse_message_header-append alloc front b (received a p) h more (in_front v.header_in)
          (λ e. cc) e in
      let framed =
        parse_message_header-frame (front ++ b) m g false alloc (front ++ b) (received a p)
          (more, h) longer in
      let phase = header_phase-open alloc (all (received a p)) (more, all h) o framed in
      calls (a ++ b) p fresh (some (more, header_done (all h)))
        (ap (header_phase alloc) received-all ∙ phase)
      ∙ ap (body_phase (length (a ++ b))) (header_done-with (front ++ b) m g false h)

  -- The header ends inside the first piece.
  pieces_after_header :
      (n : ℕ) (h : Parser)
      → is_complete p.header_state ≡ false
      → parse_message_header alloc front (received a p) ≡ some (more, h)
      → append_message true alloc a p ≡ some (wait, n, q)
      → shown_ending (append_message true alloc b q)
        ≡ shown_ending (append_message true alloc (a ++ b) p)
  unfolding after_header header_result
  pieces_after_header n h o e f =
      let x = header_done h in
      let phase = header_phase-open alloc (received a p) (more, h) o e in
      let first = sym (calls a p fresh (some (more, x)) phase) ∙ f in
      let c =
        ap is_complete (header_done-state h)
        ∙ parse_message_header_complete alloc front (received a p) h e in
      let buffer = parse_message_header-buffer alloc front (received a p) more h e in
      let inside =
        parse_message_header-within alloc front (received a p) h more (in_front v.header_in) e in
      let (fq, cq, again, same) =
        from_body (length a) n x c (ground (arith, buffer, header_done-buffer h))
          (header_done-chunk (length front) h inside) first (length b) (length (a ++ b)) in
      shown_of (append_message true alloc b q) (append_message true alloc (a ++ b) p)
        (ap ending (second_call fq cq again) ∙ same ∙ sym (ap ending (at_once_after h o e)))

  -- The header does not end inside the first piece.
  pieces_of_header :
      is_complete p.header_state ≡ false
      → parse_message_header alloc front (received a p) ≡ some (wait, q)
      → shown_ending (append_message true alloc b q)
        ≡ shown_ending (append_message true alloc (a ++ b) p)
  pieces_of_header o e =
      let m = p.msgsize + length (a ++ b) in
      let g = grown p (length (a ++ b)) in
      let x = received a p in
      let inside = in_front v.header_in in
      let (r, whole_read) =
        parse_message_header-total alloc (front ++ b) x
          (omega (arith, inside, length-append front b)) in
      let (r', again, same) = parse_message_header-resume alloc front b x q r inside e whole_read in
      let buffer = parse_message_header-buffer alloc front x wait q e in
      let oq = parse_message_header-open alloc front x q wait (λ e. cc) o e in
      let framed =
        parse_message_header-frame (front ++ b) m g false alloc (front ++ b) x r whole_read in
      let framed' =
        parse_message_header-frame (front ++ b) m g false alloc (front ++ b) q r' again in
      let second =
        calls b q (ground (arith, buffer, fresh)) (some (header_result (r'.0, all r'.1))) (
          ap (header_phase alloc) (received-again buffer)
          ∙ header_phase-open alloc (all q) (r'.0, all r'.1) oq framed') in
      let once = calls (a ++ b) p fresh (some (header_result (r.0, all r.1))) (
        ap (header_phase alloc) received-all
        ∙ header_phase-open alloc (all x) (r.0, all r.1) o framed) in
      let ended = λ (k : r.0 ≡ more).
        parse_message_header_complete alloc (front ++ b) x r.1
          (whole_read ∙ ap (λ (t : Status). some (t, r.1)) k) in
      ap shown_ending second
      ∙ finish (length b) (length (a ++ b)) r'.0 r.0 (all r'.1) (all r.1) ended
          (same.0, ap all same.1)
      ∙ sym (ap shown_ending once)

  -- What the header phase over the first piece comes to decides.
  pieces :
      (n : ℕ)
      → append_message true alloc a p ≡ some (wait, n, q)
      → shown_ending (append_message true alloc b q)
        ≡ shown_ending (append_message true alloc (a ++ b) p)
  unfolding after_header header_result
  pieces n e = elim (Bool-cases (is_complete p.header_state)) [
    | inl c ↦ pieces_of_body n c e
    | inr o ↦
        let (r, read) =
          parse_message_header-total alloc front (received a p) (in_front v.header_in) in
        let first =
          calls a p fresh (some (header_result r))
            (header_phase-open alloc (received a p) r o read) in
        by_status n o r read (sym first ∙ e) e
  ]
    where
      by_status :
          (n : ℕ)
          → is_complete p.header_state ≡ false
          → (r : Status × Parser) → parse_message_header alloc front (received a p) ≡ some r
          → after_header (length a) (some (header_result r)) ≡ some (wait, n, q)
          → append_message true alloc a p ≡ some (wait, n, q)
          → shown_ending (append_message true alloc b q)
            ≡ shown_ending (append_message true alloc (a ++ b) p)
      by_status n o (more, h) read k e = pieces_after_header n h o read e
      by_status n o (wait, h) read k e =
          let same : h ≡ q = cc in
          pieces_of_header o (read ∙ ap (λ (r : Parser). some (wait, r)) same)
      by_status n o (nomem, h) read k e = cc
      by_status n o (malformed, h) read k e = cc

-- Whatever two pieces a message comes in: where the call for the first returns 0, the call for the
-- second returns what one call for both would have returned, and the parser that it leaves looks
-- the same in every field (of the header name's array, as long as the header is open). The parser
-- is valid before, `realloc` succeeds, and whether another allocation does depends only on where in
-- the message it is made.
pub append_message-pieces :
    (alloc : ℕ → Bool) (a b : Bytes) (p q : Parser) (n : ℕ)
    → IsValid p
    → append_message true alloc a p ≡ some (wait, n, q)
    → shown_ending (append_message true alloc b q)
      ≡ shown_ending (append_message true alloc (a ++ b) p)
append_message-pieces alloc a b p q n v e = elim (Bool-cases p.complete) [
  | inl done ↦ unfold append_message in ground (arith, done)
  | inr fresh ↦ pieces alloc a b p q v fresh n e
]

-- ===== src/Http/Valid/Append.antt =====
-- The buffer and the header phase of `http_parser_append_message` of src/protocol/http_parser.c keep
-- the invariant.
use tinywf.Prelude.{
  ℕ, ◌+◌, ◌-◌, ◌≡◌, ◌≢◌, refl, sym, ap, ◌∙◌, Bool, true, false, arith, ◌≤◌, ◌⊎◌, inl, inr, length,
  length-append, Bool-cases, none, some, ltb,
}
use tinywf.Prelude.Bytes.{Bytes}
use tinywf.Http.{Parser, Status, more, wait, nomem, malformed, is_complete, size_max}
use tinywf.Http.Header.{parse_message_header}
use tinywf.Http.Append.{reserve, receive, header_phase, header_result, header_done}
use tinywf.Http.Frame.{parse_message_header-buffer}
use tinywf.Http.Bounds.Loops.{parse_message_header-total, parse_message_header-within}
use tinywf.Http.Resume.Reserve.{grown, grown-ge, reserve-grown}
use tinywf.Http.Resume.HeaderLoop.{parse_message_header_complete, parse_message_header-open}
use tinywf.Http.Resume.Append.{header_phase_complete, header_phase-open, header_done-buffer}
use tinywf.Http.Valid.{IsValid, IsLength}
use tinywf.Http.Valid.Lengths.{parse_message_header-HasLengths}

pub reserve-cases :
    (grow : Bool) (n : ℕ) (p : Parser)
    → (reserve grow n p ≡ none) ⊎ (reserve grow n p ≡ some (record p { bufsize = grown p n }))
reserve-cases true n p = inr (reserve-grown p n)
reserve-cases false n p = elim (Bool-cases (ltb p.bufsize (p.msgsize + n + 1))) [
  | inl short ↦ inl (unfold reserve in ground (arith, short))
  | inr enough ↦ inr (unfold reserve grown in ground (arith, enough))
]

pub receive-IsValid :
    (buf : Bytes) (p : Parser)
    → IsValid p
    → IsValid (receive buf (record p { bufsize = grown p (length buf) }))
unfolding receive
receive-IsValid buf p v = record {
  stored = omega (arith, length-append p.msgbuf buf, v.stored);
  room = omega (arith, grown-ge p (length buf));
  header_in = omega (arith, v.header_in);
  chunk_in = λ a b c. (omega (arith, v.chunk_in a b c), omega (arith, v.chunk_in a b c));
  content = v.content;
  transfer = v.transfer;
}

-- The invariant without the offset of the chunks.
record IsStored (p : Parser) : Type 0 where
  stored : length p.msgbuf ≡ p.msgsize
  room : p.msgsize ≤ p.bufsize - 1
  header_in : p.header_offset ≤ p.msgsize
  content : IsLength p.content_length
  transfer : IsLength p.transfer_length

with_chunk :
    (p : Parser)
    → IsStored p
    → (is_complete p.header_state ≡ true
        → p.transfer_length ≡ size_max
        → p.chunked ≡ true
        → (p.header_offset ≤ p.chunk_offset) × (p.chunk_offset ≤ p.msgsize))
    → IsValid p
with_chunk p v c = record {
  stored = v.stored;
  room = v.room;
  header_in = v.header_in;
  chunk_in = c;
  content = v.content;
  transfer = v.transfer;
}

header_done-IsValid : (h : Parser) → IsStored h → IsValid (header_done h)
header_done-IsValid h v =
    with_chunk (header_done h) stored_done (λ _ _ d. unfold header_done in ground arith)
  where
    stored_done : IsStored (header_done h)
    stored_done = unfold header_done in ground arith

header_done_complete :
    (h : Parser)
    → is_complete h.header_state ≡ true
    → is_complete (header_done h).header_state ≡ true
unfolding header_done
header_done_complete h c = ground arith

-- What the header loop leaves.
header_loop-IsStored :
    (alloc : ℕ → Bool) (x : Parser) (s : Status) (h : Parser)
    → IsValid x
    → parse_message_header alloc x.msgbuf x ≡ some (s, h)
    → IsStored h
header_loop-IsStored alloc x s h v e =
    let (m, n, b, _) = parse_message_header-buffer alloc x.msgbuf x s h e in
    let inside : x.header_offset ≤ length x.msgbuf = omega (arith, v.header_in, v.stored) in
    let at = parse_message_header-within alloc x.msgbuf x h s inside e in
    let lengths = parse_message_header-HasLengths alloc x.msgbuf x s h (v.content, v.transfer) e in
    record {
      stored = ap length m ∙ v.stored ∙ sym n;
      room = omega (arith, v.room, n, b);
      header_in = omega (arith, at, v.stored, n);
      content = lengths.0;
      transfer = lengths.1;
    }

-- A header phase leaves a valid parser, complete if it returns 1.
pub header_phase-IsValid :
    (alloc : ℕ → Bool) (x : Parser)
    → IsValid x
    → (s : Status) × (h : Parser) × (header_phase alloc x ≡ some (s, h))
      × IsValid h
      × (s ≡ more → is_complete h.header_state ≡ true)
      × (h.msgsize ≡ x.msgsize)
unfolding header_result
header_phase-IsValid alloc x v = elim (Bool-cases (is_complete x.header_state)) [
  | inl c ↦ (more, x, header_phase_complete alloc x c, v, (λ _. c), refl)
  | inr o ↦
      let inside : x.header_offset ≤ length x.msgbuf = omega (arith, v.header_in, v.stored) in
      let ((s, h), read) = parse_message_header-total alloc x.msgbuf x inside in
      let w = header_loop-IsStored alloc x s h v read in
      let kept = parse_message_header-buffer alloc x.msgbuf x s h read in
      by_status o s h read w kept.1
]
  where
    left :
        is_complete x.header_state ≡ false
        → (s : Status) (h : Parser) → s ≢ more
        → parse_message_header alloc x.msgbuf x ≡ some (s, h)
        → IsStored h
        → IsValid h
    left o s h n read w =
        let open_h = parse_message_header-open alloc x.msgbuf x h s n o read in
        with_chunk h w (λ c _ _. cc)

    by_status :
        is_complete x.header_state ≡ false
        → (s : Status) (h : Parser) → parse_message_header alloc x.msgbuf x ≡ some (s, h)
        → IsStored h
        → h.msgsize ≡ x.msgsize
        → (s : Status) × (h : Parser) × (header_phase alloc x ≡ some (s, h))
          × IsValid h
          × (s ≡ more → is_complete h.header_state ≡ true)
          × (h.msgsize ≡ x.msgsize)
    by_status o more h read w k = (
      more,
      header_done h,
      header_phase-open alloc x (more, h) o read,
      header_done-IsValid h w,
      (λ _. header_done_complete h (parse_message_header_complete alloc x.msgbuf x h read)),
      (header_done-buffer h).1 ∙ k,
    )
    by_status o wait h read w k = (
      wait,
      h,
      header_phase-open alloc x (wait, h) o read,
      left o wait h (λ e. cc) read w,
      (λ e. cc),
      k,
    )
    by_status o nomem h read w k = (
      nomem,
      h,
      header_phase-open alloc x (nomem, h) o read,
      left o nomem h (λ e. cc) read w,
      (λ e. cc),
      k,
    )
    by_status o malformed h read w k = (
      malformed,
      h,
      header_phase-open alloc x (malformed, h) o read,
      left o malformed h (λ e. cc) read w,
      (λ e. cc),
      k,
    )

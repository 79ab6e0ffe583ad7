-- ===== src/Http/Frame.antt =====
-- What the loops of src/protocol/http_parser.c leave alone: the message buffer's fields and the
-- mark of a complete message are neither read nor written by them.
use tinywf.Prelude.{
  ℕ, zero, suc, ◌-◌, ◌≡◌, refl, Bool, [], arith, inl, inr, length, drop, Bool-cases, none, some,
  Option,
}
use tinywf.Prelude.Bytes.{Bytes, c_str}
use tinywf.Http.{
  Parser, HeaderState, start_line, header_name, header_value, header_complete, Status,
}
use tinywf.Http.Headers.{add_header, add_message_header, check_message_header}
use tinywf.Http.StartLine
use tinywf.Http.StartLine.{
  parse_start_line, scan_start_line, split_start_line, at_crlf, scanned_start_line,
  start_line_found,
}
use tinywf.Http.Name
use tinywf.Http.Name.{parse_header_name, scan_name}
use tinywf.Http.Value
use tinywf.Http.Value.{parse_header_value, scan_value}
use tinywf.Http.Bounds.Loops.{step-cases}
use tinywf.Http.Header.{header_step, in_header, header_loop, parse_message_header}

module _ (msgbuf : Bytes) (msgsize bufsize : ℕ) (complete : Bool) where
  -- The parser with other fields of the buffer.
  abbrev pub with_buffer : Parser → Parser
  with_buffer p = record p {
    msgbuf = msgbuf;
    msgsize = msgsize;
    bufsize = bufsize;
    complete = complete;
  }

  abbrev pub result_with : Status × Parser → Status × Parser
  result_with r = (r.0, with_buffer r.1)

  start_line_found-frame :
      (alloc : Bool) (line : Bytes) (parts : Option (Bytes × Bytes × Bytes)) (p : Parser)
      → start_line_found alloc line parts (with_buffer p)
        ≡ result_with (start_line_found alloc line parts p)
  unfolding start_line_found
  start_line_found-frame alloc line none p = refl
  start_line_found-frame alloc line (some (p1, p2, p3)) p = ground arith

  parse_start_line-frame :
      (alloc : Bool) (ptr : Bytes) (p : Parser)
      → parse_start_line alloc ptr (with_buffer p) ≡ result_with (parse_start_line alloc ptr p)
  unfolding parse_start_line
  parse_start_line-frame alloc ptr p = elim (Bool-cases (at_crlf ptr)) [
    | inl crlf ↦ rw crlf refl
    | inr other ↦ elim (StartLine.LineScan-cases (scan_start_line 0 [] ptr)) [
      | inl (inl e) ↦ rw (other, e) refl
      | inl (inr e) ↦ rw (other, e) refl
      | inr (l, e) ↦ rw (other, e) (start_line_found-frame alloc l (split_start_line l) p)
    ]
  ]

  parse_header_name-frame :
      (ptr : Bytes) (p : Parser)
      → parse_header_name ptr (with_buffer p) ≡ result_with (parse_header_name ptr p)
  unfolding parse_header_name
  parse_header_name-frame ptr p = ground (arith, Name.NameScan-cases (scan_name 0 p.namebuf ptr))

  add_header-frame :
      (alloc : Bool) (name value : Bytes) (p : Parser)
      → add_header alloc name value (with_buffer p) ≡ result_with (add_header alloc name value p)
  unfolding add_header add_message_header check_message_header
  add_header-frame alloc name value p = ground arith

  parse_header_value-frame :
      (alloc : Bool) (ptr : Bytes) (p : Parser)
      → parse_header_value alloc ptr (with_buffer p) ≡ result_with (parse_header_value alloc ptr p)
  unfolding parse_header_value
  parse_header_value-frame alloc ptr p =
      elim (Value.ValueScan-cases (scan_value Value.skip 0 [] ptr)) [
        | inl stuck ↦ ground (arith, stuck)
        | inr (k, text, e) ↦ rw e (ground (arith, add_header-frame alloc (c_str p.namebuf) text p))
      ]

  pub header_step-frame :
      (alloc : ℕ → Bool) (message : Bytes) (p : Parser)
      → header_step alloc message (with_buffer p) ≡ result_with (header_step alloc message p)
  unfolding header_step
  header_step-frame alloc message p = in_state p.header_state
    where
      ptr : Bytes
      ptr = drop p.header_offset message

      in_state :
          (s : HeaderState)
          → in_header s (alloc p.header_offset) ptr (with_buffer p)
            ≡ result_with (in_header s (alloc p.header_offset) ptr p)
      in_state start_line = parse_start_line-frame (alloc p.header_offset) ptr p
      in_state header_value = parse_header_value-frame (alloc p.header_offset) ptr p
      in_state header_name = parse_header_name-frame ptr p
      in_state header_complete = parse_header_name-frame ptr p

  pub header_loop-frame :
      (alloc : ℕ → Bool) (fuel : ℕ) (message : Bytes) (p : Parser) (r : Status × Parser)
      → header_loop alloc fuel message p ≡ some r
      → header_loop alloc fuel message (with_buffer p) ≡ some (result_with r)
  unfolding header_loop
  header_loop-frame alloc zero message p r e = cc
  header_loop-frame alloc (suc fuel) message p r e =
      elim (step-cases (header_step alloc message p)) [
        | inr (s, q, k, stop) ↦ ground (arith, k, stop, header_step-frame alloc message p)
        | inl (q, k) ↦
            ground (
              arith,
              k,
              header_step-frame alloc message p,
              header_loop-frame alloc fuel message q r,
            )
      ]

  pub parse_message_header-frame :
      (alloc : ℕ → Bool) (message : Bytes) (p : Parser) (r : Status × Parser)
      → parse_message_header alloc message p ≡ some r
      → parse_message_header alloc message (with_buffer p) ≡ some (result_with r)
  unfolding parse_message_header
  parse_message_header-frame alloc message p r e =
      header_loop-frame alloc (suc (length message - p.header_offset)) message p r e

-- The fields of the buffer after the header loop.
pub parse_message_header-buffer :
    (alloc : ℕ → Bool) (message : Bytes) (p : Parser) (s : Status) (q : Parser)
    → parse_message_header alloc message p ≡ some (s, q)
    → (q.msgbuf ≡ p.msgbuf)
      × (q.msgsize ≡ p.msgsize)
      × (q.bufsize ≡ p.bufsize)
      × (q.complete ≡ p.complete)
parse_message_header-buffer alloc message p s q e =
    let framed =
      parse_message_header-frame p.msgbuf p.msgsize p.bufsize p.complete alloc message p (s, q) e in
    ground (arith, framed, e)

-- ===== src/Http/Bounds/Steps.antt =====
-- One round of the header loop of src/protocol/http_parser.c.
use tinywf.Prelude.{
  ℕ, ◌+◌, ◌≡◌, ◌≢◌, Bool, [], arith, ◌<◌, ◌≤◌, length, drop, length-drop, inl, inr,
}
use tinywf.Prelude.Bytes.{Bytes, c_str}
use tinywf.Http.{
  Parser, HeaderState, start_line, header_name, header_value, header_complete, Status, more,
}
use tinywf.Http.Headers.{add_header, add_message_header, check_message_header}
use tinywf.Http.StartLine
use tinywf.Http.StartLine.{parse_start_line, scan_start_line, split_start_line, at_crlf}
use tinywf.Http.Name
use tinywf.Http.Name.{parse_header_name, scan_name}
use tinywf.Http.Value
use tinywf.Http.Value.{parse_header_value, scan_value}
use tinywf.Http.Header.{header_step, in_header}
use tinywf.Http.Bounds.Scans.{
  at_crlf-length, scan_start_line-length, scan_name-bounds, scan_value-bounds, scan_value-moves,
}

-- The offset has moved on, by no more than the bytes that were there.
abbrev pub Moves : ℕ → ℕ → ℕ → Type 0
Moves before after len = (before < after) × (after ≤ before + len)

pub parse_start_line-Moves :
    (alloc : Bool) (ptr : Bytes) (p q : Parser)
    → parse_start_line alloc ptr p ≡ (more, q)
    → Moves p.header_offset q.header_offset (length ptr)
unfolding parse_start_line
parse_start_line-Moves alloc ptr p q h =
    elim (StartLine.LineScan-cases (scan_start_line 0 [] ptr)) [
      | inl stuck ↦ ground (arith, stuck, at_crlf-length ptr)
      | inr (l, e) ↦ ground (arith, e, at_crlf-length ptr, scan_start_line-length 0 [] ptr l)
    ]

pub parse_header_name-Moves :
    (ptr : Bytes) (p q : Parser)
    → parse_header_name ptr p ≡ (more, q)
    → Moves p.header_offset q.header_offset (length ptr)
unfolding parse_header_name
parse_header_name-Moves ptr p q h = elim (Name.NameScan-cases (scan_name 0 p.namebuf ptr)) [
  | inl (_, e) ↦ ground (arith, e, at_crlf-length ptr)
  | inr (inl (_, e)) ↦ ground (arith, e, at_crlf-length ptr)
  | inr (inr (i, nb, e)) ↦
      ground (arith, e, at_crlf-length ptr, scan_name-bounds 0 p.namebuf ptr i nb)
]

pub header_offset-add_header :
    (alloc : Bool) (name value : Bytes) (p : Parser)
    → (add_header alloc name value p).1.header_offset ≡ p.header_offset
unfolding add_header add_message_header check_message_header
header_offset-add_header alloc name value p = ground arith

pub parse_header_value-Moves :
    (alloc : Bool) (ptr : Bytes) (p q : Parser)
    → parse_header_value alloc ptr p ≡ (more, q)
    → Moves p.header_offset q.header_offset (length ptr)
unfolding parse_header_value
parse_header_value-Moves alloc ptr p q h =
    elim (Value.ValueScan-cases (scan_value Value.skip 0 [] ptr)) [
      | inl stuck ↦ ground (arith, stuck)
      | inr (k, text, e) ↦ ground (
        arith,
        e,
        header_offset-add_header alloc (c_str p.namebuf) text p,
        scan_value-bounds Value.skip 0 [] ptr k text,
        scan_value-moves 0 [] ptr k text,
      )
    ]

-- A round of the header loop that returns 1, from an offset inside the message, moves the offset
-- on, and not past the end.
pub header_step-Moves :
    (alloc : ℕ → Bool) (message : Bytes) (p q : Parser)
    → p.header_offset ≤ length message
    → header_step alloc message p ≡ (more, q)
    → (p.header_offset < q.header_offset) × (q.header_offset ≤ length message)
unfolding header_step
header_step-Moves alloc message p q h e = in_state p.header_state e
  where
    ptr : Bytes
    ptr = drop p.header_offset message

    within :
        Moves p.header_offset q.header_offset (length ptr)
        → (p.header_offset < q.header_offset) × (q.header_offset ≤ length message)
    within m = omega (arith, length-drop p.header_offset message)

    in_state :
        (s : HeaderState)
        → in_header s (alloc p.header_offset) ptr p ≡ (more, q)
        → (p.header_offset < q.header_offset) × (q.header_offset ≤ length message)
    in_state start_line e = within (parse_start_line-Moves (alloc p.header_offset) ptr p q e)
    in_state header_value e = within (parse_header_value-Moves (alloc p.header_offset) ptr p q e)
    in_state header_name e = within (parse_header_name-Moves ptr p q e)
    in_state header_complete e = within (parse_header_name-Moves ptr p q e)

-- Neither the offset nor the state of the header has changed.
abbrev pub Stays : Parser → Parser → Type 0
Stays p q = (q.header_state ≡ p.header_state) × (q.header_offset ≡ p.header_offset)

header_state-add_header :
    (alloc : Bool) (name value : Bytes) (p : Parser)
    → (add_header alloc name value p).1.header_state ≡ p.header_state
unfolding add_header add_message_header check_message_header
header_state-add_header alloc name value p = ground arith

module _ (alloc : Bool) (ptr : Bytes) (p q : Parser) (s : Status) (other : s ≢ more) where
  parse_start_line-Stays : parse_start_line alloc ptr p ≡ (s, q) → Stays p q
  unfolding parse_start_line
  parse_start_line-Stays h = elim (StartLine.LineScan-cases (scan_start_line 0 [] ptr)) [
    | inl stuck ↦ ground (arith, stuck)
    | inr (l, e) ↦ ground (arith, e)
  ]

  parse_header_name-Stays : parse_header_name ptr p ≡ (s, q) → Stays p q
  unfolding parse_header_name
  parse_header_name-Stays h = ground (arith, Name.NameScan-cases (scan_name 0 p.namebuf ptr))

  parse_header_value-Stays : parse_header_value alloc ptr p ≡ (s, q) → Stays p q
  unfolding parse_header_value
  parse_header_value-Stays h = elim (Value.ValueScan-cases (scan_value Value.skip 0 [] ptr)) [
    | inl stuck ↦ ground (arith, stuck)
    | inr (k, text, e) ↦ ground (
      arith,
      e,
      header_offset-add_header alloc (c_str p.namebuf) text p,
      header_state-add_header alloc (c_str p.namebuf) text p,
    )
  ]

-- A round that returns another value leaves the offset and the state.
pub header_step-Stays :
    (alloc : ℕ → Bool) (message : Bytes) (p q : Parser) (s : Status)
    → s ≢ more
    → header_step alloc message p ≡ (s, q)
    → Stays p q
unfolding header_step
header_step-Stays alloc message p q s other e = in_state p.header_state e
  where
    ptr : Bytes
    ptr = drop p.header_offset message

    in_state : (st : HeaderState) → in_header st (alloc p.header_offset) ptr p ≡ (s, q) → Stays p q
    in_state start_line e = parse_start_line-Stays (alloc p.header_offset) ptr p q s other e
    in_state header_value e = parse_header_value-Stays (alloc p.header_offset) ptr p q s other e
    in_state header_name e = parse_header_name-Stays (alloc p.header_offset) ptr p q s other e
    in_state header_complete e = parse_header_name-Stays (alloc p.header_offset) ptr p q s other e

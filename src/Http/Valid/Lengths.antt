-- ===== src/Http/Valid/Lengths.antt =====
-- The lengths that the header loop of src/protocol/http_parser.c reads are lengths.
use tinywf.Prelude.{
  ℕ, zero, suc, ◌+◌, ◌-◌, ◌*◌, ◌≡◌, Bool, true, false, [], ◌∷◌, arith, ◌<◌, ◌≤◌, inl, inr, length,
  drop, Bool-cases, none, some, Option,
}
use tinywf.Prelude.Bytes.{Bytes, c_str}
use tinywf.Http.{
  Parser, HeaderState, start_line, header_name, header_value, header_complete, Status, is_complete,
}
use tinywf.Http.Headers.{
  add_header, add_message_header, check_message_header, check_content_length, atol,
}
use tinywf.Http.StartLine
use tinywf.Http.StartLine.{parse_start_line, scan_start_line, split_start_line, start_line_found}
use tinywf.Http.Name
use tinywf.Http.Name.{parse_header_name, scan_name}
use tinywf.Http.Value
use tinywf.Http.Value.{parse_header_value, scan_value}
use tinywf.Http.Header.{header_step, in_header, header_loop, parse_message_header}
use tinywf.Http.Bounds.Loops.{step-cases}
use tinywf.Http.Valid.{IsLength}

-- 10 ^ n
tens : ℕ → ℕ
tens zero = 1
tens (suc n) = 10 * tens n

tens_mono : (m n : ℕ) → m ≤ n → tens m ≤ tens n
unfolding tens
tens_mono zero zero h = omega arith
tens_mono zero (suc n) h = omega (arith, tens_mono zero n (omega arith))
tens_mono (suc m) zero h = absurd (omega arith)
tens_mono (suc m) (suc n) h = omega (arith, tens_mono m n (omega arith))

grows : (b t : ℕ) → 1 ≤ t → b ≤ b * t
grows b t h = grind arith

-- `n` digits add `n` places.
atol-lt : (acc bound : ℕ) (xs : Bytes) → acc < bound → atol acc xs < bound * tens (length xs)
unfolding atol tens
atol-lt acc bound [] h = omega arith
atol-lt acc bound (c ∷ cs) h = ground (
  arith,
  grows bound (tens (length cs)) (tens_mono 0 (length cs) (omega arith)),
  atol-lt (acc * 10 + (c - b'0')) (bound * 10) cs,
)

atol-IsLength : (xs : Bytes) → length xs ≤ 15 → IsLength (atol 0 xs)
unfolding tens
atol-IsLength xs h = inr (omega (arith, atol-lt 0 1 xs (omega arith), tens_mono (length xs) 15 h))

-- Both lengths of a parser.
abbrev pub HasLengths : Parser → Type 0
HasLengths p = IsLength p.content_length × IsLength p.transfer_length

check_content_length-HasLengths :
    (value : Bytes) (p : Parser) → HasLengths p → HasLengths (check_content_length value p)
unfolding check_content_length
check_content_length-HasLengths value p v = ground (arith, atol-IsLength value)

check_message_header-HasLengths :
    (name value : Bytes) (p : Parser)
    → HasLengths p
    → HasLengths (check_message_header name value p)
unfolding check_message_header
check_message_header-HasLengths name value p v =
    ground (arith, check_content_length-HasLengths value p v)

add_header-HasLengths :
    (alloc : Bool) (name value : Bytes) (p : Parser)
    → HasLengths p
    → HasLengths (add_header alloc name value p).1
unfolding add_header add_message_header
add_header-HasLengths true name value p v = check_message_header-HasLengths name value _ v
add_header-HasLengths false name value p v = v

start_line_found-HasLengths :
    (alloc : Bool) (line : Bytes) (parts : Option (Bytes × Bytes × Bytes)) (p : Parser)
    → HasLengths p
    → HasLengths (start_line_found alloc line parts p).1
unfolding start_line_found
start_line_found-HasLengths alloc line none p v = v
start_line_found-HasLengths alloc line (some (p1, p2, p3)) p v = ground arith

module _ (alloc : Bool) (ptr : Bytes) (p : Parser) (v : HasLengths p) where
  parse_start_line-HasLengths : HasLengths (parse_start_line alloc ptr p).1
  unfolding parse_start_line
  parse_start_line-HasLengths = elim (StartLine.LineScan-cases (scan_start_line 0 [] ptr)) [
    | inl stuck ↦ ground (arith, stuck)
    | inr (l, e) ↦ ground (arith, e, start_line_found-HasLengths alloc l (split_start_line l) p v)
  ]

  parse_header_name-HasLengths : HasLengths (parse_header_name ptr p).1
  unfolding parse_header_name
  parse_header_name-HasLengths = ground (arith, Name.NameScan-cases (scan_name 0 p.namebuf ptr))

  parse_header_value-HasLengths : HasLengths (parse_header_value alloc ptr p).1
  unfolding parse_header_value
  parse_header_value-HasLengths = elim (Value.ValueScan-cases (scan_value Value.skip 0 [] ptr)) [
    | inl stuck ↦ ground (arith, stuck)
    | inr (k, text, e) ↦ ground (arith, e, add_header-HasLengths alloc (c_str p.namebuf) text p v)
  ]

header_step-HasLengths :
    (alloc : ℕ → Bool) (message : Bytes) (p : Parser)
    → HasLengths p
    → HasLengths (header_step alloc message p).1
unfolding header_step
header_step-HasLengths alloc message p v = in_state p.header_state
  where
    ptr : Bytes
    ptr = drop p.header_offset message

    in_state : (s : HeaderState) → HasLengths (in_header s (alloc p.header_offset) ptr p).1
    in_state start_line = parse_start_line-HasLengths (alloc p.header_offset) ptr p v
    in_state header_value = parse_header_value-HasLengths (alloc p.header_offset) ptr p v
    in_state header_name = parse_header_name-HasLengths (alloc p.header_offset) ptr p v
    in_state header_complete = parse_header_name-HasLengths (alloc p.header_offset) ptr p v

header_loop-HasLengths :
    (alloc : ℕ → Bool) (fuel : ℕ) (message : Bytes) (p : Parser) (s : Status) (q : Parser)
    → HasLengths p
    → header_loop alloc fuel message p ≡ some (s, q)
    → HasLengths q
unfolding header_loop
header_loop-HasLengths alloc zero message p s q v e = cc
header_loop-HasLengths alloc (suc fuel) message p s q v e =
    elim (step-cases (header_step alloc message p)) [
      | inr (t, p', k, stop) ↦
          let same : q ≡ p' = ground (arith, k, stop) in
          let w : HasLengths p' = rw k at (header_step-HasLengths alloc message p v) in rw same w
      | inl (p', k) ↦
          let w : HasLengths p' = rw k at (header_step-HasLengths alloc message p v) in
          elim (Bool-cases (is_complete p'.header_state)) [
            | inl c ↦ let same : q ≡ p' = ground (arith, k, c) in rw same w
            | inr o ↦ header_loop-HasLengths alloc fuel message p' s q w (ground (arith, k, o))
          ]
    ]

pub parse_message_header-HasLengths :
    (alloc : ℕ → Bool) (message : Bytes) (p : Parser) (s : Status) (q : Parser)
    → HasLengths p
    → parse_message_header alloc message p ≡ some (s, q)
    → HasLengths q
unfolding parse_message_header
parse_message_header-HasLengths alloc message p s q =
    header_loop-HasLengths alloc (suc (length message - p.header_offset)) message p s q

-- ===== src/Http/Resume/Steps.antt =====
-- One round of the header loop of src/protocol/http_parser.c, over a part of the message and over
-- more of it.
use tinywf.Prelude.{
  ◌≡◌, ◌≢◌, refl, Bool, true, [], ◌∷◌, ◌++◌, arith, inl, inr, Bool-cases, if◌then◌else◌,
}
use tinywf.Prelude.Bytes.{Bytes}
use tinywf.Http.{Parser, Status, wait, is_complete}
use tinywf.Http.StartLine
use tinywf.Http.StartLine.{parse_start_line, scan_start_line, split_start_line, at_crlf, match_line}
use tinywf.Http.Name
use tinywf.Http.Name.{parse_header_name, scan_name}
use tinywf.Http.Value
use tinywf.Http.Value.{parse_header_value, scan_value}
use tinywf.Http.Resume.Scans.{scan_start_line-append, scan_value-append}
use tinywf.Http.Resume.Name.{scan_name-append, is_over}

-- What later calls can see of a parser: its array of the header name is not read any more once
-- the header is complete.
abbrev pub shown : Parser → Parser
shown p = record p { namebuf = if is_complete p.header_state then [] else p.namebuf }

at_crlf_start :
    (xs ys : Bytes)
    → scan_start_line 0 [] xs ≢ StartLine.incomplete
    → at_crlf (xs ++ ys) ≡ at_crlf xs
unfolding scan_start_line at_crlf
at_crlf_start [] ys h = ground arith
at_crlf_start (x ∷ []) [] h = refl
at_crlf_start (x ∷ []) (y ∷ ys) h = ground arith
at_crlf_start (x ∷ z ∷ xs) ys h = refl

at_crlf_name :
    (namebuf xs ys : Bytes)
    → is_over (scan_name 0 namebuf xs) ≡ true
    → at_crlf (xs ++ ys) ≡ at_crlf xs
unfolding scan_name at_crlf
at_crlf_name namebuf [] ys h = ground arith
at_crlf_name namebuf (x ∷ []) [] h = refl
at_crlf_name namebuf (x ∷ []) (y ∷ ys) h = ground arith
at_crlf_name namebuf (x ∷ z ∷ xs) ys h = refl

at_crlf-true : (xs ys : Bytes) → at_crlf xs ≡ true → at_crlf (xs ++ ys) ≡ true
unfolding at_crlf
at_crlf-true [] ys h = cc
at_crlf-true (x ∷ []) ys h = cc
at_crlf-true (x ∷ z ∷ xs) ys h = h

pub parse_start_line-wait :
    (alloc : Bool) (ptr : Bytes) (p q : Parser) → parse_start_line alloc ptr p ≡ (wait, q) → q ≡ p
unfolding parse_start_line
parse_start_line-wait alloc ptr p q h = elim (StartLine.LineScan-cases (scan_start_line 0 [] ptr)) [
  | inl stuck ↦ ground (arith, stuck)
  | inr (l, e) ↦ ground (arith, e)
]

pub parse_start_line-append :
    (alloc : Bool) (xs ys : Bytes) (p q : Parser) (s : Status)
    → parse_start_line alloc xs p ≡ (s, q)
    → s ≢ wait
    → parse_start_line alloc (xs ++ ys) p ≡ (s, q)
unfolding parse_start_line
parse_start_line-append alloc xs ys p q s h n = elim (Bool-cases (at_crlf xs)) [
  | inl crlf ↦ ground (arith, crlf, at_crlf-true xs ys)
  | inr other ↦
      let over : scan_start_line 0 [] xs ≢ StartLine.incomplete = λ e. ground (arith, e) in
      rw (at_crlf_start xs ys over, scan_start_line-append 0 [] xs ys over) h
]

pub parse_header_value-wait :
    (alloc : Bool) (ptr : Bytes) (p q : Parser) → parse_header_value alloc ptr p ≡ (wait, q) → q ≡ p
unfolding parse_header_value
parse_header_value-wait alloc ptr p q h =
    elim (Value.ValueScan-cases (scan_value Value.skip 0 [] ptr)) [
      | inl stuck ↦ ground (arith, stuck)
      | inr (k, text, e) ↦ ground (arith, e)
    ]

pub parse_header_value-append :
    (alloc : Bool) (xs ys : Bytes) (p q : Parser) (s : Status)
    → parse_header_value alloc xs p ≡ (s, q)
    → s ≢ wait
    → parse_header_value alloc (xs ++ ys) p ≡ (s, q)
unfolding parse_header_value
parse_header_value-append alloc xs ys p q s h n =
    let over : scan_value Value.skip 0 [] xs ≢ Value.ValueScan.incomplete =
      λ e. ground (arith, e) in
    rw (scan_value-append Value.skip 0 [] xs ys over) h

pub parse_header_name-append :
    (xs ys : Bytes) (p q : Parser) (s : Status)
    → parse_header_name xs p ≡ (s, q)
    → s ≢ wait
    → parse_header_name (xs ++ ys) p ≡ (s, q)
unfolding parse_header_name
parse_header_name-append xs ys p q s h n = elim (Bool-cases (at_crlf xs)) [
  | inl crlf ↦ ground (arith, crlf, at_crlf-true xs ys)
  | inr other ↦ elim (Bool-cases (is_over (scan_name 0 p.namebuf xs))) [
    | inl over ↦ rw (at_crlf_name p.namebuf xs ys over, scan_name-append 0 p.namebuf xs ys over) h
    | inr partial ↦ elim (Name.NameScan-cases (scan_name 0 p.namebuf xs)) [
      | inl (nb, e) ↦ ground (arith, e)
      | inr (inl (nb, e)) ↦ ground (arith, e)
      | inr (inr (i, nb, e)) ↦ ground (arith, e)
    ]
  ]
]

-- ===== src/Http/StartLine.antt =====
-- `__parse_start_line`, `__match_request_line` and `__match_status_line` of
-- src/protocol/http_parser.c. `alloc` says whether the three `strdup` of a match succeed.
use tinywf.Prelude.{
  ℕ, ◌+◌, ◌≡◌, ◌⊎◌, inl, inr, refl, Bool, false, ◌||◌, Option, none, some, [], ◌∷◌, ◌++◌, ◌==◌,
  if◌then◌else◌, is_nil, get_or, length,
}
use tinywf.Prelude.Bytes.{Bytes, codes, str_eq, starts_with, split_at}
use tinywf.Http.{Parser, Status, more, wait, nomem, malformed, start_line_max, header_name}

-- `strcmp(version, "HTTP/1.0") == 0 || strncmp(version, "HTTP/0", 6) == 0`
unfoldable pub is_old_version : Bytes → Bool
is_old_version version = str_eq version (codes "HTTP/1.0") || starts_with version (codes "HTTP/0")

-- The first test of both functions.
unfoldable pub check_version : Bytes → Parser → Parser
unfolding is_old_version
check_version version p = if is_old_version version then record p { keep_alive = false } else p

unfoldable pub match_request_line : Bool → Bytes → Bytes → Bytes → Parser → Status × Parser
unfolding check_version
match_request_line alloc method uri version p =
    let q = check_version version p in
    if alloc
    then (more, record q { method = some method; uri = some uri; version = some version })
    else (nomem, q)

-- `*code == '1' || strcmp(code, "204") == 0 || strcmp(code, "304") == 0`
unfoldable pub has_no_body : Bytes → Bool
has_no_body code =
    get_or code 0 0 == b'1' || (str_eq code (codes "204") || str_eq code (codes "304"))

unfoldable pub match_status_line : Bool → Bytes → Bytes → Bytes → Parser → Status × Parser
unfolding check_version has_no_body
match_status_line alloc version code phrase p =
    let checked = check_version version p in
    let q = if has_no_body code then record checked { transfer_length = 0 } else checked in
    if alloc
    then (more, record q { version = some version; code = some code; phrase = some phrase })
    else (nomem, q)

-- What a scan for the end of a line comes to; `found` has the bytes before the carriage return.
pub data LineScan : Type 0 where
  incomplete invalid : LineScan
  found : Bytes → LineScan

pub LineScan-cases :
    (r : LineScan) → ((r ≡ incomplete) ⊎ (r ≡ invalid)) ⊎ ((line : Bytes) × (r ≡ found line))
LineScan-cases incomplete = inl (inl refl)
LineScan-cases invalid = inl (inr refl)
LineScan-cases (found line) = inr (line, refl)

-- The `for` loop of `__parse_start_line` at the byte `i`; `line` holds the bytes before it.
unfoldable pub scan_start_line : ℕ → Bytes → Bytes → LineScan
scan_start_line i line [] = if i == start_line_max then invalid else incomplete
scan_start_line i line (c ∷ rest) =
    let later = scan_start_line (i + 1) (line ++ c ∷ []) rest in
    if i == start_line_max
    then invalid
    else if c == b'\r'
    then (if is_nil rest
        then incomplete
        else if get_or rest 0 0 == b'\n'
        then found line
        else invalid)
    else if c == 0
    then invalid
    else later

-- The three parts of a line, split at the first two blanks.
unfoldable pub split_start_line : Bytes → Option (Bytes × Bytes × Bytes)
split_start_line line = elim (split_at b' ' line) [
  | none ↦ none
  | some (p1, rest) ↦ elim (split_at b' ' rest) [ none ↦ none | some (p2, p3) ↦ some (p1, p2, p3) ]
]

unfoldable pub match_line : Bool → Bytes × Bytes × Bytes → Parser → Status × Parser
unfolding match_request_line match_status_line
match_line alloc (p1, p2, p3) p =
    if p.is_resp then match_status_line alloc p1 p2 p3 p else match_request_line alloc p1 p2 p3 p

-- What follows a match: the offset moves past the line only if the memory sufficed.
unfoldable pub advance : ℕ → Status × Parser → Status × Parser
advance n (more, q) =
    (more, record q { header_offset = q.header_offset + n; header_state = header_name })
advance n (s, q) = (nomem, q)

unfoldable pub start_line_found :
    Bool → Bytes → Option (Bytes × Bytes × Bytes) → Parser → Status × Parser
unfolding match_line advance
start_line_found alloc line none p = (malformed, p)
start_line_found alloc line (some parts) p = advance (length line + 2) (match_line alloc parts p)

unfoldable pub scanned_start_line : Bool → LineScan → Parser → Status × Parser
unfolding start_line_found split_start_line
scanned_start_line alloc incomplete p = (wait, p)
scanned_start_line alloc invalid p = (malformed, p)
scanned_start_line alloc (found line) p = start_line_found alloc line (split_start_line line) p

-- `len >= 2 && ptr[0] == '\r' && ptr[1] == '\n'`
unfoldable pub at_crlf : Bytes → Bool
at_crlf [] = false
at_crlf (c ∷ []) = false
at_crlf (c ∷ d ∷ rest) = if c == b'\r' then d == b'\n' else false

unfoldable pub parse_start_line : Bool → Bytes → Parser → Status × Parser
unfolding scanned_start_line scan_start_line at_crlf
parse_start_line alloc ptr p =
    let scanned = scanned_start_line alloc (scan_start_line 0 [] ptr) p in
    if at_crlf ptr then (more, record p { header_offset = p.header_offset + 2 }) else scanned

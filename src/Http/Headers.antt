-- ===== src/Http/Headers.antt =====
-- The header list of src/protocol/http_parser.c: adding, setting and inspecting a header, and the
-- cursor. `alloc` is the outcome of the `malloc` of the call.
pub mod Text
pub mod Find
pub mod Add
use tinywf.Prelude.{
  ℕ, zero, suc, ◌+◌, ◌-◌, ◌*◌, Bool, true, false, not, ◌&&◌, ◌||◌, Option, none, some, List, [],
  ◌∷◌, ◌++◌, ◌==◌, leb, ltb, if◌then◌else◌, length, take, drop, get_or, replicate,
}
use tinywf.Prelude.Bytes.{Bytes, codes, case_eq}
use tinywf.Http.{HeaderLine, Parser, Status, more, nomem}

abbrev pub colon : Bytes
colon = b':' ∷ b' ' ∷ []

abbrev pub crlf : Bytes
crlf = b'\r' ∷ b'\n' ∷ []

-- `memcpy(buf + i, src, n)`
unfoldable pub memcpy : Bytes → ℕ → Bytes → Bytes
memcpy buf i src = take i buf ++ (src ++ drop (i + length src) buf)

-- What `line->buf + line->name_len + 2` shows for `line->value_len` bytes.
unfoldable pub line_value : HeaderLine → Bytes
line_value line = take line.value_len (drop (line.name_len + 2) line.buf)

unfoldable pub line_name : HeaderLine → Bytes
line_name line = take line.name_len line.buf

unfoldable pub add_message_header :
    Bool → Bytes → Bytes → List HeaderLine → Option (List HeaderLine)
add_message_header alloc name value headers =
    if alloc
    then some (
        headers
        ++ record {
          name_len = length name;
          value_len = length value;
          buf = name ++ (colon ++ (value ++ crlf));
        }
          ∷ [])
    else none

-- `line->name_len == name_len && strncasecmp(line->buf, name, name_len) == 0`
unfoldable pub line_matches : Bytes → HeaderLine → Bool
unfolding line_name
line_matches name line = line.name_len == length name && case_eq (line_name line) name

-- The text of the line that is found: a longer value gets a new allocation.
unfoldable pub set_line : Bytes → Bytes → HeaderLine → HeaderLine
unfolding memcpy
set_line name value line =
    let fresh = name ++ (colon ++ replicate (length value + 2) 0) in
    let buf = if ltb line.value_len (length value) then fresh else line.buf in
    let valued = memcpy buf (length name + 2) value in
    record line {
      buf = memcpy valued (length name + 2 + length value) crlf;
      value_len = length value;
    }

-- The walk over `rest`; where no line matches, a header is added behind `seen ++ rest`.
unfoldable pub set_message_header :
    Bool → Bytes → Bytes → List HeaderLine → List HeaderLine → Option (List HeaderLine)
unfolding set_line line_matches add_message_header
set_message_header alloc name value seen [] = add_message_header alloc name value seen
set_message_header alloc name value seen (line ∷ rest) =
    let later = set_message_header alloc name value (seen ++ line ∷ []) rest in
    if line_matches name line
    then (if ltb line.value_len (length value) && not alloc
        then none
        else some (seen ++ set_line name value line ∷ rest))
    else later

-- `atol` on text that begins with a digit
unfoldable pub atol : ℕ → Bytes → ℕ
atol acc [] = acc
atol acc (c ∷ cs) =
    let rest = atol (acc * 10 + (c - b'0')) cs in if leb b'0' c && leb c b'9' then rest else acc

unfoldable pub check_connection : Bytes → Parser → Parser
check_connection value p =
    if length value == 10 && case_eq value (codes "Keep-Alive")
    then record p { has_connection = true; keep_alive = true }
    else if length value == 5 && case_eq value (codes "close")
    then record p { has_connection = true; keep_alive = false }
    else record p { has_connection = true }

unfoldable pub check_content_length : Bytes → Parser → Parser
unfolding atol
check_content_length value p =
    let first = get_or value 0 0 in
    if leb b'0' first && (leb first b'9' && leb (length value) 15)
    then record p { has_content_length = true; content_length = atol 0 value }
    else record p { has_content_length = true }

-- The `switch` on the length of the name.
unfoldable pub check_message_header : Bytes → Bytes → Parser → Parser
unfolding check_connection check_content_length
check_message_header name value p =
    if length name == 6
    then (if case_eq name (codes "Expect")
          && (length value == 12 && case_eq value (codes "100-continue"))
        then record p { expect_continue = true }
        else p)
    else if length name == 10
    then (if case_eq name (codes "Connection")
        then check_connection value p
        else if case_eq name (codes "Keep-Alive")
        then record p { has_keep_alive = true }
        else p)
    else if length name == 14
    then (if case_eq name (codes "Content-Length") then check_content_length value p else p)
    else if length name == 17
    then (if case_eq name (codes "Transfer-Encoding")
        then record p {
          chunked = not (length value == 8) || not (case_eq value (codes "identity"));
        }
        else p)
    else p

-- Both take the name and the value with their lengths; 0 is `more` here.
stored : Bytes → Bytes → Parser → Option (List HeaderLine) → Status × Parser
stored name value p none = (nomem, p)
stored name value p (some headers) =
    (more, check_message_header name value (record p { header_list = headers }))

unfoldable pub add_header : Bool → Bytes → Bytes → Parser → Status × Parser
unfolding stored
add_header alloc name value p =
    stored name value p (add_message_header alloc name value p.header_list)

unfoldable pub set_header : Bool → Bytes → Bytes → Parser → Status × Parser
unfolding stored
set_header alloc name value p =
    stored name value p (set_message_header alloc name value [] p.header_list)

-- A cursor stands between the headers that it has passed and those behind it.
pub record Cursor : Type 0 where
  pub head : List HeaderLine
  pub rest : List HeaderLine

unfoldable pub cursor_init : Parser → Cursor
cursor_init p = record { head = p.header_list; rest = p.header_list }

unfoldable pub cursor_rewind : Cursor → Cursor
cursor_rewind c = record c { rest = c.head }

next_in : Cursor → List HeaderLine → Option (Bytes × Bytes) × Cursor
next_in c [] = (none, c)
next_in c (line ∷ rest) = (some (line_name line, line_value line), record c { rest = rest })

unfoldable pub cursor_next : Cursor → Option (Bytes × Bytes) × Cursor
unfolding next_in line_name line_value
cursor_next c = next_in c c.rest

unfoldable pub find_in : Bytes → Cursor → List HeaderLine → Option Bytes × Cursor
unfolding line_matches line_value
find_in name c [] = (none, record c { rest = [] })
find_in name c (line ∷ rest) =
    let later = find_in name c rest in
    if line_matches name line then (some (line_value line), record c { rest = rest }) else later

unfoldable pub cursor_find : Bytes → Cursor → Option Bytes × Cursor
unfolding find_in
cursor_find name c = find_in name c c.rest

-- ===== src/Http/Append.antt =====
-- `http_parser_append_message` and the functions after it in src/protocol/http_parser.c. `grow` is
-- the outcome of `realloc`, `alloc` that of the allocations of the header loop. Sizes of buffers
-- that exist do not wrap; what comes from the message is taken modulo 2^64.
use tinywf.Prelude.{
  ℕ, zero, suc, ◌+◌, ◌-◌, ◌*◌, ◌%◌, ◌^◌, max, Bool, true, ◌&&◌, Option, none, some, ◌++◌, ◌==◌, ltb,
  leb, if◌then◌else◌, length, take, drop,
}
use tinywf.Prelude.Bytes.{Bytes}
use tinywf.Http.{
  Parser, chunk_data, is_complete, is_chunk_complete, Status, more, wait, nomem, msgbuf_init_size,
  size_max,
}
use tinywf.Http.Header.{parse_message_header}
use tinywf.Http.Chunk.{parse_chunk}

-- `while (new_size < need) new_size *= 2`, with fuel.
unfoldable pub double_until : ℕ → ℕ → ℕ → ℕ
double_until zero need size = size
double_until (suc fuel) need size =
    let again = double_until fuel need (size * 2) in if ltb size need then again else size

-- The buffer grows if it does not hold `n` more bytes and one behind them.
unfoldable pub reserve : Bool → ℕ → Parser → Option Parser
unfolding double_until
reserve grow n p =
    let need = p.msgsize + n + 1 in
    let new_size = double_until need need (max msgbuf_init_size (2 * p.bufsize)) in
    if ltb p.bufsize need
    then (if grow then some (record p { bufsize = new_size }) else none)
    else some p

unfoldable pub receive : Bytes → Parser → Parser
receive buf p = record p { msgbuf = p.msgbuf ++ buf; msgsize = p.msgsize + length buf }

-- `a -= b` on `size_t`
abbrev pub sub_size : ℕ → ℕ → ℕ
sub_size a b = (a + 2 ^ 64 - b) % 2 ^ 64

-- What the end of the header sets.
unfoldable pub header_done : Parser → Parser
header_done p =
    if p.chunked
    then record p { chunk_offset = p.header_offset; chunk_state = chunk_data }
    else if p.transfer_length == size_max
    then record p { transfer_length = p.content_length }
    else p

unfoldable pub header_result : Status × Parser → Status × Parser
unfolding header_done
header_result (more, q) = (more, header_done q)
header_result (s, q) = (s, q)

-- The header phase: `more` lets the call go on.
unfoldable pub header_phase : (ℕ → Bool) → Parser → Option (Status × Parser)
unfolding header_result
header_phase alloc p =
    let parsed = parse_message_header alloc p.msgbuf p in
    if is_complete p.header_state
    then some (more, p)
    else elim parsed [ none ↦ none | some r ↦ some (header_result r) ]

-- The message ends at `total`.
unfoldable pub cut : ℕ → ℕ → Parser → Status × ℕ × Parser
cut n total p = (
  more,
  sub_size n (p.msgsize - total),
  record p { msgbuf = take total p.msgbuf; msgsize = total; complete = true },
)

unfoldable pub chunk_result : ℕ → Status × Parser → Status × ℕ × Parser
unfolding cut
chunk_result n (more, q) = cut n q.chunk_offset q
chunk_result n (s, q) = (s, n, q)

-- The body phase.
unfoldable pub body_phase : ℕ → Parser → Option (Status × ℕ × Parser)
unfolding chunk_result
body_phase n p =
    let total = (p.header_offset + p.transfer_length) % 2 ^ 64 in
    let parsed = parse_chunk p.msgbuf p in
    if p.transfer_length == size_max
    then (if p.chunked
        then (if is_chunk_complete p.chunk_state
            then some (cut n p.chunk_offset p)
            else elim parsed [ none ↦ none | some r ↦ some (chunk_result n r) ])
        else some (wait, n, p))
    else if leb total p.msgsize
    then some (cut n total p)
    else some (wait, n, p)

unfoldable pub after_header : ℕ → Option (Status × Parser) → Option (Status × ℕ × Parser)
unfolding body_phase
after_header n none = none
after_header n (some (more, q)) = body_phase n q
after_header n (some (s, q)) = some (s, n, q)

unfoldable pub reserved : (ℕ → Bool) → Bytes → Parser → Option Parser → Option (Status × ℕ × Parser)
unfolding after_header header_phase receive
reserved alloc buf p none = some (nomem, length buf, p)
reserved alloc buf p (some q) = after_header (length buf) (header_phase alloc (receive buf q))

-- The return value, `*n` and the parser; `none` means that a loop ran out of fuel.
unfoldable pub append_message : Bool → (ℕ → Bool) → Bytes → Parser → Option (Status × ℕ × Parser)
unfolding reserved reserve
append_message grow alloc buf p =
    let appended = reserved alloc buf p (reserve grow (length buf) p) in
    if p.complete then some (more, 0, p) else appended

-- `http_parser_header_complete`
unfoldable pub header_is_complete : Parser → Bool
header_is_complete p = is_complete p.header_state

-- `http_parser_get_body`; `none` stands for the return value 1.
unfoldable pub get_body : Parser → Option Bytes
get_body p =
    if p.complete && is_complete p.header_state then some (drop p.header_offset p.msgbuf) else none

-- The five setters; `alloc` is the outcome of `strdup`.
unfoldable pub set_method : Bool → Bytes → Parser → Status × Parser
set_method alloc text p = if alloc then (more, record p { method = some text }) else (nomem, p)

unfoldable pub set_uri : Bool → Bytes → Parser → Status × Parser
set_uri alloc text p = if alloc then (more, record p { uri = some text }) else (nomem, p)

unfoldable pub set_version : Bool → Bytes → Parser → Status × Parser
set_version alloc text p = if alloc then (more, record p { version = some text }) else (nomem, p)

unfoldable pub set_code : Bool → Bytes → Parser → Status × Parser
set_code alloc text p = if alloc then (more, record p { code = some text }) else (nomem, p)

unfoldable pub set_phrase : Bool → Bytes → Parser → Status × Parser
set_phrase alloc text p = if alloc then (more, record p { phrase = some text }) else (nomem, p)

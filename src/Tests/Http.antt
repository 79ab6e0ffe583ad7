-- ===== src/Tests/Http.antt =====
-- Runs of the parser of src/protocol/http_parser.c.
use tinywf.Prelude.{ℕ, ◌++◌, true, false, Option, none, some, [], ◌∷◌, ◌≡◌, refl, replicate, arith}
use tinywf.Prelude.Bytes.{Bytes, codes, split_at, str_eq, starts_with, c_str, case_eq}
use tinywf.Http.{Parser, Status, more, wait, start_line, chunk_data, init}
use tinywf.Http.Header.{parse_message_header, header_step}
use tinywf.Http.Chunk.{parse_chunk, chunk_step}
use tinywf.Http.Append.{append_message, get_body}
use tinywf.Http.Headers.{
  set_header, cursor_find, cursor_init, add_header, add_message_header, check_message_header,
}
use tinywf.Http.Value.{trim_end}
use tinywf.Http.Bounds.Loops.{parse_message_header-total, parse_chunk-total}
use tinywf.Http.Valid.{IsValid}
use tinywf.Http.Valid.Message.{init-IsValid, append_message-total, append_message-IsValid}
use tinywf.Http.Resume.Append.{shown_ending}
use tinywf.Http.Resume.Message.{append_message-pieces}
use tinywf.Http.Headers.Find.{added}

-- What the memory of a parser may hold before `http_parser_init`.
abbrev pub raw : Parser
raw = record {
  header_state = start_line;
  chunk_state = chunk_data;
  header_offset = 0;
  chunk_offset = 0;
  content_length = 0;
  transfer_length = 0;
  version = none;
  method = none;
  uri = none;
  code = none;
  phrase = none;
  header_list = [];
  namebuf = replicate 64 0;
  msgbuf = [];
  msgsize = 0;
  bufsize = 0;
  has_connection = false;
  has_content_length = false;
  has_keep_alive = false;
  expect_continue = false;
  keep_alive = false;
  chunked = false;
  complete = false;
  is_resp = false;
}

abbrev request : Bytes
request = codes "POST /a HTTP/1.1\r\nContent-Length: 3\r\nX: y \r\n z\r\n\r\nabcd"

summary : Option (Status × ℕ × Parser) → Option (Status × ℕ × Option Bytes × Option Bytes)
unfolding get_body cursor_find cursor_init
summary none = none
summary (some (s, n, p)) = some (s, n, get_body p, (cursor_find (codes "x") (cursor_init p)).0)

post_request :
    summary (append_message true (λ _. true) request (init false raw))
    ≡ some (more, 53, some (codes "abc"), some (codes "y z"))
unfolding summary init append_message parse_message_header parse_chunk header_step split_at str_eq
    starts_with add_header add_message_header check_message_header c_str case_eq trim_end chunk_step
post_request = refl

-- A chunked response in two pieces, with an extension and a trailer.
chunked_response :
    summary (
      append_message true
        (λ _. true)
        (codes
          "HTTP/1.0 200 OK\r\nTransfer-Encoding: chunked\r\nX:  v\r\n\r\n1a;q=1\r\nabcdefghijklmnopqrstuvwxyz\r\n0\r\nT: u\r\n\r\nxx")
        (init true raw))
    ≡ some (
      more,
      101,
      some (codes "1a;q=1\r\nabcdefghijklmnopqrstuvwxyz\r\n0\r\nT: u\r\n\r\n"),
      some (codes "v"),
    )
unfolding summary init append_message parse_message_header parse_chunk header_step split_at str_eq
    starts_with add_header add_message_header check_message_header c_str case_eq trim_end chunk_step
chunked_response = refl

-- A message in two pieces, cut inside a header's value.
abbrev first_piece : Bytes
first_piece = codes "POST /a HTTP/1.1\r\nContent-Length: 3\r\nX: y"

abbrev second_piece : Bytes
second_piece = codes " \r\n z\r\n\r\nabcd"

parser_of : Option (Status × ℕ × Parser) → Parser
parser_of none = raw
parser_of (some (_, _, p)) = p

unfoldable halfway : Parser
unfolding parser_of append_message
halfway = parser_of (append_message true (λ _. true) first_piece (init false raw))

append_message-pieces_example :
    shown_ending (append_message true (λ _. true) second_piece halfway)
    ≡ shown_ending (append_message true (λ _. true) (first_piece ++ second_piece) (init false raw))
unfolding halfway parser_of init append_message parse_message_header header_step split_at str_eq
    starts_with add_header add_message_header check_message_header c_str case_eq trim_end
append_message-pieces_example =
    append_message-pieces (λ _. true) first_piece second_piece (init false raw) halfway 41
      (init-IsValid false raw) refl

append_message-total_example :
    (s : Status) × (n : ℕ) × (q : Parser) × (append_message true
        (λ _. true)
        request
        (init false raw)
      ≡ some (s, n, q))
append_message-total_example =
    append_message-total true (λ _. true) request (init false raw) (init-IsValid false raw)
      (unfold init in omega arith)

append_message-IsValid_example : IsValid halfway
unfolding halfway parser_of init append_message parse_message_header header_step split_at str_eq
    starts_with add_header add_message_header check_message_header c_str case_eq trim_end
append_message-IsValid_example =
    append_message-IsValid true (λ _. true) first_piece (init false raw) halfway wait 41
      (init-IsValid false raw) (omega arith) refl

-- A parser with two headers.
abbrev two_headers : Parser
two_headers = record raw {
  header_list = added (codes "X") (codes "yy") ∷ added (codes "Host") (codes "h") ∷ [];
}

unfoldable set_twice : Parser
unfolding set_header
set_twice = (set_header true (codes "host") (codes "example.org") two_headers).1

parse_message_header-total_example :
    (r : Status × Parser) × (parse_message_header (λ _. true) request (init false raw) ≡ some r)
parse_message_header-total_example =
    parse_message_header-total (λ _. true) request (init false raw) (unfold init in omega arith)

abbrev pub chunks : Bytes
chunks = codes "3\r\nabc\r\n0\r\n\r\n"

parse_chunk-total_example : (r : Status × Parser) × (parse_chunk chunks raw ≡ some r)
parse_chunk-total_example = parse_chunk-total chunks raw (omega arith)

-- ===== src/Message/Append.antt =====
-- `append` of src/protocol/HttpMessage.cc: bytes from the socket, for a message, a request and a response.
use tinywf.Prelude.{
  ℕ, ◌+◌, ◌%◌, ◌^◌, Bool, true, false, not, ◌&&◌, Option, none, some, List, [], ◌∷◌, ◌++◌, ◌==◌,
  ltb, if◌then◌else◌, length,
}
use tinywf.Prelude.Bytes.{Bytes, codes, str_eq}
use tinywf.Http.{Parser, Status, more, wait, nomem, malformed, init, size_max}
use tinywf.Http.Append.{append_message, header_is_complete}
use tinywf.Http.Headers.{crlf}
use tinywf.Message.{Message, Errno, ebadmsg, emsgsize, eagain, enomem, efeedback}

-- The `int` that `append` returns: 1, 0, or -1 with its `errno`.
pub data Returned : Type 0 where
  finished unfinished : Returned
  refused : Errno → Returned

-- `ret >= 0`: the bytes count, up to the limit.
unfoldable pub count_size : ℕ → Returned → Message → Returned × Message
count_size n ret msg =
    let counted = record msg { cur_size = (msg.cur_size + n) % 2 ^ 64 } in
    (if ltb msg.size_limit counted.cur_size then refused emsgsize else ret, counted)

unfoldable pub parsed : Message → Status × ℕ × Parser → Returned × ℕ × Message
unfolding count_size
parsed msg (more, n, p) =
    let (r, m) = count_size n finished (record msg { parser = p }) in (r, n, m)
parsed msg (wait, n, p) =
    let (r, m) = count_size n unfinished (record msg { parser = p }) in (r, n, m)
parsed msg (nomem, n, p) = (refused enomem, n, record msg { parser = p })
parsed msg (malformed, n, p) = (refused ebadmsg, n, record msg { parser = p })

-- `HttpMessage::append`; `none` means that the parser's loop ran out of fuel.
unfoldable pub append : Bool → (ℕ → Bool) → Bytes → Message → Option (Returned × ℕ × Message)
unfolding parsed
append grow alloc buf msg = elim (append_message grow alloc buf msg.parser) [
  | none ↦ none
  | some result ↦ some (parsed msg result)
]

-- `strcmp(http_parser_get_code(parser), "100") == 0`; the code of a response that is complete is not NULL.
unfoldable pub is_continue : Parser → Bool
is_continue p = elim (p.code) [ none ↦ false | some code ↦ str_eq code (codes "100") ]

unfoldable pub skip_continue : Returned × ℕ × Message → Returned × ℕ × Message
unfolding is_continue
skip_continue (finished, n, msg) =
    if is_continue msg.parser
    then (unfinished, n, record msg { parser = init true msg.parser })
    else (finished, n, msg)
skip_continue (ret, n, msg) = (ret, n, msg)

-- `HttpResponse::append`
unfoldable pub response_append :
    Bool → (ℕ → Bool) → Bytes → Message → Option (Returned × ℕ × Message)
unfolding append skip_continue
response_append grow alloc buf msg = elim (append grow alloc buf msg) [
  | none ↦ none
  | some result ↦ some (skip_continue result)
]

abbrev pub close_text : Bytes → Bytes
close_text status_line =
    status_line
    ++ (crlf
        ++ (codes "Content-Length: 0" ++ (crlf ++ (codes "Connection: close" ++ (crlf ++ crlf)))))

abbrev pub http_100_resp : Bytes
http_100_resp = codes "HTTP/1.1 100 Continue" ++ (crlf ++ crlf)

abbrev pub http_400_resp : Bytes
http_400_resp = close_text (codes "HTTP/1.1 400 Bad Request")

abbrev pub http_413_resp : Bytes
http_413_resp = close_text (codes "HTTP/1.1 413 Request Entity Too Large")

abbrev pub http_417_resp : Bytes
http_417_resp = close_text (codes "HTTP/1.1 417 Expectation Failed")

-- `handle_expect_continue`: the return value, and what is sent. `feedback` says how many bytes of a text
-- are sent, if it does not fail.
unfoldable pub handle_expect_continue : (Bytes → Option ℕ) → Message → Returned × List Bytes
handle_expect_continue feedback msg =
    let trans_len = msg.parser.transfer_length in
    if not (trans_len == size_max)
      && ltb msg.size_limit ((msg.parser.header_offset + trans_len) % 2 ^ 64)
    then (refused emsgsize, http_417_resp ∷ [])
    else elim (feedback http_100_resp) [
      | none ↦ (refused efeedback, http_100_resp ∷ [])
      | some n ↦
          if n == length http_100_resp
          then (unfinished, http_100_resp ∷ [])
          else (refused eagain, http_100_resp ∷ [])
    ]

-- What `HttpRequest::append` does with the result, and what it sends.
unfoldable pub respond :
    (Bytes → Option ℕ) → Returned × ℕ × Message → Returned × ℕ × Message × List Bytes
unfolding handle_expect_continue
respond feedback (finished, n, msg) = (finished, n, msg, [])
respond feedback (unfinished, n, msg) =
    let asked = record msg { parser = record msg.parser { expect_continue = false } } in
    let (ret, sent) = handle_expect_continue feedback asked in
    if msg.parser.expect_continue && header_is_complete msg.parser
    then (ret, n, asked, sent)
    else (unfinished, n, msg, [])
respond feedback (refused ebadmsg, n, msg) = (refused ebadmsg, n, msg, http_400_resp ∷ [])
respond feedback (refused emsgsize, n, msg) = (refused emsgsize, n, msg, http_413_resp ∷ [])
respond feedback (refused e, n, msg) = (refused e, n, msg, [])

-- `HttpRequest::append`
unfoldable pub request_append :
    Bool
    → (ℕ → Bool)
    → (Bytes → Option ℕ)
    → Bytes
    → Message
    → Option (Returned × ℕ × Message × List Bytes)
unfolding append respond
request_append grow alloc feedback buf msg = elim (append grow alloc buf msg) [
  | none ↦ none
  | some result ↦ some (respond feedback result)
]

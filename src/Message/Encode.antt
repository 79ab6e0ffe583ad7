-- ===== src/Message/Encode.antt =====
-- `HttpMessage::encode` of src/protocol/HttpMessage.cc: the vectors that are written to the socket.
use tinywf.Prelude.{
  ℕ, ◌+◌, ◌-◌, Bool, not, ◌&&◌, Option, none, some, List, [], ◌∷◌, ◌++◌, ◌==◌, leb, if◌then◌else◌,
  is_nil, length, take,
}
use tinywf.Prelude.Bytes.{Bytes}
use tinywf.Http.{Parser, HeaderLine}
use tinywf.Http.Headers.{crlf}
use tinywf.Message.{Message, Errno, ebadmsg, eoverflow, enomem, copy_blocks}

-- The three parts of the start line, of a request or of a response.
unfoldable pub start_line : Parser → Option Bytes × Option Bytes × Option Bytes
start_line p = elim (p.method) [
  | none ↦ (p.version, p.code, p.phrase)
  | some method ↦ (some method, p.uri, p.version)
]

-- The text of a header, from its name to its line end.
unfoldable pub header_vector : HeaderLine → Bytes
header_vector line = take (line.name_len + 2 + line.value_len + 2) line.buf

-- The `while` loop over the headers, at the vector `i`: the vectors that it adds.
unfoldable pub header_vectors : ℕ → ℕ → List HeaderLine → List Bytes
unfolding header_vector
header_vectors max i [] = []
header_vectors max i (line ∷ rest) =
    let more = header_vectors max (i + 1) rest in if i == max then [] else header_vector line ∷ more

-- The result of the loop over the blocks: the vectors, or an error that leaves the blocks from there on.
pub data BodyResult : Type 0 where
  body_vectors : List Bytes → BodyResult
  body_failed : BodyResult
  overrun : BodyResult

-- `combine_from`: one block in place of those from `pos` on, which are not the only one.
unfoldable pub combine_from : Bool → ℕ → List Bytes → BodyResult
combine_from alloc size blocks =
    if alloc
    then elim (copy_blocks size blocks) [ none ↦ overrun | some text ↦ body_vectors (text ∷ []) ]
    else body_failed

unfoldable pub with_vector : Bytes → BodyResult → BodyResult
with_vector v (body_vectors vs) = body_vectors (v ∷ vs)
with_vector v body_failed = body_failed
with_vector v overrun = overrun

-- The loop over the blocks, with `size` bytes to come. The vectors are the blocks that the body has then.
unfoldable pub encode_body : Bool → ℕ → ℕ → ℕ → List Bytes → BodyResult
unfolding combine_from with_vector
encode_body alloc max i size [] = body_vectors []
encode_body alloc max i size (block ∷ blocks) =
    let rest = with_vector block (encode_body alloc max (i + 1) (size - length block) blocks) in
    if i + 1 == max && not (is_nil blocks) then combine_from alloc size (block ∷ blocks) else rest

-- What `encode` comes to: the vectors, an error, or a write out of bounds.
pub data Encoded : Type 0 where
  vectors : List Bytes → Message → Encoded
  failed : Errno → Encoded
  out_of_bounds : Encoded

unfoldable pub with_body : List Bytes → Message → BodyResult → Encoded
with_body head msg (body_vectors vs) = vectors (head ++ vs) (record msg { output_body = vs })
with_body head msg body_failed = failed enomem
with_body head msg overrun = out_of_bounds

-- `encode` behind the start line, whose vectors are the six of `head`.
unfoldable pub encode_from : Bool → ℕ → List Bytes → Message → Encoded
unfolding header_vectors encode_body with_body
encode_from alloc max head msg =
    let headers = header_vectors max (length head) msg.parser.header_list in
    let i = length head + length headers in
    if leb max (i + 1)
    then failed eoverflow
    else with_body (head ++ (headers ++ crlf ∷ [])) msg
        (encode_body alloc max (i + 1) msg.output_body_size msg.output_body)

abbrev pub space : Bytes
space = b' ' ∷ []

unfoldable pub encode_parts :
    Bool → ℕ → Message → Option Bytes × Option Bytes × Option Bytes → Encoded
unfolding encode_from
encode_parts alloc max msg (some a, some b, some c) =
    encode_from alloc max (a ∷ space ∷ b ∷ space ∷ c ∷ crlf ∷ []) msg
encode_parts alloc max msg (_, _, _) = failed ebadmsg

-- `encode`, where `vectors` has `max` entries, at least six.
unfoldable pub encode : Bool → ℕ → Message → Encoded
unfolding encode_parts start_line
encode alloc max msg = encode_parts alloc max msg (start_line msg.parser)

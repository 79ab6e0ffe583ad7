-- ===== src/Message/Encoded.antt =====
-- What `HttpMessage::encode` of src/protocol/HttpMessage.cc writes, on every branch.
use tinywf.Prelude.{
  ℕ, zero, suc, ◌+◌, ◌<◌, ◌≤◌, ◌≡◌, ◌⊎◌, refl, sym, ap, subst, ◌∙◌, Bool, true, false, Option, none,
  some, List, [], ◌∷◌, ◌++◌, map, arith, ◌==◌, leb, if◌then◌else◌, length, length-append, take,
  Bool-cases, inl, inr,
}
use mathlib.Core.List.{append_assoc}
use tinywf.Prelude.Bytes.{Bytes}
use tinywf.Http.{HeaderLine}
use tinywf.Http.Headers.{crlf, colon}
use tinywf.Http.Headers.Text.{LineText}
use tinywf.Message.{Message, ebadmsg, eoverflow, enomem}
use tinywf.Message.Encode.{
  start_line, header_vector, header_vectors, BodyResult, body_vectors, body_failed, overrun,
  encode_body, Encoded, vectors, failed, out_of_bounds, with_body, encode_from, encode_parts,
  encode, space,
}
use tinywf.Message.Body.{flat, IsSent, encode_body-IsSent}

flat-append : (xs ys : List Bytes) → flat (xs ++ ys) ≡ flat xs ++ flat ys
unfolding flat
flat-append [] ys = refl
flat-append (x ∷ xs) ys =
    ap (λ z. x ++ z) (flat-append xs ys) ∙ sym (append_assoc x (flat xs) (flat ys))

-- The lines of a header list hold these names and values.
unfoldable pub HaveText : List HeaderLine → List (Bytes × Bytes) → Type 0
HaveText [] [] = true ≡ true
HaveText (line ∷ lines) ((name, value) ∷ headers) =
    LineText line name value × HaveText lines headers
HaveText _ _ = true ≡ false

-- Headers as they are written.
unfoldable pub header_text : List (Bytes × Bytes) → Bytes
header_text [] = []
header_text ((name, value) ∷ headers) = (name ++ (colon ++ (value ++ crlf))) ++ header_text headers

take_part : (n : ℕ) (xs ys : Bytes) → length xs ≡ n → take n (xs ++ ys) ≡ xs
take_part zero [] ys h = refl
take_part zero (x ∷ xs) ys h = absurd (omega (arith, h))
take_part (suc n) [] ys h = absurd (omega (arith, h))
take_part (suc n) (x ∷ xs) ys h = ap (◌∷◌ x) (take_part n xs ys (omega (arith, h)))

header_vector-text :
    (line : HeaderLine) (name value : Bytes)
    → LineText line name value
    → header_vector line ≡ name ++ (colon ++ (value ++ crlf))
unfolding header_vector
header_vector-text line name value t =
    let all : line.buf ≡ (name ++ (colon ++ (value ++ crlf))) ++ t.spare =
      t.text
      ∙ sym (
          append_assoc name (colon ++ (value ++ crlf)) t.spare
          ∙ ap (λ x. name ++ (colon ++ x)) (append_assoc value crlf t.spare)) in
    ap (take (line.name_len + 2 + line.value_len + 2)) all
    ∙ take_part (line.name_len + 2 + line.value_len + 2) (name ++ (colon ++ (value ++ crlf)))
        t.spare
        (omega (
          arith,
          length-append name (colon ++ (value ++ crlf)),
          length-append value crlf,
          t.named,
          t.valued,
        ))

-- All headers get a vector if the limit is not met.
header_vectors_all :
    (max i : ℕ) (lines : List HeaderLine)
    → i + length (header_vectors max i lines) < max
    → header_vectors max i lines ≡ map header_vector lines
unfolding header_vectors
header_vectors_all max i [] h = refl
header_vectors_all max i (line ∷ rest) h = elim (Bool-cases (i == max)) [
  | inl e ↦ absurd (ground (arith, h, e))
  | inr e ↦ ground (arith, e, h, header_vectors_all max (i + 1) rest)
]

header_vectors_few :
    (max i : ℕ) (lines : List HeaderLine) → length (header_vectors max i lines) ≤ length lines
unfolding header_vectors
header_vectors_few max i [] = omega arith
header_vectors_few max i (line ∷ rest) = ground (arith, header_vectors_few max (i + 1) rest)

flat-header_vector :
    (lines : List HeaderLine) (headers : List (Bytes × Bytes))
    → HaveText lines headers
    → flat (map header_vector lines) ≡ header_text headers
unfolding HaveText header_text flat
flat-header_vector [] [] h = refl
flat-header_vector [] (x ∷ headers) h = absurd (ground (arith, h))
flat-header_vector (line ∷ lines) [] h = absurd (ground (arith, h))
flat-header_vector (line ∷ lines) ((name, value) ∷ headers) (t, h) =
    ap (λ x. x ++ flat (map header_vector lines)) (header_vector-text line name value t)
    ∙ ap (λ x. (name ++ (colon ++ (value ++ crlf))) ++ x) (flat-header_vector lines headers h)

-- What a message is on the wire.
unfoldable pub wire : Bytes → Bytes → Bytes → List (Bytes × Bytes) → Bytes → Bytes
wire a b c headers body =
    a ++ (space ++ (b ++ (space ++ (c ++ (crlf ++ (header_text headers ++ (crlf ++ body)))))))

-- The vectors are the message on the wire, there are no more of them than the limit, and the body keeps its
-- bytes; or a part of the start line is missing, the headers are too many, or there is no memory.
unfoldable pub IsEncoded : Bool → ℕ → List (Bytes × Bytes) → Message → Encoded → Type 0
IsEncoded alloc max headers msg (vectors vs r) =
    (a : Bytes) × (b : Bytes) × (c : Bytes) × (start_line msg.parser ≡ (some a, some b, some c))
    × (flat vs ≡ wire a b c headers (flat msg.output_body))
    × (length vs ≤ max)
    × (flat r.output_body ≡ flat msg.output_body)
IsEncoded alloc max headers msg (failed ebadmsg) =
    (start_line msg.parser).0 ≡ none
    ⊎ ((start_line msg.parser).1 ≡ none ⊎ (start_line msg.parser).2 ≡ none)
IsEncoded alloc max headers msg (failed eoverflow) = max ≤ 7 + length msg.parser.header_list
IsEncoded alloc max headers msg (failed enomem) = alloc ≡ false
IsEncoded alloc max headers msg (failed e) = true ≡ false
IsEncoded alloc max headers msg out_of_bounds = true ≡ false

with_body-IsEncoded :
    (alloc : Bool) (max : ℕ) (headers : List (Bytes × Bytes)) (msg : Message) (a b c : Bytes)
    (hs : List Bytes) (r : BodyResult)
    → start_line msg.parser ≡ (some a, some b, some c)
    → flat hs ≡ header_text headers
    → IsSent alloc max (length hs + 7) msg.output_body r
    → IsEncoded alloc max headers msg
        (with_body ((a ∷ space ∷ b ∷ space ∷ c ∷ crlf ∷ []) ++ (hs ++ crlf ∷ [])) msg r)
unfolding IsSent with_body IsEncoded flat wire
with_body-IsEncoded alloc max headers msg a b c hs (body_vectors vs) s h (e, p) =
    let text : flat ((hs ++ crlf ∷ []) ++ vs)
        ≡ header_text headers ++ (crlf ++ flat msg.output_body) =
      flat-append (hs ++ crlf ∷ []) vs
      ∙ ap (λ x. x ++ flat vs) (flat-append hs (crlf ∷ []))
      ∙ append_assoc (flat hs) crlf (flat vs)
      ∙ ap (λ x. x ++ (crlf ++ flat vs)) h
      ∙ ap (λ x. header_text headers ++ (crlf ++ x)) e in
    (
      a,
      b,
      c,
      s,
      ap (λ x. a ++ (space ++ (b ++ (space ++ (c ++ (crlf ++ x)))))) text,
      omega (arith, p, length-append (hs ++ crlf ∷ []) vs, length-append hs (crlf ∷ [])),
      e,
    )
with_body-IsEncoded alloc max headers msg a b c hs body_failed s h e = e
with_body-IsEncoded alloc max headers msg a b c hs overrun s h e = e

encode_from-IsEncoded :
    (alloc : Bool) (max : ℕ) (headers : List (Bytes × Bytes)) (msg : Message) (a b c : Bytes)
    → start_line msg.parser ≡ (some a, some b, some c)
    → HaveText msg.parser.header_list headers
    → msg.output_body_size ≡ length (flat msg.output_body)
    → IsEncoded alloc max headers msg
        (encode_from alloc max (a ∷ space ∷ b ∷ space ∷ c ∷ crlf ∷ []) msg)
unfolding encode_from IsEncoded
encode_from-IsEncoded alloc max headers msg a b c s h z = by_test (leb max (6 + length hs + 1)) refl
  where
    hs : List Bytes
    hs = header_vectors max 6 msg.parser.header_list

    by_test :
        (o : Bool)
        → leb max (6 + length hs + 1) ≡ o
        → IsEncoded alloc max headers msg (
            if o
            then failed eoverflow
            else with_body
                ((a ∷ space ∷ b ∷ space ∷ c ∷ crlf ∷ []) ++ (hs ++ crlf ∷ []))
                msg
                (encode_body alloc max (6 + length hs + 1) msg.output_body_size msg.output_body))
    by_test true e = ground (arith, e, header_vectors_few max 6 msg.parser.header_list)
    by_test false e =
        let place : 6 + length hs + 1 ≡ length hs + 7 = omega arith in
        let all = header_vectors_all max 6 msg.parser.header_list (ground (arith, e)) in
        with_body-IsEncoded alloc max headers msg a b c hs _ s
          (ap flat all ∙ flat-header_vector msg.parser.header_list headers h)
          (subst
            (λ i.
              IsSent alloc max i msg.output_body
                (encode_body alloc max (6 + length hs + 1) msg.output_body_size msg.output_body))
            place
            (encode_body-IsSent alloc max (6 + length hs + 1) msg.output_body_size msg.output_body
              (ground (arith, e)) (sym z)))

-- `encode` of a message whose headers have a text each and whose body size is that of its blocks: the
-- vectors are the start line, the headers and the body as they are on the wire, no more than `max`
-- vectors, even if blocks have to be combined; it fails only if a part of the start line is missing,
-- if the headers do not fit, or if there is no memory; and it never writes out of a block.
pub encode-IsEncoded :
    (alloc : Bool) (max : ℕ) (headers : List (Bytes × Bytes)) (msg : Message)
    → HaveText msg.parser.header_list headers
    → msg.output_body_size ≡ length (flat msg.output_body)
    → IsEncoded alloc max headers msg (encode alloc max msg)
unfolding encode encode_parts IsEncoded
encode-IsEncoded alloc max headers msg h z = by_parts (start_line msg.parser) refl
  where
    by_parts :
        (o : Option Bytes × Option Bytes × Option Bytes)
        → start_line msg.parser ≡ o
        → IsEncoded alloc max headers msg (encode_parts alloc max msg o)
    by_parts (some a, some b, some c) s = encode_from-IsEncoded alloc max headers msg a b c s h z
    by_parts (none, y, z) s = inl (ap (λ o. o.0) s)
    by_parts (some a, none, z) s = inr (inl (ap (λ o. o.1) s))
    by_parts (some a, some b, none) s = inr (inr (ap (λ o. o.2) s))

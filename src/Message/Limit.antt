-- ===== src/Message/Limit.antt =====
-- The size limit of a message in src/protocol/HttpMessage.cc, and the answers to a request that is refused.
use tinywf.Prelude.{ℕ, ◌≤◌, ◌≡◌, ◌⊎◌, Bool, true, false, Option, none, some, List, [], ◌∷◌}
use tinywf.Prelude.Bytes.{Bytes}
use tinywf.Http.{Parser, Status}
use tinywf.Http.Valid.{IsValid}
use tinywf.Message.{Message, ebadmsg, emsgsize, eagain, efeedback, eoverflow}
use tinywf.Message.Append.{
  Returned, finished, unfinished, refused, parsed, respond, http_100_resp, http_400_resp,
  http_413_resp, http_417_resp,
}

-- A message that is not refused is within its limit.
unfoldable pub IsWithin : Returned → Message → Type 0
IsWithin (refused e) msg = true ≡ true
IsWithin ret msg = msg.cur_size ≤ msg.size_limit

-- What is sent back: nothing but an answer to `Expect` while the request is fine, and else the error.
unfoldable pub IsAnswer : Returned → List Bytes → Type 0
IsAnswer finished sent = sent ≡ []
IsAnswer unfinished sent = (sent ≡ []) ⊎ (sent ≡ http_100_resp ∷ [])
IsAnswer (refused ebadmsg) sent = sent ≡ http_400_resp ∷ []
IsAnswer (refused emsgsize) sent = (sent ≡ http_413_resp ∷ []) ⊎ (sent ≡ http_417_resp ∷ [])
IsAnswer (refused eagain) sent = sent ≡ http_100_resp ∷ []
IsAnswer (refused efeedback) sent = sent ≡ http_100_resp ∷ []
IsAnswer (refused e) sent = sent ≡ []

-- What `HttpMessage::append` itself may refuse a message for.
abbrev is_basic : Returned → Bool
is_basic (refused eagain) = false
is_basic (refused efeedback) = false
is_basic (refused eoverflow) = false
is_basic ret = true

-- A result of `HttpMessage::append`.
abbrev IsParsed : Message → Returned × ℕ × Message → Type 0
IsParsed msg (ret, n, r) =
    IsValid r.parser × IsWithin ret r × (is_basic ret ≡ true) × (r.size_limit ≡ msg.size_limit)

-- A result of `HttpRequest::append`.
unfoldable pub IsAnswered : Message → Returned × ℕ × Message × List Bytes → Type 0
IsAnswered msg (ret, n, r, sent) =
    IsValid r.parser × IsWithin ret r × IsAnswer ret sent × (r.size_limit ≡ msg.size_limit)

-- What `HttpMessage::append` and `HttpRequest::append` make of the parser's result.
abbrev received : Message → Option (Status × ℕ × Parser) → Option (Returned × ℕ × Message)
received msg none = none
received msg (some result) = some (parsed msg result)

abbrev answered :
    (Bytes → Option ℕ)
    → Option (Returned × ℕ × Message)
    → Option (Returned × ℕ × Message × List Bytes)
answered feedback none = none
answered feedback (some result) = some (respond feedback result)

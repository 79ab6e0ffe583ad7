-- ===== src/HttpUtil/Status.antt =====
-- `HttpUtil::set_response_status` of src/util/HttpUtil.cc.
use tinywf.Prelude.{
  ℕ, zero, suc, ◌+◌, ◌*◌, ◌/◌, ◌%◌, Bool, true, ◌&&◌, Option, none, some, List, [], ◌∷◌, ◌++◌, ◌==◌,
  ltb, leb, if◌then◌else◌,
}
use tinywf.Prelude.Bytes.{Bytes, codes}
use tinywf.Http.{Parser}
use tinywf.Http.Append.{set_code, set_phrase}

-- The cases of the `switch`: below 400, of the client, and of the server.
abbrev phrases : List (ℕ × Bytes)
phrases =
    (100, codes "Continue")
    ∷ (101, codes "Switching Protocols")
    ∷ (102, codes "Processing")
    ∷ (200, codes "OK")
    ∷ (201, codes "Created")
    ∷ (202, codes "Accepted")
    ∷ (203, codes "Non-Authoritative Information")
    ∷ (204, codes "No Content")
    ∷ (205, codes "Reset Content")
    ∷ (206, codes "Partial Content")
    ∷ (207, codes "Multi-Status")
    ∷ (208, codes "Already Reported")
    ∷ (226, codes "IM Used")
    ∷ (300, codes "Multiple Choices")
    ∷ (301, codes "Moved Permanently")
    ∷ (302, codes "Found")
    ∷ (303, codes "See Other")
    ∷ (304, codes "Not Modified")
    ∷ (305, codes "Use Proxy")
    ∷ (306, codes "Switch Proxy")
    ∷ (307, codes "Temporary Redirect")
    ∷ (308, codes "Permanent Redirect")
    ∷ []

abbrev client_phrases : List (ℕ × Bytes)
client_phrases =
    (400, codes "Bad Request")
    ∷ (401, codes "Unauthorized")
    ∷ (402, codes "Payment Required")
    ∷ (403, codes "Forbidden")
    ∷ (404, codes "Not Found")
    ∷ (405, codes "Method Not Allowed")
    ∷ (406, codes "Not Acceptable")
    ∷ (407, codes "Proxy Authentication Required")
    ∷ (408, codes "Request Timeout")
    ∷ (409, codes "Conflict")
    ∷ (410, codes "Gone")
    ∷ (411, codes "Length Required")
    ∷ (412, codes "Precondition Failed")
    ∷ (413, codes "Request Entity Too Large")
    ∷ (414, codes "Request-URI Too Long")
    ∷ (415, codes "Unsupported Media Type")
    ∷ (416, codes "Requested Range Not Satisfiable")
    ∷ (417, codes "Expectation Failed")
    ∷ (418, codes "I'm a teapot")
    ∷ (420, codes "Enhance Your Caim")
    ∷ (421, codes "Misdirected Request")
    ∷ (422, codes "Unprocessable Entity")
    ∷ (423, codes "Locked")
    ∷ (424, codes "Failed Dependency")
    ∷ (425, codes "Too Early")
    ∷ (426, codes "Upgrade Required")
    ∷ (428, codes "Precondition Required")
    ∷ (429, codes "Too Many Requests")
    ∷ (431, codes "Request Header Fields Too Large")
    ∷ (444, codes "No Response")
    ∷ (450, codes "Blocked by Windows Parental Controls")
    ∷ (451, codes "Unavailable For Legal Reasons")
    ∷ (494, codes "Request Header Too Large")
    ∷ []

abbrev server_phrases : List (ℕ × Bytes)
server_phrases =
    (500, codes "Internal Server Error")
    ∷ (501, codes "Not Implemented")
    ∷ (502, codes "Bad Gateway")
    ∷ (503, codes "Service Unavailable")
    ∷ (504, codes "Gateway Timeout")
    ∷ (505, codes "HTTP Version Not Supported")
    ∷ (506, codes "Variant Also Negotiates")
    ∷ (507, codes "Insufficient Storage")
    ∷ (508, codes "Loop Detected")
    ∷ (510, codes "Not Extended")
    ∷ (511, codes "Network Authentication Required")
    ∷ []

unfoldable phrase_in : List (ℕ × Bytes) → ℕ → Option Bytes
phrase_in [] status_code = none
phrase_in ((code, phrase) ∷ rest) status_code =
    let later = phrase_in rest status_code in if code == status_code then some phrase else later

-- The `switch` with its default.
unfoldable pub reason_phrase : ℕ → Bytes
unfolding phrase_in
reason_phrase status_code =
    elim (phrase_in (phrases ++ (client_phrases ++ server_phrases)) status_code) [
      | none ↦ codes "Unknown"
      | some phrase ↦ phrase
    ]

-- `sprintf(buf, "%d", n)`, with `fuel` digits at most.
unfoldable pub decimal : ℕ → ℕ → Bytes
decimal zero n = []
decimal (suc fuel) n =
    let higher = decimal fuel (n / 10) in
    if ltb n 10 then (b'0' + n) ∷ [] else higher ++ (b'0' + n % 10) ∷ []

-- `set_response_status`, of a code that is not negative; ten digits are enough for an `int`. The setters'
-- results are not looked at.
unfoldable pub set_response_status : Bool → Bool → ℕ → Parser → Parser
unfolding decimal reason_phrase
set_response_status alloc1 alloc2 status_code p =
    (set_phrase alloc2 (reason_phrase status_code) (set_code alloc1 (decimal 10 status_code) p).1).1

-- What `n` digits can spell.
abbrev limit : ℕ → ℕ
limit zero = 1
limit (suc n) = 10 * limit n

are_digits : Bytes → Bool
are_digits [] = true
are_digits (c ∷ cs) = leb b'0' c && leb c b'9' && are_digits cs

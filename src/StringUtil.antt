-- ===== src/StringUtil.antt =====
-- src/util/StringUtil.cc: the URL encodings, splitting and stripping. A string is the list of its
-- bytes; the tests of `ctype.h` are those of the C locale.
pub mod Url
pub mod Split
pub mod Strip
use tinywf.Prelude.{
  ℕ, ◌+◌, ◌-◌, ◌*◌, ◌/◌, ◌%◌, Bool, true, false, not, ◌&&◌, ◌||◌, List, [], ◌∷◌, ◌++◌, ◌==◌, ltb,
  leb, if◌then◌else◌, is_nil,
}
use tinywf.Prelude.Bytes.{Bytes, to_lower}

unfoldable pub is_digit : ℕ → Bool
is_digit c = leb b'0' c && leb c b'9'

-- `isalnum`, on the letter in lower case
unfoldable pub is_alnum : ℕ → Bool
unfolding is_digit to_lower
is_alnum c = is_digit c || leb b'a' (to_lower c) && leb (to_lower c) b'z'

-- `isxdigit`
unfoldable pub is_xdigit : ℕ → Bool
unfolding is_digit to_lower
is_xdigit c = is_digit c || leb b'a' (to_lower c) && leb (to_lower c) b'f'

-- `isspace`
unfoldable pub is_space : ℕ → Bool
is_space c = c == b' ' || leb 9 c && leb c 13

-- What `__htoi` computes for one of its two digits.
unfoldable pub hex_value : ℕ → ℕ
unfolding is_digit to_lower
hex_value c = let l = to_lower c in if is_digit l then l - b'0' else l + 10 - b'a'

unfoldable pub htoi : ℕ → ℕ → ℕ
unfolding hex_value
htoi c d = hex_value c * 16 + hex_value d

unfoldable pub itoh : ℕ → ℕ
itoh n = if ltb 9 n then n - 10 + b'A' else n + b'0'

-- A byte that begins no escape.
unfoldable pub plain : ℕ → ℕ
plain c = if c == b'+' then b' ' else c

-- `url_decode`. The code writes where it has read already; `len` is the length of what is left.
unfoldable pub url_decode : Bytes → Bytes
unfolding htoi is_xdigit plain
url_decode [] = []
url_decode (c ∷ []) = plain c ∷ []
url_decode (c ∷ d ∷ []) = plain c ∷ plain d ∷ []
url_decode (c ∷ d ∷ e ∷ rest) = elim (c == b'%' && (is_xdigit d && is_xdigit e)) [
  | true ↦ htoi d e ∷ url_decode rest
  | false ↦ plain c ∷ url_decode (d ∷ e ∷ rest)
]

-- The bytes that `url_encode_component` keeps.
unfoldable pub kept_in_component : ℕ → Bool
unfolding is_alnum
kept_in_component c =
    is_alnum c
    || (c == b'-'
        || (c == b'_'
            || (c == b'.'
                || (c == b'!'
                    || (c == b'~' || (c == b'*' || (c == b'\'' || (c == b'(' || c == b')'))))))))

-- The bytes that `url_encode` keeps.
unfoldable pub kept_in_url : ℕ → Bool
unfolding kept_in_component
kept_in_url c =
    kept_in_component c
    || (c == b':' || (c == b'/' || (c == b'@' || (c == b'?' || (c == b'#' || c == b'&')))))

-- The text of one byte, where `kept` says whether it stands for itself.
unfoldable pub encode_byte : Bool → ℕ → Bytes
unfolding itoh
encode_byte kept c =
    if c == b' '
    then b'+' ∷ []
    else if kept
    then c ∷ []
    else b'%' ∷ itoh (c / 16) ∷ itoh (c % 16) ∷ []

unfoldable pub url_encode : Bytes → Bytes
unfolding encode_byte kept_in_url
url_encode [] = []
url_encode (c ∷ str) = encode_byte (kept_in_url c) c ++ url_encode str

unfoldable pub url_encode_component : Bytes → Bytes
unfolding encode_byte kept_in_component
url_encode_component [] = []
url_encode_component (c ∷ str) = encode_byte (kept_in_component c) c ++ url_encode_component str

-- The loop of `split`; `part` are the bytes from `start` to where the search stands.
unfoldable pub split_loop : ℕ → Bytes → Bytes → List Bytes
split_loop sep part [] = part ∷ []
split_loop sep part (c ∷ rest) = elim (c == sep) [
  | true ↦ part ∷ split_loop sep [] rest
  | false ↦ split_loop sep (part ++ c ∷ []) rest
]

unfoldable pub split : Bytes → ℕ → List Bytes
unfolding split_loop
split str sep = split_loop sep [] str

-- `if (start < next) res.emplace_back(start, next)`, before the parts that follow
abbrev pub add_part : Bytes → List Bytes → List Bytes
add_part part res = if is_nil part then res else part ∷ res

unfoldable pub filter_loop : ℕ → Bytes → Bytes → List Bytes
filter_loop sep part [] = add_part part []
filter_loop sep part (c ∷ rest) = elim (c == sep) [
  | true ↦ add_part part (filter_loop sep [] rest)
  | false ↦ filter_loop sep (part ++ c ∷ []) rest
]

unfoldable pub split_filter_empty : Bytes → ℕ → List Bytes
unfolding filter_loop
split_filter_empty str sep = filter_loop sep [] str

-- The first loop of `strip`: `st` moves over blanks.
unfoldable pub strip_front : Bytes → Bytes
unfolding is_space
strip_front [] = []
strip_front (c ∷ str) = elim (is_space c) [ true ↦ strip_front str | false ↦ c ∷ str ]

-- The second loop: `ed` moves back over blanks, down to `st`.
unfoldable pub strip_back : Bytes → Bytes
unfolding is_space
strip_back [] = []
strip_back (c ∷ str) =
    let rest = strip_back str in if is_nil rest && is_space c then [] else c ∷ rest

unfoldable pub strip : Bytes → Bytes
unfolding strip_front strip_back
strip str = strip_back (strip_front str)

unfoldable pub start_with : Bytes → Bytes → Bool
start_with str [] = true
start_with [] (c ∷ prefix) = false
start_with (d ∷ str) (c ∷ prefix) = d == c && start_with str prefix

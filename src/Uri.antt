-- ===== src/Uri.antt =====
-- The scanning half of `URIParser::parse` of src/common/URIParser.cc: where the parts of a URI begin
-- and end, and which bytes they may hold. A string is the list of its bytes before the NUL.
pub mod Parsed
pub mod Query
pub mod Checked
pub mod Safe
use tinywf.Prelude.{
  ℕ, zero, suc, ◌+◌, ◌-◌, Bool, true, false, not, ◌&&◌, ◌||◌, Option, none, some, List, [], ◌∷◌,
  ◌==◌, ltb, leb, if◌then◌else◌, length, take, drop, get_or, set, replicate,
}
use tinywf.Prelude.Bytes.{Bytes, to_lower}

-- `URI_SCHEME` and so on
abbrev pub uri_scheme : ℕ
uri_scheme = 0

abbrev pub uri_userinfo : ℕ
uri_userinfo = 1

abbrev pub uri_host : ℕ
uri_host = 2

abbrev pub uri_port : ℕ
uri_port = 3

abbrev pub uri_query : ℕ
uri_query = 4

abbrev pub uri_fragment : ℕ
uri_fragment = 5

abbrev pub uri_path : ℕ
uri_path = 6

abbrev pub uri_part_elements : ℕ
uri_part_elements = 7

is_letter_or_digit : ℕ → Bool
unfolding to_lower
is_letter_or_digit c = leb b'0' c && leb c b'9' || leb b'a' (to_lower c) && leb (to_lower c) b'z'

valid_in_userinfo : ℕ → Bool
unfolding is_letter_or_digit
valid_in_userinfo c =
    is_letter_or_digit c
    || (c == b'!'
        || (leb b'$' c && leb c b'.'
            || (c == b':' || (c == b';' || (c == b'=' || (c == b'_' || c == b'~'))))))

-- The table `valid_char`, by its rows for the scheme, the user, the host and the port.
unfoldable pub valid_char : ℕ → ℕ → Bool
unfolding is_letter_or_digit valid_in_userinfo
valid_char zero c = is_letter_or_digit c || (c == b'+' || (c == b'-' || c == b'.'))
valid_char (suc zero) c = valid_in_userinfo c
valid_char (suc (suc zero)) c = valid_in_userinfo c || (c == b'[' || c == b']')
valid_char _ c = leb b'0' c && leb c b'9'

-- The local variables of `parse`.
pub record Marks : Type 0 where
  pub start_idx : List ℕ
  pub end_idx : List ℕ
  pub pre_state : ℕ
  pub in_ipv6 : Bool
  pub skip_path : Bool

-- The first loop: where the scheme ends.
unfoldable pub find_colon : ℕ → Bytes → Option ℕ
find_colon i [] = none
find_colon i (c ∷ rest) = let later = find_colon (i + 1) rest in if c == b':' then some i else later

abbrev pub set_start : ℕ → ℕ → Marks → Marks
set_start part i m = record m { start_idx = set m.start_idx part i }

abbrev pub set_end : ℕ → ℕ → Marks → Marks
set_end part i m = record m { end_idx = set m.end_idx part i }

-- The variables behind the scheme that ends at `colon`.
unfoldable pub scheme_marks : ℕ → Marks
scheme_marks colon = record {
  start_idx = replicate 7 0;
  end_idx = set (replicate 7 0) uri_scheme colon;
  pre_state = uri_scheme;
  in_ipv6 = false;
  skip_path = false;
}

-- `str[i] == '/' && str[i + 1] == '/'`
unfoldable pub has_authority : Bytes → ℕ → Bool
has_authority str i = get_or str i 0 == b'/' && get_or str (i + 1) 0 == b'/'

-- The variables where the authority begins at `i`.
unfoldable pub authority_marks : Bytes → ℕ → Marks → Marks
authority_marks str i m =
    let opened =
      if get_or str i 0 == b'[' then record m { in_ipv6 = true } else set_start uri_userinfo i m in
    record (set_start uri_host i opened) { pre_state = uri_host }

-- What a case of the `switch` ends with.
pub data Jump : Type 0 where
  go_on stop : Marks → Jump

-- The `switch` on `authority_map`, for a byte that is not the NUL.
unfoldable pub authority_step : Bytes → ℕ → ℕ → Marks → Jump
authority_step str i c m =
    if c == b'@'
    then go_on (record (set_start uri_host (i + 1) (set_end uri_userinfo i m)) {
      pre_state = uri_host;
      in_ipv6 = m.in_ipv6 || get_or str (i + 1) 0 == b'[';
    })
    else if c == b':'
    then (let open_bracket = m.in_ipv6 && not (get_or str (i - 1) 0 == b']') in
        if open_bracket
        then go_on m
        else go_on (record (set_start uri_port (i + 1) (set_end uri_host i m)) {
          pre_state = uri_port;
          in_ipv6 = false;
        }))
    else if c == b'?'
    then go_on (record (set_start uri_query (i + 1) (set_end m.pre_state i m)) {
      pre_state = uri_query;
      skip_path = true;
    })
    else if c == b'#'
    then stop
        (record (set_end uri_fragment (i + length (drop i str))
          (set_start uri_fragment (i + 1) (set_end m.pre_state i m))) {
            pre_state = uri_part_elements;
            skip_path = true;
          })
    else if c == b'/' && not m.skip_path
    then stop (set_start uri_path i m)
    else go_on m

-- The loop over the authority; `rest` is the string from `i` on.
unfoldable pub authority_loop : Bytes → ℕ → Bytes → Marks → ℕ × Marks
unfolding authority_step
authority_loop str i [] m = (i, record m { skip_path = true })
authority_loop str i (c ∷ rest) m = elim (authority_step str i c m) [
  | go_on m' ↦ authority_loop str (i + 1) rest m'
  | stop m' ↦ (i, m')
]

-- A fragment that begins behind `i`.
abbrev pub mark_fragment : ℕ → Marks → Marks
mark_fragment i m = record (set_start uri_fragment (i + 1) (set_end m.pre_state i m)) {
  pre_state = uri_fragment;
}

-- The inner `while` loop, over the query.
unfoldable pub query_loop : ℕ → Bytes → Marks → Marks
query_loop i [] m = m
query_loop i (c ∷ rest) m = if c == b'#' then mark_fragment i m else query_loop (i + 1) rest m

-- The loop over the path.
unfoldable pub path_loop : ℕ → Bytes → Marks → Marks
unfolding query_loop
path_loop i [] m = m
path_loop i (c ∷ rest) m =
    let later = path_loop (i + 1) rest m in
    if c == b'?'
    then query_loop (i + 1) rest
        (record (set_start uri_query (i + 1) (set_end uri_path i m)) { pre_state = uri_query })
    else if c == b'#'
    then mark_fragment i m
    else later

-- Both loops end with `end_idx[pre_state]` at the end of the string.
unfoldable pub path_marks : Bytes → ℕ → Marks → Marks
unfolding path_loop
path_marks str i m =
    let n = path_loop i (drop i str) (record m { pre_state = uri_path }) in
    if m.skip_path then m else set_end n.pre_state (i + length (drop i str)) n

-- `if (pre_state != URI_PART_ELEMENTS) end_idx[pre_state] = i`
abbrev pub end_part : ℕ × Marks → ℕ × Marks
end_part (i, m) = (i, if m.pre_state == uri_part_elements then m else set_end m.pre_state i m)

unfoldable pub parts_from : Bytes → ℕ → Marks
unfolding scheme_marks has_authority authority_marks authority_loop path_marks
parts_from str colon =
    let i = colon + 1 in
    let m = scheme_marks colon in
    let (j, n) =
      if has_authority str i
      then end_part (authority_loop str (i + 2) (drop (i + 2) str) (authority_marks str (i + 2) m))
      else end_part (i, record (set_start uri_path i m) { pre_state = uri_path }) in
    path_marks str j n

-- `str` from `start_idx[part]` to `end_idx[part]`
abbrev pub slice : Bytes → ℕ → ℕ → Bytes
slice str from to = take (to - from) (drop from str)

unfoldable pub all_valid : ℕ → Bytes → Bool
unfolding valid_char
all_valid part [] = true
all_valid part (c ∷ text) = valid_char part c && all_valid part text

abbrev pub part_of : Bytes → Marks → ℕ → Bytes
part_of str m part = slice str (get_or m.start_idx part 0) (get_or m.end_idx part 0)

-- The test of the parts before the query.
unfoldable pub valid_parts : Bytes → Marks → Bool
unfolding all_valid
valid_parts str m =
    all_valid uri_scheme (part_of str m uri_scheme)
    && (all_valid uri_userinfo (part_of str m uri_userinfo)
        && (all_valid uri_host (part_of str m uri_host)
            && all_valid uri_port (part_of str m uri_port)))

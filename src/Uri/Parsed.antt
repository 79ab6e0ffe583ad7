-- ===== src/Uri/Parsed.antt =====
-- `ParsedURI` of src/common/URIParser.h and the storing half of `URIParser::parse` in
-- src/common/URIParser.cc. `alloc` is the outcome of the allocation of each part and `errno` what a
-- failure leaves.
use tinywf.Prelude.{
  ℕ, zero, suc, ◌+◌, ◌-◌, Bool, true, false, ◌&&◌, Option, none, some, ◌==◌, ltb, if◌then◌else◌,
  take, drop, get_or, length,
}
use tinywf.Prelude.Bytes.{Bytes}
use tinywf.Uri.{Marks, part_of, uri_host, find_colon, parts_from, valid_parts}

-- `URI_STATE_INIT` and so on
pub data UriState : Type 0 where
  state_init success invalid error_state : UriState

-- `ParsedURI`
pub record ParsedUri : Type 0 where
  pub scheme : Option Bytes
  pub userinfo : Option Bytes
  pub host : Option Bytes
  pub port : Option Bytes
  pub path : Option Bytes
  pub query : Option Bytes
  pub fragment : Option Bytes
  pub state : UriState
  pub error : ℕ

-- `ParsedURI::init`
abbrev pub fresh_uri : ParsedUri
fresh_uri = record {
  scheme = none;
  userinfo = none;
  host = none;
  port = none;
  path = none;
  query = none;
  fragment = none;
  state = state_init;
  error = 0;
}

-- `*dst[part] = text`
unfoldable pub set_part : ℕ → Option Bytes → ParsedUri → ParsedUri
set_part zero text uri = record uri { scheme = text }
set_part (suc zero) text uri = record uri { userinfo = text }
set_part (suc (suc zero)) text uri = record uri { host = text }
set_part (suc (suc (suc zero))) text uri = record uri { port = text }
set_part (suc (suc (suc (suc zero)))) text uri = record uri { query = text }
set_part (suc (suc (suc (suc (suc zero))))) text uri = record uri { fragment = text }
set_part _ text uri = record uri { path = text }

-- The text of a part that is not empty; a host in brackets loses two bytes. `none` means that the
-- length is below them, so that `len -= 2` wraps and `memcpy` leaves the memory it was given.
unfoldable pub part_text : Bytes → Marks → ℕ → Option Bytes
part_text str m part =
    let from = get_or m.start_idx part 0 in
    let text = part_of str m part in
    let bracketed = part == uri_host && get_or str from 0 == b'[' in
    if bracketed
    then (if ltb (length text) 2 then none else some (take (length text - 2) (drop (from + 1) str)))
    else some text

-- The round of the last loop for `part`; `false` stands for the return value -1.
unfoldable pub store_part : Bool → ℕ → Bytes → Marks → ℕ → ParsedUri → Option (Bool × ParsedUri)
unfolding set_part part_text
store_part alloc errno str m part uri =
    if ltb (get_or m.start_idx part 0) (get_or m.end_idx part 0)
    then (if alloc
        then elim (part_text str m part) [
          | none ↦ none
          | some text ↦ some (true, set_part part (some text) uri)
        ]
        else some (false, record (set_part part none uri) { state = error_state; error = errno }))
    else some (true, set_part part none uri)

-- The last loop, over the `n` parts from `part` on.
unfoldable pub store_parts :
    (ℕ → Bool) → ℕ → Bytes → Marks → ℕ → ℕ → ParsedUri → Option (Bool × ParsedUri)
unfolding store_part
store_parts alloc errno str m zero part uri = some (true, record uri { state = success })
store_parts alloc errno str m (suc n) part uri =
    elim (store_part (alloc part) errno str m part uri) [
      | none ↦ none
      | some (ok, stored) ↦ elim ok [
        | true ↦ store_parts alloc errno str m n (part + 1) stored
        | false ↦ some (false, stored)
      ]
    ]

unfoldable pub parse_marked :
    (ℕ → Bool) → ℕ → Bytes → ParsedUri → Option ℕ → Option (Bool × ParsedUri)
unfolding store_parts valid_parts
parse_marked alloc errno str uri none = some (false, uri)
parse_marked alloc errno str uri (some zero) = some (false, uri)
parse_marked alloc errno str uri (some (suc k)) =
    let m = parts_from str (suc k) in
    if valid_parts str m then store_parts alloc errno str m 7 0 uri else some (false, uri)

-- `URIParser::parse`; `none` is the copy that leaves its memory.
unfoldable pub parse : (ℕ → Bool) → ℕ → Bytes → ParsedUri → Option (Bool × ParsedUri)
unfolding parse_marked find_colon
parse alloc errno str uri =
    parse_marked alloc errno str (record uri { state = invalid }) (find_colon 0 str)

-- The `strdup`s of `copy`, as far as they succeed: whether all of them did.
abbrev pub copied : Bool → Option Bytes → Bool
copied alloc none = true
copied alloc (some text) = alloc

-- `ParsedURI::copy`, into a fresh object.
unfoldable pub copy : (ℕ → Bool) → ℕ → ParsedUri → ParsedUri
copy alloc errno uri =
    let whole =
      copied (alloc 0) uri.scheme
      && (copied (alloc 1) uri.userinfo
          && (copied (alloc 2) uri.host
              && (copied (alloc 3) uri.port
                  && (copied (alloc 4) uri.path
                      && (copied (alloc 5) uri.query && copied (alloc 6) uri.fragment))))) in
    let failed = record fresh_uri { state = error_state; error = errno } in
    elim uri.state [
      | success ↦ if whole then uri else failed
      | s ↦ record fresh_uri { state = s; error = uri.error }
    ]

-- The move constructor: the new object, and what is left of the old one.
unfoldable pub move : ParsedUri → ParsedUri × ParsedUri
move uri = (uri, fresh_uri)

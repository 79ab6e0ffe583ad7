-- ===== src/HttpUtil.antt =====
-- src/util/HttpUtil.cc: the status of a response, and the map of headers.
pub mod Status
pub mod Values
pub mod ChunkCursor
use tinywf.Prelude.{
  ℕ, Bool, true, false, ◌&&◌, Option, none, some, List, [], ◌∷◌, ◌++◌, if◌then◌else◌, is_nil, map,
}
use tinywf.Prelude.Bytes.{Bytes, to_lower, str_eq}
use tinywf.Http.{Parser, HeaderLine}
use tinywf.Http.Headers.{Cursor, cursor_init, line_name, line_value}

-- `std::transform(key.begin(), key.end(), key.begin(), ::tolower)`
abbrev pub lower : Bytes → Bytes
lower key = map to_lower key

-- `header_map_`: each key with its values.
abbrev pub HeaderMap : Type 0
HeaderMap = List (Bytes × List Bytes)

-- `header_map_[key].emplace_back(value)`
unfoldable pub emplace : Bytes → Bytes → HeaderMap → HeaderMap
emplace key value [] = (key, value ∷ []) ∷ []
emplace key value ((k, values) ∷ rest) =
    let later = emplace key value rest in
    if str_eq k key then (k, values ++ value ∷ []) ∷ rest else (k, values) ∷ later

-- The loop of the constructor, over what the cursor has yet to pass.
unfoldable pub collect : List HeaderLine → HeaderMap → HeaderMap
unfolding emplace
collect [] headers = headers
collect (line ∷ rest) headers =
    collect rest (emplace (lower (line_name line)) (line_value line) headers)

-- The constructor.
unfoldable pub new_header_map : Parser → HeaderMap
unfolding collect
new_header_map p = collect (cursor_init p).rest []

-- `header_map_.find(key)`
unfoldable pub find_key : Bytes → HeaderMap → Option (List Bytes)
find_key key [] = none
find_key key ((k, values) ∷ rest) =
    let later = find_key key rest in if str_eq k key then some values else later

unfoldable pub key_exists : Bytes → HeaderMap → Bool
unfolding find_key
key_exists key headers = elim (find_key (lower key) headers) [ none ↦ false | some values ↦ true ]

unfoldable pub first_value : Option (List Bytes) → Option Bytes
first_value none = none
first_value (some []) = none
first_value (some (value ∷ values)) = some value

-- `get` with a reference for the value; the other one gives an empty string in place of nothing.
unfoldable pub get_value : Bytes → HeaderMap → Option Bytes
unfolding find_key first_value
get_value key headers = first_value (find_key (lower key) headers)

unfoldable pub get_string : Bytes → HeaderMap → Bytes
unfolding get_value
get_string key headers = elim (get_value key headers) [ none ↦ [] | some value ↦ value ]

-- `get_strict`: `header_map_[key]` adds the key if it is missing.
unfoldable pub get_strict : Bytes → HeaderMap → List Bytes × HeaderMap
unfolding find_key
get_strict key headers = elim (find_key (lower key) headers) [
  | none ↦ ([], headers ++ (lower key, []) ∷ [])
  | some values ↦ (values, headers)
]

some_values : Option (List Bytes) → Option (List Bytes)
some_values none = none
some_values (some []) = none
some_values (some (value ∷ values)) = some (value ∷ values)

-- The other `get_strict`, with a reference for the values.
unfoldable pub get_all : Bytes → HeaderMap → Option (List Bytes)
unfolding find_key some_values
get_all key headers = some_values (find_key (lower key) headers)

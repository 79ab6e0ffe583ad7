-- ===== src/Tests/HttpUtil.antt =====
-- A response with two headers of one name, at src/util/HttpUtil.cc.
use tinywf.Prelude.{◌≡◌, refl, true, some, List, [], ◌∷◌, ◌++◌, length}
use tinywf.Prelude.Bytes.{Bytes, codes}
use tinywf.Http.{Parser, HeaderLine, init, chunk_complete}
use tinywf.Http.Headers.{crlf, colon, cursor_init, cursor_find}
use tinywf.Message.Encoded.{HaveText}
use tinywf.HttpUtil.{new_header_map, get_strict, get_value}
use tinywf.HttpUtil.Status.{reason_phrase}
use tinywf.HttpUtil.Values.{values_of, get_value-cursor_find}
use tinywf.HttpUtil.ChunkCursor.{decode_chunked_body}
use tinywf.Tests.Http.{raw, chunks}

not_found : reason_phrase 404 ≡ codes "Not Found"
unfolding reason_phrase
not_found = refl

abbrev line : Bytes → Bytes → HeaderLine
line name value = record {
  name_len = length name;
  value_len = length value;
  buf = name ++ (colon ++ (value ++ crlf));
}

abbrev response : Parser
response = record (init true raw) {
  header_list = line (codes "Via") (codes "a") ∷ line (codes "VIA") (codes "b") ∷ [];
}

abbrev headers : List (Bytes × Bytes)
headers = (codes "Via", codes "a") ∷ (codes "VIA", codes "b") ∷ []

response-HaveText : HaveText response.header_list headers
unfolding HaveText init
response-HaveText = (
  record { spare = []; named = refl; valued = refl; text = refl },
  (record { spare = []; named = refl; valued = refl; text = refl }, refl),
)

get_value-cursor_find_example :
    ((get_strict (codes "via") (new_header_map response)).0 ≡ values_of (codes "via") headers)
    × (get_value (codes "via") (new_header_map response)
        ≡ (cursor_find (codes "via") (cursor_init response)).0)
get_value-cursor_find_example =
    get_value-cursor_find (codes "via") response headers response-HaveText

decoded_abc : decode_chunked_body (some chunks) true ≡ some (codes "abc")
unfolding decode_chunked_body
decoded_abc = refl

-- The parser behind the last chunk.
abbrev behind : Parser
behind = record raw { chunk_offset = 13; chunk_state = chunk_complete }

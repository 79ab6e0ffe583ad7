-- ===== src/Tests/Uri.antt =====
-- Runs of src/common/URIParser.cc.
use tinywf.Prelude.{◌≡◌, refl, true, false, none, some, [], ◌∷◌}
use tinywf.Prelude.Bytes.{Bytes, codes, str_eq}
use tinywf.Uri.{parts_from, valid_parts, uri_scheme, uri_userinfo, uri_host, uri_port}
use tinywf.Uri.Checked.{IsChecked, parse-IsChecked}
use tinywf.StringUtil.{split}
use tinywf.Uri.Query.{split_query, split_query_strict, find, first_value, split_query-strict}
use tinywf.Uri.Parsed.{ParsedUri, success, invalid, fresh_uri, parse}

parsed :
    parse (λ _. true) 12 (codes "http://u:p@[::1]:80/a/b?x=1#f") fresh_uri
    ≡ some (
      true,
      record {
        scheme = some (codes "http");
        userinfo = some (codes "u:p");
        host = some (codes "::1");
        port = some (codes "80");
        path = some (codes "/a/b");
        query = some (codes "x=1");
        fragment = some (codes "f");
        state = success;
        error = 0;
      },
    )
unfolding parse parts_from valid_parts
parsed = refl

-- A colon in a query that follows the authority is taken for a port's.
colon_in_query :
    parse (λ _. true) 12 (codes "http://h?t=1:30") fresh_uri
    ≡ some (false, record fresh_uri { state = invalid })
unfolding parse parts_from valid_parts
colon_in_query = refl

-- A host that is one bracket leaves its memory.
one_bracket : parse (λ _. true) 12 (codes "http://[") fresh_uri ≡ none
unfolding parse parts_from valid_parts
one_bracket = refl

queried :
    split_query (codes "a=1&b&a=2&=3&c=4=5")
    ≡ (codes "a", codes "1") ∷ (codes "b", []) ∷ (codes "c", codes "4") ∷ []
unfolding split_query split str_eq
queried = refl

split_query-strict_example :
    find (codes "a") (split_query (codes "a=1&b&a=2"))
    ≡ first_value (find (codes "a") (split_query_strict (codes "a=1&b&a=2")))
split_query-strict_example = split_query-strict (codes "a=1&b&a=2") (codes "a")

abbrev address : Bytes
address = codes "http://u@h:80/p"

-- What parsing the address leaves.
abbrev address_parts : ParsedUri
address_parts = record {
  scheme = some (codes "http");
  userinfo = some (codes "u");
  host = some (codes "h");
  port = some (codes "80");
  path = some (codes "/p");
  query = none;
  fragment = none;
  state = success;
  error = 0;
}

parse-IsChecked_example :
    (address_parts.state ≡ success)
    × IsChecked uri_scheme address_parts.scheme
    × IsChecked uri_userinfo address_parts.userinfo
    × IsChecked uri_host address_parts.host
    × IsChecked uri_port address_parts.port
unfolding parse parts_from valid_parts
parse-IsChecked_example = parse-IsChecked (λ _. true) 12 address fresh_uri address_parts refl

-- ===== src/Tests/StringUtil.antt =====
-- Runs of src/util/StringUtil.cc.
use tinywf.Prelude.{◌≡◌, ◌↔◌, refl, true, [], ◌∷◌, ◌++◌, arith}
use tinywf.Prelude.Bytes.{Bytes, codes}
use tinywf.StringUtil.{
  url_decode, url_encode, url_encode_component, split, split_filter_empty, strip, start_with,
}
use tinywf.StringUtil.Url.{AllBytes, url_decode-url_encode, url_decode-url_encode_component}
use tinywf.StringUtil.Split.{join, AllFree, non_empty, split-join, split_filter_empty-split}
use tinywf.StringUtil.Strip.{AllSpace, StartsFirm, EndsFirm, strip-parts, start_with_iff}

abbrev query : Bytes
query = codes "a b%c+d=/" ++ 255 ∷ []

query-AllBytes : AllBytes query
query-AllBytes = omega arith

encoded : url_encode query ≡ codes "a+b%25c%2Bd%3D/%FF"
unfolding url_encode
encoded = refl

component_encoded : url_encode_component query ≡ codes "a+b%25c%2Bd%3D%2F%FF"
unfolding url_encode_component
component_encoded = refl

-- An escape that is cut short stands for itself.
decoded : url_decode (codes "%4a%4%zz+%") ≡ codes "J%4%zz %"
unfolding url_decode
decoded = refl

parts : split (codes ",a,,b") b',' ≡ [] ∷ codes "a" ∷ [] ∷ codes "b" ∷ []
unfolding split
parts = refl

full_parts : split_filter_empty (codes ",a,,b") b',' ≡ codes "a" ∷ codes "b" ∷ []
unfolding split_filter_empty
full_parts = refl

stripped : strip (codes " \t a b \r\n") ≡ codes "a b"
unfolding strip
stripped = refl

url_decode-url_encode_example : url_decode (url_encode query) ≡ query
url_decode-url_encode_example = url_decode-url_encode query query-AllBytes

url_decode-url_encode_component_example : url_decode (url_encode_component query) ≡ query
url_decode-url_encode_component_example = url_decode-url_encode_component query query-AllBytes

split-join_example :
    (join b',' (split (codes ",a,,b") b',') ≡ codes ",a,,b")
    × AllFree b',' (split (codes ",a,,b") b',')
split-join_example = split-join (codes ",a,,b") b','

split_filter_empty-split_example :
    split_filter_empty (codes ",a,,b") b',' ≡ non_empty (split (codes ",a,,b") b',')
split_filter_empty-split_example = split_filter_empty-split (codes ",a,,b") b','

strip-parts_example :
    (l r : Bytes) × (codes " a " ≡ l ++ (strip (codes " a ") ++ r))
    × AllSpace l
    × AllSpace r
    × StartsFirm (strip (codes " a "))
    × EndsFirm (strip (codes " a "))
strip-parts_example = strip-parts (codes " a ")

start_with_iff_example :
    (start_with (codes "http://a") (codes "http://") ≡ true)
    ↔ ((rest : Bytes) × (codes "http://a" ≡ codes "http://" ++ rest))
start_with_iff_example = start_with_iff (codes "http://a") (codes "http://")

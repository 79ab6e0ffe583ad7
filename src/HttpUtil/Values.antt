-- ===== src/HttpUtil/Values.antt =====
-- The map of headers of src/util/HttpUtil.cc agrees with the cursor of src/protocol/http_parser.c.
use tinywf.Prelude.{
  suc, ◌≡◌, refl, sym, ap, ◌∙◌, Bool, true, false, ◌&&◌, Option, none, some, List, [], ◌∷◌, ◌++◌,
  arith, ◌==◌, if◌then◌else◌, length, Bool-cases, inl, inr,
}
use mathlib.Core.List.{append_assoc}
use tinywf.Prelude.Bytes.{Bytes, to_lower, str_eq, str_eq_iff, case_eq}
use tinywf.Http.{Parser, HeaderLine}
use tinywf.Http.Headers.{
  Cursor, cursor_init, cursor_find, find_in, line_name, line_value, line_matches,
}
use tinywf.Http.Headers.Text.{LineText, LineText-line_name, LineText-line_value}
use tinywf.Message.Encoded.{HaveText}
use tinywf.HttpUtil.{
  HeaderMap, lower, emplace, collect, new_header_map, find_key, first_value, get_value, get_strict,
}

-- The values of all headers of that name, whatever its case, in order.
unfoldable pub values_of : Bytes → List (Bytes × Bytes) → List Bytes
values_of key [] = []
values_of key ((name, value) ∷ headers) =
    let rest = values_of key headers in if case_eq name key then value ∷ rest else rest

case_eq-lower : (a b : Bytes) → case_eq a b ≡ str_eq (lower a) (lower b)
unfolding case_eq str_eq
case_eq-lower [] [] = refl
case_eq-lower [] (y ∷ b) = refl
case_eq-lower (x ∷ a) [] = refl
case_eq-lower (x ∷ a) (y ∷ b) = ap (λ c. (to_lower x == to_lower y) && c) (case_eq-lower a b)

-- The values of a key, none if it is missing.
values_at : Bytes → HeaderMap → List Bytes
values_at key headers = elim (find_key key headers) [ none ↦ [] | some values ↦ values ]

found : Bool → List Bytes → HeaderMap → Bytes → List Bytes
found b values rest key = if b then values else values_at key rest

values_at-cons :
    (k key : Bytes) (values : List Bytes) (rest : HeaderMap)
    → values_at key ((k, values) ∷ rest) ≡ found (str_eq k key) values rest key
unfolding values_at find_key found
values_at-cons k key values rest = elim (Bool-cases (str_eq k key)) [
  | inl e ↦ ground (arith, e)
  | inr e ↦ ground (arith, e)
]

abbrev at_key : Bool → Bytes → List Bytes
at_key b value = if b then value ∷ [] else []

append_nil : (a : List Bytes) → a ++ [] ≡ a
append_nil [] = refl
append_nil (x ∷ a) = ap (◌∷◌ x) (append_nil a)

alone :
    (c : Bool) (value key : Bytes)
    → found c (value ∷ []) [] key ≡ values_at key [] ++ at_key c value
unfolding found values_at find_key
alone true value key = refl
alone false value key = refl

in_entry :
    (c : Bool) (values : List Bytes) (value key : Bytes) (rest : HeaderMap)
    → found c (values ++ value ∷ []) rest key ≡ found c values rest key ++ at_key c value
unfolding found
in_entry true values value key rest = refl
in_entry false values value key rest = sym (append_nil (values_at key rest))

-- Another key comes first.
behind_entry :
    (c d : Bool) (values : List Bytes) (value key : Bytes) (rest more : HeaderMap)
    → (c ≡ true → d ≡ false)
    → values_at key more ≡ values_at key rest ++ at_key d value
    → found c values more key ≡ found c values rest key ++ at_key d value
unfolding found
behind_entry true d values value key rest more n e =
    sym (ap (λ b. values ++ at_key b value) (n refl) ∙ append_nil values)
behind_entry false d values value key rest more n e = e

values_at-emplace :
    (k value key : Bytes) (headers : HeaderMap)
    → values_at key (emplace k value headers) ≡ values_at key headers ++ at_key (str_eq k key) value
unfolding emplace
values_at-emplace k value key [] =
    values_at-cons k key (value ∷ []) [] ∙ alone (str_eq k key) value key
values_at-emplace k value key ((k', values) ∷ rest) =
    let entry =
      ap (λ vs. vs ++ at_key (str_eq k key) value) (sym (values_at-cons k' key values rest)) in
    elim (Bool-cases (str_eq k' k)) [
      | inl e ↦
          let same : k' ≡ k = (str_eq_iff k' k).0 e in
          ap
            (λ b. values_at key (
              if b then (k', values ++ value ∷ []) ∷ rest else (k', values) ∷ emplace k value rest))
            e
          ∙ values_at-cons k' key (values ++ value ∷ []) rest
          ∙ in_entry (str_eq k' key) values value key rest
          ∙ ap (λ c. found (str_eq k' key) values rest key ++ at_key (str_eq c key) value) same
          ∙ entry
      | inr e ↦
          let other : str_eq k' key ≡ true → str_eq k key ≡ false = λ q.
            elim (Bool-cases (str_eq k key)) [
              | inl r ↦
                  let same : k' ≡ k = (str_eq_iff k' key).0 q ∙ sym ((str_eq_iff k key).0 r) in
                  absurd (ground (arith, e, (str_eq_iff k' k).1 same))
              | inr r ↦ r
            ] in
          ap
            (λ b. values_at key (
              if b then (k', values ++ value ∷ []) ∷ rest else (k', values) ∷ emplace k value rest))
            e
          ∙ values_at-cons k' key values (emplace k value rest)
          ∙ behind_entry (str_eq k' key) (str_eq k key) values value key rest (emplace k value rest)
              other (values_at-emplace k value key rest)
          ∙ entry
    ]

add_value :
    (c : Bool) (old more : List Bytes) (value : Bytes)
    → (old ++ at_key c value) ++ more ≡ old ++ (if c then value ∷ more else more)
add_value true old more value = append_assoc old (value ∷ []) more
add_value false old more value = ap (λ x. x ++ more) (append_nil old)

values_at-collect :
    (key : Bytes) (lines : List HeaderLine) (headers : List (Bytes × Bytes)) (seen : HeaderMap)
    → HaveText lines headers
    → values_at (lower key) (collect lines seen)
      ≡ values_at (lower key) seen ++ values_of key headers
unfolding collect values_of HaveText
values_at-collect key [] [] seen h = sym (append_nil (values_at (lower key) seen))
values_at-collect key [] (x ∷ headers) seen h = absurd (ground (arith, h))
values_at-collect key (line ∷ lines) [] seen h = absurd (ground (arith, h))
values_at-collect key (line ∷ lines) ((name, value) ∷ headers) seen (t, h) =
    let test : str_eq (lower (line_name line)) (lower key) ≡ case_eq name key =
      ap (λ n. str_eq (lower n) (lower key)) (LineText-line_name t)
      ∙ sym (case_eq-lower name key) in
    values_at-collect key lines headers (emplace (lower (line_name line)) (line_value line) seen) h
    ∙ ap (λ x. x ++ values_of key headers)
        (values_at-emplace (lower (line_name line)) (line_value line) (lower key) seen)
    ∙ ap (λ b. (values_at (lower key) seen ++ at_key b (line_value line)) ++ values_of key headers)
        test
    ∙ ap (λ v. (values_at (lower key) seen ++ at_key (case_eq name key) v) ++ values_of key headers)
        (LineText-line_value t)
    ∙ add_value (case_eq name key) (values_at (lower key) seen) (values_of key headers) value

new_header_map-values :
    (key : Bytes) (p : Parser) (headers : List (Bytes × Bytes))
    → HaveText p.header_list headers
    → values_at (lower key) (new_header_map p) ≡ values_of key headers
unfolding new_header_map cursor_init values_at find_key
new_header_map-values key p headers h = values_at-collect key p.header_list headers [] h

abbrev head : List Bytes → Option Bytes
head [] = none
head (v ∷ vs) = some v

first_value-head :
    (o : Option (List Bytes)) → first_value o ≡ head (elim o [ none ↦ [] | some values ↦ values ])
unfolding first_value
first_value-head none = refl
first_value-head (some []) = refl
first_value-head (some (v ∷ vs)) = refl

case_eq-length : (a b : Bytes) → case_eq a b ≡ true → length a ≡ length b
unfolding case_eq
case_eq-length [] [] h = refl
case_eq-length [] (y ∷ b) h = absurd (ground (arith, h))
case_eq-length (x ∷ a) [] h = absurd (ground (arith, h))
case_eq-length (x ∷ a) (y ∷ b) h = ap suc (case_eq-length a b (ground (arith, h)))

line_matches-case_eq :
    (line : HeaderLine) (name value key : Bytes)
    → LineText line name value
    → line_matches key line ≡ case_eq name key
unfolding line_matches
line_matches-case_eq line name value key t =
    ap (λ n. (line.name_len == length key) && case_eq n key) (LineText-line_name t)
    ∙ ap (λ n. (n == length key) && case_eq name key) t.named
    ∙ elim (Bool-cases (case_eq name key)) [
      | inl e ↦ ground (arith, e, case_eq-length name key e)
      | inr e ↦ ground (arith, e)
    ]

find_in-head :
    (key : Bytes) (c : Cursor) (lines : List HeaderLine) (headers : List (Bytes × Bytes))
    → HaveText lines headers
    → (find_in key c lines).0 ≡ head (values_of key headers)
unfolding find_in values_of HaveText
find_in-head key c [] [] h = refl
find_in-head key c [] (x ∷ headers) h = absurd (ground (arith, h))
find_in-head key c (line ∷ lines) [] h = absurd (ground (arith, h))
find_in-head key c (line ∷ lines) ((name, value) ∷ headers) (t, h) =
    let test = line_matches-case_eq line name value key t in
    let rest = find_in-head key c lines headers h in
    let at = LineText-line_value t in
    elim (Bool-cases (case_eq name key)) [
      | inl e ↦ ground (arith, e, test, at)
      | inr e ↦ ground (arith, e, test, rest)
    ]

-- In a message whose headers have a text each: the map of headers has for every key the values of all
-- headers of that name, whatever the case of the letters, in order; and `get` gives the one that the cursor
-- of the parser finds first.
pub get_value-cursor_find :
    (key : Bytes) (p : Parser) (headers : List (Bytes × Bytes))
    → HaveText p.header_list headers
    → ((get_strict key (new_header_map p)).0 ≡ values_of key headers)
      × (get_value key (new_header_map p) ≡ (cursor_find key (cursor_init p)).0)
unfolding get_strict get_value cursor_find cursor_init values_at
get_value-cursor_find key p headers h =
    let all = new_header_map-values key p headers h in
    (
      strict (find_key (lower key) (new_header_map p)) ∙ all,
      first_value-head (find_key (lower key) (new_header_map p))
          ∙ ap head all
          ∙ sym (find_in-head key (cursor_init p) p.header_list headers h),
    )
  where
    strict :
        (o : Option (List Bytes))
        → (elim o as (λ o. List Bytes × HeaderMap) [
          | none ↦ ([], new_header_map p ++ (lower key, []) ∷ [])
          | some values ↦ (values, new_header_map p)
        ]).0
          ≡ elim o as (λ o. List Bytes) [ none ↦ [] | some values ↦ values ]
    strict none = refl
    strict (some values) = refl

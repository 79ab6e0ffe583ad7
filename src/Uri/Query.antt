-- ===== src/Uri/Query.antt =====
-- The query and the path of a URI: `split_query_strict`, `split_query` and `split_path` of
-- src/common/URIParser.cc. A `std::map` is a list of its entries, of which each key has one.
use tinywf.Prelude.{
  ◌≡◌, refl, sym, ap, ◌∙◌, true, false, Option, none, some, List, [], ◌∷◌, ◌++◌, arith, Bool-cases,
  Option-cases, inl, inr, if◌then◌else◌, is_nil,
}
use tinywf.Prelude.Bytes.{Bytes, str_eq, str_eq_iff}
use tinywf.StringUtil.{split, split_filter_empty}

abbrev pub Entries {ℓ} : Type ℓ → Type ℓ
Entries A = List (Bytes × A)

unfoldable pub find {ℓ} : {A : Type ℓ} → Bytes → Entries A → Option A
find key [] = none
find key ((k, x) ∷ m) = if str_eq k key then some x else find key m

-- `res[key].emplace_back(val)`
unfoldable pub push : Bytes → Bytes → Entries (List Bytes) → Entries (List Bytes)
push key val [] = (key, val ∷ []) ∷ []
push key val ((k, vals) ∷ m) =
    if str_eq k key then (k, vals ++ val ∷ []) ∷ m else (k, vals) ∷ push key val m

-- `res.emplace(key, val)` where the key is new
abbrev pub emplace : Bytes → Bytes → Entries Bytes → Entries Bytes
emplace key val m = m ++ (key, val) ∷ []

-- The key and the value of an element that is split at its equals signs.
unfoldable pub pair_in : List Bytes → Option (Bytes × Bytes)
pair_in [] = none
pair_in (key ∷ []) = if is_nil key then none else some (key, [])
pair_in (key ∷ val ∷ rest) =
    if is_nil key then none else if is_nil val then some (key, []) else some (key, val)

-- The body of both loops, up to what it adds: none if it goes on with the next element.
unfoldable pub pair_of : Bytes → Option (Bytes × Bytes)
unfolding pair_in
pair_of ele = if is_nil ele then none else pair_in (split ele b'=')

abbrev pub add_strict : Option (Bytes × Bytes) → Entries (List Bytes) → Entries (List Bytes)
add_strict none res = res
add_strict (some (key, val)) res = push key val res

abbrev pub emplace_new : Bytes → Bytes → Entries Bytes → Option Bytes → Entries Bytes
emplace_new key val res none = emplace key val res
emplace_new key val res (some old) = res

abbrev pub add_first : Option (Bytes × Bytes) → Entries Bytes → Entries Bytes
add_first none res = res
add_first (some (key, val)) res = emplace_new key val res (find key res)

unfoldable pub strict_loop : List Bytes → Entries (List Bytes) → Entries (List Bytes)
unfolding pair_of push
strict_loop [] res = res
strict_loop (ele ∷ arr) res = strict_loop arr (add_strict (pair_of ele) res)

unfoldable pub first_loop : List Bytes → Entries Bytes → Entries Bytes
unfolding pair_of find
first_loop [] res = res
first_loop (ele ∷ arr) res = first_loop arr (add_first (pair_of ele) res)

unfoldable pub split_query_strict : Bytes → Entries (List Bytes)
unfolding strict_loop
split_query_strict query = if is_nil query then [] else strict_loop (split query b'&') []

unfoldable pub split_query : Bytes → Entries Bytes
unfolding first_loop
split_query query = if is_nil query then [] else first_loop (split query b'&') []

unfoldable pub split_path : Bytes → List Bytes
split_path path = split_filter_empty path b'/'

-- The first of the values that a key has.
abbrev pub first_value : Option (List Bytes) → Option Bytes
first_value none = none
first_value (some []) = none
first_value (some (val ∷ vals)) = some val

abbrev values : Option (List Bytes) → List Bytes
values none = []
values (some vals) = vals

str_eq_refl : (a : Bytes) → str_eq a a ≡ true
str_eq_refl a = (str_eq_iff a a).1 refl

find-push_same :
    (key val : Bytes) (m : Entries (List Bytes))
    → find key (push key val m) ≡ some (values (find key m) ++ val ∷ [])
unfolding find push
find-push_same key val [] = ground (arith, str_eq_refl key)
find-push_same key val ((k, vals) ∷ m) = ground (arith, find-push_same key val m)

find-push_other :
    (other key val : Bytes) (m : Entries (List Bytes))
    → str_eq key other ≡ false
    → find other (push key val m) ≡ find other m
unfolding find push
find-push_other other key val [] n = ground (arith, n)
find-push_other other key val ((k, vals) ∷ m) n = elim (Bool-cases (str_eq k key)) [
  | inl same ↦
      let at : k ≡ key = (str_eq_iff k key).0 same in
      let apart : str_eq k other ≡ false = ap (λ b. str_eq b other) at ∙ n in
      ground (arith, same, apart)
  | inr differs ↦ ground (arith, differs, find-push_other other key val m n)
]

find-emplace_same :
    (key val : Bytes) (m : Entries Bytes)
    → find key m ≡ none
    → find key (emplace key val m) ≡ some val
unfolding find
find-emplace_same key val [] e = ground (arith, str_eq_refl key)
find-emplace_same key val ((k, x) ∷ m) e = ground (arith, e, find-emplace_same key val m)

find-emplace_other :
    (other key val : Bytes) (m : Entries Bytes)
    → str_eq key other ≡ false
    → find other (emplace key val m) ≡ find other m
unfolding find
find-emplace_other other key val [] n = ground (arith, n)
find-emplace_other other key val ((k, x) ∷ m) n =
    ground (arith, find-emplace_other other key val m n)

first_value-none :
    (val : Bytes) (vals : Option (List Bytes))
    → first_value vals ≡ none
    → first_value (some (values vals ++ val ∷ [])) ≡ some val
first_value-none val none e = refl
first_value-none val (some []) e = refl
first_value-none val (some (v ∷ vals)) e = absurd (ground (arith, e))

first_value-some :
    (val old : Bytes) (vals : Option (List Bytes))
    → first_value vals ≡ some old
    → first_value (some (values vals ++ val ∷ [])) ≡ some old
first_value-some val old none e = absurd (ground (arith, e))
first_value-some val old (some []) e = absurd (ground (arith, e))
first_value-some val old (some (v ∷ vals)) e = e

-- Both results agree: a key has the first of its values.
Agrees : Entries Bytes → Entries (List Bytes) → Type 0
Agrees firsts all = (key : Bytes) → find key firsts ≡ first_value (find key all)

emplace_new-Agrees :
    (key val : Bytes) (firsts : Entries Bytes) (all : Entries (List Bytes))
    → Agrees firsts all
    → Agrees (emplace_new key val firsts (find key firsts)) (push key val all)
unfolding Agrees
emplace_new-Agrees key val firsts all a other = elim (Bool-cases (str_eq key other)) [
  | inr differs ↦
      let later = find-push_other other key val all differs in
      elim (Option-cases (find key firsts)) [
        | inl missing ↦
            ap (λ o. find other (emplace_new key val firsts o)) missing
            ∙ find-emplace_other other key val firsts differs
            ∙ a other
            ∙ ap first_value (sym later)
        | inr (old, there) ↦
            ap (λ o. find other (emplace_new key val firsts o)) there
            ∙ a other
            ∙ ap first_value (sym later)
      ]
  | inl same ↦
      let at : key ≡ other = (str_eq_iff key other).0 same in
      ap (λ k. find k (emplace_new key val firsts (find key firsts))) (sym at)
      ∙ at_key (find key firsts) refl
      ∙ ap first_value (sym (find-push_same key val all))
      ∙ ap (λ k. first_value (find k (push key val all))) at
]
  where
    at_key :
        (o : Option Bytes)
        → find key firsts ≡ o
        → find key (emplace_new key val firsts (find key firsts))
          ≡ first_value (some (values (find key all) ++ val ∷ []))
    at_key none e =
        ap (λ o. find key (emplace_new key val firsts o)) e
        ∙ find-emplace_same key val firsts e
        ∙ sym (first_value-none val (find key all) (sym (a key) ∙ e))
    at_key (some old) e =
        ap (λ o. find key (emplace_new key val firsts o)) e
        ∙ e
        ∙ sym (first_value-some val old (find key all) (sym (a key) ∙ e))

loops-Agrees :
    (arr : List Bytes) (firsts : Entries Bytes) (all : Entries (List Bytes))
    → Agrees firsts all
    → Agrees (first_loop arr firsts) (strict_loop arr all)
unfolding first_loop strict_loop
loops-Agrees [] firsts all a = a
loops-Agrees (ele ∷ arr) firsts all a =
    loops-Agrees arr (add_first (pair_of ele) firsts) (add_strict (pair_of ele) all)
      (added (pair_of ele))
  where
    added : (pair : Option (Bytes × Bytes)) → Agrees (add_first pair firsts) (add_strict pair all)
    added none = a
    added (some (key, val)) = emplace_new-Agrees key val firsts all a

-- `split_query` and `split_query_strict` agree on every query: the value of a key in the one is the
-- first of its values in the other, and a key that the one lacks the other lacks or has no value of.
pub split_query-strict :
    (query key : Bytes)
    → find key (split_query query) ≡ first_value (find key (split_query_strict query))
unfolding split_query split_query_strict Agrees
split_query-strict [] key = unfold find in refl
split_query-strict (c ∷ query) key =
    loops-Agrees (split (c ∷ query) b'&') [] [] (λ k. unfold find in refl) key

-- ===== src/Uri/Checked.antt =====
-- What `URIParser::parse` of src/common/URIParser.cc guarantees of the parts that it stores.
use tinywf.Prelude.{
  ℕ, zero, suc, ◌+◌, ◌-◌, ◌<◌, ◌≤◌, ◌≡◌, refl, sym, ap, subst, Bool, true, false, ◌&&◌, Option,
  none, some, [], ◌∷◌, arith, ◌==◌, ltb, length, length-take, take, drop, get_or, Bool-cases,
  Option-cases, inl, inr,
}
use tinywf.Prelude.Bytes.{Bytes}
use tinywf.Uri.{
  Marks, uri_scheme, uri_userinfo, uri_host, uri_port, all_valid, slice, part_of, parts_from,
  valid_parts, find_colon,
}
use tinywf.Uri.Parsed.{
  ParsedUri, success, invalid, set_part, part_text, store_part, store_parts, parse, parse_marked,
}

-- A part is missing, or all its bytes are in its row of the table.
abbrev pub IsChecked : ℕ → Option Bytes → Type 0
IsChecked part none = Unit {0}
IsChecked part (some text) = all_valid part text ≡ true

all_valid-take :
    (part k n : ℕ) (text : Bytes)
    → k ≤ n
    → all_valid part (take n text) ≡ true
    → all_valid part (take k text) ≡ true
unfolding all_valid
all_valid-take part zero n text h v = refl
all_valid-take part (suc k) zero text h v = absurd (omega arith)
all_valid-take part (suc k) (suc n) [] h v = refl
all_valid-take part (suc k) (suc n) (c ∷ text) h v =
    ground (arith, v, all_valid-take part k n text (omega arith))

all_valid-drop :
    (part k n from : ℕ) (text : Bytes)
    → k < n
    → all_valid part (take n (drop from text)) ≡ true
    → all_valid part (take k (drop (suc from) text)) ≡ true
unfolding all_valid
all_valid-drop part zero n from text h v = refl
all_valid-drop part (suc k) n from [] h v = refl
all_valid-drop part (suc k) n (suc from) (c ∷ text) h v =
    all_valid-drop part (suc k) n from text h v
all_valid-drop part (suc k) zero zero (c ∷ text) h v = absurd (omega arith)
all_valid-drop part (suc k) (suc n) zero (c ∷ text) h v =
    all_valid-take part (suc k) n text (omega arith) (ground (arith, v))

inner :
    (str : Bytes) (from to part : ℕ)
    → all_valid part (slice str from to) ≡ true
    → 2 ≤ length (slice str from to)
    → all_valid part (take (length (slice str from to) - 2) (drop (from + 1) str)) ≡ true
inner str from to part v h =
    let next : suc from ≡ from + 1 = omega arith in
    subst (λ k. all_valid part (take (length (slice str from to) - 2) (drop k str)) ≡ true) next
      (all_valid-drop part (length (slice str from to) - 2) (to - from) from str
        (omega (arith, length-take (to - from) (drop from str))) v)

part_text-IsChecked :
    (str : Bytes) (m : Marks) (part : ℕ) (text : Bytes)
    → all_valid part (part_of str m part) ≡ true
    → part_text str m part ≡ some text
    → all_valid part text ≡ true
unfolding part_text
part_text-IsChecked str m part text v e =
    let from = get_or m.start_idx part 0 in
    elim (Bool-cases (part == uri_host && get_or str from 0 == b'[')) [
      | inr bare ↦
          let same : part_of str m part ≡ text = ground (arith, e, bare) in
          subst (λ t. all_valid part t ≡ true) same v
      | inl bracket ↦ elim (Bool-cases (ltb (length (part_of str m part)) 2)) [
        | inl short ↦ absurd (ground (arith, e, bracket, short))
        | inr long ↦
            let same : take (length (part_of str m part) - 2) (drop (from + 1) str) ≡ text =
              ground (arith, e, bracket, long) in
            subst (λ t. all_valid part t ≡ true) same
              (inner str from (get_or m.end_idx part 0) part v (ground (arith, long)))
      ]
    ]

-- The four parts that the table covers, as far as the loop has come.
record Stored (part : ℕ) (uri : ParsedUri) : Type 0 where
  scheme : 0 < part → IsChecked 0 uri.scheme
  userinfo : 1 < part → IsChecked 1 uri.userinfo
  host : 2 < part → IsChecked 2 uri.host
  port : 3 < part → IsChecked 3 uri.port

kept :
    {k : ℕ} (n : ℕ) (uri r : ParsedUri)
    → r.scheme ≡ uri.scheme
    → r.userinfo ≡ uri.userinfo
    → r.host ≡ uri.host
    → r.port ≡ uri.port
    → Stored (suc (suc (suc (suc k)))) uri
    → Stored n r
kept n uri r a b c d s = record {
  scheme = λ _. subst (IsChecked 0) (sym a) (s.scheme (omega arith));
  userinfo = λ _. subst (IsChecked 1) (sym b) (s.userinfo (omega arith));
  host = λ _. subst (IsChecked 2) (sym c) (s.host (omega arith));
  port = λ _. subst (IsChecked 3) (sym d) (s.port (omega arith));
}

set_part-Stored :
    (part : ℕ) (text : Option Bytes) (uri : ParsedUri)
    → (part < 4 → IsChecked part text)
    → Stored part uri
    → Stored (suc part) (set_part part text uri)
unfolding set_part
set_part-Stored zero text uri c s = record {
  scheme = λ _. c (omega arith);
  userinfo = λ h. absurd (omega arith);
  host = λ h. absurd (omega arith);
  port = λ h. absurd (omega arith);
}
set_part-Stored (suc zero) text uri c s = record {
  scheme = λ _. s.scheme (omega arith);
  userinfo = λ _. c (omega arith);
  host = λ h. absurd (omega arith);
  port = λ h. absurd (omega arith);
}
set_part-Stored (suc (suc zero)) text uri c s = record {
  scheme = λ _. s.scheme (omega arith);
  userinfo = λ _. s.userinfo (omega arith);
  host = λ _. c (omega arith);
  port = λ h. absurd (omega arith);
}
set_part-Stored (suc (suc (suc zero))) text uri c s = record {
  scheme = λ _. s.scheme (omega arith);
  userinfo = λ _. s.userinfo (omega arith);
  host = λ _. s.host (omega arith);
  port = λ _. c (omega arith);
}
set_part-Stored (suc (suc (suc (suc zero)))) text uri c s =
    kept 5 uri (record uri { query = text }) refl refl refl refl s
set_part-Stored (suc (suc (suc (suc (suc zero))))) text uri c s =
    kept 6 uri (record uri { fragment = text }) refl refl refl refl s
set_part-Stored (suc (suc (suc (suc (suc (suc part)))))) text uri c s =
    kept (suc (suc (suc (suc (suc (suc (suc part))))))) uri (record uri { path = text }) refl refl
      refl refl s

store_part-Stored :
    (alloc : Bool) (errno : ℕ) (str : Bytes) (m : Marks) (part : ℕ) (uri r : ParsedUri)
    → (part < 4 → all_valid part (part_of str m part) ≡ true)
    → Stored part uri
    → store_part alloc errno str m part uri ≡ some (true, r)
    → Stored (suc part) r
unfolding store_part
store_part-Stored alloc errno str m part uri r v s e =
    elim (Bool-cases (ltb (get_or m.start_idx part 0) (get_or m.end_idx part 0))) [
      | inr bare ↦
          let same : set_part part none uri ≡ r = ground (arith, e, bare) in
          subst (Stored (suc part)) same (set_part-Stored part none uri (λ _. tt) s)
      | inl full ↦ elim (Option-cases (part_text str m part)) [
        | inl lost ↦ absurd (ground (arith, e, full, lost))
        | inr (text, found) ↦
            let same : set_part part (some text) uri ≡ r = ground (arith, e, full, found) in
            subst (Stored (suc part)) same (
              set_part-Stored part (some text) uri
                (λ h. part_text-IsChecked str m part text (v h) found) s)
      ]
    ]

store_parts-Stored :
    (alloc : ℕ → Bool) (errno : ℕ) (str : Bytes) (m : Marks) (n part : ℕ) (uri r : ParsedUri)
    → ((k : ℕ) → k < 4 → all_valid k (part_of str m k) ≡ true)
    → Stored part uri
    → store_parts alloc errno str m n part uri ≡ some (true, r)
    → Stored (part + n) r × (r.state ≡ success)
unfolding store_parts
store_parts-Stored alloc errno str m zero part uri r v s e =
    let same : record uri { state = success } ≡ r = ground (arith, e) in
    let at : part ≡ part + zero = omega arith in
    (
      subst (λ k. Stored k r) at
          (subst (Stored part) same
            (record { scheme = s.scheme; userinfo = s.userinfo; host = s.host; port = s.port })),
      ap (λ (u : ParsedUri). u.state) (sym same),
    )
store_parts-Stored alloc errno str m (suc n) part uri r v s e =
    elim (Option-cases (store_part (alloc part) errno str m part uri)) [
      | inl lost ↦ absurd (ground (arith, e, lost))
      | inr ((ok, stored), found) ↦
          by_ok ok stored found (λ u. store_parts-Stored alloc errno str m n (part + 1) u r v)
    ]
  where
    by_ok :
        (ok : Bool) (stored : ParsedUri)
        → store_part (alloc part) errno str m part uri ≡ some (ok, stored)
        → ((u : ParsedUri)
            → Stored (part + 1) u
            → store_parts alloc errno str m n (part + 1) u ≡ some (true, r)
            → Stored ((part + 1) + n) r × (r.state ≡ success))
        → Stored (part + suc n) r × (r.state ≡ success)
    by_ok false stored found again = absurd (ground (arith, e, found))
    by_ok true stored found again =
        let next : suc part ≡ part + 1 = omega arith in
        let sum : (part + 1) + n ≡ part + suc n = omega arith in
        let later =
          again stored
            (subst (λ k. Stored k stored) next
              (store_part-Stored (alloc part) errno str m part uri stored (v part) s found))
            (ground (arith, e, found)) in
        (subst (λ k. Stored k r) sum later.0, later.1)

valid_parts-all :
    (str : Bytes) (m : Marks)
    → valid_parts str m ≡ true
    → (k : ℕ) → k < 4
    → all_valid k (part_of str m k) ≡ true
unfolding valid_parts
valid_parts-all str m v zero h = ground (arith, v)
valid_parts-all str m v (suc zero) h = ground (arith, v)
valid_parts-all str m v (suc (suc zero)) h = ground (arith, v)
valid_parts-all str m v (suc (suc (suc zero))) h = ground (arith, v)
valid_parts-all str m v (suc (suc (suc (suc k)))) h = absurd (omega arith)

-- Where `parse` returns 0, the state is that of success, and the scheme, the user, the host and the
-- port that it stores hold only bytes that the table has for them: a port is all digits.
pub parse-IsChecked :
    (alloc : ℕ → Bool) (errno : ℕ) (str : Bytes) (uri r : ParsedUri)
    → parse alloc errno str uri ≡ some (true, r)
    → (r.state ≡ success)
      × IsChecked uri_scheme r.scheme
      × IsChecked uri_userinfo r.userinfo
      × IsChecked uri_host r.host
      × IsChecked uri_port r.port
unfolding parse
parse-IsChecked alloc errno str uri r e = by_colon (find_colon 0 str) e
  where
    start : ParsedUri
    start = record uri { state = invalid }

    by_colon :
        (colon : Option ℕ)
        → parse_marked alloc errno str start colon ≡ some (true, r)
        → (r.state ≡ success)
          × IsChecked uri_scheme r.scheme
          × IsChecked uri_userinfo r.userinfo
          × IsChecked uri_host r.host
          × IsChecked uri_port r.port
    by_colon none e = absurd (unfold parse_marked in ground (arith, e))
    by_colon (some zero) e = absurd (unfold parse_marked in ground (arith, e))
    by_colon (some (suc k)) e = elim (Bool-cases (valid_parts str (parts_from str (suc k)))) [
      | inr bad ↦ absurd (unfold parse_marked in ground (arith, e, bad))
      | inl good ↦
          let run : store_parts alloc errno str (parts_from str (suc k)) 7 0 start
              ≡ some (true, r) =
            unfold parse_marked in ground (arith, e, good) in
          let (s, state) =
            store_parts-Stored alloc errno str (parts_from str (suc k)) 7 0 start r
              (valid_parts-all str (parts_from str (suc k)) good) nothing run in
          (
            state,
            s.scheme (omega arith),
            s.userinfo (omega arith),
            s.host (omega arith),
            s.port (omega arith),
          )
    ]
      where
        nothing : Stored 0 start
        nothing = record {
          scheme = λ h. absurd (omega arith);
          userinfo = λ h. absurd (omega arith);
          host = λ h. absurd (omega arith);
          port = λ h. absurd (omega arith);
        }

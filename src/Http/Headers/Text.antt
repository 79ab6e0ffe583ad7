-- ===== src/Http/Headers/Text.antt =====
-- The text that one header line of src/protocol/http_parser.c holds, and rewriting its value.
use tinywf.Prelude.{
  ℕ, zero, suc, ◌+◌, ◌≡◌, refl, ap, true, List, [], ◌∷◌, ◌++◌, inl, inr, ltb, arith, length,
  length-append, take, drop, replicate, Bool-cases, if◌then◌else◌,
}
use tinywf.Prelude.Bytes.{Bytes}
use mathlib.Core.List.{append_assoc}
use tinywf.Http.{HeaderLine}
use tinywf.Http.Headers.{colon, crlf, memcpy, line_value, line_name, line_matches, set_line}

take_append {ℓ} : {A : Type ℓ} (xs ys : List A) → take (length xs) (xs ++ ys) ≡ xs
take_append [] ys = refl
take_append (x ∷ xs) ys = ap (◌∷◌ x) (take_append xs ys)

drop_append {ℓ} : {A : Type ℓ} (xs ys : List A) → drop (length xs) (xs ++ ys) ≡ ys
drop_append [] ys = refl
drop_append (x ∷ xs) ys = drop_append xs ys

-- Dropping and taking past a first part of known length.
drop_past {ℓ} :
    {A : Type ℓ} (n k : ℕ) (xs ys : List A) → length xs ≡ n → drop (n + k) (xs ++ ys) ≡ drop k ys
drop_past zero k [] ys h = ap (λ j. drop j ys) (omega arith)
drop_past zero k (x ∷ xs) ys h = absurd (omega arith)
drop_past (suc n) k [] ys h = absurd (omega arith)
drop_past (suc n) k (x ∷ xs) ys h =
    let e : suc n + k ≡ suc (n + k) = omega arith in rw e (drop_past n k xs ys (omega arith))

-- What the allocation of a line holds: name, colon, blank, value, line end, and room to spare.
pub record LineText (line : HeaderLine) (name value : Bytes) : Type 0 where
  pub spare : Bytes
  pub named : line.name_len ≡ length name
  pub valued : line.value_len ≡ length value
  pub text : line.buf ≡ name ++ (colon ++ (value ++ (crlf ++ spare)))

pub LineText-line_name :
    {line : HeaderLine} {name value : Bytes} → LineText line name value → line_name line ≡ name
unfolding line_name
LineText-line_name {line} {name} {value} t = rw (t.named, t.text) (take_append name _)

pub LineText-line_value :
    {line : HeaderLine} {name value : Bytes} → LineText line name value → line_value line ≡ value
unfolding line_value
LineText-line_value {line} {name} {value} t =
    rw (t.valued, t.named, t.text, drop_past (length name) 2 name _ refl)
      (take_append value (crlf ++ t.spare))

memcpy_lem :
    (n : ℕ) (pre post src : Bytes)
    → length pre ≡ n
    → memcpy (pre ++ post) n src ≡ pre ++ (src ++ drop (length src) post)
unfolding memcpy
memcpy_lem n pre post src h =
    rw (← h) (rw (take_append pre post, drop_past (length pre) (length src) pre post refl) refl)

-- The two copies that write a value behind a name of the same length, and close the line.
write_value :
    (name old post value : Bytes)
    → length old ≡ length name
    → memcpy
        (memcpy (old ++ (colon ++ post)) (length name + 2) value)
        (length name + 2 + length value)
        crlf
      ≡ old ++ (colon ++ (value ++ (crlf ++ drop 2 (drop (length value) post))))
write_value name old post value h =
    let front : length (old ++ colon) ≡ length name + 2 = omega (arith, length-append old colon) in
    let behind : length ((old ++ colon) ++ value) ≡ length name + 2 + length value =
      omega (arith, length-append (old ++ colon) value, front) in
    rw (← append_assoc old colon post, memcpy_lem (length name + 2) (old ++ colon) post value front)
      (rw
        (
          ← append_assoc (old ++ colon) value (drop (length value) post),
          memcpy_lem (length name + 2 + length value) ((old ++ colon) ++ value)
              (drop (length value) post) crlf behind,
        )
        (simp append_assoc))

abbrev pub name_after : HeaderLine → Bytes → Bytes → Bytes → Bytes
name_after line old name value = if ltb line.value_len (length value) then name else old

pub set_line-LineText :
    {line : HeaderLine} {old v : Bytes} (name value : Bytes)
    → LineText line old v
    → line_matches name line ≡ true
    → LineText (set_line name value line) (name_after line old name value) value
unfolding set_line line_matches
set_line-LineText {line} {old} {v} name value t m =
    elim (Bool-cases (ltb line.value_len (length value))) [
      | inl longer ↦ record {
        spare = drop 2 (drop (length value) (replicate (length value + 2) 0));
        named = rw longer (ground arith);
        valued = refl;
        text = rw longer (write_value name name (replicate (length value + 2) 0) value refl);
      }
      | inr fits ↦ record {
        spare = drop 2 (drop (length value) (v ++ (crlf ++ t.spare)));
        named = rw fits t.named;
        valued = refl;
        text =
            rw (fits, t.text)
              (write_value name old (v ++ (crlf ++ t.spare)) value (ground (arith, t.named)));
      }
    ]

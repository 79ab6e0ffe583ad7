-- ===== src/HttpUtil/ChunkCursor/Lines.antt =====
-- `strtol` of src/util/HttpUtil.cc reads the body where `strtol` of src/protocol/http_parser.c
-- reads the line alone.
use tinywf.Prelude.{
  ◌≡◌, refl, ◌≢◌, ℕ, ◌+◌, ◌*◌, Bool, true, false, none, some, [], ◌∷◌, ◌++◌, ◌==◌, arith, get_or,
  Bool-cases, inl, inr, ap, sym, subst, ◌∙◌, Option-cases,
}
use mathlib.Core.List.{append_assoc}
use tinywf.Prelude.Bytes.{Bytes}
use tinywf.Http.StartLine
use tinywf.Http.Chunk.{
  hex_digit, hex_digits, is_hex, skip_spaces, take_sign, skip_prefix, strtol, scan_chunk_line,
}
use tinywf.HttpUtil.ChunkCursor.{after_digits, strtol_end, find_return}

find_return-skip_spaces : (xs : Bytes) → find_return xs ≡ none → find_return (skip_spaces xs) ≡ none
unfolding find_return skip_spaces
find_return-skip_spaces [] h = refl
find_return-skip_spaces (x ∷ xs) h = ground (arith, find_return-skip_spaces xs)

find_return-take_sign : (xs : Bytes) → find_return xs ≡ none → find_return (take_sign xs).1 ≡ none
unfolding find_return take_sign
find_return-take_sign [] h = refl
find_return-take_sign (x ∷ xs) h = ground arith

find_return-skip_prefix : (xs : Bytes) → find_return xs ≡ none → find_return (skip_prefix xs) ≡ none
unfolding find_return skip_prefix
find_return-skip_prefix [] h = refl
find_return-skip_prefix (z ∷ []) h = h
find_return-skip_prefix (z ∷ x ∷ []) h = h
find_return-skip_prefix (z ∷ x ∷ d ∷ xs) h = ground arith

find_return-after_digits :
    (xs : Bytes) → find_return xs ≡ none → find_return (after_digits xs) ≡ none
unfolding find_return after_digits
find_return-after_digits [] h = refl
find_return-after_digits (x ∷ xs) h = elim (Option-cases (hex_digit x)) [
  | inl e ↦ ground (arith, e)
  | inr (d, e) ↦ ground (arith, e, find_return-after_digits xs)
]

module _ (rest : Bytes) where
  find_return-append :
      (xs : Bytes) → find_return xs ≡ none → find_return (xs ++ b'\r' ∷ rest) ≡ some (b'\r' ∷ rest)
  unfolding find_return
  find_return-append [] h = refl
  find_return-append (x ∷ xs) h = ground (arith, find_return-append xs)

  hex_digits-append :
      (acc : ℕ) (xs : Bytes) → hex_digits acc (xs ++ b'\r' ∷ rest) ≡ hex_digits acc xs
  unfolding hex_digits
  hex_digits-append acc [] = refl
  hex_digits-append acc (x ∷ xs) = elim (Option-cases (hex_digit x)) [
    | inl e ↦ ground (arith, e)
    | inr (d, e) ↦ ground (arith, e, hex_digits-append (acc * 16 + d) xs)
  ]

  after_digits-append :
      (xs : Bytes) → after_digits (xs ++ b'\r' ∷ rest) ≡ after_digits xs ++ b'\r' ∷ rest
  unfolding after_digits
  after_digits-append [] = refl
  after_digits-append (x ∷ xs) = elim (Option-cases (hex_digit x)) [
    | inl e ↦ ground (arith, e)
    | inr (d, e) ↦ ground (arith, e, after_digits-append xs)
  ]

  skip_spaces-append :
      (xs : Bytes)
      → skip_spaces xs ≢ []
      → skip_spaces (xs ++ b'\r' ∷ rest) ≡ skip_spaces xs ++ b'\r' ∷ rest
  unfolding skip_spaces
  skip_spaces-append [] h = absurd (h refl)
  skip_spaces-append (x ∷ xs) h = ground (arith, skip_spaces-append xs)

  take_sign-append :
      (xs : Bytes)
      → xs ≢ []
      → take_sign (xs ++ b'\r' ∷ rest) ≡ ((take_sign xs).0, (take_sign xs).1 ++ b'\r' ∷ rest)
  unfolding take_sign
  take_sign-append [] h = absurd (h refl)
  take_sign-append (x ∷ xs) h = ground arith

skip_prefix-append :
    (rest xs : Bytes) → xs ≢ [] → skip_prefix (xs ++ b'\r' ∷ rest) ≡ skip_prefix xs ++ b'\r' ∷ rest
unfolding skip_prefix
skip_prefix-append rest [] h = absurd (h refl)
skip_prefix-append [] (z ∷ []) h = ground arith
skip_prefix-append (r ∷ rest) (z ∷ []) h = ground arith
skip_prefix-append rest (z ∷ x ∷ []) h = unfold is_hex hex_digit in ground arith
skip_prefix-append rest (z ∷ x ∷ d ∷ xs) h = ground arith

-- The sign and the digits that `strtol` reads.
abbrev signed : Bytes → Bool × Bytes
signed line = take_sign (skip_spaces line)

abbrev digits : Bytes → Bytes
digits line = skip_prefix (signed line).1

module _ (line rest : Bytes) (hex : is_hex (get_or (digits line) 0 0) ≡ true) where
  digits_some : digits line ≢ []
  digits_some e = unfold is_hex hex_digit in ground (arith, e)

  signed_some : (signed line).1 ≢ []
  signed_some e = digits_some (unfold skip_prefix in rw e refl)

  spaces_some : skip_spaces line ≢ []
  spaces_some e = signed_some (unfold take_sign in rw e refl)

  signed-append : signed (line ++ b'\r' ∷ rest) ≡ ((signed line).0, (signed line).1 ++ b'\r' ∷ rest)
  signed-append =
      rw (skip_spaces-append rest line spaces_some)
        (take_sign-append rest (skip_spaces line) spaces_some)

  digits-append : digits (line ++ b'\r' ∷ rest) ≡ digits line ++ b'\r' ∷ rest
  digits-append = rw signed-append (skip_prefix-append rest (signed line).1 signed_some)

get_or-append : (xs ys : Bytes) → xs ≢ [] → get_or (xs ++ ys) 0 0 ≡ get_or xs 0 0
get_or-append [] ys h = absurd (h refl)
get_or-append (x ∷ xs) ys h = refl

strtol-is_hex :
    (line : Bytes) (n : ℕ) → strtol line ≡ some n → is_hex (get_or (digits line) 0 0) ≡ true
unfolding strtol
strtol-is_hex line n h = elim (Bool-cases (is_hex (get_or (digits line) 0 0))) [
  | inl e ↦ ground (arith, e)
  | inr e ↦ ground (arith, e)
]

-- `strtol` converts a line to the same number when the carriage return and more follow it.
pub strtol-append :
    (line rest : Bytes) (n : ℕ) → strtol line ≡ some n → strtol (line ++ b'\r' ∷ rest) ≡ some n
unfolding strtol
strtol-append line rest n h =
    let hex = strtol-is_hex line n h in
    rw
      (
        digits-append line rest hex,
        signed-append line rest hex,
        get_or-append (digits line) (b'\r' ∷ rest) (digits_some line rest hex),
        hex_digits-append rest 0 (digits line),
      )
      h

pub find_return-strtol_end :
    (line rest : Bytes) (n : ℕ)
    → strtol line ≡ some n
    → find_return line ≡ none
    → find_return (strtol_end (line ++ b'\r' ∷ rest)) ≡ some (b'\r' ∷ rest)
unfolding strtol strtol_end
find_return-strtol_end line rest n h clean =
    let hex = strtol-is_hex line n h in
    let here = find_return-after_digits (digits line) (
      find_return-skip_prefix (signed line).1
        (find_return-take_sign (skip_spaces line) (find_return-skip_spaces line clean))) in
    rw
      (
        digits-append line rest hex,
        get_or-append (digits line) (b'\r' ∷ rest) (digits_some line rest hex),
        hex,
        after_digits-append rest (digits line),
      )
      (find_return-append rest (after_digits (digits line)) here)

find_return-snoc :
    (xs : Bytes) (x : ℕ)
    → find_return xs ≡ none
    → (x == b'\r') ≡ false
    → find_return (xs ++ x ∷ []) ≡ none
unfolding find_return
find_return-snoc [] x h other = ground (arith, other)
find_return-snoc (y ∷ xs) x h other = ground (arith, find_return-snoc xs x)

-- The line that the scan finds ends at the first carriage return.
pub scan_chunk_line-found :
    (i : ℕ) (line xs l : Bytes)
    → find_return line ≡ none
    → scan_chunk_line i line xs ≡ StartLine.found l
    → ((rest : Bytes) × (line ++ xs ≡ l ++ b'\r' ∷ rest)) × (find_return l ≡ none)
unfolding scan_chunk_line
scan_chunk_line-found i line [] l clean h = ground arith
scan_chunk_line-found i line (x ∷ xs) l clean h = elim (Bool-cases (x == b'\r')) [
  | inl e ↦
      let same : line ≡ l = ground (arith, e) in
      let return : x ≡ b'\r' = ground (arith, e) in
      (
        (xs, rw return (ap (λ m. m ++ b'\r' ∷ xs) same)),
        subst (λ m. find_return m ≡ none) same clean,
      )
  | inr e ↦
      let later : scan_chunk_line (i + 1) (line ++ x ∷ []) xs ≡ StartLine.found l =
        ground (arith, e) in
      let (whole, tidy) =
        scan_chunk_line-found (i + 1) (line ++ x ∷ []) xs l (find_return-snoc line x clean e)
          later in
      ((whole.0, sym (append_assoc line (x ∷ []) xs) ∙ whole.1), tidy)
]

-- ===== src/Http/Bounds/Scans.antt =====
-- Where the scans of src/protocol/http_parser.c end inside the bytes that they are given.
use tinywf.Prelude.{
  ℕ, ◌+◌, ◌≡◌, ◌≢◌, Bool, true, [], ◌∷◌, ◌++◌, arith, inl, inr, ◌<◌, ◌≤◌, length, is_nil, set,
  length-append,
}
use tinywf.Prelude.Bytes.{Bytes}
use tinywf.Http.StartLine
use tinywf.Http.StartLine.{scan_start_line, at_crlf}
use tinywf.Http.Name
use tinywf.Http.Name.{scan_name}
use tinywf.Http.Value
use tinywf.Http.Value.{scan_value, value_step}
use tinywf.Http.Chunk
use tinywf.Http.Chunk.{scan_chunk_line, scan_trailer}

pub at_crlf-length : (xs : Bytes) → at_crlf xs ≡ true → 2 ≤ length xs
unfolding at_crlf
at_crlf-length [] h = cc
at_crlf-length (x ∷ []) h = cc
at_crlf-length (x ∷ y ∷ xs) h = omega arith

pub scan_start_line-length :
    (i : ℕ) (line xs l : Bytes)
    → scan_start_line i line xs ≡ StartLine.found l
    → length l + 2 ≤ length line + length xs
unfolding scan_start_line
scan_start_line-length i line [] l h = ground arith
scan_start_line-length i line (x ∷ []) l h =
    ground
      (arith, scan_start_line-length (i + 1) (line ++ x ∷ []) [] l, length-append line (x ∷ []))
scan_start_line-length i line (x ∷ z ∷ xs) l h =
    ground (
      arith,
      scan_start_line-length (i + 1) (line ++ x ∷ []) (z ∷ xs) l,
      length-append line (x ∷ []),
    )

pub scan_chunk_line-length :
    (i : ℕ) (line xs l : Bytes)
    → scan_chunk_line i line xs ≡ StartLine.found l
    → length l + 2 ≤ length line + length xs
unfolding scan_chunk_line
scan_chunk_line-length i line [] l h = ground arith
scan_chunk_line-length i line (x ∷ []) l h =
    ground
      (arith, scan_chunk_line-length (i + 1) (line ++ x ∷ []) [] l, length-append line (x ∷ []))
scan_chunk_line-length i line (x ∷ z ∷ xs) l h =
    ground (
      arith,
      scan_chunk_line-length (i + 1) (line ++ x ∷ []) (z ∷ xs) l,
      length-append line (x ∷ []),
    )

pub scan_trailer-bounds :
    (i : ℕ) (xs : Bytes) (j : ℕ)
    → scan_trailer i xs ≡ Chunk.ended j
    → (i ≤ j) × (j + 2 ≤ i + length xs)
unfolding scan_trailer
scan_trailer-bounds i [] j h = ground arith
scan_trailer-bounds i (x ∷ []) j h = ground (arith, scan_trailer-bounds (i + 1) [] j)
scan_trailer-bounds i (x ∷ z ∷ xs) j h = ground (arith, scan_trailer-bounds (i + 1) (z ∷ xs) j)

pub scan_name-bounds :
    (i : ℕ) (namebuf xs : Bytes) (j : ℕ) (written : Bytes)
    → scan_name i namebuf xs ≡ Name.found j written
    → (i ≤ j) × (j < i + length xs) × (i ≤ 64 → j < 64)
unfolding scan_name
scan_name-bounds i namebuf [] j written h = ground arith
scan_name-bounds i namebuf (x ∷ xs) j written h =
    ground (arith, scan_name-bounds (i + 1) (set namebuf i x) xs j written)

pub scan_value-bounds :
    (m : Value.Mode) (k : ℕ) (text xs : Bytes) (j : ℕ) (value : Bytes)
    → scan_value m k text xs ≡ Value.ValueScan.found j value
    → (k ≤ j) × (j < k + length xs)
unfolding scan_value
scan_value-bounds m k text [] j value h = cc
scan_value-bounds m k text (x ∷ xs) j value h =
    elim (Value.next-cases (value_step m x (is_nil xs) text)) [
      | inl stopped ↦ ground (arith, stopped)
      | inr (m', t', e) ↦
          let ih = scan_value-bounds m' (k + 1) t' xs j value (rw (e, scan_value) at h) in
          omega arith
    ]

value_step-skip :
    (c : ℕ) (last : Bool) (text : Bytes) → value_step Value.skip c last text ≢ Value.finish
unfolding value_step
value_step-skip c last text h = ground arith

-- A value is found behind its first byte.
pub scan_value-moves :
    (k : ℕ) (text xs : Bytes) (j : ℕ) (value : Bytes)
    → scan_value Value.skip k text xs ≡ Value.ValueScan.found j value
    → k < j
unfolding scan_value
scan_value-moves k text [] j value h = cc
scan_value-moves k text (x ∷ xs) j value h =
    elim (Value.next-cases (value_step Value.skip x (is_nil xs) text)) [
      | inl stopped ↦ ground (arith, stopped, value_step-skip x (is_nil xs) text)
      | inr (m', t', e) ↦
          let ih = scan_value-bounds m' (k + 1) t' xs j value (rw (e, scan_value) at h) in
          omega arith
    ]

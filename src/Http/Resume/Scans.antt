-- ===== src/Http/Resume/Scans.antt =====
-- A scan of src/protocol/http_parser.c that has come to an end comes to the same end when more
-- bytes stand behind.
use tinywf.Prelude.{ℕ, ◌+◌, ◌≡◌, ◌≢◌, refl, true, false, [], ◌∷◌, ◌++◌, arith, ◌⊎◌, inl, inr}
use tinywf.Prelude.Bytes.{Bytes}
use tinywf.Http.StartLine
use tinywf.Http.StartLine.{scan_start_line, at_crlf}
use tinywf.Http.Value
use tinywf.Http.Value.{scan_value, value_step}
use tinywf.Http.Chunk
use tinywf.Http.Chunk.{scan_chunk_line, scan_trailer}

pub scan_start_line-append :
    (i : ℕ) (line xs ys : Bytes)
    → scan_start_line i line xs ≢ StartLine.incomplete
    → scan_start_line i line (xs ++ ys) ≡ scan_start_line i line xs
unfolding scan_start_line
scan_start_line-append i line [] [] h = refl
scan_start_line-append i line [] (y ∷ ys) h = ground arith
scan_start_line-append i line (x ∷ []) ys h =
    ground (arith, scan_start_line-append (i + 1) (line ++ x ∷ []) [] ys)
scan_start_line-append i line (x ∷ z ∷ xs) ys h =
    ground (arith, scan_start_line-append (i + 1) (line ++ x ∷ []) (z ∷ xs) ys)

pub scan_chunk_line-append :
    (i : ℕ) (line xs ys : Bytes)
    → scan_chunk_line i line xs ≢ StartLine.incomplete
    → scan_chunk_line i line (xs ++ ys) ≡ scan_chunk_line i line xs
unfolding scan_chunk_line
scan_chunk_line-append i line [] [] h = refl
scan_chunk_line-append i line [] (y ∷ ys) h = ground arith
scan_chunk_line-append i line (x ∷ []) ys h =
    ground (arith, scan_chunk_line-append (i + 1) (line ++ x ∷ []) [] ys)
scan_chunk_line-append i line (x ∷ z ∷ xs) ys h =
    ground (arith, scan_chunk_line-append (i + 1) (line ++ x ∷ []) (z ∷ xs) ys)

pub scan_trailer-append :
    (i : ℕ) (xs ys : Bytes)
    → scan_trailer i xs ≢ Chunk.partial
    → scan_trailer i (xs ++ ys) ≡ scan_trailer i xs
unfolding scan_trailer
scan_trailer-append i [] [] h = refl
scan_trailer-append i [] (y ∷ ys) h = ground arith
scan_trailer-append i (x ∷ []) ys h = ground (arith, scan_trailer-append (i + 1) [] ys)
scan_trailer-append i (x ∷ z ∷ xs) ys h = ground (arith, scan_trailer-append (i + 1) (z ∷ xs) ys)

-- The flag for the last byte matters only where the scan stops for want of bytes.
value_step-last :
    (m : Value.Mode) (c : ℕ) (text : Bytes)
    → (value_step m c true text ≡ Value.stop_incomplete)
      ⊎ (value_step m c false text ≡ value_step m c true text)
unfolding value_step
value_step-last Value.skip c text = ground arith
value_step-last _ c text = ground arith

pub scan_value-append :
    (m : Value.Mode) (k : ℕ) (text xs ys : Bytes)
    → scan_value m k text xs ≢ Value.ValueScan.incomplete
    → scan_value m k text (xs ++ ys) ≡ scan_value m k text xs
unfolding scan_value
scan_value-append m k text [] ys h = absurd (h refl)
scan_value-append m k text (x ∷ []) [] h = refl
scan_value-append m k text (x ∷ []) (y ∷ ys) h = ground (arith, value_step-last m x text)
scan_value-append m k text (x ∷ z ∷ xs) ys h = elim (Value.next-cases (value_step m x false text)) [
  | inl stopped ↦ ground (arith, stopped)
  | inr (m', t', e) ↦
      rw (e, scan_value) (scan_value-append m' (k + 1) t' (z ∷ xs) ys (rw (e, scan_value) at h))
]

-- ===== src/Http/Value.antt =====
-- `__parse_header_value` of src/protocol/http_parser.c, with the folded lines.
use tinywf.Prelude.{
  ◌≡◌, refl, ◌⊎◌, inl, inr, ℕ, ◌+◌, Bool, ◌&&◌, ◌||◌, [], ◌∷◌, ◌++◌, ◌==◌, if◌then◌else◌, is_nil,
  length,
}
use tinywf.Prelude.Bytes.{Bytes, c_str}
use tinywf.Http.{Parser, Status, more, wait, nomem, malformed, header_value_max, header_name}
use tinywf.Http.Headers.{add_header}
use tinywf.Http.Name.{is_not_text}

unfoldable pub is_blank : ℕ → Bool
is_blank c = c == b' ' || c == b'\t'

-- The loops: over leading blanks, over the text, at the line feed, and at the byte behind it.
pub data Mode : Type 0 where
  skip read feed fold : Mode

-- What one byte leads to.
pub data ValueStep : Type 0 where
  stop_incomplete stop_invalid finish : ValueStep
  next : Mode → Bytes → ValueStep

-- The second inner loop at the byte `c`; `last` says that no byte is behind it.
read_step : ℕ → Bool → Bytes → ValueStep
unfolding is_not_text
read_step c last text =
    if length text == header_value_max
    then stop_invalid
    else if last
    then stop_incomplete
    else if c == b'\r'
    then next feed text
    else if is_not_text c
    then stop_invalid
    else next read (text ++ c ∷ [])

-- `while (i > 0)`: the blanks at the end of the text go.
unfoldable pub trim_end : Bytes → Bytes
unfolding is_blank
trim_end [] = []
trim_end (c ∷ text) = let rest = trim_end text in if is_nil rest && is_blank c then [] else c ∷ rest

unfoldable pub value_step : Mode → ℕ → Bool → Bytes → ValueStep
unfolding read_step is_blank
value_step skip c last text = if is_blank c then next skip text else read_step c last text
value_step read c last text = read_step c last text
value_step feed c last text = if c == b'\n' then next fold text else stop_invalid
value_step fold c last text = if is_blank c then next skip (trim_end text ++ b' ' ∷ []) else finish

-- The cases of a step, for proofs that go on with the next byte.
pub next-cases :
    (r : ValueStep)
    → ((r ≡ stop_incomplete) ⊎ (r ≡ stop_invalid) ⊎ (r ≡ finish))
      ⊎ ((m : Mode) × (text : Bytes) × (r ≡ next m text))
next-cases stop_incomplete = inl (inl refl)
next-cases stop_invalid = inl (inr (inl refl))
next-cases finish = inl (inr (inr refl))
next-cases (next m text) = inr (m, text, refl)

pub data ValueScan : Type 0 where
  incomplete invalid : ValueScan
  found : ℕ → Bytes → ValueScan

pub ValueScan-cases :
    (r : ValueScan)
    → ((r ≡ incomplete) ⊎ (r ≡ invalid)) ⊎ ((k : ℕ) × (text : Bytes) × (r ≡ found k text))
ValueScan-cases incomplete = inl (inl refl)
ValueScan-cases invalid = inl (inr refl)
ValueScan-cases (found k text) = inr (k, text, refl)

-- The outer loop; `k` is `ptr - begin`. The code returns 0 wherever the bytes end.
unfoldable pub scan_value : Mode → ℕ → Bytes → Bytes → ValueScan
unfolding value_step
scan_value m k text [] = incomplete
scan_value m k text (c ∷ rest) = elim (value_step m c (is_nil rest) text) [
  | stop_incomplete ↦ incomplete
  | stop_invalid ↦ invalid
  | finish ↦ found k (trim_end text)
  | next m' text' ↦ scan_value m' (k + 1) text' rest
]

unfoldable pub moved : ℕ → Status × Parser → Status × Parser
moved k (more, q) =
    (more, record q { header_offset = q.header_offset + k; header_state = header_name })
moved k (s, q) = (nomem, q)

unfoldable pub scanned_value : Bool → ValueScan → Parser → Status × Parser
unfolding moved
scanned_value alloc incomplete p = (wait, p)
scanned_value alloc invalid p = (malformed, p)
scanned_value alloc (found k text) p = moved k (add_header alloc (c_str p.namebuf) text p)

unfoldable pub parse_header_value : Bool → Bytes → Parser → Status × Parser
unfolding scanned_value scan_value
parse_header_value alloc ptr p = scanned_value alloc (scan_value skip 0 [] ptr) p

-- ===== src/Http/Chunk.antt =====
-- `__parse_chunk_data`, `__parse_trailer_part` and `__parse_chunk` of src/protocol/http_parser.c,
-- with the `strtol` that they call.
use tinywf.Prelude.{
  ◌≡◌, refl, ◌⊎◌, inl, inr, ℕ, zero, suc, ◌+◌, ◌-◌, ◌*◌, ◌%◌, ◌^◌, Bool, true, false, ◌&&◌, ◌||◌,
  Option, none, some, [], ◌∷◌, ◌++◌, ◌==◌, ltb, leb, if◌then◌else◌, is_nil, get_or, length, drop,
  min,
}
use tinywf.Prelude.Bytes.{Bytes}
use tinywf.Http.StartLine.{LineScan, incomplete, invalid, found}
use tinywf.Http.{
  Parser, Status, more, wait, nomem, malformed, chunk_line_max, trailer_line_max, chunk_data,
  trailer_part, chunk_complete, is_chunk_complete, ChunkState,
}

abbrev pub chunk_size_max : ℕ
chunk_size_max = 2 * 1024 * 1024 * 1024 - chunk_line_max - 4

-- `isspace` in the C locale
unfoldable pub is_space : ℕ → Bool
is_space c = c == b' ' || (leb 9 c && leb c 13)

-- The value of a hexadecimal digit.
unfoldable pub hex_digit : ℕ → Option ℕ
hex_digit c =
    if leb b'0' c && leb c b'9'
    then some (c - b'0')
    else if leb b'a' c && leb c b'f'
    then some (c - b'a' + 10)
    else if leb b'A' c && leb c b'F'
    then some (c - b'A' + 10)
    else none

-- The number that the digits in front spell, after `acc`.
unfoldable pub hex_digits : ℕ → Bytes → ℕ
unfolding hex_digit
hex_digits acc [] = acc
hex_digits acc (c ∷ cs) = elim (hex_digit c) [ none ↦ acc | some d ↦ hex_digits (acc * 16 + d) cs ]

unfoldable pub skip_spaces : Bytes → Bytes
unfolding is_space
skip_spaces [] = []
skip_spaces (c ∷ cs) = let rest = skip_spaces cs in if is_space c then rest else c ∷ cs

-- A sign in front, and whether it was a minus.
unfoldable pub take_sign : Bytes → Bool × Bytes
take_sign [] = (false, [])
take_sign (c ∷ cs) =
    if c == b'-' then (true, cs) else if c == b'+' then (false, cs) else (false, c ∷ cs)

unfoldable pub is_hex : ℕ → Bool
unfolding hex_digit
is_hex c = elim (hex_digit c) [ none ↦ false | some d ↦ true ]

-- `0x` goes if a digit is behind it.
unfoldable pub skip_prefix : Bytes → Bytes
unfolding is_hex
skip_prefix (z ∷ x ∷ d ∷ cs) =
    if z == b'0' && ((x == b'x' || x == b'X') && is_hex d) then d ∷ cs else z ∷ x ∷ d ∷ cs
skip_prefix cs = cs

-- `(unsigned long)strtol(line, &end, 16)`, with `none` for `end == line`.
unfoldable pub strtol : Bytes → Option ℕ
unfolding skip_spaces take_sign skip_prefix is_hex hex_digits
strtol line =
    let (negative, signed) = take_sign (skip_spaces line) in
    let digits = skip_prefix signed in
    if is_hex (get_or digits 0 0)
    then (if negative
        then some ((2 ^ 64 - min (hex_digits 0 digits) (2 ^ 63)) % 2 ^ 64)
        else some (min (hex_digits 0 digits) (2 ^ 63 - 1)))
    else none

-- The `for` loop of `__parse_chunk_data` at the byte `i`; `line` holds the bytes before it.
unfoldable pub scan_chunk_line : ℕ → Bytes → Bytes → LineScan
scan_chunk_line i line [] = if i == chunk_line_max then invalid else incomplete
scan_chunk_line i line (c ∷ rest) =
    let later = scan_chunk_line (i + 1) (line ++ c ∷ []) rest in
    if i == chunk_line_max
    then invalid
    else if c == b'\r'
    then (if is_nil rest
        then incomplete
        else if get_or rest 0 0 == b'\n'
        then found line
        else invalid)
    else later

-- The size of a chunk whose line has `i` bytes, with `len` bytes at hand.
unfoldable pub sized_chunk : ℕ → ℕ → Option ℕ → Parser → Status × Parser
sized_chunk len i none p = (malformed, p)
sized_chunk len i (some n) p =
    if n == 0
    then (more, record p { chunk_offset = p.chunk_offset + (i + 2); chunk_state = trailer_part })
    else if ltb n chunk_size_max
    then (if ltb len (n + (i + 4))
        then (wait, p)
        else (more, record p { chunk_offset = p.chunk_offset + (n + (i + 4)) }))
    else (malformed, p)

unfoldable pub scanned_chunk : ℕ → LineScan → Parser → Status × Parser
unfolding sized_chunk strtol
scanned_chunk len incomplete p = (wait, p)
scanned_chunk len invalid p = (malformed, p)
scanned_chunk len (found line) p = sized_chunk len (length line) (strtol line) p

unfoldable pub parse_chunk_data : Bytes → Parser → Status × Parser
unfolding scanned_chunk scan_chunk_line
parse_chunk_data ptr p = scanned_chunk (length ptr) (scan_chunk_line 0 [] ptr) p

-- The `for` loop of `__parse_trailer_part`: the number of bytes before the carriage return.
pub data TrailerScan : Type 0 where
  partial broken : TrailerScan
  ended : ℕ → TrailerScan

pub TrailerScan-cases :
    (r : TrailerScan) → ((r ≡ partial) ⊎ (r ≡ broken)) ⊎ ((i : ℕ) × (r ≡ ended i))
TrailerScan-cases partial = inl (inl refl)
TrailerScan-cases broken = inl (inr refl)
TrailerScan-cases (ended i) = inr (i, refl)

unfoldable pub scan_trailer : ℕ → Bytes → TrailerScan
scan_trailer i [] = if i == trailer_line_max then broken else partial
scan_trailer i (c ∷ rest) =
    let later = scan_trailer (i + 1) rest in
    if i == trailer_line_max
    then broken
    else if c == b'\r'
    then (if is_nil rest then partial else if get_or rest 0 0 == b'\n' then ended i else broken)
    else later

unfoldable pub scanned_trailer : TrailerScan → Parser → Status × Parser
scanned_trailer partial p = (wait, p)
scanned_trailer broken p = (malformed, p)
scanned_trailer (ended i) p = (
  more,
  record p {
    chunk_offset = p.chunk_offset + (i + 2);
    chunk_state = if i == 0 then chunk_complete else p.chunk_state;
  },
)

unfoldable pub parse_trailer_part : Bytes → Parser → Status × Parser
unfolding scanned_trailer scan_trailer
parse_trailer_part ptr p = scanned_trailer (scan_trailer 0 ptr) p

-- One round of the `do` loop of `__parse_chunk`.
unfoldable pub in_chunk : ChunkState → Bytes → Parser → Status × Parser
unfolding parse_chunk_data parse_trailer_part
in_chunk chunk_data ptr p = parse_chunk_data ptr p
in_chunk _ ptr p = parse_trailer_part ptr p

unfoldable pub chunk_step : Bytes → Parser → Status × Parser
unfolding in_chunk
chunk_step message p = in_chunk p.chunk_state (drop p.chunk_offset message) p

-- `while (ret > 0)` on fuel; `none` means that it ran out.
unfoldable pub chunk_loop : ℕ → Bytes → Parser → Option (Status × Parser)
chunk_loop zero message p = none
chunk_loop (suc fuel) message p =
    let (s, q) = chunk_step message p in
    let again = chunk_loop fuel message q in
    elim s [
      | more ↦ if is_chunk_complete q.chunk_state then some (more, q) else again
      | wait ↦ some (wait, q)
      | nomem ↦ some (nomem, q)
      | malformed ↦ some (malformed, q)
    ]

unfoldable pub parse_chunk : Bytes → Parser → Option (Status × Parser)
unfolding chunk_loop
parse_chunk message p = chunk_loop (suc (length message - p.chunk_offset)) message p

-- ===== src/Http/Name.antt =====
-- `__parse_header_name` of src/protocol/http_parser.c.
use tinywf.Prelude.{
  ℕ, ◌+◌, ◌≡◌, refl, ◌⊎◌, inl, inr, Bool, ◌||◌, [], ◌∷◌, ◌==◌, leb, if◌then◌else◌, set,
}
use tinywf.Prelude.Bytes.{Bytes}
use tinywf.Http.{
  Parser, Status, more, wait, malformed, header_name_max, header_value, header_complete,
}
use tinywf.Http.StartLine.{at_crlf}

-- `(signed char)c <= 0`
unfoldable pub is_not_text : ℕ → Bool
is_not_text c = c == 0 || leb 128 c

-- What the scan for the colon comes to, with the array that it has written.
pub data NameScan : Type 0 where
  incomplete invalid : Bytes → NameScan
  found : ℕ → Bytes → NameScan

pub NameScan-cases :
    (r : NameScan)
    → ((namebuf : Bytes) × (r ≡ incomplete namebuf))
      ⊎ ((namebuf : Bytes) × (r ≡ invalid namebuf))
      ⊎ ((i : ℕ) × (namebuf : Bytes) × (r ≡ found i namebuf))
NameScan-cases (incomplete namebuf) = inl (namebuf, refl)
NameScan-cases (invalid namebuf) = inr (inl (namebuf, refl))
NameScan-cases (found i namebuf) = inr (inr (i, namebuf, refl))

-- The `for` loop at the byte `i`.
unfoldable pub scan_name : ℕ → Bytes → Bytes → NameScan
unfolding is_not_text
scan_name i namebuf [] = if i == header_name_max then invalid namebuf else incomplete namebuf
scan_name i namebuf (c ∷ rest) =
    let later = scan_name (i + 1) (set namebuf i c) rest in
    if i == header_name_max
    then invalid namebuf
    else if c == b':'
    then found i (set namebuf i 0)
    else if is_not_text c
    then invalid namebuf
    else later

unfoldable pub scanned_name : NameScan → Parser → Status × Parser
scanned_name (incomplete namebuf) p = (wait, record p { namebuf = namebuf })
scanned_name (invalid namebuf) p = (malformed, record p { namebuf = namebuf })
scanned_name (found i namebuf) p = (
  more,
  record p {
    namebuf = namebuf;
    header_offset = p.header_offset + i + 1;
    header_state = header_value;
  },
)

unfoldable pub parse_header_name : Bytes → Parser → Status × Parser
unfolding scanned_name scan_name at_crlf
parse_header_name ptr p =
    let scanned = scanned_name (scan_name 0 p.namebuf ptr) p in
    if at_crlf ptr
    then (more, record p { header_offset = p.header_offset + 2; header_state = header_complete })
    else scanned

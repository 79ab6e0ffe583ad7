-- ===== src/Http/Header.antt =====
-- `__parse_message_header` of src/protocol/http_parser.c. `alloc` gives, at each offset, whether
-- the allocations of the round that begins there succeed.
use tinywf.Prelude.{ℕ, zero, suc, ◌-◌, Bool, Option, none, some, if◌then◌else◌, length, drop}
use tinywf.Prelude.Bytes.{Bytes}
use tinywf.Http.{
  Parser, HeaderState, start_line, header_value, is_complete, Status, more, wait, nomem, malformed,
}
use tinywf.Http.StartLine.{parse_start_line}
use tinywf.Http.Name.{parse_header_name}
use tinywf.Http.Value.{parse_header_value}

unfoldable pub in_header : HeaderState → Bool → Bytes → Parser → Status × Parser
unfolding parse_start_line parse_header_name parse_header_value
in_header start_line alloc ptr p = parse_start_line alloc ptr p
in_header header_value alloc ptr p = parse_header_value alloc ptr p
in_header _ alloc ptr p = parse_header_name ptr p

-- One round of the `do` loop.
unfoldable pub header_step : (ℕ → Bool) → Bytes → Parser → Status × Parser
unfolding in_header
header_step alloc message p =
    in_header p.header_state (alloc p.header_offset) (drop p.header_offset message) p

-- `while (ret > 0)` on fuel; `none` means that it ran out.
unfoldable pub header_loop : (ℕ → Bool) → ℕ → Bytes → Parser → Option (Status × Parser)
header_loop alloc zero message p = none
header_loop alloc (suc fuel) message p =
    let (s, q) = header_step alloc message p in
    let again = header_loop alloc fuel message q in
    elim s [
      | more ↦ if is_complete q.header_state then some (more, q) else again
      | wait ↦ some (wait, q)
      | nomem ↦ some (nomem, q)
      | malformed ↦ some (malformed, q)
    ]

unfoldable pub parse_message_header : (ℕ → Bool) → Bytes → Parser → Option (Status × Parser)
unfolding header_loop
parse_message_header alloc message p =
    header_loop alloc (suc (length message - p.header_offset)) message p

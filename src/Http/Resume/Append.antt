-- ===== src/Http/Resume/Append.antt =====
-- `http_parser_append_message` of src/protocol/http_parser.c over a message that comes in pieces.
use tinywf.Prelude.{
  ℕ, ◌+◌, ◌≡◌, ap, ◌∙◌, Bool, true, false, ◌++◌, arith, ◌≤◌, length, if◌then◌else◌, some, Option,
}
use mathlib.Core.Option
use tinywf.Prelude.Bytes.{Bytes}
use tinywf.Http.{Parser, Status, more, is_complete, size_max}
use tinywf.Http.Header.{parse_message_header}
use tinywf.Http.Append.{
  append_message, reserve, reserved, after_header, header_phase, header_result, header_done,
}
use tinywf.Http.Frame.{with_buffer}
use tinywf.Http.Resume.Steps.{shown}
use tinywf.Http.Resume.Reserve.{grown, reserve-grown}
use tinywf.Http.Resume.Body.{ending}

-- A call that finds memory, seen as its two phases on a parser that has received the bytes.
abbrev pub received : Bytes → Parser → Parser
received buf p =
    with_buffer (p.msgbuf ++ buf) (p.msgsize + length buf) (grown p (length buf)) p.complete p

pub append_message-received :
    (alloc : ℕ → Bool) (buf : Bytes) (p : Parser)
    → p.complete ≡ false
    → append_message true alloc buf p
      ≡ after_header (length buf) (header_phase alloc (received buf p))
unfolding append_message
append_message-received alloc buf p h =
    ap (λ c. if c then some (more, 0, p) else reserved alloc buf p (reserve true (length buf) p)) h
    ∙ ap (reserved alloc buf p) (reserve-grown p (length buf))

-- The header phase where the header is complete, and where it is not.
pub header_phase_complete :
    (alloc : ℕ → Bool) (x : Parser)
    → is_complete x.header_state ≡ true
    → header_phase alloc x ≡ some (more, x)
unfolding header_phase
header_phase_complete alloc x h = ground (arith, h)

pub header_phase-open :
    (alloc : ℕ → Bool) (x : Parser) (r : Status × Parser)
    → is_complete x.header_state ≡ false
    → parse_message_header alloc x.msgbuf x ≡ some r
    → header_phase alloc x ≡ some (header_result r)
unfolding header_phase
header_phase-open alloc x r h e = ground (arith, h, e)

abbrev pub shown_ending : Option (Status × ℕ × Parser) → Option (Status × Parser)
shown_ending r = Option.map (λ (x : Status × Parser). (x.0, shown x.1)) (ending r)

pub header_done-chunk :
    (len : ℕ) (h : Parser)
    → h.header_offset ≤ len
    → (header_done h).transfer_length ≡ size_max
    → (header_done h).chunked ≡ true
    → (header_done h).chunk_offset ≤ len
unfolding header_done
header_done-chunk len h o t c = ground arith

pub header_done-state : (h : Parser) → (header_done h).header_state ≡ h.header_state
unfolding header_done
header_done-state h = ground arith

pub header_done-buffer :
    (h : Parser)
    → ((header_done h).msgbuf ≡ h.msgbuf)
      × ((header_done h).msgsize ≡ h.msgsize)
      × ((header_done h).bufsize ≡ h.bufsize)
      × ((header_done h).complete ≡ h.complete)
unfolding header_done
header_done-buffer h = ground arith

pub header_done-with :
    (m : Bytes) (n k : ℕ) (c : Bool) (h : Parser)
    → header_done (with_buffer m n k c h) ≡ with_buffer m n k c (header_done h)
unfolding header_done
header_done-with m n k c h = ground arith

pub header_done-name :
    (name : Bytes) (h : Parser)
    → header_done (record h { namebuf = name }) ≡ record (header_done h) { namebuf = name }
unfolding header_done
header_done-name name h = ground arith

-- ===== src/Http/Valid/Message.antt =====
-- `http_parser_append_message` of src/protocol/http_parser.c keeps the invariant, and its loops end.
use tinywf.Prelude.{
  ℕ, ◌+◌, ◌^◌, ◌≡◌, refl, sym, subst, ap, ◌∙◌, Bool, true, false, arith, ◌<◌, inl, inr, length,
  some, none, Bool-cases, if◌then◌else◌,
}
use tinywf.Prelude.Bytes.{Bytes}
use tinywf.Http.{Parser, Status, more, wait, nomem, malformed, is_complete, init, size_max}
use tinywf.Http.Append.{append_message, reserve, receive, reserved, after_header, header_phase}
use tinywf.Http.Resume.Reserve.{grown}
use tinywf.Http.Valid.{IsValid, IsLength}
use tinywf.Http.Valid.Body.{body_phase-IsValid, body_phase-total}
use tinywf.Http.Valid.Append.{reserve-cases, receive-IsValid, header_phase-IsValid}

-- `http_parser_init` starts in the invariant.
pub init-IsValid : (is_resp : Bool) (p : Parser) → IsValid (init is_resp p)
unfolding init
init-IsValid is_resp p = record {
  stored = refl;
  room = omega arith;
  header_in = omega arith;
  chunk_in = λ c _ _. cc;
  content = by_kind is_resp;
  transfer = inl refl;
}
  where
    by_kind : (is_resp : Bool) → IsLength (if is_resp then size_max else 0)
    by_kind true = inl refl
    by_kind false = inr (omega arith)

-- What a call reads: the parser that the bytes were copied into.
abbrev filled : Bytes → Parser → Parser
filled buf p = receive buf (record p { bufsize = grown p (length buf) })

append_message-closed :
    (grow : Bool) (alloc : ℕ → Bool) (buf : Bytes) (p : Parser)
    → p.complete ≡ true
    → append_message grow alloc buf p ≡ some (more, 0, p)
unfolding append_message
append_message-closed grow alloc buf p c = ground (arith, c)

append_message-reserved :
    (grow : Bool) (alloc : ℕ → Bool) (buf : Bytes) (p : Parser)
    → p.complete ≡ false
    → append_message grow alloc buf p ≡ reserved alloc buf p (reserve grow (length buf) p)
unfolding append_message
append_message-reserved grow alloc buf p c = ground (arith, c)

append_message-full :
    (grow : Bool) (alloc : ℕ → Bool) (buf : Bytes) (p : Parser)
    → p.complete ≡ false
    → reserve grow (length buf) p ≡ none
    → append_message grow alloc buf p ≡ some (nomem, length buf, p)
unfolding reserved
append_message-full grow alloc buf p c e =
    append_message-reserved grow alloc buf p c ∙ ap (λ r. reserved alloc buf p r) e

append_message-filled :
    (grow : Bool) (alloc : ℕ → Bool) (buf : Bytes) (p : Parser) (res : Status × Parser)
    → p.complete ≡ false
    → reserve grow (length buf) p ≡ some (record p { bufsize = grown p (length buf) })
    → header_phase alloc (filled buf p) ≡ some res
    → append_message grow alloc buf p ≡ after_header (length buf) (some res)
unfolding reserved
append_message-filled grow alloc buf p res c e h =
    append_message-reserved grow alloc buf p c
    ∙ ap (λ r. reserved alloc buf p r) e
    ∙ ap (λ r. after_header (length buf) r) h

-- The outcome of a call, with the invariant.
pub append_message-outcome :
    (grow : Bool) (alloc : ℕ → Bool) (buf : Bytes) (p : Parser)
    → IsValid p
    → p.msgsize + length buf < 2 ^ 63
    → (s : Status) × (n : ℕ) × (q : Parser) × (append_message grow alloc buf p ≡ some (s, n, q))
      × IsValid q
unfolding receive
append_message-outcome grow alloc buf p v b = elim (Bool-cases p.complete) [
  | inl c ↦ (more, 0, p, append_message-closed grow alloc buf p c, v)
  | inr c ↦ elim (reserve-cases grow (length buf) p) [
    | inl full ↦ (nomem, length buf, p, append_message-full grow alloc buf p c full, v)
    | inr room ↦
        let (s, h, run, w, done, size) =
          header_phase-IsValid alloc (filled buf p) (receive-IsValid buf p v) in
        let step = append_message-filled grow alloc buf p (s, h) c room run in
        let small : h.msgsize < 2 ^ 63 = omega (arith, size, b) in after s h step w done small
  ]
]
  where
    after :
        (s : Status) (h : Parser)
        → append_message grow alloc buf p ≡ after_header (length buf) (some (s, h))
        → IsValid h
        → (s ≡ more → is_complete h.header_state ≡ true)
        → h.msgsize < 2 ^ 63
        → (s : Status) × (n : ℕ) × (q : Parser) × (append_message grow alloc buf p ≡ some (s, n, q))
          × IsValid q
    after more h step w done small =
        let c = done refl in
        let ((s, n, q), run) = body_phase-total (length buf) h w c in
        (
          s,
          n,
          q,
          step ∙ (unfold after_header in run),
          body_phase-IsValid (length buf) n h s q w c small run,
        )
    after wait h step w done small = (wait, length buf, h, step ∙ (unfold after_header in refl), w)
    after nomem h step w done small =
        (nomem, length buf, h, step ∙ (unfold after_header in refl), w)
    after malformed h step w done small =
        (malformed, length buf, h, step ∙ (unfold after_header in refl), w)

-- In a valid parser, whatever the bytes and whichever allocations fail, a call of
-- `http_parser_append_message` returns, as long as the bytes received stay below 2^63.
pub append_message-total :
    (grow : Bool) (alloc : ℕ → Bool) (buf : Bytes) (p : Parser)
    → IsValid p
    → p.msgsize + length buf < 2 ^ 63
    → (s : Status) × (n : ℕ) × (q : Parser) × (append_message grow alloc buf p ≡ some (s, n, q))
append_message-total grow alloc buf p v b =
    let (s, n, q, run, _) = append_message-outcome grow alloc buf p v b in (s, n, q, run)

-- A call of `http_parser_append_message` leaves a valid parser valid, whatever it returns, as long as
-- the bytes received stay below 2^63: the buffer holds `msgsize` bytes with room for the byte that
-- ends them, the offsets of header and chunks stand inside, and the lengths read are bounded.
pub append_message-IsValid :
    (grow : Bool) (alloc : ℕ → Bool) (buf : Bytes) (p q : Parser) (s : Status) (n : ℕ)
    → IsValid p
    → p.msgsize + length buf < 2 ^ 63
    → append_message grow alloc buf p ≡ some (s, n, q)
    → IsValid q
append_message-IsValid grow alloc buf p q s n v b e =
    let (s', n', q', run, w) = append_message-outcome grow alloc buf p v b in
    let same : q' ≡ q = cc (sym run ∙ e) in subst IsValid same w

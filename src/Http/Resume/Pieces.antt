-- ===== src/Http/Resume/Pieces.antt =====
-- The calls of `http_parser_append_message` in src/protocol/http_parser.c for the two pieces of a
-- message end as one call for all of it.
use tinywf.Prelude.{ℕ, ◌≡◌, refl, ap, ◌∙◌, true, arith, inl, inr, Option-cases, some}
use mathlib.Core.Option
use tinywf.Prelude.Bytes.{Bytes}
use tinywf.Http.{Parser, Status, more, wait, nomem, malformed, is_complete}
use tinywf.Http.Append.{after_header, header_result, header_done, body_phase}
use tinywf.Http.Resume.Steps.{shown}
use tinywf.Http.Resume.HeaderLoop.{SameResult}
use tinywf.Http.Resume.Body.{ending, body_phase-count, body_phase-name, body_phase-state}
use tinywf.Http.Resume.Append.{shown_ending, header_done-state, header_done-name}

shown-name :
    (name : Bytes) (r : Parser)
    → is_complete r.header_state ≡ true
    → shown (record r { namebuf = name }) ≡ shown r
shown-name name r h = ground arith

-- Parsers that look the same differ in the name's array at most.
shown-eq : (h h' : Parser) → shown h ≡ shown h' → h ≡ record h' { namebuf = h.namebuf }
shown-eq h h' e = ground arith

shown_state : (h h' : Parser) → shown h ≡ shown h' → h.header_state ≡ h'.header_state
shown_state h h' e = ap (λ (r : Parser). r.header_state) e

body_phase-shown :
    (k k' : ℕ) (name : Bytes) (x : Parser)
    → is_complete x.header_state ≡ true
    → shown_ending (body_phase k (record x { namebuf = name })) ≡ shown_ending (body_phase k' x)
body_phase-shown k k' name x h =
    ap (Option.map look)
      (body_phase-name k name x ∙ ap (Option.map rename) (body_phase-count k k' x))
    ∙ unseen
  where
    look : Status × Parser → Status × Parser
    look r = (r.0, shown r.1)

    rename : Status × Parser → Status × Parser
    rename r = (r.0, record r.1 { namebuf = name })

    unseen :
        Option.map look (Option.map rename (ending (body_phase k' x)))
        ≡ Option.map look (ending (body_phase k' x))
    unseen = elim (Option-cases (body_phase k' x)) [
      | inl lost ↦ rw lost refl
      | inr ((s, n, r), got) ↦ rw got (
          ap (λ (q : Parser). some (s, q))
            (shown-name name r (ap is_complete (body_phase-state k' n x s r got) ∙ h)))
    ]

-- Header results that look the same lead to endings that look the same.
pub finish :
    (k k' : ℕ) (s s' : Status) (h h' : Parser)
    → (s' ≡ more → is_complete h'.header_state ≡ true)
    → SameResult (s, h) (s', h')
    → shown_ending (after_header k (some (header_result (s, h))))
      ≡ shown_ending (after_header k' (some (header_result (s', h'))))
unfolding after_header header_result
finish k k' more more h h' c (e, same) =
    let done : header_done h ≡ record (header_done h') { namebuf = h.namebuf } =
      ap header_done (shown-eq h h' same) ∙ header_done-name h.namebuf h' in
    ap (λ x. shown_ending (body_phase k x)) done
    ∙ body_phase-shown k k' h.namebuf (header_done h')
        (ap is_complete (header_done-state h') ∙ c refl)
finish k k' wait wait h h' c (e, same) = ap (λ (q : Parser). some (wait, q)) same
finish k k' nomem nomem h h' c (e, same) = ap (λ (q : Parser). some (nomem, q)) same
finish k k' malformed malformed h h' c (e, same) = ap (λ (q : Parser). some (malformed, q)) same
finish k k' _ _ h h' c (e, same) = cc

-- ===== src/Http/Resume/Header.antt =====
-- The header loop of src/protocol/http_parser.c, taken up again with more of the message.
use tinywf.Prelude.{
  ℕ, ◌≡◌, ◌≢◌, refl, sym, ap, ◌∙◌, Bool, true, false, ◌++◌, arith, ◌≤◌, ◌⊎◌, inl, inr, length, drop,
  drop-append, Bool-cases,
}
use tinywf.Prelude.Bytes.{Bytes}
use tinywf.Http.{
  Parser, HeaderState, start_line, header_name, header_value, header_complete, Status, more, wait,
}
use tinywf.Http.StartLine.{at_crlf, parse_start_line}
use tinywf.Http.Name
use tinywf.Http.Name.{parse_header_name, scan_name}
use tinywf.Http.Value.{parse_header_value}
use tinywf.Http.Header.{header_step, in_header}
use tinywf.Http.Resume.Name.{scan_name-again}
use tinywf.Http.Resume.Steps.{
  shown, parse_start_line-wait, parse_start_line-append, parse_header_value-wait,
  parse_header_value-append, parse_header_name-append,
}

-- A round leaves the same from `p` and from `q`, or it completes the header from both and what
-- can be seen of the two parsers is the same.
abbrev pub Alike : Status × Parser → Status × Parser → Type 0
Alike r r' =
    (r ≡ r')
    ⊎ ((r.0 ≡ more)
        × (r'.0 ≡ more)
        × (r.1.header_state ≡ header_complete)
        × (r'.1.header_state ≡ header_complete)
        × (shown r.1 ≡ shown r'.1))

-- Where the parser stands did not change.
abbrev pub Stays : Parser → Parser → Type 0
Stays p q = (q.header_state ≡ p.header_state) × (q.header_offset ≡ p.header_offset)

parse_header_name-wait :
    (xs ys : Bytes) (p q : Parser)
    → parse_header_name xs p ≡ (wait, q)
    → Stays p q × Alike (parse_header_name (xs ++ ys) q) (parse_header_name (xs ++ ys) p)
unfolding parse_header_name
parse_header_name-wait xs ys p q h = elim (Bool-cases (at_crlf xs)) [
  | inl crlf ↦ ground (arith, crlf)
  | inr other ↦ elim (Name.NameScan-cases (scan_name 0 p.namebuf xs)) [
    | inr (inl (nb, e)) ↦ ground (arith, e, other)
    | inr (inr (i, nb, e)) ↦ ground (arith, e, other)
    | inl (nb, e) ↦
        let left : q ≡ record p { namebuf = nb } = ground (arith, e, other) in
        rw left ((refl, refl), again nb e (at_crlf (xs ++ ys)) refl)
  ]
]
  where
    again :
        (nb : Bytes)
        → scan_name 0 p.namebuf xs ≡ Name.incomplete nb
        → (b : Bool) → at_crlf (xs ++ ys) ≡ b
        → Alike
            (parse_header_name (xs ++ ys) (record p { namebuf = nb }))
            (parse_header_name (xs ++ ys) p)
    again nb e true c = inr (
      ground (arith, c),
      ground (arith, c),
      ground (arith, c),
      ground (arith, c),
      ground (arith, c),
    )
    again nb e false c = inl (
        rw (c, scan_name-again 0 p.namebuf nb xs ys e)
          (ground (arith, Name.NameScan-cases (scan_name 0 p.namebuf (xs ++ ys)))))

Alike-along : {r r' s s' : Status × Parser} → r ≡ r' → s ≡ s' → Alike r' s' → Alike r s
Alike-along e f h = rw (e, f) h

-- The states in which a round reads a header name.
abbrev reads_name : HeaderState → Bool
reads_name start_line = false
reads_name header_value = false
reads_name _ = true

module _ (alloc : ℕ → Bool) (message : Bytes) (p : Parser) where
  header_step-start_line :
      p.header_state ≡ start_line
      → header_step alloc message p
        ≡ parse_start_line (alloc p.header_offset) (drop p.header_offset message) p
  unfolding header_step
  header_step-start_line e =
      ap (λ s. in_header s (alloc p.header_offset) (drop p.header_offset message) p) e

  header_step-header_value :
      p.header_state ≡ header_value
      → header_step alloc message p
        ≡ parse_header_value (alloc p.header_offset) (drop p.header_offset message) p
  unfolding header_step
  header_step-header_value e =
      ap (λ s. in_header s (alloc p.header_offset) (drop p.header_offset message) p) e

  header_step-name :
      reads_name p.header_state ≡ true
      → header_step alloc message p ≡ parse_header_name (drop p.header_offset message) p
  unfolding header_step
  header_step-name e = in_state p.header_state e
    where
      in_state :
          (s : HeaderState)
          → reads_name s ≡ true
          → in_header s (alloc p.header_offset) (drop p.header_offset message) p
            ≡ parse_header_name (drop p.header_offset message) p
      in_state start_line k = cc
      in_state header_value k = cc
      in_state header_name k = refl
      in_state header_complete k = refl

state-cases : (s : HeaderState) → (s ≡ start_line) ⊎ (s ≡ header_value) ⊎ (reads_name s ≡ true)
state-cases start_line = inl refl
state-cases header_value = inr (inl refl)
state-cases header_name = inr (inr refl)
state-cases header_complete = inr (inr refl)

module _ (alloc : ℕ → Bool) (a b : Bytes) where
  pub header_step-wait :
      (p q : Parser)
      → p.header_offset ≤ length a
      → header_step alloc a p ≡ (wait, q)
      → Stays p q × Alike (header_step alloc (a ++ b) q) (header_step alloc (a ++ b) p)
  header_step-wait p q h e = elim (state-cases p.header_state) [
    | inl st ↦ same (parse_start_line-wait _ _ p q (sym (header_step-start_line alloc a p st) ∙ e))
    | inr (inl st) ↦
        same (parse_header_value-wait _ _ p q (sym (header_step-header_value alloc a p st) ∙ e))
    | inr (inr st) ↦
        let (stays, alike) =
          parse_header_name-wait (drop p.header_offset a) b p q
            (sym (header_step-name alloc a p st) ∙ e) in
        (stays, Alike-along (at q (ap reads_name stays.0 ∙ st) stays.1) (at p st refl) alike)
  ]
    where
      same : q ≡ p → Stays p q × Alike (header_step alloc (a ++ b) q) (header_step alloc (a ++ b) p)
      same k = (
        (ap (λ (r : Parser). r.header_state) k, ap (λ (r : Parser). r.header_offset) k),
        inl (ap (header_step alloc (a ++ b)) k),
      )

      at :
          (r : Parser)
          → reads_name r.header_state ≡ true
          → r.header_offset ≡ p.header_offset
          → header_step alloc (a ++ b) r ≡ parse_header_name (drop p.header_offset a ++ b) r
      at r st o =
          header_step-name alloc (a ++ b) r st
          ∙ ap (λ n. parse_header_name (drop n (a ++ b)) r) o
          ∙ ap (λ t. parse_header_name t r) (drop-append p.header_offset a b h)

  pub header_step-append :
      (p q : Parser) (s : Status)
      → p.header_offset ≤ length a
      → header_step alloc a p ≡ (s, q)
      → s ≢ wait
      → header_step alloc (a ++ b) p ≡ (s, q)
  unfolding header_step
  header_step-append p q s h e n =
      rw (drop-append p.header_offset a b h) (in_state p.header_state e)
    where
      ptr : Bytes
      ptr = drop p.header_offset a

      in_state :
          (st : HeaderState)
          → in_header st (alloc p.header_offset) ptr p ≡ (s, q)
          → in_header st (alloc p.header_offset) (ptr ++ b) p ≡ (s, q)
      in_state start_line e = parse_start_line-append (alloc p.header_offset) ptr b p q s e n
      in_state header_value e = parse_header_value-append (alloc p.header_offset) ptr b p q s e n
      in_state header_name e = parse_header_name-append ptr b p q s e n
      in_state header_complete e = parse_header_name-append ptr b p q s e n

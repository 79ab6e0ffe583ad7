-- ===== src/Http/Resume/HeaderLoop.antt =====
-- `__parse_message_header` of src/protocol/http_parser.c over a message that comes in two pieces.
use tinywf.Prelude.{
  ℕ, zero, suc, ◌-◌, ◌≡◌, ◌≢◌, refl, ap, ◌∙◌, Bool, true, false, ◌++◌, arith, ◌≤◌, inl, inr, length,
  length-append, Bool-cases, some, max,
}
use tinywf.Prelude.Bytes.{Bytes}
use tinywf.Http.{Parser, Status, more, wait, is_complete}
use tinywf.Http.Header.{header_step, header_loop, parse_message_header}
use tinywf.Http.Resume.Steps.{shown}
use tinywf.Http.Resume.Header.{Alike, header_step-wait, header_step-append}
use tinywf.Http.Bounds.Steps.{header_step-Moves, header_step-Stays}
use tinywf.Http.Bounds.Loops.{step-cases, header_loop-more, header_loop-total, header_loop-within}

-- The same status, and parsers that no later call can tell apart.
abbrev pub SameResult : Status × Parser → Status × Parser → Type 0
SameResult r r' = (r.0 ≡ r'.0) × (shown r.1 ≡ shown r'.1)

module _ (alloc : ℕ → Bool) (message : Bytes) where
  loop-Alike :
      (g : ℕ) (p q : Parser) (r : Status × Parser)
      → Alike (header_step alloc message q) (header_step alloc message p)
      → header_loop alloc (suc g) message p ≡ some r
      → (r' : Status × Parser) × (header_loop alloc (suc g) message q ≡ some r') × SameResult r' r
  unfolding header_loop
  loop-Alike g p q r (inl same) e = (r, ground (arith, same), (refl, refl))
  loop-Alike g p q r (inr (m, m', c, c', s)) e =
      ((more, (header_step alloc message q).1), ground arith, (ground arith, ground arith))

module _ (alloc : ℕ → Bool) (a b : Bytes) where
  header_loop-resume :
      (f g : ℕ) (p q : Parser) (r : Status × Parser)
      → p.header_offset ≤ length a
      → header_loop alloc f a p ≡ some (wait, q)
      → header_loop alloc g (a ++ b) p ≡ some r
      → (r' : Status × Parser) × (header_loop alloc g (a ++ b) q ≡ some r') × SameResult r' r
  unfolding header_loop
  header_loop-resume zero g p q r h e k = cc
  header_loop-resume (suc f) zero p q r h e k = cc
  header_loop-resume (suc f) (suc g) p q r h e k = elim (step-cases (header_step alloc a p)) [
    | inr (s, p', step, stop) ↦
        let left : header_step alloc a p ≡ (wait, q) = ground (arith, step, stop) in
        loop-Alike alloc (a ++ b) g p q r (header_step-wait alloc a b p q h left).1 k
    | inl (p', step) ↦ elim (Bool-cases (is_complete p'.header_state)) [
      | inl complete ↦ ground (arith, step, complete)
      | inr partial ↦
          let again = header_step-append alloc a b p p' more h step (λ e. cc) in
          let (r', rest, same) =
            header_loop-resume f g p' q r (header_step-Moves alloc a p p' h step).1
              (ground (arith, step, partial)) (ground (arith, again, partial)) in
          (r', header_loop-more alloc g (suc g) (a ++ b) q r' (omega arith) rest, same)
    ]
  ]

  -- Where a part of the message has left the header open, going on with more of it ends as if all
  -- had been there from the start.
  pub parse_message_header-resume :
      (p q : Parser) (r : Status × Parser)
      → p.header_offset ≤ length a
      → parse_message_header alloc a p ≡ some (wait, q)
      → parse_message_header alloc (a ++ b) p ≡ some r
      → (r' : Status × Parser) × (parse_message_header alloc (a ++ b) q ≡ some r') × SameResult r' r
  unfolding parse_message_header
  parse_message_header-resume p q r h e k =
      let (r', l, same) =
        header_loop-resume (suc (length a - p.header_offset))
          (suc (length (a ++ b) - p.header_offset)) p q r h e k in
      let hq = header_loop-within alloc (suc (length a - p.header_offset)) a p q wait h e in
      let (r2, l2) =
        header_loop-total alloc (suc (length (a ++ b) - q.header_offset)) (a ++ b) q
          (omega (arith, length-append a b)) (omega arith) in
      let top =
        max (suc (length (a ++ b) - p.header_offset)) (suc (length (a ++ b) - q.header_offset)) in
      let up =
        header_loop-more alloc (suc (length (a ++ b) - p.header_offset)) top (a ++ b) q r'
          (omega arith) l in
      let up2 =
        header_loop-more alloc (suc (length (a ++ b) - q.header_offset)) top (a ++ b) q r2
          (omega arith) l2 in
      let eq : r2 ≡ r' = cc in (r', l2 ∙ ap some eq, same)

  -- A header loop that ends on a part of the message ends so on all of it.
  header_loop-append :
      (f : ℕ) (p q : Parser) (s : Status)
      → p.header_offset ≤ length a
      → s ≢ wait
      → header_loop alloc f a p ≡ some (s, q)
      → header_loop alloc f (a ++ b) p ≡ some (s, q)
  unfolding header_loop
  header_loop-append zero p q s h n e = cc
  header_loop-append (suc f) p q s h n e = elim (step-cases (header_step alloc a p)) [
    | inr (t, p', step, stop) ↦
        let t_other : t ≢ wait = ground (arith, step, stop) in
        ground (arith, step, stop, header_step-append alloc a b p p' t h step t_other)
    | inl (p', step) ↦ ground (
      arith,
      step,
      header_step-append alloc a b p p' more h step (λ e. cc),
      header_step-Moves alloc a p p' h step,
      header_loop-append f p' q s,
    )
  ]

  pub parse_message_header-append :
      (p q : Parser) (s : Status)
      → p.header_offset ≤ length a
      → s ≢ wait
      → parse_message_header alloc a p ≡ some (s, q)
      → parse_message_header alloc (a ++ b) p ≡ some (s, q)
  unfolding parse_message_header
  parse_message_header-append p q s h n e =
      header_loop-more alloc (suc (length a - p.header_offset))
        (suc (length (a ++ b) - p.header_offset)) (a ++ b) p (s, q)
        (omega (arith, length-append a b))
        (header_loop-append (suc (length a - p.header_offset)) p q s h n e)

module _ (alloc : ℕ → Bool) (message : Bytes) where
  header_loop_complete :
      (f : ℕ) (p q : Parser)
      → header_loop alloc f message p ≡ some (more, q)
      → is_complete q.header_state ≡ true
  unfolding header_loop
  header_loop_complete zero p q e = cc
  header_loop_complete (suc f) p q e = elim (step-cases (header_step alloc message p)) [
    | inr (t, p', step, stop) ↦ ground (arith, step, stop)
    | inl (p', step) ↦ ground (arith, step, header_loop_complete f p' q)
  ]

  -- `__parse_message_header` returns 1 with the header complete.
  pub parse_message_header_complete :
      (p q : Parser)
      → parse_message_header alloc message p ≡ some (more, q)
      → is_complete q.header_state ≡ true
  unfolding parse_message_header
  parse_message_header_complete p q =
      header_loop_complete (suc (length message - p.header_offset)) p q

  header_loop-open :
      (f : ℕ) (p q : Parser) (s : Status)
      → s ≢ more
      → is_complete p.header_state ≡ false
      → header_loop alloc f message p ≡ some (s, q)
      → is_complete q.header_state ≡ false
  unfolding header_loop
  header_loop-open zero p q s n o e = cc
  header_loop-open (suc f) p q s n o e = elim (step-cases (header_step alloc message p)) [
    | inr (t, p', step, stop) ↦
        let (state, _) = header_step-Stays alloc message p p' t (ground (arith, stop)) step in
        ground (arith, step, stop, state)
    | inl (p', step) ↦ elim (Bool-cases (is_complete p'.header_state)) [
      | inl complete ↦ ground (arith, step, complete)
      | inr partial ↦ header_loop-open f p' q s n partial (ground (arith, step, partial))
    ]
  ]

  -- It returns anything else with the header open.
  pub parse_message_header-open :
      (p q : Parser) (s : Status)
      → s ≢ more
      → is_complete p.header_state ≡ false
      → parse_message_header alloc message p ≡ some (s, q)
      → is_complete q.header_state ≡ false
  unfolding parse_message_header
  parse_message_header-open p q = header_loop-open (suc (length message - p.header_offset)) p q

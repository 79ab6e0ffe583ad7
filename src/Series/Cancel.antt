-- ===== src/Series/Cancel.antt =====
-- A canceled series of src/factory/Workflow.cc: its next pop deletes what is left.
use tinywf.Prelude.{
  ℕ, zero, suc, ◌+◌, ◌≤◌, ◌≡◌, refl, sym, ap, subst, ◌∙◌, true, Option, none, some, List, [], ◌∷◌,
  ◌++◌, arith, if◌then◌else◌, length, length-append, get_or, ◌==◌, Bool-cases, inl, inr,
}
use tinywf.Series.{
  Series, cancel, next_index, pop_task, finish_if_none, finish, delete_tasks, deleted_all, pop,
}
use tinywf.Series.Refine.{Tasks, list_pop, Represents, pop_task-Represents}

-- All tasks, the last one behind the others.
abbrev pub all_tasks : Tasks → List ℕ
all_tasks (xs, none) = xs
all_tasks (xs, some task) = xs ++ task ∷ []

-- How often the callback was called after one more end of the series.
abbrev pub called_again : Series → ℕ
called_again s = if s.callback then s.called + 1 else s.called

-- What popping leaves of the series' callback.
abbrev Popped : Series → Option ℕ × Series → Type 0
Popped s (none, r) = (r.finished ≡ true) × (r.called ≡ called_again s)
Popped s (some task, r) = (r.callback ≡ s.callback) × (r.called ≡ s.called)

pop_task-Popped : (s : Series) → Popped s (pop_task s)
unfolding pop_task
pop_task-Popped s = elim (Bool-cases (s.front == s.back)) [
  | inl e ↦ subst (λ b. Popped s (if b then last else taken)) (sym e) (at_last s.last)
  | inr e ↦ subst (λ b. Popped s (if b then last else taken)) (sym e) (refl, refl)
]
  where
    last : Option ℕ × Series
    last = finish_if_none (s.last, record s { last = none })

    taken : Option ℕ × Series
    taken = (some (get_or s.queue s.front 0), record s { front = next_index s.queue_size s.front })

    at_last : (o : Option ℕ) → Popped s (finish_if_none (o, record s { last = none }))
    at_last none = unfold finish_if_none finish in (refl, refl)
    at_last (some task) = unfold finish_if_none in (refl, refl)

-- What is deleted from a series that holds `t`, and the end that follows.
Drained : ℕ → Series → Tasks → Option ℕ × Series → Type 0
Drained fuel s t p =
    (r : Series) × (delete_tasks fuel p ≡ some (all_tasks t, r))
    × (r.finished ≡ true)
    × (r.called ≡ called_again s)

after_task :
    (fuel : ℕ) (s r : Series) (task : ℕ) (t u : Tasks)
    → all_tasks t ≡ task ∷ all_tasks u
    → Popped s (some task, r)
    → Drained fuel r u (pop_task r)
    → Drained (suc fuel) s t (some task, r)
unfolding Drained delete_tasks
after_task fuel s r task t u same (c, d) (e, run, done, called) = (
  e,
  ap (λ o. elim o [ none ↦ none | some (tasks, q) ↦ some (task ∷ tasks, q) ]) run
      ∙ ap (λ l. some (l, e)) (sym same),
  done,
  called ∙ ground (arith, c, d),
)

nothing_left : (fuel : ℕ) (s r : Series) → Popped s (none, r) → Drained fuel s ([], none) (none, r)
unfolding Drained delete_tasks
nothing_left fuel s r (done, called) = (r, refl, done, called)

all_tasks-cons :
    (y x : ℕ) (ys : List ℕ) (last : Option ℕ)
    → x ≡ y
    → all_tasks (y ∷ ys, last) ≡ x ∷ all_tasks (ys, last)
all_tasks-cons y x ys none e = ap (λ z. z ∷ ys) (sym e)
all_tasks-cons y x ys (some l) e = ap (λ z. z ∷ (ys ++ l ∷ [])) (sym e)

drain :
    (fuel : ℕ) (s : Series) (t : Tasks) (p : Option ℕ × Series)
    → p.0 ≡ (list_pop t).0
    → Represents p.1 (list_pop t).1
    → Popped s p
    → length (all_tasks t) ≤ fuel
    → Drained fuel s t p
drain fuel s ([], none) (none, r) e v w h = nothing_left fuel s r w
drain fuel s ([], none) (some x, r) e v w h = absurd (ground (arith, e))
drain fuel s ([], some l) (none, r) e v w h = absurd (ground (arith, e))
drain fuel s (y ∷ ys, last) (none, r) e v w h = absurd (ground (arith, e))
drain zero s ([], some l) (some x, r) e v w h = absurd (omega arith)
drain (suc fuel) s ([], some l) (some x, r) e v w h =
    let (same, after) = pop_task-Represents r ([], none) v in
    after_task fuel s r x ([], some l) ([], none) (ground (arith, e)) w
      (drain fuel r ([], none) (pop_task r) same after (pop_task-Popped r) (omega arith))
drain zero s (y ∷ ys, none) (some x, r) e v w h = absurd (omega arith)
drain zero s (y ∷ ys, some l) (some x, r) e v w h = absurd (omega arith)
drain (suc fuel) s (y ∷ ys, last) (some x, r) e v w h =
    let (same, after) = pop_task-Represents r (ys, last) v in
    after_task fuel s r x (y ∷ ys, last) (ys, last) (all_tasks-cons y x ys last (ground (arith, e)))
      w
      (drain fuel r (ys, last) (pop_task r) same after (pop_task-Popped r)
        (omega (arith, h, ap length (all_tasks-cons y y ys last refl))))

length-all_tasks : (xs : List ℕ) (last : Option ℕ) → length (all_tasks (xs, last)) ≤ length xs + 1
length-all_tasks xs none = omega arith
length-all_tasks xs (some l) = omega (arith, length-append xs (l ∷ []))

-- A pop of a canceled series returns no task: every task that is left is deleted, in order and the
-- last task at the end, the series is finished, and its callback, if it has one, is called once.
pub pop-canceled :
    (s : Series) (xs : List ℕ) (last : Option ℕ)
    → Represents s (xs, last)
    → s.canceled ≡ true
    → (r : Series) × (pop s ≡ some (none, all_tasks (xs, last), r))
      × (r.finished ≡ true)
      × (r.called ≡ called_again s)
unfolding pop deleted_all Drained
pop-canceled s xs last v c =
    let (same, after) = pop_task-Represents s (xs, last) v in
    let (r, run, done, called) =
      drain (s.queue_size + 1) s (xs, last) (pop_task s) same after (pop_task-Popped s)
        (omega (arith, length-all_tasks xs last, v.0.fits)) in
    (
      r,
      ap
            (λ b.
              if b
              then deleted_all (delete_tasks (s.queue_size + 1) (pop_task s))
              else some ((pop_task s).0, [], (pop_task s).1))
            c
          ∙ ap deleted_all run,
      done,
      called,
    )

-- Canceling leaves the queue as it is.
pub cancel-Represents :
    (s : Series) (xs : List ℕ) (last : Option ℕ)
    → Represents s (xs, last)
    → Represents (cancel s) (xs, last)
unfolding cancel
cancel-Represents s xs last (w, l) = (
  record {
    sized = w.sized;
    front_in = w.front_in;
    fits = w.fits;
    back_at = w.back_at;
    held = w.held;
  },
  l,
)

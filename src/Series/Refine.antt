-- ===== src/Series/Refine.antt =====
-- The queue of a series in src/factory/Workflow.cc against a plain list of tasks.
use tinywf.Prelude.{
  ℕ, ◌≡◌, refl, sym, ap, subst, ◌∙◌, Bool, Option, none, some, List, [], ◌∷◌, ◌++◌, arith,
}
use tinywf.Series.{
  Series, push_front, push_back, pop_task, finish_if_none, finish, set_pointer, set_last_task,
  unset_last_task, expand_if_full, expand_queue, new_series,
}
use tinywf.Series.Holds.{Holds, new_series-Holds}
use tinywf.Series.Push.{push_back-Holds, push_front-Holds, pop_task-first, pop_task-last}

-- What may be done to a series.
pub data Op : Type 0 where
  front_op back_op last_op : ℕ → Op
  unset_op pop_op : Op

-- An operation on a series, with the tasks that it returns.
abbrev pub apply : Op → Series → List (Option ℕ) × Series
apply (front_op task) s = ([], push_front task s)
apply (back_op task) s = ([], push_back task s)
apply (last_op task) s = ([], set_last_task task s)
apply unset_op s = ([], unset_last_task s)
apply pop_op s = let (task, r) = pop_task s in (task ∷ [], r)

abbrev pub run : List Op → Series → List (Option ℕ)
run [] s = []
run (op ∷ ops) s = let (out, r) = apply op s in out ++ run ops r

-- The plain view: the tasks in order, and the last one.
abbrev pub Tasks : Type 0
Tasks = List ℕ × Option ℕ

abbrev pub list_pop : Tasks → Option ℕ × Tasks
list_pop (x ∷ xs, last) = (some x, (xs, last))
list_pop ([], last) = (last, ([], none))

abbrev pub list_apply : Op → Tasks → List (Option ℕ) × Tasks
list_apply (front_op task) (xs, last) = ([], (task ∷ xs, last))
list_apply (back_op task) (xs, last) = ([], (xs ++ task ∷ [], last))
list_apply (last_op task) (xs, last) = ([], (xs, some task))
list_apply unset_op (xs, last) = ([], (xs, none))
list_apply pop_op t = let (task, u) = list_pop t in (task ∷ [], u)

abbrev pub list_run : List Op → Tasks → List (Option ℕ)
list_run [] t = []
list_run (op ∷ ops) t = let (out, u) = list_apply op t in out ++ list_run ops u

-- The series holds these tasks and this last one.
abbrev pub Represents : Series → Tasks → Type 0
Represents s (xs, last) = Holds s xs × (s.last ≡ last)

push_front-last : (task : ℕ) (s : Series) → (push_front task s).last ≡ s.last
unfolding push_front expand_if_full expand_queue
push_front-last task s = ground arith

push_back-last : (task : ℕ) (s : Series) → (push_back task s).last ≡ s.last
unfolding push_back expand_if_full expand_queue
push_back-last task s = ground arith

-- The fields that the queue does not need.
with_rest :
    (pointer : ℕ → ℕ) (last : Option ℕ) (finished deleted : Bool) (called : ℕ) (s : Series)
    (xs : List ℕ)
    → Holds s xs
    → Holds
        (record s {
          pointer = pointer;
          last = last;
          finished = finished;
          deleted = deleted;
          called = called;
        })
        xs
with_rest pointer last finished deleted called s xs w = record {
  sized = w.sized;
  front_in = w.front_in;
  fits = w.fits;
  back_at = w.back_at;
  held = w.held;
}

with_last :
    (o : Option ℕ) (s : Series) (xs : List ℕ) → Holds s xs → Holds (record s { last = o }) xs
with_last o s xs w = with_rest s.pointer o s.finished s.deleted s.called s xs w

finish-Holds : (s : Series) (xs : List ℕ) → Holds s xs → Holds (finish s) xs
finish-Holds s xs w =
    let r = finish s in
    unfold finish in with_rest s.pointer s.last r.finished r.deleted r.called s xs w

finish_if_none-task : (o : Option ℕ) (s : Series) → (finish_if_none (o, s)).0 ≡ o
unfolding finish_if_none
finish_if_none-task none s = refl
finish_if_none-task (some task) s = refl

finish_if_none-Represents :
    (o : Option ℕ) (s : Series)
    → Represents s ([], none)
    → Represents (finish_if_none (o, s)).1 ([], none)
unfolding finish_if_none
finish_if_none-Represents none s (w, l) = (finish-Holds s [] w, unfold finish in l)
finish_if_none-Represents (some task) s r = r

pub pop_task-Represents :
    (s : Series) (t : Tasks)
    → Represents s t
    → ((pop_task s).0 ≡ (list_pop t).0) × Represents (pop_task s).1 (list_pop t).1
pop_task-Represents s (x ∷ xs, last) (w, l) =
    let (r, e, v, k) = pop_task-first s x xs w in
    (
      ap (λ (p : Option ℕ × Series). p.0) e,
      subst (λ (p : Option ℕ × Series). Represents p.1 (xs, last)) (sym e) (v, k ∙ l),
    )
pop_task-Represents s ([], last) (w, l) =
    let e = pop_task-last s w in
    (
      ap (λ (p : Option ℕ × Series). p.0) e
          ∙ finish_if_none-task s.last (record s { last = none })
          ∙ l,
      subst (λ (p : Option ℕ × Series). Represents p.1 ([], none)) (sym e)
          (finish_if_none-Represents s.last (record s { last = none })
            (with_last none s [] w, refl)),
    )

pub apply-Represents :
    (op : Op) (s : Series) (t : Tasks)
    → Represents s t
    → ((apply op s).0 ≡ (list_apply op t).0) × Represents (apply op s).1 (list_apply op t).1
apply-Represents (front_op task) s (xs, last) (w, l) =
    (refl, (push_front-Holds task s xs w, push_front-last task s ∙ l))
apply-Represents (back_op task) s (xs, last) (w, l) =
    (refl, (push_back-Holds task s xs w, push_back-last task s ∙ l))
apply-Represents (last_op task) s (xs, last) (w, l) =
    let pointed = set_pointer task s in
    (
      refl,
      (
        (unfold set_last_task in
            with_rest pointed.pointer (some task) s.finished s.deleted s.called s xs w),
        unfold set_last_task in refl,
      ),
    )
apply-Represents unset_op s (xs, last) (w, l) =
    (refl, ((unfold unset_last_task in with_last none s xs w), unfold unset_last_task in refl))
apply-Represents pop_op s t r = let (e, v) = pop_task-Represents s t r in (ap (λ o. o ∷ []) e, v)

run-Represents :
    (ops : List Op) (s : Series) (t : Tasks) → Represents s t → run ops s ≡ list_run ops t
run-Represents [] s t r = refl
run-Represents (op ∷ ops) s t r =
    let (e, v) = apply-Represents op s t r in
    ap (λ o. o ++ run ops (apply op s).1) e
    ∙ ap (λ l. (list_apply op t).0 ++ l) (run-Represents ops (apply op s).1 (list_apply op t).1 v)

-- A new series is a double-ended queue of tasks with a last task behind it: whatever is pushed at
-- either end, set as the last task or unset, every pop returns the task that a plain list would
-- give, however often the circular queue wraps around or is expanded in between.
pub run-tasks :
    (self first : ℕ) (callback : Bool) (pointer : ℕ → ℕ) (ops : List Op)
    → run ops (new_series self first callback pointer) ≡ list_run ops ([], none)
run-tasks self first callback pointer ops =
    run-Represents ops (new_series self first callback pointer) ([], none)
      (new_series-Holds self first callback pointer, unfold new_series in refl)

-- ===== src/SubTask/Run.antt =====
-- The threads that run the tasks of src/task/SubTask.cc, in any order.
use tinywf.Prelude.{
  ℕ, ◌+◌, ◌-◌, ◌%◌, ◌^◌, ◌<◌, ◌≡◌, ◌↔◌, refl, sym, ap, ◌∙◌, Bool, true, false, Option, none, some,
  List, [], ◌∷◌, ◌++◌, arith, ◌==◌, if◌then◌else◌, length,
}
use tinywf.SubTask.{
  Frame, dispatching, launching, finishing, counting, Tasks, set_parent, set_nleft, remove,
  run_frame, count_down,
}
use tinywf.SubTask.Sums.{
  sum_of, is, frame_task, frame_branch, uses, branches, waits, branches-set_parent, branch_of,
  branch_of-new, sum_of-thread, sum_of-append, sum_of-remove,
}
use tinywf.SubTask.Counted.{
  IsCounted, resume, at_call, dispatch-IsCounted, launch-IsCounted, finish_task-IsCounted,
  count_down-IsCounted,
}

-- A task that a call dispatches next is not in use: a task is used once.
unfoldable pub IsFresh : Frame → Option ℕ → Tasks → Type 0
IsFresh (dispatching t) next s = true ≡ true
IsFresh (launching p []) next s = true ≡ true
IsFresh (launching p (c ∷ cs)) next s = uses c s ≡ 0
IsFresh (finishing t) none s = true ≡ true
IsFresh (finishing t) (some n) s = uses n s ≡ 0
IsFresh (counting p) next s = true ≡ true

-- The calls replace one in its thread.
abbrev pub in_thread :
    List (List Frame) → List (List Frame) → List Frame → List Frame × Tasks → Tasks
in_thread before after rest (calls, s) = record s { threads = before ++ (calls ++ rest) ∷ after }

-- A step: the top call of a thread, the end of what a task did outside, or a new series of tasks.
pub data Step (subtasks : ℕ → Option (List ℕ)) (s : Tasks) : Tasks → Type 0 where
  called :
      (before after : List (List Frame)) (rest : List Frame) (f : Frame) (next : Option ℕ)
      → s.threads ≡ before ++ (f ∷ rest) ∷ after
      → IsFresh f next s
      → Step subtasks s (in_thread before after rest (run_frame subtasks next f s))
  ended :
      (before after : List ℕ) (t : ℕ)
      → s.running ≡ before ++ t ∷ after
      → Step subtasks s
          (record s { threads = (finishing t ∷ []) ∷ s.threads; running = before ++ after })
  started :
      (t : ℕ)
      → uses t s ≡ 0
      → Step subtasks s
          (record (set_parent t none s) { threads = (dispatching t ∷ []) ∷ s.threads })

pub data Steps (subtasks : ℕ → Option (List ℕ)) (s : Tasks) : Tasks → Type 0 where
  nothing : Steps subtasks s s
  then_step : {r q : Tasks} → Steps subtasks s r → Step subtasks r q → Steps subtasks s q

-- Nothing runs.
abbrev pub idle : (ℕ → Option ℕ) → (ℕ → ℕ) → Tasks
idle parent nleft = record {
  parent = parent;
  nleft = nleft;
  threads = [];
  running = [];
  waiting = [];
}

idle-IsCounted :
    (parent : ℕ → Option ℕ) (nleft : ℕ → ℕ)
    → ((p : ℕ) → nleft p < 2 ^ 64)
    → IsCounted (idle parent nleft)
unfolding uses branches waits sum_of
idle-IsCounted parent nleft h = record {
  once = λ t. omega arith;
  counted = λ p. refl;
  some_left = λ p q. absurd (omega (arith, q));
  small = h;
}

-- The sums do not depend on the order of the threads.
reordered :
    (a b : List (List Frame)) (s : Tasks)
    → ((g : Frame → ℕ) → sum_of (sum_of g) a ≡ sum_of (sum_of g) b)
    → IsCounted (record s { threads = a })
    → IsCounted (record s { threads = b })
unfolding uses branches waits
reordered a b s h v = record {
  once = λ t. omega (arith, v.once t, h (frame_task t));
  counted = λ p. omega (arith, v.counted p, h (frame_branch s.parent p));
  some_left = v.some_left;
  small = v.small;
}

uses-reordered :
    (a b : List (List Frame)) (s : Tasks) (t : ℕ)
    → ((g : Frame → ℕ) → sum_of (sum_of g) a ≡ sum_of (sum_of g) b)
    → uses t (record s { threads = a }) ≡ uses t (record s { threads = b })
unfolding uses
uses-reordered a b s t h = omega (arith, h (frame_task t))

same_head : {c d : ℕ} {cs ds : List ℕ} → c ∷ cs ≡ d ∷ ds → c ≡ d
same_head e = ground (arith, e)

same_some : {c d : ℕ} → some c ≡ some d → c ≡ d
same_some e = ground (arith, e)

frame-IsCounted :
    (subtasks : ℕ → Option (List ℕ)) (next : Option ℕ) (f : Frame) (others : List (List Frame))
    (s : Tasks)
    → ((t : ℕ) (cs : List ℕ) → subtasks t ≡ some cs → length cs < 2 ^ 64)
    → IsFresh f next (at_call f others s)
    → IsCounted (at_call f others s)
    → IsCounted (resume others (run_frame subtasks next f s))
unfolding run_frame IsFresh
frame-IsCounted subtasks next (dispatching t) others s b h v =
    dispatch-IsCounted others s (subtasks t) t (b t) v
frame-IsCounted subtasks next (launching p []) others s b h v =
    launch-IsCounted others s p [] (λ c r e. absurd (ground (arith, e))) v
frame-IsCounted subtasks next (launching p (c ∷ cs)) others s b h v =
    launch-IsCounted others s p (c ∷ cs)
      (λ d r e. ap (λ x. uses x (at_call (launching p (c ∷ cs)) others s)) (sym (same_head e)) ∙ h)
      v
frame-IsCounted subtasks none (finishing t) others s b h v =
    finish_task-IsCounted others s t none (λ n e. absurd (ground (arith, e))) v
frame-IsCounted subtasks (some n) (finishing t) others s b h v =
    finish_task-IsCounted others s t (some n)
      (λ m e. ap (λ x. uses x (at_call (finishing t) others s)) (sym (same_some e)) ∙ h) v
frame-IsCounted subtasks next (counting p) others s b h v = count_down-IsCounted others s p v

IsFresh-reordered :
    (a b : List (List Frame)) (s : Tasks) (f : Frame) (n : Option ℕ)
    → ((g : Frame → ℕ) → sum_of (sum_of g) a ≡ sum_of (sum_of g) b)
    → IsFresh f n (record s { threads = a })
    → IsFresh f n (record s { threads = b })
unfolding IsFresh
IsFresh-reordered a b s (dispatching t) n h e = refl
IsFresh-reordered a b s (launching p []) n h e = refl
IsFresh-reordered a b s (launching p (c ∷ cs)) n h e = sym (uses-reordered a b s c h) ∙ e
IsFresh-reordered a b s (finishing t) none h e = refl
IsFresh-reordered a b s (finishing t) (some n) h e = sym (uses-reordered a b s n h) ∙ e
IsFresh-reordered a b s (counting p) n h e = refl

called-IsCounted :
    (subtasks : ℕ → Option (List ℕ)) (s : Tasks) (before after : List (List Frame))
    (rest : List Frame) (f : Frame) (n : Option ℕ)
    → ((t : ℕ) (cs : List ℕ) → subtasks t ≡ some cs → length cs < 2 ^ 64)
    → s.threads ≡ before ++ (f ∷ rest) ∷ after
    → IsFresh f n s
    → IsCounted s
    → IsCounted (in_thread before after rest (run_frame subtasks n f s))
called-IsCounted subtasks s before after rest f n b e h v =
    let others = rest ∷ before ++ after in
    let order : (g : Frame → ℕ)
        → sum_of (sum_of g) s.threads ≡ sum_of (sum_of g) ((f ∷ []) ∷ others) =
      λ g. ap (sum_of (sum_of g)) e ∙ sum_of-thread g before after (f ∷ []) rest in
    let (frames, r) = run_frame subtasks n f s in
    reordered (frames ∷ others) (before ++ (frames ++ rest) ∷ after) r
      (λ g. sym (sum_of-thread g before after frames rest))
      (frame-IsCounted subtasks n f others s b
        (IsFresh-reordered s.threads ((f ∷ []) ∷ others) s f n order h)
        (reordered s.threads ((f ∷ []) ∷ others) s order v))

ended-IsCounted :
    (s : Tasks) (before after : List ℕ) (t : ℕ)
    → s.running ≡ before ++ t ∷ after
    → IsCounted s
    → IsCounted (record s { threads = (finishing t ∷ []) ∷ s.threads; running = before ++ after })
unfolding uses branches waits sum_of frame_task frame_branch
ended-IsCounted s before after t e v =
    let moved : (g : ℕ → ℕ) → sum_of g s.running ≡ g t + sum_of g (before ++ after) = λ g.
      omega (
        arith,
        ap (sum_of g) e,
        sum_of-append g before (t ∷ after),
        sum_of-append g before after,
      ) in
    record {
      once = λ u. omega (arith, v.once u, moved (is u));
      counted = λ q. omega (arith, v.counted q, moved (branch_of s.parent q));
      some_left = v.some_left;
      small = v.small;
    }

started-IsCounted :
    (s : Tasks) (t : ℕ)
    → uses t s ≡ 0
    → IsCounted s
    → IsCounted (record (set_parent t none s) { threads = (dispatching t ∷ []) ∷ s.threads })
unfolding uses branches waits sum_of frame_task frame_branch
started-IsCounted s t e v = record {
  once = λ u. ground (arith, v.once u, e);
  counted = λ q.
      omega (arith, v.counted q, branch_of-new s.parent t none q, branches-set_parent t none s q e);
  some_left = v.some_left;
  small = v.small;
}

step-IsCounted :
    (subtasks : ℕ → Option (List ℕ)) (s r : Tasks)
    → ((t : ℕ) (cs : List ℕ) → subtasks t ≡ some cs → length cs < 2 ^ 64)
    → IsCounted s
    → Step subtasks s r
    → IsCounted r
step-IsCounted subtasks s _ b v (called before after rest f n e h) =
    called-IsCounted subtasks s before after rest f n b e h v
step-IsCounted subtasks s _ b v (ended before after t e) = ended-IsCounted s before after t e v
step-IsCounted subtasks s _ b v (started t e) = started-IsCounted s t e v

Steps-IsCounted_from :
    (subtasks : ℕ → Option (List ℕ)) (s r : Tasks)
    → ((t : ℕ) (cs : List ℕ) → subtasks t ≡ some cs → length cs < 2 ^ 64)
    → IsCounted s
    → Steps subtasks s r
    → IsCounted r
Steps-IsCounted_from subtasks s _ b v nothing = v
Steps-IsCounted_from subtasks s q b v (then_step {r = r} rest step) =
    step-IsCounted subtasks r q b (Steps-IsCounted_from subtasks s r b v rest) step

-- Whatever the order in which threads run the tasks, `nleft` of a parallel task that has started and not
-- ended is the number of its branches that have not ended, at least one; no task is in use twice. It
-- holds where fewer than 2^64 branches are in a parallel task, and a task is not used again before it ends.
pub Steps-IsCounted :
    (subtasks : ℕ → Option (List ℕ)) (parent : ℕ → Option ℕ) (nleft : ℕ → ℕ) (r : Tasks)
    → ((t : ℕ) (cs : List ℕ) → subtasks t ≡ some cs → length cs < 2 ^ 64)
    → ((p : ℕ) → nleft p < 2 ^ 64)
    → Steps subtasks (idle parent nleft) r
    → IsCounted r
Steps-IsCounted subtasks parent nleft r b h steps =
    Steps-IsCounted_from subtasks (idle parent nleft) r b (idle-IsCounted parent nleft h) steps

-- Whether the thread goes on, with the task that it counted.
abbrev pub goes_on : List Frame × Tasks → Bool
goes_on ([], s) = false
goes_on (f ∷ fs, s) = true

branches-in_thread :
    (before after : List (List Frame)) (rest : List Frame) (p : ℕ) (o : List Frame × Tasks)
    → branches p (in_thread before after rest o) ≡ branches p (resume (rest ∷ before ++ after) o)
unfolding branches
branches-in_thread before after rest p (frames, s) =
    omega (arith, sum_of-thread (frame_branch s.parent p) before after frames rest)

goes_on-last :
    (s : Tasks) (p : ℕ) (others : List (List Frame))
    → IsCounted (at_call (counting p) others s)
    → (goes_on (count_down p s) ≡ true) ↔ (branches p (resume others (count_down p s)) ≡ 0)
unfolding count_down uses branches waits sum_of frame_task frame_branch
goes_on-last s p others v =
    by_test ((s.nleft p + 2 ^ 64 - 1) % 2 ^ 64 == 0) refl (count_down-IsCounted others s p v)
  where
    left : ℕ
    left = (s.nleft p + 2 ^ 64 - 1) % 2 ^ 64

    outcome : Bool → List Frame × Tasks
    outcome b =
        if b
        then (finishing p ∷ [], record (set_nleft p left s) { waiting = remove p s.waiting })
        else ([], set_nleft p left s)

    here : 0 < waits p s
    here = ground (arith, v.counted p)

    by_test :
        (b : Bool)
        → (left == 0) ≡ b
        → IsCounted (resume others (outcome b))
        → (goes_on (outcome b) ≡ true) ↔ (branches p (resume others (outcome b)) ≡ 0)
    by_test true e w =
        let none_left = sum_of-remove (is p) p s.waiting here in
        ((λ q. ground (arith, w.counted p, v.once p, none_left)), (λ q. refl))
    by_test false e w =
        ((λ q. absurd (ground (arith, q))), (λ q. absurd (ground (arith, w.counted p, q, here, e))))

-- Whatever the order in which threads run the tasks, the thread that counts down a parent goes on with
-- it if and only if no branch of that parent is left: the parent ends after its last branch, and once.
pub count_down-last :
    (subtasks : ℕ → Option (List ℕ)) (parent : ℕ → Option ℕ) (nleft : ℕ → ℕ) (r : Tasks)
    (before after : List (List Frame)) (rest : List Frame) (p : ℕ)
    → ((t : ℕ) (cs : List ℕ) → subtasks t ≡ some cs → length cs < 2 ^ 64)
    → ((q : ℕ) → nleft q < 2 ^ 64)
    → Steps subtasks (idle parent nleft) r
    → r.threads ≡ before ++ (counting p ∷ rest) ∷ after
    → (goes_on (count_down p r) ≡ true)
      ↔ (branches p (in_thread before after rest (count_down p r)) ≡ 0)
count_down-last subtasks parent nleft r before after rest p b h steps e =
    let others = rest ∷ before ++ after in
    let v = Steps-IsCounted subtasks parent nleft r b h steps in
    let here =
      reordered r.threads ((counting p ∷ []) ∷ others) r
        (λ g. ap (sum_of (sum_of g)) e ∙ sum_of-thread g before after (counting p ∷ []) rest) v in
    let (there, back) = goes_on-last r p others here in
    let same = branches-in_thread before after rest p (count_down p r) in
    ((λ q. same ∙ there q), (λ q. back (sym same ∙ q)))

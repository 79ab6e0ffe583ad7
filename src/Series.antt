-- ===== src/Series.antt =====
-- `SeriesWork` of src/factory/Workflow.h and src/factory/Workflow.cc: a series of tasks with its
-- circular queue. A task is known by its address, which is not 0.
pub mod Unroll
pub mod Holds
pub mod Push
pub mod Refine
pub mod Cancel
use tinywf.Prelude.{
  ℕ, zero, suc, ◌+◌, ◌-◌, ◌*◌, Bool, true, false, Option, none, some, List, [], ◌∷◌, ◌++◌, ◌==◌,
  if◌then◌else◌, length, get_or, set, replicate,
}

-- `SeriesWork`, less the mutex and the context. `pointer` is what each task has from `set_pointer`;
-- `callback` says that one is set, `called` counts its calls, `deleted` says that the series is gone.
pub record Series : Type 0 where
  pub self : ℕ
  pub first : ℕ
  pub last : Option ℕ
  pub queue : List ℕ
  pub queue_size : ℕ
  pub front : ℕ
  pub back : ℕ
  pub in_parallel : Bool
  pub canceled : Bool
  pub finished : Bool
  pub callback : Bool
  pub called : ℕ
  pub deleted : Bool
  pub pointer : ℕ → ℕ

-- `task->set_pointer(this)`
abbrev pub set_pointer : ℕ → Series → Series
set_pointer task s = record s { pointer = λ t. if t == task then s.self else s.pointer t }

-- The constructor, at the address `self`.
unfoldable pub new_series : ℕ → ℕ → Bool → (ℕ → ℕ) → Series
new_series self first callback pointer = set_pointer first (record {
  self = self;
  first = first;
  last = none;
  queue = replicate 4 0;
  queue_size = 4;
  front = 0;
  back = 0;
  in_parallel = false;
  canceled = false;
  finished = false;
  callback = callback;
  called = 0;
  deleted = false;
  pointer = pointer;
})

-- `++k`, back to 0 at the end of the queue
abbrev pub next_index : ℕ → ℕ → ℕ
next_index size k = if k + 1 == size then 0 else k + 1

-- The `do` loop of `expand_queue`, from `j` on: what it copies.
unfoldable pub unroll : ℕ → List ℕ → ℕ → ℕ → ℕ → List ℕ
unroll zero queue size back j = []
unroll (suc fuel) queue size back j =
    let j' = next_index size j in
    let rest = unroll fuel queue size back j' in
    get_or queue j 0 ∷ (if j' == back then [] else rest)

-- The new queue is not initialized behind what is copied; nothing reads it there.
unfoldable pub expand_queue : Series → Series
unfolding unroll
expand_queue s =
    let size = 2 * s.queue_size in
    let copied = unroll s.queue_size s.queue s.queue_size s.back s.front in
    record s {
      queue = copied ++ replicate (size - length copied) 0;
      queue_size = size;
      front = 0;
      back = length copied;
    }

-- `if (front == back) expand_queue()`
unfoldable pub expand_if_full : Series → Series
unfolding expand_queue
expand_if_full s = if s.front == s.back then expand_queue s else s

unfoldable pub push_front : ℕ → Series → Series
unfolding expand_if_full
push_front task s =
    let front = if s.front == 0 then s.queue_size - 1 else s.front - 1 in
    expand_if_full (record (set_pointer task s) { front = front; queue = set s.queue front task })

unfoldable pub push_back : ℕ → Series → Series
unfolding expand_if_full
push_back task s = expand_if_full (record (set_pointer task s) {
  queue = set s.queue s.back task;
  back = next_index s.queue_size s.back;
})

-- What `pop_task` does where there is no task: the callback runs, and the series deletes itself
-- unless it belongs to a parallel work.
unfoldable pub finish : Series → Series
finish s = record s {
  finished = true;
  called = if s.callback then s.called + 1 else s.called;
  deleted = if s.in_parallel then s.deleted else true;
}

unfoldable pub finish_if_none : Option ℕ × Series → Option ℕ × Series
unfolding finish
finish_if_none (none, s) = (none, finish s)
finish_if_none (some task, s) = (some task, s)

unfoldable pub pop_task : Series → Option ℕ × Series
unfolding finish_if_none
pop_task s =
    if s.front == s.back
    then finish_if_none (s.last, record s { last = none })
    else (some (get_or s.queue s.front 0), record s { front = next_index s.queue_size s.front })

-- `while (task) { delete task; task = pop_task(); }`, with fuel; the tasks that it deletes, in order.
unfoldable pub delete_tasks : ℕ → Option ℕ × Series → Option (List ℕ × Series)
unfolding pop_task
delete_tasks fuel (none, s) = some ([], s)
delete_tasks zero (some task, s) = none
delete_tasks (suc fuel) (some task, s) = elim (delete_tasks fuel (pop_task s)) [
  | none ↦ none
  | some (tasks, r) ↦ some (task ∷ tasks, r)
]

deleted_all : Option (List ℕ × Series) → Option (Option ℕ × List ℕ × Series)
deleted_all none = none
deleted_all (some (tasks, s)) = some (none, tasks, s)

-- `pop`: the next task, the tasks that it deleted, and the series; `none` if the fuel ran out.
unfoldable pub pop : Series → Option (Option ℕ × List ℕ × Series)
unfolding delete_tasks deleted_all
pop s =
    let (task, r) = pop_task s in
    let drained = deleted_all (delete_tasks (s.queue_size + 1) (task, r)) in
    if s.canceled then drained else some (task, [], r)

unfoldable pub cancel : Series → Series
cancel s = record s { canceled = true }

unfoldable pub set_last_task : ℕ → Series → Series
set_last_task task s = record (set_pointer task s) { last = some task }

unfoldable pub unset_last_task : Series → Series
unset_last_task s = record s { last = none }

-- `dismiss_recursive`: the tasks that it deletes.
unfoldable pub dismiss_recursive : Series → Option (List ℕ × Series)
unfolding delete_tasks
dismiss_recursive s = delete_tasks (s.queue_size + 2) (some s.first, record s { callback = false })

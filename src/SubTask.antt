-- ===== src/SubTask.antt =====
-- src/task/SubTask.h and src/task/SubTask.cc: how tasks follow each other, and how a parallel task
-- waits for its branches. A task is known by its address. Each thread has a stack of calls, and any
-- thread may take the next step.
pub mod Sums
pub mod Counted
pub mod Run
use tinywf.Prelude.{
  ℕ, zero, suc, ◌+◌, ◌-◌, ◌%◌, ◌^◌, Bool, true, false, Option, none, some, List, [], ◌∷◌, ◌++◌,
  ◌==◌, if◌then◌else◌, length,
}

-- A call: `dispatch` of a task, the rest of the loop in `ParallelTask::dispatch`, a round of the loop in
-- `subtask_done`, and the count of a parent in it.
pub data Frame : Type 0 where
  dispatching : ℕ → Frame
  launching : ℕ → List ℕ → Frame
  finishing : ℕ → Frame
  counting : ℕ → Frame

-- `parent` and `nleft` of all tasks, the threads, and the tasks that were dispatched to something
-- outside. `waiting` records the parallel tasks between the two, which the code does not keep.
pub record Tasks : Type 0 where
  pub parent : ℕ → Option ℕ
  pub nleft : ℕ → ℕ
  pub threads : List (List Frame)
  pub running : List ℕ
  pub waiting : List ℕ

abbrev pub set_parent : ℕ → Option ℕ → Tasks → Tasks
set_parent task p s = record s { parent = λ t. if t == task then p else s.parent t }

abbrev pub set_nleft : ℕ → ℕ → Tasks → Tasks
set_nleft task n s = record s { nleft = λ t. if t == task then n else s.nleft t }

abbrev pub remove : ℕ → List ℕ → List ℕ
remove t [] = []
remove t (x ∷ xs) = if x == t then xs else x ∷ remove t xs

-- `dispatch`: virtual, of a parallel task with its `subtasks`, or of a task that does something outside.
unfoldable pub dispatch : Option (List ℕ) → ℕ → Tasks → List Frame × Tasks
dispatch none t s = ([], record s { running = t ∷ s.running })
dispatch (some []) t s = (finishing t ∷ [], set_nleft t 0 s)
dispatch (some (c ∷ cs)) t s = (
  launching t (c ∷ cs) ∷ [],
  record (set_nleft t (length (c ∷ cs)) s) { waiting = t ∷ s.waiting },
)

-- A round of the `do` loop of `ParallelTask::dispatch`.
unfoldable pub launch : ℕ → List ℕ → Tasks → List Frame × Tasks
launch p [] s = ([], s)
launch p (c ∷ cs) s = (dispatching c ∷ launching p cs ∷ [], set_parent c (some p) s)

-- A round of `subtask_done`, where `done` returned `next`; `parent` is that of the task.
unfoldable pub finish_task : Option ℕ → Option ℕ → Tasks → List Frame × Tasks
finish_task parent (some next) s = (dispatching next ∷ [], set_parent next parent s)
finish_task (some p) none s = (counting p ∷ [], s)
finish_task none none s = ([], s)

-- `__sync_sub_and_fetch(&parent->nleft, 1) == 0`
unfoldable pub count_down : ℕ → Tasks → List Frame × Tasks
count_down p s =
    let left = (s.nleft p + 2 ^ 64 - 1) % 2 ^ 64 in
    if left == 0
    then (finishing p ∷ [], record (set_nleft p left s) { waiting = remove p s.waiting })
    else ([], set_nleft p left s)

-- A step of a call: the calls that take its place, and the tasks. `subtasks` says which tasks are
-- parallel, `next` is what `done` returns if it is called.
unfoldable pub run_frame : (ℕ → Option (List ℕ)) → Option ℕ → Frame → Tasks → List Frame × Tasks
unfolding dispatch launch finish_task count_down
run_frame subtasks next (dispatching t) s = dispatch (subtasks t) t s
run_frame subtasks next (launching p cs) s = launch p cs s
run_frame subtasks next (finishing t) s = finish_task (s.parent t) next s
run_frame subtasks next (counting p) s = count_down p s

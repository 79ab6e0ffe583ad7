-- ===== src/ThreadPool.antt =====
-- src/common/thrdpool.c: the threads of a pool, from their creation to the end of the last one. A step
-- is what a thread does from one lock, wait or call of a task to the next. The message queue is used by
-- what it promises: entries come out in the order that they went in. Threads and task entries are known
-- by their addresses.
pub mod Chain
pub mod Sound
pub mod Steps
pub mod Work
pub mod Destroy
pub mod Run
use tinywf.Prelude.{
  ℕ, zero, suc, ◌+◌, ◌-◌, Bool, true, false, Option, none, some, List, [], ◌∷◌, ◌++◌, ◌==◌,
  if◌then◌else◌, length,
}

-- Where a thread is in `__thrdpool_routine`: at the test of the loop, in `msgqueue_get`, in a task, behind
-- it, behind the loop, or returned because a task destroyed the pool.
pub data Place : Type 0 where
  testing fetching behind_task behind_loop returning : Place
  working : ℕ → Place

pub record Thread : Type 0 where
  pub id : ℕ
  pub place : Place

-- A thread that has counted itself off: the thread that it has yet to join, and whether it has returned. It is gone
-- when it is joined.
pub record Leaver : Type 0 where
  pub id : ℕ
  pub joins : Option ℕ
  pub returned : Bool

-- The thread in `thrdpool_destroy`: waiting in `__thrdpool_terminate`, joining the last thread, handing
-- over what is pending, or done. `true` says that it is a thread of the pool.
pub data Destroyer : Type 0 where
  absent : Destroyer
  terminating joining draining gone : Bool → Destroyer

-- `struct __thrdpool` with its threads. `taken` and `pending` record the entries that threads took, and
-- those that `thrdpool_destroy` handed over, which the code does not keep.
pub record Pool : Type 0 where
  pub queue : List ℕ
  pub nonblock : Bool
  pub nthreads : ℕ
  pub tid : Option ℕ
  pub terminate : Bool
  pub freed : Bool
  pub threads : List Thread
  pub leavers : List Leaver
  pub destroyer : Destroyer
  pub taken : List ℕ
  pub pending : List ℕ

-- `thrdpool_create`, before it makes threads.
abbrev pub fresh_pool : Pool
fresh_pool = record {
  queue = [];
  nonblock = false;
  nthreads = 0;
  tid = none;
  terminate = false;
  freed = false;
  threads = [];
  leavers = [];
  destroyer = absent;
  taken = [];
  pending = [];
}

-- `thrdpool_increase`, and a round of `__thrdpool_create_threads`, where `pthread_create` succeeds.
unfoldable pub increase : ℕ → Pool → Pool
increase id p = record p {
  nthreads = p.nthreads + 1;
  threads = record { id = id; place = testing } ∷ p.threads;
}

-- The loop of `__thrdpool_create_threads`: the outcomes of `pthread_create`, the new thread or none.
unfoldable pub create_threads : ℕ → List (Option ℕ) → Pool → Pool
unfolding increase
create_threads nthreads [] p = p
create_threads nthreads (none ∷ rest) p = p
create_threads nthreads (some id ∷ rest) p =
    let more = create_threads nthreads rest (increase id p) in
    if p.nthreads == nthreads then p else more

unfoldable pub schedule : ℕ → Pool → Pool
schedule entry p = record p { queue = p.queue ++ entry ∷ [] }

-- `thrdpool_destroy` up to the wait: by a thread outside, or by the task of a thread of the pool, which
-- counts itself off and is no longer one of the others.
unfoldable pub terminate_by : Bool → Pool → Pool
terminate_by in_pool p = record p {
  nonblock = true;
  terminate = true;
  nthreads = if in_pool then p.nthreads - 1 else p.nthreads;
  destroyer = terminating in_pool;
}

-- What a step of a thread in the loop makes of its place, and of the pool; `none` means that it waits.
unfoldable pub thread_step : Place → Pool → Option (Place × Pool)
thread_step testing p = some (if p.terminate then behind_loop else fetching, p)
thread_step fetching p = elim (p.queue) [
  | [] ↦ if p.nonblock then some (behind_loop, p) else none
  | entry ∷ rest ↦ some (working entry, record p { queue = rest; taken = p.taken ++ entry ∷ [] })
]
thread_step (working entry) p = some (behind_task, p)
thread_step behind_task p =
    some (if p.nthreads == 0 then (returning, record p { freed = true }) else (testing, p))
thread_step behind_loop p = none
thread_step returning p = none

-- The thread counts itself off, and is the one to join then.
unfoldable pub count_off : ℕ → Pool → Pool
count_off id p = record p {
  nthreads = p.nthreads - 1;
  tid = some id;
  leavers = record { id = id; joins = p.tid; returned = false } ∷ p.leavers;
}

-- Whether `pthread_join` of a thread returns. Threads that are not joined have different addresses.
unfoldable pub has_returned : ℕ → List Leaver → Bool
has_returned id [] = false
has_returned id (x ∷ xs) = if x.id == id then x.returned else has_returned id xs

unfoldable pub remove_leaver : ℕ → List Leaver → List Leaver
remove_leaver id [] = []
remove_leaver id (x ∷ xs) = if x.id == id then xs else x ∷ remove_leaver id xs

-- `if (tid is not zero) pthread_join(tid)`, among the threads that left: those that are left then.
unfoldable pub join : Option ℕ → List Leaver → Option (List Leaver)
unfolding has_returned remove_leaver
join none leavers = some leavers
join (some id) leavers = if has_returned id leavers then some (remove_leaver id leavers) else none

joined : Bool → Pool → Option (List Leaver) → Option Pool
joined in_pool p none = none
joined in_pool p (some rest) = some (record p { leavers = rest; destroyer = draining in_pool })

-- A step of the thread in `thrdpool_destroy`.
unfoldable pub destroy_step : Destroyer → Pool → Option Pool
unfolding join joined
destroy_step absent p = none
destroy_step (terminating in_pool) p =
    if p.nthreads == 0 then some (record p { destroyer = joining in_pool }) else none
destroy_step (joining in_pool) p = joined in_pool p (join p.tid p.leavers)
destroy_step (draining in_pool) p = elim (p.queue) [
  | [] ↦ some (record p { destroyer = gone in_pool; freed = true })
  | entry ∷ rest ↦ some (record p { queue = rest; pending = p.pending ++ entry ∷ [] })
]
destroy_step (gone in_pool) p = none

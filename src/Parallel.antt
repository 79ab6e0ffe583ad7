-- ===== src/Parallel.antt =====
-- `ParallelWork` of src/factory/Workflow.h and src/factory/Workflow.cc: the series that run in parallel,
-- with their first tasks. A series is known by its address, and `series` has them all.
pub mod Copy
pub mod Holds
pub mod Add
pub mod Build
use tinywf.Prelude.{
  ℕ, zero, suc, ◌+◌, ◌*◌, Bool, true, false, Option, none, some, List, [], ◌∷◌, ◌++◌, ◌==◌, ltb,
  if◌then◌else◌, length, get_or, set, replicate,
}
use tinywf.Series.{Series, pop, dismiss_recursive}

abbrev pub Store : Type 0
Store = ℕ → Series

-- `subtasks` points at the first cell of `buf`, `all_series` at the cell `all_series`. `called` counts the
-- calls of the callback, if one is set.
pub record ParallelWork : Type 0 where
  pub buf : List ℕ
  pub all_series : ℕ
  pub subtasks_nr : ℕ
  pub buf_size : ℕ
  pub callback : Bool
  pub called : ℕ
  pub deleted : Bool

abbrev pub put_series : ℕ → Series → Store → Store
put_series a s store = λ x. if x == a then s else store x

-- `series->in_parallel = true`
abbrev pub mark : ℕ → Store → Store
mark a store = put_series a (record (store a) { in_parallel = true }) store

-- The first constructor; what `new` leaves in the buffer is not read.
unfoldable pub new_parallel : Bool → ParallelWork
new_parallel callback = record {
  buf = replicate (2 * 4) 0;
  all_series = 4;
  subtasks_nr = 0;
  buf_size = 4;
  callback = callback;
  called = 0;
  deleted = false;
}

-- `memcpy(dst + d, src + s, n * sizeof (void *))`
unfoldable pub memcpy : ℕ → List ℕ → ℕ → List ℕ → ℕ → List ℕ
memcpy zero src s dst d = dst
memcpy (suc n) src s dst d = memcpy n src (s + 1) (set dst d (get_or src s 0)) (d + 1)

unfoldable pub expand_buf : ParallelWork → ParallelWork
unfolding memcpy
expand_buf w =
    let buf_size = 2 * w.buf_size in
    let fresh = replicate (2 * buf_size) 0 in
    let tasks = memcpy w.subtasks_nr w.buf 0 fresh 0 in
    record w {
      buf = memcpy w.subtasks_nr w.buf w.all_series tasks buf_size;
      all_series = buf_size;
      buf_size = buf_size;
    }

-- `all_series[i] = series; subtasks[i] = series->first`
unfoldable pub store_at : ℕ → ℕ → Store → List ℕ → ℕ → List ℕ
store_at i series store buf all_series =
    set (set buf (all_series + i) series) i (store series).first

-- `add_series`; `none` where the assertion fails.
unfoldable pub add_series : ℕ → ParallelWork × Store → Option (ParallelWork × Store)
unfolding expand_buf store_at
add_series series (w, store) =
    let r = if w.subtasks_nr == w.buf_size then expand_buf w else w in
    if (store series).in_parallel
    then none
    else some (
      record r {
        buf = store_at r.subtasks_nr series store r.buf r.all_series;
        subtasks_nr = r.subtasks_nr + 1;
      },
      mark series store,
    )

-- The loop of the second constructor, from `i` on.
unfoldable pub fill : ℕ → List ℕ → List ℕ × Store → ℕ → Option (List ℕ × Store)
unfolding store_at
fill i [] (buf, store) size = some (buf, store)
fill i (x ∷ xs) (buf, store) size =
    let rest = fill (i + 1) xs (store_at i x store buf size, mark x store) size in
    if (store x).in_parallel then none else rest

constructed : Bool → ℕ → ℕ → Option (List ℕ × Store) → Option (ParallelWork × Store)
constructed callback n size none = none
constructed callback n size (some (buf, store)) = some (
  record {
    buf = buf;
    all_series = size;
    subtasks_nr = n;
    buf_size = size;
    callback = callback;
    called = 0;
    deleted = false;
  },
  store,
)

-- The second constructor.
unfoldable pub new_parallel_of : List ℕ → Bool → Store → Option (ParallelWork × Store)
unfolding fill constructed
new_parallel_of all_series callback store =
    let n = length all_series in
    let size = if ltb 4 n then n else 4 in
    constructed callback n size (fill 0 all_series (replicate (2 * size) 0, store) size)

unfoldable pub series_at : ℕ → ParallelWork → Option ℕ
series_at index w =
    if ltb index w.subtasks_nr then some (get_or w.buf (w.all_series + index) 0) else none

-- `for (...) delete all_series[i]`, from `i` on.
unfoldable pub delete_series : ℕ → ℕ → ParallelWork → Store → Store
delete_series zero i w store = store
delete_series (suc n) i w store =
    let a = get_or w.buf (w.all_series + i) 0 in
    delete_series n (i + 1) w (put_series a (record (store a) { deleted = true }) store)

-- `done`, of a parallel work in the series `own`: the result of `pop`, and the state.
unfoldable pub done : ℕ → ParallelWork → Store → Option (Option ℕ × List ℕ × ParallelWork × Store)
unfolding delete_series
done own w store =
    let r = record w {
      called = if w.callback then w.called + 1 else w.called;
      subtasks_nr = 0;
      deleted = true;
    } in
    let left = delete_series w.subtasks_nr 0 w store in
    elim (pop (left own)) [
      | none ↦ none
      | some (task, deleted, s) ↦ some (task, deleted, r, put_series own s left)
    ]

-- The loop of the destructor, from `i` on, and the tasks that are deleted.
unfoldable pub dismiss_series : ℕ → ℕ → ParallelWork → Store → Option (List ℕ × Store)
dismiss_series zero i w store = some ([], store)
dismiss_series (suc n) i w store =
    let a = get_or w.buf (w.all_series + i) 0 in
    elim (dismiss_recursive (record (store a) { in_parallel = false })) [
      | none ↦ none
      | some (tasks, s) ↦ elim (dismiss_series n (i + 1) w (put_series a s store)) [
        | none ↦ none
        | some (rest, r) ↦ some (tasks ++ rest, r)
      ]
    ]

-- ===== src/ThreadPool/Steps.antt =====
-- The steps of the threads of src/common/thrdpool.c, and the runs from a new pool.
use tinywf.Prelude.{ℕ, ◌≡◌, ◌≢◌, ◌⊎◌, true, false, none, some, List, [], ◌∷◌, ◌++◌}
use tinywf.ThreadPool.{
  Place, behind_loop, working, Thread, Leaver, absent, Pool, fresh_pool, increase, schedule,
  terminate_by, thread_step, count_off, join, destroy_step,
}

-- A step, and the entries that it schedules. Threads are made while nobody destroys the pool; tasks are
-- scheduled then, or by tasks of the pool; the pool is destroyed once.
pub data Step (p : Pool) : List ℕ → Pool → Type 0 where
  creates : (id : ℕ) → p.destroyer ≡ absent → Step p [] (increase id p)
  schedules :
      (entry : ℕ)
      → (p.destroyer ≡ absent) ⊎ (p.threads ≢ [])
      → Step p (entry ∷ []) (schedule entry p)
  works :
      (before after : List Thread) (t : Thread) (place : Place) (r : Pool)
      → p.threads ≡ before ++ t ∷ after
      → thread_step t.place p ≡ some (place, r)
      → Step p [] (record r { threads = before ++ record t { place = place } ∷ after })
  leaves :
      (before after : List Thread) (t : Thread)
      → p.threads ≡ before ++ t ∷ after
      → t.place ≡ behind_loop
      → Step p [] (record (count_off t.id p) { threads = before ++ after })
  returns :
      (before after : List Leaver) (l : Leaver) (rest : List Leaver)
      → p.leavers ≡ before ++ l ∷ after
      → l.returned ≡ false
      → join l.joins after ≡ some rest
      → Step p []
          (record p { leavers = before ++ record l { joins = none; returned = true } ∷ rest })
  destroys : p.destroyer ≡ absent → Step p [] (terminate_by false p)
  destroys_inside :
      (before after : List Thread) (t : Thread) (entry : ℕ)
      → p.destroyer ≡ absent
      → p.threads ≡ before ++ t ∷ after
      → t.place ≡ working entry
      → Step p [] (record (terminate_by true p) { threads = before ++ after })
  goes_on : (r : Pool) → destroy_step p.destroyer p ≡ some r → Step p [] r

-- Steps from a new pool, and all that they scheduled.
pub data Runs : List ℕ → Pool → Type 0 where
  new_pool : Runs [] fresh_pool
  then_step : {xs ys : List ℕ} {p r : Pool} → Runs xs p → Step p ys r → Runs (xs ++ ys) r

-- ===== src/ThreadPool/Sound.antt =====
-- The invariant of a pool of src/common/thrdpool.c.
use tinywf.Prelude.{ℕ, ◌≡◌, false, List, [], ◌++◌, length}
use tinywf.ThreadPool.{Destroyer, absent, terminating, joining, draining, gone, Pool}
use tinywf.ThreadPool.Chain.{IsLinked}

-- The threads that left are linked, and nothing was handed over or freed.
abbrev pub IsRunning : Pool → Type 0
IsRunning p = IsLinked p.tid p.leavers × (p.freed ≡ false) × (p.pending ≡ [])

-- What is left at each stage of `thrdpool_destroy`.
unfoldable pub IsAt : Destroyer → Pool → Type 0
IsAt absent p = IsRunning p
IsAt (terminating b) p = IsRunning p
IsAt (joining b) p = IsRunning p × (p.threads ≡ [])
IsAt (draining b) p = (p.freed ≡ false) × (p.threads ≡ []) × (p.leavers ≡ [])
IsAt (gone b) p = (p.queue ≡ []) × (p.threads ≡ []) × (p.leavers ≡ [])

-- `nthreads` counts the threads that have not left, the pool is at its stage, and no entry of
-- `scheduled` is lost.
pub record IsSound (scheduled : List ℕ) (p : Pool) : Type 0 where
  pub counted : p.nthreads ≡ length p.threads
  pub stage : IsAt p.destroyer p
  pub entries : p.taken ++ p.pending ++ p.queue ≡ scheduled

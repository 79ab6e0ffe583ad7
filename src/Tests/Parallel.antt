-- ===== src/Tests/Parallel.antt =====
-- A parallel work of six series, at src/factory/Workflow.cc.
use tinywf.Prelude.{ℕ, ◌+◌, ◌≡◌, true, false, some, List, [], ◌∷◌, get_elem?}
use tinywf.Series.{new_series}
use tinywf.Parallel.{
  ParallelWork, Store, new_parallel, memcpy, expand_buf, store_at, add_series, new_parallel_of,
  series_at,
}
use tinywf.Parallel.Holds.{Represents, firsts}
use tinywf.Parallel.Add.{add_all, are_free, IsBuilt}
use tinywf.Parallel.Build.{parallel-IsBuilt, series_at-get_elem?}

abbrev six : List ℕ
six = 30 ∷ 31 ∷ 32 ∷ 33 ∷ 34 ∷ 35 ∷ []

-- The first task of each series has the next address.
abbrev store : Store
store x = new_series x (x + 1) false (λ t. 0)

parallel-IsBuilt_example :
    IsBuilt [] six store (add_all six (some (new_parallel true, store)))
    × IsBuilt [] six store (new_parallel_of six true store)
parallel-IsBuilt_example = parallel-IsBuilt six true store

abbrev of_six : ParallelWork
of_six = record {
  buf = 31 ∷ 32 ∷ 33 ∷ 34 ∷ 35 ∷ 36 ∷ 0 ∷ 0 ∷ 30 ∷ 31 ∷ 32 ∷ 33 ∷ 34 ∷ 35 ∷ 0 ∷ 0 ∷ [];
  all_series = 8;
  subtasks_nr = 6;
  buf_size = 8;
  callback = true;
  called = 0;
  deleted = false;
}

six-Represents : Represents of_six six (firsts store)
unfolding new_parallel add_series expand_buf memcpy store_at add_all IsBuilt new_series are_free
six-Represents = (parallel-IsBuilt six true store).0.1

series_at-get_elem?_example : series_at 5 of_six ≡ get_elem? six 5
series_at-get_elem?_example = series_at-get_elem? of_six six (firsts store) 5 six-Represents

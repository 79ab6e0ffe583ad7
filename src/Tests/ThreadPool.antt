-- ===== src/Tests/ThreadPool.antt =====
-- A pool of one thread that is destroyed while its thread runs a task, at src/common/thrdpool.c.
use tinywf.Prelude.{◌≡◌, ◌⊎◌, inl, refl, true, false, none, some, [], ◌∷◌}
use tinywf.ThreadPool.{
  draining, gone, Place, testing, fetching, behind_task, behind_loop, working, Thread, joining,
  Pool, fresh_pool, increase, schedule, terminate_by, thread_step, count_off, join, has_returned,
  remove_leaver, destroy_step,
}
use tinywf.ThreadPool.Steps.{
  Runs, new_pool, then_step, creates, schedules, works, leaves, destroys, goes_on,
}
use tinywf.ThreadPool.Run.{joining-CanReturn, CanReturn}

abbrev at : Place → Thread
at place = record { id = 1; place = place }

abbrev p1 : Pool
p1 = increase 1 fresh_pool

run1 : Runs ([]) p1
unfolding increase schedule terminate_by thread_step count_off destroy_step join has_returned
    remove_leaver
run1 = then_step new_pool (creates 1 refl)

abbrev p2 : Pool
p2 = schedule 7 p1

run2 : Runs (7 ∷ []) p2
unfolding increase schedule terminate_by thread_step count_off destroy_step join has_returned
    remove_leaver
run2 = then_step run1 (schedules 7 (inl refl))

abbrev p3 : Pool
p3 = record (p2) { threads = at fetching ∷ [] }

run3 : Runs (7 ∷ []) p3
unfolding increase schedule terminate_by thread_step count_off destroy_step join has_returned
    remove_leaver
run3 = then_step run2 (works [] [] (at testing) fetching (p2) refl refl)

abbrev p4 : Pool
p4 = record (record p3 { queue = []; taken = 7 ∷ [] }) { threads = at (working 7) ∷ [] }

run4 : Runs (7 ∷ []) p4
unfolding increase schedule terminate_by thread_step count_off destroy_step join has_returned
    remove_leaver
run4 =
    then_step run3
      (works [] [] (at fetching) (working 7) (record p3 { queue = []; taken = 7 ∷ [] }) refl refl)

abbrev p5 : Pool
p5 = terminate_by false p4

run5 : Runs (7 ∷ []) p5
unfolding increase schedule terminate_by thread_step count_off destroy_step join has_returned
    remove_leaver
run5 = then_step run4 (destroys refl)

abbrev p6 : Pool
p6 = record (p5) { threads = at behind_task ∷ [] }

run6 : Runs (7 ∷ []) p6
unfolding increase schedule terminate_by thread_step count_off destroy_step join has_returned
    remove_leaver
run6 = then_step run5 (works [] [] (at (working 7)) behind_task (p5) refl refl)

abbrev p7 : Pool
p7 = record (p6) { threads = at testing ∷ [] }

run7 : Runs (7 ∷ []) p7
unfolding increase schedule terminate_by thread_step count_off destroy_step join has_returned
    remove_leaver
run7 = then_step run6 (works [] [] (at behind_task) testing (p6) refl refl)

abbrev p8 : Pool
p8 = record (p7) { threads = at behind_loop ∷ [] }

run8 : Runs (7 ∷ []) p8
unfolding increase schedule terminate_by thread_step count_off destroy_step join has_returned
    remove_leaver
run8 = then_step run7 (works [] [] (at testing) behind_loop (p7) refl refl)

abbrev p9 : Pool
p9 = record (count_off 1 p8) { threads = [] }

run9 : Runs (7 ∷ []) p9
unfolding increase schedule terminate_by thread_step count_off destroy_step join has_returned
    remove_leaver
run9 = then_step run8 (leaves [] [] (at behind_loop) refl refl)

abbrev p10 : Pool
p10 = record p9 { destroyer = joining false }

run10 : Runs (7 ∷ []) p10
unfolding increase schedule terminate_by thread_step count_off destroy_step join has_returned
    remove_leaver
run10 = then_step run9 (goes_on _ refl)

abbrev p11 : Pool
p11 = record p10 { leavers = record { id = 1; joins = none; returned = true } ∷ [] }

abbrev p12 : Pool
p12 = record p11 { leavers = []; destroyer = draining false }

abbrev p13 : Pool
p13 = record p12 { destroyer = gone false; freed = true }

joining-CanReturn_example :
    ((r : Pool) × (destroy_step p10.destroyer p10 ≡ some r)) ⊎ CanReturn p10.leavers
joining-CanReturn_example = joining-CanReturn (7 ∷ []) p10 false run10 refl

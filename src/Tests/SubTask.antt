-- ===== src/Tests/SubTask.antt =====
-- A parallel task with two branches, at src/task/SubTask.cc.
use tinywf.Prelude.{
  ℕ, ◌^◌, ◌<◌, ◌≡◌, ◌↔◌, refl, true, Option, none, some, List, [], ◌∷◌, arith, length, ◌==◌,
  if◌then◌else◌, Bool-cases, inl, inr,
}
use tinywf.SubTask.{
  dispatching, launching, finishing, Tasks, set_parent, run_frame, dispatch, launch, finish_task,
  count_down,
}
use tinywf.SubTask.Sums.{branches, uses}
use tinywf.SubTask.Counted.{IsCounted}
use tinywf.SubTask.Run.{
  IsFresh, in_thread, called, ended, started, Steps, nothing, then_step, idle, Steps-IsCounted,
  goes_on, count_down-last,
}

abbrev program : ℕ → Option (List ℕ)
program t = if t == 10 then some (1 ∷ 2 ∷ []) else none

program-small : (t : ℕ) (cs : List ℕ) → program t ≡ some cs → length cs < 2 ^ 64
program-small t cs e = elim (Bool-cases (t == 10)) [
  | inl d ↦ ground (arith, e, d)
  | inr d ↦ ground (arith, e, d)
]

abbrev s0 : Tasks
s0 = idle (λ t. none) (λ t. 0)

abbrev s1 : Tasks
s1 = record (set_parent 10 none s0) { threads = (dispatching 10 ∷ []) ∷ [] }

run1 : Steps program s0 s1
unfolding uses
run1 = then_step nothing (started 10 refl)

abbrev s2 : Tasks
s2 = in_thread [] [] ([]) (run_frame program none (dispatching 10) s1)

run2 : Steps program s0 s2
unfolding run_frame dispatch launch finish_task count_down IsFresh uses
run2 = then_step run1 (called [] [] ([]) (dispatching 10) none refl refl)

abbrev s3 : Tasks
s3 = in_thread [] [] ([]) (run_frame program none (launching 10 (1 ∷ 2 ∷ [])) s2)

run3 : Steps program s0 s3
unfolding run_frame dispatch launch finish_task count_down IsFresh uses
run3 = then_step run2 (called [] [] ([]) (launching 10 (1 ∷ 2 ∷ [])) none refl refl)

abbrev s4 : Tasks
s4 = in_thread [] [] (launching 10 (2 ∷ []) ∷ []) (run_frame program none (dispatching 1) s3)

run4 : Steps program s0 s4
unfolding run_frame dispatch launch finish_task count_down IsFresh uses
run4 = then_step run3 (called [] [] (launching 10 (2 ∷ []) ∷ []) (dispatching 1) none refl refl)

abbrev s5 : Tasks
s5 = in_thread [] [] ([]) (run_frame program none (launching 10 (2 ∷ [])) s4)

run5 : Steps program s0 s5
unfolding run_frame dispatch launch finish_task count_down IsFresh uses
run5 = then_step run4 (called [] [] ([]) (launching 10 (2 ∷ [])) none refl refl)

abbrev s6 : Tasks
s6 = in_thread [] [] (launching 10 [] ∷ []) (run_frame program none (dispatching 2) s5)

run6 : Steps program s0 s6
unfolding run_frame dispatch launch finish_task count_down IsFresh uses
run6 = then_step run5 (called [] [] (launching 10 [] ∷ []) (dispatching 2) none refl refl)

abbrev s7 : Tasks
s7 = in_thread [] [] ([]) (run_frame program none (launching 10 []) s6)

run7 : Steps program s0 s7
unfolding run_frame dispatch launch finish_task count_down IsFresh uses
run7 = then_step run6 (called [] [] ([]) (launching 10 []) none refl refl)

-- The first branch ends.
abbrev s8 : Tasks
s8 = record s7 { threads = (finishing 1 ∷ []) ∷ s7.threads; running = 2 ∷ [] }

run8 : Steps program s0 s8
unfolding run_frame dispatch launch finish_task count_down IsFresh uses
run8 = then_step run7 (ended (2 ∷ []) [] 1 refl)

abbrev s9 : Tasks
s9 = in_thread [] s7.threads [] (run_frame program none (finishing 1) s8)

run9 : Steps program s0 s9
unfolding run_frame dispatch launch finish_task count_down IsFresh uses
run9 = then_step run8 (called [] s7.threads [] (finishing 1) none refl refl)

Steps-IsCounted_example : IsCounted s9
Steps-IsCounted_example =
    Steps-IsCounted program (λ t. none) (λ t. 0) s9 program-small (λ p. omega arith) run9

count_down-last_example :
    (goes_on (count_down 10 s9) ≡ true)
    ↔ (branches 10 (in_thread [] s7.threads [] (count_down 10 s9)) ≡ 0)
unfolding run_frame dispatch launch finish_task count_down IsFresh uses
count_down-last_example =
    count_down-last program (λ t. none) (λ t. 0) s9 [] s7.threads [] 10 program-small
      (λ q. omega arith) run9 refl

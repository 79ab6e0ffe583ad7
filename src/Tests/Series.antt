-- ===== src/Tests/Series.antt =====
-- Runs of a series of src/factory/Workflow.cc.
use tinywf.Prelude.{◌≡◌, refl, true, none, some, List, [], ◌∷◌}
use tinywf.Series.{
  Series, new_series, push_back, push_front, set_last_task, cancel, pop, pop_task, expand_queue,
  expand_if_full,
}
use tinywf.Series.Holds.{new_series-Holds}
use tinywf.Series.Refine.{
  Op, front_op, back_op, last_op, pop_op, run, list_run, run-tasks, Represents, apply-Represents,
}
use tinywf.Series.Cancel.{called_again, cancel-Represents, pop-canceled}

abbrev steps : List Op
steps =
    back_op 11
    ∷ back_op 12
    ∷ pop_op
    ∷ front_op 13
    ∷ last_op 19
    ∷ back_op 14
    ∷ back_op 15
    ∷ back_op 16
    ∷ pop_op
    ∷ pop_op
    ∷ pop_op
    ∷ pop_op
    ∷ pop_op
    ∷ pop_op
    ∷ pop_op
    ∷ []

abbrev fresh : Series
fresh = new_series 1 10 true (λ _. 0)

-- The queue of four slots wraps around and is expanded.
ran :
    run steps fresh
    ≡ some 11 ∷ some 13 ∷ some 12 ∷ some 14 ∷ some 15 ∷ some 16 ∷ some 19 ∷ none ∷ []
unfolding new_series push_back push_front set_last_task pop_task expand_if_full expand_queue
ran = refl

run-tasks_example : run steps fresh ≡ list_run steps ([], none)
run-tasks_example = run-tasks 1 10 true (λ _. 0) steps

-- Two tasks and a last one are left.
abbrev loaded : Series
loaded = set_last_task 19 (push_back 12 (push_back 11 fresh))

loaded-Represents : Represents loaded (11 ∷ 12 ∷ [], some 19)
loaded-Represents =
    (apply-Represents (last_op 19) (push_back 12 (push_back 11 fresh)) (11 ∷ 12 ∷ [], none)
      (apply-Represents (back_op 12) (push_back 11 fresh) (11 ∷ [], none)
        (apply-Represents (back_op 11) fresh ([], none)
          (new_series-Holds 1 10 true (λ _. 0), unfold new_series in refl)).1).1).1

pop-canceled_example :
    (r : Series) × (pop (cancel loaded) ≡ some (none, 11 ∷ 12 ∷ 19 ∷ [], r))
    × (r.finished ≡ true)
    × (r.called ≡ called_again (cancel loaded))
pop-canceled_example =
    pop-canceled (cancel loaded) (11 ∷ 12 ∷ []) (some 19)
      (cancel-Represents loaded (11 ∷ 12 ∷ []) (some 19) loaded-Represents) (unfold cancel in refl)

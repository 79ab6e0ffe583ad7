-- ===== src/SubTask/Counted.antt =====
-- `nleft` of src/task/SubTask.cc counts the branches that have not ended.
use tinywf.Prelude.{
  ℕ, ◌+◌, ◌-◌, ◌%◌, ◌^◌, ◌<◌, ◌≤◌, ◌≡◌, refl, sym, ap, subst, Bool, Option, none, some, List, [],
  ◌∷◌, arith, ◌==◌, if◌then◌else◌, length, Bool-cases, Option-cases, inl, inr,
}
use tinywf.SubTask.{
  Frame, dispatching, launching, finishing, counting, Tasks, set_nleft, remove, dispatch, launch,
  finish_task, count_down,
}
use tinywf.SubTask.Sums.{
  sum_of, is, branch_of-new, branch_of, frame_task, frame_branch, uses, branches, waits,
  branches-set_parent, sum_of-remove,
}

-- No task is in use twice, a parallel task that waits has as many branches to end as its `nleft` says,
-- at least one, and no other task has any.
pub record IsCounted (s : Tasks) : Type 0 where
  pub once : (t : ℕ) → uses t s ≤ 1
  pub counted : (p : ℕ) → branches p s ≡ (if waits p s == 0 then 0 else s.nleft p)
  pub some_left : (p : ℕ) → 0 < waits p s → 0 < s.nleft p
  pub small : (p : ℕ) → s.nleft p < 2 ^ 64

-- A call in a thread, with the tasks that it leaves.
abbrev pub resume : List (List Frame) → List Frame × Tasks → Tasks
resume rest (calls, s) = record s { threads = calls ∷ rest }

abbrev pub at_call : Frame → List (List Frame) → Tasks → Tasks
at_call f rest s = record s { threads = (f ∷ []) ∷ rest }

-- What a parent of `q` counts.
abbrev charged : ℕ → Option ℕ → ℕ
charged q none = 0
charged q (some r) = is q r

module _ (rest : List (List Frame)) (s : Tasks) where
  pub dispatch-IsCounted :
      (o : Option (List ℕ)) (t : ℕ)
      → ((cs : List ℕ) → o ≡ some cs → length cs < 2 ^ 64)
      → IsCounted (at_call (dispatching t) rest s)
      → IsCounted (resume rest (dispatch o t s))
  unfolding dispatch uses branches waits sum_of frame_task frame_branch
  dispatch-IsCounted none t b v = record {
    once = λ u. omega (arith, v.once u);
    counted = λ p. omega (arith, v.counted p);
    some_left = v.some_left;
    small = v.small;
  }
  dispatch-IsCounted (some []) t b v = record {
    once = λ u. omega (arith, v.once u);
    counted = λ p. ground (arith, v.counted p, v.once p);
    some_left = λ p h. ground (arith, v.some_left p h, v.once p);
    small = λ p. ground (arith, v.small p);
  }
  dispatch-IsCounted (some (c ∷ cs)) t b v = record {
    once = λ u. omega (arith, v.once u);
    counted = λ p. ground (arith, v.counted p, v.once p);
    some_left = λ p h. ground (arith, h, v.some_left p);
    small = λ p. ground (arith, v.small p, b (c ∷ cs) refl);
  }

  pub launch-IsCounted :
      (p : ℕ) (cs : List ℕ)
      → ((c : ℕ) (rest' : List ℕ) → cs ≡ c ∷ rest' → uses c (at_call (launching p cs) rest s) ≡ 0)
      → IsCounted (at_call (launching p cs) rest s)
      → IsCounted (resume rest (launch p cs s))
  unfolding launch uses branches waits sum_of frame_task frame_branch
  launch-IsCounted p [] h v = record {
    once = λ u. omega (arith, v.once u);
    counted = λ q. ground (arith, v.counted q);
    some_left = v.some_left;
    small = v.small;
  }
  launch-IsCounted p (c ∷ cs) h v =
      let new = h c cs refl in
      record {
        once = λ u. ground (arith, v.once u, new);
        counted = λ q.
            let moved =
              branches-set_parent c (some p) (record s { threads = rest }) q (omega (arith, new)) in
            ground (arith, v.counted q, moved);
        some_left = v.some_left;
        small = v.small;
      }

  pub finish_task-IsCounted :
      (t : ℕ) (next : Option ℕ)
      → ((n : ℕ) → next ≡ some n → uses n (at_call (finishing t) rest s) ≡ 0)
      → IsCounted (at_call (finishing t) rest s)
      → IsCounted (resume rest (finish_task (s.parent t) next s))
  unfolding finish_task uses branches waits sum_of frame_task frame_branch
  finish_task-IsCounted t (some n) h v =
      let new = h n refl in
      record {
        once = λ u. ground (arith, v.once u, new);
        counted = λ q. omega (
          arith,
          v.counted q,
          branch_of-new s.parent n (s.parent t) q,
          branches-set_parent n (s.parent t) (record s { threads = rest }) q (omega (arith, new)),
        );
        some_left = v.some_left;
        small = v.small;
      }
  finish_task-IsCounted t none h v = elim (Option-cases (s.parent t)) [
    | inl e ↦
        subst (λ o. IsCounted (resume rest (finish_task o none s))) (sym e)
          (record {
            once = λ u. omega (arith, v.once u);
            counted = λ q. omega (arith, v.counted q, ap (charged q) e);
            some_left = v.some_left;
            small = v.small;
          })
    | inr (p, e) ↦
        subst (λ o. IsCounted (resume rest (finish_task o none s))) (sym e)
          (record {
            once = λ u. omega (arith, v.once u);
            counted = λ q. omega (arith, v.counted q, ap (charged q) e);
            some_left = v.some_left;
            small = v.small;
          })
  ]

  pub count_down-IsCounted :
      (p : ℕ) → IsCounted (at_call (counting p) rest s) → IsCounted (resume rest (count_down p s))
  unfolding count_down uses branches waits sum_of frame_task frame_branch
  count_down-IsCounted p v =
      let here : 0 < waits p s = ground (arith, v.counted p) in
      let one : waits p s ≤ 1 = omega (arith, v.once p) in
      let down : (s.nleft p + 2 ^ 64 - 1) % 2 ^ 64 + 1 ≡ s.nleft p =
        omega (arith, v.some_left p here, v.small p) in
      let gone = λ (f : ℕ → ℕ). sum_of-remove f p s.waiting here in
      elim (Bool-cases ((s.nleft p + 2 ^ 64 - 1) % 2 ^ 64 == 0)) [
        | inl e ↦
            subst (λ b. IsCounted (resume rest (outcome p b))) (sym e)
              (record {
                once = λ u. omega (arith, v.once u, gone (is u));
                counted = λ q. ground (
                  arith,
                  v.counted q,
                  gone (branch_of s.parent q),
                  gone (is q),
                  here,
                  one,
                  down,
                  e,
                );
                some_left = λ q h. ground (arith, h, v.some_left q, gone (is q), one);
                small = λ q. ground (arith, v.small q, e);
              })
        | inr e ↦
            subst (λ b. IsCounted (resume rest (outcome p b))) (sym e)
              (record {
                once = λ u. omega (arith, v.once u);
                counted = λ q. ground (arith, v.counted q, down, here);
                some_left = λ q h. ground (arith, h, v.some_left q, e);
                small = λ q. ground (arith, v.small q, down);
              })
      ]
    where
      outcome : ℕ → Bool → List Frame × Tasks
      outcome p b =
          let left = (s.nleft p + 2 ^ 64 - 1) % 2 ^ 64 in
          if b
          then (finishing p ∷ [], record (set_nleft p left s) { waiting = remove p s.waiting })
          else ([], set_nleft p left s)

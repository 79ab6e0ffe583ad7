-- ===== src/ThreadPool/Run.antt =====
-- The runs of a pool of src/common/thrdpool.c keep its invariant.
use tinywf.Prelude.{
  ℕ, ◌≡◌, ◌≢◌, ◌⊎◌, refl, sym, ap, subst, ◌∙◌, Bool, true, false, Option, none, some, List, [], ◌∷◌,
  ◌++◌, arith, ◌==◌, if◌then◌else◌, Bool-cases, inl, inr,
}
use tinywf.ThreadPool.{
  Leaver, absent, joining, Pool, fresh_pool, increase, schedule, join, joined, destroy_step,
  has_returned, remove_leaver,
}
use tinywf.ThreadPool.Chain.{IsLinked}
use tinywf.ThreadPool.Sound.{IsAt, IsSound}
use tinywf.ThreadPool.Steps.{
  Step, creates, schedules, works, leaves, returns, destroys, destroys_inside, goes_on, Runs,
  new_pool, then_step,
}
use tinywf.ThreadPool.Work.{
  append_assoc, append_nil, works-IsSound, leaves-IsSound, returns-IsSound, running, stage_kept,
}
use tinywf.ThreadPool.Destroy.{terminates-IsSound, inside-IsSound, goes_on-IsSound}

creates-IsSound :
    (xs : List ℕ) (p : Pool) (id : ℕ)
    → IsSound xs p
    → p.destroyer ≡ absent
    → IsSound xs (increase id p)
unfolding increase IsAt
creates-IsSound xs p id v e = record {
  counted = omega (arith, v.counted);
  stage = subst (λ d. IsAt d (increase id p)) (sym e) (subst (λ d. IsAt d p) e v.stage);
  entries = v.entries;
}

schedules-IsSound :
    (xs : List ℕ) (p : Pool) (entry : ℕ)
    → IsSound xs p
    → (p.destroyer ≡ absent) ⊎ (p.threads ≢ [])
    → IsSound (xs ++ entry ∷ []) (schedule entry p)
unfolding schedule IsAt
schedules-IsSound xs p entry v h = record {
  counted = v.counted;
  stage = elim h [
    | inl e ↦ subst (λ d. IsAt d (schedule entry p)) (sym e) (subst (λ d. IsAt d p) e v.stage)
    | inr n ↦
        stage_kept p.destroyer p (schedule entry p) n v.stage (running p.destroyer p n v.stage)
  ];
  entries =
      sym (append_assoc (p.taken ++ p.pending) p.queue (entry ∷ []))
      ∙ ap (λ x. x ++ entry ∷ []) v.entries;
}

nothing_scheduled : (xs : List ℕ) (r : Pool) → IsSound xs r → IsSound (xs ++ []) r
nothing_scheduled xs r = subst (λ zs. IsSound zs r) (sym (append_nil xs))

Step-IsSound : (xs ys : List ℕ) (p r : Pool) → IsSound xs p → Step p ys r → IsSound (xs ++ ys) r
Step-IsSound xs _ p _ v (creates id e) = nothing_scheduled xs _ (creates-IsSound xs p id v e)
Step-IsSound xs _ p _ v (schedules entry h) = schedules-IsSound xs p entry v h
Step-IsSound xs _ p _ v (works before after t place r e f) =
    nothing_scheduled xs _ (works-IsSound xs p before after t place r v e f)
Step-IsSound xs _ p _ v (leaves before after t e f) =
    nothing_scheduled xs _ (leaves-IsSound xs p before after t v e)
Step-IsSound xs _ p _ v (returns before after l rest e f j) =
    nothing_scheduled xs _ (returns-IsSound xs p before after l rest v e f j)
Step-IsSound xs _ p _ v (destroys e) = nothing_scheduled xs _ (terminates-IsSound xs p v e)
Step-IsSound xs _ p _ v (destroys_inside before after t entry e f g) =
    nothing_scheduled xs _ (inside-IsSound xs p before after t v e f)
Step-IsSound xs _ p r v (goes_on _ f) =
    nothing_scheduled xs r (goes_on-IsSound xs p.destroyer p r refl v f)

fresh_pool-IsSound : IsSound [] fresh_pool
unfolding IsAt IsLinked
fresh_pool-IsSound = record { counted = refl; stage = (refl, refl, refl); entries = refl }

pub Runs-IsSound : (xs : List ℕ) (p : Pool) → Runs xs p → IsSound xs p
Runs-IsSound _ _ new_pool = fresh_pool-IsSound
Runs-IsSound _ r (then_step {xs = xs} {ys = ys} {p = p} runs step) =
    Step-IsSound xs ys p r (Runs-IsSound xs p runs) step

-- Some thread that left can return now.
unfoldable pub CanReturn : List Leaver → Type 0
CanReturn xs =
    (before : List Leaver) × (l : Leaver) × (after : List Leaver) × (rest : List Leaver) × (xs
      ≡ before ++ l ∷ after)
    × (l.returned ≡ false)
    × (join l.joins after ≡ some rest)

can_join :
    (o : Option ℕ) (xs : List Leaver)
    → IsLinked o xs
    → ((rest : List Leaver) × (join o xs ≡ some rest)) ⊎ CanReturn xs
unfolding IsLinked join has_returned remove_leaver CanReturn
can_join o [] h = inl ([], ap (λ q. join q []) h)
can_join o (x ∷ xs) (h, l, r) = elim (Bool-cases x.returned) [
  | inl e ↦
      let same : (x.id == x.id) ≡ true = ground arith in
      inl (
        xs,
        ap (λ q. join q (x ∷ xs)) h
            ∙ ap
                (λ b.
                  if (if b then x.returned else has_returned x.id xs)
                  then some (if b then xs else x ∷ remove_leaver x.id xs)
                  else none)
                same
            ∙ ap (λ b. if b then some xs else none) e,
      )
  | inr e ↦ elim (can_join x.joins xs l) [
    | inl (rest, j) ↦ inr ([], x, xs, rest, refl, e, j)
    | inr (before, y, after, rest, s, f, j) ↦ inr (x ∷ before, y, after, rest, ap (◌∷◌ x) s, f, j)
  ]
]

-- The threads never wait for each other in vain: while `thrdpool_destroy` joins the last thread, in any run,
-- it can go on, or a thread that left can return.
pub joining-CanReturn :
    (xs : List ℕ) (p : Pool) (in_pool : Bool)
    → Runs xs p
    → p.destroyer ≡ joining in_pool
    → ((r : Pool) × (destroy_step p.destroyer p ≡ some r)) ⊎ CanReturn p.leavers
unfolding IsAt destroy_step joined
joining-CanReturn xs p in_pool runs e =
    let v = Runs-IsSound xs p runs in
    let (h, t) = subst (λ d. IsAt d p) e v.stage in
    elim (can_join p.tid p.leavers h.0) [
      | inl (rest, j) ↦ inl (_, ap (λ d. destroy_step d p) e ∙ ap (joined in_pool p) j)
      | inr c ↦ inr c
    ]

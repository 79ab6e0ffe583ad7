-- ===== src/ThreadPool/Destroy.antt =====
-- What `thrdpool_destroy` of src/common/thrdpool.c keeps.
use tinywf.Prelude.{
  ℕ, ◌≡◌, refl, sym, ap, subst, ◌∙◌, true, false, Option, none, some, List, [], ◌∷◌, ◌++◌, arith,
  ◌==◌, length, Bool-cases, inl, inr,
}
use tinywf.ThreadPool.{
  Thread, Leaver, Destroyer, absent, terminating, joining, draining, gone, Pool, terminate_by, join,
  joined, destroy_step,
}
use tinywf.ThreadPool.Chain.{join-rest}
use tinywf.ThreadPool.Sound.{IsAt, IsSound}
use tinywf.ThreadPool.Work.{length-thread, append_assoc}

pub terminates-IsSound :
    (xs : List ℕ) (p : Pool)
    → IsSound xs p
    → p.destroyer ≡ absent
    → IsSound xs (terminate_by false p)
unfolding terminate_by IsAt
terminates-IsSound xs p v e = record {
  counted = v.counted;
  stage = subst (λ d. IsAt d p) e v.stage;
  entries = v.entries;
}

pub inside-IsSound :
    (xs : List ℕ) (p : Pool) (before after : List Thread) (t : Thread)
    → IsSound xs p
    → p.destroyer ≡ absent
    → p.threads ≡ before ++ t ∷ after
    → IsSound xs (record (terminate_by true p) { threads = before ++ after })
unfolding terminate_by IsAt
inside-IsSound xs p before after t v e f = record {
  counted = omega (arith, v.counted, ap length f, (length-thread before after t t).1);
  stage = subst (λ d. IsAt d p) e v.stage;
  entries = v.entries;
}

pub no_threads : {A : Type 0} (xs : List A) → length xs ≡ 0 → xs ≡ []
no_threads [] h = refl
no_threads (x ∷ xs) h = absurd (omega (arith, h))

pub goes_on-IsSound :
    (xs : List ℕ) (d : Destroyer) (p r : Pool)
    → p.destroyer ≡ d
    → IsSound xs p
    → destroy_step d p ≡ some r
    → IsSound xs r
unfolding destroy_step IsAt joined
goes_on-IsSound xs absent p r e v f = absurd (ground (arith, f))
goes_on-IsSound xs (gone b) p r e v f = absurd (ground (arith, f))
goes_on-IsSound xs (terminating b) p r e v f = elim (Bool-cases (p.nthreads == 0)) [
  | inl q ↦
      let made : record p { destroyer = joining b } ≡ r = ground (arith, f, q) in
      let none_left : length p.threads ≡ 0 = ground (arith, q, v.counted) in
      subst (IsSound xs) made (record {
        counted = v.counted;
        stage = (subst (λ d. IsAt d p) e v.stage, no_threads p.threads none_left);
        entries = v.entries;
      })
  | inr q ↦ absurd (ground (arith, f, q))
]
goes_on-IsSound xs (joining b) p r e v f = by_join (join p.tid p.leavers) refl f
  where
    by_join :
        (o : Option (List Leaver)) → join p.tid p.leavers ≡ o → joined b p o ≡ some r → IsSound xs r
    by_join none j g = absurd (ground (arith, g))
    by_join (some rest) j g =
        let made : record p { leavers = rest; destroyer = draining b } ≡ r = ground (arith, g) in
        let (h, t) = subst (λ d. IsAt d p) e v.stage in
        subst (IsSound xs) made (record {
          counted = v.counted;
          stage = (h.1, t, join-rest p.tid p.leavers rest h.0 j);
          entries = v.entries;
        })
goes_on-IsSound xs (draining b) p r e v f = by_queue p.queue refl f
  where
    hand_over : List ℕ → Option Pool
    hand_over [] = some (record p { destroyer = gone b; freed = true })
    hand_over (entry ∷ rest) = some (record p { queue = rest; pending = p.pending ++ entry ∷ [] })

    by_queue : (q : List ℕ) → p.queue ≡ q → hand_over q ≡ some r → IsSound xs r
    by_queue [] d g =
        let made : record p { destroyer = gone b; freed = true } ≡ r = ground (arith, g) in
        let (h, t, l) = subst (λ d. IsAt d p) e v.stage in
        subst (IsSound xs) made
          (record { counted = v.counted; stage = (d, t, l); entries = v.entries })
    by_queue (entry ∷ rest) d g =
        let made : record p { queue = rest; pending = p.pending ++ entry ∷ [] } ≡ r =
          ground (arith, g) in
        let moved : (p.taken ++ (p.pending ++ entry ∷ [])) ++ rest
            ≡ (p.taken ++ p.pending) ++ entry ∷ rest =
          ap (λ x. x ++ rest) (sym (append_assoc p.taken p.pending (entry ∷ [])))
          ∙ append_assoc (p.taken ++ p.pending) (entry ∷ []) rest in
        subst (IsSound xs) made (record {
          counted = v.counted;
          stage =
              subst (λ d. IsAt d (record p { queue = rest; pending = p.pending ++ entry ∷ [] }))
                (sym e) (subst (λ d. IsAt d p) e v.stage);
          entries = moved ∙ ap (λ x. (p.taken ++ p.pending) ++ x) (sym d) ∙ v.entries;
        })

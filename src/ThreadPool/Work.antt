-- ===== src/ThreadPool/Work.antt =====
-- What the threads of a pool of src/common/thrdpool.c keep.
use tinywf.Prelude.{
  ℕ, ◌+◌, ◌<◌, ◌≡◌, ◌≢◌, refl, sym, ap, subst, ◌∙◌, true, false, Option, none, some, List, [], ◌∷◌,
  ◌++◌, arith, ◌==◌, if◌then◌else◌, length,
}
use tinywf.ThreadPool.{
  Place, testing, fetching, behind_task, behind_loop, returning, working, Thread, Leaver, Destroyer,
  absent, terminating, joining, draining, gone, Pool, thread_step, count_off, join,
}
use tinywf.ThreadPool.Chain.{IsLinked, IsLinked-returned, not_nil}
use tinywf.ThreadPool.Sound.{IsRunning, IsAt, IsSound}

pub length-thread {ℓ} :
    {A : Type ℓ} (a b : List A) (x y : A)
    → (length (a ++ x ∷ b) ≡ length (a ++ y ∷ b)) × (length (a ++ x ∷ b) ≡ length (a ++ b) + 1)
length-thread [] b x y = (refl, omega arith)
length-thread (z ∷ a) b x y =
    let (e, f) = length-thread a b x y in (omega (arith, e), omega (arith, f))

pub append_assoc {ℓ} : {A : Type ℓ} (a b c : List A) → (a ++ b) ++ c ≡ a ++ (b ++ c)
append_assoc [] b c = refl
append_assoc (x ∷ a) b c = ap (◌∷◌ x) (append_assoc a b c)

pub append_nil {ℓ} : {A : Type ℓ} (a : List A) → a ++ [] ≡ a
append_nil [] = refl
append_nil (x ∷ a) = ap (◌∷◌ x) (append_nil a)

-- While a thread is left, the destroyer has not come further than to wait.
pub running : (d : Destroyer) (p : Pool) → p.threads ≢ [] → IsAt d p → IsRunning p
unfolding IsAt
running absent p n h = h
running (terminating c) p n h = h
running (joining c) p n (h, t) = h
running (draining c) p n (f, t, l) = absurd (n t)
running (gone c) p n (f, t, l) = absurd (n t)

pub stage_kept : (d : Destroyer) (p r : Pool) → p.threads ≢ [] → IsAt d p → IsRunning r → IsAt d r
unfolding IsAt
stage_kept absent p r n h k = k
stage_kept (terminating c) p r n h k = k
stage_kept (joining c) p r n (h, t) k = absurd (n t)
stage_kept (draining c) p r n (f, t, l) k = absurd (n t)
stage_kept (gone c) p r n (f, t, l) k = absurd (n t)

pub thread_left :
    (p : Pool) (before after : List Thread) (t : Thread)
    → p.threads ≡ before ++ t ∷ after
    → p.threads ≢ []
thread_left p before after t e h = not_nil before t after (sym e ∙ h)

-- A thread at work changes no more than the queue and what was taken.
record IsWork (p r : Pool) : Type 0 where
  nthreads : r.nthreads ≡ p.nthreads
  tid : r.tid ≡ p.tid
  leavers : r.leavers ≡ p.leavers
  destroyer : r.destroyer ≡ p.destroyer
  freed : r.freed ≡ p.freed
  pending : r.pending ≡ p.pending
  entries : p.pending ≡ [] → r.taken ++ r.pending ++ r.queue ≡ p.taken ++ p.pending ++ p.queue

same-IsWork : (p r : Pool) → p ≡ r → IsWork p r
same-IsWork p r e = subst (IsWork p) e (record {
  nthreads = refl;
  tid = refl;
  leavers = refl;
  destroyer = refl;
  freed = refl;
  pending = refl;
  entries = λ h. refl;
})

abbrev fetch : Pool → List ℕ → Option (Place × Pool)
fetch p [] = if p.nonblock then some (behind_loop, p) else none
fetch p (entry ∷ rest) =
    some (working entry, record p { queue = rest; taken = p.taken ++ entry ∷ [] })

thread_step-IsWork :
    (place : Place) (p : Pool) (next : Place) (r : Pool)
    → 0 < p.nthreads
    → thread_step place p ≡ some (next, r)
    → IsWork p r
unfolding thread_step
thread_step-IsWork testing p next r h e = same-IsWork p r (ground (arith, e))
thread_step-IsWork fetching p next r h e = fetched p.queue refl e
  where
    fetched : (q : List ℕ) → p.queue ≡ q → fetch p q ≡ some (next, r) → IsWork p r
    fetched [] d f = same-IsWork p r (ground (arith, f))
    fetched (entry ∷ rest) d f =
        let moved : (p.taken ++ entry ∷ []) ++ [] ++ rest ≡ p.taken ++ [] ++ entry ∷ rest =
          ap (λ x. x ++ rest) (append_nil (p.taken ++ entry ∷ []))
          ∙ append_assoc p.taken (entry ∷ []) rest
          ∙ ap (λ x. x ++ entry ∷ rest) (sym (append_nil p.taken)) in
        let made : record p { queue = rest; taken = p.taken ++ entry ∷ [] } ≡ r =
          ground (arith, f) in
        subst (IsWork p) made (record {
          nthreads = refl;
          tid = refl;
          leavers = refl;
          destroyer = refl;
          freed = refl;
          pending = refl;
          entries = λ g.
              ap (λ x. (p.taken ++ entry ∷ []) ++ x ++ rest) g
              ∙ moved
              ∙ ap (λ x. p.taken ++ x ++ entry ∷ rest) (sym g)
              ∙ ap (λ x. p.taken ++ p.pending ++ x) (sym d);
        })
thread_step-IsWork (working entry) p next r h e = same-IsWork p r (ground (arith, e))
thread_step-IsWork behind_task p next r h e =
    let some_thread : (p.nthreads == 0) ≡ false = ground (arith, h) in
    same-IsWork p r (ground (arith, e, some_thread))
thread_step-IsWork behind_loop p next r h e = absurd (ground (arith, e))
thread_step-IsWork returning p next r h e = absurd (ground (arith, e))

pub works-IsSound :
    (xs : List ℕ) (p : Pool) (before after : List Thread) (t : Thread) (place : Place) (r : Pool)
    → IsSound xs p
    → p.threads ≡ before ++ t ∷ after
    → thread_step t.place p ≡ some (place, r)
    → IsSound xs (record r { threads = before ++ record t { place = place } ∷ after })
unfolding IsLinked
works-IsSound xs p before after t place r v e f =
    let left = thread_left p before after t e in
    let some_thread : 0 < p.nthreads =
      omega (arith, v.counted, ap length e, (length-thread before after t t).1) in
    let w = thread_step-IsWork t.place p place r some_thread f in
    record {
      counted = omega (
        arith,
        w.nthreads,
        v.counted,
        ap length e,
        (length-thread before after t (record t { place = place })).0,
      );
      stage =
          let (l, fr, pe) = running p.destroyer p left v.stage in
          subst (λ d. IsAt d (record r { threads = before ++ record t { place = place } ∷ after }))
            (sym w.destroyer)
            (stage_kept p.destroyer p _ left v.stage (
              subst (λ o. IsLinked o r.leavers) (sym w.tid)
                  (subst (IsLinked p.tid) (sym w.leavers) l),
              w.freed ∙ fr,
              w.pending ∙ pe,
            ));
      entries = w.entries (running p.destroyer p left v.stage).2 ∙ v.entries;
    }

pub leaves-IsSound :
    (xs : List ℕ) (p : Pool) (before after : List Thread) (t : Thread)
    → IsSound xs p
    → p.threads ≡ before ++ t ∷ after
    → IsSound xs (record (count_off t.id p) { threads = before ++ after })
unfolding count_off IsLinked
leaves-IsSound xs p before after t v e =
    let left = thread_left p before after t e in
    record {
      counted = omega (arith, v.counted, ap length e, (length-thread before after t t).1);
      stage =
          let (l, fr, pe) = running p.destroyer p left v.stage in
          stage_kept p.destroyer p _ left v.stage
            ((refl, l, λ q. absurd (ground (arith, q))), fr, pe);
      entries = v.entries;
    }

pub returns-IsSound :
    (xs : List ℕ) (p : Pool) (before after : List Leaver) (l : Leaver) (rest : List Leaver)
    → IsSound xs p
    → p.leavers ≡ before ++ l ∷ after
    → l.returned ≡ false
    → join l.joins after ≡ some rest
    → IsSound xs
        (record p { leavers = before ++ record l { joins = none; returned = true } ∷ rest })
unfolding IsAt
returns-IsSound xs p before after l rest v e f j = record {
  counted = v.counted;
  stage = at_stage p.destroyer v.stage;
  entries = v.entries;
}
  where
    r : Pool
    r = record p { leavers = before ++ record l { joins = none; returned = true } ∷ rest }

    linked : IsRunning p → IsRunning r
    linked (h, fr, pe) =
        (IsLinked-returned p.tid before after l rest f (subst (IsLinked p.tid) e h) j, fr, pe)

    at_stage : (d : Destroyer) → IsAt d p → IsAt d r
    at_stage absent h = linked h
    at_stage (terminating c) h = linked h
    at_stage (joining c) (h, t) = (linked h, t)
    at_stage (draining c) (h, t, k) = absurd (not_nil before l after (sym e ∙ k))
    at_stage (gone c) (h, t, k) = absurd (not_nil before l after (sym e ∙ k))

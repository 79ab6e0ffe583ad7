-- ===== src/Parallel/Build.antt =====
-- Both ways to make a parallel work in src/factory/Workflow.cc, and what `series_at` finds in it.
use tinywf.Prelude.{
  ℕ, zero, suc, ◌+◌, ◌*◌, ◌≤◌, ◌<◌, ◌≡◌, refl, sym, subst, Bool, true, false, Option, none, some,
  List, [], ◌∷◌, ◌++◌, arith, ltb, if◌then◌else◌, length, replicate, length-replicate, get_elem?,
  get_elem?-eq-get_or, Bool-cases, inl, inr,
}
use tinywf.Sched.Ends.{length-append_one}
use tinywf.Parallel.{
  ParallelWork, Store, mark, new_parallel, store_at, fill, constructed, new_parallel_of, series_at,
}
use tinywf.Parallel.Holds.{Holds, Represents, firsts, store_at-Holds}
use tinywf.Parallel.Add.{
  add_all, are_free, marked, IsBuilt, add_all-IsBuilt, Holds-first, append_one_more, append_none,
  firsts-mark,
}

new_parallel-Represents :
    (callback : Bool) (first : ℕ → ℕ) → Represents (new_parallel callback) [] first
unfolding new_parallel
new_parallel-Represents callback first = record {
  positive = omega arith;
  second_half = refl;
  count = refl;
  cells = record {
    size = refl;
    room = omega arith;
    tasks = λ i p. absurd (omega (arith, p));
    series = λ i p. absurd (omega (arith, p));
  };
}

IsFilled : ℕ → List ℕ → List ℕ → Store → Option (List ℕ × Store) → Type 0
IsFilled size ys xs store none = are_free xs store ≡ false
IsFilled size ys xs store (some (buf, r)) =
    (are_free xs store ≡ true) × Holds buf size (ys ++ xs) (firsts store) × (r ≡ marked xs store)

fill_more :
    (size : ℕ) (ys : List ℕ) (x : ℕ) (xs : List ℕ) (store : Store) (o : Option (List ℕ × Store))
    → (store x).in_parallel ≡ false
    → IsFilled size (ys ++ x ∷ []) xs (mark x store) o
    → IsFilled size ys (x ∷ xs) store o
unfolding IsFilled are_free marked
fill_more size ys x xs store none e h = ground (arith, e, h)
fill_more size ys x xs store (some (buf, r)) e (f, v, s) = (
  ground (arith, e, f),
  Holds-first buf size (ys ++ x ∷ xs) (firsts (mark x store)) (firsts store) (firsts-mark x store)
      (subst (λ zs. Holds buf size zs (firsts (mark x store))) (append_one_more ys x xs) v),
  s,
)

fill-IsFilled :
    (xs ys : List ℕ) (buf : List ℕ) (store : Store) (size i : ℕ)
    → i ≡ length ys
    → i + length xs ≤ size
    → Holds buf size ys (firsts store)
    → IsFilled size ys xs store (fill i xs (buf, store) size)
unfolding fill IsFilled are_free marked
fill-IsFilled [] ys buf store size i n h v =
    (refl, subst (λ zs. Holds buf size zs (firsts store)) (sym (append_none ys)) v, refl)
fill-IsFilled (x ∷ xs) ys buf store size i n h v = by_test (store x).in_parallel refl (
    fill-IsFilled xs (ys ++ x ∷ []) (store_at i x store buf size) (mark x store) size (i + 1)
      (omega (arith, n, length-append_one ys x)) (omega (arith, h)))
  where
    stored : Holds (store_at i x store buf size) size (ys ++ x ∷ []) (firsts (mark x store))
    stored =
        Holds-first _ size (ys ++ x ∷ []) (firsts store) (firsts (mark x store))
          (λ y. sym (firsts-mark x store y))
          (subst (λ k. Holds (store_at k x store buf size) size (ys ++ x ∷ []) (firsts store))
            (sym n) (store_at-Holds buf size ys store x (omega (arith, h, n)) v))

    by_test :
        (b : Bool)
        → (store x).in_parallel ≡ b
        → (Holds (store_at i x store buf size) size (ys ++ x ∷ []) (firsts (mark x store))
            → IsFilled size
                (ys ++ x ∷ [])
                xs
                (mark x store)
                (fill (i + 1) xs (store_at i x store buf size, mark x store) size))
        → IsFilled size ys
            (x ∷ xs)
            store
            (if b then none else fill (i + 1) xs (store_at i x store buf size, mark x store) size)
    by_test true e rest = ground (arith, e)
    by_test false e rest = fill_more size ys x xs store _ e (rest stored)

constructed-IsBuilt :
    (callback : Bool) (size : ℕ) (xs : List ℕ) (store : Store) (o : Option (List ℕ × Store))
    → 0 < size
    → IsFilled size [] xs store o
    → IsBuilt [] xs store (constructed callback (length xs) size o)
unfolding constructed IsFilled IsBuilt
constructed-IsBuilt callback size xs store none p h = h
constructed-IsBuilt callback size xs store (some (buf, r)) p (f, v, s) =
    (f, record { positive = p; second_half = refl; count = refl; cells = v }, s)

new_parallel_of-IsBuilt :
    (xs : List ℕ) (callback : Bool) (store : Store)
    → IsBuilt [] xs store (new_parallel_of xs callback store)
unfolding new_parallel_of
new_parallel_of-IsBuilt xs callback store =
    let size = if ltb 4 (length xs) then length xs else 4 in
    constructed-IsBuilt callback size xs store _ (ground arith) (
      fill-IsFilled xs [] (replicate (2 * size) 0) store size 0 refl (ground arith) (record {
        size = length-replicate (2 * size) 0;
        room = omega arith;
        tasks = λ i p. absurd (omega (arith, p));
        series = λ i p. absurd (omega (arith, p));
      }))

-- Series are added one by one, or all at once: either way the buffer has exactly these series and their
-- first tasks, in order, whatever their number, and they are marked; the assertion fails if and only if
-- one of them runs in parallel already or comes twice.
pub parallel-IsBuilt :
    (xs : List ℕ) (callback : Bool) (store : Store)
    → IsBuilt [] xs store (add_all xs (some (new_parallel callback, store)))
      × IsBuilt [] xs store (new_parallel_of xs callback store)
parallel-IsBuilt xs callback store = (
  add_all-IsBuilt xs [] (new_parallel callback) store
      (new_parallel-Represents callback (firsts store)),
  new_parallel_of-IsBuilt xs callback store,
)

get_elem?_beyond : (xs : List ℕ) (i : ℕ) → length xs ≤ i → get_elem? xs i ≡ none
get_elem?_beyond [] i h = refl
get_elem?_beyond (x ∷ xs) zero h = absurd (omega arith)
get_elem?_beyond (x ∷ xs) (suc i) h = get_elem?_beyond xs i (omega arith)

-- `series_at` finds the series of a parallel work by their places, and NULL behind the last.
pub series_at-get_elem? :
    (w : ParallelWork) (xs : List ℕ) (first : ℕ → ℕ) (i : ℕ)
    → Represents w xs first
    → series_at i w ≡ get_elem? xs i
unfolding series_at
series_at-get_elem? w xs first i r = elim (Bool-cases (ltb i w.subtasks_nr)) [
  | inl e ↦
      let p : i < length xs = ground (arith, e, r.count) in
      ground (arith, e, get_elem?-eq-get_or xs i 0 p, r.cells.series i p, r.second_half)
  | inr e ↦ ground (arith, e, get_elem?_beyond xs i (ground (arith, e, r.count)))
]

-- ===== src/Parallel/Add.antt =====
-- Adding series to a parallel work of src/factory/Workflow.cc, one by one or all at once.
use tinywf.Prelude.{
  ℕ, ◌+◌, ◌<◌, ◌≡◌, refl, sym, ap, subst, ◌∙◌, Bool, true, false, Option, none, some, List, [], ◌∷◌,
  ◌++◌, ◌&&◌, not, arith, ◌==◌, if◌then◌else◌, length, get_or, Bool-cases, inl, inr,
}
use tinywf.Sched.Ends.{length-append_one}
use tinywf.Parallel.{ParallelWork, Store, mark, expand_buf, store_at, add_series}
use tinywf.Parallel.Holds.{Holds, Represents, firsts, store_at-Holds, expand_buf-Represents}

-- `add_series` for each of `xs`.
unfoldable pub add_all : List ℕ → Option (ParallelWork × Store) → Option (ParallelWork × Store)
add_all xs none = none
add_all [] (some p) = some p
add_all (x ∷ xs) (some p) = add_all xs (add_series x p)

-- None of them runs in parallel, and they are different.
unfoldable pub are_free : List ℕ → Store → Bool
are_free [] store = true
are_free (x ∷ xs) store = not (store x).in_parallel && are_free xs (mark x store)

unfoldable pub marked : List ℕ → Store → Store
marked [] store = store
marked (x ∷ xs) store = marked xs (mark x store)

-- The work has `ys` and then `xs`, which are marked, or the assertion failed.
unfoldable pub IsBuilt : List ℕ → List ℕ → Store → Option (ParallelWork × Store) → Type 0
IsBuilt ys xs store none = are_free xs store ≡ false
IsBuilt ys xs store (some (w, r)) =
    (are_free xs store ≡ true) × Represents w (ys ++ xs) (firsts store) × (r ≡ marked xs store)

-- Marking does not change the first tasks.
pub firsts-mark : (x : ℕ) (store : Store) (y : ℕ) → firsts (mark x store) y ≡ firsts store y
firsts-mark x store y = elim (Bool-cases (y == x)) [
  | inl e ↦
      let same : y ≡ x = ground (arith, e) in
      ap (λ b. (if b then record (store x) { in_parallel = true } else store y).first) e
      ∙ ap (firsts store) (sym same)
  | inr e ↦ ap (λ b. (if b then record (store x) { in_parallel = true } else store y).first) e
]

-- A step of adding: the work has `xs`, and gets `x`.
pub one_more-Represents :
    (w : ParallelWork) (xs : List ℕ) (store : Store) (x : ℕ)
    → length xs < w.buf_size
    → Represents w xs (firsts store)
    → Represents
        (record w {
          buf = store_at w.subtasks_nr x store w.buf w.all_series;
          subtasks_nr = w.subtasks_nr + 1;
        })
        (xs ++ x ∷ [])
        (firsts store)
one_more-Represents w xs store x p r = record {
  positive = r.positive;
  second_half = r.second_half;
  count = omega (arith, r.count, length-append_one xs x);
  cells =
      subst
        (λ n.
          Holds (store_at n x store w.buf w.all_series) w.buf_size (xs ++ x ∷ []) (firsts store))
        (sym r.count)
        (subst
          (λ n.
            Holds (store_at (length xs) x store w.buf n) w.buf_size (xs ++ x ∷ []) (firsts store))
          (sym r.second_half) (store_at-Holds w.buf w.buf_size xs store x p r.cells));
}

pub Holds-first :
    (buf : List ℕ) (n : ℕ) (xs : List ℕ) (f g : ℕ → ℕ)
    → ((y : ℕ) → f y ≡ g y)
    → Holds buf n xs f
    → Holds buf n xs g
Holds-first buf n xs f g e h = record {
  size = h.size;
  room = h.room;
  tasks = λ i p. h.tasks i p ∙ e (get_or xs i 0);
  series = h.series;
}

Represents-first :
    (w : ParallelWork) (xs : List ℕ) (f g : ℕ → ℕ)
    → ((y : ℕ) → f y ≡ g y)
    → Represents w xs f
    → Represents w xs g
Represents-first w xs f g e r = record {
  positive = r.positive;
  second_half = r.second_half;
  count = r.count;
  cells = Holds-first w.buf w.buf_size xs f g e r.cells;
}

pub append_one_more : (ys : List ℕ) (x : ℕ) (xs : List ℕ) → (ys ++ x ∷ []) ++ xs ≡ ys ++ x ∷ xs
append_one_more [] x xs = refl
append_one_more (y ∷ ys) x xs = ap (◌∷◌ y) (append_one_more ys x xs)

-- The buffer that the next series is stored in has room.
abbrev grown : ParallelWork → ParallelWork
grown w = if w.subtasks_nr == w.buf_size then expand_buf w else w

grown-Represents :
    (w : ParallelWork) (ys : List ℕ) (first : ℕ → ℕ)
    → Represents w ys first
    → Represents (grown w) ys first × (length ys < (grown w).buf_size)
unfolding expand_buf
grown-Represents w ys first r = by_test (w.subtasks_nr == w.buf_size) refl
  where
    by_test :
        (b : Bool)
        → (w.subtasks_nr == w.buf_size) ≡ b
        → Represents (if b then expand_buf w else w) ys first
          × (length ys < (if b then expand_buf w else w).buf_size)
    by_test true e =
        (expand_buf-Represents w ys first r, omega (arith, r.count, r.positive, r.cells.room))
    by_test false e = (r, ground (arith, e, r.count, r.cells.room))

-- `add_series`, by the outcome of the assertion.
abbrev added : ℕ → ParallelWork → Store → Bool → Option (ParallelWork × Store)
added x c store b =
    if b
    then none
    else some (
      record c {
        buf = store_at c.subtasks_nr x store c.buf c.all_series;
        subtasks_nr = c.subtasks_nr + 1;
      },
      mark x store,
    )

add_series-added :
    (w : ParallelWork) (store : Store) (x : ℕ)
    → add_series x (w, store) ≡ added x (grown w) store (store x).in_parallel
unfolding add_series
add_series-added w store x = refl

-- What is built of a longer list.
lifted :
    (ys : List ℕ) (x : ℕ) (xs : List ℕ) (store : Store) (o : Option (ParallelWork × Store))
    → (store x).in_parallel ≡ false
    → IsBuilt (ys ++ x ∷ []) xs (mark x store) o
    → IsBuilt ys (x ∷ xs) store o
unfolding IsBuilt are_free marked
lifted ys x xs store none e h = ground (arith, h)
lifted ys x xs store (some (w, r)) e (f, v, s) = (
  ground (arith, e, f),
  Represents-first w (ys ++ x ∷ xs) (firsts (mark x store)) (firsts store) (firsts-mark x store)
      (subst (λ zs. Represents w zs (firsts (mark x store))) (append_one_more ys x xs) v),
  s,
)

pub append_none : (ys : List ℕ) → ys ++ [] ≡ ys
append_none [] = refl
append_none (y ∷ ys) = ap (◌∷◌ y) (append_none ys)

pub add_all-IsBuilt :
    (xs ys : List ℕ) (w : ParallelWork) (store : Store)
    → Represents w ys (firsts store)
    → IsBuilt ys xs store (add_all xs (some (w, store)))
unfolding add_all IsBuilt are_free marked
add_all-IsBuilt [] ys w store r =
    (refl, subst (λ zs. Represents w zs (firsts store)) (sym (append_none ys)) r, refl)
add_all-IsBuilt (x ∷ xs) ys w store r = elim (Bool-cases (store x).in_parallel) [
  | inl e ↦
      subst (λ o. IsBuilt ys (x ∷ xs) store (add_all xs o))
        (sym (add_series-added w store x ∙ ap (added x (grown w) store) e)) (fails e xs)
  | inr e ↦
      let (g, room) = grown-Represents w ys (firsts store) r in
      let more = one_more-Represents (grown w) ys store x room g in
      subst (λ o. IsBuilt ys (x ∷ xs) store (add_all xs o))
        (sym (add_series-added w store x ∙ ap (added x (grown w) store) e))
        (lifted ys x xs store (add_all xs (added x (grown w) store false)) e (
          add_all-IsBuilt xs (ys ++ x ∷ []) _ (mark x store) (
            Represents-first _ (ys ++ x ∷ []) (firsts store) (firsts (mark x store))
              (λ y. sym (firsts-mark x store y)) more)))
]
  where
    fails :
        (store x).in_parallel ≡ true → (zs : List ℕ) → IsBuilt ys (x ∷ xs) store (add_all zs none)
    fails e [] = ground (arith, e)
    fails e (z ∷ zs) = ground (arith, e)

-- ===== src/Parallel/Holds.antt =====
-- The buffer of a parallel work of src/factory/Workflow.cc holds the series that were added, in order.
use tinywf.Prelude.{
  ℕ, ◌+◌, ◌-◌, ◌*◌, ◌≤◌, ◌<◌, ◌≡◌, refl, ap, ◌∙◌, List, [], ◌∷◌, ◌++◌, arith, ◌==◌, length,
  length-set, get_or, set, replicate, length-replicate, Bool-cases, inl, inr,
}
use tinywf.Sched.Table.{get_or-set}
use tinywf.Sched.Ends.{get_or-append, length-append_one}
use tinywf.Parallel.{ParallelWork, Store, memcpy, expand_buf, store_at}
use tinywf.Parallel.Copy.{length-memcpy, get_or-memcpy}

-- The first `length xs` cells of the two halves are the first tasks of `xs`, and `xs`.
pub record Holds (buf : List ℕ) (buf_size : ℕ) (xs : List ℕ) (first : ℕ → ℕ) : Type 0 where
  pub size : length buf ≡ 2 * buf_size
  pub room : length xs ≤ buf_size
  pub tasks : (i : ℕ) → i < length xs → get_or buf i 0 ≡ first (get_or xs i 0)
  pub series : (i : ℕ) → i < length xs → get_or buf (buf_size + i) 0 ≡ get_or xs i 0

pub record Represents (w : ParallelWork) (xs : List ℕ) (first : ℕ → ℕ) : Type 0 where
  pub positive : 0 < w.buf_size
  pub second_half : w.all_series ≡ w.buf_size
  pub count : w.subtasks_nr ≡ length xs
  pub cells : Holds w.buf w.buf_size xs first

abbrev pub firsts : Store → ℕ → ℕ
firsts store x = (store x).first

pub store_at-Holds :
    (buf : List ℕ) (size : ℕ) (xs : List ℕ) (store : Store) (x : ℕ)
    → length xs < size
    → Holds buf size xs (firsts store)
    → Holds (store_at (length xs) x store buf size) size (xs ++ x ∷ []) (firsts store)
unfolding store_at
store_at-Holds buf size xs store x p h =
    let whole = length-set buf (size + length xs) x in
    let slot = λ (k : ℕ).
      get_or-set (set buf (size + length xs) x) (length xs) k (store x).first
        (omega (arith, h.size, p, whole)) in
    let below = λ (k : ℕ). get_or-set buf (size + length xs) k x (omega (arith, h.size, p)) in
    record {
      size = length-set (set buf (size + length xs) x) (length xs) (store x).first ∙ whole ∙ h.size;
      room = omega (arith, p, length-append_one xs x);
      tasks = λ i q.
          let at = get_or-append xs x i (omega (arith, q, length-append_one xs x)) in
          elim (Bool-cases (i == length xs)) [
            | inl e ↦ ground (arith, e, slot i, at)
            | inr e ↦
                let old : i < length xs = ground (arith, e, q, length-append_one xs x) in
                ground (arith, e, slot i, below i, at, h.tasks i old, p)
          ];
      series = λ i q.
          let at = get_or-append xs x i (omega (arith, q, length-append_one xs x)) in
          elim (Bool-cases (i == length xs)) [
            | inl e ↦ ground (arith, e, slot (size + i), below (size + i), at, p)
            | inr e ↦
                let old : i < length xs = ground (arith, e, q, length-append_one xs x) in
                ground (arith, e, slot (size + i), below (size + i), at, h.series i old, p)
          ];
    }

pub expand_buf-Represents :
    (w : ParallelWork) (xs : List ℕ) (first : ℕ → ℕ)
    → Represents w xs first
    → Represents (expand_buf w) xs first
unfolding expand_buf
expand_buf-Represents w xs first r =
    let n = w.subtasks_nr in
    let size = 2 * w.buf_size in
    let fresh : List ℕ = replicate (2 * size) 0 in
    let full : length fresh ≡ 2 * size = length-replicate (2 * size) 0 in
    let tasks : List ℕ = memcpy n w.buf 0 fresh 0 in
    let whole : length tasks ≡ 2 * size = length-memcpy n w.buf 0 fresh 0 ∙ full in
    let fits : n ≤ size = omega (arith, r.count, r.cells.room) in
    let upper =
      λ (k : ℕ). get_or-memcpy n w.buf w.all_series tasks size k (omega (arith, whole, fits)) in
    let lower = λ (k : ℕ). get_or-memcpy n w.buf 0 fresh 0 k (omega (arith, full, fits)) in
    record {
      positive = omega (arith, r.positive);
      second_half = refl;
      count = r.count;
      cells = record {
        size = length-memcpy n w.buf w.all_series tasks size ∙ whole;
        room = omega (arith, r.cells.room);
        tasks = λ i p.
            ground (arith, upper i, lower i, r.cells.tasks i p, p, r.count, fits, r.cells.room);
        series = λ i p.
            let same : w.all_series + (size + i - size) ≡ w.buf_size + i =
              omega (arith, r.second_half) in
            ground (
              arith,
              upper (size + i),
              ap (λ k. get_or w.buf k 0) same,
              r.cells.series i p,
              p,
              r.count,
            );
      };
    }

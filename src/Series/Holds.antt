-- ===== src/Series/Holds.antt =====
-- Which tasks the queue of a series holds, also after its expansion: src/factory/Workflow.cc.
use tinywf.Prelude.{
  ℕ, zero, suc, ◌+◌, ◌-◌, ◌*◌, ◌<◌, ◌≡◌, refl, sym, ap, subst, ◌∙◌, Bool, List, [], ◌∷◌, ◌++◌,
  arith, ◌==◌, if◌then◌else◌, length, get_or, replicate, length-append, length-replicate,
  Bool-cases, inl, inr,
}
use tinywf.Series.{Series, unroll, expand_queue, expand_if_full, new_series}
use tinywf.Series.Unroll.{slot, unroll-slots}

-- The slots from the front on hold the tasks, and the back is the slot behind them; `n` says how
-- many tasks there may be.
pub record Slots (n : ℕ) (s : Series) (xs : List ℕ) : Type 0 where
  pub sized : length s.queue ≡ s.queue_size
  pub front_in : s.front < s.queue_size
  pub fits : length xs < n
  pub back_at : s.back ≡ slot s.queue_size s.front (length xs)
  pub held :
      (i : ℕ) → i < length xs → get_or s.queue (slot s.queue_size s.front i) 0 ≡ get_or xs i 0

-- Between two operations there is room for one task more.
pub record Holds (s : Series) (xs : List ℕ) : Type 0 where
  pub sized : length s.queue ≡ s.queue_size
  pub front_in : s.front < s.queue_size
  pub fits : length xs < s.queue_size
  pub back_at : s.back ≡ slot s.queue_size s.front (length xs)
  pub held :
      (i : ℕ) → i < length xs → get_or s.queue (slot s.queue_size s.front i) 0 ≡ get_or xs i 0

pub get_or-append_left :
    (xs ys : List ℕ) (i : ℕ) → i < length xs → get_or (xs ++ ys) i 0 ≡ get_or xs i 0
get_or-append_left [] ys i h = absurd (omega arith)
get_or-append_left (x ∷ xs) ys zero h = refl
get_or-append_left (x ∷ xs) ys (suc i) h = get_or-append_left xs ys i (omega arith)

pub get_or-append_last : (xs : List ℕ) (y : ℕ) → get_or (xs ++ y ∷ []) (length xs) 0 ≡ y
get_or-append_last [] y = refl
get_or-append_last (x ∷ xs) y = get_or-append_last xs y

pub new_series-Holds :
    (self first : ℕ) (callback : Bool) (pointer : ℕ → ℕ)
    → Holds (new_series self first callback pointer) []
unfolding new_series
new_series-Holds self first callback pointer = record {
  sized = refl;
  front_in = omega arith;
  fits = omega arith;
  back_at = refl;
  held = λ i h. absurd (omega arith);
}

-- The queue that `expand_queue` leaves.
expand_queue-Holds :
    (s : Series) (xs : List ℕ)
    → Slots (s.queue_size + 1) s xs
    → length xs ≡ s.queue_size
    → s.back ≡ s.front
    → Holds (expand_queue s) xs
unfolding expand_queue
expand_queue-Holds s xs w full same =
    let start : slot s.queue_size s.front 0 ≡ s.front = ground (arith, w.front_in) in
    let copied = unroll s.queue_size s.queue s.queue_size s.back s.front in
    let as_slots : unroll s.queue_size s.queue s.queue_size s.front (slot s.queue_size s.front 0)
        ≡ copied =
      ap (unroll s.queue_size s.queue s.queue_size s.front) start
      ∙ ap (λ b. unroll s.queue_size s.queue s.queue_size b s.front) (sym same) in
    let (len, got) =
      unroll-slots s.queue_size s.queue_size s.front 0 s.queue w.front_in (omega arith) in
    let size : length copied ≡ s.queue_size = ap length (sym as_slots) ∙ len in
    record {
      sized =
          length-append copied (replicate (2 * s.queue_size - length copied) 0)
          ∙ ap (λ n. length copied + n) (length-replicate (2 * s.queue_size - length copied) 0)
          ∙ omega (arith, size);
      front_in = omega (arith, w.front_in);
      fits = omega (arith, w.front_in, full);
      back_at = ground (arith, size, full, w.front_in);
      held = λ i h.
          let at : slot (2 * s.queue_size) 0 i ≡ i = ground (arith, full, h) in
          let zero_first : slot s.queue_size s.front (0 + i) ≡ slot s.queue_size s.front i =
            ap (slot s.queue_size s.front) (omega arith) in
          ap (λ k. get_or (copied ++ replicate (2 * s.queue_size - length copied) 0) k 0) at
          ∙ get_or-append_left copied (replicate (2 * s.queue_size - length copied) 0) i
              (omega (arith, size, full, h))
          ∙ ap (λ l. get_or l i 0) (sym as_slots)
          ∙ got i (omega (arith, full, h))
          ∙ ap (λ k. get_or s.queue k 0) zero_first
          ∙ w.held i h;
    }

-- A queue that got a task is expanded if it is full.
pub expand_if_full-Holds :
    (s : Series) (xs : List ℕ)
    → Slots (s.queue_size + 1) s xs
    → 0 < length xs
    → Holds (expand_if_full s) xs
unfolding expand_if_full
expand_if_full-Holds s xs w some_task = elim (Bool-cases (s.front == s.back)) [
  | inl e ↦
      let same : s.back ≡ s.front = ground (arith, e) in
      subst (λ (r : Series). Holds r xs) (ap (λ b. if b then expand_queue s else s) (sym e))
        (expand_queue-Holds s xs w (ground (arith, same, w.back_at, w.front_in, w.fits)) same)
  | inr e ↦
      subst (λ (r : Series). Holds r xs) (ap (λ b. if b then expand_queue s else s) (sym e))
        (record {
          sized = w.sized;
          front_in = w.front_in;
          fits = ground (arith, e, w.back_at, w.front_in, w.fits);
          back_at = w.back_at;
          held = w.held;
        })
]

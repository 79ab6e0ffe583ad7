-- ===== src/Series/Push.antt =====
-- Pushing and popping the tasks of a series: src/factory/Workflow.cc.
use tinywf.Prelude.{
  ℕ, zero, suc, ◌+◌, ◌-◌, ◌<◌, ◌≤◌, ◌≡◌, ◌≢◌, refl, sym, ap, ◌∙◌, true, false, none, some, List, [],
  ◌∷◌, ◌++◌, arith, ◌==◌, if◌then◌else◌, length, get_or, set, length-append, length-set,
  get_or-set_self, get_or-set_ne, Bool-cases, inl, inr,
}
use tinywf.Series.{Series, set_pointer, next_index, push_front, push_back, pop_task, finish_if_none}
use tinywf.Series.Unroll.{slot, slot_next, slot_other, slot_in}
use tinywf.Series.Holds.{Holds, expand_if_full-Holds, get_or-append_left, get_or-append_last}

pub push_back-Holds :
    (task : ℕ) (s : Series) (xs : List ℕ) → Holds s xs → Holds (push_back task s) (xs ++ task ∷ [])
unfolding push_back
push_back-Holds task s xs w =
    let n = length xs in
    let len = length-append xs (task ∷ []) in
    let next = slot_next s.queue_size s.front n w.front_in w.fits in
    let pushed = record (set_pointer task s) {
      queue = set s.queue s.back task;
      back = next_index s.queue_size s.back;
    } in
    expand_if_full-Holds pushed (xs ++ task ∷ [])
      (record {
        sized = length-set s.queue s.back task ∙ w.sized;
        front_in = w.front_in;
        fits = omega (arith, len, w.fits);
        back_at =
            ap (next_index s.queue_size) w.back_at
            ∙ next
            ∙ ap (slot s.queue_size s.front) (sym len);
        held = λ i h. at i (omega (arith, h, len));
      })
      (omega (arith, len))
  where
    at :
        (i : ℕ)
        → i ≤ length xs
        → get_or (set s.queue s.back task) (slot s.queue_size s.front i) 0
          ≡ get_or (xs ++ task ∷ []) i 0
    at i h = elim (Bool-cases (i == length xs)) [
      | inl e ↦
          let last : i ≡ length xs = ground (arith, e) in
          let slot_at : slot s.queue_size s.front i ≡ s.back =
            ap (slot s.queue_size s.front) last ∙ sym w.back_at in
          ap (λ k. get_or (set s.queue s.back task) k 0) slot_at
          ∙ get_or-set_self s.queue s.back task 0 (
              omega (
                arith,
                w.sized,
                w.back_at,
                slot_in s.queue_size s.front (length xs) w.front_in w.fits,
              ))
          ∙ sym (get_or-append_last xs task)
          ∙ ap (λ k. get_or (xs ++ task ∷ []) k 0) (sym last)
      | inr e ↦
          let before : i < length xs = ground (arith, e, h) in
          let apart : s.back ≢ slot s.queue_size s.front i = ground (
            arith,
            w.back_at,
            slot_other s.queue_size s.front i (length xs) w.front_in before w.fits,
          ) in
          get_or-set_ne s.queue task 0 apart
          ∙ w.held i before
          ∙ sym (get_or-append_left xs (task ∷ []) i before)
    ]

-- The slot before the front.
abbrev before_front : ℕ → ℕ → ℕ
before_front size front = if front == 0 then size - 1 else front - 1

slot_before :
    (size front i : ℕ)
    → front < size
    → i < size
    → slot size (before_front size front) (i + 1) ≡ slot size front i
slot_before size front i f h = ground arith

before_front-in : (size front : ℕ) → front < size → before_front size front < size
before_front-in size front f = ground arith

pub push_front-Holds :
    (task : ℕ) (s : Series) (xs : List ℕ) → Holds s xs → Holds (push_front task s) (task ∷ xs)
unfolding push_front
push_front-Holds task s xs w =
    let front = before_front s.queue_size s.front in
    let inside = before_front-in s.queue_size s.front w.front_in in
    let pushed = record (set_pointer task s) { front = front; queue = set s.queue front task } in
    let more_tasks : length xs + 1 ≡ suc (length xs) = omega arith in
    expand_if_full-Holds pushed (task ∷ xs)
      (record {
        sized = length-set s.queue front task ∙ w.sized;
        front_in = inside;
        fits = omega (arith, w.fits);
        back_at =
            w.back_at
            ∙ sym (slot_before s.queue_size s.front (length xs) w.front_in w.fits)
            ∙ ap (slot s.queue_size front) more_tasks;
        held = at;
      })
      (omega arith)
  where
    at :
        (i : ℕ)
        → i < suc (length xs)
        → get_or
            (set s.queue (before_front s.queue_size s.front) task)
            (slot s.queue_size (before_front s.queue_size s.front) i)
            0
          ≡ get_or (task ∷ xs) i 0
    at zero h =
        let inside = before_front-in s.queue_size s.front w.front_in in
        let start : slot s.queue_size (before_front s.queue_size s.front) 0
            ≡ before_front s.queue_size s.front =
          ground (arith, inside) in
        ap (λ k. get_or (set s.queue (before_front s.queue_size s.front) task) k 0) start
        ∙ get_or-set_self s.queue (before_front s.queue_size s.front) task 0
            (omega (arith, inside, w.sized))
    at (suc i) h =
        let front = before_front s.queue_size s.front in
        let inside = before_front-in s.queue_size s.front w.front_in in
        let next : suc i ≡ i + 1 = omega arith in
        let moved : slot s.queue_size front (suc i) ≡ slot s.queue_size s.front i =
          ap (slot s.queue_size front) next
          ∙ slot_before s.queue_size s.front i w.front_in (omega (arith, h, w.fits)) in
        let apart : front ≢ slot s.queue_size s.front i = ground (arith, w.front_in, h, w.fits) in
        ap (λ k. get_or (set s.queue front task) k 0) moved
        ∙ get_or-set_ne s.queue task 0 apart
        ∙ w.held i (omega (arith, h))

slot_after :
    (size front i : ℕ)
    → front < size
    → i < size
    → slot size (next_index size front) i ≡ slot size front (suc i)
slot_after size front i f h = ground arith

-- Popping a task takes the first one.
pub pop_task-first :
    (s : Series) (x : ℕ) (xs : List ℕ)
    → Holds s (x ∷ xs)
    → (r : Series) × (pop_task s ≡ (some x, r)) × Holds r xs × (r.last ≡ s.last)
unfolding pop_task
pop_task-first s x xs w =
    let start : slot s.queue_size s.front 0 ≡ s.front = ground (arith, w.front_in) in
    let first : get_or s.queue s.front 0 ≡ x =
      ap (λ k. get_or s.queue k 0) (sym start) ∙ w.held 0 (omega arith) in
    let apart : (s.front == s.back) ≡ false = ground (arith, w.back_at, w.front_in, w.fits) in
    let moved = record s { front = next_index s.queue_size s.front } in
    let empty = finish_if_none (s.last, record s { last = none }) in
    let after = λ (i : ℕ) (h : i < s.queue_size). slot_after s.queue_size s.front i w.front_in h in
    (
      moved,
      ap (λ b. if b then empty else (some (get_or s.queue s.front 0), moved)) apart
          ∙ ap (λ t. (some t, moved)) first,
      record {
        sized = w.sized;
        front_in = ground (arith, w.front_in);
        fits = omega (arith, w.fits);
        back_at = w.back_at ∙ sym (after (length xs) (omega (arith, w.fits)));
        held = λ i h.
            ap (λ k. get_or s.queue k 0) (after i (omega (arith, h, w.fits)))
            ∙ w.held (suc i) (omega (arith, h));
      },
      refl,
    )

-- Where the queue is empty the last task is the next, once.
pub pop_task-last :
    (s : Series) → Holds s [] → pop_task s ≡ finish_if_none (s.last, record s { last = none })
unfolding pop_task
pop_task-last s w =
    let start : slot s.queue_size s.front 0 ≡ s.front = ground (arith, w.front_in) in
    let same : (s.front == s.back) ≡ true = ground (arith, w.back_at, start) in
    let moved = record s { front = next_index s.queue_size s.front } in
    ap
      (λ b.
        if b
        then finish_if_none (s.last, record s { last = none })
        else (some (get_or s.queue s.front 0), moved))
      same

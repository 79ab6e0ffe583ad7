-- ===== src/Sched/Group/Members.antt =====
-- What `acquire` and `release` of src/net/CommScheduler.cc keep, for a target and for a group.
use tinywf.Prelude.{
  ℕ, ◌+◌, ◌-◌, ◌<◌, ◌≡◌, ◌≢◌, refl, sym, ap, subst, ◌∙◌, Bool, true, false, arith, ◌==◌,
  if◌then◌else◌, length, get_or, Bool-cases, ◌⊎◌, inl, inr,
}
use tinywf.Sched.{heapify, heap_adjust, parent}
use tinywf.Sched.Group.{
  Sched, set_cur, minus, Acquired, acquired, failed, waiting, eagain, etimedout, target_take,
  target_acquire, target_wake, target_release, target_full, target_waits,
}
use tinywf.Sched.Group.Valid.{IsValid, IsValid-slot, total-same, leq_mono}
use tinywf.Sched.Group.Acquire.{one_more-IsValid, one_less-IsValid}

-- The counts of the waiters are not of the invariant.
pub waits-IsValid :
    (s : Sched) (n : ℕ) (w : ℕ → ℕ)
    → IsValid s
    → IsValid (record s { wait_cnt = n; wait_cnt_of = w })
waits-IsValid s n w v = record {
  content = record {
    fits = v.content.fits;
    grouped = v.content.grouped;
    listed = v.content.listed;
    cur_sum = v.content.cur_sum;
    max_sum = v.content.max_sum;
    named = v.content.named;
    bounded = v.content.bounded;
  };
  ordered = v.ordered;
  indexed = v.indexed;
}

-- Nor is the load of a target of no group.
pub outside-IsValid :
    (s : Sched) (t n : ℕ) → IsValid s → s.group_of t ≢ s.self → IsValid (set_cur t n s)
outside-IsValid s t n v out = record {
  content = record {
    fits = λ k p.
        let f = v.content.fits k p in
        record {
          some_load = f.some_load;
          small = f.small;
          within = omega (arith, f.within, kept k p);
        };
    grouped = v.content.grouped;
    listed = v.content.listed;
    cur_sum = v.content.cur_sum ∙ sym (total-same s.loads.cur_load t n s.heap.tg_heap other);
    max_sum = v.content.max_sum;
    named = v.content.named;
    bounded = v.content.bounded;
  };
  ordered = λ c p q.
      let q' : parent c < length s.heap.tg_heap = omega (arith, p, q) in
      leq_mono s.loads (set_cur t n s).loads (get_or s.heap.tg_heap (parent c) 0)
        (get_or s.heap.tg_heap c 0) refl refl (omega (arith, kept (parent c) q'))
        (omega (arith, kept c q)) (v.ordered c p q);
  indexed = v.indexed;
}
  where
    other : (k : ℕ) → k < length s.heap.tg_heap → get_or s.heap.tg_heap k 0 ≢ t
    other k p e = out (ap s.group_of (sym e) ∙ v.content.grouped k p)

    kept :
        (k : ℕ)
        → k < length s.heap.tg_heap
        → (set_cur t n s).loads.cur_load (get_or s.heap.tg_heap k 0)
          ≡ s.loads.cur_load (get_or s.heap.tg_heap k 0)
    kept k p = ground (arith, other k p)

-- A target of this group, or of none.
abbrev pub Grouped : Sched → ℕ → Type 0
Grouped s t = (s.group_of t ≡ 0) ⊎ (s.group_of t ≡ s.self)

-- What `target_take` leaves, by whether the target has a group.
abbrev taken : ℕ → Sched → Bool → Sched
taken t s b =
    let n = set_cur t (s.loads.cur_load t + 1) s in
    if b
    then n
    else record n { cur_load = s.cur_load + 1; heap = heapify n.loads (s.heap.index t) s.heap }

no_group : (s : Sched) (t : ℕ) → IsValid s → s.group_of t ≡ 0 → s.group_of t ≢ s.self
no_group s t v g e = v.content.named (sym e ∙ g)

has_group : (s : Sched) (t : ℕ) → IsValid s → s.group_of t ≡ s.self → (s.group_of t == 0) ≡ false
has_group s t v g = ground (arith, g, v.content.named)

pub target_take-IsValid :
    (s : Sched) (t : ℕ)
    → IsValid s
    → Grouped s t
    → s.loads.cur_load t < s.loads.max_load t
    → IsValid (target_take t s)
unfolding target_take
target_take-IsValid s t v (inl g) h =
    let none : (s.group_of t == 0) ≡ true = ground (arith, g) in
    subst (λ b. IsValid (taken t s b)) (sym none)
      (outside-IsValid s t (s.loads.cur_load t + 1) v (no_group s t v g))
target_take-IsValid s t v (inr g) h =
    let (p, e) = IsValid-slot s t v g in
    let room = subst (λ u. s.loads.cur_load u < s.loads.max_load u) (sym e) h in
    subst (λ b. IsValid (taken t s b)) (sym (has_group s t v g))
      (subst
        (λ u. IsValid (record (set_cur u (s.loads.cur_load u + 1) s) {
          cur_load = s.cur_load + 1;
          heap = heapify (set_cur u (s.loads.cur_load u + 1) s).loads (s.heap.index t) s.heap;
        }))
        e (one_more-IsValid s (s.heap.index t) v p room))

-- What `target_release` leaves.
abbrev released : Bool → ℕ → Sched → Bool → Sched
released keep_alive t s b =
    let n = set_cur t (minus (s.loads.cur_load t) 1) s in
    if b then n else record n {
      cur_load = minus s.cur_load 1;
      heap = heap_adjust n.loads (s.heap.index t) keep_alive s.heap;
    }

target_release-released :
    (b : Bool) (t : ℕ) (s : Sched)
    → (target_release b t s).state ≡ released b t s (s.group_of t == 0)
unfolding target_release
target_release-released b t s = elim (Bool-cases (s.group_of t == 0)) [
  | inl e ↦ ground (arith, e)
  | inr e ↦ ground (arith, e)
]

pub target_release-IsValid :
    (b : Bool) (s : Sched) (t : ℕ)
    → IsValid s
    → Grouped s t
    → 0 < s.loads.cur_load t
    → IsValid (target_release b t s).state
target_release-IsValid b s t v (inl g) h =
    let none : (s.group_of t == 0) ≡ true = ground (arith, g) in
    subst IsValid (sym (target_release-released b t s)) (
      subst (λ c. IsValid (released b t s c)) (sym none)
        (outside-IsValid s t (minus (s.loads.cur_load t) 1) v (no_group s t v g)))
target_release-IsValid b s t v (inr g) h =
    let (p, e) = IsValid-slot s t v g in
    let some_load = subst (λ u. 0 < s.loads.cur_load u) (sym e) h in
    subst IsValid (sym (target_release-released b t s)) (
      subst (λ c. IsValid (released b t s c)) (sym (has_group s t v g))
        (subst
          (λ u. IsValid (record (set_cur u (minus (s.loads.cur_load u) 1) s) {
            cur_load = minus s.cur_load 1;
            heap =
                heap_adjust (set_cur u (minus (s.loads.cur_load u) 1) s).loads (s.heap.index t) b
                  s.heap;
          }))
          e (one_less-IsValid s b (s.heap.index t) v p some_load)))

-- Of all that a thread can come to, the state is valid.
abbrev pub IsFine : Acquired → Type 0
IsFine (acquired t r) = IsValid r
IsFine (failed e r) = IsValid r
IsFine (waiting r) = IsValid r

pub target_acquire-IsFine :
    (can_wait : Bool) (t : ℕ) (s : Sched)
    → IsValid s
    → Grouped s t
    → IsFine (target_acquire can_wait t s)
unfolding target_acquire
target_acquire-IsFine can_wait t s v g = elim (Bool-cases (target_full t s)) [
  | inl e ↦ subst (λ b. IsFine (outcome b)) (sym e) (stopped can_wait)
  | inr e ↦
      subst (λ b. IsFine (outcome b)) (sym e) (target_take-IsValid s t v g (ground (arith, e)))
]
  where
    full : Bool → Acquired
    full w = if w then waiting (target_waits t (s.wait_cnt_of t + 1) s) else failed eagain s

    outcome : Bool → Acquired
    outcome b = if b then full can_wait else acquired t (target_take t s)

    stopped : (w : Bool) → IsFine (full w)
    stopped true = waits-IsValid s s.wait_cnt _ v
    stopped false = v

pub target_wake-IsFine :
    (timed_out : Bool) (t : ℕ) (s : Sched)
    → IsValid s
    → Grouped s t
    → IsFine (target_wake timed_out t s)
unfolding target_wake
target_wake-IsFine timed_out t s v g = elim (Bool-cases (target_full t woken)) [
  | inl e ↦ subst (λ b. IsFine (outcome b)) (sym e) (stopped timed_out)
  | inr e ↦
      subst (λ b. IsFine (outcome b)) (sym e)
        (target_take-IsValid woken t woken-IsValid g (ground (arith, e)))
]
  where
    woken : Sched
    woken = target_waits t (s.wait_cnt_of t - 1) s

    woken-IsValid : IsValid woken
    woken-IsValid = waits-IsValid s s.wait_cnt _ v

    full : Bool → Acquired
    full w = if w then failed etimedout woken else waiting s

    outcome : Bool → Acquired
    outcome b = if b then full timed_out else acquired t (target_take t woken)

    stopped : (w : Bool) → IsFine (full w)
    stopped true = woken-IsValid
    stopped false = v

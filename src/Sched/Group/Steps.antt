-- ===== src/Sched/Group/Steps.antt =====
-- The threads that use a group of src/net/CommScheduler.cc, one step after the other.
use tinywf.Prelude.{
  ℕ, ◌+◌, ◌^◌, ◌<◌, ◌≡◌, ◌≢◌, sym, ap, subst, ◌∙◌, Bool, some, arith, ◌==◌, length, get_or,
  Bool-cases, inl, inr,
}
use tinywf.Sched.{parent}
use tinywf.Sched.Order.{Fits}
use tinywf.Sched.Group.{
  Sched, enomem, einval, eexist, ebusy, eagain, etimedout, enoent, Acquired, acquired, failed,
  waiting, Changed, changed, refused, update, target_init, group_init, target_acquire, target_wake,
  target_release, group_acquire, group_wake, group_add, group_remove,
}
use tinywf.Sched.Group.Valid.{IsValid, total-same, leq_mono}
use tinywf.Sched.Group.Members.{
  Grouped, IsFine, target_acquire-IsFine, target_wake-IsFine, target_release-IsValid,
}
use tinywf.Sched.Group.Choice.{IsServed, group_acquire-IsServed, group_wake-IsServed}
use tinywf.Sched.Group.Admission.{IsAdded, group_add-IsAdded, group_init-IsValid}
use tinywf.Sched.Group.Departure.{IsRemoved, group_remove-IsRemoved}

abbrev pub acquired_state : Acquired → Sched
acquired_state (acquired t r) = r
acquired_state (failed e r) = r
acquired_state (waiting r) = r

abbrev pub changed_state : Changed → Sched
changed_state (changed b r) = r
changed_state (refused e r) = r

-- One step of a thread. A target is of this group or of none, a connection is released once, and a
-- target that joins has loads that fit.
pub data Step (s : Sched) : Sched → Type 0 where
  target_created :
      (max_connections t : ℕ) (r : Sched)
      → s.group_of t ≢ s.self
      → target_init max_connections t s ≡ some r
      → Step s r
  target_acquires :
      (can_wait : Bool) (t : ℕ)
      → Grouped s t
      → Step s (acquired_state (target_acquire can_wait t s))
  target_wakes :
      (timed_out : Bool) (t : ℕ) → Grouped s t → Step s (acquired_state (target_wake timed_out t s))
  releases :
      (keep_alive : Bool) (t : ℕ)
      → Grouped s t
      → 0 < s.loads.cur_load t
      → Step s (target_release keep_alive t s).state
  group_acquires : (can_wait : Bool) → Step s (acquired_state (group_acquire can_wait s))
  group_wakes : (timed_out : Bool) → Step s (acquired_state (group_wake timed_out s))
  joins :
      (alloc : Bool) (t : ℕ)
      → Fits s.loads t
      → s.max_load + s.loads.max_load t < 2 ^ 63
      → Step s (changed_state (group_add alloc t s))
  leaves : (t : ℕ) → Step s (changed_state (group_remove t s))

-- Any number of steps.
pub data Steps (s : Sched) : Sched → Type 0 where
  start : Steps s s
  next : {r q : Sched} → Steps s r → Step r q → Steps s q

served_state : (s : Sched) (a : Acquired) → IsServed s a → IsValid (acquired_state a)
unfolding IsServed
served_state s (acquired t r) h = h.valid
served_state s (failed e r) h = h.1
served_state s (waiting r) h = h.1

fine_state : (a : Acquired) → IsFine a → IsValid (acquired_state a)
fine_state (acquired t r) h = h
fine_state (failed e r) h = h
fine_state (waiting r) h = h

same_state : (s r : Sched) → IsValid s → r ≡ s → IsValid r
same_state s r v e = subst IsValid (sym e) v

added_state :
    (s : Sched) (t : ℕ) (a : Changed) → IsValid s → IsAdded s t a → IsValid (changed_state a)
unfolding IsAdded
added_state s t (changed b r) v h = h.0
added_state s t (refused enomem r) v h = same_state s r v h.0
added_state s t (refused eexist r) v h = same_state s r v h.0
added_state s t (refused einval r) v h = same_state s r v h.0
added_state s t (refused ebusy r) v h = same_state s r v h.0
added_state s t (refused eagain r) v h = absurd (ground (arith, h))
added_state s t (refused etimedout r) v h = absurd (ground (arith, h))
added_state s t (refused enoent r) v h = absurd (ground (arith, h))

removed_state :
    (s : Sched) (t : ℕ) (a : Changed) → IsValid s → IsRemoved s t a → IsValid (changed_state a)
unfolding IsRemoved
removed_state s t (changed b r) v h = h.0
removed_state s t (refused enoent r) v h = same_state s r v h.0
removed_state s t (refused ebusy r) v h = same_state s r v h.0
removed_state s t (refused einval r) v h = absurd (ground (arith, h))
removed_state s t (refused eexist r) v h = absurd (ground (arith, h))
removed_state s t (refused enomem r) v h = absurd (ground (arith, h))
removed_state s t (refused eagain r) v h = absurd (ground (arith, h))
removed_state s t (refused etimedout r) v h = absurd (ground (arith, h))

-- The loads of a target outside the group are not of the invariant.
target_init-IsValid :
    (s : Sched) (n t : ℕ) (r : Sched)
    → IsValid s
    → s.group_of t ≢ s.self
    → target_init n t s ≡ some r
    → IsValid r
unfolding target_init
target_init-IsValid s n t r v out e = elim (Bool-cases (n == 0)) [
  | inl z ↦ absurd (ground (arith, e, z))
  | inr z ↦ let made : created ≡ r = ground (arith, e, z) in subst IsValid made created-IsValid
]
  where
    created : Sched
    created = record s {
      loads = record {
        max_load = update t n s.loads.max_load;
        cur_load = update t 0 s.loads.cur_load;
      };
      wait_cnt_of = update t 0 s.wait_cnt_of;
      group_of = update t 0 s.group_of;
    }

    other : (k : ℕ) → k < length s.heap.tg_heap → get_or s.heap.tg_heap k 0 ≢ t
    other k p d = out (ap s.group_of (sym d) ∙ v.content.grouped k p)

    kept :
        (k : ℕ)
        → k < length s.heap.tg_heap
        → created.loads.cur_load (get_or s.heap.tg_heap k 0)
          ≡ s.loads.cur_load (get_or s.heap.tg_heap k 0)
    kept k p = ground (arith, other k p)

    kept_max :
        (k : ℕ)
        → k < length s.heap.tg_heap
        → created.loads.max_load (get_or s.heap.tg_heap k 0)
          ≡ s.loads.max_load (get_or s.heap.tg_heap k 0)
    kept_max k p = ground (arith, other k p)

    created-IsValid : IsValid created
    created-IsValid = record {
      content = record {
        fits = λ k p.
            let f = v.content.fits k p in
            record {
              some_load = omega (arith, f.some_load, kept_max k p);
              small = omega (arith, f.small, kept_max k p);
              within = omega (arith, f.within, kept k p, kept_max k p);
            };
        grouped = λ k p. ground (arith, other k p, v.content.grouped k p);
        listed = λ u g.
            let g' : s.group_of u ≡ s.self = ground (arith, g, v.content.named) in
            v.content.listed u g';
        cur_sum = v.content.cur_sum ∙ sym (total-same s.loads.cur_load t 0 s.heap.tg_heap other);
        max_sum = v.content.max_sum ∙ sym (total-same s.loads.max_load t n s.heap.tg_heap other);
        named = v.content.named;
        bounded = v.content.bounded;
      };
      ordered = λ c p q.
          let up : parent c < length s.heap.tg_heap = omega (arith, p, q) in
          leq_mono s.loads created.loads (get_or s.heap.tg_heap (parent c) 0)
            (get_or s.heap.tg_heap c 0) (kept_max (parent c) up) (kept_max c q)
            (omega (arith, kept (parent c) up)) (omega (arith, kept c q)) (v.ordered c p q);
      indexed = v.indexed;
    }

Step-IsValid : (s r : Sched) → IsValid s → Step s r → IsValid r
Step-IsValid s r v (target_created n t _ out e) = target_init-IsValid s n t r v out e
Step-IsValid s _ v (target_acquires c t g) =
    fine_state (target_acquire c t s) (target_acquire-IsFine c t s v g)
Step-IsValid s _ v (target_wakes c t g) =
    fine_state (target_wake c t s) (target_wake-IsFine c t s v g)
Step-IsValid s _ v (releases k t g h) = target_release-IsValid k s t v g h
Step-IsValid s _ v (group_acquires c) =
    served_state s (group_acquire c s) (group_acquire-IsServed c s v)
Step-IsValid s _ v (group_wakes c) = served_state s (group_wake c s) (group_wake-IsServed c s v)
Step-IsValid s _ v (joins a t f m) =
    added_state s t (group_add a t s) v (group_add-IsAdded s t v f m a)
Step-IsValid s _ v (leaves t) =
    removed_state s t (group_remove t s) v (group_remove-IsRemoved s t v)

-- The invariant of a group holds after any steps of the threads, if it holds before: the heap array has
-- the heap order of the relative loads, each target of the group stands at its `index`, the loads of
-- the group are the sums of its targets' loads, and no target has more connections than it takes.
pub Steps-IsValid : (s r : Sched) → IsValid s → Steps s r → IsValid r
Steps-IsValid s _ v start = v
Steps-IsValid s q v (next {r = r} rest step) = Step-IsValid r q (Steps-IsValid s r v rest) step

-- A thread that asks a group for a connection comes to a target with the lowest relative load of all
-- targets of the group, which has room, and is counted; it fails or waits only if every target of the
-- group is full. That holds after any steps of the threads from a new group, that no target names.
pub group_acquire-IsBalanced :
    (s r : Sched) (can_wait : Bool)
    → s.self ≢ 0
    → ((t : ℕ) → s.group_of t ≢ s.self)
    → Steps (group_init s) r
    → IsServed r (group_acquire can_wait r)
group_acquire-IsBalanced s r can_wait n h steps =
    group_acquire-IsServed can_wait r
      (Steps-IsValid (group_init s) r (group_init-IsValid s n h) steps)

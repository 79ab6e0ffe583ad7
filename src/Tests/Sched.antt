-- ===== src/Tests/Sched.antt =====
-- The scheduler at concrete groups of two targets.
use tinywf.Prelude.{
  ℕ, zero, suc, ◌+◌, ◌-◌, ◌^◌, ◌<◌, ◌≡◌, ◌≢◌, refl, true, false, [], ◌∷◌, arith, get_or,
  if◌then◌else◌, ◌==◌,
}
use tinywf.Sched.{Loads, Heap, heapify, heap_adjust, parent}
use tinywf.Sched.Order.{Fits, leq}
use tinywf.Sched.Hole.{Hole, Restored, filled}
use tinywf.Sched.Up.{UpOrder, heap_adjust-Restored}
use tinywf.Sched.Down.{DownOrder, heapify-Restored}
use tinywf.Sched.Group.{Sched, group_init, group_add, heap_insert, add_inserted, group_acquire}
use tinywf.Sched.Group.Valid.{IsValid}
use tinywf.Sched.Group.Choice.{IsServed}
use tinywf.Sched.Group.Admission.{group_init-IsValid}
use tinywf.Sched.Group.Steps.{
  Steps, start, next, joins, group_acquires, Steps-IsValid, group_acquire-IsBalanced,
  acquired_state, changed_state,
}

-- Each target takes one connection more than its address says.
abbrev machine : Sched
machine = record {
  loads = record { max_load = λ t. t + 1; cur_load = λ t. 0 };
  heap = record { tg_heap = []; index = λ t. 0 };
  wait_cnt_of = λ t. 0;
  group_of = λ t. 0;
  self = 1;
  heap_buf_size = 0;
  max_load = 0;
  cur_load = 0;
  wait_cnt = 0;
}

abbrev one_target : Sched
one_target = changed_state (group_add true 5 (group_init machine))

abbrev two_targets : Sched
two_targets = changed_state (group_add true 7 one_target)

abbrev busy : Sched
busy = acquired_state (group_acquire true two_targets)

no_names : (t : ℕ) → machine.group_of t ≢ machine.self
no_names t e = omega (arith, e)

Fits-five : Fits (group_init machine).loads 5
unfolding group_init
Fits-five = record { some_load = omega arith; small = omega arith; within = omega arith }

Fits-seven : Fits one_target.loads 7
unfolding group_init group_add heap_insert add_inserted
Fits-seven = record { some_load = omega arith; small = omega arith; within = omega arith }

small_five : (group_init machine).max_load + (group_init machine).loads.max_load 5 < 2 ^ 63
unfolding group_init
small_five = omega arith

small_seven : one_target.max_load + one_target.loads.max_load 7 < 2 ^ 63
unfolding group_init group_add heap_insert add_inserted
small_seven = omega arith

two_joined : Steps (group_init machine) two_targets
two_joined =
    next (next start (joins true 5 Fits-five small_five)) (joins true 7 Fits-seven small_seven)

Steps-IsValid_example : IsValid busy
Steps-IsValid_example =
    Steps-IsValid (group_init machine) busy
      (group_init-IsValid machine (λ e. omega (arith, e)) no_names)
      (next two_joined (group_acquires true))

group_acquire-IsBalanced_example : IsServed busy (group_acquire false busy)
group_acquire-IsBalanced_example =
    group_acquire-IsBalanced machine busy false (λ e. omega (arith, e)) no_names
      (next two_joined (group_acquires true))

-- Three targets with loads 2, 0 and 1 of 4, the first too low in the heap, or too high.
abbrev loads : Loads
loads = record { max_load = λ t. 4; cur_load = λ t. if t == 5 then 2 else if t == 6 then 0 else 1 }

abbrev upside : Heap
upside = record { tg_heap = 5 ∷ 6 ∷ 7 ∷ []; index = λ t. t - 5 }

abbrev downside : Heap
downside = record { tg_heap = 7 ∷ 6 ∷ 5 ∷ []; index = λ t. 7 - t }

three : (p : ℕ → Type 0) → p 0 → p 1 → p 2 → (k : ℕ) → k < 3 → p k
three p a b c zero h = a
three p a b c (suc zero) h = b
three p a b c (suc (suc zero)) h = c
three p a b c (suc (suc (suc k))) h = absurd (omega arith)

fits : (t : ℕ) → Fits loads t
fits t = record { some_load = omega arith; small = omega arith; within = ground arith }

upside-Hole : Hole loads 0 5 upside
upside-Hole = record {
  inside = omega arith;
  fits = λ k p. fits _;
  indexed = three _ (λ n. refl) (λ n. refl) (λ n. refl);
  apart = λ k m p q e.
      three (λ k. get_or (filled 0 5 upside) k 0 ≡ get_or (filled 0 5 upside) m 0 → k ≡ m)
        (three (λ m. 5 ≡ get_or (filled 0 5 upside) m 0 → 0 ≡ m) (λ e. refl) (λ e. omega (arith, e))
          (λ e. omega (arith, e)) m q)
        (three (λ m. 6 ≡ get_or (filled 0 5 upside) m 0 → 1 ≡ m) (λ e. omega (arith, e)) (λ e. refl)
          (λ e. omega (arith, e)) m q)
        (three (λ m. 7 ≡ get_or (filled 0 5 upside) m 0 → 2 ≡ m) (λ e. omega (arith, e))
          (λ e. omega (arith, e)) (λ e. refl) m q)
        k p e;
}

upside-DownOrder : DownOrder loads (filled 0 5 upside) 0
upside-DownOrder = record {
  edges = λ c p q n. absurd (omega (arith, p, q, n));
  bridged = λ c p q e r. absurd (omega (arith, r));
}

heapify-Restored_example : Restored loads (filled 0 5 upside) (heapify loads 0 upside)
heapify-Restored_example = heapify-Restored loads 0 upside upside-Hole upside-DownOrder

downside-Hole : Hole loads 1 6 downside
downside-Hole = record {
  inside = omega arith;
  fits = λ k p. fits _;
  indexed = three _ (λ n. refl) (λ n. refl) (λ n. refl);
  apart = λ k m p q e.
      three (λ k. get_or (filled 1 6 downside) k 0 ≡ get_or (filled 1 6 downside) m 0 → k ≡ m)
        (three (λ m. 7 ≡ get_or (filled 1 6 downside) m 0 → 0 ≡ m) (λ e. refl)
          (λ e. omega (arith, e)) (λ e. omega (arith, e)) m q)
        (three (λ m. 6 ≡ get_or (filled 1 6 downside) m 0 → 1 ≡ m) (λ e. omega (arith, e))
          (λ e. refl) (λ e. omega (arith, e)) m q)
        (three (λ m. 5 ≡ get_or (filled 1 6 downside) m 0 → 2 ≡ m) (λ e. omega (arith, e))
          (λ e. omega (arith, e)) (λ e. refl) m q)
        k p e;
}

downside-UpOrder : UpOrder loads (filled 1 6 downside) 1
unfolding leq
downside-UpOrder = record {
  edges = λ c p q n.
      three
        (λ c.
          0 < c
          → c < 3
          → c ≢ 1
          → leq loads (get_or (filled 1 6 downside) (parent c) 0) (get_or (filled 1 6 downside) c 0)
            ≡ true)
        (λ p q n. absurd (omega (arith, p))) (λ p q n. absurd (n refl)) (λ p q n. refl) c q p q n;
  bridged = λ c p q e r. absurd (omega (arith, p, q, e));
}

heap_adjust-Restored_example :
    Restored loads (filled 1 6 downside) (heap_adjust loads 1 false downside)
heap_adjust-Restored_example =
    heap_adjust-Restored loads 1 false downside downside-Hole downside-UpOrder

-- ===== src/Sched/Group/Acquire.antt =====
-- Taking and releasing a connection in src/net/CommScheduler.cc.
use tinywf.Prelude.{ℕ, ◌+◌, ◌<◌, ◌≡◌, subst, Bool, arith, length, get_or}
use tinywf.Sched.{heapify, heap_adjust}
use tinywf.Sched.Hole.{Restored}
use tinywf.Sched.Up.{heap_adjust-Restored}
use tinywf.Sched.Down.{heapify-Restored}
use tinywf.Sched.Group.{Sched, set_cur, minus}
use tinywf.Sched.Group.Valid.{IsValid, Restored-IsValid}
use tinywf.Sched.Group.Load.{whole, loaded-Hole, loaded-DownOrder, loaded-UpOrder, loaded-Content}
use tinywf.Sched.Group.Sums.{total_le, le_total}

-- One more connection on the target in slot `i`.
abbrev pub one_more : ℕ → Sched → Sched
one_more i s =
    let t = get_or s.heap.tg_heap i 0 in
    let taken = set_cur t (s.loads.cur_load t + 1) s in
    record taken { cur_load = s.cur_load + 1; heap = heapify taken.loads i s.heap }

pub one_more-IsValid :
    (s : Sched) (i : ℕ)
    → IsValid s
    → i < length s.heap.tg_heap
    → s.loads.cur_load (get_or s.heap.tg_heap i 0) < s.loads.max_load (get_or s.heap.tg_heap i 0)
    → IsValid (one_more i s)
one_more-IsValid s i v p h =
    let t = get_or s.heap.tg_heap i 0 in
    let n = s.loads.cur_load t + 1 in
    let taken = set_cur t n s in
    Restored-IsValid s.heap.tg_heap (one_more i s)
      (loaded-Content s i n v p (s.cur_load + 1) (heapify taken.loads i s.heap) (omega arith)
        (omega arith))
      (subst (λ a. Restored taken.loads a (heapify taken.loads i s.heap)) (whole s i n v p)
        (heapify-Restored taken.loads i s.heap (loaded-Hole s i n v p (omega arith))
          (loaded-DownOrder s i n v p (omega arith))))

-- One connection less.
abbrev pub one_less : Bool → ℕ → Sched → Sched
one_less b i s =
    let t = get_or s.heap.tg_heap i 0 in
    let freed = set_cur t (minus (s.loads.cur_load t) 1) s in
    record freed { cur_load = minus s.cur_load 1; heap = heap_adjust freed.loads i b s.heap }

pub one_less-IsValid :
    (s : Sched) (b : Bool) (i : ℕ)
    → IsValid s
    → i < length s.heap.tg_heap
    → 0 < s.loads.cur_load (get_or s.heap.tg_heap i 0)
    → IsValid (one_less b i s)
one_less-IsValid s b i v p h =
    let t = get_or s.heap.tg_heap i 0 in
    let n = minus (s.loads.cur_load t) 1 in
    let freed = set_cur t n s in
    let f = v.content.fits i p in
    let most = le_total s.loads.cur_load s.heap.tg_heap i p in
    let sums =
      total_le s.loads.cur_load s.loads.max_load s.heap.tg_heap
        (λ k q. (v.content.fits k q).within) in
    let down : n + 1 ≡ s.loads.cur_load t = omega (arith, h, f.within, f.small) in
    Restored-IsValid s.heap.tg_heap (one_less b i s)
      (loaded-Content s i n v p (minus s.cur_load 1) (heap_adjust freed.loads i b s.heap)
        (omega (arith, down, f.within))
        (omega
          (arith, down, h, most, sums, v.content.cur_sum, v.content.max_sum, v.content.bounded)))
      (subst (λ a. Restored freed.loads a (heap_adjust freed.loads i b s.heap)) (whole s i n v p)
        (heap_adjust-Restored freed.loads i b s.heap
          (loaded-Hole s i n v p (omega (arith, down, f.within)))
          (loaded-UpOrder s i n v p (omega (arith, down)))))

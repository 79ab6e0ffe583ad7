-- ===== src/Sched/Group.antt =====
-- `CommSchedTarget` and `CommSchedGroup` of src/net/CommScheduler.cc. A step is what a thread does under
-- the locks from one `pthread_cond_timedwait` to the next; `realloc` and the outcome of a wait are
-- parameters. `heap_size` is an `int`, so the sums of the loads of a group do not wrap.
pub mod Valid
pub mod Members
pub mod Load
pub mod Sums
pub mod Acquire
pub mod Choice
pub mod Change
pub mod Leave
pub mod Removal
pub mod Admission
pub mod Departure
pub mod Steps
use tinywf.Prelude.{
  ℕ, zero, suc, ◌+◌, ◌-◌, ◌*◌, ◌%◌, ◌^◌, Bool, true, false, not, ◌&&◌, ◌||◌, Option, none, some,
  List, [], ◌∷◌, ◌++◌, ◌==◌, ltb, leb, if◌then◌else◌, length, get_or, set, take,
}
use tinywf.Sched.{Loads, Heap, place, heap_adjust, heapify}

-- One group, and all targets. `group_of` is 0 for a target of no group.
pub record Sched : Type 0 where
  pub loads : Loads
  pub heap : Heap
  pub wait_cnt_of : ℕ → ℕ
  pub group_of : ℕ → ℕ
  pub self : ℕ
  pub heap_buf_size : ℕ
  pub max_load : ℕ
  pub cur_load : ℕ
  pub wait_cnt : ℕ

abbrev pub update : ℕ → ℕ → (ℕ → ℕ) → ℕ → ℕ
update target v f t = if t == target then v else f t

-- The values of `errno`.
pub data Errno : Type 0 where
  einval eagain etimedout eexist ebusy enoent enomem : Errno

-- `CommSchedTarget::init`, where its base and the pthread objects are made.
unfoldable pub target_init : ℕ → ℕ → Sched → Option Sched
target_init max_connections target s =
    if max_connections == 0
    then none
    else some (record s {
      loads = record {
        max_load = update target max_connections s.loads.max_load;
        cur_load = update target 0 s.loads.cur_load;
      };
      wait_cnt_of = update target 0 s.wait_cnt_of;
      group_of = update target 0 s.group_of;
    })

-- `CommSchedGroup::init`, where its allocations succeed.
unfoldable pub group_init : Sched → Sched
group_init s = record s {
  heap = record s.heap { tg_heap = [] };
  heap_buf_size = 4;
  max_load = 0;
  cur_load = 0;
  wait_cnt = 0;
}

abbrev pub set_cur : ℕ → ℕ → Sched → Sched
set_cur target load s = record s {
  loads = record s.loads { cur_load = update target load s.loads.cur_load };
}

-- `a -= b` on `size_t`
abbrev pub minus : ℕ → ℕ → ℕ
minus a b = (a + 2 ^ 64 - b) % 2 ^ 64

-- What a thread that acquires a connection comes to: the target, an error, or a wait.
pub data Acquired : Type 0 where
  acquired : ℕ → Sched → Acquired
  failed : Errno → Sched → Acquired
  waiting : Sched → Acquired

-- The connection is counted, in the group too if the target has one.
unfoldable pub target_take : ℕ → Sched → Sched
target_take target s =
    let taken = set_cur target (s.loads.cur_load target + 1) s in
    if s.group_of target == 0 then taken else record taken {
      cur_load = s.cur_load + 1;
      heap = heapify taken.loads (s.heap.index target) s.heap;
    }

abbrev pub target_full : ℕ → Sched → Bool
target_full target s = leb (s.loads.max_load target) (s.loads.cur_load target)

abbrev pub target_waits : ℕ → ℕ → Sched → Sched
target_waits target n s = record s { wait_cnt_of = update target n s.wait_cnt_of }

-- `CommSchedTarget::acquire`, up to its first wait.
unfoldable pub target_acquire : Bool → ℕ → Sched → Acquired
unfolding target_take
target_acquire can_wait target s =
    if target_full target s
    then (if can_wait
        then waiting (target_waits target (s.wait_cnt_of target + 1) s)
        else failed eagain s)
    else acquired target (target_take target s)

-- The thread wakes up, by a signal or because its time is over.
unfoldable pub target_wake : Bool → ℕ → Sched → Acquired
unfolding target_take
target_wake timed_out target s =
    let woken = target_waits target (s.wait_cnt_of target - 1) s in
    if target_full target woken
    then (if timed_out then failed etimedout woken else waiting s)
    else acquired target (target_take target woken)

-- What a release comes to: whether a waiter of the target is signalled, or one of the group.
pub record Released : Type 0 where
  pub signals_target : Bool
  pub signals_group : Bool
  pub state : Sched

-- `CommSchedTarget::release`
unfoldable pub target_release : Bool → ℕ → Sched → Released
target_release keep_alive target s =
    let freed = set_cur target (minus (s.loads.cur_load target) 1) s in
    let alone = s.wait_cnt_of target == 0 in
    if s.group_of target == 0
    then record { signals_target = not alone; signals_group = false; state = freed }
    else record {
      signals_target = not alone;
      signals_group = alone && ltb 0 s.wait_cnt;
      state = record freed {
        cur_load = minus s.cur_load 1;
        heap = heap_adjust freed.loads (s.heap.index target) keep_alive s.heap;
      };
    }

-- `heap_insert`; the heap in use is longer by the target before it is adjusted.
unfoldable pub heap_insert : Bool → ℕ → Sched → Option Sched
heap_insert alloc target s =
    let size = length s.heap.tg_heap in
    let longer : Heap = record {
      tg_heap = s.heap.tg_heap ++ target ∷ [];
      index = update target size s.heap.index;
    } in
    let inserted = record s { heap = heap_adjust s.loads size false longer } in
    if size == s.heap_buf_size
    then (if alloc then some (record inserted { heap_buf_size = 2 * s.heap_buf_size }) else none)
    else some inserted

-- `heap_remove`: the last target takes the slot of the one that goes.
unfoldable pub heap_remove : ℕ → Sched → Sched
unfolding place
heap_remove index s =
    let size = length s.heap.tg_heap - 1 in
    let target = get_or s.heap.tg_heap size 0 in
    let shorter = record s.heap { tg_heap = take size s.heap.tg_heap } in
    let adjusted = heap_adjust s.loads index false (place index target shorter) in
    if index == size
    then record s { heap = shorter }
    else record s { heap = heapify s.loads (adjusted.index target) adjusted }

-- The result of `add` and of `remove`, and whether a waiter of the group is signalled.
pub data Changed : Type 0 where
  changed : Bool → Sched → Changed
  refused : Errno → Sched → Changed

unfoldable pub add_inserted : ℕ → Sched → Option Sched → Changed
add_inserted target s none = refused enomem s
add_inserted target s (some r) =
    let max = s.max_load + s.loads.max_load target in
    let cur = s.cur_load + s.loads.cur_load target in
    changed (ltb 0 s.wait_cnt && ltb cur max)
      (record r { group_of = update target s.self s.group_of; max_load = max; cur_load = cur })

unfoldable pub group_add : Bool → ℕ → Sched → Changed
unfolding heap_insert add_inserted
group_add alloc target s =
    let group = s.group_of target in
    if group == 0 && s.wait_cnt_of target == 0
    then add_inserted target s (heap_insert alloc target s)
    else if group == s.self
    then refused eexist s
    else if not (group == 0)
    then refused einval s
    else refused ebusy s

unfoldable pub group_remove : ℕ → Sched → Changed
unfolding heap_remove
group_remove target s =
    let group = s.group_of target in
    if group == s.self && s.wait_cnt_of target == 0
    then changed false (record (heap_remove (s.heap.index target) s) {
      max_load = minus s.max_load (s.loads.max_load target);
      cur_load = minus s.cur_load (s.loads.cur_load target);
      group_of = update target 0 s.group_of;
    })
    else if not (group == s.self)
    then refused enoent s
    else refused ebusy s

-- The root of the heap is taken.
unfoldable pub group_take : Sched → Acquired
group_take s =
    let target = get_or s.heap.tg_heap 0 0 in
    let taken = set_cur target (s.loads.cur_load target + 1) s in
    acquired target
      (record taken { cur_load = s.cur_load + 1; heap = heapify taken.loads 0 s.heap })

-- `CommSchedGroup::acquire`, up to its first wait.
unfoldable pub group_acquire : Bool → Sched → Acquired
unfolding group_take
group_acquire can_wait s =
    if leb s.max_load s.cur_load
    then (if can_wait then waiting (record s { wait_cnt = s.wait_cnt + 1 }) else failed eagain s)
    else group_take s

unfoldable pub group_wake : Bool → Sched → Acquired
unfolding group_take
group_wake timed_out s =
    let woken = record s { wait_cnt = s.wait_cnt - 1 } in
    if leb s.max_load s.cur_load
    then (if timed_out then failed etimedout woken else waiting s)
    else group_take woken

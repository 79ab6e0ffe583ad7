-- ===== src/Sched.antt =====
-- The load balancing of src/net/CommScheduler.cc: targets with their loads, and the heap of a group.
-- A target is known by its address, 0 is NULL; the fields of all targets are functions of it.
pub mod Table
pub mod Ends
pub mod Order
pub mod Hole
pub mod Up
pub mod Down
pub mod Group
use tinywf.Prelude.{
  ℕ, zero, suc, ◌+◌, ◌-◌, ◌*◌, ◌/◌, ◌%◌, ◌^◌, Bool, true, false, ◌&&◌, Option, none, some, List, [],
  ◌∷◌, ◌++◌, ◌==◌, ltb, leb, if◌then◌else◌, length, get_or, set, take,
}

-- `max_load` and `cur_load` of each target
pub record Loads : Type 0 where
  pub max_load : ℕ → ℕ
  pub cur_load : ℕ → ℕ

-- The entries of `tg_heap` in use, and the `index` of each target.
pub record Heap : Type 0 where
  pub tg_heap : List ℕ
  pub index : ℕ → ℕ

-- A target stored in a slot, with its `index`.
unfoldable pub place : ℕ → ℕ → Heap → Heap
place i target h = record {
  tg_heap = set h.tg_heap i target;
  index = λ t. if t == target then i else h.index t;
}

-- The results -1, 0 and 1.
pub data Comparison : Type 0 where
  less equal greater : Comparison

-- `CommSchedGroup::target_cmp`, on `size_t`
unfoldable pub target_cmp : Loads → ℕ → ℕ → Comparison
target_cmp l target1 target2 =
    let load1 = (l.cur_load target1 * l.max_load target2) % 2 ^ 64 in
    let load2 = (l.cur_load target2 * l.max_load target1) % 2 ^ 64 in
    if ltb load1 load2 then less else if ltb load2 load1 then greater else equal

-- `cmp < !!swap_on_equal`; with `false` it is `cmp < 0`.
abbrev pub is_below : Bool → Comparison → Bool
is_below swap_on_equal less = true
is_below swap_on_equal equal = swap_on_equal
is_below swap_on_equal greater = false

unfoldable pub goes_below : Loads → Bool → ℕ → ℕ → Bool
unfolding target_cmp
goes_below l swap_on_equal target1 target2 = is_below swap_on_equal (target_cmp l target1 target2)

abbrev pub parent : ℕ → ℕ
parent index = (index - 1) / 2

-- The loop of `heap_adjust`, and the two lines behind it. Each round halves `index`, so `index`
-- rounds are enough.
unfoldable pub adjust_loop : Loads → Bool → ℕ → ℕ → ℕ → Heap → Heap
unfolding place goes_below
adjust_loop l swap_on_equal zero index target h = place index target h
adjust_loop l swap_on_equal (suc fuel) index target h =
    let above = get_or h.tg_heap (parent index) 0 in
    let rest = adjust_loop l swap_on_equal fuel (parent index) target (place index above h) in
    if ltb 0 index && goes_below l swap_on_equal target above then rest else place index target h

unfoldable pub heap_adjust : Loads → ℕ → Bool → Heap → Heap
unfolding adjust_loop
heap_adjust l index swap_on_equal h =
    adjust_loop l swap_on_equal index index (get_or h.tg_heap index 0) h

-- The child that takes the place of the target at `top`, if one does: of two, or of one.
unfoldable pub rising_child : Loads → ℕ → ℕ → Heap → Option ℕ
unfolding goes_below
rising_child l top target h =
    let i = 2 * top + 1 in
    let last = length h.tg_heap - 1 in
    let first = get_or h.tg_heap i 0 in
    let second = get_or h.tg_heap (i + 1) 0 in
    if ltb i last
    then (if goes_below l false first target
        then (if goes_below l false second first then some (i + 1) else some i)
        else if goes_below l false second target
        then some (i + 1)
        else none)
    else if i == last && goes_below l false first target
    then some i
    else none

-- The loop of `heapify`; `top` grows, so the size of the heap is fuel enough. Behind the child that is
-- last no other stands, so that the code's case for it is a last round here.
unfoldable pub sift_loop : Loads → ℕ → ℕ → ℕ → Heap → Heap
unfolding rising_child place
sift_loop l zero top target h = place top target h
sift_loop l (suc fuel) top target h = elim (rising_child l top target h) [
  | none ↦ place top target h
  | some child ↦ sift_loop l fuel child target (place top (get_or h.tg_heap child 0) h)
]

unfoldable pub heapify : Loads → ℕ → Heap → Heap
unfolding sift_loop
heapify l top h = sift_loop l (length h.tg_heap) top (get_or h.tg_heap top 0) h

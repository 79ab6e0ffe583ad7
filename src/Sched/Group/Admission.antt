-- ===== src/Sched/Group/Admission.antt =====
-- What `init` and `add` of src/net/CommScheduler.cc come to, on every branch.
use tinywf.Prelude.{
  ℕ, ◌+◌, ◌*◌, ◌^◌, ◌<◌, ◌≡◌, ◌≢◌, refl, Bool, true, false, not, ◌&&◌, none, some, arith, ◌==◌,
  if◌then◌else◌, length, ltb,
}
use tinywf.Sched.Order.{Fits}
use tinywf.Sched.Group.{
  Sched, enomem, einval, eexist, ebusy, Changed, changed, refused, heap_insert, add_inserted,
  group_add, group_init,
}
use tinywf.Sched.Group.Valid.{IsValid}
use tinywf.Sched.Group.Change.{joined, joined-IsValid}

-- A new group, which no target names yet, is valid.
pub group_init-IsValid :
    (s : Sched) → s.self ≢ 0 → ((t : ℕ) → s.group_of t ≢ s.self) → IsValid (group_init s)
unfolding group_init
group_init-IsValid s n h = record {
  content = record {
    fits = λ k p. absurd (omega arith);
    grouped = λ k p. absurd (omega arith);
    listed = λ t g. absurd (h t g);
    cur_sum = refl;
    max_sum = refl;
    named = n;
    bounded = omega arith;
  };
  ordered = λ c p q. absurd (omega arith);
  indexed = λ k p. absurd (omega arith);
}

-- The target is of the group, with its loads in the group's, or the code says why not: it is in this
-- group, or in another one, or waited for, or there is no memory.
unfoldable pub IsAdded : Sched → ℕ → Changed → Type 0
IsAdded s t (changed b r) =
    IsValid r
    × (r.group_of t ≡ s.self)
    × (r.cur_load ≡ s.cur_load + s.loads.cur_load t)
    × (r.max_load ≡ s.max_load + s.loads.max_load t)
IsAdded s t (refused enomem r) = (r ≡ s) × (s.group_of t ≡ 0)
IsAdded s t (refused eexist r) = (r ≡ s) × (s.group_of t ≡ s.self)
IsAdded s t (refused einval r) = (r ≡ s) × (s.group_of t ≢ 0) × (s.group_of t ≢ s.self)
IsAdded s t (refused ebusy r) = (r ≡ s) × (0 < s.wait_cnt_of t)
IsAdded s t (refused e r) = true ≡ false

module _ (s : Sched) (t : ℕ) (v : IsValid s) (f : Fits s.loads t)
    (small : s.max_load + s.loads.max_load t < 2 ^ 63) where
  with_memory :
      (g : s.group_of t ≡ 0)
      → (n : ℕ) → (b : Bool) → IsAdded s t (changed b (joined s t v g f small n))
  unfolding IsAdded
  with_memory g n b = (joined-IsValid s t v g f small n, ground arith, refl, refl)

  inserted-IsAdded :
      (alloc : Bool) → s.group_of t ≡ 0 → IsAdded s t (add_inserted t s (heap_insert alloc t s))
  unfolding heap_insert add_inserted IsAdded
  inserted-IsAdded alloc g = by_outcome (length s.heap.tg_heap == s.heap_buf_size) alloc
    where
      signals : Bool
      signals =
          ltb 0 s.wait_cnt
          && ltb (s.cur_load + s.loads.cur_load t) (s.max_load + s.loads.max_load t)

      heap : ℕ → Sched
      heap n = record s { heap = (joined s t v g f small n).heap; heap_buf_size = n }

      by_outcome :
          (grows a : Bool)
          → IsAdded s t (
              add_inserted t s (
                if grows
                then (if a then some (heap (2 * s.heap_buf_size)) else none)
                else some (heap s.heap_buf_size)))
      by_outcome true true = with_memory g (2 * s.heap_buf_size) signals
      by_outcome true false = (refl, g)
      by_outcome false a = with_memory g s.heap_buf_size signals

  pub group_add-IsAdded : (alloc : Bool) → IsAdded s t (group_add alloc t s)
  unfolding group_add IsAdded
  group_add-IsAdded alloc =
      by_tests (s.group_of t == 0) (s.wait_cnt_of t == 0) (s.group_of t == s.self) refl refl refl
    where
      chosen : Bool → Bool → Bool → Changed
      chosen a b c =
          if a && b
          then add_inserted t s (heap_insert alloc t s)
          else if c
          then refused eexist s
          else if not a
          then refused einval s
          else refused ebusy s

      by_tests :
          (a b c : Bool)
          → (s.group_of t == 0) ≡ a
          → (s.wait_cnt_of t == 0) ≡ b
          → (s.group_of t == s.self) ≡ c
          → IsAdded s t (chosen a b c)
      by_tests true true c p q r = inserted-IsAdded alloc (ground (arith, p))
      by_tests true false true p q r = (refl, ground (arith, r))
      by_tests true false false p q r = (refl, ground (arith, q))
      by_tests false b true p q r = (refl, ground (arith, r))
      by_tests false b false p q r = (refl, ground (arith, p), ground (arith, r))

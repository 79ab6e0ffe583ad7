-- ===== src/Sched/Group/Departure.antt =====
-- What `remove` of src/net/CommScheduler.cc comes to, on every branch.
use tinywf.Prelude.{
  ℕ, ◌+◌, ◌-◌, ◌<◌, ◌≤◌, ◌≡◌, ◌≢◌, refl, sym, ap, subst, ◌∙◌, Bool, true, false, not, ◌&&◌, List,
  arith, ◌==◌, if◌then◌else◌, length, get_or, take, Bool-cases, inl, inr,
}
use tinywf.Sched.{Heap, place, heap_adjust, heapify, parent}
use tinywf.Sched.Table.{total}
use tinywf.Sched.Ends.{closed, origin, length-closed, closed_last, get_or-closed, total-closed}
use tinywf.Sched.Order.{leq, Fits}
use tinywf.Sched.Hole.{Restored}
use tinywf.Sched.Group.{
  Sched, update, minus, enoent, ebusy, Changed, changed, refused, heap_remove, group_remove,
}
use tinywf.Sched.Group.Valid.{Content, IsValid, Restored-IsValid, IsValid-apart, IsValid-slot}
use tinywf.Sched.Group.Sums.{total_le}
use tinywf.Sched.Group.Removal.{removed-Restored}

-- The target is of no group, and its loads are not in the group's, or the code says why not: it is
-- not in this group, or waited for.
unfoldable pub IsRemoved : Sched → ℕ → Changed → Type 0
IsRemoved s t (changed b r) =
    IsValid r
    × (r.group_of t ≡ 0)
    × (r.cur_load + s.loads.cur_load t ≡ s.cur_load)
    × (r.max_load + s.loads.max_load t ≡ s.max_load)
IsRemoved s t (refused enoent r) = (r ≡ s) × (s.group_of t ≢ s.self)
IsRemoved s t (refused ebusy r) = (r ≡ s) × (0 < s.wait_cnt_of t)
IsRemoved s t (refused e r) = true ≡ false

module _ (s : Sched) (t : ℕ) (v : IsValid s) (g : s.group_of t ≡ s.self) where
  abbrev whole : List ℕ
  whole = s.heap.tg_heap

  abbrev i : ℕ
  i = s.heap.index t

  inside : i < length whole
  inside = (IsValid-slot s t v g).0

  stands : get_or whole i 0 ≡ t
  stands = (IsValid-slot s t v g).1

  abbrev array : List ℕ
  array = closed whole i

  size : length array + 1 ≡ length whole
  size = length-closed whole i inside

  slots : (k : ℕ) → k < length array → get_or array k 0 ≡ get_or whole (origin whole i k) 0
  slots k p = get_or-closed whole i inside k (omega (arith, p, size))

  origin_in : (k : ℕ) → k < length array → origin whole i k < length whole
  origin_in k p = ground (arith, p, size)

  other : (k : ℕ) → k < length array → get_or array k 0 ≢ t
  other k p e =
      let at =
        IsValid-apart s (origin whole i k) i v (origin_in k p) inside
          (sym (slots k p) ∙ e ∙ sym stands) in
      ground (arith, at, p, size)

  less : (f : ℕ → ℕ) → total f array + f t ≡ total f whole
  less f = ap (λ u. total f array + f u) (sym stands) ∙ total-closed whole i inside f

  -- What `remove` leaves, if the heap is `h`.
  abbrev left : Heap → Sched
  left h = record s {
    heap = h;
    max_load = minus s.max_load (s.loads.max_load t);
    cur_load = minus s.cur_load (s.loads.cur_load t);
    group_of = update t 0 s.group_of;
  }

  cur_bounded : s.cur_load ≤ s.max_load
  cur_bounded = omega (
    arith,
    v.content.cur_sum,
    v.content.max_sum,
    total_le s.loads.cur_load s.loads.max_load whole (λ k p. (v.content.fits k p).within),
  )

  left_sums :
      (minus s.cur_load (s.loads.cur_load t) ≡ total s.loads.cur_load array)
      × (minus s.max_load (s.loads.max_load t) ≡ total s.loads.max_load array)
  left_sums = (
    omega (arith, less s.loads.cur_load, v.content.cur_sum, cur_bounded, v.content.bounded),
    omega (arith, less s.loads.max_load, v.content.max_sum, v.content.bounded),
  )

  -- Where an old slot of another target went.
  stays_listed :
      (k : ℕ)
      → k < length whole
      → k ≢ i
      → (m : ℕ) × (m < length array) × (get_or array m 0 ≡ get_or whole k 0)
  stays_listed k p n = elim (Bool-cases (k == length whole - 1)) [
    | inl e ↦
        let at : origin whole i i ≡ k = ground (arith, e) in
        let q : i < length array = ground (arith, e, n, size, inside) in
        (i, q, slots i q ∙ ap (λ j. get_or whole j 0) at)
    | inr e ↦
        let q : k < length array = ground (arith, e, p, size) in
        let at : origin whole i k ≡ k = ground (arith, n) in
        (k, q, slots k q ∙ ap (λ j. get_or whole j 0) at)
  ]

  left-Content : (h : Heap) → Content array (left h)
  left-Content h = record {
    fits = λ k p.
        subst (Fits s.loads) (sym (slots k p)) (v.content.fits (origin whole i k) (origin_in k p));
    grouped = λ k p. ground (
      arith,
      other k p,
      ap s.group_of (slots k p) ∙ v.content.grouped (origin whole i k) (origin_in k p),
    );
    listed = λ u d.
        let n : u ≢ t = λ e. v.content.named (ground (arith, d, e)) in
        let d' : s.group_of u ≡ s.self = ground (arith, d, n) in
        let (k, p, e) = v.content.listed u d' in
        let apart : k ≢ i = λ q. n (sym e ∙ ap (λ j. get_or whole j 0) q ∙ stands) in
        let (m, q, f) = stays_listed k p apart in (m, q, f ∙ e);
    cur_sum = left_sums.0;
    max_sum = left_sums.1;
    named = v.content.named;
    bounded =
        omega (arith, left_sums.1, less s.loads.max_load, v.content.max_sum, v.content.bounded);
  }

  abbrev shorter : Heap
  shorter = record s.heap { tg_heap = take (length whole - 1) whole }

  -- The last target leaves, and nothing moves.
  last_leaves : (i == length whole - 1) ≡ true → Restored s.loads array shorter
  last_leaves e =
      let kept : (k : ℕ) → k < length array → get_or array k 0 ≡ get_or whole k 0 = λ k p.
        let at : origin whole i k ≡ k = ground (arith, e, p, size) in
        slots k p ∙ ap (λ j. get_or whole j 0) at in
      subst (λ a. Restored s.loads array (record s.heap { tg_heap = a }))
        (closed_last whole i inside e)
        (record {
          size = refl;
          heap = λ c p q.
              let up : parent c < length array = omega (arith, p, q) in
              ap (λ x. leq s.loads x (get_or array c 0)) (kept (parent c) up)
              ∙ ap (leq s.loads (get_or whole (parent c) 0)) (kept c q)
              ∙ v.ordered c p (omega (arith, q, size));
          indexed = λ k p. ap s.heap.index (kept k p) ∙ v.indexed k (omega (arith, p, size));
          from = λ k p. (k, p, refl);
          onto = λ m p. (m, p, refl);
          sums = λ f. refl;
        })

  removed : Restored s.loads array (heap_remove i s).heap
  unfolding heap_remove
  removed = elim (Bool-cases (i == length whole - 1)) [
    | inl e ↦ subst (λ b. Restored s.loads array (after b)) (sym e) (last_leaves e)
    | inr e ↦
        subst (λ b. Restored s.loads array (after b)) (sym e)
          (removed-Restored s i v (ground (arith, e, inside)))
  ]
    where
      hole : Heap
      hole = place i (get_or whole (length whole - 1) 0) shorter

      adjusted : Heap
      adjusted = heap_adjust s.loads i false hole

      after : Bool → Heap
      after b =
          (if b then record s { heap = shorter } else record s {
            heap = heapify s.loads (adjusted.index (get_or whole (length whole - 1) 0)) adjusted;
          }).heap

  left-IsValid : IsValid (left (heap_remove i s).heap)
  left-IsValid =
      Restored-IsValid array (left (heap_remove i s).heap) (left-Content (heap_remove i s).heap)
        removed

  left-IsRemoved : IsRemoved s t (changed false (left (heap_remove i s).heap))
  unfolding IsRemoved
  left-IsRemoved = (
    left-IsValid,
    ground arith,
    omega (arith, left_sums.0, less s.loads.cur_load, v.content.cur_sum),
    omega (arith, left_sums.1, less s.loads.max_load, v.content.max_sum),
  )

  -- The other fields are the same.
  left_whole :
      record (heap_remove i s) {
        max_load = minus s.max_load (s.loads.max_load t);
        cur_load = minus s.cur_load (s.loads.cur_load t);
        group_of = update t 0 s.group_of;
      }
      ≡ left (heap_remove i s).heap
  unfolding heap_remove
  left_whole = by_last (i == length whole - 1) shorter _
    where
      by_last :
          (b : Bool) (x y : Heap)
          → record (if b then record s { heap = x } else record s { heap = y }) {
            max_load = minus s.max_load (s.loads.max_load t);
            cur_load = minus s.cur_load (s.loads.cur_load t);
            group_of = update t 0 s.group_of;
          }
            ≡ left (if b then record s { heap = x } else record s { heap = y }).heap
      by_last true x y = refl
      by_last false x y = refl

pub group_remove-IsRemoved : (s : Sched) (t : ℕ) → IsValid s → IsRemoved s t (group_remove t s)
unfolding group_remove IsRemoved
group_remove-IsRemoved s t v = by_tests (s.group_of t == s.self) (s.wait_cnt_of t == 0) refl refl
  where
    gone : Changed
    gone = changed false (record (heap_remove (s.heap.index t) s) {
      max_load = minus s.max_load (s.loads.max_load t);
      cur_load = minus s.cur_load (s.loads.cur_load t);
      group_of = update t 0 s.group_of;
    })

    chosen : Bool → Bool → Changed
    chosen a b = if a && b then gone else if not a then refused enoent s else refused ebusy s

    by_tests :
        (a b : Bool)
        → (s.group_of t == s.self) ≡ a
        → (s.wait_cnt_of t == 0) ≡ b
        → IsRemoved s t (chosen a b)
    by_tests true true p q =
        let g : s.group_of t ≡ s.self = ground (arith, p) in
        subst (λ r. IsRemoved s t (changed false r)) (sym (left_whole s t v g))
          (left-IsRemoved s t v g)
    by_tests true false p q = (refl, ground (arith, q))
    by_tests false b p q = (refl, ground (arith, p))

-- ===== src/Sched/Group/Removal.antt =====
-- `heap_remove` of src/net/CommScheduler.cc restores the heap.
use tinywf.Prelude.{
  ℕ, zero, suc, ◌+◌, ◌<◌, ◌≡◌, refl, sym, ap, subst, ◌∙◌, Bool, true, false, ◌&&◌, List, arith,
  length, get_or, ltb, Bool-cases, inl, inr,
}
use tinywf.Sched.{Loads, Heap, place, goes_below, heap_adjust, adjust_loop, heapify, parent}
use tinywf.Sched.Ends.{closed}
use tinywf.Sched.Order.{leq, leq_trans, Fits, IsHeap, goes_below-leq, stays-leq}
use tinywf.Sched.Hole.{Hole, Restored, Restored-trans, filled, place-indexed}
use tinywf.Sched.Up.{UpOrder, heap_adjust-Restored}
use tinywf.Sched.Down.{DownOrder, heapify-Restored}
use tinywf.Sched.Group.{Sched}
use tinywf.Sched.Group.Valid.{IsValid, set-get_or}
use tinywf.Sched.Group.Leave.{
  gap, last, above, size, fits, here, gap-Hole, gap-filled, low-UpOrder, high-DownOrder,
}

-- `heapify` at the slot of an entry, where every entry knows its slot.
heapify_at :
    (l : Loads) (h : Heap) (j : ℕ)
    → j < length h.tg_heap
    → ((k : ℕ) → k < length h.tg_heap → Fits l (get_or h.tg_heap k 0))
    → ((k : ℕ) → k < length h.tg_heap → h.index (get_or h.tg_heap k 0) ≡ k)
    → DownOrder l h.tg_heap j
    → Restored l h.tg_heap (heapify l j h)
heapify_at l h j p f g d =
    let whole = set-get_or h.tg_heap j in
    subst (λ a. Restored l a (heapify l j h)) whole
      (heapify-Restored l j h
        (record {
          inside = p;
          fits = λ k q. subst (λ a. Fits l (get_or a k 0)) (sym whole) (f k q);
          indexed = λ k q n. ap (λ a. h.index (get_or a k 0)) whole ∙ g k q;
          apart = λ k m q r e.
              sym (g k q)
              ∙ ap h.index (ap (λ a. get_or a k 0) (sym whole) ∙ e ∙ ap (λ a. get_or a m 0) whole)
              ∙ g m r;
        })
        (subst (λ a. DownOrder l a j) (sym whole) d))

-- A target that is not below the one above it stays.
heap_adjust_stays :
    (l : Loads) (i : ℕ) (b : Bool) (h : Heap)
    → (0 < i → goes_below l b (get_or h.tg_heap i 0) (get_or h.tg_heap (parent i) 0) ≡ false)
    → heap_adjust l i b h ≡ place i (get_or h.tg_heap i 0) h
unfolding heap_adjust adjust_loop
heap_adjust_stays l zero b h e = refl
heap_adjust_stays l (suc i) b h e = let test = e (omega arith) in ground (arith, test)

-- A heap in order is, below any slot.
heap-DownOrder :
    (l : Loads) (a : List ℕ) (j : ℕ)
    → IsHeap l a
    → ((k : ℕ) → k < length a → Fits l (get_or a k 0))
    → j < length a
    → DownOrder l a j
heap-DownOrder l a j h f p = record {
  edges = λ c p q n. h c p q;
  bridged = λ c q r e t.
      leq_trans l (get_or a (parent j) 0) (get_or a j 0) (get_or a c 0) (f j p) (h j t p)
        (ap (λ k. leq l (get_or a k 0) (get_or a c 0)) (sym e) ∙ h c q r);
}

module _ (s : Sched) (i : ℕ) (v : IsValid s) (inside : i + 1 < length s.heap.tg_heap) where
  abbrev array : List ℕ
  array = closed s.heap.tg_heap i

  abbrev moving : ℕ
  moving = last s i v inside

  abbrev hole : Heap
  hole = gap s i v inside

  at_hole : get_or hole.tg_heap i 0 ≡ moving
  unfolding place
  at_hole = here s i v inside

  same : filled i (get_or hole.tg_heap i 0) hole ≡ array
  same = gap-filled s i v inside _ at_hole

  hole-Hole : Hole s.loads i (get_or hole.tg_heap i 0) hole
  hole-Hole = gap-Hole s i v inside _ at_hole

  abbrev pub settles : Heap → Heap
  settles h = heapify s.loads (h.index moving) h

  Done : Heap → Type 0
  Done h = Restored s.loads array (settles h)

  -- The target went up, and is in order.
  rose :
      0 < i
      → leq s.loads moving (above s i v inside) ≡ true
      → Done (heap_adjust s.loads i false hole)
  unfolding Done
  rose r h =
      let up =
        subst (λ a. Restored s.loads a (heap_adjust s.loads i false hole)) same
          (heap_adjust-Restored s.loads i false hole hole-Hole
            (subst (λ a. UpOrder s.loads a i) (sym same) (low-UpOrder s i v inside r h))) in
      let (k, p, e) = up.onto i (omega (arith, inside, size s i v inside)) in
      let at : (heap_adjust s.loads i false hole).index moving ≡ k =
        ap (heap_adjust s.loads i false hole).index (sym (here s i v inside) ∙ sym e)
        ∙ up.indexed k p in
      let fitting : (m : ℕ)
          → m < length (heap_adjust s.loads i false hole).tg_heap
          → Fits s.loads (get_or (heap_adjust s.loads i false hole).tg_heap m 0) =
        λ m p.
          let (n, q, e) = up.from m (omega (arith, p, up.size)) in
          subst (Fits s.loads) (sym e) (fits s i v inside n q) in
      let in_heap : (heap_adjust s.loads i false hole).index moving
          < length (heap_adjust s.loads i false hole).tg_heap =
        omega (arith, at, p, up.size) in
      Restored-trans s.loads array (heap_adjust s.loads i false hole)
        (settles (heap_adjust s.loads i false hole)) up
        (heapify_at s.loads (heap_adjust s.loads i false hole)
          ((heap_adjust s.loads i false hole).index moving) in_heap fitting
          (λ k p. up.indexed k (omega (arith, p, up.size)))
          (heap-DownOrder s.loads _ _ up.heap fitting in_heap))

  abbrev settled : Heap
  settled = place i (get_or hole.tg_heap i 0) hole

  -- The target was placed where the other one stood.
  stayed : (0 < i → leq s.loads (above s i v inside) moving ≡ true) → Done settled
  unfolding Done place
  stayed h =
      let at : settled.index moving ≡ i = ground (arith, at_hole) in
      let in_array : i < length array = omega (arith, inside, size s i v inside) in
      subst (λ a. Restored s.loads a (settles settled)) same
        (heapify_at s.loads settled (settled.index moving)
          (omega (arith, at, in_array, ap length same))
          (λ k p.
            subst (λ a. Fits s.loads (get_or a k 0)) (sym same)
              (fits s i v inside k (omega (arith, p, ap length same))))
          (λ k p.
            place-indexed s.loads i (get_or hole.tg_heap i 0) hole hole-Hole k
              (omega (arith, p, ap length same)))
          (subst (λ a. DownOrder s.loads a (settled.index moving)) (sym same)
            (subst (DownOrder s.loads array) (sym at) (high-DownOrder s i v inside h))))

  in_gap : i < length array
  in_gap = omega (arith, inside, size s i v inside)

  Fits-above : Fits s.loads (above s i v inside)
  Fits-above = fits s i v inside (parent i) (omega (arith, in_gap))

  Fits-moving : Fits s.loads moving
  Fits-moving = subst (Fits s.loads) (here s i v inside) (fits s i v inside i in_gap)

  -- Whichever way it goes.
  pub removed-Restored : Restored s.loads array (settles (heap_adjust s.loads i false hole))
  unfolding Done place
  removed-Restored =
      elim (Bool-cases (ltb 0 i && goes_below s.loads false moving (above s i v inside))) [
        | inl e ↦
            let r : 0 < i = ground (arith, e) in
            rose r (
              goes_below-leq s.loads false moving (above s i v inside) Fits-moving Fits-above
                (ground (arith, e)))
        | inr e ↦
            subst (λ h. Restored s.loads array (settles h))
              (sym (
                heap_adjust_stays s.loads i false hole (λ r.
                  ap (λ t. goes_below s.loads false t (above s i v inside)) at_hole
                  ∙ ground (arith, e, r))))
              (stayed (λ r.
                stays-leq s.loads false moving (above s i v inside) Fits-moving Fits-above
                  (ground (arith, e, r))))
      ]

-- ===== src/Sched/Up.antt =====
-- `heap_adjust` of src/net/CommScheduler.cc restores a heap with one target too low in it.
use tinywf.Prelude.{
  ℕ, zero, suc, ◌<◌, ◌≤◌, ◌≡◌, ◌≢◌, sym, ap, subst, ◌∙◌, Bool, true, false, ◌&&◌, List, arith, ◌==◌,
  ltb, if◌then◌else◌, length, length-set, get_or, Bool-cases, inl, inr,
}
use tinywf.Sched.{Loads, Heap, place, goes_below, parent, adjust_loop, heap_adjust}
use tinywf.Sched.Table.{get_or-set, exchanged}
use tinywf.Sched.Order.{Fits, leq, leq_trans, goes_below-leq, stays-leq, IsHeap}
use tinywf.Sched.Hole.{
  Hole, Restored, filled, moved, place-Restored, moved-slots, moved-Hole, moved-Restored,
  length-moved,
}

-- Only the edge above `i` may be out of order.
pub record UpOrder (l : Loads) (a : List ℕ) (i : ℕ) : Type 0 where
  pub edges :
      (c : ℕ) → 0 < c → c < length a → c ≢ i → leq l (get_or a (parent c) 0) (get_or a c 0) ≡ true
  pub bridged :
      (c : ℕ)
      → 0 < c
      → c < length a
      → parent c ≡ i
      → 0 < i
      → leq l (get_or a (parent i) 0) (get_or a c 0) ≡ true

settled :
    (l : Loads) (a : List ℕ) (i : ℕ)
    → UpOrder l a i
    → (0 < i → leq l (get_or a (parent i) 0) (get_or a i 0) ≡ true)
    → IsHeap l a
settled l a i v e c p q = elim (Bool-cases (c == i)) [
  | inl s ↦
      let same : i ≡ c = ground (arith, s) in
      subst (λ k. leq l (get_or a (parent k) 0) (get_or a k 0) ≡ true) same
        (e (omega (arith, same, p)))
  | inr s ↦ v.edges c p q (ground (arith, s))
]

-- The order of an array whose entries at `i` and above it were exchanged.
exchanged-UpOrder :
    (l : Loads) (a b : List ℕ) (i : ℕ)
    → UpOrder l a i
    → ((k : ℕ) → k < length a → Fits l (get_or a k 0))
    → length b ≡ length a
    → 0 < i
    → i < length a
    → ((k : ℕ) → get_or b k 0 ≡ get_or a (exchanged i (parent i) k) 0)
    → leq l (get_or a i 0) (get_or a (parent i) 0) ≡ true
    → UpOrder l b (parent i)
exchanged-UpOrder l a b i v fits size pos inside slots below = record {
  edges = λ c p q n. ground (
    arith,
    slots c,
    slots (parent c),
    v.edges c p (omega (arith, q, size)),
    v.bridged c p (omega (arith, q, size)),
    below,
    leq_trans l (get_or a i 0) (get_or a (parent i) 0) (get_or a c 0)
        (fits (parent i) (omega (arith, inside, pos))),
    pos,
    size,
  );
  bridged = λ c p q e r. ground (
    arith,
    slots c,
    slots (parent (parent i)),
    v.edges c p (omega (arith, q, size)),
    v.edges (parent i) r (omega (arith, inside, pos)),
    leq_trans l (get_or a (parent (parent i)) 0) (get_or a (parent i) 0) (get_or a c 0)
        (fits (parent i) (omega (arith, inside, pos))),
    pos,
    size,
  );
}

adjust_loop-Restored :
    (l : Loads) (b : Bool) (fuel i target : ℕ) (h : Heap)
    → i ≤ fuel
    → Hole l i target h
    → UpOrder l (filled i target h) i
    → Restored l (filled i target h) (adjust_loop l b fuel i target h)
unfolding adjust_loop
adjust_loop-Restored l b zero i target h f w v =
    place-Restored l i target h w (settled l (filled i target h) i v (λ p. absurd (omega arith)))
adjust_loop-Restored l b (suc fuel) i target h f w v =
    elim (Bool-cases (ltb 0 i && goes_below l b target (get_or h.tg_heap (parent i) 0))) [
      | inr e ↦
          subst (Restored l (filled i target h)) (ap choose (sym e))
            (place-Restored l i target h w (settled l (filled i target h) i v (stays e)))
      | inl e ↦
          let pos : 0 < i = ground (arith, e) in
          let hj : parent i < length h.tg_heap = omega (arith, w.inside) in
          let n : (i == parent i) ≡ false = ground (arith, pos) in
          let slots = moved-slots l i (parent i) target h w hj n in
          subst (Restored l (filled i target h)) (ap choose (sym e)) (
            moved-Restored l i (parent i) target h w hj n _ (
              adjust_loop-Restored l b fuel (parent i) target (moved i (parent i) h) (omega arith)
                (moved-Hole l i (parent i) target h w hj n)
                (exchanged-UpOrder l (filled i target h)
                  (filled (parent i) target (moved i (parent i) h)) i v
                  (λ k p. w.fits k (omega (arith, p, size)))
                  (size' ∙ length-moved l i (parent i) target h w hj n ∙ sym size) pos
                  (omega (arith, w.inside, size)) slots (rises e))))
    ]
  where
    above : ℕ
    above = get_or h.tg_heap (parent i) 0

    choose : Bool → Heap
    choose c =
        if c then adjust_loop l b fuel (parent i) target (place i above h) else place i target h

    size : length (filled i target h) ≡ length h.tg_heap
    size = length-set h.tg_heap i target

    size' :
        length (filled (parent i) target (moved i (parent i) h))
        ≡ length (moved i (parent i) h).tg_heap
    size' = length-set (moved i (parent i) h).tg_heap (parent i) target

    here : get_or (filled i target h) i 0 ≡ target
    here = get_or-set h.tg_heap i i target w.inside ∙ ground arith

    up : 0 < i → get_or (filled i target h) (parent i) 0 ≡ above
    up p = ground (arith, get_or-set h.tg_heap i (parent i) target w.inside, p)

    Fits-target : Fits l target
    Fits-target = subst (Fits l) here (w.fits i w.inside)

    Fits-above : 0 < i → Fits l above
    Fits-above p = subst (Fits l) (up p) (w.fits (parent i) (omega (arith, w.inside)))

    stays :
        (ltb 0 i && goes_below l b target above) ≡ false
        → 0 < i
        → leq l (get_or (filled i target h) (parent i) 0) (get_or (filled i target h) i 0) ≡ true
    stays e p =
        let at : goes_below l b target above ≡ false = ground (arith, e, p) in
        ground (arith, here, up p, stays-leq l b target above Fits-target (Fits-above p) at)

    rises :
        (ltb 0 i && goes_below l b target above) ≡ true
        → leq l (get_or (filled i target h) i 0) (get_or (filled i target h) (parent i) 0) ≡ true
    rises e =
        let p : 0 < i = ground (arith, e) in
        let at : goes_below l b target above ≡ true = ground (arith, e) in
        ground (arith, here, up p, goes_below-leq l b target above Fits-target (Fits-above p) at)

-- `heap_adjust` of a slot, where only the edge above it may be out of order, and whichever way it treats
-- equal loads: the array has the same entries then, in heap order, and each knows its slot.
pub heap_adjust-Restored :
    (l : Loads) (i : ℕ) (b : Bool) (h : Heap)
    → Hole l i (get_or h.tg_heap i 0) h
    → UpOrder l (filled i (get_or h.tg_heap i 0) h) i
    → Restored l (filled i (get_or h.tg_heap i 0) h) (heap_adjust l i b h)
unfolding heap_adjust
heap_adjust-Restored l i b h w v =
    adjust_loop-Restored l b i i (get_or h.tg_heap i 0) h (omega arith) w v

-- ===== src/Sched/Hole.antt =====
-- The array of a heap in src/net/CommScheduler.cc while a target is being sifted: the slot where it
-- will stand is a hole, and an entry that moves into the hole leaves another.
use tinywf.Prelude.{
  ℕ, ◌<◌, ◌≡◌, ◌≢◌, refl, sym, ap, subst, ◌∙◌, true, false, List, arith, ◌==◌, length, length-set,
  get_or, set, Bool-cases, ◌⊎◌, inl, inr,
}
use tinywf.Sched.{Loads, Heap, place}
use tinywf.Sched.Table.{total, get_or-set, exchanged, get_or-moved, total-moved}
use tinywf.Sched.Order.{Fits, IsHeap}

-- The array with the target in the hole.
abbrev pub filled : ℕ → ℕ → Heap → List ℕ
filled i target h = set h.tg_heap i target

-- Every entry fits and knows its slot, but for the target, and no target stands in two slots.
pub record Hole (l : Loads) (i target : ℕ) (h : Heap) : Type 0 where
  pub inside : i < length h.tg_heap
  pub fits : (k : ℕ) → k < length h.tg_heap → Fits l (get_or (filled i target h) k 0)
  pub indexed :
      (k : ℕ) → k < length h.tg_heap → k ≢ i → h.index (get_or (filled i target h) k 0) ≡ k
  pub apart :
      (k m : ℕ)
      → k < length h.tg_heap
      → m < length h.tg_heap
      → get_or (filled i target h) k 0 ≡ get_or (filled i target h) m 0
      → k ≡ m

-- The heap `r` has the entries of the array `a`, in heap order, and each knows its slot.
pub record Restored (l : Loads) (a : List ℕ) (r : Heap) : Type 0 where
  pub size : length r.tg_heap ≡ length a
  pub heap : IsHeap l r.tg_heap
  pub indexed : (k : ℕ) → k < length a → r.index (get_or r.tg_heap k 0) ≡ k
  pub from :
      (k : ℕ) → k < length a → (m : ℕ) × (m < length a) × (get_or r.tg_heap k 0 ≡ get_or a m 0)
  pub onto :
      (m : ℕ) → m < length a → (k : ℕ) × (k < length a) × (get_or r.tg_heap k 0 ≡ get_or a m 0)
  pub sums : (f : ℕ → ℕ) → total f r.tg_heap ≡ total f a

-- The target falls into the hole, and every entry knows its slot.
pub place-indexed :
    (l : Loads) (i target : ℕ) (h : Heap)
    → Hole l i target h
    → (k : ℕ) → k < length h.tg_heap
    → (place i target h).index (get_or (filled i target h) k 0) ≡ k
unfolding place
place-indexed l i target h w k p = at (Bool-cases (k == i))
  where
    here : get_or (filled i target h) i 0 ≡ target
    here = get_or-set h.tg_heap i i target w.inside ∙ ground arith

    same : (k == i) ≡ true → k ≡ i
    same e = ground (arith, e)

    at :
        ((k == i) ≡ true) ⊎ ((k == i) ≡ false)
        → (place i target h).index (get_or (filled i target h) k 0) ≡ k
    at (inl e) = ground (arith, e, here, ap (λ m. get_or (filled i target h) m 0) (same e))
    at (inr e) =
        let n : k ≢ i = ground (arith, e) in
        let other : get_or (filled i target h) k 0 ≢ target =
          λ q. n (w.apart k i p w.inside (q ∙ sym here)) in
        ground (arith, other, w.indexed k p n)

-- So it does where the heap is in order then.
pub place-Restored :
    (l : Loads) (i target : ℕ) (h : Heap)
    → Hole l i target h
    → IsHeap l (filled i target h)
    → Restored l (filled i target h) (place i target h)
unfolding place
place-Restored l i target h w heap = record {
  size = refl;
  heap = heap;
  indexed = λ k p. place-indexed l i target h w k (omega (arith, p, length-set h.tg_heap i target));
  from = λ k p. (k, p, refl);
  onto = λ m p. (m, p, refl);
  sums = λ f. refl;
}

pub Restored-trans :
    (l : Loads) (a : List ℕ) (h r : Heap) → Restored l a h → Restored l h.tg_heap r → Restored l a r
Restored-trans l a h r v w = record {
  size = w.size ∙ v.size;
  heap = w.heap;
  indexed = λ k p. w.indexed k (omega (arith, p, v.size));
  from = λ k p.
      let (m, q, e) = w.from k (omega (arith, p, v.size)) in
      let (n, q', e') = v.from m (omega (arith, q, v.size)) in (n, q', e ∙ e');
  onto = λ m p.
      let (k, q, e) = v.onto m p in
      let (n, q', e') = w.onto k (omega (arith, q, v.size)) in
      (n, omega (arith, q', v.size), e' ∙ e);
  sums = λ f. w.sums f ∙ v.sums f;
}

-- An entry moves into the hole.
abbrev pub moved : ℕ → ℕ → Heap → Heap
moved i j h = place i (get_or h.tg_heap j 0) h

module _ (l : Loads) (i j target : ℕ) (h : Heap) (w : Hole l i target h) (hj : j < length h.tg_heap)
    (n : (i == j) ≡ false) where
  -- What stands in the slots then.
  pub moved-slots :
      (k : ℕ)
      → get_or (filled j target (moved i j h)) k 0 ≡ get_or (filled i target h) (exchanged i j k) 0
  unfolding place
  moved-slots k = get_or-moved h.tg_heap i j target w.inside hj n k

  pub length-moved : length (moved i j h).tg_heap ≡ length h.tg_heap
  unfolding place
  length-moved = length-set h.tg_heap i (get_or h.tg_heap j 0)

  slots_in : (k : ℕ) → k < length (moved i j h).tg_heap → exchanged i j k < length h.tg_heap
  slots_in k p = ground (arith, p, length-moved, hj, w.inside)

  back : (k : ℕ) → exchanged i j (exchanged i j k) ≡ k
  back k = ground (arith, n)

  entry : get_or (filled i target h) j 0 ≡ get_or h.tg_heap j 0
  entry = ground (arith, get_or-set h.tg_heap i j target w.inside, n)

  moved-index :
      (k : ℕ)
      → k < length (moved i j h).tg_heap
      → k ≢ j
      → (moved i j h).index (get_or (filled i target h) (exchanged i j k) 0) ≡ k
  unfolding place
  moved-index k p q = elim (Bool-cases (k == i)) [
    | inl e ↦
        let at : exchanged i j k ≡ j = ground (arith, e) in
        let stands : get_or (filled i target h) (exchanged i j k) 0 ≡ get_or h.tg_heap j 0 =
          ap (λ m. get_or (filled i target h) m 0) at ∙ entry in
        ground (arith, e, stands)
    | inr e ↦
        let at : exchanged i j k ≡ k = ground (arith, e, q) in
        let n : k ≢ i = ground (arith, e) in
        let p' : k < length h.tg_heap = omega (arith, p, length-moved) in
        let other : get_or (filled i target h) k 0 ≢ get_or h.tg_heap j 0 =
          λ s. q (w.apart k j p' hj (s ∙ sym entry)) in
        ap (λ m. (moved i j h).index (get_or (filled i target h) m 0)) at
        ∙ ground (arith, other, w.indexed k p' n)
  ]

  pub moved-Hole : Hole l j target (moved i j h)
  moved-Hole = record {
    inside = omega (arith, length-moved, hj);
    fits = λ k p. subst (Fits l) (sym (moved-slots k)) (w.fits (exchanged i j k) (slots_in k p));
    indexed = λ k p q. ap (moved i j h).index (moved-slots k) ∙ moved-index k p q;
    apart = λ k m p q e.
        let same =
          w.apart (exchanged i j k) (exchanged i j m) (slots_in k p) (slots_in m q)
            (sym (moved-slots k) ∙ e ∙ moved-slots m) in
        sym (back k) ∙ ap (exchanged i j) same ∙ back m;
  }

  whole' : length (filled i target h) ≡ length h.tg_heap
  whole' = length-set h.tg_heap i target

  whole : length (filled j target (moved i j h)) ≡ length (moved i j h).tg_heap
  whole = length-set (moved i j h).tg_heap j target

  moved-size : length (filled j target (moved i j h)) ≡ length (filled i target h)
  moved-size = whole ∙ length-moved ∙ sym whole'

  moved-total : (f : ℕ → ℕ) → total f (filled j target (moved i j h)) ≡ total f (filled i target h)
  unfolding place
  moved-total f = total-moved h.tg_heap i j target w.inside hj n f

  pub moved-Restored :
      (r : Heap) → Restored l (filled j target (moved i j h)) r → Restored l (filled i target h) r
  moved-Restored r v =
      let size = moved-size in
      record {
        size = v.size ∙ size;
        heap = v.heap;
        indexed = λ k p. v.indexed k (omega (arith, p, size));
        from = λ k p.
            let (m, q, e) = v.from k (omega (arith, p, size)) in
            (
              exchanged i j m,
              omega (arith, slots_in m (omega (arith, q, size, whole)), whole'),
              e ∙ moved-slots m,
            );
        onto = λ m p.
            let q = slots_in m (omega (arith, p, length-moved, whole')) in
            let (k, q, e) = v.onto (exchanged i j m) (omega (arith, q, size, whole')) in
            (
              k,
              omega (arith, q, size),
              e ∙ moved-slots (exchanged i j m) ∙ ap (λ t. get_or (filled i target h) t 0) (back m),
            );
        sums = λ f. v.sums f ∙ moved-total f;
      }

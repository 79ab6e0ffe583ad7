-- ===== src/Sched/Group/Load.antt =====
-- Taking and releasing a connection in src/net/CommScheduler.cc: the load of one target changes, and
-- the heap is restored.
use tinywf.Prelude.{
  ℕ, ◌+◌, ◌<◌, ◌≤◌, ◌≡◌, ◌≢◌, refl, sym, ap, subst, ◌∙◌, true, arith, ◌==◌, length, get_or,
  Bool-cases, ◌⊎◌, inl, inr,
}
use tinywf.Sched.{Loads, Heap, parent}
use tinywf.Sched.Order.{leq, leq_trans, Fits}
use tinywf.Sched.Hole.{Hole, filled}
use tinywf.Sched.Up.{UpOrder}
use tinywf.Sched.Down.{DownOrder}
use tinywf.Sched.Group.{Sched, set_cur}
use tinywf.Sched.Group.Valid.{Content, IsValid, IsValid-apart, set-get_or, total-update, leq_mono}

-- One target's load becomes `v`.
module _ (s : Sched) (i v : ℕ) (valid : IsValid s) (inside : i < length s.heap.tg_heap) where
  abbrev pub target : ℕ
  target = get_or s.heap.tg_heap i 0

  abbrev pub loads : Loads
  loads = (set_cur target v s).loads

  pub whole : filled i target s.heap ≡ s.heap.tg_heap
  whole = set-get_or s.heap.tg_heap i

  other : (k : ℕ) → k < length s.heap.tg_heap → k ≢ i → get_or s.heap.tg_heap k 0 ≢ target
  other k p n e = n (IsValid-apart s k i valid p inside e)

  fits :
      v ≤ s.loads.max_load target
      → (k : ℕ) → k < length s.heap.tg_heap
      → Fits loads (get_or s.heap.tg_heap k 0)
  fits h k p =
      let f = valid.content.fits k p in
      record {
        some_load = f.some_load;
        small = f.small;
        within = elim (Bool-cases (get_or s.heap.tg_heap k 0 == target)) [
          | inl e ↦ ground (arith, e, h)
          | inr e ↦ ground (arith, e, f.within)
        ];
      }

  pub loaded-Hole : v ≤ s.loads.max_load target → Hole loads i target s.heap
  loaded-Hole h = record {
    inside = inside;
    fits = λ k p. subst (λ a. Fits loads (get_or a k 0)) (sym whole) (fits h k p);
    indexed = λ k p n. ap (λ a. s.heap.index (get_or a k 0)) whole ∙ valid.indexed k p;
    apart = λ k m p q e.
        IsValid-apart s k m valid p q
          (ap (λ a. get_or a k 0) (sym whole) ∙ e ∙ ap (λ a. get_or a m 0) whole);
  }

  kept :
      (k : ℕ)
      → k < length s.heap.tg_heap
      → k ≢ i
      → loads.cur_load (get_or s.heap.tg_heap k 0) ≡ s.loads.cur_load (get_or s.heap.tg_heap k 0)
  kept k p n = ground (arith, other k p n)

  changed-at : loads.cur_load target ≡ v
  changed-at = ground arith

  -- An edge of the heap between two slots that did not change, or whose ends moved apart.
  edge :
      (k m : ℕ)
      → k < length s.heap.tg_heap
      → m < length s.heap.tg_heap
      → loads.cur_load (get_or s.heap.tg_heap k 0) ≤ s.loads.cur_load (get_or s.heap.tg_heap k 0)
      → s.loads.cur_load (get_or s.heap.tg_heap m 0) ≤ loads.cur_load (get_or s.heap.tg_heap m 0)
      → leq s.loads (get_or s.heap.tg_heap k 0) (get_or s.heap.tg_heap m 0) ≡ true
      → leq loads (get_or s.heap.tg_heap k 0) (get_or s.heap.tg_heap m 0) ≡ true
  edge k m p q a b e =
      leq_mono s.loads loads (get_or s.heap.tg_heap k 0) (get_or s.heap.tg_heap m 0) refl refl a b e

  same : (k : ℕ) → (k ≡ i) ⊎ (k ≢ i)
  same k = elim (Bool-cases (k == i)) [
    | inl e ↦ inl (ground (arith, e))
    | inr e ↦ inr (ground (arith, e))
  ]

  grown :
      s.loads.cur_load target ≤ v
      → (k : ℕ) → k < length s.heap.tg_heap
      → s.loads.cur_load (get_or s.heap.tg_heap k 0) ≤ loads.cur_load (get_or s.heap.tg_heap k 0)
  grown h k p = elim (same k) [
    | inl e ↦
        subst
          (λ j.
            s.loads.cur_load (get_or s.heap.tg_heap j 0)
            ≤ loads.cur_load (get_or s.heap.tg_heap j 0))
          (sym e) (omega (arith, h, changed-at))
    | inr n ↦ omega (arith, kept k p n)
  ]

  shrunk :
      v ≤ s.loads.cur_load target
      → (k : ℕ) → k < length s.heap.tg_heap
      → loads.cur_load (get_or s.heap.tg_heap k 0) ≤ s.loads.cur_load (get_or s.heap.tg_heap k 0)
  shrunk h k p = elim (same k) [
    | inl e ↦
        subst
          (λ j.
            loads.cur_load (get_or s.heap.tg_heap j 0)
            ≤ s.loads.cur_load (get_or s.heap.tg_heap j 0))
          (sym e) (omega (arith, h, changed-at))
    | inr n ↦ omega (arith, kept k p n)
  ]

  bridge :
      (c : ℕ)
      → 0 < c
      → c < length s.heap.tg_heap
      → parent c ≡ i
      → 0 < i
      → leq s.loads (get_or s.heap.tg_heap (parent i) 0) (get_or s.heap.tg_heap c 0) ≡ true
  bridge c p q e r =
      leq_trans s.loads (get_or s.heap.tg_heap (parent i) 0) target (get_or s.heap.tg_heap c 0)
        (valid.content.fits i inside) (valid.ordered i r inside)
        (ap (λ k. leq s.loads (get_or s.heap.tg_heap k 0) (get_or s.heap.tg_heap c 0)) (sym e)
          ∙ valid.ordered c p q)

  -- A load that grew may be too high only for the targets below it.
  pub loaded-DownOrder : s.loads.cur_load target ≤ v → DownOrder loads (filled i target s.heap) i
  loaded-DownOrder h =
      subst (λ a. DownOrder loads a i) (sym whole)
        (record {
          edges = λ c p q n.
              let up : parent c < length s.heap.tg_heap = omega (arith, q, p) in
              edge (parent c) c up q (omega (arith, kept (parent c) up n)) (grown h c q)
                (valid.ordered c p q);
          bridged = λ c p q e r.
              let up : parent i < length s.heap.tg_heap = omega (arith, inside) in
              edge (parent i) c up q (omega (arith, kept (parent i) up (λ t. omega (arith, t, r))))
                (grown h c q) (bridge c p q e r);
        })

  -- A load that shrank may be too low only for the target above it.
  pub loaded-UpOrder : v ≤ s.loads.cur_load target → UpOrder loads (filled i target s.heap) i
  loaded-UpOrder h =
      subst (λ a. UpOrder loads a i) (sym whole)
        (record {
          edges = λ c p q n.
              let up : parent c < length s.heap.tg_heap = omega (arith, q, p) in
              edge (parent c) c up q (shrunk h (parent c) up) (omega (arith, kept c q n))
                (valid.ordered c p q);
          bridged = λ c p q e r.
              let up : parent i < length s.heap.tg_heap = omega (arith, inside) in
              edge (parent i) c up q (shrunk h (parent i) up)
                (omega (arith, kept c q (λ t. omega (arith, t, e, r)))) (bridge c p q e r);
        })

  -- The entries, with the new load in the sum.
  pub loaded-Content :
      (w : ℕ) (h : Heap)
      → v ≤ s.loads.max_load target
      → w + s.loads.cur_load target ≡ s.cur_load + v
      → Content s.heap.tg_heap (record (set_cur target v s) { cur_load = w; heap = h })
  loaded-Content w h f e =
      let c = valid.content in
      record {
        fits = fits f;
        grouped = c.grouped;
        listed = c.listed;
        cur_sum = omega (
          arith,
          e,
          c.cur_sum,
          total-update s.loads.cur_load target v i s.heap.tg_heap inside refl
              (λ k p q. IsValid-apart s k i valid p inside q),
        );
        max_sum = c.max_sum;
        named = c.named;
        bounded = c.bounded;
      }

-- ===== src/Sched/Group/Leave.antt =====
-- `heap_remove` of src/net/CommScheduler.cc: the last target takes the slot of one that leaves.
use tinywf.Prelude.{
  ℕ, ◌+◌, ◌-◌, ◌<◌, ◌≡◌, ◌≢◌, sym, ap, subst, ◌∙◌, true, List, arith, ◌==◌, length, get_or, set,
  take, Bool-cases, inl, inr,
}
use tinywf.Sched.{Heap, place, parent}
use tinywf.Sched.Ends.{closed, origin, length-closed, get_or-closed}
use tinywf.Sched.Order.{leq, leq_trans, Fits}
use tinywf.Sched.Hole.{Hole, filled}
use tinywf.Sched.Up.{UpOrder}
use tinywf.Sched.Down.{DownOrder}
use tinywf.Sched.Group.{Sched}
use tinywf.Sched.Group.Valid.{IsValid, IsValid-apart, set-get_or}

-- The target in slot `i` leaves, and it is not the last one.
module _ (s : Sched) (i : ℕ) (v : IsValid s) (inside : i + 1 < length s.heap.tg_heap) where
  abbrev pub whole : List ℕ
  whole = s.heap.tg_heap

  abbrev pub last : ℕ
  last = get_or whole (length whole - 1) 0

  abbrev pub gap : Heap
  gap = place i last (record s.heap { tg_heap = take (length whole - 1) whole })

  pub size : length (closed whole i) + 1 ≡ length whole
  size = length-closed whole i (omega (arith, inside))

  pub slots :
      (k : ℕ)
      → k < length (closed whole i)
      → get_or (closed whole i) k 0 ≡ get_or whole (origin whole i k) 0
  slots k p = get_or-closed whole i (omega (arith, inside)) k (omega (arith, p, size))

  pub origin_in : (k : ℕ) → k < length (closed whole i) → origin whole i k < length whole
  origin_in k p = ground (arith, p, size, inside)

  pub origin_apart :
      (k m : ℕ)
      → k < length (closed whole i)
      → m < length (closed whole i)
      → origin whole i k ≡ origin whole i m
      → k ≡ m
  origin_apart k m p q e = ground (arith, e, p, q, size)

  kept :
      (k : ℕ) → k < length (closed whole i) → k ≢ i → get_or (closed whole i) k 0 ≡ get_or whole k 0
  kept k p n =
      let at : origin whole i k ≡ k = ground (arith, n) in slots k p ∙ ap (λ j. get_or whole j 0) at

  pub here : get_or (closed whole i) i 0 ≡ last
  here =
      let at : origin whole i i ≡ length whole - 1 = ground arith in
      slots i (omega (arith, size, inside)) ∙ ap (λ j. get_or whole j 0) at

  pub fits : (k : ℕ) → k < length (closed whole i) → Fits s.loads (get_or (closed whole i) k 0)
  fits k p =
      subst (Fits s.loads) (sym (slots k p)) (v.content.fits (origin whole i k) (origin_in k p))

  not_last : (k : ℕ) → k + 1 < length whole → get_or whole k 0 ≢ last
  not_last k p e =
      omega
        (arith, p, IsValid-apart s k (length whole - 1) v (omega (arith, p)) (omega (arith, p)) e)

  pub gap-filled : (t : ℕ) → t ≡ last → filled i t gap ≡ closed whole i
  unfolding place
  gap-filled t e = ap (λ u. set (closed whole i) i u) (e ∙ sym here) ∙ set-get_or (closed whole i) i

  pub gap-Hole : (t : ℕ) → t ≡ last → Hole s.loads i t gap
  unfolding place
  gap-Hole t e =
      let same = gap-filled t e in
      record {
        inside = omega (arith, size, inside);
        fits = λ k p. subst (λ a. Fits s.loads (get_or a k 0)) (sym same) (fits k p);
        indexed = λ k p n.
            let q : k + 1 < length whole = omega (arith, p, size) in
            ap gap.index (ap (λ a. get_or a k 0) same ∙ kept k p n)
            ∙ ground (arith, not_last k q, v.indexed k (omega (arith, q)));
        apart = λ k m p q d. origin_apart k m p q (
            IsValid-apart s (origin whole i k) (origin whole i m) v (origin_in k p) (origin_in m q)
              (sym (slots k p)
                ∙ ap (λ a. get_or a k 0) (sym same)
                ∙ d
                ∙ ap (λ a. get_or a m 0) same
                ∙ slots m q));
      }

  -- An edge between two slots that nothing moved into.
  edge :
      (c : ℕ)
      → 0 < c
      → c < length (closed whole i)
      → c ≢ i
      → parent c ≢ i
      → leq s.loads (get_or (closed whole i) (parent c) 0) (get_or (closed whole i) c 0) ≡ true
  edge c p q n m =
      let up : parent c < length (closed whole i) = omega (arith, p, q) in
      ap (λ x. leq s.loads x (get_or (closed whole i) c 0)) (kept (parent c) up m)
      ∙ ap (leq s.loads (get_or whole (parent c) 0)) (kept c q n)
      ∙ v.ordered c p (omega (arith, q, size))

  -- From above the slot to a child of it.
  across :
      (c : ℕ)
      → 0 < c
      → c < length (closed whole i)
      → parent c ≡ i
      → 0 < i
      → leq s.loads (get_or (closed whole i) (parent i) 0) (get_or (closed whole i) c 0) ≡ true
  across c p q e r =
      let up : parent i < length (closed whole i) = omega (arith, r, inside, size) in
      let c' : c < length whole = omega (arith, q, size) in
      ap (λ x. leq s.loads x (get_or (closed whole i) c 0))
        (kept (parent i) up (λ n. omega (arith, n, r)))
      ∙ ap (leq s.loads (get_or whole (parent i) 0)) (kept c q (λ n. omega (arith, n, e, p)))
      ∙ leq_trans s.loads (get_or whole (parent i) 0) (get_or whole i 0) (get_or whole c 0)
          (v.content.fits i (omega (arith, inside))) (v.ordered i r (omega (arith, inside)))
          (ap (λ k. leq s.loads (get_or whole k 0) (get_or whole c 0)) (sym e) ∙ v.ordered c p c')

  abbrev pub above : ℕ
  above = get_or (closed whole i) (parent i) 0

  -- The last target is below the one above the slot.
  pub low-UpOrder : 0 < i → leq s.loads last above ≡ true → UpOrder s.loads (closed whole i) i
  low-UpOrder r h = record {
    edges = λ c p q n. elim (Bool-cases (parent c == i)) [
      | inl e ↦
          let e' : parent c ≡ i = ground (arith, e) in
          let up : parent i < length (closed whole i) = omega (arith, r, inside, size) in
          ap (λ k. leq s.loads (get_or (closed whole i) k 0) (get_or (closed whole i) c 0)) e'
          ∙ ap (λ x. leq s.loads x (get_or (closed whole i) c 0)) here
          ∙ leq_trans s.loads last above (get_or (closed whole i) c 0) (fits (parent i) up) h
              (across c p q e' r)
      | inr e ↦ edge c p q n (ground (arith, e))
    ];
    bridged = across;
  }

  -- It is not.
  pub high-DownOrder :
      (0 < i → leq s.loads above last ≡ true) → DownOrder s.loads (closed whole i) i
  high-DownOrder h = record {
    edges = λ c p q n. elim (Bool-cases (c == i)) [
      | inl e ↦
          let e' : c ≡ i = ground (arith, e) in
          ap (λ k. leq s.loads (get_or (closed whole i) (parent k) 0) (get_or (closed whole i) k 0))
            e'
          ∙ ap (leq s.loads above) here
          ∙ h (omega (arith, e', p))
      | inr e ↦ edge c p q (ground (arith, e)) n
    ];
    bridged = across;
  }

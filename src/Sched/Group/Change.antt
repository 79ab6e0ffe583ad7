-- ===== src/Sched/Group/Change.antt =====
-- `add` of src/net/CommScheduler.cc: a target joins the group.
use tinywf.Prelude.{
  ℕ, ◌+◌, ◌^◌, ◌<◌, ◌≡◌, ◌≢◌, sym, ap, subst, ◌∙◌, false, List, [], ◌∷◌, ◌++◌, arith, ◌==◌,
  if◌then◌else◌, length, get_or, Bool-cases, ◌⊎◌, inl, inr,
}
use tinywf.Sched.{Heap, heap_adjust, parent}
use tinywf.Sched.Table.{total-append}
use tinywf.Sched.Ends.{get_or-append, length-append_one}
use tinywf.Sched.Order.{leq, Fits}
use tinywf.Sched.Hole.{Hole, Restored}
use tinywf.Sched.Up.{UpOrder, heap_adjust-Restored}
use tinywf.Sched.Group.{Sched, update}
use tinywf.Sched.Group.Valid.{Content, IsValid, Restored-IsValid, IsValid-apart, set-get_or}

-- A target of no group, that fits in.
module _ (s : Sched) (t : ℕ) (v : IsValid s) (g : s.group_of t ≡ 0) (f : Fits s.loads t)
    (small : s.max_load + s.loads.max_load t < 2 ^ 63) where
  abbrev pub before : List ℕ
  before = s.heap.tg_heap

  abbrev pub longer : Heap
  longer = record { tg_heap = before ++ t ∷ []; index = update t (length before) s.heap.index }

  size : length longer.tg_heap ≡ length before + 1
  size = length-append_one before t

  slots :
      (k : ℕ)
      → k < length longer.tg_heap
      → get_or longer.tg_heap k 0 ≡ (if k == length before then t else get_or before k 0)
  slots k p = get_or-append before t k (omega (arith, p, size))

  at_end : get_or longer.tg_heap (length before) 0 ≡ t
  at_end = ground (arith, slots (length before) (omega (arith, size)))

  at_old : (k : ℕ) → k < length before → get_or longer.tg_heap k 0 ≡ get_or before k 0
  at_old k p = ground (arith, p, slots k (omega (arith, p, size)))

  new : (k : ℕ) → k < length before → get_or before k 0 ≢ t
  new k p e = v.content.named (sym (v.content.grouped k p) ∙ ap s.group_of e ∙ g)

  -- An end of the array, or an old slot.
  split : (k : ℕ) → k < length longer.tg_heap → (k ≡ length before) ⊎ (k < length before)
  split k p = elim (Bool-cases (k == length before)) [
    | inl e ↦ inl (ground (arith, e))
    | inr e ↦ inr (ground (arith, e, p, size))
  ]

  entry-Fits : (k : ℕ) → k < length longer.tg_heap → Fits s.loads (get_or longer.tg_heap k 0)
  entry-Fits k p = elim (split k p) [
    | inl e ↦ subst (Fits s.loads) (sym (ap (λ m. get_or longer.tg_heap m 0) e ∙ at_end)) f
    | inr q ↦ subst (Fits s.loads) (sym (at_old k q)) (v.content.fits k q)
  ]

  entry_apart :
      (k m : ℕ)
      → k < length longer.tg_heap
      → m < length longer.tg_heap
      → get_or longer.tg_heap k 0 ≡ get_or longer.tg_heap m 0
      → k ≡ m
  entry_apart k m p q e = elim (split k p) [
    | inl a ↦ elim (split m q) [
      | inl b ↦ a ∙ sym b
      | inr b ↦
          absurd
            (new m b (sym (at_old m b) ∙ sym e ∙ ap (λ j. get_or longer.tg_heap j 0) a ∙ at_end))
    ]
    | inr a ↦ elim (split m q) [
      | inl b ↦
          absurd (new k a (sym (at_old k a) ∙ e ∙ ap (λ j. get_or longer.tg_heap j 0) b ∙ at_end))
      | inr b ↦ IsValid-apart s k m v a b (sym (at_old k a) ∙ e ∙ at_old m b)
    ]
  ]

  longer-Hole : Hole s.loads (length before) (get_or longer.tg_heap (length before) 0) longer
  longer-Hole =
      let whole = set-get_or longer.tg_heap (length before) in
      record {
        inside = omega (arith, size);
        fits = λ k p. subst (λ a. Fits s.loads (get_or a k 0)) (sym whole) (entry-Fits k p);
        indexed = λ k p n.
            let q : k < length before = ground (arith, n, p, size) in
            ap (λ a. longer.index (get_or a k 0)) whole
            ∙ ap longer.index (at_old k q)
            ∙ ground (arith, new k q, v.indexed k q);
        apart = λ k m p q e.
            entry_apart k m p q
              (ap (λ a. get_or a k 0) (sym whole) ∙ e ∙ ap (λ a. get_or a m 0) whole);
      }

  longer-UpOrder : UpOrder s.loads longer.tg_heap (length before)
  longer-UpOrder = record {
    edges = λ c p q n.
        let old : c < length before = ground (arith, n, q, size) in
        let up : parent c < length before = omega (arith, old) in
        ap (λ x. leq s.loads x (get_or longer.tg_heap c 0)) (at_old (parent c) up)
        ∙ ap (leq s.loads (get_or before (parent c) 0)) (at_old c old)
        ∙ v.ordered c p old;
    bridged = λ c p q e r. absurd (omega (arith, p, q, e, size));
  }

  inserted-Restored :
      Restored s.loads longer.tg_heap (heap_adjust s.loads (length before) false longer)
  inserted-Restored =
      let whole = set-get_or longer.tg_heap (length before) in
      subst (λ a. Restored s.loads a (heap_adjust s.loads (length before) false longer)) whole
        (heap_adjust-Restored s.loads (length before) false longer longer-Hole
          (subst (λ a. UpOrder s.loads a (length before)) (sym whole) longer-UpOrder))

  -- What `add` leaves, whatever the size of the buffer.
  abbrev pub joined : ℕ → Sched
  joined n = record s {
    heap = heap_adjust s.loads (length before) false longer;
    heap_buf_size = n;
    group_of = update t s.self s.group_of;
    max_load = s.max_load + s.loads.max_load t;
    cur_load = s.cur_load + s.loads.cur_load t;
  }

  joined-Content : (n : ℕ) → Content longer.tg_heap (joined n)
  joined-Content n = record {
    fits = entry-Fits;
    grouped = λ k p. elim (split k p) [
      | inl e ↦
          ap (joined n).group_of (ap (λ m. get_or longer.tg_heap m 0) e ∙ at_end) ∙ ground arith
      | inr q ↦ ap (joined n).group_of (at_old k q) ∙ ground (arith, new k q, v.content.grouped k q)
    ];
    listed = λ u h. elim (Bool-cases (u == t)) [
      | inl e ↦ (length before, omega (arith, size), at_end ∙ ground (arith, e))
      | inr e ↦
          let (k, p, q) = v.content.listed u (ground (arith, e, h)) in
          (k, omega (arith, p, size), at_old k p ∙ q)
    ];
    cur_sum = omega (arith, v.content.cur_sum, total-append s.loads.cur_load before (t ∷ []));
    max_sum = omega (arith, v.content.max_sum, total-append s.loads.max_load before (t ∷ []));
    named = v.content.named;
    bounded = small;
  }

  pub joined-IsValid : (n : ℕ) → IsValid (joined n)
  joined-IsValid n = Restored-IsValid longer.tg_heap (joined n) (joined-Content n) inserted-Restored

-- ===== src/Sched/Down.antt =====
-- `heapify` of src/net/CommScheduler.cc restores a heap with one target too high in it.
use tinywf.Prelude.{
  ℕ, zero, suc, ◌+◌, ◌-◌, ◌*◌, ◌<◌, ◌≤◌, ◌≡◌, ◌≢◌, ◌⊎◌, refl, sym, ap, subst, ◌∙◌, Bool, true,
  false, ◌&&◌, Option, none, some, List, arith, ◌==◌, ltb, if◌then◌else◌, length, length-set,
  get_or, Bool-cases, inl, inr,
}
use tinywf.Sched.{Loads, Heap, place, goes_below, parent, rising_child, sift_loop, heapify}
use tinywf.Sched.Table.{get_or-set, exchanged}
use tinywf.Sched.Order.{Fits, leq, leq_trans, goes_below-leq, stays-leq, IsHeap}
use tinywf.Sched.Hole.{
  Hole, Restored, filled, moved, place-Restored, moved-slots, moved-Hole, moved-Restored,
  length-moved,
}

-- Only the edges below `i` may be out of order.
pub record DownOrder (l : Loads) (a : List ℕ) (i : ℕ) : Type 0 where
  pub edges :
      (c : ℕ)
      → 0 < c
      → c < length a
      → parent c ≢ i
      → leq l (get_or a (parent c) 0) (get_or a c 0) ≡ true
  pub bridged :
      (c : ℕ)
      → 0 < c
      → c < length a
      → parent c ≡ i
      → 0 < i
      → leq l (get_or a (parent i) 0) (get_or a c 0) ≡ true

-- The child that rises is a least one of the two, and not above the target.
record IsRising (l : Loads) (a : List ℕ) (i j : ℕ) : Type 0 where
  inside : j < length a
  child : (j ≡ 2 * i + 1) ⊎ (j ≡ 2 * i + 2)
  lower : leq l (get_or a j 0) (get_or a i 0) ≡ true
  least : (c : ℕ) → 0 < c → c < length a → parent c ≡ i → leq l (get_or a j 0) (get_or a c 0) ≡ true

-- No child is below the target.
IsSettled : Loads → List ℕ → ℕ → Type 0
IsSettled l a i =
    (c : ℕ) → 0 < c → c < length a → parent c ≡ i → leq l (get_or a i 0) (get_or a c 0) ≡ true

Chosen : Loads → List ℕ → ℕ → Option ℕ → Type 0
Chosen l a i none = IsSettled l a i
Chosen l a i (some j) = IsRising l a i j

leq_refl : (l : Loads) (x : ℕ) → leq l x x ≡ true
unfolding leq
leq_refl l x = ground arith

-- The choice, by the outcomes of the tests.
abbrev pick : Bool → Bool → Bool → Bool → Bool → ℕ → Option ℕ
pick two one first second_first second i =
    if two
    then (if first
        then (if second_first then some (i + 1) else some i)
        else if second
        then some (i + 1)
        else none)
    else if one && first
    then some i
    else none

rising_child-pick :
    (l : Loads) (top target : ℕ) (h : Heap)
    → let i = 2 * top + 1 in
      let last = length h.tg_heap - 1 in
      let first = get_or h.tg_heap i 0 in
      let second = get_or h.tg_heap (i + 1) 0 in
      rising_child l top target h
      ≡ pick
          (ltb i last)
          (i == last)
          (goes_below l false first target)
          (goes_below l false second first)
          (goes_below l false second target)
          i
unfolding rising_child
rising_child-pick l top target h = refl

module _ (l : Loads) (i target : ℕ) (h : Heap) (w : Hole l i target h) where
  abbrev slots : List ℕ
  slots = filled i target h

  size : length slots ≡ length h.tg_heap
  size = length-set h.tg_heap i target

  abbrev first : ℕ
  first = get_or h.tg_heap (2 * i + 1) 0

  abbrev second : ℕ
  second = get_or h.tg_heap (2 * i + 1 + 1) 0

  here : get_or slots i 0 ≡ target
  here = get_or-set h.tg_heap i i target w.inside ∙ ground arith

  at_first : get_or slots (2 * i + 1) 0 ≡ first
  at_first = get_or-set h.tg_heap i (2 * i + 1) target w.inside ∙ ground arith

  at_second : get_or slots (2 * i + 1 + 1) 0 ≡ second
  at_second = get_or-set h.tg_heap i (2 * i + 1 + 1) target w.inside ∙ ground arith

  Fits-target : Fits l target
  Fits-target = subst (Fits l) here (w.fits i w.inside)

  Fits-first : 2 * i + 1 < length h.tg_heap → Fits l first
  Fits-first p = subst (Fits l) at_first (w.fits (2 * i + 1) p)

  Fits-second : 2 * i + 1 + 1 < length h.tg_heap → Fits l second
  Fits-second p = subst (Fits l) at_second (w.fits (2 * i + 1 + 1) p)

  -- What holds of the children holds of every slot below `i`.
  below_two :
      (x : ℕ)
      → leq l x first ≡ true
      → (2 * i + 1 + 1 < length h.tg_heap → leq l x second ≡ true)
      → (c : ℕ) → 0 < c
      → c < length slots
      → parent c ≡ i
      → leq l x (get_or slots c 0) ≡ true
  below_two x a b c p q e = elim (Bool-cases (c == 2 * i + 1)) [
    | inl s ↦
        let same : 2 * i + 1 ≡ c = ground (arith, s) in
        ground (arith, ap (λ k. get_or slots k 0) same, at_first, a)
    | inr s ↦
        let same : 2 * i + 1 + 1 ≡ c = ground (arith, s, e, p) in
        let in_heap : 2 * i + 1 + 1 < length h.tg_heap = omega (arith, same, q, size) in
        ground (arith, ap (λ k. get_or slots k 0) same, at_second, b in_heap)
  ]

  -- The same of a slot that holds `x`.
  slot_below :
      (j x : ℕ)
      → get_or slots j 0 ≡ x
      → leq l x first ≡ true
      → (2 * i + 1 + 1 < length h.tg_heap → leq l x second ≡ true)
      → (c : ℕ) → 0 < c
      → c < length slots
      → parent c ≡ i
      → leq l (get_or slots j 0) (get_or slots c 0) ≡ true
  slot_below j x at a b c p q e = ap (λ y. leq l y (get_or slots c 0)) at ∙ below_two x a b c p q e

  first_rises :
      2 * i + 1 < length h.tg_heap
      → leq l first target ≡ true
      → (2 * i + 1 + 1 < length h.tg_heap → leq l first second ≡ true)
      → IsRising l slots i (2 * i + 1)
  first_rises p a b = record {
    inside = omega (arith, p, size);
    child = inl refl;
    lower = ground (arith, at_first, here, a);
    least = slot_below (2 * i + 1) first at_first (leq_refl l first) b;
  }

  second_rises :
      2 * i + 1 + 1 < length h.tg_heap
      → leq l second target ≡ true
      → leq l second first ≡ true
      → IsRising l slots i (2 * i + 1 + 1)
  second_rises q a b = record {
    inside = omega (arith, q, size);
    child = inr (omega arith);
    lower = ground (arith, at_second, here, a);
    least = slot_below (2 * i + 1 + 1) second at_second b (λ _. leq_refl l second);
  }

  Choice : Bool → Bool → Bool → Bool → Bool → Type 0
  Choice two one b c d = Chosen l slots i (pick two one b c d (2 * i + 1))

  choose :
      (two one b c d : Bool)
      → ltb (2 * i + 1) (length h.tg_heap - 1) ≡ two
      → (2 * i + 1 == length h.tg_heap - 1) ≡ one
      → goes_below l false first target ≡ b
      → goes_below l false second first ≡ c
      → goes_below l false second target ≡ d
      → Choice two one b c d
  unfolding Choice Chosen IsSettled
  choose true one true true d x y e f g =
      let p : 2 * i + 1 < length h.tg_heap = ground (arith, x) in
      let q : 2 * i + 1 + 1 < length h.tg_heap = ground (arith, x) in
      let a = goes_below-leq l false first target (Fits-first p) Fits-target e in
      let b = goes_below-leq l false second first (Fits-second q) (Fits-first p) f in
      second_rises q (leq_trans l second first target (Fits-first p) b a) b
  choose true one true false d x y e f g =
      let p : 2 * i + 1 < length h.tg_heap = ground (arith, x) in
      first_rises p (goes_below-leq l false first target (Fits-first p) Fits-target e)
        (λ q. stays-leq l false second first (Fits-second q) (Fits-first p) f)
  choose true one false c true x y e f g =
      let p : 2 * i + 1 < length h.tg_heap = ground (arith, x) in
      let q : 2 * i + 1 + 1 < length h.tg_heap = ground (arith, x) in
      let a = stays-leq l false first target (Fits-first p) Fits-target e in
      let b = goes_below-leq l false second target (Fits-second q) Fits-target g in
      second_rises q b (leq_trans l second target first Fits-target b a)
  choose true one false c false x y e f g =
      let p : 2 * i + 1 < length h.tg_heap = ground (arith, x) in
      slot_below i target here (stays-leq l false first target (Fits-first p) Fits-target e)
        (λ q. stays-leq l false second target (Fits-second q) Fits-target g)
  choose false true true c d x y e f g =
      let p : 2 * i + 1 < length h.tg_heap = ground (arith, y, w.inside) in
      first_rises p (goes_below-leq l false first target (Fits-first p) Fits-target e)
        (λ q. absurd (ground (arith, x, q)))
  choose false true false c d x y e f g =
      let p : 2 * i + 1 < length h.tg_heap = ground (arith, y, w.inside) in
      slot_below i target here (stays-leq l false first target (Fits-first p) Fits-target e)
        (λ q. absurd (ground (arith, x, q)))
  choose false false b c d x y e f g = λ k p q r. absurd (ground (arith, x, y, p, q, r, size))

rising_child-Chosen :
    (l : Loads) (i target : ℕ) (h : Heap)
    → Hole l i target h
    → Chosen l (filled i target h) i (rising_child l i target h)
unfolding Choice
rising_child-Chosen l i target h w =
    subst (Chosen l (filled i target h) i) (sym (rising_child-pick l i target h))
      (choose l i target h w _ _ _ _ _ refl refl refl refl refl)

settled : (l : Loads) (a : List ℕ) (i : ℕ) → DownOrder l a i → IsSettled l a i → IsHeap l a
unfolding IsSettled
settled l a i v e c p q = elim (Bool-cases (parent c == i)) [
  | inl s ↦ ground (arith, s, e c p q)
  | inr s ↦ v.edges c p q (ground (arith, s))
]

exchanged-DownOrder :
    (l : Loads) (a b : List ℕ) (i j : ℕ)
    → DownOrder l a i
    → IsRising l a i j
    → length b ≡ length a
    → ((k : ℕ) → get_or b k 0 ≡ get_or a (exchanged i j k) 0)
    → DownOrder l b j
exchanged-DownOrder l a b i j v s size slots = record {
  edges = λ c p q n. ground (
    arith,
    slots c,
    slots (parent c),
    v.edges c p (omega (arith, q, size)),
    v.bridged j,
    s.lower,
    s.child,
    s.inside,
    s.least c p (omega (arith, q, size)),
    size,
  );
  bridged = λ c p q e r. ground (
    arith,
    slots c,
    slots (parent j),
    v.edges c p (omega (arith, q, size)),
    s.child,
    s.inside,
    size,
  );
}

sift_loop-Restored :
    (l : Loads) (fuel i target : ℕ) (h : Heap)
    → length h.tg_heap ≤ i + fuel
    → Hole l i target h
    → DownOrder l (filled i target h) i
    → Restored l (filled i target h) (sift_loop l fuel i target h)
unfolding sift_loop Chosen IsSettled
sift_loop-Restored l zero i target h f w v = absurd (omega (arith, w.inside, f))
sift_loop-Restored l (suc fuel) i target h f w v =
    by_child (rising_child l i target h) (rising_child-Chosen l i target h w)
      (λ j c. sift_loop-Restored l fuel j target (moved i j h) c)
  where
    step : Option ℕ → Heap
    step c = elim c [
      | none ↦ place i target h
      | some child ↦ sift_loop l fuel child target (place i (get_or h.tg_heap child 0) h)
    ]

    by_child :
        (c : Option ℕ)
        → Chosen l (filled i target h) i c
        → ((j : ℕ)
            → length (moved i j h).tg_heap ≤ j + fuel
            → Hole l j target (moved i j h)
            → DownOrder l (filled j target (moved i j h)) j
            → Restored l (filled j target (moved i j h)) (sift_loop l fuel j target (moved i j h)))
        → Restored l (filled i target h) (step c)
    by_child none s again = place-Restored l i target h w (settled l (filled i target h) i v s)
    by_child (some j) s again =
        let full : length (filled i target h) ≡ length h.tg_heap = length-set h.tg_heap i target in
        let hj : j < length h.tg_heap = omega (arith, s.inside, full) in
        let n : (i == j) ≡ false = ground (arith, s.child) in
        let short = length-moved l i j target h w hj n in
        let full' : length (filled j target (moved i j h)) ≡ length (moved i j h).tg_heap =
          length-set (moved i j h).tg_heap j target in
        moved-Restored l i j target h w hj n (sift_loop l fuel j target (moved i j h)) (
          again j (ground (arith, short, f, s.child)) (moved-Hole l i j target h w hj n) (
            exchanged-DownOrder l (filled i target h) (filled j target (moved i j h)) i j v s
              (full' ∙ short ∙ sym full) (moved-slots l i j target h w hj n)))

-- `heapify` of a slot, where only the edges below it may be out of order: the array has the same
-- entries then, in heap order, and each knows its slot.
pub heapify-Restored :
    (l : Loads) (i : ℕ) (h : Heap)
    → Hole l i (get_or h.tg_heap i 0) h
    → DownOrder l (filled i (get_or h.tg_heap i 0) h) i
    → Restored l (filled i (get_or h.tg_heap i 0) h) (heapify l i h)
unfolding heapify
heapify-Restored l i h w v =
    sift_loop-Restored l (length h.tg_heap) i (get_or h.tg_heap i 0) h (omega arith) w v

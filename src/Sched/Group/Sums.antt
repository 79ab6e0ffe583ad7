-- ===== src/Sched/Group/Sums.antt =====
-- The sums of the loads of a group in src/net/CommScheduler.cc, and what they say of its targets.
use tinywf.Prelude.{
  ℕ, zero, suc, ◌*◌, ◌<◌, ◌≤◌, ◌≡◌, subst, List, [], ◌∷◌, arith, length, get_or, ltb, Bool-cases,
  inl, inr,
}
use native.Mathlib.Nat.{le_of_mul-le-mul_left, mul_comm}
use tinywf.Sched.Table.{total}
use tinywf.Sched.Order.{leq, root_least}
use tinywf.Sched.Group.{Sched}
use tinywf.Sched.Group.Valid.{IsValid, IsValid-slot}

pub total_le :
    (f g : ℕ → ℕ) (a : List ℕ)
    → ((k : ℕ) → k < length a → f (get_or a k 0) ≤ g (get_or a k 0))
    → total f a ≤ total g a
total_le f g [] h = omega arith
total_le f g (x ∷ a) h =
    omega (arith, h 0 (omega arith), total_le f g a (λ k p. h (suc k) (omega arith)))

pub le_total : (f : ℕ → ℕ) (a : List ℕ) (k : ℕ) → k < length a → f (get_or a k 0) ≤ total f a
le_total f [] k p = absurd (omega arith)
le_total f (x ∷ a) zero p = omega arith
le_total f (x ∷ a) (suc k) p = omega (arith, le_total f a k (omega arith))

-- Where the sums meet, so do the terms.
pub total_tight :
    (f g : ℕ → ℕ) (a : List ℕ)
    → ((k : ℕ) → k < length a → f (get_or a k 0) ≤ g (get_or a k 0))
    → total g a ≤ total f a
    → (k : ℕ) → k < length a
    → g (get_or a k 0) ≤ f (get_or a k 0)
total_tight f g [] h e k p = absurd (omega arith)
total_tight f g (x ∷ a) h e zero p =
    omega (arith, h 0 (omega arith), e, total_le f g a (λ k p. h (suc k) (omega arith)))
total_tight f g (x ∷ a) h e (suc k) p =
    total_tight f g a (λ k p. h (suc k) (omega arith)) (omega (arith, h 0 (omega arith), e)) k
      (omega arith)

-- A group whose load is at its limit has only full targets.
pub full-targets :
    (s : Sched) (t : ℕ)
    → IsValid s
    → s.max_load ≤ s.cur_load
    → s.group_of t ≡ s.self
    → s.loads.max_load t ≤ s.loads.cur_load t
full-targets s t v h g =
    let (p, e) = IsValid-slot s t v g in
    subst (λ u. s.loads.max_load u ≤ s.loads.cur_load u) e
      (total_tight s.loads.cur_load s.loads.max_load s.heap.tg_heap
        (λ k q. (v.content.fits k q).within)
        (omega (arith, h, v.content.cur_sum, v.content.max_sum)) (s.heap.index t) p)

not_empty : (s : Sched) → IsValid s → s.cur_load < s.max_load → 0 < length s.heap.tg_heap
not_empty s v h = some_entry s.heap.tg_heap (omega (arith, h, v.content.max_sum))
  where
    some_entry : (a : List ℕ) → 0 < total s.loads.max_load a → 0 < length a
    some_entry [] p = omega arith
    some_entry (x ∷ a) p = omega arith

-- A group whose load is below its limit has a target at the root of its heap that is not full.
pub root-room :
    (s : Sched)
    → IsValid s
    → s.cur_load < s.max_load
    → (0 < length s.heap.tg_heap)
      × (s.loads.cur_load (get_or s.heap.tg_heap 0 0)
          < s.loads.max_load (get_or s.heap.tg_heap 0 0))
root-room s v h = (
  some_entry,
  elim (Bool-cases (ltb (s.loads.cur_load root) (s.loads.max_load root))) [
    | inl e ↦ ground (arith, e)
    | inr e ↦
        let full : s.loads.max_load root ≤ s.loads.cur_load root = ground (arith, e) in
        absurd (
          omega (
            arith,
            h,
            v.content.cur_sum,
            v.content.max_sum,
            total_le s.loads.max_load s.loads.cur_load s.heap.tg_heap (λ k p. all_full full k p),
          ))
  ],
)
  where
    root : ℕ
    root = get_or s.heap.tg_heap 0 0

    some_entry : 0 < length s.heap.tg_heap
    some_entry = not_empty s v h

    all_full :
        s.loads.max_load root ≤ s.loads.cur_load root
        → (k : ℕ) → k < length s.heap.tg_heap
        → s.loads.max_load (get_or s.heap.tg_heap k 0)
          ≤ s.loads.cur_load (get_or s.heap.tg_heap k 0)
    all_full full k p =
        let x = get_or s.heap.tg_heap k 0 in
        let fits = v.content.fits 0 some_entry in
        let same : s.loads.cur_load root ≡ s.loads.max_load root =
          omega (arith, full, fits.within) in
        let below = root_least s.loads s.heap.tg_heap k v.ordered v.content.fits p in
        let products : s.loads.cur_load root * s.loads.max_load x
            ≤ s.loads.cur_load x * s.loads.max_load root =
          unfold leq in ground (arith, below) in
        le_of_mul-le-mul_left {k = s.loads.max_load root}
          (subst (λ c. c * s.loads.max_load x ≤ s.loads.max_load root * s.loads.cur_load x) same
            (omega (arith, products, mul_comm (s.loads.cur_load x) (s.loads.max_load root))))
          fits.some_load

-- ===== src/Sched/Order.antt =====
-- The order of the targets of src/net/CommScheduler.cc by their relative load, and the heap order.
use tinywf.Prelude.{
  ℕ, zero, suc, ◌-◌, ◌*◌, ◌^◌, ◌<◌, ◌≤◌, ◌≡◌, Bool, true, false, List, arith, leb, length, get_or,
}
use native.Mathlib.Nat.{mul-le-mul, mul-le-mul_right, le_of_mul-le-mul_left, mul_comm, mul_assoc}
use tinywf.Sched.{Loads, target_cmp, goes_below, parent}

-- `cur_load / max_load` of the first is at most that of the second.
unfoldable pub leq : Loads → ℕ → ℕ → Bool
leq l x y = leb (l.cur_load x * l.max_load y) (l.cur_load y * l.max_load x)

-- A target takes connections, fewer than 2^32 of them, and has no more than it takes.
pub record Fits (l : Loads) (x : ℕ) : Type 0 where
  pub some_load : 0 < l.max_load x
  pub small : l.max_load x < 2 ^ 32
  pub within : l.cur_load x ≤ l.max_load x

product-small : (a b c : ℕ) → a ≤ b → b < 2 ^ 32 → c < 2 ^ 32 → a * c < 2 ^ 64
product-small a b c h k m = omega (
  arith,
  mul-le-mul {n₁ = a} {m₁ = c} {n₂ = 2 ^ 32 - 1} {m₂ = 2 ^ 32 - 1} (omega arith) (omega arith),
)

-- What the comparison says, whichever way equal loads go.
pub goes_below-leq :
    (l : Loads) (b : Bool) (x y : ℕ)
    → Fits l x
    → Fits l y
    → goes_below l b x y ≡ true
    → leq l x y ≡ true
unfolding goes_below target_cmp leq
goes_below-leq l b x y f g e =
    let p = product-small (l.cur_load x) (l.max_load x) (l.max_load y) f.within f.small g.small in
    let q = product-small (l.cur_load y) (l.max_load y) (l.max_load x) g.within g.small f.small in
    ground (arith, e, p, q)

pub stays-leq :
    (l : Loads) (b : Bool) (x y : ℕ)
    → Fits l x
    → Fits l y
    → goes_below l b x y ≡ false
    → leq l y x ≡ true
unfolding goes_below target_cmp leq
stays-leq l b x y f g e =
    let p = product-small (l.cur_load x) (l.max_load x) (l.max_load y) f.within f.small g.small in
    let q = product-small (l.cur_load y) (l.max_load y) (l.max_load x) g.within g.small f.small in
    ground (arith, e, p, q)

products_trans : (a b c p q r : ℕ) → 0 < q → a * q ≤ b * p → b * r ≤ c * q → a * r ≤ c * p
products_trans a b c p q r h k m =
    le_of_mul-le-mul_left {k = q}
      (omega (
        arith,
        mul-le-mul_right r k,
        mul-le-mul_right p m,
        mul_assoc a q r,
        mul_assoc b p r,
        mul_assoc b r p,
        mul_assoc c q p,
        mul_comm q (a * r),
        mul_comm q (c * p),
        mul_assoc a r q,
        mul_assoc c p q,
        mul_comm q r,
        mul_comm p r,
        mul_comm p q,
      ))
      h

pub leq_trans :
    (l : Loads) (x y z : ℕ) → Fits l y → leq l x y ≡ true → leq l y z ≡ true → leq l x z ≡ true
unfolding leq
leq_trans l x y z f a b =
    let c =
      products_trans (l.cur_load x) (l.cur_load y) (l.cur_load z) (l.max_load x) (l.max_load y)
        (l.max_load z) f.some_load (ground (arith, a)) (ground (arith, b)) in
    ground (arith, c)

-- The edges of the heap are in order, each entry above its two children.
abbrev pub IsHeap : Loads → List ℕ → Type 0
IsHeap l a = (c : ℕ) → 0 < c → c < length a → leq l (get_or a (parent c) 0) (get_or a c 0) ≡ true

root_below :
    (fuel : ℕ) (l : Loads) (a : List ℕ) (i : ℕ)
    → IsHeap l a
    → ((k : ℕ) → k < length a → Fits l (get_or a k 0))
    → i < fuel
    → i < length a
    → leq l (get_or a 0 0) (get_or a i 0) ≡ true
root_below zero l a i h f k m = absurd (omega arith)
root_below (suc fuel) l a zero h f k m = unfold leq in ground arith
root_below (suc fuel) l a (suc i) h f k m =
    leq_trans l (get_or a 0 0) (get_or a (parent (suc i)) 0) (get_or a (suc i) 0)
      (f (parent (suc i)) (omega arith))
      (root_below fuel l a (parent (suc i)) h f (omega arith) (omega arith))
      (h (suc i) (omega arith) m)

-- No entry has a lower relative load than the root.
pub root_least :
    (l : Loads) (a : List ℕ) (i : ℕ)
    → IsHeap l a
    → ((k : ℕ) → k < length a → Fits l (get_or a k 0))
    → i < length a
    → leq l (get_or a 0 0) (get_or a i 0) ≡ true
root_least l a i h f m = root_below (suc i) l a i h f (omega arith) m

-- ===== src/Sched/Group/Valid.antt =====
-- The invariant of a group of targets in src/net/CommScheduler.cc.
use tinywf.Prelude.{
  ℕ, zero, suc, ◌+◌, ◌^◌, ◌<◌, ◌≤◌, ◌≡◌, ◌≢◌, refl, sym, ap, subst, ◌∙◌, true, List, [], ◌∷◌, arith,
  length, get_or, set,
}
use native.Mathlib.Nat.{mul-le-mul_right}
use tinywf.Sched.{Loads}
use tinywf.Sched.Table.{total}
use tinywf.Sched.Order.{leq, Fits, IsHeap}
use tinywf.Sched.Hole.{Restored}
use tinywf.Sched.Group.{Sched, update}

-- What holds of the entries of a group in whatever order: each fits and is of the group, all targets of
-- the group are among them, and the group's loads are the sums of theirs.
pub record Content (a : List ℕ) (s : Sched) : Type 0 where
  pub fits : (k : ℕ) → k < length a → Fits s.loads (get_or a k 0)
  pub grouped : (k : ℕ) → k < length a → s.group_of (get_or a k 0) ≡ s.self
  pub listed : (t : ℕ) → s.group_of t ≡ s.self → (k : ℕ) × (k < length a) × (get_or a k 0 ≡ t)
  pub cur_sum : s.cur_load ≡ total s.loads.cur_load a
  pub max_sum : s.max_load ≡ total s.loads.max_load a
  pub named : s.self ≢ 0
  pub bounded : s.max_load < 2 ^ 63

-- The entries are in heap order, and each target knows its slot.
pub record IsValid (s : Sched) : Type 0 where
  pub content : Content s.heap.tg_heap s
  pub ordered : IsHeap s.loads s.heap.tg_heap
  pub indexed : (k : ℕ) → k < length s.heap.tg_heap → s.heap.index (get_or s.heap.tg_heap k 0) ≡ k

pub Restored-IsValid :
    (a : List ℕ) (s : Sched) → Content a s → Restored s.loads a s.heap → IsValid s
Restored-IsValid a s c r = record {
  content = record {
    fits = λ k p.
        let (m, q, e) = r.from k (omega (arith, p, r.size)) in
        subst (Fits s.loads) (sym e) (c.fits m q);
    grouped = λ k p.
        let (m, q, e) = r.from k (omega (arith, p, r.size)) in ap s.group_of e ∙ c.grouped m q;
    listed = λ t g.
        let (m, p, e) = c.listed t g in
        let (k, q, f) = r.onto m p in (k, omega (arith, q, r.size), f ∙ e);
    cur_sum = c.cur_sum ∙ sym (r.sums s.loads.cur_load);
    max_sum = c.max_sum ∙ sym (r.sums s.loads.max_load);
    named = c.named;
    bounded = c.bounded;
  };
  ordered = r.heap;
  indexed = λ k p. r.indexed k (omega (arith, p, r.size));
}

-- Two slots of a valid heap hold different targets.
pub IsValid-apart :
    (s : Sched) (k m : ℕ)
    → IsValid s
    → k < length s.heap.tg_heap
    → m < length s.heap.tg_heap
    → get_or s.heap.tg_heap k 0 ≡ get_or s.heap.tg_heap m 0
    → k ≡ m
IsValid-apart s k m v p q e = sym (v.indexed k p) ∙ ap s.heap.index e ∙ v.indexed m q

-- A target of the group stands in its slot.
pub IsValid-slot :
    (s : Sched) (t : ℕ)
    → IsValid s
    → s.group_of t ≡ s.self
    → (s.heap.index t < length s.heap.tg_heap) × (get_or s.heap.tg_heap (s.heap.index t) 0 ≡ t)
IsValid-slot s t v g =
    let (k, p, e) = v.content.listed t g in
    let at : k ≡ s.heap.index t = sym (v.indexed k p) ∙ ap s.heap.index e in
    (subst (λ i. i < length s.heap.tg_heap) at p, subst (λ i. get_or s.heap.tg_heap i 0 ≡ t) at e)

pub set-get_or : (xs : List ℕ) (i : ℕ) → set xs i (get_or xs i 0) ≡ xs
set-get_or [] i = refl
set-get_or (x ∷ xs) zero = refl
set-get_or (x ∷ xs) (suc i) = ap (◌∷◌ x) (set-get_or xs i)

pub total-same :
    (f : ℕ → ℕ) (t v : ℕ) (xs : List ℕ)
    → ((k : ℕ) → k < length xs → get_or xs k 0 ≢ t)
    → total (update t v f) xs ≡ total f xs
total-same f t v [] n = refl
total-same f t v (x ∷ xs) n =
    let apart : x ≢ t = n 0 (omega arith) in
    ground (arith, apart, total-same f t v xs (λ k p. n (suc k) (omega arith)))

-- The sum where one target has another value.
pub total-update :
    (f : ℕ → ℕ) (t v i : ℕ) (xs : List ℕ)
    → i < length xs
    → get_or xs i 0 ≡ t
    → ((k : ℕ) → k < length xs → get_or xs k 0 ≡ t → k ≡ i)
    → total (update t v f) xs + f t ≡ total f xs + v
total-update f t v i [] h e n = absurd (omega arith)
total-update f t v zero (x ∷ xs) h e n =
    let rest = total-same f t v xs (λ k p q. omega (arith, n (suc k) (omega arith) q)) in
    ground (arith, e, rest, ap f e)
total-update f t v (suc i) (x ∷ xs) h e n =
    let apart : x ≢ t = λ q. omega (arith, n 0 (omega arith) q) in
    let rest =
      total-update f t v i xs (omega arith) e (λ k p q. omega (arith, n (suc k) (omega arith) q)) in
    ground (arith, apart, rest)

-- A lower load goes below what it was below, and a higher one above.
pub leq_mono :
    (l m : Loads) (x y : ℕ)
    → m.max_load x ≡ l.max_load x
    → m.max_load y ≡ l.max_load y
    → m.cur_load x ≤ l.cur_load x
    → l.cur_load y ≤ m.cur_load y
    → leq l x y ≡ true
    → leq m x y ≡ true
unfolding leq
leq_mono l m x y a b c d e =
    ground (arith, e, a, b, mul-le-mul_right (l.max_load y) c, mul-le-mul_right (l.max_load x) d)

-- ===== src/Sched/Table.antt =====
-- The array of a heap in src/net/CommScheduler.cc: what a write leaves, and sums over the entries.
use tinywf.Prelude.{
  ℕ, zero, suc, ◌+◌, ◌<◌, ◌≡◌, refl, ap, false, List, [], ◌∷◌, ◌++◌, arith, ◌==◌, if◌then◌else◌,
  length, length-set, get_or, set,
}

-- What stands in the slots after a write.
pub get_or-set :
    (xs : List ℕ) (i k v : ℕ)
    → i < length xs
    → get_or (set xs i v) k 0 ≡ (if k == i then v else get_or xs k 0)
get_or-set [] i k v h = absurd (omega arith)
get_or-set (x ∷ xs) zero zero v h = refl
get_or-set (x ∷ xs) zero (suc k) v h = ground arith
get_or-set (x ∷ xs) (suc i) zero v h = ground arith
get_or-set (x ∷ xs) (suc i) (suc k) v h = ground (arith, get_or-set xs i k v (omega arith))

-- The sum of `f` over the entries.
abbrev pub total : (ℕ → ℕ) → List ℕ → ℕ
total f [] = 0
total f (x ∷ xs) = f x + total f xs

pub total-set :
    (f : ℕ → ℕ) (xs : List ℕ) (i v : ℕ)
    → i < length xs
    → total f (set xs i v) + f (get_or xs i 0) ≡ total f xs + f v
total-set f [] i v h = absurd (omega arith)
total-set f (x ∷ xs) zero v h = omega arith
total-set f (x ∷ xs) (suc i) v h = omega (arith, total-set f xs i v (omega arith))

pub total-append : (f : ℕ → ℕ) (xs ys : List ℕ) → total f (xs ++ ys) ≡ total f xs + total f ys
total-append f [] ys = omega arith
total-append f (x ∷ xs) ys = omega (arith, total-append f xs ys)

-- The two slots of an exchange.
abbrev pub exchanged : ℕ → ℕ → ℕ → ℕ
exchanged i j k = if k == i then j else if k == j then i else k

module _ (h : List ℕ) (i j t : ℕ) (hi : i < length h) (hj : j < length h)
    (n : (i == j) ≡ false) where
  -- The entry of `j` moves into the hole at `i`, and the target into `j`: an exchange of the array
  -- that has the target in the hole.
  pub get_or-moved :
      (k : ℕ)
      → get_or (set (set h i (get_or h j 0)) j t) k 0 ≡ get_or (set h i t) (exchanged i j k) 0
  get_or-moved k = ground (
    arith,
    get_or-set (set h i (get_or h j 0)) j k t (omega (arith, length-set h i (get_or h j 0))),
    get_or-set h i k (get_or h j 0) hi,
    get_or-set h i (exchanged i j k) t hi,
  )

  still : get_or (set h i (get_or h j 0)) j 0 ≡ get_or h j 0
  still = ground (arith, n, get_or-set h i j (get_or h j 0) hi)

  pub total-moved : (f : ℕ → ℕ) → total f (set (set h i (get_or h j 0)) j t) ≡ total f (set h i t)
  total-moved f = omega (
    arith,
    total-set f (set h i (get_or h j 0)) j t (omega (arith, length-set h i (get_or h j 0))),
    total-set f h i (get_or h j 0) hi,
    total-set f h i t hi,
    ap f still,
  )

-- ===== src/Sched/Ends.antt =====
-- The array of a heap in src/net/CommScheduler.cc when an entry is added at its end, and when the last
-- entry takes the slot of another.
use tinywf.Prelude.{
  ℕ, zero, suc, ◌+◌, ◌-◌, ◌<◌, ◌≡◌, refl, sym, ap, ◌∙◌, true, List, [], ◌∷◌, ◌++◌, arith, ◌==◌,
  if◌then◌else◌, length, length-set, length-take, get_or, set, take, Bool-cases, inl, inr,
}
use tinywf.Sched.Table.{get_or-set, total, total-set}

-- The slots of an array with one more entry.
pub get_or-append :
    (xs : List ℕ) (t k : ℕ)
    → k < length xs + 1
    → get_or (xs ++ t ∷ []) k 0 ≡ (if k == length xs then t else get_or xs k 0)
get_or-append [] t zero h = refl
get_or-append [] t (suc k) h = absurd (omega arith)
get_or-append (x ∷ xs) t zero h = ground arith
get_or-append (x ∷ xs) t (suc k) h = ground (arith, get_or-append xs t k (omega arith))

pub length-append_one : (xs : List ℕ) (t : ℕ) → length (xs ++ t ∷ []) ≡ length xs + 1
length-append_one [] t = refl
length-append_one (x ∷ xs) t = omega (arith, length-append_one xs t)

get_or-take : (xs : List ℕ) (n k : ℕ) → k < n → get_or (take n xs) k 0 ≡ get_or xs k 0
get_or-take xs zero k h = absurd (omega arith)
get_or-take [] (suc n) k h = refl
get_or-take (x ∷ xs) (suc n) zero h = refl
get_or-take (x ∷ xs) (suc n) (suc k) h = get_or-take xs n k (omega arith)

total-take :
    (f : ℕ → ℕ) (xs : List ℕ) (n : ℕ)
    → length xs ≡ n + 1
    → total f xs ≡ total f (take n xs) + f (get_or xs n 0)
total-take f [] n h = absurd (omega arith)
total-take f (x ∷ []) zero h = omega arith
total-take f (x ∷ y ∷ xs) zero h = absurd (omega arith)
total-take f (x ∷ xs) (suc n) h = omega (arith, total-take f xs n (omega (arith, h)))

set_beyond : (xs : List ℕ) (v : ℕ) → set xs (length xs) v ≡ xs
set_beyond [] v = refl
set_beyond (x ∷ xs) v = ap (◌∷◌ x) (set_beyond xs v)

-- The array without the entry at `i`: where that is the last one, nothing takes its slot.
abbrev pub closed : List ℕ → ℕ → List ℕ
closed a i = set (take (length a - 1) a) i (get_or a (length a - 1) 0)

-- Where an entry of it stood.
abbrev pub origin : List ℕ → ℕ → ℕ → ℕ
origin a i k = if k == i then length a - 1 else k

module _ (a : List ℕ) (i : ℕ) (inside : i < length a) where
  size : length (take (length a - 1) a) ≡ length a - 1
  size = omega (arith, length-take (length a - 1) a)

  pub length-closed : length (closed a i) + 1 ≡ length a
  length-closed =
      omega (arith, size, length-set (take (length a - 1) a) i (get_or a (length a - 1) 0))

  -- The last entry goes, and nothing moves.
  pub closed_last : (i == length a - 1) ≡ true → closed a i ≡ take (length a - 1) a
  closed_last e =
      let at : i ≡ length (take (length a - 1) a) = ground (arith, e, size) in
      ap (λ j. set (take (length a - 1) a) j (get_or a (length a - 1) 0)) at
      ∙ set_beyond (take (length a - 1) a) (get_or a (length a - 1) 0)

  pub get_or-closed :
      (k : ℕ) → k + 1 < length a → get_or (closed a i) k 0 ≡ get_or a (origin a i k) 0
  get_or-closed k h = elim (Bool-cases (i == length a - 1)) [
    | inl e ↦
        let at : origin a i k ≡ k = ground (arith, e, h) in
        ap (λ b. get_or b k 0) (closed_last e)
        ∙ get_or-take a (length a - 1) k (omega (arith, h))
        ∙ ap (λ j. get_or a j 0) (sym at)
    | inr e ↦
        let p : i < length (take (length a - 1) a) = ground (arith, e, size, inside) in
        ground (
          arith,
          get_or-set (take (length a - 1) a) i k (get_or a (length a - 1) 0) p,
          get_or-take a (length a - 1) k (omega (arith, h)),
        )
  ]

  pub total-closed : (f : ℕ → ℕ) → total f (closed a i) + f (get_or a i 0) ≡ total f a
  total-closed f = elim (Bool-cases (i == length a - 1)) [
    | inl e ↦
        let at : i ≡ length a - 1 = ground (arith, e) in
        omega (
          arith,
          ap (total f) (closed_last e),
          ap (λ j. f (get_or a j 0)) at,
          total-take f a (length a - 1) (omega (arith, inside)),
        )
    | inr e ↦
        let p : i < length (take (length a - 1) a) = ground (arith, e, size, inside) in
        let q : i < length a - 1 = ground (arith, e, inside) in
        omega (
          arith,
          total-set f (take (length a - 1) a) i (get_or a (length a - 1) 0) p,
          ap f (get_or-take a (length a - 1) i q),
          total-take f a (length a - 1) (omega (arith, inside)),
        )
  ]

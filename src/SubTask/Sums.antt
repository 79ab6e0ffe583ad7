-- ===== src/SubTask/Sums.antt =====
-- The places where a task of src/task/SubTask.cc is in use, and the branches of a parallel task that
-- have not ended.
use tinywf.Prelude.{
  ℕ, ◌+◌, ◌<◌, ◌≡◌, refl, sym, ap, true, false, Option, none, some, List, [], ◌∷◌, ◌++◌, arith,
  ◌==◌, if◌then◌else◌, length, Bool-cases, inl, inr,
}
use tinywf.SubTask.{Frame, dispatching, launching, finishing, counting, Tasks, set_parent, remove}

unfoldable pub sum_of {ℓ} : {A : Type ℓ} → (A → ℕ) → List A → ℕ
sum_of f [] = 0
sum_of f (x ∷ xs) = f x + sum_of f xs

abbrev pub is : ℕ → ℕ → ℕ
is t u = if u == t then 1 else 0

-- Whether `t` is a branch of `p`.
abbrev pub branch_of : (ℕ → Option ℕ) → ℕ → ℕ → ℕ
branch_of parent p t = elim (parent t) [ none ↦ 0 | some q ↦ is p q ]

unfoldable pub frame_task : ℕ → Frame → ℕ
frame_task t (dispatching u) = is t u
frame_task t (launching p cs) = 0
frame_task t (finishing u) = is t u
frame_task t (counting p) = 0

unfoldable pub frame_branch : (ℕ → Option ℕ) → ℕ → Frame → ℕ
frame_branch parent p (dispatching t) = branch_of parent p t
frame_branch parent p (launching q cs) = if q == p then length cs else 0
frame_branch parent p (finishing t) = branch_of parent p t
frame_branch parent p (counting q) = is p q

-- The places where `t` is in use.
unfoldable pub uses : ℕ → Tasks → ℕ
unfolding sum_of frame_task
uses t s =
    sum_of (sum_of (frame_task t)) s.threads + sum_of (is t) s.running + sum_of (is t) s.waiting

-- The branches of `p` that have not ended, those that its loop has not come to included.
unfoldable pub branches : ℕ → Tasks → ℕ
unfolding sum_of frame_branch
branches p s =
    sum_of (sum_of (frame_branch s.parent p)) s.threads
    + sum_of (branch_of s.parent p) s.running
    + sum_of (branch_of s.parent p) s.waiting

unfoldable pub waits : ℕ → Tasks → ℕ
unfolding sum_of
waits p s = sum_of (is p) s.waiting

pub sum_of-append {ℓ} :
    {A : Type ℓ} (f : A → ℕ) (xs ys : List A) → sum_of f (xs ++ ys) ≡ sum_of f xs + sum_of f ys
unfolding sum_of
sum_of-append f [] ys = omega arith
sum_of-append f (x ∷ xs) ys = omega (arith, sum_of-append f xs ys)

-- A thread among the others.
pub sum_of-thread {ℓ} :
    {A : Type ℓ} (f : A → ℕ) (before after : List (List A)) (calls rest : List A)
    → sum_of (sum_of f) (before ++ (calls ++ rest) ∷ after)
      ≡ sum_of (sum_of f) (calls ∷ rest ∷ before ++ after)
unfolding sum_of
sum_of-thread f before after calls rest = omega (
  arith,
  sum_of-append (sum_of f) before ((calls ++ rest) ∷ after),
  sum_of-append (sum_of f) before after,
  sum_of-append f calls rest,
)

-- Where nothing is in use, what else the terms depend on does not matter.
pub sum_of-unused {ℓ} :
    {A : Type ℓ} (u f g : A → ℕ) (xs : List A)
    → ((x : A) → u x ≡ 0 → f x ≡ g x)
    → sum_of u xs ≡ 0
    → sum_of f xs ≡ sum_of g xs
unfolding sum_of
sum_of-unused u f g [] h e = refl
sum_of-unused u f g (x ∷ xs) h e =
    omega (arith, h x (omega (arith, e)), sum_of-unused u f g xs h (omega (arith, e)))

branch_of-set_parent :
    (parent : ℕ → Option ℕ) (c : ℕ) (q : Option ℕ) (p t : ℕ)
    → is c t ≡ 0
    → branch_of parent p t ≡ branch_of (λ u. if u == c then q else parent u) p t
branch_of-set_parent parent c q p t e =
    let other : (t == c) ≡ false = ground (arith, e) in
    ap (λ b. elim (if b then q else parent t) [ none ↦ 0 | some r ↦ is p r ]) (sym other)

pub branch_of-new :
    (parent : ℕ → Option ℕ) (n : ℕ) (o : Option ℕ) (q : ℕ)
    → branch_of (λ u. if u == n then o else parent u) q n ≡ elim o [ none ↦ 0 | some r ↦ is q r ]
branch_of-new parent n o q =
    let same : (n == n) ≡ true = ground arith in
    ap (λ b. elim (if b then o else parent n) [ none ↦ 0 | some r ↦ is q r ]) same

frame_branch-set_parent :
    (parent : ℕ → Option ℕ) (c : ℕ) (q : Option ℕ) (p : ℕ) (f : Frame)
    → frame_task c f ≡ 0
    → frame_branch parent p f ≡ frame_branch (λ u. if u == c then q else parent u) p f
unfolding frame_task frame_branch
frame_branch-set_parent parent c q p (dispatching t) e = branch_of-set_parent parent c q p t e
frame_branch-set_parent parent c q p (launching r cs) e = refl
frame_branch-set_parent parent c q p (finishing t) e = branch_of-set_parent parent c q p t e
frame_branch-set_parent parent c q p (counting r) e = refl

-- A task that is not in use may get a parent.
pub branches-set_parent :
    (c : ℕ) (q : Option ℕ) (s : Tasks) (p : ℕ)
    → uses c s ≡ 0
    → branches p s ≡ branches p (set_parent c q s)
unfolding uses branches
branches-set_parent c q s p e =
    let parent : ℕ → Option ℕ = λ u. if u == c then q else s.parent u in
    omega (
      arith,
      sum_of-unused (sum_of (frame_task c)) (sum_of (frame_branch s.parent p))
          (sum_of (frame_branch parent p)) s.threads
          (λ fs d.
            sum_of-unused (frame_task c) (frame_branch s.parent p) (frame_branch parent p) fs
              (frame_branch-set_parent s.parent c q p) d)
          (omega (arith, e)),
      sum_of-unused (is c) (branch_of s.parent p) (branch_of parent p) s.running
          (branch_of-set_parent s.parent c q p) (omega (arith, e)),
      sum_of-unused (is c) (branch_of s.parent p) (branch_of parent p) s.waiting
          (branch_of-set_parent s.parent c q p) (omega (arith, e)),
    )

-- One entry goes.
pub sum_of-remove :
    (f : ℕ → ℕ) (t : ℕ) (xs : List ℕ)
    → 0 < sum_of (is t) xs
    → sum_of f (remove t xs) + f t ≡ sum_of f xs
unfolding sum_of
sum_of-remove f t [] h = absurd (omega arith)
sum_of-remove f t (x ∷ xs) h = elim (Bool-cases (x == t)) [
  | inl e ↦ let same : x ≡ t = ground (arith, e) in ground (arith, e, ap f same)
  | inr e ↦ let rest = sum_of-remove f t xs (ground (arith, h, e)) in ground (arith, e, rest)
]

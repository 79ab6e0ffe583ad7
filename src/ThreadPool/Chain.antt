-- ===== src/ThreadPool/Chain.antt =====
-- One thread joins another: the threads that left a pool of src/common/thrdpool.c form a chain.
use tinywf.Prelude.{
  ℕ, ◌≡◌, ◌≢◌, refl, sym, subst, true, false, Option, none, some, List, [], ◌∷◌, ◌++◌, arith, ◌==◌,
  Bool-cases, inl, inr,
}
use tinywf.ThreadPool.{Leaver, has_returned, remove_leaver, join}

-- From the thread that is to be joined first, each joins the next one; behind one that has returned
-- there is no other.
unfoldable pub IsLinked : Option ℕ → List Leaver → Type 0
IsLinked o [] = o ≡ none
IsLinked o (x ∷ xs) = (o ≡ some x.id) × IsLinked x.joins xs × (x.returned ≡ true → xs ≡ [])

-- A join leaves no thread behind.
pub join-rest :
    (o : Option ℕ) (xs rest : List Leaver) → IsLinked o xs → join o xs ≡ some rest → rest ≡ []
unfolding IsLinked join has_returned remove_leaver
join-rest none [] rest h e = ground (arith, e)
join-rest (some id) [] rest h e = absurd (ground (arith, h))
join-rest none (x ∷ xs) rest (h, l, r) e = absurd (ground (arith, h))
join-rest (some id) (x ∷ xs) rest (h, l, r) e =
    let same : (x.id == id) ≡ true = ground (arith, h) in
    elim (Bool-cases x.returned) [
      | inl q ↦ ground (arith, e, same, q, r q)
      | inr q ↦ absurd (ground (arith, e, same, q))
    ]

pub not_nil {ℓ} : {A : Type ℓ} (a : List A) (x : A) (b : List A) → a ++ x ∷ b ≢ []
not_nil [] x b e = ground (arith, e)
not_nil (y ∷ a) x b e = ground (arith, e)

-- The thread joins the next one, and returns.
pub IsLinked-returned :
    (o : Option ℕ) (a b : List Leaver) (l : Leaver) (rest : List Leaver)
    → l.returned ≡ false
    → IsLinked o (a ++ l ∷ b)
    → join l.joins b ≡ some rest
    → IsLinked o (a ++ record l { joins = none; returned = true } ∷ rest)
unfolding IsLinked
IsLinked-returned o [] b l rest f (h, k, r) e =
    let gone = join-rest l.joins b rest k e in (h, subst (IsLinked none) (sym gone) refl, λ q. gone)
IsLinked-returned o (y ∷ a) b l rest f (h, k, r) e =
    (h, IsLinked-returned y.joins a b l rest f k e, λ q. absurd (not_nil a l b (r q)))

-- ===== src/Message/Body.antt =====
-- The blocks of a body in src/protocol/HttpMessage.cc: none of their bytes is lost when they are combined.
use tinywf.Prelude.{
  ℕ, ◌+◌, ◌-◌, ◌<◌, ◌≤◌, ◌≡◌, refl, sym, ap, subst, ◌∙◌, Bool, true, false, not, ◌&&◌, none, some,
  List, [], ◌∷◌, ◌++◌, arith, ◌==◌, leb, if◌then◌else◌, is_nil, length, length-append, replicate,
}
use tinywf.Prelude.Bytes.{Bytes}
use tinywf.Message.{copy_blocks}
use tinywf.Message.Encode.{
  BodyResult, body_vectors, body_failed, overrun, combine_from, encode_body, with_vector,
}

-- The bytes of the vectors, one after the other.
unfoldable pub flat : List Bytes → Bytes
flat [] = []
flat (x ∷ xs) = x ++ flat xs

append_nil : (a : Bytes) → a ++ [] ≡ a
append_nil [] = refl
append_nil (x ∷ a) = ap (◌∷◌ x) (append_nil a)

-- A block of the size of all fits them exactly.
copy_blocks-flat :
    (blocks : List Bytes) (room : ℕ)
    → length (flat blocks) ≡ room
    → copy_blocks room blocks ≡ some (flat blocks)
unfolding copy_blocks flat
copy_blocks-flat [] room h = ap (λ n. some (replicate n 0)) (sym h)
copy_blocks-flat (x ∷ xs) room h =
    let sum = length-append x (flat xs) in
    let fits : leb (length x) room ≡ true = ground (arith, h, sum) in
    let rest = copy_blocks-flat xs (room - length x) (omega (arith, h, sum)) in
    ap
      (λ b.
        if b
        then elim (copy_blocks (room - length x) xs) [ none ↦ none | some text ↦ some (x ++ text) ]
        else none)
      fits
    ∙ ap (λ o. elim o [ none ↦ none | some text ↦ some (x ++ text) ]) rest

-- What the loop over the blocks comes to at the vector `i`.
unfoldable pub IsSent : Bool → ℕ → ℕ → List Bytes → BodyResult → Type 0
IsSent alloc max i blocks (body_vectors vs) = (flat vs ≡ flat blocks) × (i + length vs ≤ max)
IsSent alloc max i blocks body_failed = alloc ≡ false
IsSent alloc max i blocks overrun = true ≡ false

-- A place is left for a block, if there is one.
abbrev pub HasPlace : ℕ → ℕ → List Bytes → Type 0
HasPlace max i blocks = i + (if is_nil blocks then 0 else 1) ≤ max

combine_from-IsSent :
    (alloc : Bool) (max i size : ℕ) (blocks : List Bytes)
    → i < max
    → length (flat blocks) ≡ size
    → IsSent alloc max i blocks (combine_from alloc size blocks)
unfolding combine_from IsSent flat
combine_from-IsSent false max i size blocks p h = refl
combine_from-IsSent true max i size blocks p h =
    subst
      (λ o.
        IsSent true max i blocks (elim o [ none ↦ overrun | some text ↦ body_vectors (text ∷ []) ]))
      (sym (copy_blocks-flat blocks size h)) (append_nil (flat blocks), omega (arith, p))

with_vector-IsSent :
    (alloc : Bool) (max i : ℕ) (x : Bytes) (xs : List Bytes) (r : BodyResult)
    → IsSent alloc max (i + 1) xs r
    → IsSent alloc max i (x ∷ xs) (with_vector x r)
unfolding IsSent flat with_vector
with_vector-IsSent alloc max i x xs (body_vectors vs) (e, p) =
    (ap (λ y. x ++ y) e, omega (arith, p))
with_vector-IsSent alloc max i x xs body_failed e = e
with_vector-IsSent alloc max i x xs overrun e = e

pub encode_body-IsSent :
    (alloc : Bool) (max i size : ℕ) (blocks : List Bytes)
    → HasPlace max i blocks
    → length (flat blocks) ≡ size
    → IsSent alloc max i blocks (encode_body alloc max i size blocks)
unfolding encode_body IsSent flat
encode_body-IsSent alloc max i size [] p h = (refl, omega (arith, p))
encode_body-IsSent alloc max i size (x ∷ xs) p h =
    by_test (i + 1 == max) (is_nil xs) refl refl (λ q.
      encode_body-IsSent alloc max (i + 1) (size - length x) xs q
        (omega (arith, h, length-append x (flat xs))))
  where
    rest : BodyResult
    rest = with_vector x (encode_body alloc max (i + 1) (size - length x) xs)

    by_test :
        (last alone : Bool)
        → (i + 1 == max) ≡ last
        → is_nil xs ≡ alone
        → (HasPlace max (i + 1) xs
            → IsSent alloc max (i + 1) xs (encode_body alloc max (i + 1) (size - length x) xs))
        → IsSent alloc max i
            (x ∷ xs)
            (if last && not alone then combine_from alloc size (x ∷ xs) else rest)
    by_test true false e f again =
        combine_from-IsSent alloc max i size (x ∷ xs) (omega (arith, p)) h
    by_test true true e f again =
        with_vector-IsSent alloc max i x xs _ (again (ground (arith, p, f)))
    by_test false alone e f again =
        with_vector-IsSent alloc max i x xs _ (again (ground (arith, p, e)))

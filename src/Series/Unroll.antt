-- ===== src/Series/Unroll.antt =====
-- The circular queue of src/factory/Workflow.cc: which slot a task is in, and what `expand_queue`
-- copies.
use tinywf.Prelude.{
  ℕ, zero, suc, ◌+◌, ◌-◌, ◌<◌, ◌≡◌, refl, ap, ◌∙◌, Bool, false, List, [], ◌∷◌, arith, ltb, ◌==◌,
  if◌then◌else◌, length, get_or, Bool-cases, inl, inr,
}
use tinywf.Series.{next_index, unroll}

-- The slot of the task number `i`, in a queue that begins at `front`.
abbrev pub slot : ℕ → ℕ → ℕ → ℕ
slot size front i = if ltb (front + i) size then front + i else front + i - size

pub slot_next :
    (size front i : ℕ)
    → front < size
    → i < size
    → next_index size (slot size front i) ≡ slot size front (i + 1)
slot_next size front i f h = ground arith

pub slot_other :
    (size front i j : ℕ)
    → front < size
    → i < j
    → j < size
    → (slot size front i == slot size front j) ≡ false
slot_other size front i j f h k = ground arith

pub slot_in : (size front i : ℕ) → front < size → i < size → slot size front i < size
slot_in size front i f h = ground arith

unroll-step :
    (fuel size front k : ℕ) (queue : List ℕ)
    → front < size
    → k + suc fuel ≡ size
    → unroll (suc fuel) queue size front (slot size front k)
      ≡ get_or queue (slot size front k) 0 ∷ unroll fuel queue size front (slot size front (k + 1))
unfolding unroll
unroll-step zero size front k queue f h =
    elim (Bool-cases (next_index size (slot size front k) == front)) [
      | inl e ↦ ground (arith, e)
      | inr e ↦ ground (arith, e)
    ]
unroll-step (suc fuel) size front k queue f h =
    let next = slot_next size front k f (omega arith) in
    let going : (next_index size (slot size front k) == front) ≡ false =
      ap (λ j. j == front) next ∙ ground arith in
    let list = λ (b : Bool) (j : ℕ).
      get_or queue (slot size front k) 0
      ∷ (if b then [] else unroll (suc fuel) queue size front j) in
    ap (λ b. list b (next_index size (slot size front k))) going ∙ ap (list false) next

-- From the task number `k` of a full queue on, the loop copies what is left, in order.
pub unroll-slots :
    (fuel size front k : ℕ) (queue : List ℕ)
    → front < size
    → k + fuel ≡ size
    → (length (unroll fuel queue size front (slot size front k)) ≡ fuel)
      × ((i : ℕ)
          → i < fuel
          → get_or (unroll fuel queue size front (slot size front k)) i 0
            ≡ get_or queue (slot size front (k + i)) 0)
unroll-slots zero size front k queue f h = (unfold unroll in refl, λ i l. absurd (omega arith))
unroll-slots (suc fuel) size front k queue f h =
    let step = unroll-step fuel size front k queue f h in
    let (len, got) = unroll-slots fuel size front (k + 1) queue f (omega arith) in
    (ap length step ∙ ap suc len, λ i l. ap (λ xs. get_or xs i 0) step ∙ at i l got)
  where
    at :
        (i : ℕ)
        → i < suc fuel
        → ((i : ℕ)
            → i < fuel
            → get_or (unroll fuel queue size front (slot size front (k + 1))) i 0
              ≡ get_or queue (slot size front (k + 1 + i)) 0)
        → get_or
            (get_or queue (slot size front k) 0
              ∷ unroll fuel queue size front (slot size front (k + 1)))
            i
            0
          ≡ get_or queue (slot size front (k + i)) 0
    at zero l got =
        let same : k ≡ k + zero = omega arith in ap (λ j. get_or queue (slot size front j) 0) same
    at (suc i) l got =
        let same : k + 1 + i ≡ k + suc i = omega arith in
        got i (omega arith) ∙ ap (λ j. get_or queue (slot size front j) 0) same

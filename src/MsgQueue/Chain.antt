-- ===== src/MsgQueue/Chain.antt =====
-- The linked lists of src/common/msgqueue.c: which cells a list is in, and what a write leaves of it.
use tinywf.Prelude.{ℕ, ◌≡◌, ◌≢◌, sym, ◌∙◌, List, [], ◌∷◌, ◌++◌, arith}
use tinywf.MsgQueue.{Memory, write}

-- The list behind a cell: the cell holds the first link, each link the next, the last one NULL.
abbrev pub Chain : Memory → ℕ → List ℕ → Type 0
Chain memory cell [] = memory cell ≡ 0
Chain memory cell (link ∷ links) = (memory cell ≡ link) × (link ≢ 0) × Chain memory link links

-- The address is none of the list.
abbrev pub IsFresh : ℕ → List ℕ → Type 0
IsFresh a [] = Unit {0}
IsFresh a (x ∷ xs) = (a ≢ x) × IsFresh a xs

abbrev pub Distinct : List ℕ → Type 0
Distinct [] = Unit {0}
Distinct (x ∷ xs) = IsFresh x xs × Distinct xs

-- The cell that ends the list.
abbrev pub last_cell : ℕ → List ℕ → ℕ
last_cell cell [] = cell
last_cell cell (link ∷ links) = last_cell link links

pub write_self : (memory : Memory) (a v : ℕ) → write memory a v a ≡ v
unfolding write
write_self memory a v = ground arith

pub write_other : (memory : Memory) (a b v : ℕ) → b ≢ a → write memory a v b ≡ memory b
unfolding write
write_other memory a b v n = ground (arith, n)

pub IsFresh-append : (a : ℕ) (xs ys : List ℕ) → IsFresh a xs → IsFresh a ys → IsFresh a (xs ++ ys)
IsFresh-append a [] ys f g = g
IsFresh-append a (x ∷ xs) ys (n, f) g = (n, IsFresh-append a xs ys f g)

pub IsFresh-parts : (a : ℕ) (xs ys : List ℕ) → IsFresh a (xs ++ ys) → IsFresh a xs × IsFresh a ys
IsFresh-parts a [] ys f = (tt, f)
IsFresh-parts a (x ∷ xs) ys (n, f) = let (g, h) = IsFresh-parts a xs ys f in ((n, g), h)

pub IsFresh-last : (a cell : ℕ) (xs : List ℕ) → a ≢ cell → IsFresh a xs → a ≢ last_cell cell xs
IsFresh-last a cell [] n f = n
IsFresh-last a cell (x ∷ xs) n (m, f) = IsFresh-last a x xs m f

-- A write outside the cells of a list leaves it.
pub Chain-write :
    (memory : Memory) (a v cell : ℕ) (xs : List ℕ)
    → cell ≢ a
    → IsFresh a xs
    → Chain memory cell xs
    → Chain (write memory a v) cell xs
Chain-write memory a v cell [] n f c = write_other memory a cell v n ∙ c
Chain-write memory a v cell (x ∷ xs) n (m, f) (at, some_link, c) = (
  write_other memory a cell v n ∙ at,
  some_link,
  Chain-write memory a v x xs (λ e. m (sym e)) f c,
)

-- A link whose cell was cleared is hung on the end of a list.
pub Chain-snoc :
    (memory : Memory) (link cell : ℕ) (xs : List ℕ)
    → link ≢ 0
    → link ≢ cell
    → IsFresh link xs
    → IsFresh cell xs
    → Distinct xs
    → Chain memory cell xs
    → Chain (write (write memory link 0) (last_cell cell xs) link) cell (xs ++ link ∷ [])
Chain-snoc memory link cell [] z n f g d c = (
  write_self (write memory link 0) cell link,
  z,
  write_other (write memory link 0) cell link link n ∙ write_self memory link 0,
)
Chain-snoc memory link cell (x ∷ xs) z n (m, f) (k, g) (fresh, d) (at, some_link, c) = (
  write_other (write memory link 0) (last_cell x xs) cell link (IsFresh-last cell x xs k g)
      ∙ write_other memory link cell 0 (λ e. n (sym e))
      ∙ at,
  some_link,
  Chain-snoc memory link x xs z m f fresh d c,
)

-- The first link is taken off: the cell gets what the link held.
pub Chain-tail :
    (memory : Memory) (cell link : ℕ) (xs : List ℕ)
    → IsFresh cell xs
    → Chain memory link xs
    → Chain (write memory cell (memory link)) cell xs
Chain-tail memory cell link [] f c = write_self memory cell (memory link) ∙ c
Chain-tail memory cell link (x ∷ xs) (n, f) (at, some_link, c) = (
  write_self memory cell (memory link) ∙ at,
  some_link,
  Chain-write memory cell (memory link) x xs (λ e. n (sym e)) f c,
)

-- ===== src/Http/Resume/Name.antt =====
-- The scan of a header name in src/protocol/http_parser.c writes into the parser's array as it goes;
-- scanning again over more bytes writes the same bytes again.
use tinywf.Prelude.{
  ℕ, zero, suc, ◌+◌, ◌≡◌, refl, ap, ◌∙◌, Bool, true, false, List, [], ◌∷◌, ◌++◌, arith, ◌<◌, set,
}
use tinywf.Prelude.Bytes.{Bytes}
use tinywf.Http.Name
use tinywf.Http.Name.{scan_name}

set-set {ℓ} : {A : Type ℓ} (xs : List A) (i : ℕ) (v w : A) → set (set xs i v) i w ≡ set xs i w
set-set [] i v w = refl
set-set (x ∷ xs) zero v w = refl
set-set (x ∷ xs) (suc i) v w = ap (◌∷◌ x) (set-set xs i v w)

set_comm {ℓ} :
    {A : Type ℓ} (xs : List A) (i j : ℕ) (v w : A)
    → i < j
    → set (set xs j w) i v ≡ set (set xs i v) j w
set_comm [] i j v w h = refl
set_comm (x ∷ xs) i zero v w h = absurd (omega arith)
set_comm (x ∷ xs) zero (suc j) v w h = refl
set_comm (x ∷ xs) (suc i) (suc j) v w h = ap (◌∷◌ x) (set_comm xs i j v w (omega arith))

-- A byte before the scan's start stays as it was written.
kept :
    (i k c : ℕ) (namebuf written xs : Bytes)
    → i < k
    → set namebuf i c ≡ namebuf
    → scan_name k namebuf xs ≡ Name.incomplete written
    → set written i c ≡ written
unfolding scan_name
kept i k c namebuf written [] h e s = ground arith
kept i k c namebuf written (x ∷ xs) h e s =
    let same = set_comm namebuf i k c x h ∙ ap (λ b. set b k x) e in
    ground (arith, kept i (k + 1) c (set namebuf k x) written xs (omega arith) same)

pub scan_name-again :
    (i : ℕ) (namebuf written xs ys : Bytes)
    → scan_name i namebuf xs ≡ Name.incomplete written
    → scan_name i written (xs ++ ys) ≡ scan_name i namebuf (xs ++ ys)
unfolding scan_name
scan_name-again i namebuf written [] ys s = ground arith
scan_name-again i namebuf written (x ∷ xs) ys s = ground (
  arith,
  kept i (i + 1) x (set namebuf i x) written xs (omega arith) (set-set namebuf i x x),
  scan_name-again (i + 1) (set namebuf i x) written xs ys,
)

abbrev pub is_over : Name.NameScan → Bool
is_over (Name.incomplete _) = false
is_over _ = true

pub scan_name-append :
    (i : ℕ) (namebuf xs ys : Bytes)
    → is_over (scan_name i namebuf xs) ≡ true
    → scan_name i namebuf (xs ++ ys) ≡ scan_name i namebuf xs
unfolding scan_name
scan_name-append i namebuf [] [] h = refl
scan_name-append i namebuf [] (y ∷ ys) h = ground arith
scan_name-append i namebuf (x ∷ xs) ys h =
    ground (arith, scan_name-append (i + 1) (set namebuf i x) xs ys)

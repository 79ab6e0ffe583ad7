-- ===== src/StringUtil/Split.antt =====
-- Splitting in src/util/StringUtil.cc, against the joining of the parts.
use tinywf.Prelude.{
  ℕ, ◌≡◌, ◌≢◌, refl, sym, ap, subst, ◌∙◌, List, [], ◌∷◌, ◌++◌, arith, Bool-cases, ◌==◌, inl, inr,
}
use mathlib.Core.List.{append_assoc, append-nil}
use tinywf.Prelude.Bytes.{Bytes}
use tinywf.StringUtil.{split_loop, split, filter_loop, split_filter_empty, add_part}

-- The parts with the separator between them.
abbrev pub join : ℕ → List Bytes → Bytes
join sep [] = []
join sep (part ∷ []) = part
join sep (part ∷ next ∷ parts) = part ++ sep ∷ join sep (next ∷ parts)

-- The separator is no byte of the text.
abbrev pub IsFree : ℕ → Bytes → Type 0
IsFree sep [] = Unit {0}
IsFree sep (c ∷ text) = (c ≢ sep) × IsFree sep text

abbrev pub AllFree : ℕ → List Bytes → Type 0
AllFree sep [] = Unit {0}
AllFree sep (part ∷ parts) = IsFree sep part × AllFree sep parts

-- The parts that are not empty.
abbrev pub non_empty : List Bytes → List Bytes
non_empty [] = []
non_empty (part ∷ parts) = add_part part (non_empty parts)

IsFree-snoc : (sep c : ℕ) (text : Bytes) → IsFree sep text → c ≢ sep → IsFree sep (text ++ c ∷ [])
IsFree-snoc sep c [] f n = (n, tt)
IsFree-snoc sep c (d ∷ text) (m, f) n = (m, IsFree-snoc sep c text f n)

split_loop-parts :
    (sep : ℕ) (part rest : Bytes)
    → IsFree sep part
    → (first : Bytes) × (later : List Bytes) × (split_loop sep part rest ≡ first ∷ later)
      × (join sep (first ∷ later) ≡ part ++ rest)
      × AllFree sep (first ∷ later)
      × (filter_loop sep part rest ≡ non_empty (first ∷ later))
unfolding split_loop filter_loop
split_loop-parts sep part [] f = (part, [], refl, sym (append-nil part), (f, tt), refl)
split_loop-parts sep part (c ∷ rest) f = elim (Bool-cases (c == sep)) [
  | inl here ↦
      let (first, later, run, joined, free, kept) = split_loop-parts sep [] rest tt in
      let at : c ≡ sep = ground (arith, here) in
      (
        part,
        first ∷ later,
        ground (arith, here, run),
        ap (λ t. part ++ sep ∷ t) joined ∙ ap (λ d. part ++ d ∷ rest) (sym at),
        (f, free),
        ground (arith, here, kept),
      )
  | inr other ↦
      let n : c ≢ sep = ground (arith, other) in
      let (first, later, run, joined, free, kept) =
        split_loop-parts sep (part ++ c ∷ []) rest (IsFree-snoc sep c part f n) in
      (
        first,
        later,
        ground (arith, other, run),
        joined ∙ append_assoc part (c ∷ []) rest,
        free,
        ground (arith, other, kept),
      )
]

-- `split` returns the parts between the separators: none holds a separator, and joined with the
-- separator they are the string again.
pub split-join :
    (str : Bytes) (sep : ℕ) → (join sep (split str sep) ≡ str) × AllFree sep (split str sep)
unfolding split
split-join str sep =
    let (first, later, run, joined, free, _) = split_loop-parts sep [] str tt in
    (ap (join sep) run ∙ joined, subst (AllFree sep) (sym run) free)

-- `split_filter_empty` returns the parts of `split` that are not empty, in order.
pub split_filter_empty-split :
    (str : Bytes) (sep : ℕ) → split_filter_empty str sep ≡ non_empty (split str sep)
unfolding split_filter_empty split
split_filter_empty-split str sep =
    let (first, later, run, _, _, kept) = split_loop-parts sep [] str tt in
    kept ∙ ap non_empty (sym run)

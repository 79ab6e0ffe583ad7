-- ===== src/StringUtil/Strip.antt =====
-- `strip` and `start_with` of src/util/StringUtil.cc.
use tinywf.Prelude.{
  ℕ, ◌≡◌, ◌↔◌, refl, sym, ap, subst, ◌∙◌, ◌⊎◌, true, false, [], ◌∷◌, ◌++◌, arith, Bool-cases, inl,
  inr,
}
use tinywf.Prelude.Bytes.{Bytes}
use tinywf.StringUtil.{is_space, strip_front, strip_back, strip, start_with}

abbrev pub AllSpace : Bytes → Type 0
AllSpace [] = Unit {0}
AllSpace (c ∷ text) = (is_space c ≡ true) × AllSpace text

-- The text is empty or begins with a byte that is no white space.
abbrev pub StartsFirm : Bytes → Type 0
StartsFirm [] = Unit {0}
StartsFirm (c ∷ text) = is_space c ≡ false

-- The text is empty or ends with a byte that is no white space.
abbrev pub EndsFirm : Bytes → Type 0
EndsFirm [] = Unit {0}
EndsFirm (c ∷ []) = is_space c ≡ false
EndsFirm (c ∷ d ∷ text) = EndsFirm (d ∷ text)

strip_front-parts :
    (str : Bytes)
    → (l : Bytes) × (str ≡ l ++ strip_front str) × AllSpace l × StartsFirm (strip_front str)
unfolding strip_front
strip_front-parts [] = ([], refl, tt, tt)
strip_front-parts (c ∷ str) = elim (Bool-cases (is_space c)) [
  | inl blank ↦
      let (l, whole, spaces, firm) = strip_front-parts str in
      let same : strip_front (c ∷ str) ≡ strip_front str = ground (arith, blank) in
      (
        c ∷ l,
        ap (◌∷◌ c) whole ∙ ap (λ t. c ∷ l ++ t) (sym same),
        (blank, spaces),
        subst StartsFirm (sym same) firm,
      )
  | inr text ↦
      let same : strip_front (c ∷ str) ≡ c ∷ str = ground (arith, text) in
      ([], sym same, tt, subst StartsFirm (sym same) text)
]

Bytes-cases : (s : Bytes) → (s ≡ []) ⊎ ((c : ℕ) × (rest : Bytes) × (s ≡ c ∷ rest))
Bytes-cases [] = inl refl
Bytes-cases (c ∷ rest) = inr (c, rest, refl)

strip_back-parts :
    (str : Bytes)
    → (r : Bytes) × (str ≡ strip_back str ++ r) × AllSpace r × EndsFirm (strip_back str)
unfolding strip_back
strip_back-parts [] = ([], refl, tt, tt)
strip_back-parts (c ∷ str) =
    let (r, whole, spaces, firm) = strip_back-parts str in
    elim (Bytes-cases (strip_back str)) [
      | inr (d, t, e) ↦
          let same : strip_back (c ∷ str) ≡ c ∷ d ∷ t = ground (arith, e) in
          (
            r,
            ap (◌∷◌ c) whole ∙ ap (λ s. c ∷ s ++ r) e ∙ ap (λ s. s ++ r) (sym same),
            spaces,
            subst EndsFirm (sym same) (subst EndsFirm e firm),
          )
      | inl e ↦
          let rest : str ≡ r = whole ∙ ap (λ s. s ++ r) e in
          elim (Bool-cases (is_space c)) [
            | inl blank ↦
                let same : strip_back (c ∷ str) ≡ [] = ground (arith, e, blank) in
                (
                  c ∷ r,
                  ap (◌∷◌ c) rest ∙ ap (λ s. s ++ c ∷ r) (sym same),
                  (blank, spaces),
                  subst EndsFirm (sym same) tt,
                )
            | inr text ↦
                let same : strip_back (c ∷ str) ≡ c ∷ [] = ground (arith, e, text) in
                (
                  r,
                  ap (◌∷◌ c) rest ∙ ap (λ s. s ++ r) (sym same),
                  spaces,
                  subst EndsFirm (sym same) text,
                )
          ]
    ]

strip_back-StartsFirm : (str : Bytes) → StartsFirm str → StartsFirm (strip_back str)
unfolding strip_back
strip_back-StartsFirm [] f = tt
strip_back-StartsFirm (c ∷ str) f =
    let same : strip_back (c ∷ str) ≡ c ∷ strip_back str = ground (arith, f) in
    subst StartsFirm (sym same) f

-- `strip` takes white space off both ends and nothing else: the string is what it returns between
-- two runs of white space, and what it returns is empty or begins and ends with other bytes.
pub strip-parts :
    (str : Bytes)
    → (l r : Bytes) × (str ≡ l ++ (strip str ++ r))
      × AllSpace l
      × AllSpace r
      × StartsFirm (strip str)
      × EndsFirm (strip str)
unfolding strip
strip-parts str =
    let (l, front, before, first) = strip_front-parts str in
    let (r, back, after, last) = strip_back-parts (strip_front str) in
    (
      l,
      r,
      front ∙ ap (λ s. l ++ s) back,
      before,
      after,
      strip_back-StartsFirm (strip_front str) first,
      last,
    )

-- `start_with` is true exactly if the string is the prefix and some rest.
pub start_with_iff :
    (str prefix : Bytes)
    → (start_with str prefix ≡ true) ↔ ((rest : Bytes) × (str ≡ prefix ++ rest))
unfolding start_with
start_with_iff str prefix = (forth str prefix, λ (rest, e). back str prefix rest e)
  where
    forth :
        (str prefix : Bytes)
        → start_with str prefix ≡ true
        → (rest : Bytes) × (str ≡ prefix ++ rest)
    forth str [] h = (str, refl)
    forth [] (c ∷ prefix) h = absurd (ground (arith, h))
    forth (d ∷ str) (c ∷ prefix) h =
        let (rest, e) = forth str prefix (ground (arith, h)) in (rest, ground (arith, h, e))

    back : (str prefix rest : Bytes) → str ≡ prefix ++ rest → start_with str prefix ≡ true
    back str [] rest e = refl
    back [] (c ∷ prefix) rest e = absurd (ground (arith, e))
    back (d ∷ str) (c ∷ prefix) rest e = ground (arith, e, back str prefix rest)

-- ===== src/Prelude/Bytes.antt =====
-- Bytes and C strings. A C string is the list of its bytes before the NUL.
use Prim.Native.Nat.{ℕ, ◌+◌}
use Prim.Native.Char.{code}
use Prim.Native.String.{String}
use mathlib.Core.Path.{◌≡◌, refl}
use mathlib.Core.Logic.{◌↔◌}
use mathlib.Core.Bool.{Bool, true, false, ◌&&◌}
use mathlib.Core.List.{List, [], ◌∷◌}
use mathlib.Core.Option.{Option, none, some}
use native.Mathlib.Omega.{arith}
use tinywf.Prelude.Tests.{◌==◌, leb, if◌then◌else◌}

abbrev pub Bytes : Type 0
Bytes = List ℕ

-- The bytes of an ASCII literal.
abbrev pub codes : String → Bytes
codes String.[] = []
codes (String.◌∷◌ c s) = code c ∷ codes s

-- `strcmp(a, b) == 0`
unfoldable pub str_eq : Bytes → Bytes → Bool
str_eq [] [] = true
str_eq [] (y ∷ b) = false
str_eq (x ∷ a) [] = false
str_eq (x ∷ a) (y ∷ b) = x == y && str_eq a b

-- `strncmp(s, prefix, strlen(prefix)) == 0`
unfoldable pub starts_with : Bytes → Bytes → Bool
starts_with s [] = true
starts_with [] (y ∷ b) = false
starts_with (x ∷ a) (y ∷ b) = x == y && starts_with a b

-- `tolower` in the C locale
unfoldable pub to_lower : ℕ → ℕ
to_lower c = if leb b'A' c && leb c b'Z' then c + 32 else c

-- `strncasecmp(a, b, n) == 0` where both have `n` bytes
unfoldable pub case_eq : Bytes → Bytes → Bool
unfolding to_lower
case_eq [] [] = true
case_eq [] (y ∷ b) = false
case_eq (x ∷ a) [] = false
case_eq (x ∷ a) (y ∷ b) = to_lower x == to_lower y && case_eq a b

-- `strlen` and what it measures: the bytes of an array before its first NUL
unfoldable pub c_str : Bytes → Bytes
c_str [] = []
c_str (x ∷ a) = if x == 0 then [] else x ∷ c_str a

-- `strchr`: what stands before the first `c`, and what stands behind it
unfoldable pub split_at : ℕ → Bytes → Option (Bytes × Bytes)
split_at c [] = none
split_at c (x ∷ a) =
    if x == c
    then some ([], a)
    else elim (split_at c a) [ none ↦ none | some (l, r) ↦ some (x ∷ l, r) ]

pub str_eq_iff : (a b : Bytes) → (str_eq a b ≡ true) ↔ (a ≡ b)
unfolding str_eq
str_eq_iff [] [] = ground arith
str_eq_iff [] (y ∷ b) = ground arith
str_eq_iff (x ∷ a) [] = ground arith
str_eq_iff (x ∷ a) (y ∷ b) = ground (arith, str_eq_iff a b)

pub case_eq_refl : (a : Bytes) → case_eq a a ≡ true
unfolding case_eq
case_eq_refl [] = refl
case_eq_refl (x ∷ a) = ground (arith, case_eq_refl a)

pub case_eq_sym : (a b : Bytes) → case_eq a b ≡ case_eq b a
unfolding case_eq
case_eq_sym [] [] = refl
case_eq_sym [] (y ∷ b) = refl
case_eq_sym (x ∷ a) [] = refl
case_eq_sym (x ∷ a) (y ∷ b) = ground (arith, case_eq_sym a b)

pub case_eq_trans : (a b c : Bytes) → case_eq a b ≡ true → case_eq b c ≡ true → case_eq a c ≡ true
unfolding case_eq
case_eq_trans [] [] c h k = k
case_eq_trans (x ∷ a) (y ∷ b) (z ∷ c) h k = ground (arith, case_eq_trans a b c)
case_eq_trans _ _ _ h k = ground arith

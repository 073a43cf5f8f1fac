-- ===== src/Prelude/Strings.antt =====
-- Text as the list of its character codes, with the operations of the source's strings.
use Prim.Native.Nat.{ℕ, ◌-◌}
use Prim.Native.Char.{code}
use Prim.Native.String.{String}
use mathlib.Core.Path.{◌≡◌, refl, sym, ◌∙◌}
use mathlib.Core.Logic.{◌⊎◌, inl, inr}
use ume_pms_v2_backend.Prelude.Lists.{any_by, any_by-reverse}
use mathlib.Core.Bool.{false≢true, Bool, true, false, not, ◌&&◌, ◌||◌}
use mathlib.Core.List.{List, [], ◌∷◌, reverse}
use native.Mathlib.Omega.{arith}
use ume_pms_v2_backend.Prelude.Tests.{Bool-cases, ltb, leb, ◌==◌, if◌then◌else◌}

abbrev pub Text : Type 0
Text = List ℕ

abbrev pub codes : String → Text
codes String.[] = []
codes (String.◌∷◌ c s) = code c ∷ codes s

-- `a === b`
unfoldable pub text_eq : Text → Text → Bool
text_eq [] [] = true
text_eq [] (d ∷ t) = false
text_eq (c ∷ s) [] = false
text_eq (c ∷ s) (d ∷ t) = (c == d) && text_eq s t

-- `a < b` on strings: by the first difference, a proper prefix first.
unfoldable pub text_lt : Text → Text → Bool
text_lt s [] = false
text_lt [] (d ∷ t) = true
text_lt (c ∷ s) (d ∷ t) = ltb c d || ((c == d) && text_lt s t)

-- `a <= b`
abbrev pub text_le : Text → Text → Bool
text_le s t = not (text_lt t s)

abbrev pub is_empty : Text → Bool
is_empty [] = true
is_empty (c ∷ s) = false

-- The blank characters of ASCII: tab to carriage return, and the space.
abbrev pub is_blank : ℕ → Bool
is_blank c = (c == 32) || (leb 9 c && leb c 13)

unfoldable pub trim_start : Text → Text
trim_start [] = []
trim_start (c ∷ s) = if is_blank c then trim_start s else c ∷ s

-- `s.trim()`
unfoldable pub trim : Text → Text
unfolding trim_start
trim s = reverse (trim_start (reverse (trim_start s)))

abbrev pub upper_char : ℕ → ℕ
upper_char c = if leb 97 c && leb c 122 then c - 32 else c

-- `s.toUpperCase()`, on ASCII
unfoldable pub to_upper : Text → Text
to_upper [] = []
to_upper (c ∷ s) = upper_char c ∷ to_upper s

abbrev pub is_digit : ℕ → Bool
is_digit c = leb 48 c && leb c 57

abbrev pub is_capital : ℕ → Bool
is_capital c = leb 65 c && leb c 90

-- `/^\d{4}-\d{2}-\d{2}$/`
unfoldable pub is_iso_date : Text → Bool
is_iso_date (y1 ∷ y2 ∷ y3 ∷ y4 ∷ h1 ∷ m1 ∷ m2 ∷ h2 ∷ d1 ∷ d2 ∷ []) =
    is_digit y1
    && is_digit y2
    && is_digit y3
    && is_digit y4
    && (h1 == 45)
    && is_digit m1
    && is_digit m2
    && (h2 == 45)
    && is_digit d1
    && is_digit d2
is_iso_date _ = false

-- `/^[A-Z]{3}$/`
unfoldable pub is_currency_code : Text → Bool
is_currency_code (a ∷ b ∷ c ∷ []) = is_capital a && is_capital b && is_capital c
is_currency_code _ = false

pub text_eq→eq : (s t : Text) → text_eq s t ≡ true → s ≡ t
unfolding text_eq
text_eq→eq [] [] h = refl
text_eq→eq [] (d ∷ t) h = cc
text_eq→eq (c ∷ s) [] h = cc
text_eq→eq (c ∷ s) (d ∷ t) h = ground (arith, text_eq→eq s t)

pub text_eq_refl : (s : Text) → text_eq s s ≡ true
unfolding text_eq
text_eq_refl [] = refl
text_eq_refl (c ∷ s) = ground (arith, text_eq_refl s)

pub text_lt_irrefl : (s : Text) → text_lt s s ≡ false
unfolding text_lt
text_lt_irrefl [] = refl
text_lt_irrefl (c ∷ s) = ground (arith, text_lt_irrefl s)

pub text_le_trans : (s t u : Text) → text_le s t ≡ true → text_le t u ≡ true → text_le s u ≡ true
unfolding text_lt
text_le_trans [] t u h k = ground arith
text_le_trans (c ∷ s) [] u h k = ground arith
text_le_trans (c ∷ s) (d ∷ t) [] h k = ground arith
text_le_trans (c ∷ s) (d ∷ t) (e ∷ u) h k = ground (arith, text_le_trans s t u)

abbrev ink : ℕ → Bool
ink c = not (is_blank c)

trim_start_cases : (s : Text) → (trim_start s ≡ []) ⊎ (any_by ink (trim_start s) ≡ true)
unfolding trim_start
trim_start_cases [] = inl refl
trim_start_cases (c ∷ s) = elim (Bool-cases (is_blank c)) [
  | inl e ↦ rw e (trim_start_cases s)
  | inr e ↦ inr (rw e (rw e refl))
]

-- A trimmed text that is not empty has a character that is no blank.
pub trim-ink :
    (s : Text) → is_empty (trim s) ≡ false → any_by (λ c. not (is_blank c)) (trim s) ≡ true
unfolding trim
trim-ink s h = elim (trim_start_cases (reverse (trim_start s))) [
  | inl e ↦ absurd (false≢true (sym (rw e at h)))
  | inr e ↦ any_by-reverse ink (trim_start (reverse (trim_start s))) ∙ e
]

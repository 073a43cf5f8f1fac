-- ===== src/Prelude/Decimal.antt =====
-- `String(n)` and `padStart` on numbers, and reading digits back.
use Prim.Native.Nat.{ℕ, zero, suc, ◌+◌, ◌-◌, ◌*◌, ◌/◌, ◌%◌, ◌<◌}
use mathlib.Core.Path.{◌≡◌, refl, ◌∙◌, ap}
use mathlib.Core.List.{[], ◌∷◌, ◌++◌}
use mathlib.Core.Bool.{false}
use native.Mathlib.Omega.{arith}
use ume_pms_v2_backend.Prelude.Tests.{◌==◌, ltb, if◌then◌else◌, Bool-cases}
use ume_pms_v2_backend.Prelude.Lists.{length, All}
use ume_pms_v2_backend.Prelude.Strings.{Text}
use mathlib.Core.Logic.{inl, inr}

-- The digits of `n` in front of `rest`; fuel above `n` is enough.
unfoldable pub digits_onto : ℕ → ℕ → Text → Text
digits_onto zero n rest = rest
digits_onto (suc fuel) n rest =
    let longer = digits_onto fuel (n / 10) ((48 + n % 10) ∷ rest) in
    if ltb n 10 then (48 + n) ∷ rest else longer

-- `String(n)`
unfoldable pub decimal : ℕ → Text
unfolding digits_onto
decimal n = digits_onto (suc n) n []

unfoldable pub replicate : ℕ → ℕ → Text
replicate zero c = []
replicate (suc n) c = c ∷ replicate n c

-- `s.padStart(width, '0')`
unfoldable pub pad_zeros : ℕ → Text → Text
unfolding replicate
pad_zeros width s = replicate (width - length s) 48 ++ s

-- The number that digits stand for, with `acc` read so far.
abbrev pub read_from : ℕ → Text → ℕ
read_from acc [] = acc
read_from acc (c ∷ s) = read_from (acc * 10 + (c - 48)) s

digits_onto-read :
    (fuel n : ℕ) (rest : Text) → n < fuel → read_from 0 (digits_onto fuel n rest) ≡ read_from n rest
unfolding digits_onto
digits_onto-read zero n rest h = elim h [ ]
digits_onto-read (suc fuel) n rest h = elim (Bool-cases (ltb n 10)) [
  | inl small ↦ rw small (ap (λ (m : ℕ). read_from m rest) (omega arith))
  | inr large ↦ rw large (
      digits_onto-read fuel (n / 10) ((48 + n % 10) ∷ rest) (ground arith)
      ∙ ap (λ (m : ℕ). read_from m rest) (omega arith))
]

read-zeros : (k : ℕ) (s : Text) → read_from 0 (replicate k 48 ++ s) ≡ read_from 0 s
unfolding replicate
read-zeros zero s = refl
read-zeros (suc k) s = read-zeros k s

pub read-decimal : (n : ℕ) → read_from 0 (decimal n) ≡ n
unfolding decimal
read-decimal n = digits_onto-read (suc n) n [] (omega arith)

-- The padded digits of a number read back as the number.
pub read-pad_zeros : (width n : ℕ) → read_from 0 (pad_zeros width (decimal n)) ≡ n
unfolding pad_zeros
read-pad_zeros width n = read-zeros (width - length (decimal n)) (decimal n) ∙ read-decimal n

pub append-cancel : (s t u : Text) → s ++ t ≡ s ++ u → t ≡ u
append-cancel [] t u h = h
append-cancel (c ∷ s) t u h = append-cancel s t u (cc)

-- No character of the digits is a dash.
abbrev pub NoDash : Text → Type 0
NoDash = All (λ c. (c == 45) ≡ false)

digits_onto-NoDash : (fuel n : ℕ) (rest : Text) → NoDash rest → NoDash (digits_onto fuel n rest)
unfolding digits_onto
digits_onto-NoDash zero n rest h = h
digits_onto-NoDash (suc fuel) n rest h = elim (Bool-cases (ltb n 10)) [
  | inl small ↦ rw small (ground arith, h)
  | inr large ↦ rw large (digits_onto-NoDash fuel (n / 10) ((48 + n % 10) ∷ rest) (ground arith, h))
]

zeros-NoDash : (k : ℕ) (s : Text) → NoDash s → NoDash (replicate k 48 ++ s)
unfolding replicate
zeros-NoDash zero s h = h
zeros-NoDash (suc k) s h = (refl, zeros-NoDash k s h)

pub pad_zeros-NoDash : (width n : ℕ) → NoDash (pad_zeros width (decimal n))
unfolding pad_zeros decimal
pad_zeros-NoDash width n =
    zeros-NoDash (width - length (decimal n)) (decimal n) (digits_onto-NoDash (suc n) n [] tt)

-- ===== src/Prelude/Money.antt =====
-- Amounts. A JavaScript number that stands for money or a rate is an exact decimal, an integer
-- count of 0.00000001 (the scale of the rate column); a cent is 1,000,000 of these units.
use Prim.Native.Nat.{ℕ, ◌+◌, ◌*◌, ◌/◌, ◌%◌, ◌≤◌, ◌<◌}
use mathlib.Core.Path.{◌≡◌}
use native.Mathlib.Omega.{arith, div_any}
use native.Mathlib.Nat.{mod-lt}
use ume_pms_v2_backend.Prelude.Int.{
  ℤ, pos, negsuc, pos_part, neg_part, ◌+ℤ◌, ◌-ℤ◌, ◌*ℤ◌, ◌≤ℤ◌, ◌<ℤ◌, floor_div,
}

-- A whole number of cents, in units.
abbrev pub cents : ℕ → ℤ
cents n = pos (1_000_000 * n)

abbrev pub zero_amount : ℤ
zero_amount = pos 0

-- 1.00000000
abbrev pub one_unit : ℤ
one_unit = pos 100_000_000

-- `k` cents, for an integer `k`
abbrev pub of_cents : ℤ → ℤ
of_cents (pos n) = pos (1_000_000 * n)
of_cents (negsuc n) = negsuc (1_000_000 * n + 999_999)

-- `Math.round(x * 100) / 100`: to the nearest cent, a tie towards plus infinity.
unfoldable pub round2 : ℤ → ℤ
unfolding floor_div ◌+ℤ◌
round2 x = of_cents (floor_div (x +ℤ pos 500_000) 1_000_000)

-- `round2(x / d)` for a positive `d`, the quotient exact.
unfoldable pub round2_ratio : ℤ → ℕ → ℤ
unfolding floor_div ◌+ℤ◌
round2_ratio x d = of_cents (floor_div (x +ℤ x +ℤ pos (1_000_000 * d)) (2_000_000 * d))

-- `round2(x * y)`: the product of two counts of units is a count of units of units.
unfoldable pub round2_mul : ℤ → ℤ → ℤ
unfolding round2_ratio ◌*ℤ◌
round2_mul x y = round2_ratio (x *ℤ y) 100_000_000

-- A whole number of cents.
abbrev pub IsCents : ℤ → Type 0
IsCents x = (pos_part x % 1_000_000 ≡ 0) × (neg_part x % 1_000_000 ≡ 0)

pub of_cents-IsCents : (k : ℤ) → IsCents (of_cents k)
of_cents-IsCents (pos n) = omega arith
of_cents-IsCents (negsuc n) = omega arith

pub round2-IsCents : (x : ℤ) → IsCents (round2 x)
unfolding round2
round2-IsCents x = of_cents-IsCents (floor_div (x +ℤ pos 500_000) 1_000_000)

pub round2_ratio-IsCents : (x : ℤ) (d : ℕ) → IsCents (round2_ratio x d)
unfolding round2_ratio
round2_ratio-IsCents x d =
    of_cents-IsCents (floor_div (x +ℤ x +ℤ pos (1_000_000 * d)) (2_000_000 * d))

pub round2_mul-IsCents : (x y : ℤ) → IsCents (round2_mul x y)
unfolding round2_mul
round2_mul-IsCents x y = round2_ratio-IsCents (x *ℤ y) 100_000_000

-- Rounding leaves whole cents alone.
pub round2_fix : (x : ℤ) → IsCents x → round2 x ≡ x
unfolding round2
round2_fix (pos n) h = ground arith
round2_fix (negsuc n) h = ground arith

pub +ℤ-IsCents : (a b : ℤ) → IsCents a → IsCents b → IsCents (a +ℤ b)
unfolding ◌+ℤ◌
+ℤ-IsCents a b h k = ground arith

pub -ℤ-IsCents : (a b : ℤ) → IsCents a → IsCents b → IsCents (a -ℤ b)
unfolding ◌-ℤ◌
-ℤ-IsCents a b h k = ground arith

round2_close : (x : ℤ) → (round2 x ≤ℤ x +ℤ pos 500_000) × (x <ℤ round2 x +ℤ pos 500_000)
unfolding round2
round2_close x = ground arith

-- `round2` gives a whole number of cents, the nearest one: it is at most half a cent above its
-- argument and less than half a cent below it, so a tie goes upwards.
pub round2_near :
    (x : ℤ) → IsCents (round2 x) × (round2 x ≤ℤ x +ℤ pos 500_000) × (x <ℤ round2 x +ℤ pos 500_000)
round2_near x = let close = round2_close x in (round2-IsCents x, close.0, close.1)

near_below : (n d : ℕ) → (d + d) * (1_000_000 * (n / (2_000_000 * d))) ≤ n
near_below n d = omega (arith, div_any n (2_000_000 * d))

near_above : (n d : ℕ) → 0 < d → n < (d + d) * (1_000_000 * (n / (2_000_000 * d)) + 1_000_000)
near_above n d h =
    omega (arith, div_any n (2_000_000 * d), mod-lt n {m = 2_000_000 * d} (omega arith))

quotient_near :
    (y : ℤ) (d : ℕ)
    → 0 < d
    → (pos (d + d) *ℤ of_cents (floor_div y (2_000_000 * d)) ≤ℤ y)
      × (y <ℤ pos (d + d) *ℤ of_cents (floor_div y (2_000_000 * d)) +ℤ pos (2_000_000 * d))
unfolding floor_div ◌*ℤ◌ ◌+ℤ◌
quotient_near (pos n) d h = ground (arith, near_below n d, near_above n d h)
quotient_near (negsuc n) d h = ground (arith, near_below n d, near_above n d h)

halve :
    (x z : ℤ) (d : ℕ)
    → x +ℤ x +ℤ pos (1_000_000 * d) <ℤ z +ℤ pos (2_000_000 * d)
    → x +ℤ x <ℤ z +ℤ pos (1_000_000 * d)
unfolding ◌+ℤ◌
halve x z d h = ground arith

-- The quotient `x / d` times `d` is `x`, up to half a cent for each unit of `d`.
pub round2_ratio_near :
    (x : ℤ) (d : ℕ)
    → 0 < d
    → (pos (d + d) *ℤ round2_ratio x d ≤ℤ x +ℤ x +ℤ pos (1_000_000 * d))
      × (x +ℤ x <ℤ pos (d + d) *ℤ round2_ratio x d +ℤ pos (1_000_000 * d))
unfolding round2_ratio
round2_ratio_near x d h =
    let near = quotient_near (x +ℤ x +ℤ pos (1_000_000 * d)) d h in (near.0, halve x _ d near.1)

pub of_cents_nonneg : (k : ℤ) → pos 0 ≤ℤ k → pos 0 ≤ℤ of_cents k
of_cents_nonneg (pos n) h = omega arith
of_cents_nonneg (negsuc n) h = absurd (omega arith)

pub round2_nonneg : (x : ℤ) → pos 0 ≤ℤ x → pos 0 ≤ℤ round2 x
unfolding round2
round2_nonneg (pos n) h = ground arith
round2_nonneg (negsuc n) h = absurd (omega arith)

pub round2_ratio_nonneg : (x : ℤ) (d : ℕ) → pos 0 ≤ℤ x → pos 0 ≤ℤ round2_ratio x d
unfolding round2_ratio
round2_ratio_nonneg (pos n) d h = ground arith
round2_ratio_nonneg (negsuc n) d h = absurd (omega arith)

pub round2_mul_nonneg : (x y : ℤ) → pos 0 ≤ℤ x → pos 0 ≤ℤ y → pos 0 ≤ℤ round2_mul x y
unfolding round2_mul
round2_mul_nonneg (pos x) (pos y) h k =
    round2_ratio_nonneg (pos x *ℤ pos y) 100_000_000 (unfold ◌*ℤ◌ in ground arith)
round2_mul_nonneg (pos x) (negsuc y) h k = absurd (omega arith)
round2_mul_nonneg (negsuc x) y h k = absurd (omega arith)

pub round2_mul_zero : (y : ℤ) → round2_mul (pos 0) y ≡ pos 0
unfolding round2_mul
round2_mul_zero (pos y) = ground arith
round2_mul_zero (negsuc y) = ground arith

-- A sum of whole cents is exact.
pub round2-add : (a b : ℤ) → IsCents a → IsCents b → round2 (a +ℤ b) ≡ a +ℤ b
round2-add a b h k = round2_fix (a +ℤ b) (+ℤ-IsCents a b h k)

pub round2-sub : (a b : ℤ) → IsCents a → IsCents b → round2 (a -ℤ b) ≡ a -ℤ b
round2-sub a b h k = round2_fix (a -ℤ b) (-ℤ-IsCents a b h k)

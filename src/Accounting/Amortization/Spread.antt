-- ===== src/Accounting/Amortization/Spread.antt =====
-- A prepaid amount is spread over its months to the cent.
use ume_pms_v2_backend.Prelude.{
  ℕ, zero, suc, ◌+◌, ◌-◌, ◌*◌, ◌≡◌, refl, true, false, Option, none, some, List, [], ◌∷◌, map, Text,
  ℤ, pos, pos_part, neg_part, ◌+ℤ◌, ◌-ℤ◌, ◌*ℤ◌, leb_ℤ, ltb_ℤ, round2, IsCents, round2-IsCents,
  round2_ratio-IsCents, +ℤ-IsCents, round2-sub, ok, length, All, ap, ◌∙◌, sub_ℕ, Bool-cases, inl,
  inr, arith, int_laws, ◌==◌,
}
use ume_pms_v2_backend.Accounting.Months.{last_day_of_month, last_day, is_month, read_month}
use ume_pms_v2_backend.Accounting.Amortization.{
  AmortizationMonth, instalment, spread_over, spread_amount,
}

abbrev pub sum_months : List AmortizationMonth → ℤ
sum_months [] = pos 0
sum_months (x ∷ xs) = x.amount +ℤ sum_months xs

mul_suc : (n k : ℕ) → n * suc k ≡ n + n * k
mul_suc n k = omega arith

sub_ℕ_parts : (x y : ℕ) → pos_part (sub_ℕ x y) + y ≡ neg_part (sub_ℕ x y) + x
sub_ℕ_parts x y = ground arith

times_parts :
    (a : ℤ) (k : ℕ)
    → pos_part (a *ℤ pos k) + neg_part a * k ≡ neg_part (a *ℤ pos k) + pos_part a * k
unfolding ◌*ℤ◌
times_parts a k =
    let h = sub_ℕ_parts (pos_part a * k + neg_part a * 0) (pos_part a * 0 + neg_part a * k) in
    omega (arith, h)

times-suc : (a : ℤ) (k : ℕ) → a *ℤ pos (suc k) ≡ a +ℤ a *ℤ pos k
times-suc a k = omega (
  int_laws,
  times_parts a k,
  times_parts a (suc k),
  mul_suc (pos_part a) k,
  mul_suc (neg_part a) k,
)

times-zero : (a : ℤ) → a *ℤ pos 0 ≡ pos 0
times-zero a = omega (int_laws, times_parts a 0)

times-IsCents : (a : ℤ) (k : ℕ) → IsCents a → IsCents (a *ℤ pos k)
times-IsCents a zero h = rw (times-zero a) (refl, refl)
times-IsCents a (suc k) h = rw (times-suc a k) (+ℤ-IsCents a (a *ℤ pos k) h (times-IsCents a k h))

pub instalment-IsCents :
    (fixed : Option ℤ) (amount : ℤ) (n : ℕ) → IsCents (instalment fixed amount n)
instalment-IsCents none amount n = round2_ratio-IsCents amount n
instalment-IsCents (some fixed) amount n = elim (Bool-cases (ltb_ℤ (pos 0) fixed)) [
  | inl e ↦ rw e (round2-IsCents fixed)
  | inr e ↦ rw e (round2_ratio-IsCents amount n)
]

last_day-ok :
    (month : Text) → is_month month ≡ true → (date : Text) × (last_day_of_month month ≡ ok date)
unfolding last_day_of_month
last_day-ok month h = (last_day (read_month month).0 (read_month month).1, rw h refl)

-- The months of the spread, in order, and what they add up to.
record IsSpreadOver (per rest : ℤ) (n : ℕ) (months : List Text) (xs : List AmortizationMonth)
    : Type 0 where
  in_order : map (λ (x : AmortizationMonth). x.month) xs ≡ months
  sum : sum_months xs ≡ rest +ℤ per *ℤ pos n
  cents : All (λ (x : AmortizationMonth). IsCents x.amount) xs

spread_over-ok :
    (per rest : ℤ) (month : Text) (months : List Text)
    → IsCents per
    → IsCents rest
    → All (λ t. is_month t ≡ true) (month ∷ months)
    → (xs : List AmortizationMonth) × (spread_over per rest (month ∷ months) ≡ ok xs)
      × IsSpreadOver per rest (length months) (month ∷ months) xs
unfolding spread_over
spread_over-ok per rest month [] p r h =
    let d = last_day-ok month h.0 in
    (
      record { month = month; accounting_date = d.0; amount = rest } ∷ [],
      rw d.1 refl,
      record { in_order = refl; sum = rw (times-zero per) refl; cents = (r, tt) },
    )
spread_over-ok per rest month (next ∷ months) p r h =
    let d = last_day-ok month h.0 in
    let others = spread_over-ok per rest next months p r h.1 in
    (
      record { month = month; accounting_date = d.0; amount = per } ∷ others.0,
      rw (d.1, others.1) refl,
      record {
        in_order = ap (◌∷◌ month) others.2.in_order;
        sum = rw (others.2.sum, times-suc per (length months)) (omega int_laws);
        cents = (p, others.2.cents);
      },
    )

pub record IsSpread (amount : ℤ) (months : List Text) (xs : List AmortizationMonth) : Type 0 where
  pub in_order : map (λ (x : AmortizationMonth). x.month) xs ≡ months
  pub sum : sum_months xs ≡ amount
  pub cents : All (λ (x : AmortizationMonth). IsCents x.amount) xs

refill : (a b : ℤ) → (a -ℤ b) +ℤ b ≡ a
refill a b = omega int_laws

-- A positive amount is spread over any list of months that is not empty: one share for each month, in
-- order, each in whole cents, and together exactly the amount, whatever the fixed instalment is.
pub spread_amount-IsSpread :
    (total : ℤ) (month : Text) (months : List Text) (fixed : Option ℤ)
    → leb_ℤ (round2 total) (pos 0) ≡ false
    → All (λ t. is_month t ≡ true) (month ∷ months)
    → (xs : List AmortizationMonth) × (spread_amount total (month ∷ months) fixed ≡ ok xs)
      × IsSpread (round2 total) (month ∷ months) xs
unfolding spread_amount
spread_amount-IsSpread total month months fixed positive valid =
    let amount : ℤ = round2 total in
    let per : ℤ = instalment fixed amount (suc (length months)) in
    let c = instalment-IsCents fixed amount (suc (length months)) in
    let paid : ℤ = per *ℤ pos (length months) in
    let whole = times-IsCents per (length months) c in
    let rest : ℤ = round2 (amount -ℤ paid) in
    let s = spread_over-ok per rest month months c (round2-IsCents (amount -ℤ paid)) valid in
    let some_months : (suc (length months) == 0) ≡ false = ground arith in
    let count : suc (length months) - 1 ≡ length months = omega arith in
    (
      s.0,
      rw (positive, some_months, count) s.1,
      record {
        in_order = s.2.in_order;
        sum =
            s.2.sum ∙ rw (round2-sub amount paid (round2-IsCents total) whole) (refill amount paid);
        cents = s.2.cents;
      },
    )

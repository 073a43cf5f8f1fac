-- ===== src/Accounting/Tests/Schedules.antt =====
-- Amortization and depreciation at small schedules.
use ume_pms_v2_backend.Prelude.{
  ℕ, ◌≡◌, ◌↔◌, refl, Option, some, none, List, [], ◌∷◌, Text, codes, pos, cents, Result, ok, err,
  text_lt, text_eq, digits_onto, decimal, pad_zeros, replicate, round2, round2_ratio, floor_div,
  ◌+ℤ◌, ◌-ℤ◌, ◌*ℤ◌, trim, trim_start, lookup, insert, if◌then◌else◌, leb, ◌<ℤ◌, ◌≤ℤ◌, sort_by,
  insert_by,
}
use ume_pms_v2_backend.Accounting.Months.{
  ScheduleError, range_too_long, is_month, read_month, print_month, days_in_month, last_day,
  last_day_of_month, months_loop, months_between, last_completed_month,
}
use ume_pms_v2_backend.Accounting.Months.Range.{months_from, span, months_between-lem}
use ume_pms_v2_backend.Accounting.Amortization.{
  AmortizationMonth, spread_over, spread_amount, PrepaidSchedule, AmortizationLine, month_share,
  shares, group_lines, sum_prepaid, reduce_lines, debit_of, MonthlyAmortization, reduce_debits,
  plan_lines, plan_some, plan_month, amortization_months_due,
}
use ume_pms_v2_backend.Accounting.Amortization.Spread.{IsSpread, spread_amount-IsSpread}
use ume_pms_v2_backend.Accounting.Amortization.Plan.{IsPlanned, plan_month-IsPlanned}
use ume_pms_v2_backend.Accounting.Depreciation.{
  DepreciationMonth, from_hex, to_hex, stamp, with_dashes, deterministic_uuid, charge_months,
  plan_depreciation, assert_within_carrying_amount,
}
use ume_pms_v2_backend.Accounting.Depreciation.Bounds.{
  assert_within_carrying_amount_iff, IsCharged, plan_depreciation-IsCharged,
}

-- The end of February in a leap year and in a common one.
leap_day : last_day_of_month (codes "2024-02") ≡ ok (codes "2024-02-29")
unfolding last_day_of_month is_month read_month last_day days_in_month pad_zeros replicate decimal
    digits_onto
leap_day = refl

common_day : last_day_of_month (codes "2023-02") ≡ ok (codes "2023-02-28")
unfolding last_day_of_month is_month read_month last_day days_in_month pad_zeros replicate decimal
    digits_onto
common_day = refl

-- January comes after December, and the month before January is the December before.
over_new_year :
    months_between (codes "2024-12") (codes "2025-01") ≡ ok (codes "2024-12" ∷ codes "2025-01" ∷ [])
unfolding months_between months_loop is_month read_month print_month text_lt pad_zeros replicate
    decimal digits_onto
over_new_year = refl

before_january : last_completed_month (2025, 1) ≡ codes "2024-12"
unfolding last_completed_month decimal digits_onto
before_january = refl

months_between-lem_example : months_between (codes "2024-11") (codes "2025-02") ≡ (
    if leb (span (codes "2024-11") (codes "2025-02")) 240
    then ok (months_from (span (codes "2024-11") (codes "2025-02")) (read_month (codes "2024-11")))
    else err range_too_long)
unfolding is_month text_lt
months_between-lem_example = months_between-lem (codes "2024-11") (codes "2025-02") refl refl refl

-- 100.00 over three months: 33.33, 33.33 and 33.34.
abbrev quarter : List Text
quarter = codes "2025-01" ∷ codes "2025-02" ∷ codes "2025-03" ∷ []

spread_amount-IsSpread_example :
    (xs : List AmortizationMonth) × (spread_amount (cents 10_000) quarter none ≡ ok xs)
    × IsSpread (round2 (cents 10_000)) quarter xs
unfolding is_month round2 floor_div ◌+ℤ◌
spread_amount-IsSpread_example =
    spread_amount-IsSpread (cents 10_000) (codes "2025-01") (codes "2025-02" ∷ codes "2025-03" ∷ [])
      none refl (refl, (refl, (refl, tt)))

abbrev contract : ℕ → ℕ → ℕ → PrepaidSchedule
contract id expense_account prepaid_account = record {
  id = id;
  description = some (codes "cover");
  source_reference = none;
  total_amount = cents 10_000;
  start_month = codes "2025-01";
  end_month = codes "2025-03";
  expense_account_id = expense_account;
  prepaid_account_id = prepaid_account;
  vessel_id = some 7;
  customer_id = none;
  monthly_amount = none;
}

abbrev contracts : List PrepaidSchedule
contracts = contract 1 50 14 ∷ contract 2 51 14 ∷ contract 3 50 15 ∷ []

abbrev identifier : Text → Result ScheduleError Text
identifier name = ok name

abbrev plan_or :
    MonthlyAmortization → Result ScheduleError (Option MonthlyAmortization) → MonthlyAmortization
plan_or d (ok (some p)) = p
plan_or d (ok none) = d
plan_or d (err e) = d

abbrev no_plan : MonthlyAmortization
no_plan = record {
  month = [];
  accounting_date = [];
  source_id = [];
  source_reference = [];
  debits = [];
  credits = [];
  total = pos 0;
}

abbrev march : MonthlyAmortization
march = plan_or no_plan (plan_month identifier (codes "e1") (codes "2025-03") contracts)

march_planned : plan_month identifier (codes "e1") (codes "2025-03") contracts ≡ ok (some march)
unfolding plan_month plan_some plan_lines shares month_share spread_amount spread_over
    months_between months_loop is_month read_month print_month last_day_of_month last_day
    days_in_month text_lt text_eq pad_zeros replicate decimal digits_onto trim trim_start lookup
    insert group_lines sum_prepaid reduce_lines debit_of reduce_debits round2 round2_ratio floor_div
    ◌+ℤ◌ ◌-ℤ◌ ◌*ℤ◌
march_planned = refl

march_total : march.total ≡ cents 10_002
unfolding plan_month plan_some plan_lines shares month_share spread_amount spread_over
    months_between months_loop is_month read_month print_month last_day_of_month last_day
    days_in_month text_lt text_eq pad_zeros replicate decimal digits_onto trim trim_start lookup
    insert group_lines sum_prepaid reduce_lines debit_of reduce_debits round2 round2_ratio floor_div
    ◌+ℤ◌ ◌-ℤ◌ ◌*ℤ◌
march_total = refl

plan_month-IsPlanned_example :
    (lines : List AmortizationLine) × (shares (codes "2025-03") contracts ≡ ok lines)
    × IsPlanned lines march
plan_month-IsPlanned_example =
    plan_month-IsPlanned identifier (codes "e1") (codes "2025-03") contracts march_planned

-- What is still due in April when February is posted.
still_due :
    amortization_months_due contracts (2025, 4) (codes "2025-02" ∷ [])
    ≡ ok (codes "2025-01" ∷ codes "2025-03" ∷ [])
unfolding amortization_months_due sort_by insert_by months_between months_loop is_month read_month
    print_month last_completed_month text_lt text_eq pad_zeros replicate decimal digits_onto
still_due = refl

abbrev some_digest : List ℕ → Text → List ℕ
some_digest ns name =
    1 ∷ 2 ∷ 3 ∷ 4 ∷ 5 ∷ 6 ∷ 255 ∷ 8 ∷ 255 ∷ 10 ∷ 11 ∷ 12 ∷ 13 ∷ 14 ∷ 15 ∷ 16 ∷ 17 ∷ []

abbrev namespace : Text
namespace = codes "6ba7b810-9dad-11d1-80b4-00c04fd430c8"

-- The version 5 and the variant are stamped over the digest.
stamped_uuid :
    deterministic_uuid some_digest namespace (codes "x")
    ≡ ok (codes "01020304-0506-5f08-bf0a-0b0c0d0e0f10")
unfolding deterministic_uuid from_hex to_hex stamp with_dashes
stamped_uuid = refl

abbrev charges_or : Result ScheduleError (List DepreciationMonth) → List DepreciationMonth
charges_or (ok xs) = xs
charges_or (err e) = []

abbrev two_charges : List DepreciationMonth
two_charges = charges_or (
    plan_depreciation some_digest (codes "v1") (codes "2024-12") (codes "2025-01") (pos 100_400_000)
      namespace)

two_charges_planned :
    plan_depreciation some_digest
      (codes "v1")
      (codes "2024-12")
      (codes "2025-01")
      (pos 100_400_000)
      namespace
    ≡ ok two_charges
unfolding plan_depreciation charge_months deterministic_uuid from_hex to_hex stamp with_dashes
    months_between months_loop is_month read_month print_month last_day_of_month last_day
    days_in_month text_lt pad_zeros replicate decimal digits_onto round2 floor_div ◌+ℤ◌
two_charges_planned = refl

plan_depreciation-IsCharged_example :
    (months : List Text) × (months_between (codes "2024-12") (codes "2025-01") ≡ ok months)
    × IsCharged (round2 (pos 100_400_000)) months two_charges
plan_depreciation-IsCharged_example =
    plan_depreciation-IsCharged some_digest (codes "v1") namespace (codes "2024-12")
      (codes "2025-01") (pos 100_400_000) two_charges_planned

assert_within_carrying_amount_iff_example :
    (assert_within_carrying_amount (cents 10_000) (cents 9_000) (pos 1_000_400_000) ≡ ok tt)
    ↔ ((cents 9_000 <ℤ cents 10_000) × (cents 9_000 +ℤ round2 (pos 1_000_400_000) ≤ℤ cents 10_000))
assert_within_carrying_amount_iff_example =
    assert_within_carrying_amount_iff (cents 10_000) (cents 9_000) (pos 1_000_400_000) (refl, refl)
      (refl, refl)

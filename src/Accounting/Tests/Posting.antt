-- ===== src/Accounting/Tests/Posting.antt =====
-- The engine of src/modules/accounting/accounting-posting.ts run on lines, periods and dates, and its
-- theorems applied there.
use ume_pms_v2_backend.Accounting.Posting.Types.{
  revenue, expense, manual, posted, draft, value, absent, at_line, fx_missing,
}
use ume_pms_v2_backend.Accounting.Posting.Periods.Guards.{
  assert_opening_balance_accounts_iff, IsDeclared, resolve_backdating-IsDeclared,
}
use ume_pms_v2_backend.Accounting.Posting.Lines.Amounts.{IsPrepared}
use ume_pms_v2_backend.Accounting.Posting.Reversal.{
  net_eur, net, build_reversal_lines-SatisfiesChecks, build_reversal_lines-sums,
  build_reversal_lines, build_reversal_lines-cancels,
}
use ume_pms_v2_backend.Accounting.Posting.EntryNo.{
  is_entry_prefix, all_prefix_chars, format_entry_no, seq_of, seq_of-format_entry_no,
}
use ume_pms_v2_backend.Accounting.Posting.Periods.Selection.{IsSelected, select_period-IsSelected}
use ume_pms_v2_backend.Accounting.Posting.Lines.{
  prepare_from, line_of, foreign_fx, resolve_fx, check_eur, restricted, prepare_lines,
  assert_iso_date, check_sides, assert_balanced, check_amounts, prepare_line, check_account,
  resolve_foreign,
}
use ume_pms_v2_backend.Accounting.Posting.Transitions.{
  money_equals_cents, assert_can_post, assert_can_edit_draft, money_equals, assert_can_reverse,
  transitions_exclusive,
}
use ume_pms_v2_backend.Accounting.Posting.CurrencyTotals.{
  totals_by_currency, totals_by_currency_sums, sum_in, no_sides,
}
use ume_pms_v2_backend.Accounting.Posting.Periods.{
  select_period, resolve_backdating, Backdating, type_of, assert_opening_balance_accounts,
}
use ume_pms_v2_backend.Accounting.Posting.Constraints.{SatisfiesChecks, HasRateSources}
use ume_pms_v2_backend.Accounting.Posting.Lines.Legal.{prepare_line-SatisfiesChecks}
use ume_pms_v2_backend.Accounting.Posting.Lines.Totals.{
  sum_debit_eur, sum_credit_eur, assert_balanced_iff,
}
use ume_pms_v2_backend.Accounting.Posting.Types.{PreparedLine, PreparedEntry, PostingError}
use ume_pms_v2_backend.Prelude.{
  text_eq, Bool-cases, inl, inr, some-injective, sym, ◌==◌, sort_by, pad_zeros, decimal, round2,
  trim_start, insert_by, to_upper, trim, ◌-ℤ◌, ◌+ℤ◌, floor_div, digits_onto, ◌*ℤ◌, round2_mul,
  replicate, text_lt, round2_ratio, is_iso_date, is_currency_code, ℕ, Option, ◌≡◌, ◌≢◌, ◌↔◌, refl,
  true, none, some, [], ◌∷◌, codes, pos, Result, ok, err, All, or_else, lookup, text_eq_inst,
}
use ume_pms_v2_backend.Accounting.Tests.{
  three_lines, context, expense_line, dollar_line, line, opening, january, february,
}

abbrev entry_or_none : Result PostingError PreparedEntry → PreparedEntry
entry_or_none (ok p) = p
entry_or_none (err e) = record { lines = []; total_debit_eur = pos 0; total_credit_eur = pos 0 }

abbrev prepared : PreparedEntry
prepared = entry_or_none (prepare_lines three_lines context)

-- 91.00 euro: the dollar lines at 0.91, and 36.40 euro.
prepared_ok : prepare_lines three_lines context ≡ ok prepared
unfolding prepare_lines prepare_from prepare_line check_amounts check_sides check_account restricted
    resolve_fx resolve_foreign foreign_fx check_eur line_of is_currency_code assert_iso_date
    is_iso_date text_lt text_eq to_upper round2 round2_mul round2_ratio floor_div ◌+ℤ◌ ◌-ℤ◌ ◌*ℤ◌
    trim trim_start
prepared_ok = refl

prepared_total : prepared.total_debit_eur ≡ pos 9_100_000_000
unfolding prepare_lines prepare_from prepare_line check_amounts check_sides check_account restricted
    resolve_fx resolve_foreign foreign_fx check_eur line_of is_currency_code assert_iso_date
    is_iso_date text_lt text_eq to_upper round2 round2_mul round2_ratio floor_div ◌+ℤ◌ ◌-ℤ◌ ◌*ℤ◌
    trim trim_start
prepared_total = refl

-- A foreign line without a rate is refused with its number.
prepare_lines_refuses :
    prepare_lines
      (expense_line ∷ line 20 absent (value (pos 1_000_000)) (codes "USD") none ∷ [])
      context
    ≡ err (at_line 2 fx_missing)
unfolding prepare_lines prepare_from prepare_line check_amounts check_sides check_account restricted
    resolve_fx resolve_foreign foreign_fx check_eur line_of is_currency_code assert_iso_date
    is_iso_date text_lt text_eq to_upper round2 round2_mul round2_ratio floor_div ◌+ℤ◌ ◌-ℤ◌ ◌*ℤ◌
    trim trim_start
prepare_lines_refuses = refl

abbrev dollar_prepared : PreparedLine
dollar_prepared = record {
  line_no = 2;
  account_id = 20;
  debit = pos 0;
  credit = pos 6_000_000_000;
  transaction_currency = codes "USD";
  fx_rate = pos 91_000_000;
  fx_date = codes "2025-01-31";
  fx_source = codes "ECB";
  fx_rate_id = some 7;
  debit_eur = pos 0;
  credit_eur = pos 5_460_000_000;
  vessel_id = none;
  supplier_id = none;
  customer_id = none;
  cost_center_id = none;
  description = none;
}

dollar_ok : prepare_line context 1 dollar_line ≡ ok dollar_prepared
unfolding prepare_lines prepare_from prepare_line check_amounts check_sides check_account restricted
    resolve_fx resolve_foreign foreign_fx check_eur line_of is_currency_code assert_iso_date
    is_iso_date text_lt text_eq to_upper round2 round2_mul round2_ratio floor_div ◌+ℤ◌ ◌-ℤ◌ ◌*ℤ◌
    trim trim_start
dollar_ok = refl

rates-HasRateSources : HasRateSources context.fx_rates
unfolding text_eq
rates-HasRateSources id row e = elim (Bool-cases (id == 7)) [
  | inl f ↦ rw (sym (some-injective _ _ (rw f at e))) refl
  | inr f ↦ cc (rw f at e)
]

assert_balanced_iff_example :
    (assert_balanced prepared ≡ ok tt)
    ↔ (sum_debit_eur prepared.lines ≡ sum_credit_eur prepared.lines)
assert_balanced_iff_example = assert_balanced_iff three_lines context prepared_ok

prepare_line-SatisfiesChecks_example :
    IsPrepared context 1 dollar_line dollar_prepared × SatisfiesChecks dollar_prepared
prepare_line-SatisfiesChecks_example =
    prepare_line-SatisfiesChecks context 1 dollar_line rates-HasRateSources dollar_ok

dollar-SatisfiesChecks : All SatisfiesChecks (dollar_prepared ∷ [])
dollar-SatisfiesChecks =
    ((prepare_line-SatisfiesChecks context 1 dollar_line rates-HasRateSources dollar_ok).1, tt)

build_reversal_lines-SatisfiesChecks_example :
    All SatisfiesChecks (build_reversal_lines (dollar_prepared ∷ []))
build_reversal_lines-SatisfiesChecks_example =
    build_reversal_lines-SatisfiesChecks (dollar_prepared ∷ []) dollar-SatisfiesChecks

build_reversal_lines-sums_example :
    (sum_debit_eur (build_reversal_lines prepared.lines) ≡ sum_credit_eur prepared.lines)
    × (sum_credit_eur (build_reversal_lines prepared.lines) ≡ sum_debit_eur prepared.lines)
build_reversal_lines-sums_example = build_reversal_lines-sums prepared.lines

build_reversal_lines-cancels_example :
    (net 20 (codes "USD") prepared.lines
        +ℤ net 20 (codes "USD") (build_reversal_lines prepared.lines)
      ≡ pos 0)
    × (net_eur 20 (codes "USD") prepared.lines
          +ℤ net_eur 20 (codes "USD") (build_reversal_lines prepared.lines)
        ≡ pos 0)
build_reversal_lines-cancels_example = build_reversal_lines-cancels 20 (codes "USD") prepared.lines

-- Of two operational periods the first, and not the one of the opening balance.
select_january : select_period manual (february ∷ opening ∷ january ∷ []) ≡ ok january
unfolding select_period sort_by insert_by
select_january = refl

select_period-IsSelected_example : IsSelected manual (february ∷ opening ∷ january ∷ []) january
select_period-IsSelected_example =
    select_period-IsSelected manual (february ∷ opening ∷ january ∷ []) select_january

abbrev late : Backdating
late = record { is_backdated = true; backdated_reason = some (codes "late bill") }

late_ok :
    resolve_backdating (codes "2025-02-10") (codes "2025-02-12") (some (codes " late bill "))
    ≡ ok late
unfolding resolve_backdating assert_iso_date is_iso_date text_lt trim trim_start
late_ok = refl

resolve_backdating-IsDeclared_example :
    IsDeclared (codes "2025-02-10") (codes "2025-02-12") (some (codes " late bill ")) late
resolve_backdating-IsDeclared_example =
    resolve_backdating-IsDeclared (codes "2025-02-10") (codes "2025-02-12")
      (some (codes " late bill ")) late_ok

assert_opening_balance_accounts_iff_example :
    (assert_opening_balance_accounts prepared.lines context.accounts ≡ ok tt)
    ↔ All
        (λ l.
          (type_of (context.accounts l.account_id) ≢ revenue)
          × (type_of (context.accounts l.account_id) ≢ expense))
        prepared.lines
assert_opening_balance_accounts_iff_example =
    assert_opening_balance_accounts_iff prepared.lines context.accounts

abbrev reverser : Option ℕ
reverser = some 2

transitions_exclusive_example :
    ((assert_can_edit_draft posted ≡ ok tt) ↔ (assert_can_post posted ≡ ok tt))
    × ((assert_can_post posted ≡ ok tt) ↔ (posted ≡ draft))
    × ((assert_can_reverse posted reverser ≡ ok tt) ↔ (posted ≡ posted) × (reverser ≡ none))
transitions_exclusive_example = transitions_exclusive posted reverser

three_cents_agree : money_equals (pos 3_000_000) (pos 3_000_000) ≡ true
unfolding money_equals ◌-ℤ◌
three_cents_agree = refl

same_three_cents : pos 3_000_000 ≡ pos 3_000_000
same_three_cents =
    money_equals_cents (pos 3_000_000) (pos 3_000_000) (refl, refl) (refl, refl) three_cents_agree

number_7 : format_entry_no (codes "GJ-FI") 2025 7 ≡ ok (codes "GJ-FI-2025-00007")
unfolding format_entry_no is_entry_prefix all_prefix_chars pad_zeros replicate decimal digits_onto
number_7 = refl

-- Six digits are not cut to five.
number_100000 : format_entry_no (codes "GJ") 2025 100_000 ≡ ok (codes "GJ-2025-100000")
unfolding format_entry_no is_entry_prefix all_prefix_chars pad_zeros replicate decimal digits_onto
number_100000 = refl

seq_of-format_entry_no_example : seq_of (codes "GJ-FI-2025-00007") ≡ 7
seq_of-format_entry_no_example = seq_of-format_entry_no (codes "GJ-FI") 2025 7 number_7

totals_by_currency_sums_example :
    or_else (lookup (codes "USD") (totals_by_currency (dollar_prepared ∷ []))) no_sides
    ≡ sum_in (codes "USD") no_sides (dollar_prepared ∷ [])
totals_by_currency_sums_example =
    totals_by_currency_sums (codes "USD") (dollar_prepared ∷ []) (((refl, refl), (refl, refl)), tt)

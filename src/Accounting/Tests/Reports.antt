-- ===== src/Accounting/Tests/Reports.antt =====
-- The reports at small books.
use ume_pms_v2_backend.Prelude.{
  Bool, ◌==◌, ap, ◌∙◌, some-injective, ◌≢◌, if◌then◌else◌, ℕ, ◌≡◌, refl, true, false, Option, some,
  none, List, [], ◌∷◌, codes, Text, err, pos, cents, ok, All, eqb_ℤ, ◌-ℤ◌, ◌+ℤ◌, round2, floor_div,
  text_eq, lookup, insert, text_lt, is_iso_date, id_eq,
}
use ume_pms_v2_backend.Accounting.Posting.Types.{
  PreparedLine, asset, liability, revenue, expense, unknown,
}
use ume_pms_v2_backend.Accounting.Ledger.History.Sound.{IsSound}
use ume_pms_v2_backend.Accounting.Ledger.History.Balanced.{Reach-IsSound}
use ume_pms_v2_backend.Accounting.Reports.Query.{cast_bound, AccountRow, is_selected, ledger_rows}
use ume_pms_v2_backend.Accounting.Reports.Query.Sums.{row_total}
use ume_pms_v2_backend.Accounting.Reports.Query.Rows.{HasAccounts, AreClassified, debit_part}
use ume_pms_v2_backend.Accounting.Reports.TrialBalance.{TrialBalance, not_a_date, trial_balance}
use ume_pms_v2_backend.Accounting.Reports.TrialBalance.Balanced.{trial_balance-IsBalanced}
use ume_pms_v2_backend.Accounting.Reports.Service.{Statements, statements}
use ume_pms_v2_backend.Accounting.Reports.Service.Balanced.{statements-IsBalanced}
use ume_pms_v2_backend.Accounting.Reports.Statements.{
  AccountBalance, build_income_statement, build_balance_sheet, expense_sections, lines_of, line_of,
  sum_lines, reduce_amounts, reduce_totals, pick, group_of, index_groups,
}
use ume_pms_v2_backend.Accounting.Reports.Statements.Sums.{HasCentSides}
use ume_pms_v2_backend.Accounting.Reports.Statements.Balance.{
  IsClassified, sum_debits, sum_credits, balance_sheet-lem,
}
use ume_pms_v2_backend.Accounting.Tests.Ledger.{
  with_reversed, life, empty_book-IsSound, with_reversed-IsKeyed,
}

-- A ship that earned 1,000.00, spent 300.00 on itself, 50.00 on the office and 25.00 unclassified.
abbrev small_book : List AccountBalance
small_book =
    record {
      code = codes "1000";
      name = codes "bank";
      account_type = asset;
      account_group = none;
      debit_eur = cents 100_000;
      credit_eur = cents 37_500;
    }
    ∷ record {
      code = codes "4000";
      name = codes "hire";
      account_type = revenue;
      account_group = none;
      debit_eur = pos 0;
      credit_eur = cents 100_000;
    }
    ∷ record {
      code = codes "5000";
      name = codes "spares";
      account_type = expense;
      account_group = some (codes "VESSEL_OPEX");
      debit_eur = cents 30_000;
      credit_eur = pos 0;
    }
    ∷ record {
      code = codes "6000";
      name = codes "rent";
      account_type = expense;
      account_group = some (codes "ADMIN");
      debit_eur = cents 5_000;
      credit_eur = pos 0;
    }
    ∷ record {
      code = codes "6900";
      name = codes "other";
      account_type = expense;
      account_group = none;
      debit_eur = cents 2_500;
      credit_eur = pos 0;
    }
    ∷ []

small_book-HasCentSides : All HasCentSides small_book
small_book-HasCentSides = (
  record { debit = (refl, refl); credit = (refl, refl) },
  (
    record { debit = (refl, refl); credit = (refl, refl) },
    (
      record { debit = (refl, refl); credit = (refl, refl) },
      (
        record { debit = (refl, refl); credit = (refl, refl) },
        (record { debit = (refl, refl); credit = (refl, refl) }, tt),
      ),
    ),
  ),
)

small_book-IsClassified : All IsClassified small_book
small_book-IsClassified = (λ e. cc, (λ e. cc, (λ e. cc, (λ e. cc, (λ e. cc, tt)))))

-- The result is 625.00.
small_result : (build_income_statement small_book).net_result ≡ cents 62_500
unfolding build_income_statement expense_sections lines_of line_of sum_lines reduce_amounts
    reduce_totals pick group_of index_groups round2 floor_div ◌+ℤ◌ ◌-ℤ◌ text_eq lookup insert
small_result = refl

balance_sheet-lem_example :
    let sheet = build_balance_sheet small_book (build_income_statement small_book).net_result in
    (sheet.difference ≡ sum_debits small_book -ℤ sum_credits small_book)
    × (sheet.is_balanced ≡ eqb_ℤ (sum_debits small_book) (sum_credits small_book))
balance_sheet-lem_example =
    balance_sheet-lem small_book small_book-HasCentSides small_book-IsClassified

-- One account for stores; all the others are of suppliers.
abbrev account_row : Bool → AccountRow
account_row is_stores = record {
  code = if is_stores then codes "1400" else codes "2100";
  name = codes "account";
  account_type = if is_stores then asset else liability;
  account_group = none;
  normal_balance = codes "debit";
}

abbrev account_rows : ℕ → Option AccountRow
account_rows id = some (account_row (id == 10))

account_rows-HasAccounts : (lines : ℕ → List PreparedLine) → HasAccounts account_rows lines
account_rows-HasAccounts lines id = each (lines id)
  where
    each : (ls : List PreparedLine) → All (λ (l : PreparedLine). true ≡ true) ls
    each [] = tt
    each (l ∷ ls) = (refl, each ls)

row-type : (b : Bool) → (account_row b).account_type ≢ unknown
row-type true h = cc
row-type false h = cc

account_rows-AreClassified : AreClassified account_rows
account_rows-AreClassified id a e unclassified =
    row-type (id == 10)
      (ap (λ (r : AccountRow). r.account_type) (some-injective _ _ e) ∙ unclassified)

with_reversed-IsSound : IsSound with_reversed
with_reversed-IsSound = Reach-IsSound life empty_book-IsSound

-- A day that the calendar does not have is no date.
abbrev date_of : Text → Option Text
date_of d = if text_eq d (codes "2025-02-31") then none else some d

february_end : cast_bound date_of (some (codes "2025-02-28")) ≡ some (some (codes "2025-02-28"))
unfolding text_eq
february_end = refl

no_such_day :
    trial_balance date_of account_rows (some 1) none (some (codes "2025-02-31")) with_reversed
    ≡ err not_a_date
unfolding trial_balance text_eq
no_such_day = refl

trial_balance-IsBalanced_example :
    (b : TrialBalance) × (trial_balance date_of account_rows
        (some 1)
        none
        (some (codes "2025-02-28"))
        with_reversed
      ≡ ok b)
    × (b.is_balanced ≡ true)
    × (b.total_debit_eur
        ≡ row_total debit_part (
            ledger_rows account_rows with_reversed.lines
              (is_selected 1 none (some (codes "2025-02-28")))
              with_reversed.entries))
    × (b.total_credit_eur ≡ b.total_debit_eur)
trial_balance-IsBalanced_example =
    trial_balance-IsBalanced date_of account_rows 1 none (some (codes "2025-02-28")) with_reversed
      refl february_end with_reversed-IsSound with_reversed-IsKeyed
      (account_rows-HasAccounts with_reversed.lines)

statements-IsBalanced_example :
    (r : Statements) × (statements date_of account_rows
        (λ id. none)
        (some 1)
        (codes "2025-01-01")
        (codes "2025-03-31")
        with_reversed
      ≡ ok r)
    × (r.balance_sheet.difference ≡ pos 0)
    × (r.balance_sheet.is_balanced ≡ true)
unfolding is_iso_date text_lt text_eq
statements-IsBalanced_example =
    statements-IsBalanced date_of account_rows (λ id. none) 1 (codes "2025-01-01")
      (codes "2025-03-31") with_reversed with_reversed-IsSound with_reversed-IsKeyed
      (account_rows-HasAccounts with_reversed.lines) account_rows-AreClassified refl refl refl refl
      refl

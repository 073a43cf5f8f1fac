-- ===== src/Accounting/Reports/Query.antt =====
-- The query that the trial balance and the statements share: the lines of the booked entries of an
-- entity in a window of dates, joined with their accounts, summed in groups and put in the order of
-- the accounts' codes (src/modules/accounting/accounting.service.ts and reports/reports.service.ts).
pub mod Sums
pub mod Rows
use ume_pms_v2_backend.Prelude.{
  ℕ, Bool, true, false, ◌&&◌, Option, none, some, List, [], ◌∷◌, ◌++◌, Text, text_eq, text_le, ℤ,
  pos, ◌+ℤ◌, ◌==◌, if◌then◌else◌, Eq, lookup, insert, or_else, sort_by,
}
use mathlib.Core.Option
use ume_pms_v2_backend.Accounting.Posting.Types.{AccountType, PreparedLine}
use ume_pms_v2_backend.Accounting.Ledger.Types.{JournalEntry, is_booked}

-- The columns of an account that the reports read.
pub record AccountRow : Type 0 where
  pub code : Text
  pub name : Text
  pub account_type : AccountType
  pub account_group : Option Text
  pub normal_balance : Text

-- A line with its account.
pub record LedgerRow : Type 0 where
  pub account_id : ℕ
  pub account : AccountRow
  pub debit_eur : ℤ
  pub credit_eur : ℤ

-- The casts `$2::date` and `$3::date` of the bounds of a window. `date_of` is the database's reading of
-- a text as a date in ISO form; `none` is a text that is no date of the calendar, where the query
-- raises an error.
abbrev pub cast_bound : (Text → Option Text) → Option Text → Option (Option Text)
cast_bound date_of none = some none
cast_bound date_of (some d) = Option.map some (date_of d)

-- `$2::date IS NULL OR e.accounting_date >= $2::date`
abbrev pub not_before : Option Text → Text → Bool
not_before none date = true
not_before (some from) date = text_le from date

abbrev pub not_after : Option Text → Text → Bool
not_after none date = true
not_after (some to) date = text_le date to

-- The `WHERE` of the query, whose bounds are the dates that the casts gave.
unfoldable pub is_selected : ℕ → Option Text → Option Text → JournalEntry → Bool
is_selected entity_id from to e =
    (e.legal_entity_id == entity_id)
    && is_booked e.status
    && not_before from e.accounting_date
    && not_after to e.accounting_date

abbrev pub join_one : Option AccountRow → PreparedLine → List LedgerRow → List LedgerRow
join_one none l rest = rest
join_one (some a) l rest =
    record {
      account_id = l.account_id;
      account = a;
      debit_eur = l.debit_eur;
      credit_eur = l.credit_eur;
    }
    ∷ rest

-- `JOIN accounting_accounts a ON a.id = l.account_id`
unfoldable pub join_accounts : (ℕ → Option AccountRow) → List PreparedLine → List LedgerRow
join_accounts accounts [] = []
join_accounts accounts (l ∷ ls) = join_one (accounts l.account_id) l (join_accounts accounts ls)

-- The rows before they are grouped.
unfoldable pub ledger_rows :
    (ℕ → Option AccountRow)
    → (ℕ → List PreparedLine)
    → (JournalEntry → Bool)
    → List (ℕ × JournalEntry)
    → List LedgerRow
ledger_rows accounts lines selected [] = []
ledger_rows accounts lines selected ((id, e) ∷ es) =
    let rest = ledger_rows accounts lines selected es in
    if selected e then join_accounts accounts (lines id) ++ rest else rest

-- A group: the account of its first row, and the sums.
pub record Group : Type 0 where
  pub account : AccountRow
  pub debit_eur : ℤ
  pub credit_eur : ℤ

abbrev pub start : LedgerRow → Group
start r = record { account = r.account; debit_eur = pos 0; credit_eur = pos 0 }

abbrev pub add_row : Group → LedgerRow → Group
add_row g r = record g {
  debit_eur = g.debit_eur +ℤ r.debit_eur;
  credit_eur = g.credit_eur +ℤ r.credit_eur;
}

-- `SUM(…) … GROUP BY key`
module _ {K : Type 0} ⦃e : Eq K⦄ (key : LedgerRow → K) where
  unfoldable pub group_from : List LedgerRow → List (K × Group) → List (K × Group)
  group_from [] m = m
  group_from (r ∷ rs) m =
      group_from rs (insert (key r) (add_row (or_else (lookup (key r) m) (start r)) r) m)

abbrev pub code_le : {K : Type 0} → K × Group → K × Group → Bool
code_le (_, g) (_, h) = text_le g.account.code h.account.code

-- `GROUP BY key ORDER BY a.code`
unfoldable pub grouped :
    {K : Type 0} ⦃e : Eq K⦄ → (LedgerRow → K) → List LedgerRow → List (K × Group)
grouped key rows = sort_by code_le (group_from key rows [])

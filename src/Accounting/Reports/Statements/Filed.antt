-- ===== src/Accounting/Reports/Statements/Filed.antt =====
-- The sections of the expenses by the groups of the accounts (buildIncomeStatement).
use ume_pms_v2_backend.Prelude.{
  ◌≡◌, Bool, not, ◌||◌, List, [], ◌∷◌, codes, text_eq, keep, if◌then◌else◌,
}
use Prim.Native.String.{String}
use ume_pms_v2_backend.Accounting.Posting.Types.{expense}
use ume_pms_v2_backend.Accounting.Reports.Statements.{
  AccountBalance, StatementLine, StatementSection, IncomeStatement, debit_side, lines_of,
}
use ume_pms_v2_backend.Accounting.Reports.Statements.Sums.{debit_balance}
use ume_pms_v2_backend.Accounting.Reports.Statements.Expenses.{tagged}

-- The lines of the section with that key, of none if there is no such section.
abbrev pub lines_at : String → List StatementSection → List StatementLine
lines_at key [] = []
lines_at key (s ∷ ss) = if text_eq s.key (codes key) then s.lines else lines_at key ss

-- No section takes the line by its group.
abbrev pub is_unclassified : List AccountBalance → StatementLine → Bool
is_unclassified rows x =
    not (tagged rows "VESSEL_OPEX" x || (tagged rows "ADMIN" x || tagged rows "FINANCE" x))

-- The lines of the expenses filed by the groups of their accounts, and totalled.
pub record IsFiled (rows : List AccountBalance) (s : IncomeStatement) : Type 0 where
  pub vessel_opex :
      lines_at "vessel_opex" s.sections
      ≡ keep (tagged rows "VESSEL_OPEX") (lines_of expense debit_side rows)
  pub admin :
      lines_at "admin" s.sections ≡ keep (tagged rows "ADMIN") (lines_of expense debit_side rows)
  pub finance :
      lines_at "finance" s.sections
      ≡ keep (tagged rows "FINANCE") (lines_of expense debit_side rows)
  pub other :
      lines_at "other" s.sections ≡ keep (is_unclassified rows) (lines_of expense debit_side rows)
  pub total : s.total_expense ≡ debit_balance expense rows

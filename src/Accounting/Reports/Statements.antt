-- ===== src/Accounting/Reports/Statements.antt =====
-- The income statement and the balance sheet from the balances of the accounts
-- (src/modules/accounting/reports/financial-statements.ts).
pub mod Sums
pub mod Expenses
pub mod Filed
pub mod Balance
use ume_pms_v2_backend.Prelude.{
  Bool, true, false, not, ◌&&◌, ◌||◌, Option, none, some, List, [], ◌∷◌, ◌++◌, map, Text, codes,
  text_eq, text_eq_inst, ℤ, pos, ◌+ℤ◌, ◌-ℤ◌, eqb_ℤ, ltb_ℤ, abs, round2, if◌then◌else◌, keep, any_by,
  lookup, insert, or_else,
}
use ume_pms_v2_backend.Accounting.Posting.Types.{
  AccountType, asset, liability, equity, revenue, expense, unknown,
}

pub record AccountBalance : Type 0 where
  pub code : Text
  pub name : Text
  pub account_type : AccountType
  pub account_group : Option Text
  pub debit_eur : ℤ
  pub credit_eur : ℤ

pub record StatementLine : Type 0 where
  pub code : Text
  pub name : Text
  pub amount : ℤ

pub record StatementSection : Type 0 where
  pub key : Text
  pub label : Text
  pub lines : List StatementLine
  pub total : ℤ

-- The labels of the sections, in Arabic, by code points.
-- "revenue"
abbrev pub revenue_label : Text
revenue_label = 1575 ∷ 1604 ∷ 1573 ∷ 1610 ∷ 1585 ∷ 1575 ∷ 1583 ∷ 1575 ∷ 1578 ∷ []

-- "operating expenses of vessels"
abbrev pub vessel_opex_label : Text
vessel_opex_label =
    1605 ∷ 1589 ∷ 1585 ∷ 1608 ∷ 1601 ∷ 1575 ∷ 1578 ∷ 32 ∷ 1578 ∷ 1588 ∷ 1594 ∷ 1610 ∷ 1604 ∷ 32
    ∷ 1575 ∷ 1604 ∷ 1605 ∷ 1585 ∷ 1603 ∷ 1576 ∷ []

-- "administrative expenses"
abbrev pub admin_label : Text
admin_label =
    1605 ∷ 1589 ∷ 1585 ∷ 1608 ∷ 1601 ∷ 1575 ∷ 1578 ∷ 32 ∷ 1573 ∷ 1583 ∷ 1575 ∷ 1585 ∷ 1610 ∷ 1577
    ∷ []

-- "finance items"
abbrev pub finance_label : Text
finance_label = 1576 ∷ 1606 ∷ 1608 ∷ 1583 ∷ 32 ∷ 1578 ∷ 1605 ∷ 1608 ∷ 1610 ∷ 1604 ∷ 1610 ∷ 1577 ∷ []

-- "unclassified expenses"
abbrev pub other_label : Text
other_label =
    1605 ∷ 1589 ∷ 1585 ∷ 1608 ∷ 1601 ∷ 1575 ∷ 1578 ∷ 32 ∷ 1594 ∷ 1610 ∷ 1585 ∷ 32 ∷ 1605 ∷ 1589
    ∷ 1606 ∷ 1614 ∷ 1617 ∷ 1601 ∷ 1577 ∷ []

-- "assets"
abbrev pub assets_label : Text
assets_label = 1575 ∷ 1604 ∷ 1571 ∷ 1589 ∷ 1608 ∷ 1604 ∷ []

-- "liabilities"
abbrev pub liabilities_label : Text
liabilities_label = 1575 ∷ 1604 ∷ 1575 ∷ 1604 ∷ 1578 ∷ 1586 ∷ 1575 ∷ 1605 ∷ 1575 ∷ 1578 ∷ []

-- "equity"
abbrev pub equity_label : Text
equity_label = 1581 ∷ 1602 ∷ 1608 ∷ 1602 ∷ 32 ∷ 1575 ∷ 1604 ∷ 1605 ∷ 1604 ∷ 1603 ∷ 1610 ∷ 1577 ∷ []

-- `l.reduce((a, x) => a + x.amount, a)`
unfoldable pub reduce_amounts : ℤ → List StatementLine → ℤ
reduce_amounts a [] = a
reduce_amounts a (x ∷ xs) = reduce_amounts (a +ℤ x.amount) xs

unfoldable pub sum_lines : List StatementLine → ℤ
sum_lines l = round2 (reduce_amounts (pos 0) l)

pub data Natural : Type 0 where
  debit_side credit_side : Natural

unfoldable pub line_of : Natural → AccountBalance → StatementLine
line_of credit_side r = record {
  code = r.code;
  name = r.name;
  amount = round2 (r.credit_eur -ℤ r.debit_eur);
}
line_of debit_side r = record {
  code = r.code;
  name = r.name;
  amount = round2 (r.debit_eur -ℤ r.credit_eur);
}

-- `a === b` on the types of accounts
abbrev pub same_type : AccountType → AccountType → Bool
same_type asset asset = true
same_type liability liability = true
same_type equity equity = true
same_type revenue revenue = true
same_type expense expense = true
same_type unknown unknown = true
same_type _ _ = false

abbrev pub is_moved : StatementLine → Bool
is_moved x = not (eqb_ℤ x.amount (pos 0))

-- The lines of the accounts of one type that have a balance.
unfoldable pub lines_of : AccountType → Natural → List AccountBalance → List StatementLine
lines_of t natural rows =
    keep is_moved (map (line_of natural) (keep (λ r. same_type r.account_type t) rows))

-- `new Map(rows.map((r) => [r.code, r.account_group ?? '']))`: a later row of a code replaces it.
unfoldable pub index_groups : List (Text × Text) → List AccountBalance → List (Text × Text)
index_groups m [] = m
index_groups m (r ∷ rs) = index_groups (insert r.code (or_else r.account_group []) m) rs

unfoldable pub group_of : List AccountBalance → Text → Text
group_of rows code = or_else (lookup code (index_groups [] rows)) []

-- `pick([key])`
unfoldable pub pick : List AccountBalance → Text → List StatementLine → List StatementLine
pick rows key expense_lines = keep (λ x. text_eq (group_of rows x.code) key) expense_lines

abbrev pub claims : List StatementLine → StatementLine → Bool
claims claimed x = any_by (λ y. text_eq y.code x.code) claimed

abbrev pub section : Text → Text → List StatementLine → StatementSection
section key label lines = record {
  key = key;
  label = label;
  lines = lines;
  total = sum_lines lines;
}

-- `if (other.length) sections.push(…)`
abbrev pub other_section : List StatementLine → List StatementSection
other_section [] = []
other_section (x ∷ xs) = section (codes "other") other_label (x ∷ xs) ∷ []

-- The totals of the sections but for that of the revenue, added to `a`.
unfoldable pub reduce_totals : ℤ → List StatementSection → ℤ
reduce_totals a [] = a
reduce_totals a (s ∷ ss) =
    reduce_totals (if not (text_eq s.key (codes "revenue")) then a +ℤ s.total else a) ss

pub record IncomeStatement : Type 0 where
  pub sections : List StatementSection
  pub total_revenue : ℤ
  pub total_expense : ℤ
  pub net_result : ℤ

unfoldable pub expense_sections : List AccountBalance → List StatementSection
expense_sections rows =
    let expenses = lines_of expense debit_side rows in
    let vessel_opex = pick rows (codes "VESSEL_OPEX") expenses in
    let admin = pick rows (codes "ADMIN") expenses in
    let finance = pick rows (codes "FINANCE") expenses in
    let other = keep (λ x. not (claims (vessel_opex ++ (admin ++ finance)) x)) expenses in
    section (codes "vessel_opex") vessel_opex_label vessel_opex
    ∷ section (codes "admin") admin_label admin
    ∷ section (codes "finance") finance_label finance
    ∷ other_section other

unfoldable pub build_income_statement : List AccountBalance → IncomeStatement
build_income_statement rows =
    let revenues = lines_of revenue credit_side rows in
    let sections = section (codes "revenue") revenue_label revenues ∷ expense_sections rows in
    let total_revenue = sum_lines revenues in
    let total_expense = round2 (reduce_totals (pos 0) sections) in
    record {
      sections = sections;
      total_revenue = total_revenue;
      total_expense = total_expense;
      net_result = round2 (total_revenue -ℤ total_expense);
    }

-- A side of the balance sheet.
pub record StatementSide : Type 0 where
  pub label : Text
  pub lines : List StatementLine
  pub total : ℤ

abbrev side : Text → List StatementLine → StatementSide
side label lines = record { label = label; lines = lines; total = sum_lines lines }

pub record BalanceSheet : Type 0 where
  pub assets : StatementSide
  pub liabilities : StatementSide
  pub equity : StatementSide
  pub net_result_unclosed : ℤ
  pub total_equity_with_result : ℤ
  pub total_liabilities_and_equity : ℤ
  pub difference : ℤ
  pub is_balanced : Bool

-- 500_000 units are 0.005.
unfoldable pub build_balance_sheet : List AccountBalance → ℤ → BalanceSheet
build_balance_sheet rows net_result =
    let assets = lines_of asset debit_side rows in
    let liabilities = lines_of liability credit_side rows in
    let equities = lines_of equity credit_side rows in
    let with_result = round2 (sum_lines equities +ℤ round2 net_result) in
    let both = round2 (sum_lines liabilities +ℤ with_result) in
    let difference = round2 (sum_lines assets -ℤ both) in
    record {
      assets = side assets_label assets;
      liabilities = side liabilities_label liabilities;
      equity = side equity_label equities;
      net_result_unclosed = round2 net_result;
      total_equity_with_result = with_result;
      total_liabilities_and_equity = both;
      difference = difference;
      is_balanced = ltb_ℤ (abs difference) (pos 500_000);
    }

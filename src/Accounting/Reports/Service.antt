-- ===== src/Accounting/Reports/Service.antt =====
-- The income statement and the balance sheet of an entity (`balances` and `statements` of
-- src/modules/accounting/reports/reports.service.ts).
pub mod Balanced
use ume_pms_v2_backend.Prelude.{
  ℕ, ◌≡◌, refl, Bool, true, false, not, ◌&&◌, Option, none, some, List, map, Text, codes, text_eq,
  text_eq→eq, text_eq_refl, text_lt, is_iso_date, ℤ, Result, ok, ◌>>=◌, ◌>>◌, throw_if, or_throw,
  Eq, arith, ap,
}
use ume_pms_v2_backend.Accounting.Posting.Types.{
  AccountType, asset, liability, equity, revenue, expense, unknown,
}
use ume_pms_v2_backend.Accounting.Ledger.Types.{Store}
use ume_pms_v2_backend.Accounting.Reports.Query.{
  AccountRow, LedgerRow, Group, is_selected, ledger_rows, grouped,
}
use ume_pms_v2_backend.Accounting.Reports.Statements.{
  AccountBalance, same_type, IncomeStatement, build_income_statement, BalanceSheet,
  build_balance_sheet,
}

-- The columns of `GROUP BY a.code, a.name, a.account_type, a.account_group`.
pub record AccountKey : Type 0 where
  pub code : Text
  pub name : Text
  pub account_type : AccountType
  pub account_group : Option Text

abbrev pub same_group : Option Text → Option Text → Bool
same_group none none = true
same_group (some a) (some b) = text_eq a b
same_group _ _ = false

abbrev pub same_key : AccountKey → AccountKey → Bool
same_key a b =
    text_eq a.code b.code
    && (text_eq a.name b.name
        && (same_type a.account_type b.account_type && same_group a.account_group b.account_group))

same_type→eq : (a b : AccountType) → same_type a b ≡ true → a ≡ b
same_type→eq asset asset h = refl
same_type→eq liability liability h = refl
same_type→eq equity equity h = refl
same_type→eq revenue revenue h = refl
same_type→eq expense expense h = refl
same_type→eq unknown unknown h = refl
same_type→eq a b h = ground arith

same_group→eq : (a b : Option Text) → same_group a b ≡ true → a ≡ b
same_group→eq none none h = refl
same_group→eq (some a) (some b) h = ap some (text_eq→eq a b h)
same_group→eq none (some b) h = cc
same_group→eq (some a) none h = cc

and_both : (a b : Bool) → a && b ≡ true → (a ≡ true) × (b ≡ true)
and_both true b h = (refl, h)
and_both false b h = cc

pub same_key→eq : (a b : AccountKey) → same_key a b ≡ true → a ≡ b
same_key→eq a b h =
    let c = and_both (text_eq a.code b.code) _ h in
    let n = and_both (text_eq a.name b.name) _ c.1 in
    let t = and_both (same_type a.account_type b.account_type) _ n.1 in
    let code = text_eq→eq a.code b.code c.0 in
    let name = text_eq→eq a.name b.name n.0 in
    let type = same_type→eq a.account_type b.account_type t.0 in
    let group = same_group→eq a.account_group b.account_group t.1 in
    λ i. record { code = code i; name = name i; account_type = type i; account_group = group i }

same_type_refl : (a : AccountType) → same_type a a ≡ true
same_type_refl asset = refl
same_type_refl liability = refl
same_type_refl equity = refl
same_type_refl revenue = refl
same_type_refl expense = refl
same_type_refl unknown = refl

same_group_refl : (a : Option Text) → same_group a a ≡ true
same_group_refl none = refl
same_group_refl (some a) = text_eq_refl a

pub same_key_refl : (a : AccountKey) → same_key a a ≡ true
same_key_refl a =
    rw
      (
        text_eq_refl a.code,
        text_eq_refl a.name,
        same_type_refl a.account_type,
        same_group_refl a.account_group,
      )
      refl

instance abbrev pub key_eq : Eq AccountKey
key_eq = record { beq = same_key; beq→eq = same_key→eq; beq_refl = same_key_refl }

abbrev pub account_key : LedgerRow → AccountKey
account_key r = record {
  code = r.account.code;
  name = r.account.name;
  account_type = r.account.account_type;
  account_group = r.account.account_group;
}

unfoldable pub balance_row : AccountKey × Group → AccountBalance
balance_row (_, g) = record {
  code = g.account.code;
  name = g.account.name;
  account_type = g.account.account_type;
  account_group = g.account.account_group;
  debit_eur = g.debit_eur;
  credit_eur = g.credit_eur;
}

unfoldable pub balances :
    (ℕ → Option AccountRow) → ℕ → Option Text → Text → Store → List AccountBalance
balances account_rows entity_id from to s = map balance_row (
    grouped account_key
      (ledger_rows account_rows s.lines (is_selected entity_id from (some to)) s.entries))

pub record EntityHeader : Type 0 where
  pub code : Text
  pub name : Text
  pub currency : Text

pub record Statements : Type 0 where
  pub entity : Option EntityHeader
  pub from : Text
  pub to : Text
  pub disclosure : Text
  pub income_statement : IncomeStatement
  pub balance_sheet : BalanceSheet
  pub cumulative_net_result : ℤ

pub data StatementsError : Type 0 where
  entity_required bad_period_start bad_period_end start_after_end not_a_date : StatementsError

-- What is answered once the request has passed: the income of the window, the position up to its end.
-- `from_date` and `to_date` are the casts of the two bounds.
unfoldable pub statements_of :
    (ℕ → Option AccountRow)
    → Option EntityHeader
    → ℕ
    → Text
    → Text
    → Text
    → Text
    → Store
    → Statements
statements_of account_rows header entity_id from to from_date to_date s =
    let period_rows = balances account_rows entity_id (some from_date) to_date s in
    let cumulative_rows = balances account_rows entity_id none to_date s in
    let cumulative_income = build_income_statement cumulative_rows in
    record {
      entity = header;
      from = from;
      to = to;
      disclosure = codes "MANAGEMENT ACCOUNTS — OPENING BALANCES UNAUDITED";
      income_statement = build_income_statement period_rows;
      balance_sheet = build_balance_sheet cumulative_rows cumulative_income.net_result;
      cumulative_net_result = cumulative_income.net_result;
    }

unfoldable pub statements :
    (Text → Option Text)
    → (ℕ → Option AccountRow)
    → (ℕ → Option EntityHeader)
    → Option ℕ
    → Text
    → Text
    → Store
    → Result StatementsError Statements
statements date_of account_rows entity_rows legal_entity_id from to s = do
  entity_id ← or_throw legal_entity_id entity_required
  throw_if (not (is_iso_date from)) bad_period_start
  throw_if (not (is_iso_date to)) bad_period_end
  throw_if (text_lt to from) start_after_end
  from_date ← or_throw (date_of from) not_a_date
  to_date ← or_throw (date_of to) not_a_date
  ok (statements_of account_rows (entity_rows entity_id) entity_id from to from_date to_date s)

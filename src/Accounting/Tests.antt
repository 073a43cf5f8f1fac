-- ===== src/Accounting/Tests.antt =====
-- A small book for the tests: one entity with a year of three periods, three accounts and a rate.
mod Posting
mod Ledger
mod Bridge
mod Reports
mod Schedules
use ume_pms_v2_backend.Prelude.{
  ℕ, Bool, true, false, Option, none, some, List, [], ◌∷◌, Text, codes, pos, Result, ok, err,
  if◌then◌else◌, ◌==◌,
}
use ume_pms_v2_backend.Accounting.Posting.Types.{
  Raw, value, absent, bad, asset, expense, liability, AccountType, FxRateRef, AccountRef, PeriodRef,
  open_period, soft_closed, PeriodStatus, LineInput, PrepareContext, payment_settlement,
}
use ume_pms_v2_backend.Accounting.Ledger.Types.{
  LegalEntity, Journal, FiscalYear, FiscalPeriod, Store, CreateEntryDto, LedgerError,
}

abbrev account : ℕ → AccountType → Option Text → AccountRef
account id t restriction = record {
  id = id;
  legal_entity_id = 1;
  is_active = true;
  is_postable = true;
  currency_restriction = restriction;
  account_type = t;
}

abbrev accounts : ℕ → Option AccountRef
accounts id =
    if id == 10
    then some (account 10 expense none)
    else (if id == 20
        then some (account 20 liability none)
        else (if id == 30 then some (account 30 asset (some (codes "USD"))) else none))

-- 0.91 euro for a dollar
abbrev rates : ℕ → Option FxRateRef
rates id =
    if id == 7
    then some (record {
      id = 7;
      legal_entity_id = 1;
      currency_from = codes "USD";
      currency_to = codes "EUR";
      rate = value (pos 91_000_000);
      rate_date = codes "2025-01-31";
      source = codes "ECB";
      created_by = some 3;
      approved_by = some 4;
      approved_at = some 1000;
    })
    else none

abbrev pub period : ℕ → ℕ → Text → Text → PeriodStatus → PeriodRef
period id number from to status = record {
  id = id;
  legal_entity_id = 1;
  fiscal_year_id = 1;
  period_no = number;
  start_date = from;
  end_date = to;
  status = status;
}

abbrev pub opening : PeriodRef
opening = period 100 0 (codes "2025-01-01") (codes "2025-01-01") open_period

abbrev pub january : PeriodRef
january = period 101 1 (codes "2025-01-01") (codes "2025-01-31") open_period

abbrev pub february : PeriodRef
february = period 102 2 (codes "2025-02-01") (codes "2025-02-28") open_period

abbrev row : PeriodRef → FiscalPeriod
row p = record {
  row = p;
  closed_by = none;
  closed_at = none;
  close_reason = none;
  reopened_by = none;
  reopened_at = none;
  reopen_reason = none;
}

abbrev pub empty_book : Store
empty_book = record {
  entities = λ id.
      if id == 1
      then some (record {
        functional_currency = codes "EUR";
        accounting_start_date = codes "2025-01-01";
        is_active = true;
      })
      else none;
  journals = λ id.
      if id == 1
      then some (record { legal_entity_id = 1; entry_prefix = codes "GJ"; is_active = true })
      else none;
  accounts = accounts;
  fx_rates = rates;
  years = (1, record { year = 2025; next_entry_no = 1 }) ∷ [];
  periods = (100, row opening) ∷ (101, row january) ∷ (102, row february) ∷ [];
  entries = [];
  lines = λ id. [];
}

-- A line on the account, in dollars at the rate 7 or in euro.
abbrev pub line : ℕ → Raw → Raw → Text → Option ℕ → LineInput
line account_id debit credit ccy rate = record {
  account_id = account_id;
  debit = debit;
  credit = credit;
  transaction_currency = ccy;
  fx_rate_id = rate;
  vessel_id = none;
  supplier_id = none;
  customer_id = none;
  cost_center_id = none;
  description = none;
}

-- 100.00 dollars of expense, owed in part in euro
abbrev pub expense_line : LineInput
expense_line = line 10 (value (pos 10_000_000_000)) absent (codes "usd") (some 7)

abbrev pub dollar_line : LineInput
dollar_line = line 20 absent (value (pos 6_000_000_000)) (codes "USD") (some 7)

abbrev pub euro_line : LineInput
euro_line = line 20 absent (value (pos 3_640_000_000)) (codes "EUR") none

abbrev pub three_lines : List LineInput
three_lines = expense_line ∷ dollar_line ∷ euro_line ∷ []

abbrev pub context : PrepareContext
context = record {
  legal_entity_id = 1;
  functional_currency = codes "EUR";
  accounting_date = codes "2025-02-10";
  accounts = accounts;
  fx_rates = rates;
}

abbrev pub request : CreateEntryDto
request = record {
  legal_entity_id = 1;
  journal_id = 1;
  accounting_date = codes "2025-02-10";
  source_document_date = none;
  description = codes " spare parts ";
  reference = none;
  accounting_event_type = none;
  source_type = none;
  source_id = none;
  source_reference = none;
  backdated_reason = none;
  lines = three_lines;
}

-- The tables after a handler; a refusal leaves them.
abbrev pub after : Store → Result LedgerError Store → Store
after s (ok s') = s'
after s (err e) = s

-- ===== src/Accounting/Posting/Types.antt =====
-- The inputs, references and results of src/modules/accounting/accounting-posting.ts. Identifiers are
-- numbers, since the code only compares them; `none` is `null`, and also the empty identifier.
use ume_pms_v2_backend.Prelude.{ℕ, Bool, Option, List, Text, codes, ℤ, Result, ok, err}

abbrev pub eur : Text
eur = codes "EUR"

abbrev pub functional : Text
functional = codes "FUNCTIONAL"

-- A number as a request or a column gives it: missing, a decimal, or what `Number` does not read.
pub data Raw : Type 0 where
  absent : Raw
  value : ℤ → Raw
  bad : Raw

pub data AccountType : Type 0 where
  asset liability equity revenue expense unknown : AccountType

pub data EventType : Type 0 where
  manual opening_balance invoice_accrual payment_settlement reversal adjustment depreciation
        fx_revaluation amortization other_event :
      EventType

pub data PeriodStatus : Type 0 where
  open_period soft_closed hard_closed other_period : PeriodStatus

pub data EntryStatus : Type 0 where
  draft posted reversed void other_status : EntryStatus

pub record LineInput : Type 0 where
  pub account_id : ℕ
  pub debit : Raw
  pub credit : Raw
  pub transaction_currency : Text
  pub fx_rate_id : Option ℕ
  pub vessel_id : Option ℕ
  pub supplier_id : Option ℕ
  pub customer_id : Option ℕ
  pub cost_center_id : Option ℕ
  pub description : Option Text

pub record AccountRef : Type 0 where
  pub id : ℕ
  pub legal_entity_id : ℕ
  pub is_active : Bool
  pub is_postable : Bool
  pub currency_restriction : Option Text
  pub account_type : AccountType

pub record FxRateRef : Type 0 where
  pub id : ℕ
  pub legal_entity_id : ℕ
  pub currency_from : Text
  pub currency_to : Text
  pub rate : Raw
  pub rate_date : Text
  pub source : Text
  pub created_by : Option ℕ
  pub approved_by : Option ℕ
  pub approved_at : Option ℕ

pub record PeriodRef : Type 0 where
  pub id : ℕ
  pub legal_entity_id : ℕ
  pub fiscal_year_id : ℕ
  pub period_no : ℕ
  pub start_date : Text
  pub end_date : Text
  pub status : PeriodStatus

-- The two maps of the context are their `get` functions.
pub record PrepareContext : Type 0 where
  pub legal_entity_id : ℕ
  pub functional_currency : Text
  pub accounting_date : Text
  pub accounts : ℕ → Option AccountRef
  pub fx_rates : ℕ → Option FxRateRef

pub record PreparedLine : Type 0 where
  pub line_no : ℕ
  pub account_id : ℕ
  pub debit : ℤ
  pub credit : ℤ
  pub transaction_currency : Text
  pub fx_rate : ℤ
  pub fx_date : Text
  pub fx_source : Text
  pub fx_rate_id : Option ℕ
  pub debit_eur : ℤ
  pub credit_eur : ℤ
  pub vessel_id : Option ℕ
  pub supplier_id : Option ℕ
  pub customer_id : Option ℕ
  pub cost_center_id : Option ℕ
  pub description : Option Text

pub record PreparedEntry : Type 0 where
  pub lines : List PreparedLine
  pub total_debit_eur : ℤ
  pub total_credit_eur : ℤ

-- The refusals of one line, in the order of the checks.
pub data LineError : Type 0 where
  not_numeric negative_amount not_one_side below_cent invalid_currency account_not_found
        account_of_other_entity account_inactive account_not_postable account_currency_restricted
        fx_on_functional fx_missing fx_not_found fx_of_other_entity fx_pair_mismatch
        fx_functional_source fx_not_approved fx_after_entry fx_invalid_rate vanishes_in_eur :
      LineError

-- The exceptions of the engine.
pub data PostingError : Type 0 where
  too_few_lines invalid_date unsupported_functional_currency unbalanced outside_period
        no_opening_period no_operational_period opening_on_result_account period_soft_closed
        period_hard_closed backdating_needs_reason invalid_prefix invalid_sequence entry_is_void
        entry_is_posted unknown_status already_reversed not_posted reversal_before_original :
      PostingError
  at_line : ℕ → LineError → PostingError

abbrev pub in_line {ℓ} : {A : Type ℓ} → ℕ → Result LineError A → Result PostingError A
in_line i (ok a) = ok a
in_line i (err e) = err (at_line i e)

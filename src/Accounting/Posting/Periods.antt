-- ===== src/Accounting/Posting/Periods.antt =====
-- Dates and periods of src/modules/accounting/accounting-posting.ts: `assertDateInPeriod`,
-- `selectPeriod`, `assertOpeningBalanceAccounts`, `assertPeriodAcceptsPosting`, `resolveBackdating`.
pub mod Selection
pub mod Guards
use ume_pms_v2_backend.Prelude.{
  is_empty, ℕ, Bool, true, false, not, ◌||◌, Option, none, some, List, [], ◌∷◌, Text, text_lt, trim,
  Result, ok, err, ◌>>=◌, ◌>>◌, throw_if, if◌then◌else◌, ◌==◌, ltb, leb, keep, sort_by, or_else,
}
use ume_pms_v2_backend.Accounting.Posting.Types.{
  AccountType, revenue, expense, asset, liability, equity, unknown, EventType, manual,
  opening_balance, reversal, adjustment, PeriodStatus, open_period, soft_closed, hard_closed,
  other_period, AccountRef, PeriodRef, PreparedLine, PostingError, outside_period,
  no_opening_period, no_operational_period, opening_on_result_account, period_soft_closed,
  period_hard_closed, backdating_needs_reason, at_line,
}
use ume_pms_v2_backend.Accounting.Posting.Lines.{assert_iso_date}

unfoldable pub assert_date_in_period : Text → PeriodRef → Result PostingError (Unit {0})
assert_date_in_period accounting_date period =
    throw_if (text_lt accounting_date period.start_date || text_lt period.end_date accounting_date)
      outside_period

-- `eventType === OPENING_EVENT`
abbrev pub is_opening : EventType → Bool
is_opening opening_balance = true
is_opening _ = false

abbrev pub is_operational : PeriodRef → Bool
is_operational p = ltb 0 p.period_no

abbrev pub no_later : PeriodRef → PeriodRef → Bool
no_later p q = leb p.period_no q.period_no

abbrev pub first_or : {A : Type 0} → List A → PostingError → Result PostingError A
first_or [] e = err e
first_or (x ∷ xs) e = ok x

unfoldable pub select_period : EventType → List PeriodRef → Result PostingError PeriodRef
select_period event_type candidates =
    let opening = keep (λ p. p.period_no == 0) candidates in
    let operational = sort_by no_later (keep is_operational candidates) in
    if is_opening event_type
    then first_or opening no_opening_period
    else first_or operational no_operational_period

abbrev pub is_result_account : AccountType → Bool
is_result_account revenue = true
is_result_account expense = true
is_result_account _ = false

-- `accounts.get(l.account_id)?.account_type`
abbrev pub type_of : Option AccountRef → AccountType
type_of none = unknown
type_of (some a) = a.account_type

unfoldable pub assert_opening_balance_accounts :
    List PreparedLine → (ℕ → Option AccountRef) → Result PostingError (Unit {0})
assert_opening_balance_accounts [] accounts = ok tt
assert_opening_balance_accounts (l ∷ lines) accounts = do
  throw_if (is_result_account (type_of (accounts l.account_id))) opening_on_result_account
  assert_opening_balance_accounts lines accounts

abbrev pub may_enter_soft_closed : EventType → Bool
may_enter_soft_closed adjustment = true
may_enter_soft_closed reversal = true
may_enter_soft_closed _ = false

abbrev accepts : PeriodStatus → EventType → Result PostingError (Unit {0})
accepts open_period event_type = ok tt
accepts soft_closed event_type =
    if may_enter_soft_closed event_type then ok tt else err period_soft_closed
accepts hard_closed event_type = err period_hard_closed
accepts other_period event_type = err period_hard_closed

unfoldable pub assert_period_accepts_posting :
    PeriodRef → EventType → Result PostingError (Unit {0})
assert_period_accepts_posting period event_type = accepts period.status event_type

pub record Backdating : Type 0 where
  pub is_backdated : Bool
  pub backdated_reason : Option Text

unfoldable pub resolve_backdating : Text → Text → Option Text → Result PostingError Backdating
resolve_backdating accounting_date today reason = do
  assert_iso_date today
  if not (text_lt accounting_date today)
      then ok (record { is_backdated = false; backdated_reason = none })
      else (let r = trim (or_else reason []) in
          throw_if (is_empty r) backdating_needs_reason
          >> ok (record { is_backdated = true; backdated_reason = some r }))

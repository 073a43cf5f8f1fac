-- ===== src/Accounting/Ledger/Types.antt =====
-- The tables that src/modules/accounting/accounting.service.ts works on, its requests and its
-- refusals. A handler runs in one transaction: it returns the new tables, or refuses and leaves them.
use ume_pms_v2_backend.Prelude.{
  ℕ, Bool, true, false, Option, List, Text, ℤ, Result, ok, err, lookup, insert, id_eq,
  if◌then◌else◌, ◌==◌,
}
use ume_pms_v2_backend.Accounting.Posting.Types.{
  EventType, EntryStatus, posted, reversed, LineInput, AccountRef, FxRateRef, PeriodRef,
  PreparedLine, PostingError,
}

pub record LegalEntity : Type 0 where
  pub functional_currency : Text
  pub accounting_start_date : Text
  pub is_active : Bool

pub record Journal : Type 0 where
  pub legal_entity_id : ℕ
  pub entry_prefix : Text
  pub is_active : Bool

pub record FiscalYear : Type 0 where
  pub year : ℕ
  pub next_entry_no : ℕ

-- A period with the trace of who closed or reopened it, when and why.
pub record FiscalPeriod : Type 0 where
  pub row : PeriodRef
  pub closed_by : Option ℕ
  pub closed_at : Option ℕ
  pub close_reason : Option Text
  pub reopened_by : Option ℕ
  pub reopened_at : Option ℕ
  pub reopen_reason : Option Text

pub record JournalEntry : Type 0 where
  pub legal_entity_id : ℕ
  pub journal_id : ℕ
  pub fiscal_year_id : ℕ
  pub fiscal_period_id : ℕ
  pub entry_no : Option Text
  pub status : EntryStatus
  pub accounting_event_type : EventType
  pub source_document_date : Text
  pub accounting_date : Text
  pub description : Text
  pub reference : Option Text
  pub source_type : Option Text
  pub source_id : Option ℕ
  pub source_reference : Option Text
  pub is_backdated : Bool
  pub backdated_reason : Option Text
  pub reversal_of_entry_id : Option ℕ
  pub reversed_by_entry_id : Option ℕ
  pub total_debit_eur : ℤ
  pub total_credit_eur : ℤ
  pub created_by : Option ℕ
  pub created_at : ℕ
  pub reviewed_by : Option ℕ
  pub reviewed_at : Option ℕ
  pub posted_by : Option ℕ
  pub posted_at : Option ℕ
  pub updated_at : ℕ

-- `lines` gives the rows of an entry in the order of their numbers.
pub record Store : Type 0 where
  pub entities : ℕ → Option LegalEntity
  pub journals : ℕ → Option Journal
  pub accounts : ℕ → Option AccountRef
  pub fx_rates : ℕ → Option FxRateRef
  pub years : List (ℕ × FiscalYear)
  pub periods : List (ℕ × FiscalPeriod)
  pub entries : List (ℕ × JournalEntry)
  pub lines : ℕ → List PreparedLine

pub record CreateEntryDto : Type 0 where
  pub legal_entity_id : ℕ
  pub journal_id : ℕ
  pub accounting_date : Text
  pub source_document_date : Option Text
  pub description : Text
  pub reference : Option Text
  pub accounting_event_type : Option EventType
  pub source_type : Option Text
  pub source_id : Option ℕ
  pub source_reference : Option Text
  pub backdated_reason : Option Text
  pub lines : List LineInput

pub data LedgerError : Type 0 where
  posting : PostingError → LedgerError
  entity_not_found entity_inactive before_accounting_start journal_not_found journal_of_other_entity
        journal_inactive no_period_covers unknown_event_type reversal_by_hand source_without_type
        description_missing duplicate_event entry_not_found void_reason_missing period_missing
        few_stored_lines line_account_missing line_account_inactive line_account_not_postable
        line_account_of_other_entity year_missing journal_missing reversal_reason_missing
        no_reversal_period close_reason_missing period_not_found period_closed_for_good
        period_already_soft_closed period_has_drafts reopen_reason_missing period_already_open
        fx_rate_not_found fx_rate_in_use fx_rate_not_positive approver_unknown :
      LedgerError

-- An exception of the posting engine passes through the service.
abbrev pub posting_step {ℓ} : {A : Type ℓ} → Result PostingError A → Result LedgerError A
posting_step (ok a) = ok a
posting_step (err e) = err (posting e)

-- In the books: `e.status IN ('posted','reversed')`.
abbrev pub is_booked : EntryStatus → Bool
is_booked posted = true
is_booked reversed = true
is_booked _ = false

unfoldable pub find_entry : ℕ → Store → Option JournalEntry
find_entry id s = lookup id s.entries

unfoldable pub put_entry : ℕ → JournalEntry → Store → Store
put_entry id e s = record s { entries = insert id e s.entries }

-- The rows of one entry replaced.
unfoldable pub put_lines : ℕ → List PreparedLine → Store → Store
put_lines id ls s = record s { lines = λ j. if id == j then ls else s.lines j }

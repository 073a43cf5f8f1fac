-- ===== src/Accounting/Ledger/Context.antt =====
-- `resolveContext`, `nextEntryNo` and the unique index of events
-- (src/modules/accounting/accounting.service.ts and entities/journal-entry.entity.ts).
use ume_pms_v2_backend.Prelude.{
  ℕ, ◌+◌, Bool, true, false, not, ◌&&◌, ◌||◌, Option, none, some, List, [], ◌∷◌, map, Text, text_eq,
  text_lt, text_le, Result, ok, ◌>>=◌, ◌>>◌, throw_if, or_throw, or_else, ◌==◌, keep, sort_by,
  lookup, insert, id_eq,
}
use ume_pms_v2_backend.Accounting.Posting.Types.{
  EventType, manual, opening_balance, invoice_accrual, payment_settlement, reversal, adjustment,
  depreciation, fx_revaluation, amortization, other_event, EntryStatus, void, PeriodRef,
  PrepareContext,
}
use ume_pms_v2_backend.Accounting.Posting.Lines.{assert_iso_date}
use ume_pms_v2_backend.Accounting.Posting.Periods.{
  no_later, select_period, assert_period_accepts_posting,
}
use ume_pms_v2_backend.Accounting.Posting.EntryNo.{format_entry_no}
use ume_pms_v2_backend.Accounting.Ledger.Types.{
  FiscalPeriod, JournalEntry, Store, CreateEntryDto, LedgerError, posting_step, entity_not_found,
  entity_inactive, before_accounting_start, journal_not_found, journal_of_other_entity,
  journal_inactive, no_period_covers, year_missing, journal_missing,
}

pub record ResolvedContext : Type 0 where
  pub entity_id : ℕ
  pub journal_id : ℕ
  pub period : PeriodRef
  pub prepare : PrepareContext

abbrev pub covers : ℕ → Text → PeriodRef → Bool
covers entity_id date p =
    (p.legal_entity_id == entity_id) && text_le p.start_date date && text_le date p.end_date

abbrev pub period_row : ℕ × FiscalPeriod → PeriodRef
period_row (_, p) = p.row

-- The periods of the entity that cover the date, by their numbers.
unfoldable pub candidates : Store → ℕ → Text → List PeriodRef
candidates s entity_id date =
    sort_by no_later (keep (covers entity_id date) (map period_row s.periods))

abbrev is_nil : List PeriodRef → Bool
is_nil [] = true
is_nil (p ∷ ps) = false

abbrev pub check_optional_date : Option Text → Result LedgerError (Unit {0})
check_optional_date none = ok tt
check_optional_date (some d) = posting_step (assert_iso_date d)

-- The maps of accounts and rates are read only at the identifiers of the lines, so the tables
-- themselves stand for them.
unfoldable pub resolve_context : Store → CreateEntryDto → Result LedgerError ResolvedContext
resolve_context s dto = do
  posting_step (assert_iso_date dto.accounting_date)
  check_optional_date dto.source_document_date
  entity ← or_throw (s.entities dto.legal_entity_id) entity_not_found
  throw_if (not entity.is_active) entity_inactive
  throw_if (text_lt dto.accounting_date entity.accounting_start_date) before_accounting_start
  journal ← or_throw (s.journals dto.journal_id) journal_not_found
  throw_if (not (journal.legal_entity_id == dto.legal_entity_id)) journal_of_other_entity
  throw_if (not journal.is_active) journal_inactive
  let found = candidates s dto.legal_entity_id dto.accounting_date
  throw_if (is_nil found) no_period_covers
  let event_type = or_else dto.accounting_event_type manual
  period ← posting_step (select_period event_type found)
  posting_step (assert_period_accepts_posting period event_type)
  ok (record {
    entity_id = dto.legal_entity_id;
    journal_id = dto.journal_id;
    period = period;
    prepare = record {
      legal_entity_id = dto.legal_entity_id;
      functional_currency = entity.functional_currency;
      accounting_date = dto.accounting_date;
      accounts = s.accounts;
      fx_rates = s.fx_rates;
    };
  })

-- The next official number of a fiscal year, with the year's counter moved on.
unfoldable pub next_entry_no : Store → ℕ → ℕ → Result LedgerError (Text × Store)
next_entry_no s fiscal_year_id journal_id = do
  fy ← or_throw (lookup fiscal_year_id s.years) year_missing
  journal ← or_throw (s.journals journal_id) journal_missing
  number ← posting_step (format_entry_no journal.entry_prefix fy.year fy.next_entry_no)
  ok (
    number,
    record s {
      years = insert fiscal_year_id (record fy { next_entry_no = fy.next_entry_no + 1 }) s.years;
    },
  )

abbrev event_code : EventType → ℕ
event_code manual = 0
event_code opening_balance = 1
event_code invoice_accrual = 2
event_code payment_settlement = 3
event_code reversal = 4
event_code adjustment = 5
event_code depreciation = 6
event_code fx_revaluation = 7
event_code amortization = 8
event_code other_event = 9

abbrev is_void : EntryStatus → Bool
is_void void = true
is_void _ = false

-- In an index a null is equal to nothing.
abbrev same_id : Option ℕ → Option ℕ → Bool
same_id (some a) (some b) = a == b
same_id _ _ = false

abbrev same_text : Option Text → Option Text → Bool
same_text (some a) (some b) = text_eq a b
same_text _ _ = false

-- Two entries for one event under the index uq_je_accounting_event.
unfoldable pub same_event : JournalEntry → JournalEntry → Bool
same_event a b =
    not (is_void a.status)
    && not (is_void b.status)
    && (a.legal_entity_id == b.legal_entity_id)
    && (event_code a.accounting_event_type == event_code b.accounting_event_type)
    && same_text a.source_type b.source_type
    && same_id a.source_id b.source_id

unfoldable pub breaks_event_index : JournalEntry → List (ℕ × JournalEntry) → Bool
breaks_event_index e [] = false
breaks_event_index e ((_, f) ∷ es) = same_event e f || breaks_event_index e es

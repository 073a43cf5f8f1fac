-- ===== src/Accounting/Ledger/Drafts.antt =====
-- `createDraft`, `updateDraft` and `voidDraft` (src/modules/accounting/accounting.service.ts).
use ume_pms_v2_backend.Prelude.{
  is_empty, ℕ, Bool, true, false, not, ◌&&◌, Option, none, some, [], ◌∷◌, ◌++◌, Text, codes, trim,
  Result, ok, ◌>>=◌, ◌>>◌, throw_if, or_throw, or_else, is_some, if◌then◌else◌, take,
}
use ume_pms_v2_backend.Accounting.Posting.Types.{
  EventType, manual, reversal, other_event, draft, void, PreparedEntry,
}
use ume_pms_v2_backend.Accounting.Posting.Lines.{prepare_lines, assert_balanced}
use ume_pms_v2_backend.Accounting.Posting.Periods.{
  is_opening, assert_opening_balance_accounts, Backdating, resolve_backdating,
}
use ume_pms_v2_backend.Accounting.Posting.Transitions.{assert_can_edit_draft}
use ume_pms_v2_backend.Accounting.Ledger.Types.{
  JournalEntry, Store, CreateEntryDto, LedgerError, posting_step, find_entry, put_entry, put_lines,
  unknown_event_type, reversal_by_hand, source_without_type, description_missing, duplicate_event,
  entry_not_found, void_reason_missing,
}
use ume_pms_v2_backend.Accounting.Ledger.Context.{
  ResolvedContext, resolve_context, breaks_event_index,
}

abbrev pub is_unknown_event : EventType → Bool
is_unknown_event other_event = true
is_unknown_event _ = false

abbrev pub is_reversal_event : EventType → Bool
is_reversal_event reversal = true
is_reversal_event _ = false

-- The row that `createDraft` saves.
unfoldable pub draft_row :
    CreateEntryDto
    → ResolvedContext
    → PreparedEntry
    → Backdating
    → EventType
    → Option ℕ
    → ℕ
    → JournalEntry
draft_row dto ctx prepared back event_type user now = record {
  legal_entity_id = ctx.entity_id;
  journal_id = ctx.journal_id;
  fiscal_year_id = ctx.period.fiscal_year_id;
  fiscal_period_id = ctx.period.id;
  entry_no = none;
  status = draft;
  accounting_event_type = event_type;
  source_document_date = or_else dto.source_document_date dto.accounting_date;
  accounting_date = dto.accounting_date;
  description = trim dto.description;
  reference = dto.reference;
  source_type = dto.source_type;
  source_id = dto.source_id;
  source_reference = dto.source_reference;
  is_backdated = back.is_backdated;
  backdated_reason = back.backdated_reason;
  reversal_of_entry_id = none;
  reversed_by_entry_id = none;
  total_debit_eur = prepared.total_debit_eur;
  total_credit_eur = prepared.total_credit_eur;
  created_by = user;
  created_at = now;
  reviewed_by = none;
  reviewed_at = none;
  posted_by = none;
  posted_at = none;
  updated_at = now;
}

-- `new_id` is the identifier that the database gives the row; `today` is the date of the clock and
-- `now` its time, which the columns `created_at` and `updated_at` are given by the framework.
unfoldable pub create_draft :
    ℕ → Text → ℕ → CreateEntryDto → Option ℕ → Store → Result LedgerError Store
create_draft new_id today now dto user s = do
  ctx ← resolve_context s dto
  prepared ← posting_step (prepare_lines dto.lines ctx.prepare)
  posting_step (assert_balanced prepared)
  let event_type = or_else dto.accounting_event_type manual
  if is_opening event_type
      then posting_step (assert_opening_balance_accounts prepared.lines ctx.prepare.accounts)
      else ok tt
  back ← posting_step (resolve_backdating dto.accounting_date today dto.backdated_reason)
  throw_if (is_unknown_event event_type) unknown_event_type
  throw_if (is_reversal_event event_type) reversal_by_hand
  throw_if (is_some dto.source_id && not (is_some dto.source_type)) source_without_type
  throw_if (is_empty (trim dto.description)) description_missing
  let row = draft_row dto ctx prepared back event_type user now
  throw_if (breaks_event_index row s.entries) duplicate_event
  ok (put_lines new_id prepared.lines (put_entry new_id row s))

-- The columns that `updateDraft` writes.
unfoldable pub updated_row :
    CreateEntryDto → ResolvedContext → PreparedEntry → Backdating → ℕ → JournalEntry → JournalEntry
updated_row dto ctx prepared back now entry = record entry {
  journal_id = ctx.journal_id;
  fiscal_year_id = ctx.period.fiscal_year_id;
  fiscal_period_id = ctx.period.id;
  accounting_date = dto.accounting_date;
  source_document_date = or_else dto.source_document_date dto.accounting_date;
  description = trim dto.description;
  reference = dto.reference;
  is_backdated = back.is_backdated;
  backdated_reason = back.backdated_reason;
  total_debit_eur = prepared.total_debit_eur;
  total_credit_eur = prepared.total_credit_eur;
  updated_at = now;
}

unfoldable pub update_draft : ℕ → Text → ℕ → CreateEntryDto → Store → Result LedgerError Store
update_draft id today now dto s = do
  entry ← or_throw (find_entry id s) entry_not_found
  posting_step (assert_can_edit_draft entry.status)
  ctx ← resolve_context s (record dto {
    legal_entity_id = entry.legal_entity_id;
    accounting_event_type = some entry.accounting_event_type;
  })
  throw_if (is_empty (trim dto.description)) description_missing
  prepared ← posting_step (prepare_lines dto.lines ctx.prepare)
  posting_step (assert_balanced prepared)
  back ← posting_step (resolve_backdating dto.accounting_date today dto.backdated_reason)
  ok (put_lines id prepared.lines (put_entry id (updated_row dto ctx prepared back now entry) s))

-- The mark of a cancelled draft, a blank, a bracket and the Arabic word with a colon, by code points.
abbrev void_mark : Text
void_mark = 32 ∷ 91 ∷ 1605 ∷ 1604 ∷ 1594 ∷ 1609 ∷ 58 ∷ 32 ∷ []

unfoldable pub void_draft : ℕ → Text → ℕ → Store → Result LedgerError Store
void_draft id reason now s = do
  throw_if (is_empty (trim reason)) void_reason_missing
  entry ← or_throw (find_entry id s) entry_not_found
  posting_step (assert_can_edit_draft entry.status)
  let note = entry.description ++ (void_mark ++ (trim reason ++ codes "]"))
  ok (
      put_entry id (record entry { status = void; description = take 500 note; updated_at = now })
        s)

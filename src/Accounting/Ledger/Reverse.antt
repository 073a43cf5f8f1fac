-- ===== src/Accounting/Ledger/Reverse.antt =====
-- `reverse` (src/modules/accounting/accounting.service.ts).
use ume_pms_v2_backend.Prelude.{
  is_empty, ℕ, ◌&&◌, Option, none, some, [], ◌∷◌, ◌++◌, map, Text, codes, text_lt, trim, Result, ok,
  ◌>>=◌, ◌>>◌, throw_if, or_throw, or_else, if◌then◌else◌, take, find_by,
}
use ume_pms_v2_backend.Accounting.Posting.Types.{draft, posted, reversed, reversal, PeriodRef}
use ume_pms_v2_backend.Accounting.Posting.Periods.{
  is_operational, assert_date_in_period, assert_period_accepts_posting,
}
use ume_pms_v2_backend.Accounting.Posting.Transitions.{assert_can_reverse, assert_reversal_date}
use ume_pms_v2_backend.Accounting.Posting.Reversal.{reversal_word, build_reversal_lines}
use ume_pms_v2_backend.Accounting.Ledger.Types.{
  JournalEntry, Store, LedgerError, posting_step, find_entry, put_entry, put_lines, duplicate_event,
  entry_not_found, reversal_reason_missing, no_reversal_period,
}
use ume_pms_v2_backend.Accounting.Ledger.Context.{
  covers, period_row, breaks_event_index, next_entry_no,
}

-- The words in front of the reason: of the description, and of the reason for backdating, the latter
-- by its code points.
abbrev reversal_of_no : Option Text → Text
reversal_of_no number =
    reversal_word ++ (codes " " ++ (or_else number (codes "null") ++ codes ": "))

abbrev backdated_reversal : Text
backdated_reversal =
    reversal_word
    ++ (32 ∷ 1576 ∷ 1571 ∷ 1579 ∷ 1585 ∷ 32 ∷ 1585 ∷ 1580 ∷ 1593 ∷ 1610 ∷ 58 ∷ 32 ∷ [])

-- The row that `reverse` saves, still a draft.
unfoldable pub reversal_row :
    ℕ → JournalEntry → PeriodRef → Text → Text → Text → Option ℕ → ℕ → JournalEntry
reversal_row id original target rev_date today reason user now = record {
  legal_entity_id = original.legal_entity_id;
  journal_id = original.journal_id;
  fiscal_year_id = target.fiscal_year_id;
  fiscal_period_id = target.id;
  entry_no = none;
  status = draft;
  accounting_event_type = reversal;
  source_document_date = original.source_document_date;
  accounting_date = rev_date;
  description = take 500 (reversal_of_no original.entry_no ++ reason);
  reference = original.reference;
  source_type = original.source_type;
  source_id = original.source_id;
  source_reference = original.source_reference;
  is_backdated = text_lt rev_date today;
  backdated_reason =
      if text_lt rev_date today then some (take 500 (backdated_reversal ++ reason)) else none;
  reversal_of_entry_id = some id;
  reversed_by_entry_id = none;
  total_debit_eur = original.total_credit_eur;
  total_credit_eur = original.total_debit_eur;
  created_by = user;
  created_at = now;
  reviewed_by = none;
  reviewed_at = none;
  posted_by = none;
  posted_at = none;
  updated_at = now;
}

-- The two updates at the end: the reversal is posted, and the original marked as reversed by it.
unfoldable pub link_reversal :
    ℕ → ℕ → JournalEntry → JournalEntry → Text → Option ℕ → ℕ → Store → Store
link_reversal id rev_id original rev number user now s =
    put_entry id
      (record original { status = reversed; reversed_by_entry_id = some rev_id; updated_at = now })
      (put_entry rev_id
        (record rev {
          status = posted;
          entry_no = some number;
          posted_by = user;
          posted_at = some now;
          updated_at = now;
        })
        s)

-- The query for the target names no order; the first row that fits is taken.
unfoldable pub reversal_period : Store → ℕ → Text → Option PeriodRef
reversal_period s entity_id rev_date =
    find_by (λ p. covers entity_id rev_date p && is_operational p) (map period_row s.periods)

unfoldable pub reverse_entry :
    ℕ → ℕ → Text → Option Text → Text → Option ℕ → ℕ → Store → Result LedgerError Store
reverse_entry id rev_id reason reversal_date today user now s = do
  throw_if (is_empty (trim reason)) reversal_reason_missing
  original ← or_throw (find_entry id s) entry_not_found
  posting_step (assert_can_reverse original.status original.reversed_by_entry_id)
  let rev_date = or_else reversal_date today
  posting_step (assert_reversal_date original.accounting_date rev_date)
  target ← or_throw (reversal_period s original.legal_entity_id rev_date) no_reversal_period
  posting_step (assert_period_accepts_posting target reversal)
  posting_step (assert_date_in_period rev_date target)
  let rev = reversal_row id original target rev_date today (trim reason) user now
  throw_if (breaks_event_index rev s.entries) duplicate_event
  let saved = put_lines rev_id (build_reversal_lines (s.lines id)) (put_entry rev_id rev s)
  numbered ← next_entry_no saved target.fiscal_year_id original.journal_id
  ok (link_reversal id rev_id original rev numbered.0 user now numbered.1)

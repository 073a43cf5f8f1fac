-- ===== src/Accounting/Ledger/Closing.antt =====
-- `closePeriod` and `reopenPeriod` (src/modules/accounting/accounting.service.ts).
use ume_pms_v2_backend.Prelude.{
  is_empty, ℕ, Bool, true, false, not, ◌&&◌, Option, some, Text, trim, Result, ok, ◌>>=◌, ◌>>◌,
  throw_if, or_throw, if◌then◌else◌, ◌==◌, any_by, lookup, insert, id_eq,
}
use ume_pms_v2_backend.Accounting.Posting.Types.{
  EntryStatus, draft, PeriodStatus, open_period, soft_closed, hard_closed,
}
use ume_pms_v2_backend.Accounting.Ledger.Types.{
  JournalEntry, Store, LedgerError, close_reason_missing, period_not_found, period_closed_for_good,
  period_already_soft_closed, period_has_drafts, reopen_reason_missing, period_already_open,
}

abbrev pub is_hard_closed : PeriodStatus → Bool
is_hard_closed hard_closed = true
is_hard_closed _ = false

abbrev pub is_soft_closed : PeriodStatus → Bool
is_soft_closed soft_closed = true
is_soft_closed _ = false

abbrev pub is_open : PeriodStatus → Bool
is_open open_period = true
is_open _ = false

abbrev pub is_draft : EntryStatus → Bool
is_draft draft = true
is_draft _ = false

-- A draft of the period; `drafts > 0` holds when there is one.
abbrev pub draft_in : ℕ → ℕ × JournalEntry → Bool
draft_in period_id (_, e) = (e.fiscal_period_id == period_id) && is_draft e.status

unfoldable pub close_period : ℕ → Bool → Text → Option ℕ → ℕ → Store → Result LedgerError Store
close_period id hard reason user now s = do
  throw_if (is_empty (trim reason)) close_reason_missing
  p ← or_throw (lookup id s.periods) period_not_found
  throw_if (is_hard_closed p.row.status) period_closed_for_good
  throw_if (not hard && is_soft_closed p.row.status) period_already_soft_closed
  throw_if (any_by (draft_in id) s.entries) period_has_drafts
  let row = p.row
  ok (record s {
    periods =
        insert id
          (record p {
            row = record row { status = if hard then hard_closed else soft_closed };
            closed_by = user;
            closed_at = some now;
            close_reason = some (trim reason);
          })
          s.periods;
  })

unfoldable pub reopen_period : ℕ → Text → Option ℕ → ℕ → Store → Result LedgerError Store
reopen_period id reason user now s = do
  throw_if (is_empty (trim reason)) reopen_reason_missing
  p ← or_throw (lookup id s.periods) period_not_found
  throw_if (is_hard_closed p.row.status) period_closed_for_good
  throw_if (is_open p.row.status) period_already_open
  let row = p.row
  ok (record s {
    periods =
        insert id
          (record p {
            row = record row { status = open_period };
            reopened_by = user;
            reopened_at = some now;
            reopen_reason = some (trim reason);
          })
          s.periods;
  })

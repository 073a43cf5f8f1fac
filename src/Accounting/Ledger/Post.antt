-- ===== src/Accounting/Ledger/Post.antt =====
-- `post` (src/modules/accounting/accounting.service.ts).
use ume_pms_v2_backend.Prelude.{
  ℕ, not, Option, some, List, [], ◌∷◌, Text, ℤ, pos, ◌+ℤ◌, round2, Result, ok, ◌>>=◌, ◌>>◌,
  throw_if, or_throw, ltb, ◌==◌, length, lookup, id_eq,
}
use ume_pms_v2_backend.Accounting.Posting.Types.{posted, AccountRef, PreparedLine}
use ume_pms_v2_backend.Accounting.Posting.Lines.{assert_balanced}
use ume_pms_v2_backend.Accounting.Posting.Periods.{
  assert_date_in_period, assert_period_accepts_posting,
}
use ume_pms_v2_backend.Accounting.Posting.Transitions.{assert_can_post}
use ume_pms_v2_backend.Accounting.Ledger.Types.{
  JournalEntry, Store, LedgerError, posting_step, find_entry, put_entry, entry_not_found,
  period_missing, few_stored_lines, line_account_missing, line_account_inactive,
  line_account_not_postable, line_account_of_other_entity,
}
use ume_pms_v2_backend.Accounting.Ledger.Context.{next_entry_no}

-- The accounts of the stored lines, read again.
unfoldable pub check_stored_lines :
    (ℕ → Option AccountRef) → ℕ → List PreparedLine → Result LedgerError (Unit {0})
check_stored_lines accounts entity_id [] = ok tt
check_stored_lines accounts entity_id (l ∷ ls) = do
  a ← or_throw (accounts l.account_id) line_account_missing
  throw_if (not a.is_active) line_account_inactive
  throw_if (not a.is_postable) line_account_not_postable
  throw_if (not (a.legal_entity_id == entity_id)) line_account_of_other_entity
  check_stored_lines accounts entity_id ls

-- `lines.reduce((s, l) => round2(s + n(l.debit_eur)), 0)`
unfoldable pub reduce_debit_eur : ℤ → List PreparedLine → ℤ
reduce_debit_eur s [] = s
reduce_debit_eur s (l ∷ ls) = reduce_debit_eur (round2 (s +ℤ l.debit_eur)) ls

unfoldable pub reduce_credit_eur : ℤ → List PreparedLine → ℤ
reduce_credit_eur s [] = s
reduce_credit_eur s (l ∷ ls) = reduce_credit_eur (round2 (s +ℤ l.credit_eur)) ls

unfoldable pub posted_row : Text → ℤ → ℤ → Option ℕ → ℕ → JournalEntry → JournalEntry
posted_row number td tc user now entry = record entry {
  status = posted;
  entry_no = some number;
  total_debit_eur = td;
  total_credit_eur = tc;
  posted_by = user;
  posted_at = some now;
  updated_at = now;
}

unfoldable pub post : ℕ → Option ℕ → ℕ → Store → Result LedgerError Store
post id user now s = do
  entry ← or_throw (find_entry id s) entry_not_found
  posting_step (assert_can_post entry.status)
  period ← or_throw (lookup entry.fiscal_period_id s.periods) period_missing
  posting_step (assert_period_accepts_posting period.row entry.accounting_event_type)
  posting_step (assert_date_in_period entry.accounting_date period.row)
  let lines = s.lines id
  throw_if (ltb (length lines) 2) few_stored_lines
  check_stored_lines s.accounts entry.legal_entity_id lines
  let td = round2 (reduce_debit_eur (pos 0) lines)
  let tc = round2 (reduce_credit_eur (pos 0) lines)
  posting_step
      (assert_balanced (record { lines = []; total_debit_eur = td; total_credit_eur = tc }))
  numbered ← next_entry_no s entry.fiscal_year_id entry.journal_id
  ok (put_entry id (posted_row numbered.0 td tc user now entry) numbered.1)

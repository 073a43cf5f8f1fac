-- ===== src/Payments/Tests/Batch.antt =====
-- A batch that settles the rest of an invoice with cash and what is left of a note.
use ume_pms_v2_backend.Prelude.{
  ℕ, ◌+◌, ◌≡◌, refl, some, List, [], ◌∷◌, codes, ℤ, pos, cents, Result, ok, err, text_eq, trim,
  trim_start, to_upper, lookup, insert, is_iso_date, round2, floor_div, ◌+ℤ◌, ◌-ℤ◌, id_eq,
  text_eq_inst,
}
use ume_pms_v2_backend.Accounting.Posting.Types.{value}
use ume_pms_v2_backend.Payments.Derivation.{
  Invoice, norm_ccy, is_legacy_settled, sum_payments, sum_allocations, actual_paid, status_of,
  derive_payment_state,
}
use ume_pms_v2_backend.Payments.Service.{payments_of, allocations_of, recompute}
use ume_pms_v2_backend.Payments.Service.Coherence.{IsCoherent}
use ume_pms_v2_backend.Payments.CreditBatch.{
  BatchError, note_exceeded, assert_open, cash_amount, credit_amount, check_lines, check_credits,
  check_notes, check_cash, assert_credit_batch,
}
use ume_pms_v2_backend.Payments.Batch.{
  BatchDto, named_allocations, settled_map, cash_rows, credit_rows, recompute_all, BatchResult,
  create_batch,
}
use ume_pms_v2_backend.Payments.Batch.Coherence.{create_batch-IsCoherent}
use ume_pms_v2_backend.Payments.CreditBatch.Limits.{
  IsWithinNotes, IsWithinTotals, assert_credit_batch-IsWithin,
}
use ume_pms_v2_backend.Payments.Tests.{invoice, note, tables, tables-IsCoherent}

-- 40.00 in cash and the 10.00 that are left of the note.
abbrev batch : BatchDto
batch = record {
  supplier_id = some 5;
  payment_date = codes "2026-10-06";
  lines = record { invoice_id = 1; amount = value (cents 4_000) } ∷ [];
  credits = record { credit_note_id = 2; invoice_id = 1; amount = value (cents 1_000) } ∷ [];
}

abbrev column : ℤ → ℤ
column a = a

abbrev fresh : ℕ → ℕ
fresh k = 100 + k

abbrev result_or : BatchResult → Result BatchError BatchResult → BatchResult
result_or d (ok r) = r
result_or d (err e) = d

abbrev settled_batch : BatchResult
settled_batch =
    result_or (record { transfer = []; tables = tables }) (create_batch column fresh batch tables)

batch_settled : create_batch column fresh batch tables ≡ ok settled_batch
unfolding create_batch assert_credit_batch check_lines check_credits check_notes check_cash
    assert_open cash_amount credit_amount named_allocations settled_map cash_rows credit_rows
    recompute_all recompute payments_of allocations_of derive_payment_state actual_paid sum_payments
    sum_allocations status_of norm_ccy is_legacy_settled is_iso_date text_eq trim trim_start
    to_upper lookup insert round2 floor_div ◌+ℤ◌ ◌-ℤ◌
batch_settled = refl

-- The transfer is the cash.
batch_transfer : settled_batch.transfer ≡ (codes "USD", cents 4_000) ∷ []
unfolding create_batch assert_credit_batch check_lines check_credits check_notes check_cash
    assert_open cash_amount credit_amount named_allocations settled_map cash_rows credit_rows
    recompute_all recompute payments_of allocations_of derive_payment_state actual_paid sum_payments
    sum_allocations status_of norm_ccy is_legacy_settled is_iso_date text_eq trim trim_start
    to_upper lookup insert round2 floor_div ◌+ℤ◌ ◌-ℤ◌
batch_transfer = refl

create_batch-IsCoherent_example : IsCoherent settled_batch.tables
create_batch-IsCoherent_example =
    create_batch-IsCoherent column fresh batch tables tables-IsCoherent batch_settled

-- What was settled before: 50.00 of the invoice, 20.00 of the note.
abbrev settled : List (ℕ × ℤ)
settled = (1, pos 5_000_000_000) ∷ (2, pos 2_000_000_000) ∷ []

abbrev both : List (ℕ × Invoice)
both = (1, invoice) ∷ (2, note) ∷ []

batch_checked :
    assert_credit_batch 5 both settled batch.lines batch.credits
    ≡ ok ((codes "USD", cents 4_000) ∷ [])
unfolding assert_credit_batch check_lines check_credits check_notes check_cash assert_open
    cash_amount credit_amount is_legacy_settled norm_ccy text_eq trim trim_start to_upper lookup
    insert round2 floor_div ◌+ℤ◌ ◌-ℤ◌
batch_checked = refl

assert_credit_batch-IsWithin_example :
    IsWithinNotes both settled batch.credits × IsWithinTotals both settled batch.lines batch.credits
assert_credit_batch-IsWithin_example =
    assert_credit_batch-IsWithin 5 both settled batch.lines batch.credits
      ((refl, refl), ((refl, refl), tt)) ((refl, refl), tt) batch_checked

-- A cent more than is left of the note is refused.
note_spent :
    assert_credit_batch 5 both settled batch.lines
      (record { credit_note_id = 2; invoice_id = 1; amount = value (cents 1_001) } ∷ [])
    ≡ err note_exceeded
unfolding assert_credit_batch check_lines check_credits check_notes check_cash assert_open
    cash_amount credit_amount is_legacy_settled norm_ccy text_eq trim trim_start to_upper lookup
    insert round2 floor_div ◌+ℤ◌ ◌-ℤ◌
note_spent = refl

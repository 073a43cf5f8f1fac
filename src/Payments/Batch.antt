-- ===== src/Payments/Batch.antt =====
-- `createBatch` (src/modules/payments/payments.service.ts): a transfer that settles invoices of one
-- supplier with cash and credit notes. A missing identifier is one that no invoice has.
pub mod Coherence
use ume_pms_v2_backend.Prelude.{
  ℕ, suc, Bool, true, false, not, ◌||◌, Option, none, some, List, [], ◌∷◌, ◌++◌, map, Text, text_eq,
  is_iso_date, ℤ, pos, ◌+ℤ◌, ◌-ℤ◌, leb_ℤ, ltb_ℤ, abs, round2, Result, ok, err, ◌>>=◌, ◌>>◌,
  throw_if, or_throw, or_else, if◌then◌else◌, ◌==◌, keep, any_by, is_some, length, lookup, insert,
  id_eq, text_eq_inst,
}
use ume_pms_v2_backend.Accounting.Posting.Types.{Raw, absent, value, bad}
use ume_pms_v2_backend.Payments.Derivation.{
  money_tol, norm_ccy, Payment, Allocation, Invoice, InvoiceStatus, cancelled, is_legacy_settled,
  actual_paid,
}
use ume_pms_v2_backend.Payments.Service.{Tables, payments_of, touches, recompute}
use ume_pms_v2_backend.Payments.CreditBatch.{
  number, BatchLine, BatchCredit, BatchError, get, assert_open, cash_amount, credit_amount,
  check_lines, add_to, Uses, check_credits, left_of, settled_of, check_notes, check_cash,
  assert_credit_batch, supplier_missing, bad_payment_date,
}

pub record BatchDto : Type 0 where
  pub supplier_id : Option ℕ
  pub payment_date : Text
  pub lines : List BatchLine
  pub credits : List BatchCredit

-- `ids.includes(id)`
abbrev pub is_named : List BatchLine → List BatchCredit → ℕ → Bool
is_named lines credits id =
    any_by (λ (l : BatchLine). l.invoice_id == id) lines
    || any_by (λ (c : BatchCredit). (c.invoice_id == id) || (c.credit_note_id == id)) credits

abbrev pub named_invoices : BatchDto → List (ℕ × Invoice) → List (ℕ × Invoice)
named_invoices dto invoices =
    keep (λ (p : ℕ × Invoice). is_named dto.lines dto.credits p.0) invoices

-- The applications that touch an invoice of the batch.
unfoldable pub named_allocations : BatchDto → List (ℕ × Allocation) → List Allocation
named_allocations dto [] = []
named_allocations dto ((_, a) ∷ rows) =
    let rest = named_allocations dto rows in
    if is_named dto.lines dto.credits a.invoice_id
      || is_named dto.lines dto.credits a.credit_note_id
    then a ∷ rest
    else rest

unfoldable pub settled_map : Tables → List Allocation → List (ℕ × Invoice) → List (ℕ × ℤ)
settled_map t allocs [] = []
settled_map t allocs ((id, inv) ∷ invoices) =
    (id, actual_paid id inv (payments_of id t.payments) allocs) ∷ settled_map t allocs invoices

abbrev pub currency_of : List (ℕ × Invoice) → ℕ → Option Text
currency_of invoices id = or_else (currency_at (lookup id invoices)) none
  where
    currency_at : Option Invoice → Option (Option Text)
    currency_at none = none
    currency_at (some inv) = some inv.currency

unfoldable pub recompute_all : List (ℕ × Invoice) → Tables → Tables
recompute_all [] t = t
recompute_all ((id, _) ∷ invoices) t = recompute_all invoices (recompute id t)

pub record BatchResult : Type 0 where
  pub transfer : List (Text × ℤ)
  pub tables : Tables

-- `column` is the rounding of an amount to the two decimals of its column; `fresh` gives the
-- identifiers of new rows.
module _ (column : ℤ → ℤ) (fresh : ℕ → ℕ) where
  unfoldable pub cash_rows : List (ℕ × Invoice) → ℕ → List BatchLine → List (ℕ × Payment)
  cash_rows invoices k [] = []
  cash_rows invoices k (l ∷ lines) =
      let rest = cash_rows invoices (suc k) lines in
      if leb_ℤ (number l.amount) (pos 0)
      then rest
      else (
        fresh k,
        record {
          invoice_id = l.invoice_id;
          amount = column (number l.amount);
          currency = currency_of invoices l.invoice_id;
        },
      )
        ∷ rest

  -- `Number(c.amount).toFixed(2)` of a positive amount
  unfoldable pub credit_rows : List (ℕ × Invoice) → ℕ → List BatchCredit → List (ℕ × Allocation)
  credit_rows invoices k [] = []
  credit_rows invoices k (c ∷ credits) =
      (
        fresh k,
        record {
          credit_note_id = c.credit_note_id;
          invoice_id = c.invoice_id;
          amount = round2 (number c.amount);
          currency = some (or_else (currency_of invoices c.invoice_id) []);
        },
      )
      ∷ credit_rows invoices (suc k) credits

  unfoldable pub create_batch : BatchDto → Tables → Result BatchError BatchResult
  create_batch dto t = do
    supplier_id ← or_throw dto.supplier_id supplier_missing
    throw_if (not (is_iso_date dto.payment_date)) bad_payment_date
    let invoices = named_invoices dto t.invoices
    let settled = settled_map t (named_allocations dto t.allocations) invoices
    transfer ← assert_credit_batch supplier_id invoices settled dto.lines dto.credits
    let saved = record t {
      payments = cash_rows invoices 0 dto.lines ++ t.payments;
      allocations = credit_rows invoices 0 dto.credits ++ t.allocations;
    }
    ok (record { transfer = transfer; tables = recompute_all invoices saved })

-- ===== src/Payments/Ledger.antt =====
-- The shared ledger of the payments of hire and management invoices (src/common/payment-ledger.ts,
-- with the two configurations of src/modules/hire-invoices and src/modules/management-invoices).
pub mod Coherence
use ume_pms_v2_backend.Prelude.{
  ℕ, Bool, true, false, ◌||◌, Option, none, some, List, [], ◌∷◌, Text, ℤ, pos, ◌+ℤ◌, leb_ℤ, abs,
  round2, Result, ok, err, ◌>>=◌, ◌>>◌, throw_if, or_throw, if◌then◌else◌, lookup, insert, id_eq,
}
use ume_pms_v2_backend.Accounting.Posting.Types.{Raw}
use ume_pms_v2_backend.Payments.Derivation.{
  money_tol, norm_ccy, Payment, InvoiceStatus, unpaid, partial, paid, sum_payments, PaymentError,
  assert_positive_amount, assert_currency_match, assert_no_overpayment,
}
use ume_pms_v2_backend.Payments.Service.{payments_of, save_payment, delete}

pub data DocType : Type 0 where
  invoice_doc credit_note_doc debit_note_doc : DocType

-- `total` is the column that the configuration names.
pub record LedgerInvoice : Type 0 where
  pub doc_type : DocType
  pub currency : Option Text
  pub total : ℤ
  pub paid_amount : ℤ
  pub status : InvoiceStatus

-- What of the configuration is not a name of a table or a column.
pub record LedgerConfig : Type 0 where
  pub is_outside_payment_cycle : LedgerInvoice → Bool

abbrev pub is_note : DocType → Bool
is_note credit_note_doc = true
is_note debit_note_doc = true
is_note invoice_doc = false

abbrev pub hire_ledger : LedgerConfig
hire_ledger = record { is_outside_payment_cycle = λ inv. is_note inv.doc_type }

abbrev pub management_ledger : LedgerConfig
management_ledger = record { is_outside_payment_cycle = λ inv. false }

unfoldable pub derive_status : ℤ → ℤ → InvoiceStatus
derive_status actual_paid total =
    let amount = abs (round2 actual_paid) in
    let t = abs (round2 total) in
    if leb_ℤ amount money_tol
    then unpaid
    else (if leb_ℤ t (amount +ℤ money_tol) then paid else partial)

unfoldable pub sum_in_invoice_currency : Option Text → List Payment → ℤ
sum_in_invoice_currency currency payments =
    round2 (sum_payments (norm_ccy currency) (pos 0) payments)

pub record LedgerTables : Type 0 where
  pub invoices : List (ℕ × LedgerInvoice)
  pub payments : List (ℕ × Payment)

-- The two columns that `recompute` writes.
unfoldable pub derived_columns : LedgerInvoice → List Payment → ℤ × InvoiceStatus
derived_columns inv payments =
    let amount = sum_in_invoice_currency inv.currency payments in
    (amount, derive_status amount inv.total)

abbrev pub with_columns : LedgerInvoice → ℤ × InvoiceStatus → LedgerInvoice
with_columns inv columns = record inv { paid_amount = columns.0; status = columns.1 }

pub data PaymentLedgerError : Type 0 where
  ledger_invoice_missing is_a_notice : PaymentLedgerError
  payment_error : PaymentError → PaymentLedgerError

abbrev pub guard {ℓ} : {A : Type ℓ} → Result PaymentError A → Result PaymentLedgerError A
guard (ok a) = ok a
guard (err e) = err (payment_error e)

abbrev pub currency_or : Option Text → Option Text → Option Text
currency_or none d = d
currency_or (some c) d = some c

module _ (cfg : LedgerConfig) where
  unfoldable pub recompute : ℕ → LedgerTables → LedgerTables
  recompute id t = elim (lookup id t.invoices) [
    | none ↦ t
    | some inv ↦ if cfg.is_outside_payment_cycle inv then t else record t {
      invoices =
          insert id (with_columns inv (derived_columns inv (payments_of id t.payments))) t.invoices;
    }
  ]

  -- `column` is the rounding of an amount to the decimals of its column. The request is saved as it
  -- comes, so that `body_id`, its identifier, names the row that is overwritten.
  unfoldable pub add_payment_atomic :
      (ℤ → ℤ)
      → ℕ
      → ℕ
      → Option ℕ
      → Raw
      → Option Text
      → LedgerTables
      → Result PaymentLedgerError LedgerTables
  add_payment_atomic column new_id invoice_id body_id amount currency t = do
    inv ← or_throw (lookup invoice_id t.invoices) ledger_invoice_missing
    throw_if (cfg.is_outside_payment_cycle inv) is_a_notice
    a ← guard (assert_positive_amount amount)
    guard (assert_currency_match inv.currency (currency_or currency inv.currency))
    let current = sum_in_invoice_currency inv.currency (payments_of invoice_id t.payments)
    guard (assert_no_overpayment current a inv.total)
    ok (
        recompute invoice_id (record t {
          payments =
              save_payment new_id body_id
                (record { invoice_id = invoice_id; amount = column a; currency = inv.currency })
                t.payments;
        }))

  -- `none` stands for `{ success: false }`.
  unfoldable pub remove_payment_atomic : ℕ → ℕ → LedgerTables → Option LedgerTables
  remove_payment_atomic invoice_id payment_id t = elim (lookup payment_id t.payments) [
    | none ↦ none
    | some p ↦ some (recompute invoice_id (record t { payments = delete payment_id t.payments }))
  ]

-- ===== src/Payments/Service.antt =====
-- `create`, `remove`, `removeAllocation` and `recompute` of
-- src/modules/payments/payments.service.ts. Rows come back from a query in no order that the code
-- relies on; a new row is put in front.
pub mod Rows
pub mod Coherence
use ume_pms_v2_backend.Prelude.{
  ℕ, Bool, true, false, ◌||◌, Option, none, some, List, [], ◌∷◌, Text, ℤ, Result, ok, err, ◌>>=◌,
  ◌>>◌, or_throw, or_else, if◌then◌else◌, ◌==◌, lookup, insert, id_eq,
}
use ume_pms_v2_backend.Accounting.Posting.Types.{Raw}
use ume_pms_v2_backend.Payments.Derivation.{
  Payment, Allocation, Invoice, InvoiceStatus, is_legacy_settled, actual_paid, derive_payment_state,
  PaymentError, assert_positive_amount, assert_currency_match, assert_no_overpayment,
  invoice_not_named, invoice_not_found,
}

pub record Tables : Type 0 where
  pub invoices : List (ℕ × Invoice)
  pub payments : List (ℕ × Payment)
  pub allocations : List (ℕ × Allocation)

-- `find(Payment, { where: { invoice_id } })`
unfoldable pub payments_of : ℕ → List (ℕ × Payment) → List Payment
payments_of id [] = []
payments_of id ((_, p) ∷ ps) =
    if p.invoice_id == id then p ∷ payments_of id ps else payments_of id ps

-- `allocationsOf`: those applied to the invoice or taken from it
abbrev pub touches : ℕ → Allocation → Bool
touches id a = (a.invoice_id == id) || (a.credit_note_id == id)

unfoldable pub allocations_of : ℕ → List (ℕ × Allocation) → List Allocation
allocations_of id [] = []
allocations_of id ((_, a) ∷ rows) =
    if touches id a then a ∷ allocations_of id rows else allocations_of id rows

-- The row of that identifier deleted.
unfoldable pub delete : {V : Type 0} → ℕ → List (ℕ × V) → List (ℕ × V)
delete id [] = []
delete id ((k, v) ∷ m) = if k == id then m else (k, v) ∷ delete id m

abbrev pub with_state : Invoice → ℤ × InvoiceStatus → Invoice
with_state inv state = record inv { paid_amount = state.0; status = state.1 }

unfoldable pub recompute : ℕ → Tables → Tables
recompute id t = elim (lookup id t.invoices) [
  | none ↦ t
  | some inv ↦ if is_legacy_settled inv.settlement_basis then t else record t {
    invoices =
        insert id
          (with_state inv (
            derive_payment_state id inv (payments_of id t.payments)
              (allocations_of id t.allocations)))
          t.invoices;
  }
]

-- `m.save` of a payment: with an identifier in the request the row of that identifier is overwritten, or
-- made if there is none, and without one the row is new.
unfoldable pub save_payment : ℕ → Option ℕ → Payment → List (ℕ × Payment) → List (ℕ × Payment)
save_payment new_id none p ps = (new_id, p) ∷ ps
save_payment new_id (some id) p ps = insert id p ps

-- The request is not checked against a list of fields: it may name an identifier.
pub record PaymentDto : Type 0 where
  pub id : Option ℕ
  pub invoice_id : Option ℕ
  pub amount : Raw
  pub currency : Option Text

-- `column` is the database's rounding of an amount to the two decimals of its column.
module _ (column : ℤ → ℤ) where
  abbrev pub payment_row : ℕ → ℤ → Invoice → Payment
  payment_row invoice_id a inv = record {
    invoice_id = invoice_id;
    amount = column a;
    currency = inv.currency;
  }

  -- `data.currency ?? invoice.currency`
  abbrev pub currency_or : Option Text → Option Text → Option Text
  currency_or none d = d
  currency_or (some c) d = some c

  unfoldable pub create : ℕ → PaymentDto → Tables → Result PaymentError Tables
  create new_id dto t = do
    id ← or_throw dto.invoice_id invoice_not_named
    inv ← or_throw (lookup id t.invoices) invoice_not_found
    a ← assert_positive_amount dto.amount
    assert_currency_match inv.currency (currency_or dto.currency inv.currency)
    let current = actual_paid id inv (payments_of id t.payments) (allocations_of id t.allocations)
    assert_no_overpayment current a inv.total_amount
    ok (
        recompute id
          (record t { payments = save_payment new_id dto.id (payment_row id a inv) t.payments }))

-- `none` stands for `{ deleted: false }`, with nothing changed.
unfoldable pub remove : ℕ → Tables → Option Tables
remove id t = elim (lookup id t.payments) [
  | none ↦ none
  | some p ↦ some (recompute p.invoice_id (record t { payments = delete id t.payments }))
]

unfoldable pub remove_allocation : ℕ → Tables → Option Tables
remove_allocation id t = elim (lookup id t.allocations) [
  | none ↦ none
  | some a ↦ some (
      recompute a.credit_note_id
        (recompute a.invoice_id (record t { allocations = delete id t.allocations })))
]

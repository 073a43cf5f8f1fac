-- ===== src/Payments/Tests/Ledger.antt =====
-- The shared ledger of payments with two hire invoices.
use ume_pms_v2_backend.Prelude.{
  ℕ, ◌≡◌, refl, Option, none, some, some-injective, [], ◌∷◌, codes, ℤ, pos, cents, Result, ok, err,
  text_eq, trim, trim_start, to_upper, lookup, insert, id_eq, round2, floor_div, ◌+ℤ◌, Bool-cases,
  inl, inr, ◌==◌, ==→eq, sym,
}
use ume_pms_v2_backend.Accounting.Posting.Types.{value}
use ume_pms_v2_backend.Payments.Derivation.{
  Payment, unpaid, partial, norm_ccy, sum_payments, assert_positive_amount, assert_currency_match,
  assert_no_overpayment,
}
use ume_pms_v2_backend.Payments.Service.{payments_of, save_payment, delete}
use ume_pms_v2_backend.Payments.Ledger.{
  LedgerInvoice, invoice_doc, credit_note_doc, LedgerTables, hire_ledger, derive_status,
  sum_in_invoice_currency, derived_columns, PaymentLedgerError, is_a_notice, recompute,
  add_payment_atomic, remove_payment_atomic,
}
use ume_pms_v2_backend.Payments.Ledger.Coherence.{
  IsDerived, IsDerivedAt, add_payment_atomic-IsDerived, remove_payment_atomic-IsDerived,
}

abbrev hire : LedgerInvoice
hire = record {
  doc_type = invoice_doc;
  currency = some (codes "USD");
  total = cents 10_000;
  paid_amount = cents 4_000;
  status = partial;
}

abbrev hire_payment : ℕ → Payment
hire_payment id = record { invoice_id = id; amount = cents 4_000; currency = some (codes "usd") }

-- Two invoices of 100.00, 40.00 paid of each, and a credit note.
abbrev tables : LedgerTables
tables = record {
  invoices =
      (1, hire)
      ∷ (2, hire)
      ∷ (3, record hire { doc_type = credit_note_doc; paid_amount = pos 0; status = unpaid })
      ∷ [];
  payments = (8, hire_payment 1) ∷ (9, hire_payment 2) ∷ [];
}

tables-IsDerived : IsDerived hire_ledger tables
unfolding derived_columns derive_status sum_in_invoice_currency sum_payments payments_of norm_ccy
    text_eq trim trim_start to_upper lookup round2 floor_div ◌+ℤ◌
tables-IsDerived j inv f l = elim (Bool-cases (1 == j)) [
  | inl e ↦ rw (sym (==→eq 1 j e), sym (some-injective _ _ (rw e at f))) refl
  | inr e ↦ elim (Bool-cases (2 == j)) [
    | inl g ↦ rw (sym (==→eq 2 j g), sym (some-injective _ _ (rw (e, g) at f))) refl
    | inr g ↦ elim (Bool-cases (3 == j)) [
      | inl h ↦ cc (rw (sym (some-injective _ _ (rw (e, g, h) at f))) at l)
      | inr h ↦ cc (rw (e, g, h) at f)
    ]
  ]
]

abbrev column : ℤ → ℤ
column a = a

abbrev added_or : LedgerTables → Result PaymentLedgerError LedgerTables → LedgerTables
added_or t (ok u) = u
added_or t (err e) = t

abbrev removed_or : LedgerTables → Option LedgerTables → LedgerTables
removed_or t none = t
removed_or t (some u) = u

abbrev after_add : LedgerTables
after_add =
    added_or tables
      (add_payment_atomic hire_ledger column 10 1 none (value (cents 6_000)) none tables)

added :
    add_payment_atomic hire_ledger column 10 1 none (value (cents 6_000)) none tables ≡ ok after_add
unfolding add_payment_atomic save_payment recompute derived_columns derive_status
    sum_in_invoice_currency sum_payments payments_of norm_ccy text_eq trim trim_start to_upper
    lookup insert assert_positive_amount assert_currency_match assert_no_overpayment round2
    floor_div ◌+ℤ◌
added = refl

-- A credit note takes no payment.
notice_refused :
    add_payment_atomic hire_ledger column 10 3 none (value (cents 100)) none tables
    ≡ err is_a_notice
unfolding add_payment_atomic lookup
notice_refused = refl

add_payment_atomic-IsDerived_example : IsDerivedAt hire_ledger 2 after_add
add_payment_atomic-IsDerived_example =
    add_payment_atomic-IsDerived hire_ledger column 10 1 none (value (cents 6_000)) none tables
      tables-IsDerived added 2 (inl (λ e. cc))

-- A request for invoice 1 with the identifier of the payment of invoice 2 takes that payment over.
abbrev taken : LedgerTables
taken =
    added_or tables
      (add_payment_atomic hire_ledger column 10 1 (some 9) (value (cents 100)) none tables)

taken_stale : (lookup 2 taken.invoices ≡ some hire) × (payments_of 2 taken.payments ≡ [])
unfolding add_payment_atomic save_payment recompute derived_columns derive_status
    sum_in_invoice_currency sum_payments payments_of norm_ccy text_eq trim trim_start to_upper
    lookup insert assert_positive_amount assert_currency_match assert_no_overpayment round2
    floor_div ◌+ℤ◌
taken_stale = (refl, refl)

abbrev after_remove : LedgerTables
after_remove = removed_or tables (remove_payment_atomic hire_ledger 1 8 tables)

removed : remove_payment_atomic hire_ledger 1 8 tables ≡ some after_remove
unfolding remove_payment_atomic recompute delete derived_columns derive_status
    sum_in_invoice_currency sum_payments payments_of norm_ccy text_eq trim trim_start to_upper
    lookup insert round2 floor_div ◌+ℤ◌
removed = refl

found : lookup 8 tables.payments ≡ some (hire_payment 1)
unfolding lookup
found = refl

remove_payment_atomic-IsDerived_example : IsDerivedAt hire_ledger 1 after_remove
remove_payment_atomic-IsDerived_example =
    remove_payment_atomic-IsDerived hire_ledger 1 8 (hire_payment 1) tables tables-IsDerived found
      removed 1 (inr refl)

-- The request names invoice 1 and a payment of invoice 2: the payment goes, and invoice 2 still shows
-- 40.00 as paid.
abbrev mismatched : LedgerTables
mismatched = removed_or tables (remove_payment_atomic hire_ledger 1 9 tables)

stale_amount : lookup 2 mismatched.invoices ≡ some hire
unfolding remove_payment_atomic recompute delete derived_columns derive_status
    sum_in_invoice_currency sum_payments payments_of norm_ccy text_eq trim trim_start to_upper
    lookup insert round2 floor_div ◌+ℤ◌
stale_amount = refl

no_payment_left : payments_of 2 mismatched.payments ≡ []
unfolding remove_payment_atomic recompute delete derived_columns derive_status
    sum_in_invoice_currency sum_payments payments_of norm_ccy text_eq trim trim_start to_upper
    lookup insert round2 floor_div ◌+ℤ◌
no_payment_left = refl

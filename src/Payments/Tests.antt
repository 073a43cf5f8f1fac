-- ===== src/Payments/Tests.antt =====
-- Payments of src/modules/payments/payments.service.ts run on an invoice and a credit note of one
-- supplier, and the theorems applied there.
mod Batch
mod Ledger
use ume_pms_v2_backend.Prelude.{
  ◌≡◌, refl, Option, none, some, some-injective, [], ◌∷◌, codes, ℤ, pos, negsuc, Result, ok, err,
  round2, floor_div, ◌+ℤ◌, ◌-ℤ◌, text_eq, trim, trim_start, to_upper, Bool-cases, inl, inr, ==→eq,
  ◌==◌, lookup, insert, id_eq, ◌≤ℤ◌, ◌<ℤ◌, round2_near, sym, IsCents,
}
use ume_pms_v2_backend.Accounting.Posting.Types.{value}
use ume_pms_v2_backend.Payments.Derivation.{
  Invoice, partial, unpaid, norm_ccy, is_legacy_settled, sum_payments, sum_allocations, actual_paid,
  status_of, derive_payment_state, PaymentError, overpayment, assert_positive_amount,
  assert_currency_match, assert_no_overpayment,
}
use ume_pms_v2_backend.Payments.Service.{
  Tables, save_payment, payments_of, allocations_of, delete, recompute, PaymentDto, create, remove,
  remove_allocation,
}
use ume_pms_v2_backend.Payments.Service.Coherence.{
  IsCoherent, IsCoherentAt, create-IsCoherent, remove-IsCoherent, remove_allocation-IsCoherent,
}

abbrev pub invoice : Invoice
invoice = record {
  supplier_id = 5;
  currency = some (codes "usd");
  total_amount = pos 10_000_000_000;
  settlement_basis = none;
  paid_amount = pos 5_000_000_000;
  status = partial;
}

-- A credit note of 30.00, of which 20.00 are applied to the invoice.
abbrev pub note : Invoice
note = record {
  supplier_id = 5;
  currency = none;
  total_amount = negsuc 2_999_999_999;
  settlement_basis = none;
  paid_amount = negsuc 1_999_999_999;
  status = partial;
}

abbrev pub tables : Tables
tables = record {
  invoices = (1, invoice) ∷ (2, note) ∷ [];
  payments =
      (8, record { invoice_id = 1; amount = pos 3_000_000_000; currency = some (codes "USD") })
      ∷ [];
  allocations =
      (
        9,
        record {
          credit_note_id = 2;
          invoice_id = 1;
          amount = pos 2_000_000_000;
          currency = some (codes "USD");
        },
      )
      ∷ [];
}

pub tables-IsCoherent : IsCoherent tables
unfolding create save_payment remove remove_allocation recompute payments_of allocations_of delete
    derive_payment_state actual_paid sum_payments sum_allocations status_of norm_ccy
    is_legacy_settled assert_positive_amount assert_currency_match assert_no_overpayment text_eq
    trim trim_start to_upper lookup insert round2 floor_div ◌+ℤ◌ ◌-ℤ◌
tables-IsCoherent j inv f l = elim (Bool-cases (1 == j)) [
  | inl e ↦ rw (sym (==→eq 1 j e), sym (some-injective _ _ (rw e at f))) refl
  | inr e ↦ elim (Bool-cases (2 == j)) [
    | inl g ↦ rw (sym (==→eq 2 j g), sym (some-injective _ _ (rw (e, g) at f))) refl
    | inr g ↦ cc (rw (e, g) at f)
  ]
]

abbrev after : Result PaymentError Tables → Tables
after (ok t) = t
after (err e) = tables

abbrev after_removal : Option Tables → Tables
after_removal (some t) = t
after_removal none = tables

abbrev dto : ℤ → PaymentDto
dto a = record { id = none; invoice_id = some 1; amount = value a; currency = none }

create_ok :
    create round2 10 (dto (pos 5_000_000_000)) tables
    ≡ ok (after (create round2 10 (dto (pos 5_000_000_000)) tables))
unfolding create save_payment remove remove_allocation recompute payments_of allocations_of delete
    derive_payment_state actual_paid sum_payments sum_allocations status_of norm_ccy
    is_legacy_settled assert_positive_amount assert_currency_match assert_no_overpayment text_eq
    trim trim_start to_upper lookup insert round2 floor_div ◌+ℤ◌ ◌-ℤ◌
create_ok = refl

-- 50.01 is refused where 50.00 are open, and 30.00 would be open without the credit note.
create_refuses : create round2 10 (dto (pos 5_001_000_000)) tables ≡ err overpayment
unfolding create save_payment remove remove_allocation recompute payments_of allocations_of delete
    derive_payment_state actual_paid sum_payments sum_allocations status_of norm_ccy
    is_legacy_settled assert_positive_amount assert_currency_match assert_no_overpayment text_eq
    trim trim_start to_upper lookup insert round2 floor_div ◌+ℤ◌ ◌-ℤ◌
create_refuses = refl

remove_ok : remove 8 tables ≡ some (after_removal (remove 8 tables))
unfolding create save_payment remove remove_allocation recompute payments_of allocations_of delete
    derive_payment_state actual_paid sum_payments sum_allocations status_of norm_ccy
    is_legacy_settled assert_positive_amount assert_currency_match assert_no_overpayment text_eq
    trim trim_start to_upper lookup insert round2 floor_div ◌+ℤ◌ ◌-ℤ◌
remove_ok = refl

remove_allocation_ok :
    remove_allocation 9 tables ≡ some (after_removal (remove_allocation 9 tables))
unfolding create save_payment remove remove_allocation recompute payments_of allocations_of delete
    derive_payment_state actual_paid sum_payments sum_allocations status_of norm_ccy
    is_legacy_settled assert_positive_amount assert_currency_match assert_no_overpayment text_eq
    trim trim_start to_upper lookup insert round2 floor_div ◌+ℤ◌ ◌-ℤ◌
remove_allocation_ok = refl

create-IsCoherent_example :
    IsCoherentAt 2 (after (create round2 10 (dto (pos 5_000_000_000)) tables))
create-IsCoherent_example =
    create-IsCoherent round2 10 (dto (pos 5_000_000_000)) tables tables-IsCoherent create_ok 2
      (inl (λ e. cc))

-- A request for invoice 3 with the identifier of the payment of invoice 1 takes that payment over:
-- invoice 1 has no payment left, and still shows 50.00 as paid.
abbrev taken : Tables
taken = after (
    create round2 10 (record (dto (pos 1_000_000_000)) { id = some 8; invoice_id = some 3 })
      (record tables {
        invoices = (3, record invoice { paid_amount = pos 0; status = unpaid }) ∷ tables.invoices;
      }))

taken_stale : (lookup 1 taken.invoices ≡ some invoice) × (payments_of 1 taken.payments ≡ [])
unfolding create save_payment remove remove_allocation recompute payments_of allocations_of delete
    derive_payment_state actual_paid sum_payments sum_allocations status_of norm_ccy
    is_legacy_settled assert_positive_amount assert_currency_match assert_no_overpayment text_eq
    trim trim_start to_upper lookup insert round2 floor_div ◌+ℤ◌ ◌-ℤ◌
taken_stale = (refl, refl)

remove-IsCoherent_example : IsCoherent (after_removal (remove 8 tables))
remove-IsCoherent_example = remove-IsCoherent 8 tables tables-IsCoherent remove_ok

remove_allocation-IsCoherent_example : IsCoherent (after_removal (remove_allocation 9 tables))
remove_allocation-IsCoherent_example =
    remove_allocation-IsCoherent 9 tables tables-IsCoherent remove_allocation_ok

-- A tie below zero is rounded up, to -1.01.
round2_near_example :
    IsCents (round2 (negsuc 101_499_999))
    × (round2 (negsuc 101_499_999) ≤ℤ negsuc 101_499_999 +ℤ pos 500_000)
    × (negsuc 101_499_999 <ℤ round2 (negsuc 101_499_999) +ℤ pos 500_000)
round2_near_example = round2_near (negsuc 101_499_999)

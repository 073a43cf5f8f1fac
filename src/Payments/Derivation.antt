-- ===== src/Payments/Derivation.antt =====
-- The state of payment derived from the rows (src/common/payment-derivation.ts).
use ume_pms_v2_backend.Prelude.{
  ℕ, Bool, true, false, not, Option, none, some, List, [], ◌∷◌, Text, codes, text_eq, trim,
  to_upper, ℤ, pos, ◌+ℤ◌, ◌-ℤ◌, leb_ℤ, ltb_ℤ, abs, round2, Result, ok, err, throw_if, if◌then◌else◌,
  ◌==◌,
}
use ume_pms_v2_backend.Accounting.Posting.Types.{Raw, absent, value, bad}

-- `MONEY_TOL`, 0.005
abbrev pub money_tol : ℤ
money_tol = pos 500_000

-- `c || 'USD'`, trimmed and in capitals
unfoldable pub norm_ccy : Option Text → Text
norm_ccy none = codes "USD"
norm_ccy (some []) = codes "USD"
norm_ccy (some (c ∷ s)) = to_upper (trim (c ∷ s))

pub data SettlementBasis : Type 0 where
  pre_system_settled credit_note other_basis : SettlementBasis

pub data InvoiceStatus : Type 0 where
  unpaid partial paid cancelled other_status : InvoiceStatus

pub record Payment : Type 0 where
  pub invoice_id : ℕ
  pub amount : ℤ
  pub currency : Option Text

pub record Allocation : Type 0 where
  pub credit_note_id : ℕ
  pub invoice_id : ℕ
  pub amount : ℤ
  pub currency : Option Text

pub record Invoice : Type 0 where
  pub supplier_id : ℕ
  pub currency : Option Text
  pub total_amount : ℤ
  pub settlement_basis : Option SettlementBasis
  pub paid_amount : ℤ
  pub status : InvoiceStatus

unfoldable pub is_legacy_settled : Option SettlementBasis → Bool
is_legacy_settled (some pre_system_settled) = true
is_legacy_settled (some credit_note) = true
is_legacy_settled (some other_basis) = false
is_legacy_settled none = false

-- The payments in the currency `c`, added to `s`.
unfoldable pub sum_payments : Text → ℤ → List Payment → ℤ
sum_payments c s [] = s
sum_payments c s (p ∷ ps) =
    sum_payments c (if text_eq (norm_ccy p.currency) c then s +ℤ p.amount else s) ps

-- What the applications of credit notes add to the invoice `id`, less what was taken from it if it is
-- a note itself, added to `s`.
unfoldable pub sum_allocations : Text → ℕ → ℤ → List Allocation → ℤ
sum_allocations c id s [] = s
sum_allocations c id s (a ∷ rows) =
    sum_allocations c id
      (if text_eq (norm_ccy a.currency) c
        then s
          +ℤ (if a.invoice_id == id then a.amount else pos 0)
          -ℤ (if a.credit_note_id == id then a.amount else pos 0)
        else s)
      rows

unfoldable pub actual_paid : ℕ → Invoice → List Payment → List Allocation → ℤ
actual_paid id inv payments allocations =
    let c = norm_ccy inv.currency in
    round2 (sum_payments c (pos 0) payments +ℤ sum_allocations c id (pos 0) allocations)

-- The status by the amounts alone.
unfoldable pub status_of : ℤ → ℤ → InvoiceStatus
status_of paid_amount total =
    let mag = abs paid_amount in
    let total_mag = abs total in
    if leb_ℤ mag money_tol
    then unpaid
    else (if leb_ℤ total_mag (mag +ℤ money_tol) then paid else partial)

unfoldable pub derive_payment_state :
    ℕ → Invoice → List Payment → List Allocation → ℤ × InvoiceStatus
derive_payment_state id inv payments allocations =
    let paid_amount = actual_paid id inv payments allocations in
    (paid_amount, status_of paid_amount (round2 inv.total_amount))

pub data PaymentError : Type 0 where
  amount_not_positive currency_mismatch overpayment invoice_not_named invoice_not_found :
      PaymentError

-- The amount comes from a request; `Number` of a missing one is no number or 0.
unfoldable pub assert_positive_amount : Raw → Result PaymentError ℤ
assert_positive_amount absent = err amount_not_positive
assert_positive_amount bad = err amount_not_positive
assert_positive_amount (value a) = if leb_ℤ a (pos 0) then err amount_not_positive else ok a

unfoldable pub assert_currency_match : Option Text → Option Text → Result PaymentError (Unit {0})
assert_currency_match invoice_currency payment_currency =
    throw_if (not (text_eq (norm_ccy invoice_currency) (norm_ccy payment_currency)))
      currency_mismatch

unfoldable pub assert_no_overpayment : ℤ → ℤ → ℤ → Result PaymentError (Unit {0})
assert_no_overpayment current_paid new_amount invoice_total =
    let total = abs (round2 invoice_total) in
    let after = round2 (abs (round2 current_paid) +ℤ abs new_amount) in
    throw_if (ltb_ℤ (total +ℤ money_tol) after) overpayment

-- ===== src/Common/CurrencyTotals.antt =====
-- Totals of invoices, a book for each currency (src/common/currency-totals.ts). Amounts are those of
-- columns, a missing one is 0.
pub mod Sources
pub mod Split
use ume_pms_v2_backend.Prelude.{
  ℕ, ◌+◌, Bool, true, false, Option, none, some, List, [], ◌∷◌, map, Text, ℤ, pos, ◌+ℤ◌, ◌-ℤ◌,
  ltb_ℤ, abs, round2, if◌then◌else◌, lookup, insert, text_eq_inst, sort_by, or_else, ltb, length,
}
use ume_pms_v2_backend.Payments.Derivation.{
  Payment, SettlementBasis, pre_system_settled, credit_note, other_basis, norm_ccy, sum_payments,
}

pub record CurrencyTotals : Type 0 where
  pub currency : Text
  pub invoiced : ℤ
  pub paid : ℤ
  pub outstanding : ℤ
  pub invoice_count : ℕ
  pub paid_via_pms : ℤ
  pub settled_pre_system : ℤ
  pub credit_note_offset : ℤ
  pub unevidenced_residual : ℤ

pub record InvoiceRow : Type 0 where
  pub currency : Option Text
  pub total_amount : ℤ
  pub paid_amount : ℤ
  pub settlement_basis : Option SettlementBasis
  pub payments : List Payment

abbrev pub no_totals : Text → CurrencyTotals
no_totals c = record {
  currency = c;
  invoiced = pos 0;
  paid = pos 0;
  outstanding = pos 0;
  invoice_count = 0;
  paid_via_pms = pos 0;
  settled_pre_system = pos 0;
  credit_note_offset = pos 0;
  unevidenced_residual = pos 0;
}

-- What was not paid inside the system, under the source that the invoice names.
unfoldable pub add_rest : Option SettlementBasis → ℤ → CurrencyTotals → CurrencyTotals
add_rest (some pre_system_settled) rest t = record t {
  settled_pre_system = round2 (t.settled_pre_system +ℤ rest);
}
add_rest (some credit_note) rest t = record t {
  credit_note_offset = round2 (t.credit_note_offset +ℤ rest);
}
add_rest (some other_basis) rest t = record t {
  unevidenced_residual = round2 (t.unevidenced_residual +ℤ rest);
}
add_rest none rest t = record t { unevidenced_residual = round2 (t.unevidenced_residual +ℤ rest) }

abbrev pub rest_of : InvoiceRow → ℤ
rest_of r = round2 (r.paid_amount -ℤ sum_payments (norm_ccy r.currency) (pos 0) r.payments)

-- The body of the loop, on the totals of the currency of the row; 500_000 units are 0.005.
unfoldable pub add_row : InvoiceRow → CurrencyTotals → CurrencyTotals
add_row r t =
    let via_pms = sum_payments (norm_ccy r.currency) (pos 0) r.payments in
    let counted = record t {
      invoiced = round2 (t.invoiced +ℤ r.total_amount);
      paid = round2 (t.paid +ℤ r.paid_amount);
      invoice_count = t.invoice_count + 1;
      paid_via_pms = round2 (t.paid_via_pms +ℤ via_pms);
    } in
    if ltb_ℤ (pos 500_000) (abs (rest_of r))
    then add_rest r.settlement_basis (rest_of r) counted
    else counted

unfoldable pub book_rows :
    List (Text × CurrencyTotals) → List InvoiceRow → List (Text × CurrencyTotals)
book_rows books [] = books
book_rows books (r ∷ rs) =
    let c = norm_ccy r.currency in
    book_rows (insert c (add_row r (or_else (lookup c books) (no_totals c))) books) rs

abbrev pub set_outstanding : Text × CurrencyTotals → CurrencyTotals
set_outstanding (_, t) = record t { outstanding = round2 (t.invoiced -ℤ t.paid) }

-- `locale_le` is the order of `localeCompare`.
module _ (locale_le : Text → Text → Bool) where
  abbrev pub by_currency : CurrencyTotals → CurrencyTotals → Bool
  by_currency a b = locale_le a.currency b.currency

  unfoldable pub totals_by_currency : List InvoiceRow → List CurrencyTotals
  totals_by_currency rows = sort_by by_currency (map set_outstanding (book_rows [] rows))

pub record LegacyTotals : Type 0 where
  pub currency : Option Text
  pub mixed_currency : Bool
  pub total_invoiced : Option ℤ
  pub total_paid : Option ℤ
  pub total_outstanding : Option ℤ

unfoldable pub legacy_totals : List CurrencyTotals → LegacyTotals
legacy_totals (t ∷ []) = record {
  currency = some t.currency;
  mixed_currency = false;
  total_invoiced = some t.invoiced;
  total_paid = some t.paid;
  total_outstanding = some t.outstanding;
}
legacy_totals ts = record {
  currency = none;
  mixed_currency = ltb 1 (length ts);
  total_invoiced = none;
  total_paid = none;
  total_outstanding = none;
}

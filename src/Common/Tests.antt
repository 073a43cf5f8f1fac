-- ===== src/Common/Tests.antt =====
-- Two invoices of one currency, paid in part inside the system, and their totals.
mod RateLimit
use ume_pms_v2_backend.Common.CurrencyTotals.Sources.{HasCentColumns}
use ume_pms_v2_backend.Prelude.{
  ◌≡◌, refl, none, some, [], ◌∷◌, codes, text_eq, text_le, text_lt, trim, trim_start, to_upper, pos,
  ◌+ℤ◌, ◌-ℤ◌, floor_div, round2, lookup, insert, sort_by, insert_by, All,
}
use ume_pms_v2_backend.Payments.Derivation.{pre_system_settled, norm_ccy, sum_payments}
use ume_pms_v2_backend.Common.CurrencyTotals.{
  InvoiceRow, add_rest, add_row, book_rows, totals_by_currency,
}
use ume_pms_v2_backend.Common.CurrencyTotals.Split.{IsAccounted, totals_by_currency-IsAccounted}

abbrev closed_before : InvoiceRow
closed_before = record {
  currency = none;
  total_amount = pos 10_000_000_000;
  paid_amount = pos 10_000_000_000;
  settlement_basis = some pre_system_settled;
  payments =
      record { invoice_id = 1; amount = pos 4_000_000_000; currency = some (codes "usd ") } ∷ [];
}

abbrev unproved : InvoiceRow
unproved = record {
  currency = some (codes "USD");
  total_amount = pos 5_000_000_000;
  paid_amount = pos 2_000_000_000;
  settlement_basis = none;
  payments = [];
}

-- 120.00 paid: 40.00 inside the system, 60.00 before it, 20.00 without evidence.
totals :
    totals_by_currency text_le (closed_before ∷ unproved ∷ [])
    ≡ record {
      currency = codes "USD";
      invoiced = pos 15_000_000_000;
      paid = pos 12_000_000_000;
      outstanding = pos 3_000_000_000;
      invoice_count = 2;
      paid_via_pms = pos 4_000_000_000;
      settled_pre_system = pos 6_000_000_000;
      credit_note_offset = pos 0;
      unevidenced_residual = pos 2_000_000_000;
    }
      ∷ []
unfolding totals_by_currency book_rows add_row add_rest norm_ccy sum_payments text_eq text_lt trim
    trim_start to_upper round2 floor_div ◌+ℤ◌ ◌-ℤ◌ lookup insert sort_by insert_by
totals = refl

rows-HasCentColumns : All HasCentColumns (closed_before ∷ unproved ∷ [])
rows-HasCentColumns = (
  record { total = (refl, refl); paid = (refl, refl); payments = ((refl, refl), tt) },
  (record { total = (refl, refl); paid = (refl, refl); payments = tt }, tt),
)

totals_by_currency-IsAccounted_example :
    All IsAccounted (totals_by_currency text_le (closed_before ∷ unproved ∷ []))
totals_by_currency-IsAccounted_example =
    totals_by_currency-IsAccounted text_le (closed_before ∷ unproved ∷ []) rows-HasCentColumns

-- ===== src/Common/CurrencyTotals/Split.antt =====
-- The paid amount of a currency is split without a remainder among its sources.
use ume_pms_v2_backend.Prelude.{
  ◌≡◌, refl, Bool, List, [], ◌∷◌, map, Text, ◌+ℤ◌, ◌-ℤ◌, round2-sub, lookup, insert, text_eq,
  text_eq_inst, or_else, All, All-sort_by, Bool-cases, inl, inr,
}
use ume_pms_v2_backend.Payments.Derivation.{norm_ccy}
use ume_pms_v2_backend.Common.CurrencyTotals.{
  CurrencyTotals, InvoiceRow, no_totals, book_rows, set_outstanding, by_currency,
  totals_by_currency,
}
use ume_pms_v2_backend.Common.CurrencyTotals.Sources.{IsSplit, HasCentColumns, add_row-IsSplit}

-- A predicate of the values of a map.
All-insert :
    (P : CurrencyTotals → Type 0) (c : Text) (t : CurrencyTotals) (m : List (Text × CurrencyTotals))
    → P t
    → All (λ kv. P kv.1) m
    → All (λ kv. P kv.1) (insert c t m)
unfolding insert
All-insert P c t [] h a = (h, tt)
All-insert P c t ((k, v) ∷ m) h a = elim (Bool-cases (text_eq k c)) [
  | inl e ↦ rw e (h, a.1)
  | inr e ↦ rw e (a.0, All-insert P c t m h a.1)
]

or_else-lookup :
    (P : CurrencyTotals → Type 0) (c : Text) (d : CurrencyTotals) (m : List (Text × CurrencyTotals))
    → P d
    → All (λ kv. P kv.1) m
    → P (or_else (lookup c m) d)
unfolding lookup
or_else-lookup P c d [] h a = h
or_else-lookup P c d ((k, v) ∷ m) h a = elim (Bool-cases (text_eq k c)) [
  | inl e ↦ rw e a.0
  | inr e ↦ rw e (or_else-lookup P c d m h a.1)
]

no_totals-IsSplit : (c : Text) → IsSplit (no_totals c)
unfolding ◌+ℤ◌
no_totals-IsSplit c = record {
  invoiced_cents = (refl, refl);
  paid_cents = (refl, refl);
  via_cents = (refl, refl);
  settled_cents = (refl, refl);
  offset_cents = (refl, refl);
  residual_cents = (refl, refl);
  split = refl;
}

book_rows-IsSplit :
    (rs : List InvoiceRow) (m : List (Text × CurrencyTotals))
    → All HasCentColumns rs
    → All (λ kv. IsSplit kv.1) m
    → All (λ kv. IsSplit kv.1) (book_rows m rs)
unfolding book_rows
book_rows-IsSplit [] m c a = a
book_rows-IsSplit (r ∷ rs) m c a =
    let k : Text = norm_ccy r.currency in
    book_rows-IsSplit rs _ c.1 (
      All-insert IsSplit k _ m
        (add_row-IsSplit r _ c.0 (or_else-lookup IsSplit k (no_totals k) m (no_totals-IsSplit k) a))
        a)

-- What each of the totals is known to be.
pub record IsAccounted (t : CurrencyTotals) : Type 0 where
  pub open_amount : t.outstanding ≡ t.invoiced -ℤ t.paid
  pub split : IsSplit t

set_outstanding-IsAccounted :
    (m : List (Text × CurrencyTotals))
    → All (λ kv. IsSplit kv.1) m
    → All IsAccounted (map set_outstanding m)
set_outstanding-IsAccounted [] a = tt
set_outstanding-IsAccounted ((k, t) ∷ m) a = (
  record {
    open_amount = round2-sub t.invoiced t.paid a.0.invoiced_cents a.0.paid_cents;
    split = record {
      invoiced_cents = a.0.invoiced_cents;
      paid_cents = a.0.paid_cents;
      via_cents = a.0.via_cents;
      settled_cents = a.0.settled_cents;
      offset_cents = a.0.offset_cents;
      residual_cents = a.0.residual_cents;
      split = a.0.split;
    };
  },
  set_outstanding-IsAccounted m a.1,
)

-- Of rows in whole cents, in each currency the paid amount is exactly what was paid inside the system,
-- settled before it, offset by credit notes, and left without evidence, and the outstanding amount is
-- exactly the invoiced less the paid one.
pub totals_by_currency-IsAccounted :
    (locale_le : Text → Text → Bool) (rows : List InvoiceRow)
    → All HasCentColumns rows
    → All IsAccounted (totals_by_currency locale_le rows)
unfolding totals_by_currency
totals_by_currency-IsAccounted locale_le rows c =
    All-sort_by (by_currency locale_le) IsAccounted _
      (set_outstanding-IsAccounted _ (book_rows-IsSplit rows [] c tt))

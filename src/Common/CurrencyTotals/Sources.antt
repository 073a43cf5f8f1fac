-- ===== src/Common/CurrencyTotals/Sources.antt =====
-- What one row adds to the totals of its currency.
use ume_pms_v2_backend.Prelude.{
  ◌≡◌, refl, false, Option, none, some, List, [], ◌∷◌, Text, ℤ, pos, negsuc, ◌+ℤ◌, ltb_ℤ, abs,
  round2, round2-add, round2-sub, IsCents, +ℤ-IsCents, round2-IsCents, text_eq, text_eq_inst, All,
  ap, pos_part, neg_part, ◌+◌, arith, int_laws, Bool-cases, inl, inr,
}
use ume_pms_v2_backend.Payments.Derivation.{
  Payment, SettlementBasis, pre_system_settled, credit_note, other_basis, norm_ccy, sum_payments,
}
use ume_pms_v2_backend.Common.CurrencyTotals.{
  CurrencyTotals, InvoiceRow, add_rest, rest_of, add_row,
}

-- All amounts are whole cents, and those of the sources add up to the paid amount.
pub record IsSplit (t : CurrencyTotals) : Type 0 where
  pub invoiced_cents : IsCents t.invoiced
  pub paid_cents : IsCents t.paid
  pub via_cents : IsCents t.paid_via_pms
  pub settled_cents : IsCents t.settled_pre_system
  pub offset_cents : IsCents t.credit_note_offset
  pub residual_cents : IsCents t.unevidenced_residual
  pub split :
      t.paid
      ≡ t.paid_via_pms +ℤ t.settled_pre_system +ℤ t.credit_note_offset +ℤ t.unevidenced_residual

-- The columns of a row hold whole cents.
pub record HasCentColumns (r : InvoiceRow) : Type 0 where
  pub total : IsCents r.total_amount
  pub paid : IsCents r.paid_amount
  pub payments : All (λ (p : Payment). IsCents p.amount) r.payments

sum_payments-IsCents :
    (c : Text) (s : ℤ) (ps : List Payment)
    → IsCents s
    → All (λ (p : Payment). IsCents p.amount) ps
    → IsCents (sum_payments c s ps)
unfolding sum_payments
sum_payments-IsCents c s [] h a = h
sum_payments-IsCents c s (p ∷ ps) h a = elim (Bool-cases (text_eq (norm_ccy p.currency) c)) [
  | inl e ↦ rw e (sum_payments-IsCents c (s +ℤ p.amount) ps (+ℤ-IsCents s p.amount h a.0) a.1)
  | inr e ↦ rw e (sum_payments-IsCents c s ps h a.1)
]

-- Whole cents within half a cent of nothing are nothing.
small_is_zero : (x : ℤ) → IsCents x → ltb_ℤ (pos 500_000) (abs x) ≡ false → x ≡ pos 0
small_is_zero (pos n) h e = ground arith
small_is_zero (negsuc n) h e = ground arith

-- The same but for a rest of the paid amount that is under no source so far.
record IsSplitBut (rest : ℤ) (t : CurrencyTotals) : Type 0 where
  pub invoiced_cents : IsCents t.invoiced
  pub paid_cents : IsCents t.paid
  pub via_cents : IsCents t.paid_via_pms
  pub settled_cents : IsCents t.settled_pre_system
  pub offset_cents : IsCents t.credit_note_offset
  pub residual_cents : IsCents t.unevidenced_residual
  pub split :
      t.paid
      ≡ t.paid_via_pms +ℤ t.settled_pre_system +ℤ t.credit_note_offset +ℤ t.unevidenced_residual
        +ℤ rest

residual-IsSplit :
    (rest : ℤ) (t : CurrencyTotals)
    → IsCents rest
    → IsSplitBut rest t
    → IsSplit (record t { unevidenced_residual = round2 (t.unevidenced_residual +ℤ rest) })
residual-IsSplit rest t c h = record {
  invoiced_cents = h.invoiced_cents;
  paid_cents = h.paid_cents;
  via_cents = h.via_cents;
  settled_cents = h.settled_cents;
  offset_cents = h.offset_cents;
  residual_cents = round2-IsCents _;
  split =
      rw (round2-add t.unevidenced_residual rest h.residual_cents c)
        (omega (int_laws, ap pos_part h.split, ap neg_part h.split));
}

add_rest-IsSplit :
    (basis : Option SettlementBasis) (rest : ℤ) (t : CurrencyTotals)
    → IsCents rest
    → IsSplitBut rest t
    → IsSplit (add_rest basis rest t)
unfolding add_rest
add_rest-IsSplit (some pre_system_settled) rest t c h = record {
  invoiced_cents = h.invoiced_cents;
  paid_cents = h.paid_cents;
  via_cents = h.via_cents;
  settled_cents = round2-IsCents _;
  offset_cents = h.offset_cents;
  residual_cents = h.residual_cents;
  split =
      rw (round2-add t.settled_pre_system rest h.settled_cents c)
        (omega (int_laws, ap pos_part h.split, ap neg_part h.split));
}
add_rest-IsSplit (some credit_note) rest t c h = record {
  invoiced_cents = h.invoiced_cents;
  paid_cents = h.paid_cents;
  via_cents = h.via_cents;
  settled_cents = h.settled_cents;
  offset_cents = round2-IsCents _;
  residual_cents = h.residual_cents;
  split =
      rw (round2-add t.credit_note_offset rest h.offset_cents c)
        (omega (int_laws, ap pos_part h.split, ap neg_part h.split));
}
add_rest-IsSplit (some other_basis) rest t c h = residual-IsSplit rest t c h
add_rest-IsSplit none rest t c h = residual-IsSplit rest t c h

-- Nothing is left over.
no_rest-IsSplit : (t : CurrencyTotals) → IsSplitBut (pos 0) t → IsSplit t
no_rest-IsSplit t h = record {
  invoiced_cents = h.invoiced_cents;
  paid_cents = h.paid_cents;
  via_cents = h.via_cents;
  settled_cents = h.settled_cents;
  offset_cents = h.offset_cents;
  residual_cents = h.residual_cents;
  split = omega (int_laws, ap pos_part h.split, ap neg_part h.split);
}

pub add_row-IsSplit :
    (r : InvoiceRow) (t : CurrencyTotals) → HasCentColumns r → IsSplit t → IsSplit (add_row r t)
unfolding add_row
add_row-IsSplit r t c h =
    let via : ℤ = sum_payments (norm_ccy r.currency) (pos 0) r.payments in
    let via_cents : IsCents via =
      sum_payments-IsCents (norm_ccy r.currency) (pos 0) r.payments (refl, refl) c.payments in
    let counted : CurrencyTotals = record t {
      invoiced = round2 (t.invoiced +ℤ r.total_amount);
      paid = round2 (t.paid +ℤ r.paid_amount);
      invoice_count = t.invoice_count + 1;
      paid_via_pms = round2 (t.paid_via_pms +ℤ via);
    } in
    let but : IsSplitBut (rest_of r) counted = record {
      invoiced_cents = round2-IsCents _;
      paid_cents = round2-IsCents _;
      via_cents = round2-IsCents _;
      settled_cents = h.settled_cents;
      offset_cents = h.offset_cents;
      residual_cents = h.residual_cents;
      split =
          rw
            (
              round2-add t.paid r.paid_amount h.paid_cents c.paid,
              round2-add t.paid_via_pms via h.via_cents via_cents,
              round2-sub r.paid_amount via c.paid via_cents,
            )
            (omega (int_laws, ap pos_part h.split, ap neg_part h.split));
    } in
    elim (Bool-cases (ltb_ℤ (pos 500_000) (abs (rest_of r)))) [
      | inl e ↦
          rw e (add_rest-IsSplit r.settlement_basis (rest_of r) counted (round2-IsCents _) but)
      | inr e ↦
          rw e
            (no_rest-IsSplit counted (rw (small_is_zero (rest_of r) (round2-IsCents _) e) at but))
    ]

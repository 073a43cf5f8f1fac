-- ===== src/Payments/CreditBatch/Limits.antt =====
-- What a batch that passes its checks may take from a note and bring to an invoice.
use ume_pms_v2_backend.Prelude.{
  ℕ, ◌≡◌, refl, false, some, List, [], Text, ℤ, pos, ◌+ℤ◌, ◌≤ℤ◌, ltb_ℤ, round2, round2_fix, IsCents,
  round2-IsCents, +ℤ-IsCents, ok, >>=-eq-ok, >>-eq-ok, throw_if, is_some, length, ◌==◌, All, lookup,
  lookup-All, id_eq, text_eq_inst, Option-cases, inl, inr, ◌⊎◌, sym, ◌∙◌, subst, arith, zero-+ℤ,
}
use ume_pms_v2_backend.Payments.Derivation.{money_tol, Invoice}
use ume_pms_v2_backend.Payments.CreditBatch.{
  BatchLine, BatchCredit, check_lines, check_credits, left_of, settled_of, check_notes, check_cash,
  assert_credit_batch, no_lines,
}
use ume_pms_v2_backend.Payments.CreditBatch.Sums.{
  entry, HasCents, taken_from, applied_to, cash_to, HasCentCredits, check_lines-sums,
}
use ume_pms_v2_backend.Payments.CreditBatch.Checks.{
  check_credits-sums, check_notes-at, check_cash-at,
}

within :
    (limit x : ℤ) → IsCents limit → IsCents x → ltb_ℤ (limit +ℤ money_tol) x ≡ false → x ≤ℤ limit
unfolding ◌+ℤ◌
within limit x h k e = ground arith

-- What the batch takes from a note is not more than is left of it.
abbrev pub IsWithinNotes : List (ℕ × Invoice) → List (ℕ × ℤ) → List BatchCredit → Type 0
IsWithinNotes invoices settled credits =
    (n : ℕ)
    → (taken_from n credits ≡ pos 0)
      ⊎ ((cn : Invoice) × (lookup n invoices ≡ some cn)
          × (taken_from n credits ≤ℤ left_of cn (settled_of settled n)))

-- What the batch brings to an invoice does not exceed its total.
abbrev pub IsWithinTotals :
    List (ℕ × Invoice) → List (ℕ × ℤ) → List BatchLine → List BatchCredit → Type 0
IsWithinTotals invoices settled lines credits =
    (n : ℕ)
    → ((cash_to n lines ≡ pos 0) × (applied_to n credits ≡ pos 0))
      ⊎ ((inv : Invoice) × (lookup n invoices ≡ some inv)
          × (settled_of settled n +ℤ cash_to n lines +ℤ applied_to n credits
              ≤ℤ round2 inv.total_amount))

notes_within :
    (invoices : List (ℕ × Invoice)) (settled used : List (ℕ × ℤ)) (credits : List BatchCredit)
    → HasCents used
    → ((n : ℕ) → entry n used ≡ pos 0 +ℤ taken_from n credits)
    → check_notes invoices settled used ≡ ok tt
    → IsWithinNotes invoices settled credits
notes_within invoices settled used credits cents sums h n = elim (Option-cases (lookup n used)) [
  | inl e ↦
      let z : pos 0 ≡ pos 0 +ℤ taken_from n credits = rw e at (sums n) in
      inl (sym (z ∙ zero-+ℤ (taken_from n credits)))
  | inr (u, e) ↦
      let taken : u ≡ taken_from n credits = (rw e at (sums n)) ∙ zero-+ℤ (taken_from n credits) in
      let whole : IsCents u = rw e at (lookup-All IsCents n (pos 0) used (refl, refl) cents) in
      let (cn, found, fits) = check_notes-at invoices settled used n h e in
      inr (
        cn,
        found,
        subst (λ x. x ≤ℤ left_of cn (settled_of settled n)) taken
            (within (left_of cn (settled_of settled n)) u (round2-IsCents _) whole fits),
      )
]

totals_within :
    (invoices : List (ℕ × Invoice)) (settled cash applied : List (ℕ × ℤ)) (lines : List BatchLine)
    (credits : List BatchCredit) {net : List (Text × ℤ)}
    → HasCents settled
    → HasCents cash
    → HasCents applied
    → ((n : ℕ) → entry n cash ≡ pos 0 +ℤ cash_to n lines)
    → ((n : ℕ) → entry n applied ≡ pos 0 +ℤ applied_to n credits)
    → ((n : ℕ) → is_some (lookup n cash) ≡ false → applied_to n credits ≡ pos 0)
    → check_cash invoices settled applied [] cash ≡ ok net
    → IsWithinTotals invoices settled lines credits
totals_within invoices settled cash applied lines credits hs hc ha paid brought inside h n =
    elim (Option-cases (lookup n cash)) [
      | inl e ↦
          let z : pos 0 ≡ pos 0 +ℤ cash_to n lines = rw e at (paid n) in
          inl (sym (z ∙ zero-+ℤ (cash_to n lines)), inside n (rw e refl))
      | inr (c, e) ↦
          let is_paid : c ≡ cash_to n lines = (rw e at (paid n)) ∙ zero-+ℤ (cash_to n lines) in
          let is_brought = brought n ∙ zero-+ℤ (applied_to n credits) in
          let whole : IsCents c = rw e at (lookup-All IsCents n (pos 0) cash (refl, refl) hc) in
          let s = lookup-All IsCents n (pos 0) settled (refl, refl) hs in
          let a = lookup-All IsCents n (pos 0) applied (refl, refl) ha in
          let (inv, found, fits) = check_cash-at invoices settled applied cash [] n h e in
          let after : ℤ = settled_of settled n +ℤ c +ℤ entry n applied in
          let sum_cents = +ℤ-IsCents _ _ (+ℤ-IsCents (settled_of settled n) c s whole) a in
          let exact = round2_fix after sum_cents in
          let under =
            within (round2 inv.total_amount) after (round2-IsCents _) sum_cents
              (rw exact at fits) in
          inr (inv, found, rw (sym is_paid, sym is_brought) under)
    ]

-- A batch that passes its checks, with credits in whole cents, takes from no note more than is left of
-- it, and settles no invoice, by cash and credits together with what was settled before, above its
-- total: the tolerance of half a cent lets nothing more through.
pub assert_credit_batch-IsWithin :
    (supplier_id : ℕ) (invoices : List (ℕ × Invoice)) (settled : List (ℕ × ℤ))
    (lines : List BatchLine) (credits : List BatchCredit) {net : List (Text × ℤ)}
    → All (λ (p : ℕ × ℤ). IsCents p.1) settled
    → HasCentCredits credits
    → assert_credit_batch supplier_id invoices settled lines credits ≡ ok net
    → IsWithinNotes invoices settled credits × IsWithinTotals invoices settled lines credits
unfolding assert_credit_batch lookup
assert_credit_batch-IsWithin supplier_id invoices settled lines credits hs hc h =
    let g = >>-eq-ok (throw_if (length lines == 0) no_lines) _ h in
    let (cash, checked, h1) = >>=-eq-ok (check_lines supplier_id invoices [] lines) _ g.1 in
    let (u, credited, h2) =
      >>=-eq-ok
        (check_credits supplier_id invoices cash credits (record { used = []; applied = [] })) _
        h1 in
    let k = >>-eq-ok (check_notes invoices settled u.used) _ h2 in
    let l = check_lines-sums supplier_id invoices lines [] tt checked in
    let c =
      check_credits-sums supplier_id invoices cash credits (record { used = []; applied = [] }) hc
        tt tt credited in
    (
      notes_within invoices settled u.used credits c.used_cents c.used k.0,
      totals_within invoices settled cash u.applied lines credits hs l.cents c.applied_cents l.sums
          c.applied c.inside k.1,
    )

-- ===== src/Payments/CreditBatch/Checks.antt =====
-- What each check of a batch establishes.
use ume_pms_v2_backend.Prelude.{
  or_throw-eq-ok, ℕ, ◌≡◌, refl, Bool, true, false, not, some, some-injective, List, [], ◌∷◌, Text,
  text_eq, ℤ, pos, ◌+ℤ◌, leb_ℤ, ltb_ℤ, round2, IsCents, ok, >>=-eq-ok, >>-eq-ok, ok-injective,
  throw_if, throw_if-ok, throw_unless-ok, is_some, ◌==◌, ==→eq, lookup, id_eq, text_eq_inst,
  Bool-cases, inl, inr, sym, ◌∙◌, subst, false≢true, if◌then◌else◌, +ℤ_assoc, +ℤ-zero, zero-+ℤ,
}
use ume_pms_v2_backend.Payments.Derivation.{money_tol, norm_ccy, Invoice}
use ume_pms_v2_backend.Payments.CreditBatch.{
  BatchCredit, not_in_batch, get, assert_open, credit_amount, add_to, Uses, check_credits, left_of,
  settled_of, check_notes, check_cash, not_a_note, note_outside, note_currency, note_exceeded,
  nothing_paid, invoice_exceeded,
}
use ume_pms_v2_backend.Payments.CreditBatch.Sums.{
  entry, HasCents, share, entry-add_to, add_to-HasCents, taken_from, applied_to, HasCentCredits,
  credit_amount-number,
}

-- The sums after the credits; a credit goes to an invoice that has a line.
pub record CreditsChecked (cash : List (ℕ × ℤ)) (credits : List BatchCredit) (u u' : Uses)
    : Type 0 where
  pub used : (n : ℕ) → entry n u'.used ≡ entry n u.used +ℤ taken_from n credits
  pub applied : (n : ℕ) → entry n u'.applied ≡ entry n u.applied +ℤ applied_to n credits
  pub used_cents : HasCents u'.used
  pub applied_cents : HasCents u'.applied
  pub inside : (n : ℕ) → is_some (lookup n cash) ≡ false → applied_to n credits ≡ pos 0

module _ (supplier_id : ℕ) (invoices : List (ℕ × Invoice)) (cash : List (ℕ × ℤ)) where
  pub check_credits-sums :
      (credits : List BatchCredit) (u : Uses) {u' : Uses}
      → HasCentCredits credits
      → HasCents u.used
      → HasCents u.applied
      → check_credits supplier_id invoices cash credits u ≡ ok u'
      → CreditsChecked cash credits u u'
  unfolding check_credits
  check_credits-sums [] u c hu ha h =
      let e = sym (ok-injective h) in
      rw e (record {
        used = λ n. sym (+ℤ-zero (entry n u.used));
        applied = λ n. sym (+ℤ-zero (entry n u.applied));
        used_cents = hu;
        applied_cents = ha;
        inside = λ n out. refl;
      })
  check_credits-sums (x ∷ credits) u c hu ha h =
      let (cn, _, h1) = >>=-eq-ok (get invoices x.credit_note_id) _ h in
      let (inv, _, h2) = >>=-eq-ok (get invoices x.invoice_id) _ h1 in
      let g1 = >>-eq-ok (assert_open supplier_id cn) _ h2 in
      let g2 = >>-eq-ok (throw_if (leb_ℤ (pos 0) (round2 cn.total_amount)) not_a_note) _ g1.1 in
      let g3 = >>-eq-ok (throw_if (not (is_some (lookup x.invoice_id cash))) note_outside) _ g2.1 in
      let g4 =
        >>-eq-ok
          (throw_if (not (text_eq (norm_ccy cn.currency) (norm_ccy inv.currency))) note_currency) _
          g3.1 in
      let (a, read, went) = >>=-eq-ok (credit_amount x.amount) _ g4.1 in
      let is_a = credit_amount-number x.amount read in
      let whole : IsCents a = subst IsCents is_a c.0 in
      let has_line = throw_unless-ok (is_some (lookup x.invoice_id cash)) note_outside g3.0 in
      let rest =
        check_credits-sums credits
          (record {
            used = add_to x.credit_note_id a u.used;
            applied = add_to x.invoice_id a u.applied;
          })
          c.1 (add_to-HasCents x.credit_note_id a u.used hu)
          (add_to-HasCents x.invoice_id a u.applied ha) went in
      record {
        used = λ n.
            rest.used n
            ∙ rw (entry-add_to x.credit_note_id n a u.used hu whole, is_a)
                (+ℤ_assoc (entry n u.used) (share (x.credit_note_id == n) a)
                  (taken_from n credits));
        applied = λ n.
            rest.applied n
            ∙ rw (entry-add_to x.invoice_id n a u.applied ha whole, is_a)
                (+ℤ_assoc (entry n u.applied) (share (x.invoice_id == n) a) (applied_to n credits));
        used_cents = rest.used_cents;
        applied_cents = rest.applied_cents;
        inside = λ n out. elim (Bool-cases (x.invoice_id == n)) [
          | inl same ↦ absurd (
              false≢true (
                sym out
                ∙ subst (λ k. is_some (lookup k cash) ≡ true) (==→eq x.invoice_id n same) has_line))
          | inr other ↦ rw (other, rest.inside n out) (zero-+ℤ (pos 0))
        ];
      }

-- What a check of the entries says of the one under `n`.
pub check_notes-at :
    (invoices : List (ℕ × Invoice)) (settled used : List (ℕ × ℤ)) (n : ℕ) {u : ℤ}
    → check_notes invoices settled used ≡ ok tt
    → lookup n used ≡ some u
    → (cn : Invoice) × (lookup n invoices ≡ some cn)
      × (ltb_ℤ (left_of cn (settled_of settled n) +ℤ money_tol) u ≡ false)
unfolding check_notes lookup
check_notes-at invoices settled [] n h e = cc
check_notes-at invoices settled ((id, v) ∷ used) n {u} h e =
    let (cn, found, h1) = >>=-eq-ok (get invoices id) _ h in
    let g =
      >>-eq-ok (throw_if (ltb_ℤ (left_of cn (settled_of settled id) +ℤ money_tol) v) note_exceeded)
        _ h1 in
    elim (Bool-cases (id == n)) [
      | inl same ↦
          let is_u : v ≡ u = some-injective _ _ (rw same at e) in
          let fits =
            throw_if-ok (ltb_ℤ (left_of cn (settled_of settled id) +ℤ money_tol) v) note_exceeded
              g.0 in
          subst
            (λ k.
              (cn : Invoice) × (lookup k invoices ≡ some cn)
              × (ltb_ℤ (left_of cn (settled_of settled k) +ℤ money_tol) u ≡ false))
            (==→eq id n same)
            (cn, or_throw-eq-ok (lookup id invoices) not_in_batch found, rw (sym is_u) fits)
      | inr other ↦ check_notes-at invoices settled used n g.1 (rw other at e)
    ]

pub check_cash-at :
    (invoices : List (ℕ × Invoice)) (settled applied cash : List (ℕ × ℤ)) (net : List (Text × ℤ))
    (n : ℕ) {c : ℤ} {net' : List (Text × ℤ)}
    → check_cash invoices settled applied net cash ≡ ok net'
    → lookup n cash ≡ some c
    → (inv : Invoice) × (lookup n invoices ≡ some inv)
      × (ltb_ℤ
            (round2 inv.total_amount +ℤ money_tol)
            (round2 (settled_of settled n +ℤ c +ℤ entry n applied))
          ≡ false)
unfolding check_cash lookup
check_cash-at invoices settled applied [] net n h e = cc
check_cash-at invoices settled applied ((id, v) ∷ cash) net n {c} h e =
    let (inv, found, h1) = >>=-eq-ok (get invoices id) _ h in
    let g1 =
      >>-eq-ok
        (throw_if (if leb_ℤ v money_tol then leb_ℤ (entry id applied) money_tol else false)
          nothing_paid)
        _ h1 in
    let bad : Bool =
      ltb_ℤ (round2 inv.total_amount +ℤ money_tol)
        (round2 (settled_of settled id +ℤ v +ℤ entry id applied)) in
    let g2 = >>-eq-ok (throw_if bad invoice_exceeded) _ g1.1 in
    elim (Bool-cases (id == n)) [
      | inl same ↦
          let is_c : v ≡ c = some-injective _ _ (rw same at e) in
          let fits = throw_if-ok bad invoice_exceeded g2.0 in
          subst
            (λ k.
              (inv : Invoice) × (lookup k invoices ≡ some inv)
              × (ltb_ℤ (round2 inv.total_amount +ℤ money_tol)
                    (round2 (settled_of settled k +ℤ c +ℤ entry k applied))
                  ≡ false))
            (==→eq id n same)
            (inv, or_throw-eq-ok (lookup id invoices) not_in_batch found, rw (sym is_c) fits)
      | inr other ↦ check_cash-at invoices settled applied cash _ n g2.1 (rw other at e)
    ]

-- ===== src/Payments/CreditBatch/Sums.antt =====
-- The sums that the checks of a batch collect.
use ume_pms_v2_backend.Prelude.{
  ℕ, ◌≡◌, refl, Bool, false, Option, none, some, List, [], ◌∷◌, ℤ, pos, ◌+ℤ◌, leb_ℤ, ltb_ℤ, round2,
  round2-add, IsCents, round2-IsCents, ok, >>=-eq-ok, >>-eq-ok, ok-injective, throw_if, throw_if-ok,
  or_else, is_some, ◌==◌, ==→eq, All, lookup, insert, lookup-insert, lookup-All, insert-All, id_eq,
  text_eq_inst, Bool-cases, inl, inr, sym, ◌∙◌, if◌then◌else◌, +ℤ_assoc, +ℤ-zero, zero-+ℤ,
}
use ume_pms_v2_backend.Accounting.Posting.Types.{Raw, absent, value, bad}
use ume_pms_v2_backend.Payments.Derivation.{Invoice}
use ume_pms_v2_backend.Payments.CreditBatch.{
  BatchLine, BatchCredit, get, assert_open, cash_amount, credit_amount, check_lines, add_to, number,
  invoice_repeated, is_a_note,
}

-- The entry of a map of sums.
abbrev pub entry : ℕ → List (ℕ × ℤ) → ℤ
entry n m = or_else (lookup n m) (pos 0)

abbrev pub HasCents : List (ℕ × ℤ) → Type 0
HasCents m = All (λ (p : ℕ × ℤ). IsCents p.1) m

abbrev pub share : Bool → ℤ → ℤ
share b a = if b then a else pos 0

entry-insert_new :
    (id n : ℕ) (v : ℤ) (m : List (ℕ × ℤ))
    → is_some (lookup id m) ≡ false
    → entry n (insert id v m) ≡ entry n m +ℤ share (id == n) v
entry-insert_new id n v m new = elim (Bool-cases (id == n)) [
  | inl same ↦
      let empty : lookup n m ≡ none = rw (sym (==→eq id n same)) (is_none (lookup id m) new) in
      rw (lookup-insert n id v m, same, empty) (sym (zero-+ℤ v))
  | inr other ↦ rw (lookup-insert n id v m, other) (sym (+ℤ-zero (entry n m)))
]
  where
    is_none : (o : Option ℤ) → is_some o ≡ false → o ≡ none
    is_none none h = refl
    is_none (some x) h = cc

pub entry-add_to :
    (id n : ℕ) (a : ℤ) (m : List (ℕ × ℤ))
    → HasCents m
    → IsCents a
    → entry n (add_to id a m) ≡ entry n m +ℤ share (id == n) a
entry-add_to id n a m h c = elim (Bool-cases (id == n)) [
  | inl same ↦
      rw (lookup-insert n id (round2 (entry id m +ℤ a)) m, same, ==→eq id n same)
        (round2-add (entry n m) a (lookup-All IsCents n (pos 0) m (refl, refl) h) c)
  | inr other ↦
      rw (lookup-insert n id (round2 (entry id m +ℤ a)) m, other) (sym (+ℤ-zero (entry n m)))
]

pub add_to-HasCents : (id : ℕ) (a : ℤ) (m : List (ℕ × ℤ)) → HasCents m → HasCents (add_to id a m)
add_to-HasCents id a m h = insert-All IsCents id _ m (round2-IsCents _) h

-- What the credits of the batch take from a note, and what they and the cash bring to an invoice.
abbrev pub taken_from : ℕ → List BatchCredit → ℤ
taken_from n [] = pos 0
taken_from n (c ∷ credits) = share (c.credit_note_id == n) (number c.amount) +ℤ taken_from n credits

abbrev pub applied_to : ℕ → List BatchCredit → ℤ
applied_to n [] = pos 0
applied_to n (c ∷ credits) = share (c.invoice_id == n) (number c.amount) +ℤ applied_to n credits

abbrev pub cash_to : ℕ → List BatchLine → ℤ
cash_to n [] = pos 0
cash_to n (l ∷ lines) = share (l.invoice_id == n) (round2 (number l.amount)) +ℤ cash_to n lines

abbrev pub HasCentCredits : List BatchCredit → Type 0
HasCentCredits credits = All (λ (c : BatchCredit). IsCents (number c.amount)) credits

cash_amount-number : (r : Raw) {a : ℤ} → cash_amount r ≡ ok a → number r ≡ a
unfolding cash_amount
cash_amount-number absent h = cc
cash_amount-number bad h = cc
cash_amount-number (value x) h = elim (Bool-cases (ltb_ℤ x (pos 0))) [
  | inl e ↦ cc (rw e at h)
  | inr e ↦ ok-injective (rw e at h)
]

pub credit_amount-number : (r : Raw) {a : ℤ} → credit_amount r ≡ ok a → number r ≡ a
unfolding credit_amount
credit_amount-number absent h = cc
credit_amount-number bad h = cc
credit_amount-number (value x) h = elim (Bool-cases (leb_ℤ x (pos 0))) [
  | inl e ↦ cc (rw e at h)
  | inr e ↦ ok-injective (rw e at h)
]

module _ (supplier_id : ℕ) (invoices : List (ℕ × Invoice)) where
  -- The cash of an invoice, after the lines.
  pub record LinesChecked (lines : List BatchLine) (cash cash' : List (ℕ × ℤ)) : Type 0 where
    pub sums : (n : ℕ) → entry n cash' ≡ entry n cash +ℤ cash_to n lines
    pub cents : HasCents cash'

  pub check_lines-sums :
      (lines : List BatchLine) (cash : List (ℕ × ℤ)) {cash' : List (ℕ × ℤ)}
      → HasCents cash
      → check_lines supplier_id invoices cash lines ≡ ok cash'
      → LinesChecked lines cash cash'
  unfolding check_lines
  check_lines-sums [] cash c h =
      let e = sym (ok-injective h) in
      rw e (record { sums = λ n. sym (+ℤ-zero (entry n cash)); cents = c })
  check_lines-sums (l ∷ lines) cash c h =
      let (inv, _, h1) = >>=-eq-ok (get invoices l.invoice_id) _ h in
      let g1 = >>-eq-ok (assert_open supplier_id inv) _ h1 in
      let g2 = >>-eq-ok (throw_if (is_some (lookup l.invoice_id cash)) invoice_repeated) _ g1.1 in
      let g3 = >>-eq-ok (throw_if (leb_ℤ (round2 inv.total_amount) (pos 0)) is_a_note) _ g2.1 in
      let (a, read, went) = >>=-eq-ok (cash_amount l.amount) _ g3.1 in
      let is_a = cash_amount-number l.amount read in
      let new = throw_if-ok (is_some (lookup l.invoice_id cash)) invoice_repeated g2.0 in
      let rest =
        check_lines-sums lines (insert l.invoice_id (round2 a) cash)
          (insert-All IsCents l.invoice_id (round2 a) cash (round2-IsCents a) c) went in
      record {
        sums = λ n.
            rest.sums n
            ∙ rw (entry-insert_new l.invoice_id n (round2 a) cash new, is_a)
                (+ℤ_assoc (entry n cash) (share (l.invoice_id == n) (round2 a)) (cash_to n lines));
        cents = rest.cents;
      }

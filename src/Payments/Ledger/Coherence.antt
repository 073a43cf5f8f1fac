-- ===== src/Payments/Ledger/Coherence.antt =====
-- The cached columns of an invoice of the shared ledger against its payments.
use ume_pms_v2_backend.Prelude.{
  ℕ, ◌≡◌, ◌≢◌, Option, refl, true, false, Option, some, some-injective, Text, ℤ, ok, >>=-eq-ok,
  >>-eq-ok, ok-injective, or_throw, throw_if, Bool-cases, Option-cases, inl, inr, ◌⊎◌, ◌==◌, ==→eq,
  ==_refl, lookup, insert, lookup-insert, id_eq, sym, ◌∙◌, subst, false≢true,
}
use ume_pms_v2_backend.Accounting.Posting.Types.{Raw}
use ume_pms_v2_backend.Payments.Derivation.{
  Payment, assert_positive_amount, assert_currency_match, assert_no_overpayment,
}
use ume_pms_v2_backend.Payments.Service.{payments_of, save_payment, delete}
use ume_pms_v2_backend.Payments.Service.Rows.{
  former_owner, payments_of-save_payment, payments_of-delete,
}
use ume_pms_v2_backend.Payments.Ledger.{
  LedgerInvoice, LedgerConfig, LedgerTables, derived_columns, with_columns, ledger_invoice_missing,
  is_a_notice, guard, currency_or, recompute, add_payment_atomic, remove_payment_atomic,
}

module _ (cfg : LedgerConfig) where
  -- The cached columns of the invoice `j` are those derived from its payments, unless it is a notice.
  abbrev pub IsDerivedAt : ℕ → LedgerTables → Type 0
  IsDerivedAt j t =
      (inv : LedgerInvoice)
      → lookup j t.invoices ≡ some inv
      → cfg.is_outside_payment_cycle inv ≡ false
      → (inv.paid_amount, inv.status) ≡ derived_columns inv (payments_of j t.payments)

  abbrev pub IsDerived : LedgerTables → Type 0
  IsDerived t = (j : ℕ) → IsDerivedAt j t

  abbrev written_row : ℕ → LedgerTables → LedgerInvoice → LedgerInvoice
  written_row j t old = with_columns old (derived_columns old (payments_of j t.payments))

  recompute_cases :
      (j : ℕ) (t : LedgerTables)
      → ((recompute cfg j t ≡ t)
          × ((inv : LedgerInvoice)
              → lookup j t.invoices ≡ some inv
              → cfg.is_outside_payment_cycle inv ≡ true))
        ⊎ ((old : LedgerInvoice) × (lookup j t.invoices ≡ some old)
            × (recompute cfg j t
                ≡ record t { invoices = insert j (written_row j t old) t.invoices }))
  unfolding recompute
  recompute_cases j t = elim (Option-cases (lookup j t.invoices)) [
    | inl e ↦ inl (rw (e, recompute), λ inv f. cc (e, f))
    | inr (old, e) ↦ elim (Bool-cases (cfg.is_outside_payment_cycle old)) [
      | inl out ↦ inl (rw (e, out, recompute), λ inv f. rw (some-injective _ _ (sym f ∙ e)) out)
      | inr free ↦ inr (old, e, rw (e, free, recompute))
    ]
  ]

  recompute-at : (j : ℕ) (t : LedgerTables) → IsDerivedAt j (recompute cfg j t)
  unfolding derived_columns
  recompute-at j t = elim (recompute_cases j t) [
    | inl (same, outside) ↦ rw same (λ inv f l. absurd (false≢true (sym l ∙ outside inv f)))
    | inr (old, e, written) ↦ rw written λ inv f l.
        let g = rw (lookup-insert j j (written_row j t old) t.invoices, ==_refl j) at f in
        subst
          (λ (v : LedgerInvoice).
            (v.paid_amount, v.status) ≡ derived_columns v (payments_of j t.payments))
          (some-injective _ _ g) refl
  ]

  recompute-keeps :
      (i j : ℕ) (t : LedgerTables)
      → (i == j) ≡ false
      → IsDerivedAt j t
      → IsDerivedAt j (recompute cfg i t)
  recompute-keeps i j t other h = elim (recompute_cases i t) [
    | inl (same, _) ↦ rw same h
    | inr (old, _, written) ↦
        rw written
          λ inv f l. h inv (rw (lookup-insert j i (written_row i t old) t.invoices, other) at f) l
  ]

  -- A payment saved, and its invoice rederived.
  save_payment-IsDerivedAt :
      (i j new_id : ℕ) (given : Option ℕ) (p : Payment) (t : LedgerTables)
      → p.invoice_id ≡ i
      → IsDerived t
      → (former_owner given t.payments ≢ some j) ⊎ ((i == j) ≡ true)
      → IsDerivedAt j
          (recompute cfg i (record t { payments = save_payment new_id given p t.payments }))
  save_payment-IsDerivedAt i j new_id given p t of derived which =
      let saved : LedgerTables = record t { payments = save_payment new_id given p t.payments } in
      elim (Bool-cases (i == j)) [
        | inl same ↦
            subst (λ k. IsDerivedAt j (recompute cfg k saved)) (sym (==→eq i j same))
              (recompute-at j saved)
        | inr other ↦ elim which [
          | inl owner ↦ recompute-keeps i j saved other (λ inv f l.
              rw (payments_of-save_payment j new_id given p t.payments (rw of other) owner)
                (derived j inv f l))
          | inr named ↦ absurd (false≢true (sym other ∙ named))
        ]
      ]

  -- A payment added leaves the cached columns as derived: of every invoice, when it overwrites no
  -- payment of another invoice, and else of every invoice but the one that the overwritten payment
  -- belonged to, which is not rederived.
  pub add_payment_atomic-IsDerived :
      (column : ℤ → ℤ) (new_id invoice_id : ℕ) (body_id : Option ℕ) (amount : Raw)
      (currency : Option Text) (t : LedgerTables) {t' : LedgerTables}
      → IsDerived t
      → add_payment_atomic cfg column new_id invoice_id body_id amount currency t ≡ ok t'
      → (j : ℕ) → (former_owner body_id t.payments ≢ some j) ⊎ ((invoice_id == j) ≡ true)
      → IsDerivedAt j t'
  unfolding add_payment_atomic
  add_payment_atomic-IsDerived column new_id invoice_id body_id amount currency t derived h j
        which =
      let (inv, _, h1) =
        >>=-eq-ok (or_throw (lookup invoice_id t.invoices) ledger_invoice_missing) _ h in
      let g1 = >>-eq-ok (throw_if (cfg.is_outside_payment_cycle inv) is_a_notice) _ h1 in
      let (a, _, h2) = >>=-eq-ok (guard (assert_positive_amount amount)) _ g1.1 in
      let g2 =
        >>-eq-ok (guard (assert_currency_match inv.currency (currency_or currency inv.currency))) _
          h2 in
      let g3 = >>-eq-ok (guard (assert_no_overpayment _ a inv.total)) _ g2.1 in
      subst (IsDerivedAt j) (ok-injective g3.1)
        (save_payment-IsDerivedAt invoice_id j new_id body_id _ t refl derived which)

  -- Removing a payment leaves the cached columns as derived: of every invoice, when the payment is one
  -- of the invoice that the request names, and else of every invoice but the one that it belonged to,
  -- which is not rederived.
  pub remove_payment_atomic-IsDerived :
      (invoice_id payment_id : ℕ) (p : Payment) (t : LedgerTables) {t' : LedgerTables}
      → IsDerived t
      → lookup payment_id t.payments ≡ some p
      → remove_payment_atomic cfg invoice_id payment_id t ≡ some t'
      → (j : ℕ) → ((p.invoice_id == j) ≡ false) ⊎ ((invoice_id == j) ≡ true)
      → IsDerivedAt j t'
  unfolding remove_payment_atomic
  remove_payment_atomic-IsDerived invoice_id payment_id p t {t'} derived found h j which =
      let g = some-injective _ _ (rw (found, remove_payment_atomic) at h) in
      let after : LedgerTables = record t { payments = delete payment_id t.payments } in
      subst (IsDerivedAt j) g (elim which [
        | inr named ↦ rw (==→eq invoice_id j named) (recompute-at j after)
        | inl apart ↦ elim (Bool-cases (invoice_id == j)) [
          | inl named ↦ rw (==→eq invoice_id j named) (recompute-at j after)
          | inr other ↦ recompute-keeps invoice_id j after other (λ inv f l.
              rw (payments_of-delete j payment_id t.payments found apart) (derived j inv f l))
        ]
      ])

-- ===== src/Payments/Service/Coherence.antt =====
-- The cached state of an invoice is the one derived from its rows, after every handler.
use ume_pms_v2_backend.Prelude.{
  ℕ, ◌≡◌, ◌≢◌, Option, or_throw-eq-ok, refl, true, false, some, some-injective, List, ℤ, ok,
  Bool-cases, Option-cases, inl, inr, ◌⊎◌, ◌==◌, ==→eq, ==_refl, lookup, insert, lookup-insert,
  id_eq, sym, ◌∙◌, subst, false≢true, >>=-eq-ok, >>-eq-ok, ok-injective, or_throw,
}
use ume_pms_v2_backend.Payments.Derivation.{
  Payment, Allocation, Invoice, InvoiceStatus, is_legacy_settled, actual_paid, derive_payment_state,
  invoice_not_named, invoice_not_found, assert_positive_amount, assert_currency_match,
  assert_no_overpayment,
}
use ume_pms_v2_backend.Payments.Service.{
  Tables, payments_of, allocations_of, with_state, recompute, PaymentDto, currency_or, save_payment,
  payment_row, create, remove, remove_allocation,
}
use ume_pms_v2_backend.Payments.Service.Rows.{
  former_owner, payments_of-save_payment, payments_of-delete, allocations_of-delete,
}

-- The cached state of the invoice `j`, unless it is one of the settlements that are never rederived.
abbrev pub IsCoherentAt : ℕ → Tables → Type 0
IsCoherentAt j t =
    (inv : Invoice)
    → lookup j t.invoices ≡ some inv
    → is_legacy_settled inv.settlement_basis ≡ false
    → (inv.paid_amount, inv.status)
      ≡ derive_payment_state j inv (payments_of j t.payments) (allocations_of j t.allocations)

abbrev pub IsCoherent : Tables → Type 0
IsCoherent t = (j : ℕ) → IsCoherentAt j t

-- The derived state does not look at the cached one.
derive-with_state :
    (j : ℕ) (inv : Invoice) (s : ℤ × InvoiceStatus) (ps : List Payment) (rows : List Allocation)
    → derive_payment_state j (with_state inv s) ps rows ≡ derive_payment_state j inv ps rows
unfolding derive_payment_state actual_paid
derive-with_state j inv s ps rows = refl

-- The row that `recompute` writes.
abbrev pub derived_row : ℕ → Tables → Invoice → Invoice
derived_row j t inv =
    with_state inv
      (derive_payment_state j inv (payments_of j t.payments) (allocations_of j t.allocations))

-- `recompute` changes nothing where there is nothing to derive, and else writes the derived state.
pub recompute_cases :
    (j : ℕ) (t : Tables)
    → ((recompute j t ≡ t)
        × ((inv : Invoice)
            → lookup j t.invoices ≡ some inv
            → is_legacy_settled inv.settlement_basis ≡ true))
      ⊎ ((old : Invoice) × (lookup j t.invoices ≡ some old)
          × (recompute j t ≡ record t { invoices = insert j (derived_row j t old) t.invoices }))
unfolding recompute
recompute_cases j t = elim (Option-cases (lookup j t.invoices)) [
  | inl e ↦ inl (rw (e, recompute), λ inv f. cc (e, f))
  | inr (old, e) ↦ elim (Bool-cases (is_legacy_settled old.settlement_basis)) [
    | inl legacy ↦
        inl (rw (e, legacy, recompute), λ inv f. rw (some-injective _ _ (sym f ∙ e)) legacy)
    | inr free ↦ inr (old, e, rw (e, free, recompute))
  ]
]

pub recompute-at : (j : ℕ) (t : Tables) → IsCoherentAt j (recompute j t)
recompute-at j t = elim (recompute_cases j t) [
  | inl (same, legacy) ↦ rw same (λ inv f l. absurd (false≢true (sym l ∙ legacy inv f)))
  | inr (old, e, written) ↦ rw written λ inv f l.
      let g = rw (lookup-insert j j (derived_row j t old) t.invoices, ==_refl j) at f in
      subst
        (λ (v : Invoice).
          (v.paid_amount, v.status)
          ≡ derive_payment_state j v (payments_of j t.payments) (allocations_of j t.allocations))
        (some-injective _ _ g) (sym (derive-with_state j old _ _ _))
]

pub recompute-keeps :
    (i j : ℕ) (t : Tables) → (i == j) ≡ false → IsCoherentAt j t → IsCoherentAt j (recompute i t)
recompute-keeps i j t other h = elim (recompute_cases i t) [
  | inl (same, _) ↦ rw same h
  | inr (old, _, written) ↦
      rw written
        λ inv f l. h inv (rw (lookup-insert j i (derived_row i t old) t.invoices, other) at f) l
]

-- After a change of rows that concern no invoice but `i`, `recompute i` restores coherence.
recompute-IsCoherent :
    (i : ℕ) (t : Tables)
    → ((j : ℕ) → (i == j) ≡ false → IsCoherentAt j t)
    → IsCoherent (recompute i t)
recompute-IsCoherent i t h j = elim (Bool-cases (i == j)) [
  | inl same ↦ rw (==→eq i j same) (recompute-at j t)
  | inr other ↦ recompute-keeps i j t other (h j other)
]

-- A payment saved, and its invoice rederived.
save_payment-IsCoherentAt :
    (i j new_id : ℕ) (given : Option ℕ) (p : Payment) (t : Tables)
    → p.invoice_id ≡ i
    → IsCoherent t
    → (former_owner given t.payments ≢ some j) ⊎ (i ≡ j)
    → IsCoherentAt j (recompute i (record t { payments = save_payment new_id given p t.payments }))
save_payment-IsCoherentAt i j new_id given p t of coherent which =
    let saved : Tables = record t { payments = save_payment new_id given p t.payments } in
    elim (Bool-cases (i == j)) [
      | inl same ↦
          subst (λ k. IsCoherentAt j (recompute k saved)) (sym (==→eq i j same))
            (recompute-at j saved)
      | inr other ↦ elim which [
        | inl owner ↦ recompute-keeps i j saved other (λ inv f l.
            rw (payments_of-save_payment j new_id given p t.payments (rw of other) owner)
              (coherent j inv f l))
        | inr same ↦ absurd (false≢true (sym other ∙ rw same (==_refl j)))
      ]
    ]

-- A payment recorded by `create` leaves the cached state as derived: of every invoice, when it
-- overwrites no payment of another invoice, and else of every invoice but the one that the
-- overwritten payment belonged to, which is not rederived.
pub create-IsCoherent :
    (column : ℤ → ℤ) (new_id : ℕ) (dto : PaymentDto) (t : Tables) {t' : Tables}
    → IsCoherent t
    → create column new_id dto t ≡ ok t'
    → (j : ℕ) → (former_owner dto.id t.payments ≢ some j) ⊎ (dto.invoice_id ≡ some j)
    → IsCoherentAt j t'
unfolding create
create-IsCoherent column new_id dto t coherent h j which =
    let (id, named, h1) = >>=-eq-ok (or_throw dto.invoice_id invoice_not_named) _ h in
    let (inv, _, h2) = >>=-eq-ok (or_throw (lookup id t.invoices) invoice_not_found) _ h1 in
    let (a, _, h3) = >>=-eq-ok (assert_positive_amount dto.amount) _ h2 in
    let (_, h4) =
      >>-eq-ok (assert_currency_match inv.currency (currency_or column dto.currency inv.currency)) _
        h3 in
    let (_, h5) = >>-eq-ok (assert_no_overpayment _ a inv.total_amount) _ h4 in
    subst (IsCoherentAt j) (ok-injective h5) (
      save_payment-IsCoherentAt id j new_id dto.id (payment_row column id a inv) t refl coherent
        (elim which [
          | inl owner ↦ inl owner
          | inr asked ↦ inr (some-injective _ _ (sym (or_throw-eq-ok _ _ named) ∙ asked))
        ]))

-- Deleting a payment leaves every cached state as derived.
pub remove-IsCoherent :
    (id : ℕ) (t : Tables) {t' : Tables} → IsCoherent t → remove id t ≡ some t' → IsCoherent t'
unfolding remove
remove-IsCoherent id t {t'} coherent h = elim (Option-cases (lookup id t.payments)) [
  | inl e ↦ cc (rw (e, remove) at h)
  | inr (p, e) ↦
      let g = some-injective _ _ (rw (e, remove) at h) in
      subst IsCoherent g (
        recompute-IsCoherent p.invoice_id _
          (λ j other i f l. rw (payments_of-delete j id t.payments e other) (coherent j i f l)))
]

-- Rows that concern two invoices are changed: both are rederived.
recompute_twice-IsCoherent :
    (i k : ℕ) (t : Tables)
    → ((j : ℕ) → (i == j) ≡ false → (k == j) ≡ false → IsCoherentAt j t)
    → IsCoherent (recompute k (recompute i t))
recompute_twice-IsCoherent i k t h = recompute-IsCoherent k (recompute i t) λ j other.
    elim (Bool-cases (i == j)) [
      | inl same ↦ rw (==→eq i j same) (recompute-at j t)
      | inr apart ↦ recompute-keeps i j t apart (h j apart other)
    ]

-- Taking back the application of a credit note leaves every cached state as derived, that of the
-- invoice and that of the note included.
pub remove_allocation-IsCoherent :
    (id : ℕ) (t : Tables) {t' : Tables}
    → IsCoherent t
    → remove_allocation id t ≡ some t'
    → IsCoherent t'
unfolding remove_allocation
remove_allocation-IsCoherent id t {t'} coherent h = elim (Option-cases (lookup id t.allocations)) [
  | inl e ↦ cc (rw (e, remove_allocation) at h)
  | inr (a, e) ↦
      let g = some-injective _ _ (rw (e, remove_allocation) at h) in
      subst IsCoherent g (
        recompute_twice-IsCoherent a.invoice_id a.credit_note_id _ (λ j not_to not_from i f l.
          rw (allocations_of-delete j id t.allocations e (rw (not_to, not_from) refl))
            (coherent j i f l)))
]

-- ===== src/Payments/Batch/Coherence.antt =====
-- A batch leaves the cached state of every invoice and note as derived.
use ume_pms_v2_backend.Prelude.{
  ℕ, suc, ◌≡◌, refl, Bool, true, false, not, ◌||◌, some, List, [], ◌∷◌, ◌++◌, ℤ, pos, leb_ℤ, ok,
  >>=-eq-ok, >>-eq-ok, ok-injective, throw_if, or_throw, keep, any_by, ◌==◌, ==→eq, ==_refl, lookup,
  id_eq, Bool-cases, inl, inr, sym, ◌∙◌, false≢true, is_iso_date,
}
use ume_pms_v2_backend.Payments.Derivation.{Payment, Allocation, Invoice}
use ume_pms_v2_backend.Payments.Service.{Tables, payments_of, allocations_of, recompute}
use ume_pms_v2_backend.Payments.Service.Coherence.{
  IsCoherentAt, IsCoherent, recompute-at, recompute-keeps,
}
use ume_pms_v2_backend.Payments.CreditBatch.{
  number, BatchLine, BatchCredit, supplier_missing, bad_payment_date, assert_credit_batch,
}
use ume_pms_v2_backend.Payments.Batch.{
  BatchDto, is_named, named_invoices, named_allocations, settled_map, cash_rows, credit_rows,
  recompute_all, BatchResult, create_batch,
}

abbrev has_key : {V : Type 0} → ℕ → List (ℕ × V) → Bool
has_key j m = any_by (λ p. p.0 == j) m

-- Every invoice of the list is rederived, so what the others need is enough.
recompute_all-IsCoherent :
    (invoices : List (ℕ × Invoice)) (t : Tables)
    → ((j : ℕ) → has_key j invoices ≡ false → IsCoherentAt j t)
    → IsCoherent (recompute_all invoices t)
unfolding recompute_all
recompute_all-IsCoherent [] t h = λ j. h j refl
recompute_all-IsCoherent ((i, inv) ∷ invoices) t h =
    recompute_all-IsCoherent invoices (recompute i t) λ j absent. elim (Bool-cases (i == j)) [
      | inl same ↦ rw (==→eq i j same) (recompute-at j t)
      | inr other ↦ recompute-keeps i j t other (h j (rw (other, absent) refl))
    ]

-- An invoice that the batch names is among those that are read.
named_is_read :
    (p : ℕ → Bool) (j : ℕ) (invoices : List (ℕ × Invoice)) {inv : Invoice}
    → lookup j invoices ≡ some inv
    → p j ≡ true
    → has_key j (keep (λ (q : ℕ × Invoice). p q.0) invoices) ≡ true
unfolding lookup
named_is_read p j [] e n = cc
named_is_read p j ((i, x) ∷ invoices) e n = elim (Bool-cases (i == j)) [
  | inl same ↦ rw (==→eq i j same, n) (rw (==_refl j) refl)
  | inr other ↦
      let rest = named_is_read p j invoices (rw other at e) n in
      elim (Bool-cases (p i)) [
        | inl kept ↦ rw (kept, rest) (or_true (i == j))
        | inr left ↦ rw left rest
      ]
]
  where
    or_true : (b : Bool) → b || true ≡ true
    or_true true = refl
    or_true false = refl

or_parts : (a b : Bool) → a || b ≡ false → (a ≡ false) × (b ≡ false)
or_parts true b h = cc
or_parts false b h = (refl, h)

module _ (column : ℤ → ℤ) (fresh : ℕ → ℕ) (invoices : List (ℕ × Invoice)) (j : ℕ) where
  -- The new rows do not concern an invoice that is not named.
  cash_rows-apart :
      (k : ℕ) (lines : List BatchLine) (old : List (ℕ × Payment))
      → any_by (λ (l : BatchLine). l.invoice_id == j) lines ≡ false
      → payments_of j (cash_rows column fresh invoices k lines ++ old) ≡ payments_of j old
  unfolding cash_rows payments_of
  cash_rows-apart k [] old h = refl
  cash_rows-apart k (l ∷ lines) old h =
      let parts = or_parts (l.invoice_id == j) _ h in
      elim (Bool-cases (leb_ℤ (number l.amount) (pos 0))) [
        | inl e ↦ rw e (cash_rows-apart (suc k) lines old parts.1)
        | inr e ↦ rw (e, parts.0) (cash_rows-apart (suc k) lines old parts.1)
      ]

  credit_rows-apart :
      (k : ℕ) (credits : List BatchCredit) (old : List (ℕ × Allocation))
      → any_by (λ (c : BatchCredit). (c.invoice_id == j) || (c.credit_note_id == j)) credits ≡ false
      → allocations_of j (credit_rows column fresh invoices k credits ++ old) ≡ allocations_of j old
  unfolding credit_rows allocations_of
  credit_rows-apart k [] old h = refl
  credit_rows-apart k (c ∷ credits) old h =
      let parts = or_parts ((c.invoice_id == j) || (c.credit_note_id == j)) _ h in
      rw parts.0 (credit_rows-apart (suc k) credits old parts.1)

-- After a batch goes through, every cached state is the derived one, those of the invoices paid and of
-- the notes used included.
pub create_batch-IsCoherent :
    (column : ℤ → ℤ) (fresh : ℕ → ℕ) (dto : BatchDto) (t : Tables) {r : BatchResult}
    → IsCoherent t
    → create_batch column fresh dto t ≡ ok r
    → IsCoherent r.tables
unfolding create_batch
create_batch-IsCoherent column fresh dto t {r} coherent h =
    let invoices : List (ℕ × Invoice) = named_invoices dto t.invoices in
    let (supplier, _, h1) = >>=-eq-ok (or_throw dto.supplier_id supplier_missing) _ h in
    let g = >>-eq-ok (throw_if (not (is_iso_date dto.payment_date)) bad_payment_date) _ h1 in
    let (transfer, _, h2) =
      >>=-eq-ok
        (assert_credit_batch supplier invoices
          (settled_map t (named_allocations dto t.allocations) invoices) dto.lines dto.credits)
        _ g.1 in
    let written : r ≡ _ = sym (ok-injective h2) in
    rw written (
      recompute_all-IsCoherent invoices _ λ j absent inv f l.
        elim (Bool-cases (is_named dto.lines dto.credits j)) [
          | inl named ↦ absurd (
              false≢true
                (sym absent ∙ named_is_read (is_named dto.lines dto.credits) j t.invoices f named))
          | inr unnamed ↦
              let parts =
                or_parts (any_by (λ (l : BatchLine). l.invoice_id == j) dto.lines) _ unnamed in
              rw
                (
                  cash_rows-apart column fresh invoices j 0 dto.lines t.payments parts.0,
                  credit_rows-apart column fresh invoices j 0 dto.credits t.allocations parts.1,
                )
                (coherent j inv f l)
        ])

-- ===== src/Accounting/Reports/Query/Sums.antt =====
-- Grouping and ordering keep the sums.
use ume_pms_v2_backend.Prelude.{
  total, total-insert, lookup-All, insert-All, ◌≡◌, refl, Bool, List, [], ◌∷◌, ℤ, pos, pos_part,
  neg_part, ◌+ℤ◌, Eq, lookup, insert, or_else, sort_by, insert_by, All, All-sort_by, Bool-cases,
  inl, inr, int_laws, ap, ◌∙◌, zero-+ℤ,
}
use ume_pms_v2_backend.Accounting.Reports.Query.{
  LedgerRow, Group, start, add_row, group_from, grouped, code_le,
}

-- The sum of a number of each row.
abbrev pub row_total : (LedgerRow → ℤ) → List LedgerRow → ℤ
row_total amount [] = pos 0
row_total amount (r ∷ rs) = amount r +ℤ row_total amount rs

module _ {K : Type 0} (amount : Group → ℤ) where
  total-insert_by :
      (le : K × Group → K × Group → Bool) (p : K × Group) (m : List (K × Group))
      → total amount (insert_by le p m) ≡ amount p.1 +ℤ total amount m
  unfolding insert_by
  total-insert_by le (k, g) [] = refl
  total-insert_by le (k, g) ((j, h) ∷ m) = elim (Bool-cases (le (k, g) (j, h))) [
    | inl e ↦ rw e refl
    | inr e ↦ rw (e, total-insert_by le (k, g) m) (omega int_laws)
  ]

  total-sort_by :
      (le : K × Group → K × Group → Bool) (m : List (K × Group))
      → total amount (sort_by le m) ≡ total amount m
  unfolding sort_by
  total-sort_by le [] = refl
  total-sort_by le ((k, g) ∷ m) =
      rw (total-insert_by le (k, g) (sort_by le m), total-sort_by le m) refl

-- A number of a group that its rows add up to.
module _ {K : Type 0} ⦃e : Eq K⦄ (key : LedgerRow → K) (amount : Group → ℤ) (part : LedgerRow → ℤ)
    (starts : (r : LedgerRow) → amount (start r) ≡ pos 0)
    (adds : (g : Group) (r : LedgerRow) → amount (add_row g r) ≡ amount g +ℤ part r) where
  total-group_from :
      (rs : List LedgerRow) (m : List (K × Group))
      → total amount (group_from key rs m) ≡ total amount m +ℤ row_total part rs
  unfolding group_from
  total-group_from [] m = omega int_laws
  total-group_from (r ∷ rs) m =
      let old : Group = or_else (lookup (key r) m) (start r) in
      let step = total-insert amount (key r) (add_row old r) (start r) m (starts r) in
      let sum = rw (adds old r) at step in
      let up = ap pos_part sum in
      let down = ap neg_part sum in
      rw (total-group_from rs (insert (key r) (add_row old r) m)) (omega int_laws)

  pub total-grouped : (rs : List LedgerRow) → total amount (grouped key rs) ≡ row_total part rs
  unfolding grouped
  total-grouped rs =
      total-sort_by amount code_le (group_from key rs [])
      ∙ (total-group_from rs [] ∙ zero-+ℤ (row_total part rs))

-- What holds of every group.
module _ {K : Type 0} ⦃e : Eq K⦄ (key : LedgerRow → K) (P : Group → Type 0) (Q : LedgerRow → Type 0)
    (starts : (r : LedgerRow) → Q r → P (start r))
    (adds : (g : Group) (r : LedgerRow) → P g → Q r → P (add_row g r)) where
  abbrev HasAll : List (K × Group) → Type 0
  HasAll m = All (λ (p : K × Group). P p.1) m

  group_from-HasAll :
      (rs : List LedgerRow) (m : List (K × Group))
      → All Q rs
      → HasAll m
      → HasAll (group_from key rs m)
  unfolding group_from
  group_from-HasAll [] m hs all = all
  group_from-HasAll (r ∷ rs) m hs all =
      let old = lookup-All P (key r) (start r) m (starts r hs.0) all in
      group_from-HasAll rs _ hs.1 (insert-All P (key r) _ m (adds _ r old hs.0) all)

  pub grouped-All :
      (rs : List LedgerRow) → All Q rs → All (λ (p : K × Group). P p.1) (grouped key rs)
  unfolding grouped
  grouped-All rs hs =
      All-sort_by code_le (λ (p : K × Group). P p.1) (group_from key rs [])
        (group_from-HasAll rs [] hs tt)

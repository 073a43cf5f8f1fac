-- ===== src/Accounting/Posting/CurrencyTotals.antt =====
-- `totalsByCurrency` (src/modules/accounting/accounting-posting.ts).
use ume_pms_v2_backend.Prelude.{
  ◌≡◌, refl, List, [], ◌∷◌, Text, text_eq, ℤ, pos, ◌+ℤ◌, round2, IsCents, round2-add, +ℤ-IsCents,
  lookup, insert, lookup-insert, text_eq_inst, All, if◌then◌else◌, Bool-cases, inl, inr, arith,
  or_else, ◌∙◌, ap, sym, subst, text_eq→eq,
}
use ume_pms_v2_backend.Accounting.Posting.Types.{PreparedLine}

pub record Sides : Type 0 where
  pub debit : ℤ
  pub credit : ℤ

abbrev pub no_sides : Sides
no_sides = record { debit = pos 0; credit = pos 0 }

unfoldable pub add_line : List (Text × Sides) → PreparedLine → List (Text × Sides)
add_line out l =
    let b = or_else (lookup l.transaction_currency out) no_sides in
    insert l.transaction_currency
      (record { debit = round2 (b.debit +ℤ l.debit); credit = round2 (b.credit +ℤ l.credit) }) out

unfoldable pub totals_from : List (Text × Sides) → List PreparedLine → List (Text × Sides)
totals_from out [] = out
totals_from out (l ∷ lines) = totals_from (add_line out l) lines

unfoldable pub totals_by_currency : List PreparedLine → List (Text × Sides)
totals_by_currency lines = totals_from [] lines

-- The exact sums of the lines in one currency.
abbrev pub sum_in : Text → Sides → List PreparedLine → Sides
sum_in ccy s [] = s
sum_in ccy s (l ∷ ls) =
    sum_in ccy
      (if text_eq l.transaction_currency ccy
        then record { debit = s.debit +ℤ l.debit; credit = s.credit +ℤ l.credit }
        else s)
      ls

abbrev pub HasCents : PreparedLine → Type 0
HasCents l = IsCents l.debit × IsCents l.credit

abbrev SidesCents : Sides → Type 0
SidesCents s = IsCents s.debit × IsCents s.credit

abbrev at : Text → List (Text × Sides) → Sides
at ccy out = or_else (lookup ccy out) no_sides

at-add_line :
    (ccy : Text) (out : List (Text × Sides)) (l : PreparedLine)
    → HasCents l
    → SidesCents (at l.transaction_currency out)
    → at ccy (add_line out l) ≡ (
        if text_eq l.transaction_currency ccy
        then record {
          debit = (at ccy out).debit +ℤ l.debit;
          credit = (at ccy out).credit +ℤ l.credit;
        }
        else at ccy out)
unfolding add_line
at-add_line ccy out l h k =
    rw (lookup-insert ccy l.transaction_currency)
      (elim (Bool-cases (text_eq l.transaction_currency ccy)) [
        | inl e ↦ rw (
          e,
          ← text_eq→eq l.transaction_currency ccy e,
          round2-add _ l.debit k.0 h.0,
          round2-add _ l.credit k.1 h.1,
        )
        | inr e ↦ rw e
      ])

-- Each currency's entry stays in whole cents.
AreCents : List (Text × Sides) → Type 0
AreCents out = (ccy : Text) → SidesCents (at ccy out)

add_line-AreCents :
    (out : List (Text × Sides)) (l : PreparedLine)
    → HasCents l
    → AreCents out
    → AreCents (add_line out l)
unfolding AreCents
add_line-AreCents out l h k ccy =
    subst SidesCents (sym (at-add_line ccy out l h (k l.transaction_currency)))
      (elim (Bool-cases (text_eq l.transaction_currency ccy)) [
        | inl e ↦ rw e (+ℤ-IsCents _ _ (k ccy).0 h.0, +ℤ-IsCents _ _ (k ccy).1 h.1)
        | inr e ↦ rw e (k ccy)
      ])

totals_from-at :
    (ccy : Text) (out : List (Text × Sides)) (ls : List PreparedLine)
    → All HasCents ls
    → AreCents out
    → at ccy (totals_from out ls) ≡ sum_in ccy (at ccy out) ls
unfolding totals_from AreCents
totals_from-at ccy out [] h k = refl
totals_from-at ccy out (l ∷ ls) h k =
    totals_from-at ccy (add_line out l) ls h.1 (add_line-AreCents out l h.0 k)
    ∙ ap (λ s. sum_in ccy s ls) (at-add_line ccy out l h.0 (k l.transaction_currency))

-- Of lines in whole cents, the totals under a currency are the exact sums of the lines in just that
-- currency; a currency of no line has no amounts.
pub totals_by_currency_sums :
    (ccy : Text) (lines : List PreparedLine)
    → All HasCents lines
    → or_else (lookup ccy (totals_by_currency lines)) no_sides ≡ sum_in ccy no_sides lines
unfolding totals_by_currency AreCents lookup
totals_by_currency_sums ccy lines h =
    totals_from-at ccy [] lines h (λ c. (omega arith, omega arith))

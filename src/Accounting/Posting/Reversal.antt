-- ===== src/Accounting/Posting/Reversal.antt =====
-- `buildReversalLines` (src/modules/accounting/accounting-posting.ts): a reversal undoes its original.
use ume_pms_v2_backend.Prelude.{
  ℕ, ◌+◌, ◌≡◌, refl, Bool, true, false, not, ◌&&◌, Option, none, some, List, [], ◌∷◌, ◌++◌, Text,
  text_eq, ℤ, pos, ◌+ℤ◌, ◌-ℤ◌, int_laws, All, if◌then◌else◌, ◌==◌, Bool-cases, inl, inr, ap,
  pos_part, neg_part,
}
use ume_pms_v2_backend.Accounting.Posting.Types.{PreparedLine}
use ume_pms_v2_backend.Accounting.Posting.Lines.{is_positive}
use ume_pms_v2_backend.Accounting.Posting.Constraints.{HasLegalSides, SatisfiesChecks}
use ume_pms_v2_backend.Accounting.Posting.Lines.Totals.{sum_debit_eur, sum_credit_eur}

-- The Arabic word for reversal, by its code points; the prefix has a colon and a space behind it.
abbrev pub reversal_word : Text
reversal_word = 1593 ∷ 1603 ∷ 1587 ∷ []

-- An empty description counts as none.
abbrev pub reversal_description : Option Text → Text
reversal_description none = reversal_word
reversal_description (some []) = reversal_word
reversal_description (some (c ∷ s)) = reversal_word ++ (58 ∷ 32 ∷ c ∷ s)

-- The original's line at index `i`, its sides exchanged, the rate of the original kept.
unfoldable pub reversal_line : ℕ → PreparedLine → PreparedLine
reversal_line i l = record l {
  line_no = i + 1;
  debit = l.credit;
  credit = l.debit;
  debit_eur = l.credit_eur;
  credit_eur = l.debit_eur;
  description = some (reversal_description l.description);
}

unfoldable pub reversal_from : ℕ → List PreparedLine → List PreparedLine
reversal_from i [] = []
reversal_from i (l ∷ ls) = reversal_line i l ∷ reversal_from (i + 1) ls

unfoldable pub build_reversal_lines : List PreparedLine → List PreparedLine
build_reversal_lines original = reversal_from 0 original

pub reversal_line-HasLegalSides :
    (i : ℕ) (l : PreparedLine) → HasLegalSides l → HasLegalSides (reversal_line i l)
unfolding reversal_line
reversal_line-HasLegalSides i l c = record {
  debit_nonneg = c.credit_nonneg;
  credit_nonneg = c.debit_nonneg;
  debit_eur_nonneg = c.credit_eur_nonneg;
  credit_eur_nonneg = c.debit_eur_nonneg;
  one_side = flip (is_positive l.debit) (is_positive l.credit) c.one_side;
  eur_side = c.credit_eur_side;
  credit_eur_side = c.eur_side;
  fx_positive = c.fx_positive;
  eur_rate_is_one = c.eur_rate_is_one;
  foreign_needs_fx = c.foreign_needs_fx;
}
  where
    flip : (a b : Bool) → a ≡ not b → b ≡ not a
    flip true true e = e
    flip true false e = refl
    flip false true e = refl
    flip false false e = e

pub reversal_line-SatisfiesChecks :
    (i : ℕ) (l : PreparedLine) → SatisfiesChecks l → SatisfiesChecks (reversal_line i l)
unfolding reversal_line
reversal_line-SatisfiesChecks i l c = record {
  sides = reversal_line-HasLegalSides i l c.sides;
  known_source = c.known_source;
}

reversal_from-SatisfiesChecks :
    (i : ℕ) (ls : List PreparedLine)
    → All SatisfiesChecks ls
    → All SatisfiesChecks (reversal_from i ls)
unfolding reversal_from
reversal_from-SatisfiesChecks i [] h = tt
reversal_from-SatisfiesChecks i (l ∷ ls) h =
    (reversal_line-SatisfiesChecks i l h.0, reversal_from-SatisfiesChecks (i + 1) ls h.1)

-- The reversal of lines that satisfy all constraints of their table satisfies them too.
pub build_reversal_lines-SatisfiesChecks :
    (ls : List PreparedLine)
    → All SatisfiesChecks ls
    → All SatisfiesChecks (build_reversal_lines ls)
unfolding build_reversal_lines
build_reversal_lines-SatisfiesChecks ls h = reversal_from-SatisfiesChecks 0 ls h

reversal_from-sums :
    (i : ℕ) (ls : List PreparedLine)
    → (sum_debit_eur (reversal_from i ls) ≡ sum_credit_eur ls)
      × (sum_credit_eur (reversal_from i ls) ≡ sum_debit_eur ls)
unfolding reversal_from reversal_line
reversal_from-sums i [] = (refl, refl)
reversal_from-sums i (l ∷ ls) =
    let (d, c) = reversal_from-sums (i + 1) ls in
    (ap (◌+ℤ◌ l.credit_eur) d, ap (◌+ℤ◌ l.debit_eur) c)

-- The totals of a reversal are those of the original, exchanged.
pub build_reversal_lines-sums :
    (ls : List PreparedLine)
    → (sum_debit_eur (build_reversal_lines ls) ≡ sum_credit_eur ls)
      × (sum_credit_eur (build_reversal_lines ls) ≡ sum_debit_eur ls)
unfolding build_reversal_lines
build_reversal_lines-sums ls = reversal_from-sums 0 ls

-- What an entry's lines do to the balance of an account in a currency, in that currency and in euro.
abbrev pub concerns : ℕ → Text → PreparedLine → Bool
concerns account ccy l = (l.account_id == account) && text_eq l.transaction_currency ccy

abbrev pub net : ℕ → Text → List PreparedLine → ℤ
net account ccy [] = pos 0
net account ccy (l ∷ ls) =
    (if concerns account ccy l then l.debit -ℤ l.credit else pos 0) +ℤ net account ccy ls

abbrev pub net_eur : ℕ → Text → List PreparedLine → ℤ
net_eur account ccy [] = pos 0
net_eur account ccy (l ∷ ls) =
    (if concerns account ccy l then l.debit_eur -ℤ l.credit_eur else pos 0)
    +ℤ net_eur account ccy ls

reversal_from-cancels :
    (a : ℕ) (c : Text) (i : ℕ) (ls : List PreparedLine)
    → (net a c ls +ℤ net a c (reversal_from i ls) ≡ pos 0)
      × (net_eur a c ls +ℤ net_eur a c (reversal_from i ls) ≡ pos 0)
unfolding reversal_from reversal_line
reversal_from-cancels a c i [] = (omega int_laws, omega int_laws)
reversal_from-cancels a c i (l ∷ ls) =
    let (tail, tail_eur) = reversal_from-cancels a c (i + 1) ls in
    elim (Bool-cases (concerns a c l)) [
      | inl e ↦ rw e (
        cancel l.debit l.credit (net a c ls) (net a c (reversal_from (i + 1) ls)) tail,
        cancel l.debit_eur l.credit_eur (net_eur a c ls) (net_eur a c (reversal_from (i + 1) ls))
            tail_eur,
      )
      | inr e ↦ rw e (
        neither (net a c ls) (net a c (reversal_from (i + 1) ls)) tail,
        neither (net_eur a c ls) (net_eur a c (reversal_from (i + 1) ls)) tail_eur,
      )
    ]
  where
    cancel : (x y s t : ℤ) → s +ℤ t ≡ pos 0 → (x -ℤ y +ℤ s) +ℤ (y -ℤ x +ℤ t) ≡ pos 0
    cancel x y s t e = omega (int_laws, ap pos_part e, ap neg_part e)

    neither : (s t : ℤ) → s +ℤ t ≡ pos 0 → (pos 0 +ℤ s) +ℤ (pos 0 +ℤ t) ≡ pos 0
    neither s t e = omega (int_laws, ap pos_part e, ap neg_part e)

-- An entry and its reversal together leave every account as it was, in each currency of the lines
-- and in euro.
pub build_reversal_lines-cancels :
    (account : ℕ) (ccy : Text) (ls : List PreparedLine)
    → (net account ccy ls +ℤ net account ccy (build_reversal_lines ls) ≡ pos 0)
      × (net_eur account ccy ls +ℤ net_eur account ccy (build_reversal_lines ls) ≡ pos 0)
unfolding build_reversal_lines
build_reversal_lines-cancels account ccy ls = reversal_from-cancels account ccy 0 ls

-- ===== src/Accounting/Reports/Statements/Sums.antt =====
-- What the lines of a statement add up to.
use ume_pms_v2_backend.Prelude.{
  ◌≡◌, refl, Bool, List, [], ◌∷◌, map, ℤ, pos, ◌+ℤ◌, ◌-ℤ◌, eqb_ℤ, eqb_ℤ→eq, All-keep, round2_fix,
  round2-sub, round2-IsCents, IsCents, +ℤ-IsCents, keep, All, Bool-cases, inl, inr, int_laws,
  +ℤ_assoc, zero-+ℤ, if◌then◌else◌,
}
use ume_pms_v2_backend.Accounting.Posting.Types.{AccountType}
use ume_pms_v2_backend.Accounting.Reports.Statements.{
  AccountBalance, StatementLine, reduce_amounts, sum_lines, Natural, debit_side, credit_side,
  line_of, same_type, is_moved, lines_of,
}

-- The exact sum of some amounts.
abbrev pub total_of : List StatementLine → ℤ
total_of [] = pos 0
total_of (x ∷ xs) = x.amount +ℤ total_of xs

abbrev pub AreCents : List StatementLine → Type 0
AreCents xs = All (λ (x : StatementLine). IsCents x.amount) xs

reduce_amounts_lem : (a : ℤ) (xs : List StatementLine) → reduce_amounts a xs ≡ a +ℤ total_of xs
unfolding reduce_amounts
reduce_amounts_lem a [] = omega int_laws
reduce_amounts_lem a (x ∷ xs) =
    rw (reduce_amounts_lem (a +ℤ x.amount) xs) (+ℤ_assoc a x.amount (total_of xs))

pub total_of-IsCents : (xs : List StatementLine) → AreCents xs → IsCents (total_of xs)
total_of-IsCents [] h = (refl, refl)
total_of-IsCents (x ∷ xs) h = +ℤ-IsCents x.amount (total_of xs) h.0 (total_of-IsCents xs h.1)

pub sum_lines_lem : (xs : List StatementLine) → AreCents xs → sum_lines xs ≡ total_of xs
unfolding sum_lines
sum_lines_lem xs h =
    rw (reduce_amounts_lem (pos 0) xs, zero-+ℤ (total_of xs))
      (round2_fix (total_of xs) (total_of-IsCents xs h))

-- The balance of an account on the debit side, and the sum of these over the accounts of a type.
abbrev pub balance_of : AccountBalance → ℤ
balance_of r = r.debit_eur -ℤ r.credit_eur

abbrev pub debit_balance : AccountType → List AccountBalance → ℤ
debit_balance t [] = pos 0
debit_balance t (r ∷ rs) =
    (if same_type r.account_type t then balance_of r else pos 0) +ℤ debit_balance t rs

-- The balances are in whole cents.
pub record HasCentSides (r : AccountBalance) : Type 0 where
  pub debit : IsCents r.debit_eur
  pub credit : IsCents r.credit_eur

-- The sign that the natural side gives.
abbrev pub signed : Natural → ℤ → ℤ
signed debit_side b = b
signed credit_side b = pos 0 -ℤ b

line_of-amount :
    (n : Natural) (r : AccountBalance)
    → HasCentSides r
    → ((line_of n r).amount ≡ signed n (balance_of r)) × IsCents (line_of n r).amount
unfolding line_of
line_of-amount debit_side r h = (
  round2-sub r.debit_eur r.credit_eur h.debit h.credit,
  round2-IsCents (r.debit_eur -ℤ r.credit_eur),
)
line_of-amount credit_side r h = (
  rw (round2-sub r.credit_eur r.debit_eur h.credit h.debit) (omega int_laws),
  round2-IsCents (r.credit_eur -ℤ r.debit_eur),
)

signed-add : (n : Natural) (a b : ℤ) → signed n (a +ℤ b) ≡ signed n a +ℤ signed n b
signed-add debit_side a b = refl
signed-add credit_side a b = omega int_laws

signed-zero : (n : Natural) (a : ℤ) → signed n a ≡ signed n (pos 0 +ℤ a)
signed-zero n a = rw (zero-+ℤ a)

-- One more line, whether it is shown or not.
total_of-keep :
    (x : StatementLine) (xs : List StatementLine)
    → total_of (keep is_moved (x ∷ xs)) ≡ x.amount +ℤ total_of (keep is_moved xs)
total_of-keep x xs = elim (Bool-cases (eqb_ℤ x.amount (pos 0))) [
  | inl e ↦ rw (e, eqb_ℤ→eq x.amount (pos 0) e) (omega int_laws)
  | inr e ↦ rw e refl
]

abbrev of_type : AccountType → List AccountBalance → List AccountBalance
of_type t rows = keep (λ r. same_type r.account_type t) rows

abbrev is_of : AccountType → AccountBalance → Bool
is_of t r = same_type r.account_type t

-- The lines of chosen accounts add up to their balances; no account is left out.
shown-total :
    (t : AccountType) (n : Natural) (rows : List AccountBalance)
    → All HasCentSides rows
    → total_of (keep is_moved (map (line_of n) (of_type t rows))) ≡ signed n (debit_balance t rows)
shown-total t debit_side [] h = refl
shown-total t credit_side [] h = omega int_laws
shown-total t n (r ∷ rows) h = elim (Bool-cases (same_type r.account_type t)) [
  | inl e ↦
      rw
        (
          e,
          total_of-keep (line_of n r) (map (line_of n) (of_type t rows)),
          shown-total t n rows h.1,
          (line_of-amount n r h.0).0,
          signed-add n (balance_of r) (debit_balance t rows),
        )
        refl
  | inr e ↦ rw (e, shown-total t n rows h.1, zero-+ℤ (debit_balance t rows)) refl
]

lines-AreCents :
    (n : Natural) (rows : List AccountBalance)
    → All HasCentSides rows
    → AreCents (map (line_of n) rows)
lines-AreCents n [] h = tt
lines-AreCents n (r ∷ rows) h = ((line_of-amount n r h.0).1, lines-AreCents n rows h.1)

pub lines_of-total :
    (t : AccountType) (n : Natural) (rows : List AccountBalance)
    → All HasCentSides rows
    → (total_of (lines_of t n rows) ≡ signed n (debit_balance t rows))
      × AreCents (lines_of t n rows)
unfolding lines_of
lines_of-total t n rows h = (
  shown-total t n rows h,
  All-keep (λ (x : StatementLine). IsCents x.amount) is_moved (map (line_of n) (of_type t rows))
      (lines-AreCents n (of_type t rows) (All-keep HasCentSides (is_of t) rows h)),
)

-- What is shown as the total of a side.
pub lines_of-sum :
    (t : AccountType) (n : Natural) (rows : List AccountBalance)
    → All HasCentSides rows
    → sum_lines (lines_of t n rows) ≡ signed n (debit_balance t rows)
lines_of-sum t n rows h =
    let total = lines_of-total t n rows h in rw (sum_lines_lem (lines_of t n rows) total.1) total.0

-- ===== src/Accounting/Reports/Statements/Balance.antt =====
-- The balance sheet against the trial balance it is built from (buildBalanceSheet).
use ume_pms_v2_backend.Prelude.{
  ◌≡◌, ◌≢◌, refl, Bool, true, false, List, [], ◌∷◌, ℤ, pos, pos_part, neg_part, ◌+ℤ◌, ◌-ℤ◌, eqb_ℤ,
  ltb_ℤ, abs, IsCents, +ℤ-IsCents, -ℤ-IsCents, round2_fix, round2, round2-IsCents, subst,
  round2-add, round2-sub, All, arith, int_laws, ap, ◌∙◌, if◌then◌else◌,
}
use ume_pms_v2_backend.Accounting.Posting.Types.{
  AccountType, asset, liability, equity, revenue, expense, unknown,
}
use ume_pms_v2_backend.Accounting.Reports.Statements.{
  AccountBalance, sum_lines, debit_side, credit_side, lines_of, build_income_statement,
  build_balance_sheet, same_type,
}
use ume_pms_v2_backend.Accounting.Reports.Statements.Sums.{
  HasCentSides, balance_of, debit_balance, lines_of-sum,
}
use ume_pms_v2_backend.Accounting.Reports.Statements.Expenses.{total_expense-debit_balance}

-- The debits and the credits of all rows.
abbrev pub sum_debits : List AccountBalance → ℤ
sum_debits [] = pos 0
sum_debits (r ∷ rs) = r.debit_eur +ℤ sum_debits rs

abbrev pub sum_credits : List AccountBalance → ℤ
sum_credits [] = pos 0
sum_credits (r ∷ rs) = r.credit_eur +ℤ sum_credits rs

-- The type of the account is one that a statement shows.
abbrev pub IsClassified : AccountBalance → Type 0
IsClassified r = r.account_type ≢ unknown

debit_balance-IsCents :
    (t : AccountType) (rows : List AccountBalance)
    → All HasCentSides rows
    → IsCents (debit_balance t rows)
debit_balance-IsCents t [] h = (refl, refl)
debit_balance-IsCents t (r ∷ rows) h =
    +ℤ-IsCents (if same_type r.account_type t then balance_of r else pos 0) (debit_balance t rows)
      (share-IsCents (same_type r.account_type t)) (debit_balance-IsCents t rows h.1)
  where
    share-IsCents : (b : Bool) → IsCents (if b then balance_of r else pos 0)
    share-IsCents true = -ℤ-IsCents r.debit_eur r.credit_eur h.0.debit h.0.credit
    share-IsCents false = (refl, refl)

-- A classified balance counts for one of the five types.
one_type :
    (t : AccountType) (x : ℤ)
    → t ≢ unknown
    → (if same_type t asset then x else pos 0)
        +ℤ (if same_type t liability then x else pos 0)
        +ℤ (if same_type t equity then x else pos 0)
        +ℤ (if same_type t revenue then x else pos 0)
        +ℤ (if same_type t expense then x else pos 0)
      ≡ x
one_type asset x h = omega int_laws
one_type liability x h = omega int_laws
one_type equity x h = omega int_laws
one_type revenue x h = omega int_laws
one_type expense x h = omega int_laws
one_type unknown x h = absurd (h refl)

interleave :
    (a b c d e p q r s t debit credit ds cs : ℤ)
    → a +ℤ b +ℤ c +ℤ d +ℤ e ≡ debit -ℤ credit
    → p +ℤ q +ℤ r +ℤ s +ℤ t ≡ ds -ℤ cs
    → (a +ℤ p) +ℤ (b +ℤ q) +ℤ (c +ℤ r) +ℤ (d +ℤ s) +ℤ (e +ℤ t) ≡ (debit +ℤ ds) -ℤ (credit +ℤ cs)
interleave a b c d e p q r s t debit credit ds cs h k =
    let hp = ap pos_part h in
    let hn = ap neg_part h in let kp = ap pos_part k in let kn = ap neg_part k in omega int_laws

-- The five types make up all the rows.
types-total :
    (rows : List AccountBalance)
    → All IsClassified rows
    → debit_balance asset rows
        +ℤ debit_balance liability rows
        +ℤ debit_balance equity rows
        +ℤ debit_balance revenue rows
        +ℤ debit_balance expense rows
      ≡ sum_debits rows -ℤ sum_credits rows
types-total [] h = omega int_laws
types-total (r ∷ rows) h =
    interleave _ _ _ _ _ (debit_balance asset rows) (debit_balance liability rows)
      (debit_balance equity rows) (debit_balance revenue rows) (debit_balance expense rows)
      r.debit_eur r.credit_eur (sum_debits rows) (sum_credits rows)
      (one_type r.account_type (balance_of r) h.0) (types-total rows h.1)

net_result-round2 :
    (rows : List AccountBalance)
    → (build_income_statement rows).net_result
      ≡ round2 (
          sum_lines (lines_of revenue credit_side rows)
          -ℤ (build_income_statement rows).total_expense)
unfolding build_income_statement
net_result-round2 rows = refl

-- The result of a period is its revenues less its expenses, exactly.
pub net_result-exact :
    (rows : List AccountBalance)
    → All HasCentSides rows
    → (build_income_statement rows).net_result
      ≡ (pos 0 -ℤ debit_balance revenue rows) -ℤ debit_balance expense rows
net_result-exact rows h =
    rw
      (
        net_result-round2 rows,
        lines_of-sum revenue credit_side rows h,
        total_expense-debit_balance rows h,
      )
      (round2-sub (pos 0 -ℤ debit_balance revenue rows) (debit_balance expense rows)
        (-ℤ-IsCents (pos 0) (debit_balance revenue rows) (refl, refl)
          (debit_balance-IsCents revenue rows h))
        (debit_balance-IsCents expense rows h))

net_result-IsCents : (rows : List AccountBalance) → IsCents (build_income_statement rows).net_result
net_result-IsCents rows = rw (net_result-round2 rows) (round2-IsCents _)

is_balanced-lem :
    (rows : List AccountBalance) (result : ℤ)
    → (build_balance_sheet rows result).is_balanced
      ≡ ltb_ℤ (abs (build_balance_sheet rows result).difference) (pos 500_000)
unfolding build_balance_sheet
is_balanced-lem rows result = refl

difference-IsCents :
    (rows : List AccountBalance) (result : ℤ) → IsCents (build_balance_sheet rows result).difference
unfolding build_balance_sheet
difference-IsCents rows result = round2-IsCents _

module _ (rows : List AccountBalance) (h : All HasCentSides rows) where
  abbrev credit_of : AccountType → ℤ
  credit_of t = pos 0 -ℤ debit_balance t rows

  credit_of-IsCents : (t : AccountType) → IsCents (credit_of t)
  credit_of-IsCents t =
      -ℤ-IsCents (pos 0) (debit_balance t rows) (refl, refl) (debit_balance-IsCents t rows h)

  -- What the sheet shows, without its roundings.
  difference-exact :
      (result : ℤ)
      → IsCents result
      → (build_balance_sheet rows result).difference
        ≡ debit_balance asset rows -ℤ (credit_of liability +ℤ (credit_of equity +ℤ result))
  unfolding build_balance_sheet
  difference-exact result whole =
      let e = credit_of-IsCents equity in
      let l = credit_of-IsCents liability in
      let er = +ℤ-IsCents (credit_of equity) result e whole in
      rw
        (
          lines_of-sum equity credit_side rows h,
          lines_of-sum liability credit_side rows h,
          lines_of-sum asset debit_side rows h,
          round2_fix result whole,
          round2-add (credit_of equity) result e whole,
          round2-add (credit_of liability) (credit_of equity +ℤ result) l er,
        )
        (round2-sub (debit_balance asset rows) _ (debit_balance-IsCents asset rows h)
          (+ℤ-IsCents (credit_of liability) (credit_of equity +ℤ result) l er))

regroup :
    (a l e r x total : ℤ)
    → a +ℤ l +ℤ e +ℤ r +ℤ x ≡ total
    → a -ℤ ((pos 0 -ℤ l) +ℤ ((pos 0 -ℤ e) +ℤ ((pos 0 -ℤ r) -ℤ x))) ≡ total
regroup a l e r x total h = let hp = ap pos_part h in let hn = ap neg_part h in omega int_laws

-- Less than half a cent apart is equal, for whole cents.
small-IsZero : (d c : ℤ) → IsCents (d -ℤ c) → ltb_ℤ (abs (d -ℤ c)) (pos 500_000) ≡ eqb_ℤ d c
unfolding ◌-ℤ◌
small-IsZero d c h = ground arith

-- The sheet made with the result of the income statement of the same rows is off by what the debits
-- and the credits of the rows differ by, and `is_balanced` says whether they are equal; the rows
-- are in whole cents and of the five types.
pub balance_sheet-lem :
    (rows : List AccountBalance)
    → All HasCentSides rows
    → All IsClassified rows
    → let sheet = build_balance_sheet rows (build_income_statement rows).net_result in
      (sheet.difference ≡ sum_debits rows -ℤ sum_credits rows)
      × (sheet.is_balanced ≡ eqb_ℤ (sum_debits rows) (sum_credits rows))
balance_sheet-lem rows h known =
    let exact =
      difference-exact rows h (build_income_statement rows).net_result (net_result-IsCents rows)
      ∙ rw (net_result-exact rows h) (
          regroup (debit_balance asset rows) (debit_balance liability rows)
            (debit_balance equity rows) (debit_balance revenue rows) (debit_balance expense rows) _
            (types-total rows known)) in
    (
      exact,
      is_balanced-lem rows (build_income_statement rows).net_result
          ∙ rw exact (
              small-IsZero (sum_debits rows) (sum_credits rows) (
                subst IsCents exact
                  (difference-IsCents rows (build_income_statement rows).net_result))),
    )

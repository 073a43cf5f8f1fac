-- ===== src/Accounting/Amortization/Plan.antt =====
-- The entry of a month's amortization balances.
use ume_pms_v2_backend.Prelude.{
  ℕ, ◌≡◌, refl, some, List, [], ◌∷◌, ◌++◌, map, Text, ℤ, pos, ◌+ℤ◌, round2, round2_fix, round2-add,
  IsCents, +ℤ-IsCents, Result, ok, >>=-eq-ok, ok-injective, All, total, total-insert, lookup-All,
  insert-All, or_else, lookup, insert, id_eq, ap, sym, ◌∙◌, pos_part, neg_part, some-injective,
  int_laws, +ℤ_assoc, zero-+ℤ, +ℤ-zero, subst,
}
use ume_pms_v2_backend.Accounting.Months.{ScheduleError, last_day_of_month}
use ume_pms_v2_backend.Accounting.Amortization.{
  PrepaidSchedule, AmortizationLine, shares, group_lines, sum_prepaid, AmortizationDebit,
  reduce_lines, debit_of, MonthlyAmortization, reduce_debits, plan_lines, plan_some, plan_month,
}
use ume_pms_v2_backend.Accounting.Amortization.Shares.{HasCents, shares-cents}

-- The amounts of the lines, added up.
abbrev pub sum_shares : List AmortizationLine → ℤ
sum_shares [] = pos 0
sum_shares (l ∷ ls) = l.amount +ℤ sum_shares ls

sum_shares-append :
    (ls : List AmortizationLine) (l : AmortizationLine)
    → sum_shares (ls ++ (l ∷ [])) ≡ sum_shares ls +ℤ l.amount
sum_shares-append [] l = omega int_laws
sum_shares-append (x ∷ ls) l =
    rw (sum_shares-append ls l) (sym (+ℤ_assoc x.amount (sum_shares ls) l.amount))

All-snoc :
    (ls : List AmortizationLine) (l : AmortizationLine)
    → All HasCents ls
    → HasCents l
    → All HasCents (ls ++ (l ∷ []))
All-snoc [] l h k = (k, tt)
All-snoc (x ∷ ls) l h k = (h.0, All-snoc ls l h.1 k)

balance_step : (a b c d e : ℤ) → a +ℤ b ≡ c +ℤ (b +ℤ d) → a +ℤ e ≡ c +ℤ (d +ℤ e)
balance_step a b c d e h = let up = ap pos_part h in let down = ap neg_part h in omega int_laws

-- Grouping keeps the sum, on both sides.
group_lines-total :
    (ls : List AmortizationLine) (m : List (ℕ × List AmortizationLine))
    → total sum_shares (group_lines m ls) ≡ total sum_shares m +ℤ sum_shares ls
unfolding group_lines
group_lines-total [] m = sym (+ℤ-zero (total sum_shares m))
group_lines-total (l ∷ ls) m =
    let before : List AmortizationLine = or_else (lookup l.expense_account_id m) [] in
    let step =
      total-insert sum_shares l.expense_account_id (before ++ (l ∷ [])) [] m refl
      ∙ ap (λ x. total sum_shares m +ℤ x) (sum_shares-append before l) in
    group_lines-total ls (insert l.expense_account_id (before ++ (l ∷ [])) m)
    ∙ balance_step _ (sum_shares before) (total sum_shares m) l.amount (sum_shares ls) step

group_lines-HasCents :
    (ls : List AmortizationLine) (m : List (ℕ × List AmortizationLine))
    → All HasCents ls
    → All (λ (p : ℕ × List AmortizationLine). All HasCents p.1) m
    → All (λ (p : ℕ × List AmortizationLine). All HasCents p.1) (group_lines m ls)
unfolding group_lines
group_lines-HasCents [] m h all = all
group_lines-HasCents (l ∷ ls) m h all =
    let old = lookup-All (All HasCents) l.expense_account_id [] m tt all in
    group_lines-HasCents ls _ h.1
      (insert-All (All HasCents) l.expense_account_id _ m (All-snoc _ l old h.0) all)

sum_prepaid-total :
    (ls : List AmortizationLine) (m : List (ℕ × ℤ))
    → All HasCents ls
    → All (λ (p : ℕ × ℤ). IsCents p.1) m
    → total (λ a. a) (sum_prepaid m ls) ≡ total (λ a. a) m +ℤ sum_shares ls
unfolding sum_prepaid
sum_prepaid-total [] m h all = sym (+ℤ-zero (total (λ a. a) m))
sum_prepaid-total (l ∷ ls) m h all =
    let before : ℤ = or_else (lookup l.prepaid_account_id m) (pos 0) in
    let old = lookup-All IsCents l.prepaid_account_id (pos 0) m (refl, refl) all in
    let exact = round2-add before l.amount old h.0 in
    let step = total-insert (λ a. a) l.prepaid_account_id (before +ℤ l.amount) (pos 0) m refl in
    rw exact (
      sum_prepaid-total ls (insert l.prepaid_account_id (before +ℤ l.amount) m) h.1 (
        insert-All IsCents l.prepaid_account_id (before +ℤ l.amount) m
          (+ℤ-IsCents before l.amount old h.0) all)
      ∙ balance_step _ before (total (λ a. a) m) l.amount (sum_shares ls) step)

reduce_lines-lem : (s : ℤ) (ls : List AmortizationLine) → reduce_lines s ls ≡ s +ℤ sum_shares ls
unfolding reduce_lines
reduce_lines-lem s [] = sym (+ℤ-zero s)
reduce_lines-lem s (l ∷ ls) =
    rw (reduce_lines-lem (s +ℤ l.amount) ls) (+ℤ_assoc s l.amount (sum_shares ls))

sum_shares-IsCents : (ls : List AmortizationLine) → All HasCents ls → IsCents (sum_shares ls)
sum_shares-IsCents [] h = (refl, refl)
sum_shares-IsCents (l ∷ ls) h = +ℤ-IsCents l.amount (sum_shares ls) h.0 (sum_shares-IsCents ls h.1)

debit-exact :
    (ls : List AmortizationLine)
    → All HasCents ls
    → round2 (reduce_lines (pos 0) ls) ≡ sum_shares ls
debit-exact ls h =
    rw (reduce_lines-lem (pos 0) ls, zero-+ℤ (sum_shares ls))
      (round2_fix (sum_shares ls) (sum_shares-IsCents ls h))

abbrev pub sum_of_debits : List AmortizationDebit → ℤ
sum_of_debits [] = pos 0
sum_of_debits (d ∷ ds) = d.amount +ℤ sum_of_debits ds

debits-exact :
    (month : Text) (m : List (ℕ × List AmortizationLine))
    → All (λ (p : ℕ × List AmortizationLine). All HasCents p.1) m
    → sum_of_debits (map (debit_of month) m) ≡ total sum_shares m
unfolding debit_of
debits-exact month [] h = refl
debits-exact month ((k, ls) ∷ m) h = rw (debit-exact ls h.0, debits-exact month m h.1) refl

reduce_debits-lem :
    (s : ℤ) (ds : List AmortizationDebit) → reduce_debits s ds ≡ s +ℤ sum_of_debits ds
unfolding reduce_debits
reduce_debits-lem s [] = sym (+ℤ-zero s)
reduce_debits-lem s (d ∷ ds) =
    rw (reduce_debits-lem (s +ℤ d.amount) ds) (+ℤ_assoc s d.amount (sum_of_debits ds))

-- The entry planned from these lines.
pub record IsPlanned (lines : List AmortizationLine) (p : MonthlyAmortization) : Type 0 where
  pub debits : sum_of_debits p.debits ≡ p.total
  pub credits : total (λ a. a) p.credits ≡ p.total
  pub exact : p.total ≡ sum_shares lines

module _ (uuid : Text → Result ScheduleError Text) where
  plan_lines-IsPlanned :
      (entity_id month : Text) (lines : List AmortizationLine) {p : MonthlyAmortization}
      → All HasCents lines
      → plan_lines uuid entity_id month lines ≡ ok p
      → IsPlanned lines p
  unfolding plan_lines
  plan_lines-IsPlanned entity_id month lines {p} h e =
      let (date, d, went) = >>=-eq-ok (last_day_of_month month) _ e in
      let (source_id, u, last) = >>=-eq-ok (uuid _) _ went in
      let written = sym (ok-injective last) in
      let cents = group_lines-HasCents lines [] h tt in
      let deb =
        debits-exact month (group_lines [] lines) cents
        ∙ (group_lines-total lines [] ∙ zero-+ℤ (sum_shares lines)) in
      let cre = sum_prepaid-total lines [] h tt ∙ zero-+ℤ (sum_shares lines) in
      let tot : round2 (reduce_debits (pos 0) (map (debit_of month) (group_lines [] lines)))
          ≡ sum_shares lines =
        rw
          (
            reduce_debits-lem (pos 0) (map (debit_of month) (group_lines [] lines)),
            zero-+ℤ (sum_of_debits (map (debit_of month) (group_lines [] lines))),
            deb,
          )
          (round2_fix (sum_shares lines) (sum_shares-IsCents lines h)) in
      rw written (record { debits = deb ∙ sym tot; credits = cre ∙ sym tot; exact = tot })

  plan_some-IsPlanned :
      (entity_id month : Text) (lines : List AmortizationLine) {p : MonthlyAmortization}
      → All HasCents lines
      → plan_some uuid entity_id month lines ≡ ok (some p)
      → IsPlanned lines p
  unfolding plan_some
  plan_some-IsPlanned entity_id month [] h e = cc
  plan_some-IsPlanned entity_id month (l ∷ ls) {p} h e =
      let (planned, made, last) = >>=-eq-ok (plan_lines uuid entity_id month (l ∷ ls)) _ e in
      let same : planned ≡ p = some-injective _ _ (ok-injective last) in
      subst (IsPlanned (l ∷ ls)) same (plan_lines-IsPlanned entity_id month (l ∷ ls) h made)

  -- When an entry is planned for a month, it balances: its debits by expense account and its credits
  -- by prepaid account add up to the same total, which is exactly the sum of the month's shares of
  -- all schedules.
  pub plan_month-IsPlanned :
      (entity_id month : Text) (schedules : List PrepaidSchedule) {p : MonthlyAmortization}
      → plan_month uuid entity_id month schedules ≡ ok (some p)
      → (lines : List AmortizationLine) × (shares month schedules ≡ ok lines) × IsPlanned lines p
  unfolding plan_month
  plan_month-IsPlanned entity_id month schedules e =
      let (lines, found, went) = >>=-eq-ok (shares month schedules) _ e in
      (
        lines,
        found,
        plan_some-IsPlanned entity_id month lines (shares-cents month schedules found) went,
      )

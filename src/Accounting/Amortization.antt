-- ===== src/Accounting/Amortization.antt =====
-- The amortization of prepaid expenses (src/modules/accounting/bridge/amortization.logic.ts).
pub mod Spread
pub mod Shares
pub mod Plan
use ume_pms_v2_backend.Prelude.{
  ℕ, zero, suc, ◌+◌, ◌-◌, Bool, true, false, not, ◌&&◌, ◌||◌, Option, none, some, List, [], ◌∷◌,
  ◌++◌, map, Text, codes, text_lt, text_eq, trim, decimal, ℤ, pos, ◌+ℤ◌, ◌-ℤ◌, ◌*ℤ◌, leb_ℤ, ltb_ℤ,
  eqb_ℤ, round2, round2_ratio, Result, ok, err, ◌>>=◌, ◌>>◌, throw_if, if◌then◌else◌, keep, find_by,
  any_by, length, or_else, ◌==◌, lookup, insert, id_eq, sort_by, text_le,
}
use ume_pms_v2_backend.Accounting.Months.{
  ScheduleError, amount_not_positive, no_months, last_day_of_month, months_between,
  last_completed_month,
}

pub record AmortizationMonth : Type 0 where
  pub month : Text
  pub accounting_date : Text
  pub amount : ℤ

-- `fixedMonthly && fixedMonthly > 0`
abbrev pub instalment : Option ℤ → ℤ → ℕ → ℤ
instalment none amount n = round2_ratio amount n
instalment (some fixed) amount n =
    if ltb_ℤ (pos 0) fixed then round2 fixed else round2_ratio amount n

-- `per` for each month, and for the last one `rest`.
unfoldable pub spread_over : ℤ → ℤ → List Text → Result ScheduleError (List AmortizationMonth)
spread_over per rest [] = ok []
spread_over per rest (month ∷ []) = do
  date ← last_day_of_month month
  ok (record { month = month; accounting_date = date; amount = rest } ∷ [])
spread_over per rest (month ∷ next ∷ months) = do
  date ← last_day_of_month month
  others ← spread_over per rest (next ∷ months)
  ok (record { month = month; accounting_date = date; amount = per } ∷ others)

unfoldable pub spread_amount :
    ℤ → List Text → Option ℤ → Result ScheduleError (List AmortizationMonth)
spread_amount total months fixed_monthly = do
  let amount = round2 total
  throw_if (leb_ℤ amount (pos 0)) amount_not_positive
  throw_if (length months == 0) no_months
  let per = instalment fixed_monthly amount (length months)
  spread_over per (round2 (amount -ℤ per *ℤ pos (length months - 1))) months

pub record PrepaidSchedule : Type 0 where
  pub id : ℕ
  pub description : Option Text
  pub source_reference : Option Text
  pub total_amount : ℤ
  pub start_month : Text
  pub end_month : Text
  pub expense_account_id : ℕ
  pub prepaid_account_id : ℕ
  pub vessel_id : Option ℕ
  pub customer_id : Option ℕ
  pub monthly_amount : Option ℤ

pub record AmortizationLine : Type 0 where
  pub schedule_id : ℕ
  pub expense_account_id : ℕ
  pub prepaid_account_id : ℕ
  pub vessel_id : Option ℕ
  pub customer_id : Option ℕ
  pub amount : ℤ
  pub description : Text

-- "amortization " and the month, and a dash after it
abbrev pub amortization_of : Text → Text
amortization_of month = 1573 ∷ 1591 ∷ 1601 ∷ 1575 ∷ 1569 ∷ 32 ∷ (month ++ (32 ∷ 8212 ∷ 32 ∷ []))

-- `s.description ?? s.source_reference ?? ''`
abbrev pub name_of : PrepaidSchedule → Text
name_of s = or_else s.description (or_else s.source_reference [])

abbrev pub share_line : PrepaidSchedule → Text → AmortizationMonth → AmortizationLine
share_line s month hit = record {
  schedule_id = s.id;
  expense_account_id = s.expense_account_id;
  prepaid_account_id = s.prepaid_account_id;
  vessel_id = s.vessel_id;
  customer_id = s.customer_id;
  amount = hit.amount;
  description = trim (amortization_of month ++ name_of s);
}

abbrev pub share_of : PrepaidSchedule → Text → Option AmortizationMonth → Option AmortizationLine
share_of s month none = none
share_of s month (some hit) = some (share_line s month hit)

unfoldable pub month_share : PrepaidSchedule → Text → Result ScheduleError (Option AmortizationLine)
month_share s month =
    if text_lt month s.start_month || text_lt s.end_month month then ok none else do
      months ← months_between s.start_month s.end_month
      spread ← spread_amount s.total_amount months s.monthly_amount
      ok (share_of s month (find_by (λ x. text_eq x.month month) spread))

-- `x !== null && x.amount !== 0`
abbrev pub add_share : Option AmortizationLine → List AmortizationLine → List AmortizationLine
add_share none rest = rest
add_share (some x) rest = if not (eqb_ℤ x.amount (pos 0)) then x ∷ rest else rest

unfoldable pub shares : Text → List PrepaidSchedule → Result ScheduleError (List AmortizationLine)
shares month [] = ok []
shares month (s ∷ schedules) = do
  x ← month_share s month
  rest ← shares month schedules
  ok (add_share x rest)

-- `byAccount`: the lines of each expense account
unfoldable pub group_lines :
    List (ℕ × List AmortizationLine) → List AmortizationLine → List (ℕ × List AmortizationLine)
group_lines m [] = m
group_lines m (l ∷ ls) =
    let before = or_else (lookup l.expense_account_id m) [] in
    group_lines (insert l.expense_account_id (before ++ (l ∷ [])) m) ls

-- `byPrepaid`: the sum of each prepaid account
unfoldable pub sum_prepaid : List (ℕ × ℤ) → List AmortizationLine → List (ℕ × ℤ)
sum_prepaid m [] = m
sum_prepaid m (l ∷ ls) =
    let before = or_else (lookup l.prepaid_account_id m) (pos 0) in
    sum_prepaid (insert l.prepaid_account_id (round2 (before +ℤ l.amount)) m) ls

pub record AmortizationDebit : Type 0 where
  pub expense_account_id : ℕ
  pub amount : ℤ
  pub description : Text
  pub vessel_id : Option ℕ
  pub customer_id : Option ℕ

unfoldable pub reduce_lines : ℤ → List AmortizationLine → ℤ
reduce_lines s [] = s
reduce_lines s (l ∷ ls) = reduce_lines (s +ℤ l.amount) ls

-- "contracts"
abbrev contracts : Text
contracts = 32 ∷ 1593 ∷ 1602 ∷ 1608 ∷ 1583 ∷ []

-- The text of one line, or how many there are.
abbrev pub describe : Text → List AmortizationLine → Text
describe month (l ∷ []) = l.description
describe month ls = amortization_of month ++ (decimal (length ls) ++ contracts)

abbrev pub first_vessel : List AmortizationLine → Option ℕ
first_vessel [] = none
first_vessel (l ∷ ls) = l.vessel_id

unfoldable pub debit_of : Text → ℕ × List AmortizationLine → AmortizationDebit
debit_of month (account, ls) = record {
  expense_account_id = account;
  amount = round2 (reduce_lines (pos 0) ls);
  description = describe month ls;
  vessel_id = first_vessel ls;
  customer_id = none;
}

pub record MonthlyAmortization : Type 0 where
  pub month : Text
  pub accounting_date : Text
  pub source_id : Text
  pub source_reference : Text
  pub debits : List AmortizationDebit
  pub credits : List (ℕ × ℤ)
  pub total : ℤ

unfoldable pub reduce_debits : ℤ → List AmortizationDebit → ℤ
reduce_debits s [] = s
reduce_debits s (d ∷ ds) = reduce_debits (s +ℤ d.amount) ds

-- `uuid` is `deterministicUuid` in a namespace.
module _ (uuid : Text → Result ScheduleError Text) where
  unfoldable pub plan_lines :
      Text → Text → List AmortizationLine → Result ScheduleError MonthlyAmortization
  plan_lines entity_id month lines = do
    let debits = map (debit_of month) (group_lines [] lines)
    date ← last_day_of_month month
    source_id ← uuid (codes "prepaid|" ++ (entity_id ++ (codes "|" ++ month)))
    ok (record {
      month = month;
      accounting_date = date;
      source_id = source_id;
      source_reference = codes "AMORT-" ++ month;
      debits = debits;
      credits = sum_prepaid [] lines;
      total = round2 (reduce_debits (pos 0) debits);
    })

  -- `if (!lines.length) return null`
  unfoldable pub plan_some :
      Text → Text → List AmortizationLine → Result ScheduleError (Option MonthlyAmortization)
  plan_some entity_id month [] = ok none
  plan_some entity_id month (l ∷ ls) = do
    planned ← plan_lines entity_id month (l ∷ ls)
    ok (some planned)

  unfoldable pub plan_month :
      Text → Text → List PrepaidSchedule → Result ScheduleError (Option MonthlyAmortization)
  plan_month entity_id month schedules = do
    lines ← shares month schedules
    plan_some entity_id month lines

-- `.sort()[0]`, and the same after `.reverse()`
abbrev first_text : List Text → Text
first_text [] = []
first_text (t ∷ ts) = t

abbrev last_text : List Text → Text
last_text [] = []
last_text (t ∷ []) = t
last_text (t ∷ u ∷ ts) = last_text (u ∷ ts)

-- `today` comes as its year and its month.
unfoldable pub amortization_months_due :
    List PrepaidSchedule → ℕ × ℕ → List Text → Result ScheduleError (List Text)
amortization_months_due [] today already_posted = ok []
amortization_months_due (s ∷ rest) today already_posted =
    let schedules = s ∷ rest in
    let last_completed = last_completed_month today in
    let start =
      first_text (sort_by text_le (map (λ (x : PrepaidSchedule). x.start_month) schedules)) in
    let end = last_text (sort_by text_le (map (λ (x : PrepaidSchedule). x.end_month) schedules)) in
    let upto = if text_lt end last_completed then end else last_completed in
    if text_lt upto start then ok [] else do
      months ← months_between start upto
      ok (keep (λ mo. not (any_by (λ d. text_eq d mo) already_posted)) months)

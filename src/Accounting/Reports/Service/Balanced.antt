-- ===== src/Accounting/Reports/Service/Balanced.antt =====
-- The statements of a sound book balance.
use ume_pms_v2_backend.Prelude.{
  total, ℕ, ◌≡◌, ◌≢◌, refl, true, false, Option, some, none, List, [], ◌∷◌, map, Text, text_lt,
  is_iso_date, ℤ, pos, ◌-ℤ◌, eqb_ℤ, All, ok, sym, ◌∙◌, arith, int_laws,
}
use ume_pms_v2_backend.Accounting.Posting.Types.{unknown}
use ume_pms_v2_backend.Accounting.Reports.Statements.{AccountBalance}
use ume_pms_v2_backend.Accounting.Ledger.Types.{Store}
use ume_pms_v2_backend.Accounting.Ledger.History.Sound.{IsSound}
use ume_pms_v2_backend.Accounting.Reports.Query.{
  AccountRow, LedgerRow, Group, is_selected, ledger_rows, grouped,
}
use ume_pms_v2_backend.Accounting.Reports.Query.Sums.{total-grouped, grouped-All}
use ume_pms_v2_backend.Accounting.Reports.Query.Rows.{
  IsKeyed, HasAccounts, AreClassified, IsSound-All, HasCentAmounts, IsOfKnownType, debit_part,
  credit_part, is_selected-is_booked, ledger_rows-balance, ledger_rows-HasCentAmounts,
  ledger_rows-IsOfKnownType,
}
use ume_pms_v2_backend.Accounting.Reports.TrialBalance.Balanced.{
  HasCentSums, start-HasCentSums, add_row-HasCentSums, debit_sum, credit_sum,
}
use ume_pms_v2_backend.Accounting.Reports.Statements.Sums.{HasCentSides}
use ume_pms_v2_backend.Accounting.Reports.Statements.Balance.{
  sum_debits, sum_credits, IsClassified, balance_sheet-lem,
}
use ume_pms_v2_backend.Accounting.Reports.Service.{
  AccountKey, key_eq, account_key, balance_row, balances, EntityHeader, Statements, statements_of,
  statements,
}

rows-sums :
    (gs : List (AccountKey × Group))
    → (sum_debits (map balance_row gs) ≡ total debit_sum gs)
      × (sum_credits (map balance_row gs) ≡ total credit_sum gs)
unfolding balance_row
rows-sums [] = (refl, refl)
rows-sums ((k, g) ∷ gs) = rw ((rows-sums gs).0, (rows-sums gs).1) (refl, refl)

record IsStated (g : Group) : Type 0 where
  cents : HasCentSums g
  classified : g.account.account_type ≢ unknown

record IsStatedRow (r : LedgerRow) : Type 0 where
  cents : HasCentAmounts r
  classified : IsOfKnownType r

stated_rows :
    (rs : List LedgerRow) → All HasCentAmounts rs → All IsOfKnownType rs → All IsStatedRow rs
stated_rows [] h k = tt
stated_rows (r ∷ rs) h k = (record { cents = h.0; classified = k.0 }, stated_rows rs h.1 k.1)

rows_are_fit :
    (gs : List (AccountKey × Group))
    → All (λ (p : AccountKey × Group). IsStated p.1) gs
    → All HasCentSides (map balance_row gs) × All IsClassified (map balance_row gs)
unfolding balance_row
rows_are_fit [] h = (tt, tt)
rows_are_fit ((k, g) ∷ gs) h =
    let rest = rows_are_fit gs h.1 in
    (
      (record { debit = h.0.cents.debit; credit = h.0.cents.credit }, rest.0),
      (h.0.classified, rest.1),
    )

record AreFit (rows : List AccountBalance) : Type 0 where
  cents : All HasCentSides rows
  classified : All IsClassified rows
  equal : sum_debits rows ≡ sum_credits rows

balances-AreFit :
    (account_rows : ℕ → Option AccountRow) (entity_id : ℕ) (from : Option Text) (to : Text)
    (s : Store)
    → IsSound s
    → IsKeyed s.entries
    → HasAccounts account_rows s.lines
    → AreClassified account_rows
    → AreFit (balances account_rows entity_id from to s)
unfolding balances
balances-AreFit account_rows entity_id from to s sound keyed known typed =
    let selected = is_selected entity_id from (some to) in
    let booked = is_selected-is_booked entity_id from (some to) in
    let all = IsSound-All s sound keyed in
    let rows : List LedgerRow = ledger_rows account_rows s.lines selected s.entries in
    let gs : List (AccountKey × Group) = grouped account_key rows in
    let stated =
      grouped-All account_key IsStated IsStatedRow
        (λ r h. record { cents = start-HasCentSums r h.cents; classified = h.classified })
        (λ g r h k. record {
          cents = add_row-HasCentSums g r h.cents k.cents;
          classified = h.classified;
        })
        rows
        (stated_rows rows
          (ledger_rows-HasCentAmounts account_rows s.lines selected booked s.entries all)
          (ledger_rows-IsOfKnownType account_rows s.lines selected booked s.entries typed)) in
    let fit = rows_are_fit gs stated in
    let debits = total-grouped account_key debit_sum debit_part (λ r. refl) (λ g r. refl) rows in
    let credits = total-grouped account_key credit_sum credit_part (λ r. refl) (λ g r. refl) rows in
    let equal = ledger_rows-balance account_rows s.lines selected booked s.entries known all in
    let sums = rows-sums gs in
    record {
      cents = fit.0;
      classified = fit.1;
      equal = sums.0 ∙ (debits ∙ (equal ∙ (sym credits ∙ sym sums.1)));
    }

no_difference : (d c : ℤ) → d ≡ c → (d -ℤ c ≡ pos 0) × (eqb_ℤ d c ≡ true)
no_difference d c h = rw h (omega int_laws, ground arith)

-- For a sound book, whose entries have distinct identifiers and whose lines have accounts of the
-- five types, and for any window of two dates in order that the database reads as dates, `statements`
-- answers, and its balance sheet balances: with the result not yet closed counted to the equity the difference is zero.
pub statements-IsBalanced :
    (date_of : Text → Option Text) (account_rows : ℕ → Option AccountRow)
    (entity_rows : ℕ → Option EntityHeader) (entity_id : ℕ) (from to : Text)
    {from_date to_date : Text} (s : Store)
    → IsSound s
    → IsKeyed s.entries
    → HasAccounts account_rows s.lines
    → AreClassified account_rows
    → is_iso_date from ≡ true
    → is_iso_date to ≡ true
    → text_lt to from ≡ false
    → date_of from ≡ some from_date
    → date_of to ≡ some to_date
    → (r : Statements) × (statements date_of account_rows entity_rows (some entity_id) from to s
        ≡ ok r)
      × (r.balance_sheet.difference ≡ pos 0)
      × (r.balance_sheet.is_balanced ≡ true)
unfolding statements statements_of
statements-IsBalanced date_of account_rows entity_rows entity_id from to {from_date} {to_date} s
      sound keyed known typed f t o df dt =
    let fit = balances-AreFit account_rows entity_id none to_date s sound keyed known typed in
    let sheet =
      balance_sheet-lem (balances account_rows entity_id none to_date s) fit.cents fit.classified in
    let even = no_difference _ _ fit.equal in
    (
      statements_of account_rows (entity_rows entity_id) entity_id from to from_date to_date s,
      rw (f, t, o, df, dt) refl,
      sheet.0 ∙ even.0,
      sheet.1 ∙ even.1,
    )

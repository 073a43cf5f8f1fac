-- ===== src/Accounting/Reports/TrialBalance/Balanced.antt =====
-- The trial balance of a sound book.
use ume_pms_v2_backend.Prelude.{
  total, ℕ, ◌≡◌, refl, true, Option, some, List, [], ◌∷◌, map, Text, ℤ, pos, ◌+ℤ◌, ◌-ℤ◌, eqb_ℤ,
  round2, round2_fix, round2-add, IsCents, +ℤ-IsCents, All, All-impl, ok, id_eq, +ℤ_assoc, +ℤ-zero,
  zero-+ℤ, sym, ◌∙◌, arith,
}
use ume_pms_v2_backend.Accounting.Ledger.Types.{Store}
use ume_pms_v2_backend.Accounting.Ledger.History.Sound.{IsSound}
use ume_pms_v2_backend.Accounting.Reports.Query.{
  cast_bound, AccountRow, LedgerRow, Group, start, add_row, is_selected, ledger_rows, grouped,
}
use ume_pms_v2_backend.Accounting.Reports.Query.Sums.{row_total, total-grouped, grouped-All}
use ume_pms_v2_backend.Accounting.Reports.Query.Rows.{
  IsKeyed, HasAccounts, IsSound-All, HasCentAmounts, debit_part, credit_part, is_selected-is_booked,
  ledger_rows-balance, ledger_rows-HasCentAmounts,
}
use ume_pms_v2_backend.Accounting.Reports.TrialBalance.{
  trial_balance_of, TrialRow, TrialBalance, trial_row, reduce_rows, trial_balance,
}

pub record HasCentSums (g : Group) : Type 0 where
  pub debit : IsCents g.debit_eur
  pub credit : IsCents g.credit_eur

pub start-HasCentSums : (r : LedgerRow) → HasCentAmounts r → HasCentSums (start r)
start-HasCentSums r h = record { debit = (refl, refl); credit = (refl, refl) }

pub add_row-HasCentSums :
    (g : Group) (r : LedgerRow) → HasCentSums g → HasCentAmounts r → HasCentSums (add_row g r)
add_row-HasCentSums g r h k = record {
  debit = +ℤ-IsCents g.debit_eur r.debit_eur h.debit k.debit;
  credit = +ℤ-IsCents g.credit_eur r.credit_eur h.credit k.credit;
}

abbrev pub debit_sum : Group → ℤ
debit_sum g = g.debit_eur

abbrev pub credit_sum : Group → ℤ
credit_sum g = g.credit_eur

-- Adding up the rounded rows is exact on whole cents.
module _ (amount : Group → ℤ) (side : TrialRow → ℤ)
    (shown : (p : ℕ × Group) → side (trial_row p) ≡ round2 (amount p.1)) where
  reduce_rows-from :
      (gs : List (ℕ × Group)) (s : ℤ)
      → IsCents s
      → All (λ (p : ℕ × Group). IsCents (amount p.1)) gs
      → (reduce_rows side s (map trial_row gs) ≡ s +ℤ total amount gs)
        × IsCents (reduce_rows side s (map trial_row gs))
  unfolding reduce_rows
  reduce_rows-from [] s c h = (sym (+ℤ-zero s), c)
  reduce_rows-from ((k, g) ∷ gs) s c h =
      let next = +ℤ-IsCents s (amount g) c h.0 in
      let rest = reduce_rows-from gs (s +ℤ amount g) next h.1 in
      let one : round2 (s +ℤ side (trial_row (k, g))) ≡ s +ℤ amount g =
        rw (shown (k, g), round2_fix (amount g) h.0) (round2-add s (amount g) c h.0) in
      rw (reduce_rows, one) (rest.0 ∙ +ℤ_assoc s (amount g) (total amount gs), rest.1)

  reduce_rows-total :
      (gs : List (ℕ × Group))
      → All (λ (p : ℕ × Group). IsCents (amount p.1)) gs
      → round2 (reduce_rows side (pos 0) (map trial_row gs)) ≡ total amount gs
  reduce_rows-total gs h =
      let sum = reduce_rows-from gs (pos 0) (refl, refl) h in
      round2_fix _ sum.1 ∙ (sum.0 ∙ zero-+ℤ (total amount gs))

flag : (td tc : ℤ) → tc ≡ td → eqb_ℤ (round2 (td -ℤ tc)) (pos 0) ≡ true
unfolding round2 ◌-ℤ◌
flag td tc h = rw h (ground arith)

-- Made from a sound book, whose entries have distinct identifiers and whose lines have their
-- accounts, the trial balance of an entity in any window of dates, those that the database reads as
-- dates, is balanced: its totals are the exact sums of the debits and of the credits of the lines in
-- the window, and they are equal.
pub trial_balance-IsBalanced :
    (date_of : Text → Option Text) (account_rows : ℕ → Option AccountRow) (entity_id : ℕ)
    (from to : Option Text) {from_date to_date : Option Text} (s : Store)
    → cast_bound date_of from ≡ some from_date
    → cast_bound date_of to ≡ some to_date
    → IsSound s
    → IsKeyed s.entries
    → HasAccounts account_rows s.lines
    → (b : TrialBalance) × (trial_balance date_of account_rows (some entity_id) from to s ≡ ok b)
      × (b.is_balanced ≡ true)
      × (b.total_debit_eur
          ≡ row_total debit_part (
              ledger_rows account_rows s.lines (is_selected entity_id from_date to_date) s.entries))
      × (b.total_credit_eur ≡ b.total_debit_eur)
unfolding trial_balance trial_balance_of trial_row
trial_balance-IsBalanced date_of account_rows entity_id from to {from_date} {to_date} s cast_from
      cast_to sound keyed known =
    let rows : List LedgerRow =
      ledger_rows account_rows s.lines (is_selected entity_id from_date to_date) s.entries in
    let all = IsSound-All s sound keyed in
    let booked = is_selected-is_booked entity_id from_date to_date in
    let key = λ (r : LedgerRow). r.account_id in
    let cents =
      grouped-All key HasCentSums HasCentAmounts start-HasCentSums add_row-HasCentSums rows (
        ledger_rows-HasCentAmounts account_rows s.lines (is_selected entity_id from_date to_date)
          booked s.entries all) in
    let gs : List (ℕ × Group) = grouped key rows in
    let td =
      reduce_rows-total debit_sum (λ r. r.debit_eur) (λ p. refl) gs
        (All-impl _ _ gs (λ p c. c.debit) cents)
      ∙ total-grouped key debit_sum debit_part (λ r. refl) (λ g r. refl) rows in
    let tc =
      reduce_rows-total credit_sum (λ r. r.credit_eur) (λ p. refl) gs
        (All-impl _ _ gs (λ p c. c.credit) cents)
      ∙ total-grouped key credit_sum credit_part (λ r. refl) (λ g r. refl) rows in
    let equal =
      ledger_rows-balance account_rows s.lines (is_selected entity_id from_date to_date) booked
        s.entries known all in
    (
      trial_balance_of account_rows entity_id from_date to_date s,
      rw (cast_from, cast_to) refl,
      flag _ _ (tc ∙ (sym equal ∙ sym td)),
      td,
      tc ∙ (sym equal ∙ sym td),
    )

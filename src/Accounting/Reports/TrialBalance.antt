-- ===== src/Accounting/Reports/TrialBalance.antt =====
-- The trial balance (`trialBalance` of src/modules/accounting/accounting.service.ts).
pub mod Balanced
use ume_pms_v2_backend.Prelude.{
  ℕ, Bool, Option, none, some, List, [], ◌∷◌, map, Text, ℤ, pos, ◌+ℤ◌, ◌-ℤ◌, eqb_ℤ, round2, Result,
  ok, ◌>>=◌, or_throw, id_eq,
}
use ume_pms_v2_backend.Accounting.Ledger.Types.{Store}
use ume_pms_v2_backend.Accounting.Reports.Query.{
  cast_bound, AccountRow, LedgerRow, Group, is_selected, ledger_rows, grouped,
}

pub record TrialRow : Type 0 where
  pub id : ℕ
  pub account : AccountRow
  pub debit_eur : ℤ
  pub credit_eur : ℤ
  pub balance_eur : ℤ

pub record TrialBalance : Type 0 where
  pub accounts : List TrialRow
  pub total_debit_eur : ℤ
  pub total_credit_eur : ℤ
  pub is_balanced : Bool

pub data TrialError : Type 0 where
  entity_required not_a_date : TrialError

unfoldable pub trial_row : ℕ × Group → TrialRow
trial_row (id, g) = record {
  id = id;
  account = g.account;
  debit_eur = round2 g.debit_eur;
  credit_eur = round2 g.credit_eur;
  balance_eur = round2 (g.debit_eur -ℤ g.credit_eur);
}

-- `accounts.reduce((s, r) => round2(s + …), 0)`
unfoldable pub reduce_rows : (TrialRow → ℤ) → ℤ → List TrialRow → ℤ
reduce_rows side s [] = s
reduce_rows side s (r ∷ rs) = reduce_rows side (round2 (s +ℤ side r)) rs

-- What is answered once the bounds are cast.
unfoldable pub trial_balance_of :
    (ℕ → Option AccountRow) → ℕ → Option Text → Option Text → Store → TrialBalance
trial_balance_of account_rows entity_id from_date to_date s =
    let rows =
      ledger_rows account_rows s.lines (is_selected entity_id from_date to_date) s.entries in
    let accounts = map trial_row (grouped (λ (r : LedgerRow). r.account_id) rows) in
    let td = round2 (reduce_rows (λ r. r.debit_eur) (pos 0) accounts) in
    let tc = round2 (reduce_rows (λ r. r.credit_eur) (pos 0) accounts) in
    record {
      accounts = accounts;
      total_debit_eur = td;
      total_credit_eur = tc;
      is_balanced = eqb_ℤ (round2 (td -ℤ tc)) (pos 0);
    }

unfoldable pub trial_balance :
    (Text → Option Text)
    → (ℕ → Option AccountRow)
    → Option ℕ
    → Option Text
    → Option Text
    → Store
    → Result TrialError TrialBalance
trial_balance date_of account_rows legal_entity_id from to s = do
  entity_id ← or_throw legal_entity_id entity_required
  from_date ← or_throw (cast_bound date_of from) not_a_date
  to_date ← or_throw (cast_bound date_of to) not_a_date
  ok (trial_balance_of account_rows entity_id from_date to_date s)

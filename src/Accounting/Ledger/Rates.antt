-- ===== src/Accounting/Ledger/Rates.antt =====
-- `approveFxRate` and `updateFxRate` (src/modules/accounting/accounting.service.ts); the labels that
-- they add to their answers are not modelled, nor the free text of a rate's source.
use ume_pms_v2_backend.Prelude.{
  ℕ, Bool, false, not, ◌&&◌, Option, none, some, Result, ok, ◌>>=◌, ◌>>◌, throw_if, or_throw,
  is_some, if◌then◌else◌, ◌==◌, any_by,
}
use ume_pms_v2_backend.Accounting.Posting.Types.{Raw, value, FxRateRef, PreparedLine}
use ume_pms_v2_backend.Accounting.Posting.Lines.{num, is_positive}
use ume_pms_v2_backend.Accounting.Ledger.Types.{
  JournalEntry, Store, LedgerError, is_booked, fx_rate_not_found, fx_rate_in_use,
  fx_rate_not_positive, approver_unknown,
}

abbrev pub put_rate : ℕ → FxRateRef → Store → Store
put_rate id fx s = record s { fx_rates = λ j. if id == j then some fx else s.fx_rates j }

unfoldable pub approve_fx_rate : ℕ → Option ℕ → ℕ → Store → Result LedgerError Store
approve_fx_rate id user now s = do
  fx ← or_throw (s.fx_rates id) fx_rate_not_found
  if is_some fx.approved_by then ok s else do
    u ← or_throw user approver_unknown
    ok (put_rate id (record fx { approved_by = some u; approved_at = some now }) s)

-- A line of a booked entry that carries the rate.
abbrev names_rate : ℕ → PreparedLine → Bool
names_rate id l = elim l.fx_rate_id [ none ↦ false | some r ↦ r == id ]

unfoldable pub rate_in_use : ℕ → Store → Bool
rate_in_use id s =
    any_by (λ (e : ℕ × JournalEntry). is_booked e.1.status && any_by (names_rate id) (s.lines e.0))
      s.entries

-- `!(rate > 0)` holds of NaN too.
unfoldable pub update_fx_rate : ℕ → Raw → Store → Result LedgerError Store
update_fx_rate id rate s = do
  fx ← or_throw (s.fx_rates id) fx_rate_not_found
  throw_if (rate_in_use id s) fx_rate_in_use
  r ← or_throw (num rate) fx_rate_not_positive
  throw_if (not (is_positive r)) fx_rate_not_positive
  ok (put_rate id (record fx { rate = value r; approved_by = none; approved_at = none }) s)

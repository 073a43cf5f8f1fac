-- ===== src/Accounting/Posting/Lines.antt =====
-- `num`, `assertIsoDate`, `prepareLines` and `assertBalanced` of
-- src/modules/accounting/accounting-posting.ts.
pub mod Amounts
pub mod Checks
pub mod Totals
pub mod Legal
use ume_pms_v2_backend.Prelude.{
  ℕ, ◌+◌, Bool, true, false, not, ◌&&◌, ◌||◌, Option, none, some, List, [], ◌∷◌, Text, text_eq,
  text_lt, to_upper, is_iso_date, is_currency_code, ℤ, pos, ◌-ℤ◌, ◌+ℤ◌, ltb_ℤ, eqb_ℤ, round2,
  round2_mul, one_unit, Result, ok, err, ◌>>=◌, ◌>>◌, throw_if, or_throw, if◌then◌else◌, ltb,
  length, ◌==◌, is_some,
}
use ume_pms_v2_backend.Accounting.Posting.Types.{
  eur, functional, Raw, absent, value, bad, LineInput, AccountRef, FxRateRef, PrepareContext,
  PreparedLine, PreparedEntry, LineError, not_numeric, negative_amount, not_one_side, below_cent,
  invalid_currency, account_not_found, account_of_other_entity, account_inactive,
  account_not_postable, account_currency_restricted, fx_on_functional, fx_missing, fx_not_found,
  fx_of_other_entity, fx_pair_mismatch, fx_functional_source, fx_not_approved, fx_after_entry,
  fx_invalid_rate, vanishes_in_eur, PostingError, too_few_lines, invalid_date,
  unsupported_functional_currency, unbalanced, in_line,
}

-- `none` is NaN.
abbrev pub num : Raw → Option ℤ
num absent = some (pos 0)
num (value n) = some n
num bad = none

abbrev pub is_positive : ℤ → Bool
is_positive n = ltb_ℤ (pos 0) n

abbrev pub is_negative : ℤ → Bool
is_negative n = ltb_ℤ n (pos 0)

-- `a === b` on Booleans
abbrev pub same : Bool → Bool → Bool
same true b = b
same false b = not b

unfoldable pub assert_iso_date : Text → Result PostingError (Unit {0})
assert_iso_date date = throw_if (not (is_iso_date date)) invalid_date

-- The four checks on the amounts of a line; `debit` and `credit` are the rounded amounts.
unfoldable pub check_sides : ℤ → ℤ → Result LineError (ℤ × ℤ)
check_sides raw_debit raw_credit = do
  let debit = round2 raw_debit
  let credit = round2 raw_credit
  throw_if (is_negative debit || is_negative credit) negative_amount
  throw_if (same (is_positive debit) (is_positive credit)) not_one_side
  throw_if (not (eqb_ℤ debit raw_debit) || not (eqb_ℤ credit raw_credit)) below_cent
  ok (debit, credit)

unfoldable pub check_amounts : LineInput → Result LineError (ℤ × ℤ)
check_amounts raw = do
  d ← or_throw (num raw.debit) not_numeric
  c ← or_throw (num raw.credit) not_numeric
  check_sides d c

-- `account.currency_restriction && account.currency_restriction !== ccy`
unfoldable pub restricted : Option Text → Text → Bool
restricted none ccy = false
restricted (some r) ccy = not (text_eq r ccy)

unfoldable pub check_account : PrepareContext → ℕ → Text → Result LineError AccountRef
check_account ctx account_id ccy = do
  account ← or_throw (ctx.accounts account_id) account_not_found
  throw_if (not (account.legal_entity_id == ctx.legal_entity_id)) account_of_other_entity
  throw_if (not account.is_active) account_inactive
  throw_if (not account.is_postable) account_not_postable
  throw_if (restricted account.currency_restriction ccy) account_currency_restricted
  ok account

-- The rate that a line carries, with its date, its source and its row.
pub record LineFx : Type 0 where
  pub rate : ℤ
  pub date : Text
  pub source : Text
  pub rate_id : Option ℕ

-- A foreign line takes its rate from the approved row.
unfoldable pub foreign_fx : PrepareContext → Text → FxRateRef → Result LineError LineFx
foreign_fx ctx ccy fx = do
  throw_if (not (fx.legal_entity_id == ctx.legal_entity_id)) fx_of_other_entity
  throw_if (not (text_eq fx.currency_from ccy) || not (text_eq fx.currency_to eur)) fx_pair_mismatch
  throw_if (text_eq fx.source functional) fx_functional_source
  throw_if (not (is_some fx.approved_by) || not (is_some fx.approved_at)) fx_not_approved
  throw_if (text_lt ctx.accounting_date fx.rate_date) fx_after_entry
  rate ← or_throw (num fx.rate) fx_invalid_rate
  throw_if (not (is_positive rate)) fx_invalid_rate
  ok (record { rate = rate; date = fx.rate_date; source = fx.source; rate_id = some fx.id })

unfoldable pub resolve_foreign : PrepareContext → Text → Option ℕ → Result LineError LineFx
resolve_foreign ctx ccy fx_rate_id = do
  id ← or_throw fx_rate_id fx_missing
  fx ← or_throw (ctx.fx_rates id) fx_not_found
  foreign_fx ctx ccy fx

unfoldable pub resolve_fx : PrepareContext → Text → Option ℕ → Result LineError LineFx
resolve_fx ctx ccy fx_rate_id =
    if text_eq ccy eur
    then (throw_if (is_some fx_rate_id) fx_on_functional
        >> ok (record {
          rate = one_unit;
          date = ctx.accounting_date;
          source = functional;
          rate_id = none;
        }))
    else resolve_foreign ctx ccy fx_rate_id

-- Rounding must not wipe out an amount.
unfoldable pub check_eur : ℤ → ℤ → Result LineError (Unit {0})
check_eur amount amount_eur =
    throw_if (is_positive amount && eqb_ℤ amount_eur (pos 0)) vanishes_in_eur

-- The object that the loop pushes.
unfoldable pub line_of : ℕ → LineInput → ℤ → ℤ → Text → AccountRef → LineFx → PreparedLine
line_of i raw debit credit ccy account fx = record {
  line_no = i + 1;
  account_id = account.id;
  debit = debit;
  credit = credit;
  transaction_currency = ccy;
  fx_rate = fx.rate;
  fx_date = fx.date;
  fx_source = fx.source;
  fx_rate_id = fx.rate_id;
  debit_eur = round2_mul debit fx.rate;
  credit_eur = round2_mul credit fx.rate;
  vessel_id = raw.vessel_id;
  supplier_id = raw.supplier_id;
  customer_id = raw.customer_id;
  cost_center_id = raw.cost_center_id;
  description = raw.description;
}

-- The body of the loop of `prepareLines`, at the line with index `i`.
unfoldable pub prepare_line : PrepareContext → ℕ → LineInput → Result LineError PreparedLine
prepare_line ctx i raw = do
  amounts ← check_amounts raw
  let ccy = to_upper raw.transaction_currency
  throw_if (not (is_currency_code ccy)) invalid_currency
  account ← check_account ctx raw.account_id ccy
  fx ← resolve_fx ctx ccy raw.fx_rate_id
  check_eur amounts.0 (round2_mul amounts.0 fx.rate)
  check_eur amounts.1 (round2_mul amounts.1 fx.rate)
  ok (line_of i raw amounts.0 amounts.1 ccy account fx)

-- The loop, from the line with index `i` and the totals so far.
unfoldable pub prepare_from :
    PrepareContext → ℕ → ℤ → ℤ → List LineInput → Result PostingError PreparedEntry
prepare_from ctx i td tc [] =
    ok (record { lines = []; total_debit_eur = td; total_credit_eur = tc })
prepare_from ctx i td tc (raw ∷ inputs) = do
  l ← in_line (i + 1) (prepare_line ctx i raw)
  p ← prepare_from ctx (i + 1) (round2 (td +ℤ l.debit_eur)) (round2 (tc +ℤ l.credit_eur)) inputs
  ok (record p { lines = l ∷ p.lines })

unfoldable pub prepare_lines : List LineInput → PrepareContext → Result PostingError PreparedEntry
prepare_lines inputs ctx = do
  throw_if (ltb (length inputs) 2) too_few_lines
  assert_iso_date ctx.accounting_date
  throw_if (not (text_eq ctx.functional_currency eur)) unsupported_functional_currency
  prepare_from ctx 0 (pos 0) (pos 0) inputs

unfoldable pub assert_balanced : PreparedEntry → Result PostingError (Unit {0})
assert_balanced prepared =
    let diff = round2 (prepared.total_debit_eur -ℤ prepared.total_credit_eur) in
    throw_if (not (eqb_ℤ diff (pos 0))) unbalanced

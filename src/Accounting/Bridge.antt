-- ===== src/Accounting/Bridge.antt =====
-- The lines that the bridge from documents to entries builds
-- (src/modules/accounting/bridge/accounting-bridge.logic.ts).
pub mod Balance
use ume_pms_v2_backend.Prelude.{
  ℕ, Bool, true, false, not, ◌&&◌, ◌||◌, Option, none, some, List, [], ◌∷◌, ◌++◌, Text, text_eq,
  to_upper, ℤ, pos, ◌+ℤ◌, ◌-ℤ◌, ltb_ℤ, round2, round2_mul, Result, ok, err, ◌>>=◌, ◌>>◌, throw_if,
  if◌then◌else◌, is_some,
}
use ume_pms_v2_backend.Accounting.Posting.Types.{Raw, absent, value, bad, eur, LineInput}
use ume_pms_v2_backend.Accounting.Posting.Lines.{is_positive, is_negative}

pub record BridgeDims : Type 0 where
  pub vessel_id : Option ℕ
  pub supplier_id : Option ℕ
  pub customer_id : Option ℕ

pub data BridgeError : Type 0 where
  amount_not_positive foreign_without_rate rate_on_eur two_rates_needed invalid_rate over_settled :
      BridgeError

-- `round2(amount)` and the test `!(amount > 0)`, which no number fails too.
unfoldable pub positive_amount : Raw → Result BridgeError ℤ
positive_amount absent = err amount_not_positive
positive_amount bad = err amount_not_positive
positive_amount (value n) =
    if is_positive (round2 n) then ok (round2 n) else err amount_not_positive

-- A line of one side, without a cost center.
abbrev pub bridge_line : ℕ → Raw → Raw → Text → Option ℕ → BridgeDims → Option Text → LineInput
bridge_line account_id debit credit ccy fx_rate_id dims description = record {
  account_id = account_id;
  debit = debit;
  credit = credit;
  transaction_currency = ccy;
  fx_rate_id = fx_rate_id;
  vessel_id = dims.vessel_id;
  supplier_id = dims.supplier_id;
  customer_id = dims.customer_id;
  cost_center_id = none;
  description = description;
}

pub record TwoSided : Type 0 where
  pub debit_account_id : ℕ
  pub credit_account_id : ℕ
  pub amount : Raw
  pub currency : Text
  pub fx_rate_id : Option ℕ
  pub dims : BridgeDims
  pub debit_description : Option Text
  pub credit_description : Option Text

unfoldable pub build_two_sided_lines : TwoSided → Result BridgeError (List LineInput)
build_two_sided_lines args = do
  amount ← positive_amount args.amount
  let ccy = to_upper args.currency
  throw_if (not (text_eq ccy eur) && not (is_some args.fx_rate_id)) foreign_without_rate
  throw_if (text_eq ccy eur && is_some args.fx_rate_id) rate_on_eur
  ok (
      bridge_line args.debit_account_id (value amount) absent ccy args.fx_rate_id args.dims
        args.debit_description
      ∷ bridge_line args.credit_account_id absent (value amount) ccy args.fx_rate_id args.dims
          args.credit_description
      ∷ [])

-- A rate with the row that it was approved in.
pub record RateRef : Type 0 where
  pub fx_rate_id : Option ℕ
  pub rate : ℤ

pub record SettlementInput : Type 0 where
  pub amount : Raw
  pub currency : Text
  pub carrying : RateRef
  pub settlement : RateRef
  pub payable_id : ℕ
  pub bank_id : ℕ
  pub fx_gain_id : ℕ
  pub fx_loss_id : ℕ
  pub dims : BridgeDims

pub record SettlementResult : Type 0 where
  pub lines : List LineInput
  pub carrying_eur : ℤ
  pub settlement_eur : ℤ
  pub fx_difference_eur : ℤ

-- The description of a line, "the payable closed" in Arabic, by code points.
abbrev close_payable : Text
close_payable = 1573 ∷ 1602 ∷ 1601 ∷ 1575 ∷ 1604 ∷ 32 ∷ 1575 ∷ 1604 ∷ 1583 ∷ 1575 ∷ 1574 ∷ 1606 ∷ []

-- The description of a line, "the bank" in Arabic, by code points.
abbrev bank : Text
bank = 1575 ∷ 1604 ∷ 1576 ∷ 1606 ∷ 1603 ∷ []

-- The description of a line, "the payable closed at its carrying rate" in Arabic, by code points.
abbrev payable_at_carrying : Text
payable_at_carrying =
    1573 ∷ 1602 ∷ 1601 ∷ 1575 ∷ 1604 ∷ 32 ∷ 1575 ∷ 1604 ∷ 1583 ∷ 1575 ∷ 1574 ∷ 1606 ∷ 32 ∷ 1576
    ∷ 1587 ∷ 1593 ∷ 1585 ∷ 1607 ∷ 32 ∷ 1575 ∷ 1604 ∷ 1583 ∷ 1601 ∷ 1578 ∷ 1585 ∷ 1610 ∷ []

-- The description of a line, "the bank at the rate of the day" in Arabic, by code points.
abbrev bank_at_settlement : Text
bank_at_settlement =
    1575 ∷ 1604 ∷ 1576 ∷ 1606 ∷ 1603 ∷ 32 ∷ 1576 ∷ 1587 ∷ 1593 ∷ 1585 ∷ 32 ∷ 1610 ∷ 1608 ∷ 1605 ∷ 32
    ∷ 1575 ∷ 1604 ∷ 1587 ∷ 1583 ∷ 1575 ∷ 1583 ∷ []

-- The description of a line, "a realised gain" in Arabic, by code points.
abbrev gain : Text
gain =
    1605 ∷ 1603 ∷ 1587 ∷ 1576 ∷ 32 ∷ 1589 ∷ 1585 ∷ 1601 ∷ 32 ∷ 1605 ∷ 1581 ∷ 1602 ∷ 1614 ∷ 1617
    ∷ 1602 ∷ []

-- The description of a line, "a realised loss" in Arabic, by code points.
abbrev loss : Text
loss =
    1582 ∷ 1587 ∷ 1575 ∷ 1585 ∷ 1577 ∷ 32 ∷ 1589 ∷ 1585 ∷ 1601 ∷ 32 ∷ 1605 ∷ 1581 ∷ 1602 ∷ 1614
    ∷ 1617 ∷ 1602 ∷ 1577 ∷ []

-- The line of the difference in euro: a gain, a loss, or none.
unfoldable pub difference_lines : SettlementInput → ℤ → List LineInput
difference_lines input diff =
    if is_positive diff
    then bridge_line input.fx_gain_id absent (value diff) eur none input.dims (some gain) ∷ []
    else (if is_negative diff
        then bridge_line input.fx_loss_id (value (round2 (pos 0 -ℤ diff))) absent eur none
            input.dims (some loss)
          ∷ []
        else [])

-- The two lines of a settlement in euro.
abbrev pub eur_sides : SettlementInput → ℤ → TwoSided
eur_sides input amount = record {
  debit_account_id = input.payable_id;
  credit_account_id = input.bank_id;
  amount = value amount;
  currency = eur;
  fx_rate_id = none;
  dims = input.dims;
  debit_description = some close_payable;
  credit_description = some bank;
}

-- The settlement of an amount in euro.
unfoldable pub settle_in_eur : SettlementInput → ℤ → Result BridgeError SettlementResult
settle_in_eur input amount = do
  throw_if (is_some input.carrying.fx_rate_id || is_some input.settlement.fx_rate_id) rate_on_eur
  lines ← build_two_sided_lines (eur_sides input amount)
  ok (record {
    lines = lines;
    carrying_eur = amount;
    settlement_eur = amount;
    fx_difference_eur = pos 0;
  })

-- The settlement of an amount in another currency: the payable is closed at its carrying rate, the
-- bank is credited at the rate of the day.
unfoldable pub settle_foreign : SettlementInput → Text → ℤ → Result BridgeError SettlementResult
settle_foreign input ccy amount = do
  throw_if (not (is_some input.carrying.fx_rate_id) || not (is_some input.settlement.fx_rate_id))
      two_rates_needed
  throw_if (not (is_positive input.carrying.rate) || not (is_positive input.settlement.rate))
      invalid_rate
  let carrying_eur = round2_mul amount input.carrying.rate
  let settlement_eur = round2_mul amount input.settlement.rate
  let diff = round2 (carrying_eur -ℤ settlement_eur)
  ok (record {
    lines =
        bridge_line input.payable_id (value amount) absent ccy input.carrying.fx_rate_id input.dims
          (some payable_at_carrying)
        ∷ bridge_line input.bank_id absent (value amount) ccy input.settlement.fx_rate_id input.dims
            (some bank_at_settlement)
        ∷ difference_lines input diff;
    carrying_eur = carrying_eur;
    settlement_eur = settlement_eur;
    fx_difference_eur = diff;
  })

unfoldable pub build_settlement_lines : SettlementInput → Result BridgeError SettlementResult
build_settlement_lines input = do
  amount ← positive_amount input.amount
  let ccy = to_upper input.currency
  if text_eq ccy eur then settle_in_eur input amount else settle_foreign input ccy amount

-- What is left to settle on an invoice is not exceeded; 500_000 units are 0.005.
unfoldable pub assert_settleable : ℤ → ℤ → ℤ → Result BridgeError (Unit {0})
assert_settleable invoice_total already_settled now =
    throw_if (ltb_ℤ (round2 (invoice_total -ℤ already_settled) +ℤ pos 500_000) (round2 now))
      over_settled

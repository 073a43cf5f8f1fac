-- ===== src/Payments/CreditBatch.antt =====
-- `assertCreditBatch` (src/common/payment-derivation.ts): cash and credit notes in one transfer to a
-- supplier. An amount of `null`, which `Number` reads as 0, is the value 0.
pub mod Sums
pub mod Checks
pub mod Limits
use ume_pms_v2_backend.Prelude.{
  ℕ, suc, Bool, true, false, not, ◌||◌, Option, none, some, List, [], ◌∷◌, ◌++◌, map, Text, text_eq,
  is_iso_date, ℤ, pos, ◌+ℤ◌, ◌-ℤ◌, leb_ℤ, ltb_ℤ, abs, round2, Result, ok, err, ◌>>=◌, ◌>>◌,
  throw_if, or_throw, or_else, if◌then◌else◌, ◌==◌, keep, any_by, is_some, length, lookup, insert,
  id_eq, text_eq_inst,
}
use ume_pms_v2_backend.Accounting.Posting.Types.{Raw, absent, value, bad}
use ume_pms_v2_backend.Payments.Derivation.{
  money_tol, norm_ccy, Payment, Allocation, Invoice, InvoiceStatus, cancelled, is_legacy_settled,
  actual_paid,
}
use ume_pms_v2_backend.Payments.Service.{Tables, payments_of, touches, recompute}

pub record BatchLine : Type 0 where
  pub invoice_id : ℕ
  pub amount : Raw

pub record BatchCredit : Type 0 where
  pub credit_note_id : ℕ
  pub invoice_id : ℕ
  pub amount : Raw

pub data BatchError : Type 0 where
  supplier_missing bad_payment_date no_lines not_in_batch other_supplier invoice_cancelled
        closed_settlement invoice_repeated is_a_note bad_cash not_a_note note_outside note_currency
        bad_credit note_exceeded nothing_paid invoice_exceeded :
      BatchError

abbrev is_cancelled : InvoiceStatus → Bool
is_cancelled cancelled = true
is_cancelled _ = false

-- `get`
abbrev pub get : List (ℕ × Invoice) → ℕ → Result BatchError Invoice
get invoices id = or_throw (lookup id invoices) not_in_batch

-- `open`
unfoldable pub assert_open : ℕ → Invoice → Result BatchError (Unit {0})
assert_open supplier_id inv = do
  throw_if (not (inv.supplier_id == supplier_id)) other_supplier
  throw_if (is_cancelled inv.status) invoice_cancelled
  throw_if (is_legacy_settled inv.settlement_basis) closed_settlement

-- `Number(x.amount)` of an amount that the checks let through
abbrev pub number : Raw → ℤ
number (value a) = a
number _ = pos 0

-- `Number(l.amount)`, where it is finite and not negative
unfoldable pub cash_amount : Raw → Result BatchError ℤ
cash_amount absent = err bad_cash
cash_amount bad = err bad_cash
cash_amount (value a) = if ltb_ℤ a (pos 0) then err bad_cash else ok a

unfoldable pub credit_amount : Raw → Result BatchError ℤ
credit_amount absent = err bad_credit
credit_amount bad = err bad_credit
credit_amount (value a) = if leb_ℤ a (pos 0) then err bad_credit else ok a

-- `seen` has the keys of `cash`.
unfoldable pub check_lines :
    ℕ → List (ℕ × Invoice) → List (ℕ × ℤ) → List BatchLine → Result BatchError (List (ℕ × ℤ))
check_lines supplier_id invoices cash [] = ok cash
check_lines supplier_id invoices cash (l ∷ lines) = do
  inv ← get invoices l.invoice_id
  assert_open supplier_id inv
  throw_if (is_some (lookup l.invoice_id cash)) invoice_repeated
  throw_if (leb_ℤ (round2 inv.total_amount) (pos 0)) is_a_note
  a ← cash_amount l.amount
  check_lines supplier_id invoices (insert l.invoice_id (round2 a) cash) lines

-- `m.set(id, round2((m.get(id) || 0) + a))`
abbrev pub add_to : ℕ → ℤ → List (ℕ × ℤ) → List (ℕ × ℤ)
add_to id a m = insert id (round2 (or_else (lookup id m) (pos 0) +ℤ a)) m

-- What is used of each note, and applied to each invoice.
pub record Uses : Type 0 where
  pub used : List (ℕ × ℤ)
  pub applied : List (ℕ × ℤ)

unfoldable pub check_credits :
    ℕ → List (ℕ × Invoice) → List (ℕ × ℤ) → List BatchCredit → Uses → Result BatchError Uses
check_credits supplier_id invoices cash [] u = ok u
check_credits supplier_id invoices cash (c ∷ credits) u = do
  cn ← get invoices c.credit_note_id
  inv ← get invoices c.invoice_id
  assert_open supplier_id cn
  throw_if (leb_ℤ (pos 0) (round2 cn.total_amount)) not_a_note
  throw_if (not (is_some (lookup c.invoice_id cash))) note_outside
  throw_if (not (text_eq (norm_ccy cn.currency) (norm_ccy inv.currency))) note_currency
  a ← credit_amount c.amount
  check_credits supplier_id invoices cash credits (record {
    used = add_to c.credit_note_id a u.used;
    applied = add_to c.invoice_id a u.applied;
  })

-- What is left of a note: its amount less what was settled.
abbrev pub left_of : Invoice → ℤ → ℤ
left_of cn settled = round2 (abs (round2 cn.total_amount) -ℤ abs (round2 settled))

abbrev pub settled_of : List (ℕ × ℤ) → ℕ → ℤ
settled_of settled id = or_else (lookup id settled) (pos 0)

unfoldable pub check_notes :
    List (ℕ × Invoice) → List (ℕ × ℤ) → List (ℕ × ℤ) → Result BatchError (Unit {0})
check_notes invoices settled [] = ok tt
check_notes invoices settled ((id, u) ∷ used) = do
  cn ← get invoices id
  throw_if (ltb_ℤ (left_of cn (settled_of settled id) +ℤ money_tol) u) note_exceeded
  check_notes invoices settled used

-- The net cash of each currency.
unfoldable pub check_cash :
    List (ℕ × Invoice)
    → List (ℕ × ℤ)
    → List (ℕ × ℤ)
    → List (Text × ℤ)
    → List (ℕ × ℤ)
    → Result BatchError (List (Text × ℤ))
check_cash invoices settled applied net [] = ok net
check_cash invoices settled applied net ((id, c) ∷ cash) = do
  inv ← get invoices id
  let a = or_else (lookup id applied) (pos 0)
  throw_if (if leb_ℤ c money_tol then leb_ℤ a money_tol else false) nothing_paid
  let after = round2 (settled_of settled id +ℤ c +ℤ a)
  throw_if (ltb_ℤ (round2 inv.total_amount +ℤ money_tol) after) invoice_exceeded
  let k = norm_ccy inv.currency
  check_cash invoices settled applied (insert k (round2 (or_else (lookup k net) (pos 0) +ℤ c)) net)
      cash

unfoldable pub assert_credit_batch :
    ℕ
    → List (ℕ × Invoice)
    → List (ℕ × ℤ)
    → List BatchLine
    → List BatchCredit
    → Result BatchError (List (Text × ℤ))
assert_credit_batch supplier_id invoices settled lines credits = do
  throw_if (length lines == 0) no_lines
  cash ← check_lines supplier_id invoices [] lines
  u ← check_credits supplier_id invoices cash credits (record { used = []; applied = [] })
  check_notes invoices settled u.used
  check_cash invoices settled u.applied [] cash

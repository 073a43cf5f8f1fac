-- ===== src/Receipts.antt =====
-- Which purchases may be accrued (src/modules/receipts/receipt-eligibility.ts).
pub mod Decision
mod Tests
use ume_pms_v2_backend.Prelude.{
  Bool, true, false, not, Option, none, some, List, [], ◌∷◌, Text, codes, text_eq, text_lt, keep,
  or_else, if◌then◌else◌,
}

pub data ReceiptType : Type 0 where
  goods_received service_confirmed management_receipt_confirmation other_receipt : ReceiptType

pub data AccrualCategory : Type 0 where
  goods period_service : AccrualCategory

pub record ReceiptRecord : Type 0 where
  pub receipt_type : ReceiptType
  pub received_date : Text

-- An empty end of the period is none.
pub record EligibilityInput : Type 0 where
  pub category : AccrualCategory
  pub approval_status : Option Text
  pub receipts : List ReceiptRecord
  pub service_period_end : Option Text
  pub as_of : Option Text

pub data Basis : Type 0 where
  receipt_record service_period_elapsed no_basis : Basis

-- The sentence of a verdict, by what it names.
pub data Reason : Type 0 where
  receipt_on_file : ReceiptType → Text → Reason
  delivery_declared_missing period_end_missing : Reason
  period_not_over : Text → Text → Reason
  period_over : Text → Reason
  goods_without_receipt : Reason

pub record EligibilityVerdict : Type 0 where
  pub eligible : Bool
  pub basis : Basis
  pub reason : Reason

abbrev refused : Reason → EligibilityVerdict
refused reason = record { eligible = false; basis = no_basis; reason = reason }

-- `ACCEPTING.has`
abbrev pub accepting : ReceiptRecord → Bool
accepting r = is_accepting r.receipt_type
  where
    is_accepting : ReceiptType → Bool
    is_accepting other_receipt = false
    is_accepting _ = true

-- `approval_status === 'delivery_missing'`
abbrev pub is_delivery_missing : Option Text → Bool
is_delivery_missing none = false
is_delivery_missing (some s) = text_eq s (codes "delivery_missing")

-- A service with a period is its own evidence once the period is over.
unfoldable pub evaluate_period : Option Text → Text → EligibilityVerdict
evaluate_period none as_of = refused period_end_missing
evaluate_period (some end) as_of =
    if text_lt as_of end
    then refused (period_not_over end as_of)
    else record { eligible = true; basis = service_period_elapsed; reason = period_over end }

unfoldable pub evaluate_category : AccrualCategory → Option Text → Text → EligibilityVerdict
evaluate_category period_service end as_of = evaluate_period end as_of
evaluate_category goods end as_of = refused goods_without_receipt

-- The verdict from the receipts that count.
unfoldable pub evaluate_accepted : Text → EligibilityInput → List ReceiptRecord → EligibilityVerdict
evaluate_accepted today input (r ∷ rs) = record {
  eligible = true;
  basis = receipt_record;
  reason = receipt_on_file r.receipt_type r.received_date;
}
evaluate_accepted today input [] =
    if is_delivery_missing input.approval_status
    then refused delivery_declared_missing
    else evaluate_category input.category input.service_period_end (or_else input.as_of today)

-- `today` is the date of the clock.
unfoldable pub evaluate_accrual_eligibility : Text → EligibilityInput → EligibilityVerdict
evaluate_accrual_eligibility today input =
    evaluate_accepted today input (keep accepting input.receipts)

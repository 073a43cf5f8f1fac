-- ===== src/Receipts/Tests.antt =====
-- A purchase with and without evidence of its delivery, and the decision on it.
use ume_pms_v2_backend.Prelude.{
  ◌≡◌, ◌↔◌, ◌⊎◌, refl, true, false, none, some, [], ◌∷◌, codes, text_eq, text_lt, any_by,
}
use ume_pms_v2_backend.Receipts.{
  goods_received, period_service, EligibilityInput, accepting, evaluate_period, evaluate_category,
  evaluate_accepted, evaluate_accrual_eligibility,
}
use ume_pms_v2_backend.Receipts.Decision.{IsServiceOver, evaluate_accrual_eligibility_iff}

abbrev service : EligibilityInput
service = record {
  category = period_service;
  approval_status = none;
  receipts = [];
  service_period_end = some (codes "2026-06-30");
  as_of = none;
}

service_over : (evaluate_accrual_eligibility (codes "2026-06-30") service).eligible ≡ true
unfolding evaluate_period evaluate_category evaluate_accepted evaluate_accrual_eligibility text_eq
    text_lt
service_over = refl

service_running : (evaluate_accrual_eligibility (codes "2026-06-29") service).eligible ≡ false
unfolding evaluate_period evaluate_category evaluate_accepted evaluate_accrual_eligibility text_eq
    text_lt
service_running = refl

-- A declared lack of delivery is outweighed only by a receipt.
delivery_missing :
    (evaluate_accrual_eligibility
      (codes "2026-06-30")
      (record service { approval_status = some (codes "delivery_missing") })).eligible
    ≡ false
unfolding evaluate_period evaluate_category evaluate_accepted evaluate_accrual_eligibility text_eq
    text_lt
delivery_missing = refl

received :
    (evaluate_accrual_eligibility (codes "2026-06-30") (record service {
      approval_status = some (codes "delivery_missing");
      receipts = record { receipt_type = goods_received; received_date = codes "2026-06-02" } ∷ [];
    })).eligible
    ≡ true
unfolding evaluate_period evaluate_category evaluate_accepted evaluate_accrual_eligibility text_eq
    text_lt
received = refl

evaluate_accrual_eligibility_iff_example :
    ((evaluate_accrual_eligibility (codes "2026-06-30") service).eligible ≡ true)
    ↔ ((any_by accepting [] ≡ true) ⊎ IsServiceOver (codes "2026-06-30") service)
evaluate_accrual_eligibility_iff_example =
    evaluate_accrual_eligibility_iff (codes "2026-06-30") service

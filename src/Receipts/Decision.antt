-- ===== src/Receipts/Decision.antt =====
-- What `evaluateAccrualEligibility` decides.
use ume_pms_v2_backend.Prelude.{
  ◌≡◌, ◌↔◌, ◌⊎◌, inl, inr, refl, true, false, Option, none, some, List, [], ◌∷◌, Text, text_lt,
  keep, any_by, or_else, Bool-cases,
}
use ume_pms_v2_backend.Receipts.{
  AccrualCategory, goods, period_service, ReceiptRecord, EligibilityInput, accepting,
  is_delivery_missing, evaluate_period, evaluate_category, evaluate_accepted,
  evaluate_accrual_eligibility,
}

-- The recorded end of the period is not after the date of the evaluation.
pub record IsOver (end : Option Text) (as_of : Text) : Type 0 where
  pub last : Text
  pub recorded : end ≡ some last
  pub over : text_lt as_of last ≡ false

-- A service whose period is over and whose delivery is not declared missing.
pub record IsServiceOver (today : Text) (input : EligibilityInput) : Type 0 where
  pub not_missing : is_delivery_missing input.approval_status ≡ false
  pub service : input.category ≡ period_service
  pub over : IsOver input.service_period_end (or_else input.as_of today)

keep_cases :
    (rs : List ReceiptRecord)
    → ((keep accepting rs ≡ []) × (any_by accepting rs ≡ false))
      ⊎ ((r : ReceiptRecord) × (ps : List ReceiptRecord) × (keep accepting rs ≡ r ∷ ps)
          × (any_by accepting rs ≡ true))
keep_cases [] = inl (refl, refl)
keep_cases (r ∷ rs) = elim (Bool-cases (accepting r)) [
  | inl e ↦ inr (r, keep accepting rs, rw e refl, rw e refl)
  | inr e ↦ elim (keep_cases rs) [
    | inl (k, a) ↦ inl (rw e k, rw e a)
    | inr (p, ps, k, a) ↦ inr (p, ps, rw e k, rw e a)
  ]
]

evaluate_period_iff :
    (end : Option Text) (as_of : Text)
    → ((evaluate_period end as_of).eligible ≡ true) ↔ IsOver end as_of
unfolding evaluate_period
evaluate_period_iff none as_of = (λ h. cc, λ o. cc (o.recorded))
evaluate_period_iff (some e) as_of = elim (Bool-cases (text_lt as_of e)) [
  | inl l ↦ (λ h. cc (rw l at h), λ o. cc (l, o.recorded, o.over))
  | inr l ↦ (λ h. record { last = e; recorded = refl; over = l }, λ h. rw l refl)
]

evaluate_category_iff :
    (c : AccrualCategory) (end : Option Text) (as_of : Text)
    → ((evaluate_category c end as_of).eligible ≡ true) ↔ (c ≡ period_service) × IsOver end as_of
unfolding evaluate_category
evaluate_category_iff period_service end as_of =
    let r = evaluate_period_iff end as_of in (λ h. (refl, r.0 h), λ h. r.1 h.1)
evaluate_category_iff goods end as_of = (λ h. cc, λ h. cc h.0)

-- A purchase is eligible exactly when a receipt of an accepted type is on file, or when its delivery
-- is not declared missing, it is a service with a period, and the period's recorded end is not after
-- the date of the evaluation (today, when none is given).
pub evaluate_accrual_eligibility_iff :
    (today : Text) (input : EligibilityInput)
    → ((evaluate_accrual_eligibility today input).eligible ≡ true)
      ↔ ((any_by accepting input.receipts ≡ true) ⊎ IsServiceOver today input)
unfolding evaluate_accrual_eligibility evaluate_accepted
evaluate_accrual_eligibility_iff today input =
    let as_of : Text = or_else input.as_of today in
    let by_category = evaluate_category_iff input.category input.service_period_end as_of in
    elim (keep_cases input.receipts) [
      | inr (r, ps, k, a) ↦ (λ h. inl a, λ h. rw k refl)
      | inl (k, a) ↦ elim (Bool-cases (is_delivery_missing input.approval_status)) [
        | inl m ↦ (
          λ h. cc (rw (k, m, evaluate_accrual_eligibility, evaluate_accepted) at h),
          λ h. elim h [ inl t ↦ cc (t, a) | inr s ↦ cc (m, s.not_missing) ],
        )
        | inr m ↦ (
          λ h.
              let (service, over) =
                by_category.0 (rw (k, m, evaluate_accrual_eligibility, evaluate_accepted) at h) in
              inr (record { not_missing = m; service = service; over = over }),
          λ h. elim h [ inl t ↦ cc (t, a) | inr s ↦ rw (k, m) (by_category.1 (s.service, s.over)) ],
        )
      ]
    ]

-- ===== src/Accounting/Bridge/Balance.antt =====
-- The lines of a settlement carry as much debit as credit in euro.
use ume_pms_v2_backend.Prelude.{
  ℕ, ◌≡◌, refl, false, Option, none, some, List, [], ◌∷◌, ℤ, pos, negsuc, ◌+ℤ◌, ◌-ℤ◌, ◌*ℤ◌,
  floor_div, round2_mul, round2_ratio, IsCents, round2_mul-IsCents, round2_mul_zero, Text,
  Option-cases, not, ◌&&◌, ◌||◌, is_some, round2_fix, round2-sub, -ℤ-IsCents, one_unit, ok,
  >>=-eq-ok, >>-eq-ok, ok-injective, Bool-cases, inl, inr, arith, int_laws, sym, text_eq, to_upper,
  throw_if,
}
use ume_pms_v2_backend.Accounting.Posting.Types.{Raw, absent, value, bad, eur, LineInput}
use ume_pms_v2_backend.Accounting.Posting.Lines.{is_positive, is_negative}
use ume_pms_v2_backend.Accounting.Bridge.{
  positive_amount, build_two_sided_lines, SettlementInput, SettlementResult, difference_lines,
  settle_in_eur, settle_foreign, build_settlement_lines, TwoSided, eur_sides, two_rates_needed,
  invalid_rate, foreign_without_rate, rate_on_eur,
}

-- At the rate 1 whole cents stay what they are.
round2_mul_one : (x : ℤ) → IsCents x → round2_mul x one_unit ≡ x
unfolding round2_mul round2_ratio floor_div ◌+ℤ◌ ◌*ℤ◌
round2_mul_one (pos n) h = ground arith
round2_mul_one (negsuc n) h = ground arith

-- The rate of a line: 1 without a row.
abbrev pub rate_at : (ℕ → ℤ) → Option ℕ → ℤ
rate_at rates none = one_unit
rate_at rates (some id) = rates id

abbrev pub amount_of : Raw → ℤ
amount_of absent = pos 0
amount_of (value n) = n
amount_of bad = pos 0

-- What the lines come to in euro, each rounded to cents, with the rates of the rows they name.
abbrev pub debits_eur : (ℕ → ℤ) → List LineInput → ℤ
debits_eur rates [] = pos 0
debits_eur rates (l ∷ ls) =
    round2_mul (amount_of l.debit) (rate_at rates l.fx_rate_id) +ℤ debits_eur rates ls

abbrev pub credits_eur : (ℕ → ℤ) → List LineInput → ℤ
credits_eur rates [] = pos 0
credits_eur rates (l ∷ ls) =
    round2_mul (amount_of l.credit) (rate_at rates l.fx_rate_id) +ℤ credits_eur rates ls

negation-IsCents : (d : ℤ) → IsCents d → IsCents (pos 0 -ℤ d)
negation-IsCents d h = -ℤ-IsCents (pos 0) d (refl, refl) h

zero_of : (d : ℤ) → is_positive d ≡ false → is_negative d ≡ false → d ≡ pos 0
zero_of d p n = ground arith

-- The line of the difference adds just the difference to the credits.
difference_lines_eur :
    (rates : ℕ → ℤ) (input : SettlementInput) (d : ℤ)
    → IsCents d
    → credits_eur rates (difference_lines input d)
      ≡ debits_eur rates (difference_lines input d) +ℤ d
unfolding difference_lines
difference_lines_eur rates input d h = elim (Bool-cases (is_positive d)) [
  | inl p ↦ rw (p, difference_lines, round2_mul_one d h, round2_mul_zero one_unit) (omega int_laws)
  | inr p ↦ elim (Bool-cases (is_negative d)) [
    | inl n ↦
        rw
          (
            p,
            n,
            difference_lines,
            round2_fix (pos 0 -ℤ d) (negation-IsCents d h),
            round2_mul_one (pos 0 -ℤ d) (negation-IsCents d h),
            round2_mul_zero one_unit,
          )
          (omega int_laws)
    | inr n ↦ rw (p, n, difference_lines, zero_of d p n) (omega int_laws)
  ]
]

-- What is known of a settlement: it balances in euro, and the difference is that of the two values.
pub record IsSettled (rates : ℕ → ℤ) (r : SettlementResult) : Type 0 where
  pub balanced : debits_eur rates r.lines ≡ credits_eur rates r.lines
  pub difference : r.fx_difference_eur ≡ r.carrying_eur -ℤ r.settlement_eur

total_balance : (c s d : ℤ) → c +ℤ (pos 0 +ℤ d) ≡ pos 0 +ℤ (s +ℤ (d +ℤ (c -ℤ s)))
total_balance c s d = omega int_laws

settle_foreign-IsSettled :
    (rates : ℕ → ℤ) (input : SettlementInput) (ccy : Text) (amount : ℤ) {r : SettlementResult}
    → ((id : ℕ) → input.carrying.fx_rate_id ≡ some id → rates id ≡ input.carrying.rate)
    → ((id : ℕ) → input.settlement.fx_rate_id ≡ some id → rates id ≡ input.settlement.rate)
    → settle_foreign input ccy amount ≡ ok r
    → IsSettled rates r
unfolding settle_foreign
settle_foreign-IsSettled rates input ccy amount {r} at_c at_s h =
    let carrying : ℤ = round2_mul amount input.carrying.rate in
    let settlement : ℤ = round2_mul amount input.settlement.rate in
    let exact =
      round2-sub carrying settlement (round2_mul-IsCents amount _) (round2_mul-IsCents amount _) in
    let whole =
      -ℤ-IsCents carrying settlement (round2_mul-IsCents amount _) (round2_mul-IsCents amount _) in
    elim (Option-cases input.carrying.fx_rate_id) [
      | inl e ↦ cc (rw (e, settle_foreign) at h)
      | inr (c, ec) ↦ elim (Option-cases input.settlement.fx_rate_id) [
        | inl e ↦ cc (rw (ec, e, settle_foreign) at h)
        | inr (s, es) ↦
            let (_, h1) =
              >>-eq-ok
                (throw_if
                  (not (is_some input.carrying.fx_rate_id)
                    || not (is_some input.settlement.fx_rate_id))
                  two_rates_needed)
                _ h in
            let (_, h2) =
              >>-eq-ok
                (throw_if
                  (not (is_positive input.carrying.rate) || not (is_positive input.settlement.rate))
                  invalid_rate)
                _ h1 in
            let written : r ≡ _ = sym (ok-injective h2) in
            rw written (record {
              balanced =
                  rw (exact, difference_lines_eur rates input (carrying -ℤ settlement) whole)
                    (rw
                      (
                        ec,
                        es,
                        at_c c ec,
                        at_s s es,
                        round2_mul_zero input.carrying.rate,
                        round2_mul_zero input.settlement.rate,
                      )
                      (total_balance carrying settlement _));
              difference = exact;
            })
      ]
    ]

-- The two lines of one amount balance in euro at whatever rates.
pub build_two_sided_lines_balance :
    (rates : ℕ → ℤ) (args : TwoSided) {ls : List LineInput}
    → build_two_sided_lines args ≡ ok ls
    → debits_eur rates ls ≡ credits_eur rates ls
unfolding build_two_sided_lines
build_two_sided_lines_balance rates args {ls} h =
    let rate : ℤ = rate_at rates args.fx_rate_id in
    let (a, _, h1) = >>=-eq-ok (positive_amount args.amount) _ h in
    let (_, h2) =
      >>-eq-ok
        (throw_if (not (text_eq (to_upper args.currency) eur) && not (is_some args.fx_rate_id))
          foreign_without_rate)
        _ h1 in
    let (_, h3) =
      >>-eq-ok
        (throw_if (text_eq (to_upper args.currency) eur && is_some args.fx_rate_id) rate_on_eur) _
        h2 in
    let written : ls ≡ _ = sym (ok-injective h3) in
    rw (written, round2_mul_zero rate) (omega int_laws)

settle_in_eur-IsSettled :
    (rates : ℕ → ℤ) (input : SettlementInput) (amount : ℤ) {r : SettlementResult}
    → settle_in_eur input amount ≡ ok r
    → IsSettled rates r
unfolding settle_in_eur
settle_in_eur-IsSettled rates input amount {r} h =
    let (_, h1) =
      >>-eq-ok
        (throw_if (is_some input.carrying.fx_rate_id || is_some input.settlement.fx_rate_id)
          rate_on_eur)
        _ h in
    let (ls, el, h2) = >>=-eq-ok (build_two_sided_lines (eur_sides input amount)) _ h1 in
    let written : r ≡ _ = sym (ok-injective h2) in
    rw written
      (record { balanced = build_two_sided_lines_balance rates _ el; difference = omega int_laws })

-- When the rates of the two rows are those of the request, a settlement carries as much debit as
-- credit in euro, and its difference is the carrying value less the value on the day.
pub build_settlement_lines-IsSettled :
    (rates : ℕ → ℤ) (input : SettlementInput) {r : SettlementResult}
    → ((id : ℕ) → input.carrying.fx_rate_id ≡ some id → rates id ≡ input.carrying.rate)
    → ((id : ℕ) → input.settlement.fx_rate_id ≡ some id → rates id ≡ input.settlement.rate)
    → build_settlement_lines input ≡ ok r
    → IsSettled rates r
unfolding build_settlement_lines
build_settlement_lines-IsSettled rates input at_c at_s h =
    let (amount, _, h1) = >>=-eq-ok (positive_amount input.amount) _ h in
    elim (Bool-cases (text_eq (to_upper input.currency) eur)) [
      | inl e ↦ settle_in_eur-IsSettled rates input amount (rw e at h1)
      | inr e ↦ settle_foreign-IsSettled rates input _ amount at_c at_s (rw e at h1)
    ]

-- ===== src/Accounting/Tests/Bridge.antt =====
-- A settlement in dollars and a charter that runs past the end of a period, and what is proved of
-- them.
use ume_pms_v2_backend.Prelude.{
  arith, Option, ℕ, ◌*◌, ◌≡◌, refl, subst, some-injective, if◌then◌else◌, ◌==◌, none, some, List,
  [], ◌∷◌, Text, codes, text_eq, text_lt, to_upper, ℤ, pos, ◌+ℤ◌, ◌-ℤ◌, ◌*ℤ◌, floor_div, round2,
  round2_mul, round2_ratio, Result, ok, err, All,
}
use ume_pms_v2_backend.Accounting.Posting.Types.{value, LineInput}
use ume_pms_v2_backend.Accounting.Bridge.{
  TwoSided, SettlementInput, SettlementResult, BridgeError, BridgeDims, positive_amount,
  build_two_sided_lines, difference_lines, settle_in_eur, settle_foreign, build_settlement_lines,
}
use ume_pms_v2_backend.Accounting.Bridge.Balance.{
  debits_eur, credits_eur, build_two_sided_lines_balance, IsSettled,
  build_settlement_lines-IsSettled,
}
use ume_pms_v2_backend.Accounting.Cutoff.{
  HirePeriod, CutoffResult, days, day_count, inside_days, result_of, split_hire_revenue,
  summarise_cutoff,
}
use ume_pms_v2_backend.Accounting.Cutoff.Complete.{
  IsComplete, IsSplitOf, split_hire_revenue-IsComplete, summarise_cutoff_whole,
}

abbrev dims : BridgeDims
dims = record { vessel_id = none; supplier_id = some 5; customer_id = none }

-- Owed at 0.91, paid at 0.93.
abbrev payment : SettlementInput
payment = record {
  amount = value (pos 10_000_000_000);
  currency = codes "usd";
  carrying = record { fx_rate_id = some 7; rate = pos 91_000_000 };
  settlement = record { fx_rate_id = some 8; rate = pos 93_000_000 };
  payable_id = 20;
  bank_id = 30;
  fx_gain_id = 40;
  fx_loss_id = 41;
  dims = dims;
}

abbrev rates : ℕ → ℤ
rates id = if id == 7 then pos 91_000_000 else pos 93_000_000

abbrev settled_or_none : Result BridgeError SettlementResult → SettlementResult
settled_or_none (ok r) = r
settled_or_none (err e) = record {
  lines = [];
  carrying_eur = pos 0;
  settlement_eur = pos 0;
  fx_difference_eur = pos 0;
}

abbrev settled : SettlementResult
settled = settled_or_none (build_settlement_lines payment)

settled_ok : build_settlement_lines payment ≡ ok settled
unfolding positive_amount build_two_sided_lines difference_lines settle_in_eur settle_foreign
    build_settlement_lines text_eq text_lt to_upper round2 round2_mul round2_ratio floor_div ◌+ℤ◌
    ◌-ℤ◌ ◌*ℤ◌
settled_ok = refl

settled_loss : settled.fx_difference_eur ≡ pos 0 -ℤ pos 200_000_000
unfolding positive_amount build_two_sided_lines difference_lines settle_in_eur settle_foreign
    build_settlement_lines text_eq text_lt to_upper round2 round2_mul round2_ratio floor_div ◌+ℤ◌
    ◌-ℤ◌ ◌*ℤ◌
settled_loss = refl

rate_of : (k : ℕ) (r : ℤ) → rates k ≡ r → (id : ℕ) → some k ≡ some id → rates id ≡ r
rate_of k r e id h = subst (λ n. rates n ≡ r) (some-injective _ _ h) e

build_settlement_lines-IsSettled_example : IsSettled rates settled
build_settlement_lines-IsSettled_example =
    build_settlement_lines-IsSettled rates payment (rate_of 7 (pos 91_000_000) refl)
      (rate_of 8 (pos 93_000_000) refl) settled_ok

abbrev transfer : TwoSided
transfer = record {
  debit_account_id = 30;
  credit_account_id = 31;
  amount = value (pos 1_005_400_000);
  currency = codes "EUR";
  fx_rate_id = none;
  dims = dims;
  debit_description = none;
  credit_description = none;
}

abbrev lines_or_none : Result BridgeError (List LineInput) → List LineInput
lines_or_none (ok ls) = ls
lines_or_none (err e) = []

transfer_ok : build_two_sided_lines transfer ≡ ok (lines_or_none (build_two_sided_lines transfer))
unfolding positive_amount build_two_sided_lines difference_lines settle_in_eur settle_foreign
    build_settlement_lines text_eq text_lt to_upper round2 round2_mul round2_ratio floor_div ◌+ℤ◌
    ◌-ℤ◌ ◌*ℤ◌
transfer_ok = refl

build_two_sided_lines_balance_example :
    debits_eur rates (lines_or_none (build_two_sided_lines transfer))
    ≡ credits_eur rates (lines_or_none (build_two_sided_lines transfer))
build_two_sided_lines_balance_example = build_two_sided_lines_balance rates transfer transfer_ok

-- Three dates of 2026, by the days since the first of July.
abbrev parse : Text → Option ℤ
parse d =
    if text_eq d (codes "2026-07-30")
    then some (pos (29 * 86_400_000))
    else (if text_eq d (codes "2026-07-31")
        then some (pos (30 * 86_400_000))
        else (if text_eq d (codes "2026-08-01") then some (pos (31 * 86_400_000)) else none))

-- 100.00 for three days, of which two are in July.
abbrev charter : HirePeriod
charter = record {
  invoice_no = codes "H-1";
  total = pos 10_000_000_000;
  from = codes "2026-07-30";
  to = codes "2026-08-01";
}

abbrev cut : CutoffResult
cut = record {
  invoice_no = codes "H-1";
  total = pos 10_000_000_000;
  days_total = pos 3;
  days_in_period = pos 2;
  earned = pos 6_667_000_000;
  deferred = pos 3_333_000_000;
}

three_days : days parse charter.from charter.to ≡ some (pos 3)
unfolding days day_count text_eq floor_div ◌+ℤ◌ ◌-ℤ◌
three_days = refl

two_days_inside : inside_days parse charter (codes "2026-07-01") (codes "2026-07-31") ≡ some (pos 2)
unfolding days day_count text_eq text_lt floor_div ◌+ℤ◌ ◌-ℤ◌
two_days_inside = refl

cut_ok : split_hire_revenue parse charter (codes "2026-07-01") (codes "2026-07-31") ≡ ok (some cut)
unfolding days day_count result_of split_hire_revenue text_eq text_lt round2 round2_ratio floor_div
    ◌+ℤ◌ ◌-ℤ◌ ◌*ℤ◌
cut_ok = refl

-- A date that is not read passes the guard: the amounts are NaN.
unread_date :
    split_hire_revenue parse
      (record charter { to = codes "2026-08-32" })
      (codes "2026-07-01")
      (codes "2026-07-31")
    ≡ ok none
unfolding days day_count result_of split_hire_revenue text_eq text_lt round2 round2_ratio floor_div
    ◌+ℤ◌ ◌-ℤ◌ ◌*ℤ◌
unread_date = refl

split_hire_revenue-IsComplete_example :
    (r : CutoffResult) × (split_hire_revenue parse charter (codes "2026-07-01") (codes "2026-07-31")
      ≡ ok (some r))
    × IsComplete r
    × IsSplitOf charter (pos 3) (pos 2) r
split_hire_revenue-IsComplete_example =
    split_hire_revenue-IsComplete parse charter (codes "2026-07-01") (codes "2026-07-31") (pos 3)
      (pos 2) (refl, refl) three_days (omega arith) two_days_inside

cut-IsComplete : IsComplete cut
unfolding ◌+ℤ◌
cut-IsComplete = record {
  total_cents = (refl, refl);
  earned_cents = (refl, refl);
  deferred_cents = (refl, refl);
  whole = refl;
}

cuts-IsComplete : All IsComplete (cut ∷ cut ∷ [])
cuts-IsComplete = (cut-IsComplete, (cut-IsComplete, tt))

summarise_cutoff_whole_example :
    (summarise_cutoff (cut ∷ cut ∷ [])).earned +ℤ (summarise_cutoff (cut ∷ cut ∷ [])).deferred
    ≡ (summarise_cutoff (cut ∷ cut ∷ [])).invoiced
summarise_cutoff_whole_example = summarise_cutoff_whole (cut ∷ cut ∷ []) cuts-IsComplete

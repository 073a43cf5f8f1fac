-- ===== src/Accounting/Cutoff.antt =====
-- The cut-off of hire revenue by days (src/modules/accounting/revenue-cutoff.ts).
pub mod Complete
use ume_pms_v2_backend.Prelude.{
  ℕ, ◌*◌, Bool, true, false, List, [], ◌∷◌, Text, text_lt, ℤ, pos, pos_part, ◌+ℤ◌, ◌-ℤ◌, ◌*ℤ◌,
  Option, none, some, leb_ℤ, floor_div, round2, round2_ratio, Result, ok, err, ◌>>◌, throw_if,
  if◌then◌else◌,
}

pub record HirePeriod : Type 0 where
  pub invoice_no : Text
  pub total : ℤ
  pub from : Text
  pub to : Text

pub record CutoffResult : Type 0 where
  pub invoice_no : Text
  pub total : ℤ
  pub days_total : ℤ
  pub days_in_period : ℤ
  pub earned : ℤ
  pub deferred : ℤ

pub data CutoffError : Type 0 where
  invalid_period : CutoffError

-- `total <= 0`, which is false of NaN
abbrev is_not_positive : Option ℤ → Bool
is_not_positive none = false
is_not_positive (some n) = leb_ℤ n (pos 0)

-- The object that is returned, from the days of the invoice and those inside the period; `none` is an
-- object with NaN for the earned and the deferred amount.
unfoldable pub result_of : HirePeriod → Option ℤ → Option ℤ → Option CutoffResult
result_of h none _ = none
result_of h (some total) none = none
result_of h (some total) (some inside) =
    let earned = round2_ratio (h.total *ℤ inside) (pos_part total) in
    some (record {
      invoice_no = h.invoice_no;
      total = h.total;
      days_total = total;
      days_in_period = inside;
      earned = earned;
      deferred = round2 (h.total -ℤ earned);
    })

-- `Math.round((b - a) / DAY) + 1`, NaN if one of the two is
unfoldable pub day_count : Option ℤ → Option ℤ → Option ℤ
day_count none _ = none
day_count (some a) none = none
day_count (some a) (some b) =
    let difference = b -ℤ a in
    some (floor_div (difference +ℤ difference +ℤ pos 86_400_000) 172_800_000 +ℤ pos 1)

-- `parse` is `Date.parse`, the milliseconds of a date; `none` is NaN.
module _ (parse : Text → Option ℤ) where
  unfoldable pub days : Text → Text → Option ℤ
  unfolding day_count
  days from to = day_count (parse from) (parse to)

  abbrev pub inside_days : HirePeriod → Text → Text → Option ℤ
  inside_days h period_start period_end =
      let start = if text_lt period_start h.from then h.from else period_start in
      let end = if text_lt h.to period_end then h.to else period_end in
      if text_lt end start then some (pos 0) else days start end

  unfoldable pub split_hire_revenue :
      HirePeriod → Text → Text → Result CutoffError (Option CutoffResult)
  split_hire_revenue h period_start period_end = do
    let total = days h.from h.to
    throw_if (is_not_positive total) invalid_period
    ok (result_of h total (inside_days h period_start period_end))

-- `rows.reduce((a, r) => a + field(r), a)`
unfoldable pub reduce_by : (CutoffResult → ℤ) → ℤ → List CutoffResult → ℤ
reduce_by field a [] = a
reduce_by field a (r ∷ rs) = reduce_by field (a +ℤ field r) rs

pub record CutoffSummary : Type 0 where
  pub earned : ℤ
  pub deferred : ℤ
  pub invoiced : ℤ

unfoldable pub summarise_cutoff : List CutoffResult → CutoffSummary
summarise_cutoff rows = record {
  earned = round2 (reduce_by (λ r. r.earned) (pos 0) rows);
  deferred = round2 (reduce_by (λ r. r.deferred) (pos 0) rows);
  invoiced = round2 (reduce_by (λ r. r.total) (pos 0) rows);
}

-- ===== src/Accounting/Months.antt =====
-- Months as text, `lastDayOfMonth` and `monthsBetween`
-- (src/modules/accounting/bridge/depreciation.logic.ts), and which months are due
-- (src/modules/accounting/bridge/depreciation-catchup.logic.ts).
pub mod Order
pub mod Range
use ume_pms_v2_backend.Prelude.{
  ℕ, zero, suc, ◌+◌, ◌-◌, ◌%◌, Bool, true, false, not, ◌&&◌, ◌||◌, List, [], ◌∷◌, ◌++◌, Text,
  text_lt, is_digit, read_from, decimal, pad_zeros, Result, ok, err, ◌>>=◌, ◌>>◌, throw_if,
  if◌then◌else◌, ltb, leb, ◌==◌, map,
}

pub data ScheduleError : Type 0 where
  bad_month bad_range range_reversed range_too_long amount_not_positive no_months bad_namespace :
      ScheduleError

-- `(0[1-9]|1[0-2])`
abbrev pub is_month_number : ℕ → ℕ → Bool
is_month_number a b = ((a == 48) && leb 49 b && leb b 57) || ((a == 49) && leb 48 b && leb b 50)

-- `/^\d{4}-(0[1-9]|1[0-2])$/`
unfoldable pub is_month : Text → Bool
is_month (y1 ∷ y2 ∷ y3 ∷ y4 ∷ h ∷ a ∷ b ∷ []) =
    is_digit y1 && is_digit y2 && is_digit y3 && is_digit y4 && (h == 45) && is_month_number a b
is_month _ = false

-- `month.split('-').map(Number)`, of a text that is a month
unfoldable pub read_month : Text → ℕ × ℕ
read_month (y1 ∷ y2 ∷ y3 ∷ y4 ∷ h ∷ a ∷ b ∷ []) =
    (read_from 0 (y1 ∷ y2 ∷ y3 ∷ y4 ∷ []), read_from 0 (a ∷ b ∷ []))
read_month _ = (0, 0)

-- `${y}-${String(m).padStart(2, '0')}`
unfoldable pub print_month : ℕ → ℕ → Text
print_month y m = decimal y ++ (45 ∷ pad_zeros 2 (decimal m))

abbrev is_leap : ℕ → Bool
is_leap y = ((y % 4) == 0) && (not ((y % 100) == 0) || ((y % 400) == 0))

-- The days of a month in the calendar of `Date`.
unfoldable pub days_in_month : ℕ → ℕ → ℕ
days_in_month y m =
    if m == 2
    then (if is_leap y then 29 else 28)
    else (if (m == 4) || (m == 6) || (m == 9) || (m == 11) then 30 else 31)

-- `Date.UTC` takes the years 0 to 99 for 1900 to 1999.
abbrev utc_year : ℕ → ℕ
utc_year y = if ltb y 100 then 1900 + y else y

unfoldable pub last_day : ℕ → ℕ → Text
last_day y m =
    pad_zeros 4 (decimal (utc_year y))
    ++ (45 ∷ (pad_zeros 2 (decimal m) ++ (45 ∷ decimal (days_in_month (utc_year y) m))))

unfoldable pub last_day_of_month : Text → Result ScheduleError Text
last_day_of_month month = do
  throw_if (not (is_month month)) bad_month
  let ym = read_month month
  ok (last_day ym.0 ym.1)

abbrev pub next_month : ℕ × ℕ → ℕ × ℕ
next_month (y, m) = if ltb 12 (suc m) then (suc y, 1) else (y, suc m)

-- `y < ty || (y === ty && m <= tm)`
abbrev pub is_upto : ℕ × ℕ → ℕ × ℕ → Bool
is_upto (y, m) (ty, tm) = ltb y ty || ((y == ty) && leb m tm)

abbrev pub put_first : Text → Result ScheduleError (List Text) → Result ScheduleError (List Text)
put_first month (ok rest) = ok (month ∷ rest)
put_first month (err e) = err e

-- The loop, with how many months may still be put out before the one at which it throws.
unfoldable pub months_loop : ℕ → ℕ × ℕ → ℕ × ℕ → Result ScheduleError (List Text)
months_loop zero at to = err range_too_long
months_loop (suc room) at to =
    let rest = months_loop room (next_month at) to in
    if is_upto at to then put_first (print_month at.0 at.1) rest else ok []

-- The 241st month is one too many.
unfoldable pub months_between : Text → Text → Result ScheduleError (List Text)
months_between from to = do
  throw_if (not (is_month from) || not (is_month to)) bad_range
  throw_if (text_lt to from) range_reversed
  months_loop 241 (read_month from) (read_month to)

-- `today` comes as its year and its month.
unfoldable pub last_completed_month : ℕ × ℕ → Text
last_completed_month (y, m) =
    if m == 1 then decimal (y - 1) ++ (45 ∷ 49 ∷ 50 ∷ []) else print_month y (m - 1)

unfoldable pub months_due : Text → Text → ℕ × ℕ → Result ScheduleError (List Text)
months_due start_month end_month today =
    let last = last_completed_month today in
    let upto = if text_lt end_month last then end_month else last in
    if text_lt upto start_month then ok [] else months_between start_month upto

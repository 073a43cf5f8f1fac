-- ===== src/Accounting/Months/Range.antt =====
-- The loop of `monthsBetween` ends, and where.
use ume_pms_v2_backend.Prelude.{
  ℕ, zero, suc, ◌+◌, ◌-◌, ◌≤◌, ◌<◌, ◌≡◌, refl, true, false, List, [], ◌∷◌, Text, text_lt, ok, err,
  if◌then◌else◌, leb, Bool-cases, inl, inr, arith,
}
use ume_pms_v2_backend.Accounting.Months.{
  range_too_long, is_month, read_month, print_month, next_month, is_upto, months_loop,
  months_between,
}
use ume_pms_v2_backend.Accounting.Months.Order.{index, IsMonth, read_month-IsMonth, order-index}

-- `n` months from a month on.
abbrev pub months_from : ℕ → ℕ × ℕ → List Text
months_from zero at = []
months_from (suc n) at = print_month at.0 at.1 ∷ months_from n (next_month at)

next_month-IsMonth : (at : ℕ × ℕ) → IsMonth at → IsMonth (next_month at)
next_month-IsMonth (y, m) h = ground arith

next_month-index : (at : ℕ × ℕ) → IsMonth at → index (next_month at) ≡ suc (index at)
next_month-index (y, m) h = ground arith

is_upto-index :
    (at to : ℕ × ℕ) → IsMonth at → IsMonth to → is_upto at to ≡ leb (index at) (index to)
is_upto-index (y, m) (ty, tm) h k = ground arith

-- Where there is room for the months, the loop puts out just these.
months_loop-ok :
    (n room : ℕ) (at to : ℕ × ℕ)
    → IsMonth at
    → IsMonth to
    → index at + n ≡ suc (index to)
    → n < room
    → months_loop room at to ≡ ok (months_from n at)
unfolding months_loop
months_loop-ok n zero at to h k e r = elim r [ ]
months_loop-ok zero (suc room) at to h k e r = rw (is_upto-index at to h k) (ground arith)
months_loop-ok (suc n) (suc room) at to h k e r =
    let more : is_upto at to ≡ true = rw (is_upto-index at to h k) (ground arith) in
    let rest =
      months_loop-ok n room (next_month at) to (next_month-IsMonth at h) k
        (rw (next_month-index at h) (omega arith)) (omega arith) in
    rw (more, rest) refl

-- Where there is none for them, it throws.
months_loop-err :
    (room : ℕ) (at to : ℕ × ℕ)
    → IsMonth at
    → IsMonth to
    → index at + room ≤ suc (index to)
    → months_loop room at to ≡ err range_too_long
unfolding months_loop
months_loop-err zero at to h k e = refl
months_loop-err (suc room) at to h k e =
    let more : is_upto at to ≡ true = rw (is_upto-index at to h k) (ground arith) in
    let rest =
      months_loop-err room (next_month at) to (next_month-IsMonth at h) k
        (rw (next_month-index at h) (omega arith)) in
    rw (more, rest) refl

-- How many months there are from a month to a later one, both included.
abbrev pub span : Text → Text → ℕ
span from to = suc (index (read_month to)) - index (read_month from)

-- `monthsBetween` ends on every range of two months in order, and answers with the months from the
-- first to the second, each the one after the one before, when these are up to 240, and refuses the
-- range when they are more.
pub months_between-lem :
    (from to : Text)
    → is_month from ≡ true
    → is_month to ≡ true
    → text_lt to from ≡ false
    → months_between from to ≡ (
        if leb (span from to) 240
        then ok (months_from (span from to) (read_month from))
        else err range_too_long)
unfolding months_between
months_between-lem from to f t o =
    let a = read_month-IsMonth from f in
    let b = read_month-IsMonth to t in
    let later = order-index from to f t o in
    elim (Bool-cases (leb (span from to) 240)) [
      | inl few ↦
          rw (f, t, o, few)
            (months_loop-ok (span from to) 241 (read_month from) (read_month to) a b (omega arith)
              (ground arith))
      | inr many ↦
          rw (f, t, o, many)
            (months_loop-err 241 (read_month from) (read_month to) a b (ground arith))
    ]

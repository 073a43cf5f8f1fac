-- ===== src/Accounting/Months/Order.antt =====
-- The order of months: as texts and in time.
use ume_pms_v2_backend.Prelude.{
  All, length, ==→eq, ℕ, ◌+◌, ◌-◌, ◌*◌, ◌≤◌, ◌<◌, ◌≡◌, refl, Bool, true, false, ◌&&◌, ◌||◌, [], ◌∷◌,
  Text, text_lt, is_digit, read_from, ltb, ◌==◌, Bool-cases, inl, inr, arith,
}
use ume_pms_v2_backend.Accounting.Months.{is_month, is_month_number, read_month}

-- Months counted from the year 0.
abbrev pub index : ℕ × ℕ → ℕ
index (y, m) = 12 * y + m

abbrev pub IsMonth : ℕ × ℕ → Type 0
IsMonth (y, m) = (1 ≤ m) × (m ≤ 12)

pub read_month-IsMonth : (t : Text) → is_month t ≡ true → IsMonth (read_month t)
unfolding is_month read_month
read_month-IsMonth (y1 ∷ y2 ∷ y3 ∷ y4 ∷ h ∷ a ∷ b ∷ []) e = ground arith
read_month-IsMonth _ e = cc

-- Numbers of as many digits: a larger start wins, else the order of the texts decides.
abbrev AreDigits : Text → Type 0
AreDigits = All (λ c. is_digit c ≡ true)

digits-below :
    (s t : Text) (acc more : ℕ)
    → AreDigits s
    → AreDigits t
    → length s ≡ length t
    → acc < more
    → read_from acc s < read_from more t
digits-below [] [] acc more h k e l = l
digits-below [] (d ∷ t) acc more h k e l = absurd (omega (arith, e))
digits-below (c ∷ s) [] acc more h k e l = absurd (omega (arith, e))
digits-below (c ∷ s) (d ∷ t) acc more h k e l =
    digits-below s t (acc * 10 + (c - 48)) (more * 10 + (d - 48)) h.1 k.1 (omega (arith, e))
      (step c d acc more h.0 l)
  where
    step :
        (c d acc more : ℕ)
        → is_digit c ≡ true
        → acc < more
        → acc * 10 + (c - 48) < more * 10 + (d - 48)
    step c d acc more h l = ground arith

digits-order :
    (s t : Text) (acc : ℕ)
    → AreDigits s
    → AreDigits t
    → length s ≡ length t
    → text_lt t s ≡ false
    → read_from acc s ≤ read_from acc t
unfolding text_lt
digits-order [] [] acc h k e o = omega arith
digits-order [] (d ∷ t) acc h k e o = absurd (omega (arith, e))
digits-order (c ∷ s) [] acc h k e o = absurd (omega (arith, e))
digits-order (c ∷ s) (d ∷ t) acc h k e o = elim (Bool-cases (d == c)) [
  | inl same ↦
      let eq : d ≡ c = ==→eq d c same in
      let rest : text_lt t s ≡ false = last (ltb d c) (text_lt t s) (rw same at o) in
      rw eq (digits-order s t (acc * 10 + (c - 48)) h.1 k.1 (omega (arith, e)) rest)
  | inr other ↦ omega (
    arith,
    digits-below s t (acc * 10 + (c - 48)) (acc * 10 + (d - 48)) h.1 k.1 (omega (arith, e))
        (step c d acc h.0 k.0 other (first (ltb d c) _ o)),
  )
]
  where
    last : (a b : Bool) → a || (true && b) ≡ false → b ≡ false
    last true b h = cc
    last false b h = h

    first : (a b : Bool) → a || b ≡ false → a ≡ false
    first true b h = cc
    first false b h = refl

    step :
        (c d acc : ℕ)
        → is_digit c ≡ true
        → is_digit d ≡ true
        → (d == c) ≡ false
        → ltb d c ≡ false
        → acc * 10 + (c - 48) < acc * 10 + (d - 48)
    step c d acc h k o l = ground arith

and_parts : (a b : Bool) → a && b ≡ true → (a ≡ true) × (b ≡ true)
and_parts true b h = (refl, h)
and_parts false b h = cc

-- The digits of a month without the dash.
record MonthParts (y1 y2 y3 y4 h a b : ℕ) : Type 0 where
  dash : h ≡ 45
  digits : AreDigits (y1 ∷ y2 ∷ y3 ∷ y4 ∷ a ∷ b ∷ [])

month_parts :
    (y1 y2 y3 y4 h a b : ℕ)
    → is_month (y1 ∷ y2 ∷ y3 ∷ y4 ∷ h ∷ a ∷ b ∷ []) ≡ true
    → MonthParts y1 y2 y3 y4 h a b
unfolding is_month
month_parts y1 y2 y3 y4 h a b e =
    let p6 =
      and_parts (is_digit y1 && is_digit y2 && is_digit y3 && is_digit y4 && (h == 45)) _ e in
    let p5 = and_parts (is_digit y1 && is_digit y2 && is_digit y3 && is_digit y4) (h == 45) p6.0 in
    let p4 = and_parts (is_digit y1 && is_digit y2 && is_digit y3) (is_digit y4) p5.0 in
    let p3 = and_parts (is_digit y1 && is_digit y2) (is_digit y3) p4.0 in
    let p2 = and_parts (is_digit y1) (is_digit y2) p3.0 in
    let m = month_digits a b p6.1 in
    record { dash = ==→eq h 45 p5.1; digits = (p2.0, (p2.1, (p3.1, (p4.1, (m.0, (m.1, tt)))))) }
  where
    month_digits :
        (a b : ℕ) → is_month_number a b ≡ true → (is_digit a ≡ true) × (is_digit b ≡ true)
    month_digits a b e = ground arith

in_time :
    (y a b z c d : ℕ)
    → (0 + a) * 10 + b ≤ 12
    → 1 ≤ (0 + c) * 10 + d
    → (y * 10 + a) * 10 + b ≤ (z * 10 + c) * 10 + d
    → 12 * y + ((0 + a) * 10 + b) ≤ 12 * z + ((0 + c) * 10 + d)
in_time y a b z c d m n le = omega arith

-- The order of the texts of two months is their order in time.
pub order-index :
    (from to : Text)
    → is_month from ≡ true
    → is_month to ≡ true
    → text_lt to from ≡ false
    → index (read_month from) ≤ index (read_month to)
unfolding is_month read_month text_lt
order-index (y1 ∷ y2 ∷ y3 ∷ y4 ∷ h ∷ a ∷ b ∷ []) (z1 ∷ z2 ∷ z3 ∷ z4 ∷ k ∷ c ∷ d ∷ []) f t o =
    let p = month_parts y1 y2 y3 y4 h a b f in
    let q = month_parts z1 z2 z3 z4 k c d t in
    let m = read_month-IsMonth (y1 ∷ y2 ∷ y3 ∷ y4 ∷ h ∷ a ∷ b ∷ []) f in
    let n = read_month-IsMonth (z1 ∷ z2 ∷ z3 ∷ z4 ∷ k ∷ c ∷ d ∷ []) t in
    let le =
      digits-order (y1 ∷ y2 ∷ y3 ∷ y4 ∷ a ∷ b ∷ []) (z1 ∷ z2 ∷ z3 ∷ z4 ∷ c ∷ d ∷ []) 0 p.digits
        q.digits refl (rw (p.dash, q.dash) at o) in
    in_time (read_from 0 (y1 ∷ y2 ∷ y3 ∷ y4 ∷ [])) (a - 48) (b - 48)
      (read_from 0 (z1 ∷ z2 ∷ z3 ∷ z4 ∷ [])) (c - 48) (d - 48) m.1 n.0 le
order-index (y1 ∷ y2 ∷ y3 ∷ y4 ∷ h ∷ a ∷ b ∷ []) _ f t o = cc
order-index _ to f t o = cc

-- ===== src/Accounting/Amortization/Shares.antt =====
-- The shares of a month are in whole cents.
use ume_pms_v2_backend.Prelude.{
  ◌≡◌, refl, Bool, ◌||◌, Option, none, some, List, [], ◌∷◌, Text, text_lt, ℤ, pos, leb_ℤ, eqb_ℤ,
  round2, IsCents, round2-IsCents, ok, >>=-eq-ok, >>-eq-ok, ok-injective, throw_if, length, find_by,
  All, id_eq, sym, some-injective, Bool-cases, inl, inr, ◌==◌, subst,
}
use ume_pms_v2_backend.Accounting.Months.{
  last_day_of_month, months_between, amount_not_positive, no_months,
}
use ume_pms_v2_backend.Accounting.Amortization.{
  AmortizationMonth, instalment, spread_over, spread_amount, PrepaidSchedule, AmortizationLine,
  share_of, month_share, add_share, shares,
}
use ume_pms_v2_backend.Accounting.Amortization.Spread.{instalment-IsCents}

abbrev pub HasCents : AmortizationLine → Type 0
HasCents l = IsCents l.amount

abbrev MonthHasCents : AmortizationMonth → Type 0
MonthHasCents x = IsCents x.amount

spread_over-cents :
    (per rest : ℤ) (months : List Text) {xs : List AmortizationMonth}
    → IsCents per
    → IsCents rest
    → spread_over per rest months ≡ ok xs
    → All MonthHasCents xs
unfolding spread_over
spread_over-cents per rest [] p r h = let e : _ ≡ [] = sym (ok-injective h) in rw e tt
spread_over-cents per rest (month ∷ []) p r h =
    let (date, d, last) = >>=-eq-ok (last_day_of_month month) _ h in
    let e = sym (ok-injective last) in rw e (r, tt)
spread_over-cents per rest (month ∷ next ∷ months) p r h =
    let (date, d, went) = >>=-eq-ok (last_day_of_month month) _ h in
    let (others, o, last) = >>=-eq-ok (spread_over per rest (next ∷ months)) _ went in
    let e = sym (ok-injective last) in rw e (p, spread_over-cents per rest (next ∷ months) p r o)

spread_amount-cents :
    (amount : ℤ) (months : List Text) (fixed : Option ℤ) {xs : List AmortizationMonth}
    → spread_amount amount months fixed ≡ ok xs
    → All MonthHasCents xs
unfolding spread_amount
spread_amount-cents amount months fixed h =
    let g1 = >>-eq-ok (throw_if (leb_ℤ (round2 amount) (pos 0)) amount_not_positive) _ h in
    let g2 = >>-eq-ok (throw_if (length months == 0) no_months) _ g1.1 in
    spread_over-cents (instalment fixed (round2 amount) (length months)) _ months
      (instalment-IsCents fixed (round2 amount) (length months)) (round2-IsCents _) g2.1

find_by-All :
    (p : AmortizationMonth → Bool) (xs : List AmortizationMonth)
    → All MonthHasCents xs
    → (x : AmortizationMonth) → find_by p xs ≡ some x
    → MonthHasCents x
find_by-All p [] h x e = cc
find_by-All p (y ∷ ys) h x e = elim (Bool-cases (p y)) [
  | inl t ↦ subst MonthHasCents (some-injective _ _ (rw t at e)) h.0
  | inr f ↦ find_by-All p ys h.1 x (rw f at e)
]

-- A share is in whole cents.
abbrev SomeCents : Option AmortizationLine → Type 0
SomeCents none = Unit
SomeCents (some x) = HasCents x

share_of-cents :
    (s : PrepaidSchedule) (month : Text) (o : Option AmortizationMonth)
    → ((x : AmortizationMonth) → o ≡ some x → MonthHasCents x)
    → SomeCents (share_of s month o)
share_of-cents s month none h = tt
share_of-cents s month (some x) h = h x refl

month_share-cents :
    (s : PrepaidSchedule) (month : Text) {o : Option AmortizationLine}
    → month_share s month ≡ ok o
    → SomeCents o
unfolding month_share
month_share-cents s month {o} h =
    elim (Bool-cases (text_lt month s.start_month || text_lt s.end_month month)) [
      | inl out ↦ let e = sym (ok-injective (rw out at h)) in rw e tt
      | inr in_term ↦
          let (months, m, went) =
            >>=-eq-ok (months_between s.start_month s.end_month) _ (rw in_term at h) in
          let (spread, p, last) =
            >>=-eq-ok (spread_amount s.total_amount months s.monthly_amount) _ went in
          let e = sym (ok-injective last) in
          let cents = spread_amount-cents s.total_amount months s.monthly_amount p in
          rw e (share_of-cents s month _ (find_by-All _ spread cents))
    ]

add_share-cents :
    (o : Option AmortizationLine) (ls : List AmortizationLine)
    → SomeCents o
    → All HasCents ls
    → All HasCents (add_share o ls)
add_share-cents none ls h k = k
add_share-cents (some x) ls h k = elim (Bool-cases (eqb_ℤ x.amount (pos 0))) [
  | inl e ↦ rw e k
  | inr e ↦ rw e (h, k)
]

pub shares-cents :
    (month : Text) (schedules : List PrepaidSchedule) {ls : List AmortizationLine}
    → shares month schedules ≡ ok ls
    → All HasCents ls
unfolding shares
shares-cents month [] h = let e : _ ≡ [] = sym (ok-injective h) in rw e tt
shares-cents month (s ∷ schedules) h =
    let (o, one, went) = >>=-eq-ok (month_share s month) _ h in
    let (rest, others, last) = >>=-eq-ok (shares month schedules) _ went in
    let e = sym (ok-injective last) in
    rw e
      (add_share-cents o rest (month_share-cents s month one) (shares-cents month schedules others))

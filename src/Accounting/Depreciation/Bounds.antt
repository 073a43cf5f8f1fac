-- ===== src/Accounting/Depreciation/Bounds.antt =====
-- What a planned depreciation charges, and what the guard on the carrying amount lets through.
use ume_pms_v2_backend.Prelude.{
  ℕ, ◌≡◌, ◌↔◌, refl, false, List, [], ◌∷◌, map, Text, ℤ, pos, ◌+ℤ◌, ◌-ℤ◌, ◌≤ℤ◌, ◌<ℤ◌, leb_ℤ, ltb_ℤ,
  round2, IsCents, round2-IsCents, round2_fix, -ℤ-IsCents, ok, >>=-eq-ok, >>-eq-ok, ok-injective,
  throw_if, throw_if-ok, All, ap, sym, arith, -ℤ_parts, +ℤ_parts,
}
use ume_pms_v2_backend.Accounting.Months.{months_between, last_day_of_month, amount_not_positive}
use ume_pms_v2_backend.Accounting.Depreciation.{
  DepreciationMonth, deterministic_uuid, charge_months, plan_depreciation,
  assert_within_carrying_amount, fully_depreciated, charge_above_carrying,
}

-- Half a cent of tolerance is none between whole cents.
above :
    (charge remaining : ℤ)
    → IsCents charge
    → IsCents remaining
    → ltb_ℤ (remaining +ℤ pos 500_000) charge ≡ ltb_ℤ remaining charge
unfolding ◌+ℤ◌
above charge remaining h k = ground arith

left_over : (c a : ℤ) → leb_ℤ (c -ℤ a) (pos 0) ≡ false → a <ℤ c
left_over c a h = ground (arith, -ℤ_parts c a)

left_over_back : (c a : ℤ) → a <ℤ c → leb_ℤ (c -ℤ a) (pos 0) ≡ false
left_over_back c a h = ground (arith, -ℤ_parts c a)

covered : (c a r : ℤ) → ltb_ℤ (c -ℤ a) r ≡ false → a +ℤ r ≤ℤ c
covered c a r h = ground (arith, -ℤ_parts c a, +ℤ_parts a r)

covered_back : (c a r : ℤ) → a +ℤ r ≤ℤ c → ltb_ℤ (c -ℤ a) r ≡ false
covered_back c a r h = ground (arith, -ℤ_parts c a, +ℤ_parts a r)

-- For a cost and an accumulated depreciation in whole cents, a charge passes exactly when something
-- is left of the asset and the charge, to the cent, is not more than that: the asset is never
-- depreciated below zero.
pub assert_within_carrying_amount_iff :
    (cost accumulated charge : ℤ)
    → IsCents cost
    → IsCents accumulated
    → (assert_within_carrying_amount cost accumulated charge ≡ ok tt)
      ↔ ((accumulated <ℤ cost) × (accumulated +ℤ round2 charge ≤ℤ cost))
unfolding assert_within_carrying_amount
assert_within_carrying_amount_iff cost accumulated charge h k =
    let left : ℤ = cost -ℤ accumulated in
    let whole = -ℤ-IsCents cost accumulated h k in
    let exact : round2 left ≡ left = round2_fix left whole in
    let r : ℤ = round2 charge in
    let same = above r left (round2-IsCents charge) whole in
    (
      λ went.
          let (some_left, rest) =
            >>-eq-ok (throw_if (leb_ℤ (round2 left) (pos 0)) fully_depreciated) _ went in
          let p = throw_if-ok (leb_ℤ (round2 left) (pos 0)) fully_depreciated some_left in
          let q = throw_if-ok (ltb_ℤ (round2 left +ℤ pos 500_000) r) charge_above_carrying rest in
          (
            left_over cost accumulated (rw exact at p),
            covered cost accumulated r (rw (exact, same) at q),
          ),
      λ fits.
          rw
            (
              exact,
              left_over_back cost accumulated fits.0,
              same,
              covered_back cost accumulated r fits.1,
            )
            refl,
    )

pub record IsCharged (amount : ℤ) (months : List Text) (xs : List DepreciationMonth) : Type 0 where
  pub in_order : map (λ (x : DepreciationMonth). x.month) xs ≡ months
  pub equal : All (λ (x : DepreciationMonth). x.amount ≡ amount) xs

module _ (sha1 : List ℕ → Text → List ℕ) (vessel_id namespace : Text) where
  charge_months-IsCharged :
      (amount : ℤ) (months : List Text) {xs : List DepreciationMonth}
      → charge_months sha1 vessel_id namespace amount months ≡ ok xs
      → IsCharged amount months xs
  unfolding charge_months
  charge_months-IsCharged amount [] h =
      let e : _ ≡ [] = sym (ok-injective h) in rw e (record { in_order = refl; equal = tt })
  charge_months-IsCharged amount (month ∷ months) h =
      let (date, d, went) = >>=-eq-ok (last_day_of_month month) _ h in
      let (id, u, on) = >>=-eq-ok (deterministic_uuid sha1 namespace _) _ went in
      let (rest, others, last) =
        >>=-eq-ok (charge_months sha1 vessel_id namespace amount months) _ on in
      let e = sym (ok-injective last) in
      let tail = charge_months-IsCharged amount months others in
      rw e (record { in_order = ap (◌∷◌ month) tail.in_order; equal = (refl, tail.equal) })

  -- A planned depreciation charges each month of the range once, in order, with the monthly amount
  -- rounded to the cent.
  pub plan_depreciation-IsCharged :
      (from to : Text) (monthly : ℤ) {xs : List DepreciationMonth}
      → plan_depreciation sha1 vessel_id from to monthly namespace ≡ ok xs
      → (months : List Text) × (months_between from to ≡ ok months)
        × IsCharged (round2 monthly) months xs
  unfolding plan_depreciation
  plan_depreciation-IsCharged from to monthly h =
      let g = >>-eq-ok (throw_if (leb_ℤ (round2 monthly) (pos 0)) amount_not_positive) _ h in
      let (months, found, went) = >>=-eq-ok (months_between from to) _ g.1 in
      (months, found, charge_months-IsCharged (round2 monthly) months went)

-- ===== src/Accounting/Cutoff/Complete.antt =====
-- No cent of an invoice is lost between the earned and the deferred revenue.
use ume_pms_v2_backend.Prelude.{
  arith, ◌+◌, ◌*◌, ◌≤ℤ◌, round2_ratio_near, ◌≡◌, false, Option, some, ◌<ℤ◌, refl, List, [], ◌∷◌,
  Text, ℤ, pos, pos_part, neg_part, ◌+ℤ◌, ◌-ℤ◌, ◌*ℤ◌, leb_ℤ, round2, round2_ratio, round2_fix,
  round2-sub, round2-IsCents, round2_ratio-IsCents, IsCents, +ℤ-IsCents, ok, All, All-impl,
  int_laws, ap,
}
use ume_pms_v2_backend.Accounting.Cutoff.{
  HirePeriod, CutoffResult, days, result_of, inside_days, split_hire_revenue, reduce_by,
  summarise_cutoff,
}

-- Whole cents that add up.
pub record IsComplete (r : CutoffResult) : Type 0 where
  pub total_cents : IsCents r.total
  pub earned_cents : IsCents r.earned
  pub deferred_cents : IsCents r.deferred
  pub whole : r.earned +ℤ r.deferred ≡ r.total

-- The result for the invoice `h` of `d` days, `i` of them inside the period: the earned part is at most
-- half a cent above the share `h.total * i / d` and less than half a cent below it.
pub record IsSplitOf (h : HirePeriod) (d i : ℤ) (r : CutoffResult) : Type 0 where
  pub same_invoice : r.invoice_no ≡ h.invoice_no
  pub same_total : r.total ≡ h.total
  pub days_total : r.days_total ≡ d
  pub days_in_period : r.days_in_period ≡ i
  pub at_most :
      pos (pos_part d + pos_part d) *ℤ r.earned
      ≤ℤ h.total *ℤ i +ℤ h.total *ℤ i +ℤ pos (1_000_000 * pos_part d)
  pub more_than :
      h.total *ℤ i +ℤ h.total *ℤ i
      <ℤ pos (pos_part d + pos_part d) *ℤ r.earned +ℤ pos (1_000_000 * pos_part d)
  pub nothing_lost : r.earned +ℤ r.deferred ≡ h.total

-- An invoice in whole cents whose dates are read as dates, over one day or more, is split without an
-- error: the result is of that invoice, the earned part is within half a cent of the share of the
-- days inside the period, both parts are in whole cents, and they add up to the invoice.
pub split_hire_revenue-IsComplete :
    (parse : Text → Option ℤ) (h : HirePeriod) (period_start period_end : Text) (d i : ℤ)
    → IsCents h.total
    → days parse h.from h.to ≡ some d
    → pos 0 <ℤ d
    → inside_days parse h period_start period_end ≡ some i
    → (r : CutoffResult) × (split_hire_revenue parse h period_start period_end ≡ ok (some r))
      × IsComplete r
      × IsSplitOf h d i r
unfolding split_hire_revenue result_of
split_hire_revenue-IsComplete parse h period_start period_end d i c all positive inside =
    let earned : ℤ = round2_ratio (h.total *ℤ i) (pos_part d) in
    let near = round2_ratio_near (h.total *ℤ i) (pos_part d) (omega (arith, positive)) in
    let exact = round2-sub h.total earned c (round2_ratio-IsCents _ (pos_part d)) in
    let whole : earned +ℤ round2 (h.total -ℤ earned) ≡ h.total = rw exact (omega int_laws) in
    (
      _,
      rw (all, not_less d positive, inside) refl,
      record {
        total_cents = c;
        earned_cents = round2_ratio-IsCents _ (pos_part d);
        deferred_cents = round2-IsCents _;
        whole = whole;
      },
      record {
        same_invoice = refl;
        same_total = refl;
        days_total = refl;
        days_in_period = refl;
        at_most = near.0;
        more_than = near.1;
        nothing_lost = whole;
      },
    )
  where
    not_less : (n : ℤ) → pos 0 <ℤ n → leb_ℤ n (pos 0) ≡ false
    not_less n p = ground arith

reduce_by-IsCents :
    (field : CutoffResult → ℤ) (rows : List CutoffResult) (a : ℤ)
    → IsCents a
    → All (λ r. IsCents (field r)) rows
    → IsCents (reduce_by field a rows)
unfolding reduce_by
reduce_by-IsCents field [] a h c = h
reduce_by-IsCents field (r ∷ rows) a h c =
    reduce_by-IsCents field rows (a +ℤ field r) (+ℤ-IsCents a (field r) h c.0) c.1

reduce_by_whole :
    (rows : List CutoffResult) (e d t : ℤ)
    → e +ℤ d ≡ t
    → All IsComplete rows
    → reduce_by (λ r. r.earned) e rows +ℤ reduce_by (λ r. r.deferred) d rows
      ≡ reduce_by (λ r. r.total) t rows
unfolding reduce_by
reduce_by_whole [] e d t h c = h
reduce_by_whole (r ∷ rows) e d t h c =
    let w = c.0.whole in
    reduce_by_whole rows (e +ℤ r.earned) (d +ℤ r.deferred) (t +ℤ r.total)
      (omega (int_laws, ap pos_part h, ap neg_part h, ap pos_part w, ap neg_part w)) c.1

-- Of complete splits, the summary's earned and deferred revenue add up to the invoiced.
pub summarise_cutoff_whole :
    (rows : List CutoffResult)
    → All IsComplete rows
    → (summarise_cutoff rows).earned +ℤ (summarise_cutoff rows).deferred
      ≡ (summarise_cutoff rows).invoiced
unfolding summarise_cutoff
summarise_cutoff_whole rows c =
    rw
      (
        round2_fix _ (
            reduce_by-IsCents (λ r. r.earned) rows (pos 0) (refl, refl)
              (All-impl _ _ rows (λ r h. h.earned_cents) c)),
        round2_fix _ (
            reduce_by-IsCents (λ r. r.deferred) rows (pos 0) (refl, refl)
              (All-impl _ _ rows (λ r h. h.deferred_cents) c)),
        round2_fix _ (
            reduce_by-IsCents (λ r. r.total) rows (pos 0) (refl, refl)
              (All-impl _ _ rows (λ r h. h.total_cents) c)),
      )
      (reduce_by_whole rows (pos 0) (pos 0) (pos 0) (omega int_laws) c)

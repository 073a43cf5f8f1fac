-- ===== src/Accounting/Posting/Periods/Selection.antt =====
-- Which period `selectPeriod` chooses.
use ume_pms_v2_backend.Prelude.{
  ◌≡◌, ◌<◌, true, false, List, [], ◌∷◌, ok, arith, ◌==◌, keep, sort_by, subst, ok-injective, sym,
  ◌∙◌, false≢true, Bool-cases, inl, inr, Elem, All, All-Elem, All-keep, All-sort_by, All-keep_back,
  keep-All, sort_by_least,
}
use ume_pms_v2_backend.Accounting.Posting.Types.{EventType, PeriodRef, PostingError}
use ume_pms_v2_backend.Accounting.Posting.Types.{no_opening_period, no_operational_period}
use ume_pms_v2_backend.Accounting.Posting.Periods.{
  is_opening, is_operational, no_later, first_or, select_period,
}

first_or-All {κ} :
    {A : Type 0} (P : A → Type κ) (xs : List A) (e : PostingError) {a : A}
    → first_or xs e ≡ ok a
    → All P xs
    → P a
first_or-All P [] e h k = cc
first_or-All P (x ∷ xs) e h k = subst P (ok-injective h) k.0

first_or-cons :
    {A : Type 0} (xs : List A) (e : PostingError) {a : A}
    → first_or xs e ≡ ok a
    → (ys : List A) × (xs ≡ a ∷ ys)
first_or-cons [] e h = cc
first_or-cons (x ∷ xs) e h = (xs, rw (ok-injective h))

-- The period for an event: one of the candidates, the opening period for an opening balance, and
-- for any other event the first of the operational ones.
pub record IsSelected (event_type : EventType) (candidates : List PeriodRef) (p : PeriodRef)
    : Type 0 where
  pub member : Elem p candidates
  pub opening : is_opening event_type ≡ true → p.period_no ≡ 0
  pub operational : is_opening event_type ≡ false → 0 < p.period_no
  pub first :
      is_opening event_type ≡ false
      → All (λ q. is_operational q ≡ true → no_later p q ≡ true) candidates

opening-IsSelected :
    (ev : EventType) (cs : List PeriodRef) {p : PeriodRef}
    → is_opening ev ≡ true
    → first_or (keep (λ q. q.period_no == 0) cs) no_opening_period ≡ ok p
    → IsSelected ev cs p
opening-IsSelected ev cs o h =
    let opening = λ (q : PeriodRef). q.period_no == 0 in
    let zero_no = first_or-All (λ q. opening q ≡ true) _ _ h (keep-All opening cs) in
    record {
      member = first_or-All (λ q. Elem q cs) _ _ h (All-keep _ opening cs (All-Elem cs));
      opening = λ _. ground arith;
      operational = λ n. absurd (false≢true (sym n ∙ o));
      first = λ n. absurd (false≢true (sym n ∙ o));
    }

operational-IsSelected :
    (ev : EventType) (cs : List PeriodRef) {p : PeriodRef}
    → is_opening ev ≡ false
    → first_or (sort_by no_later (keep is_operational cs)) no_operational_period ≡ ok p
    → IsSelected ev cs p
operational-IsSelected ev cs {p} o h =
    let ops = keep is_operational cs in
    let positive =
      first_or-All (λ q. is_operational q ≡ true) _ _ h
        (All-sort_by no_later _ ops (keep-All is_operational cs)) in
    let (rest, e) = first_or-cons (sort_by no_later ops) _ h in
    let least : All (λ q. no_later p q ≡ true) ops =
      sort_by_least no_later (λ x y n. ground arith) (λ x y z a b. ground arith) (λ x. ground arith)
        ops e in
    record {
      member =
          first_or-All (λ q. Elem q cs) _ _ h
            (All-sort_by no_later _ ops (All-keep _ is_operational cs (All-Elem cs)));
      opening = λ n. absurd (false≢true (sym o ∙ n));
      operational = λ _. ground arith;
      first = λ _. All-keep_back (λ q. no_later p q ≡ true) is_operational cs least;
    }

-- `selectPeriod` returns one of the candidates: for an opening balance a period with the number 0,
-- and for any other event the operational period with the smallest number.
pub select_period-IsSelected :
    (event_type : EventType) (candidates : List PeriodRef) {p : PeriodRef}
    → select_period event_type candidates ≡ ok p
    → IsSelected event_type candidates p
unfolding select_period
select_period-IsSelected ev cs h = elim (Bool-cases (is_opening ev)) [
  | inl o ↦ opening-IsSelected ev cs o (rw o at h)
  | inr o ↦ operational-IsSelected ev cs o (rw o at h)
]

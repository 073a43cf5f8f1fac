-- ===== src/Accounting/Ledger/History/Lawful.antt =====
-- Every handler keeps the stored lines within the constraints of their table.
use ume_pms_v2_backend.Prelude.{
  ℕ, ◌≡◌, refl, Bool, Option, some, some-injective, List, Text, ok, All, Bool-cases, inl, inr, ◌==◌,
  if◌then◌else◌, arith, throw_if, or_throw, >>=-eq-ok, >>-eq-ok, ok-injective, or_throw-eq-ok,
  is_some, not, subst,
}
use ume_pms_v2_backend.Accounting.Posting.Types.{Raw, FxRateRef, PreparedLine}
use ume_pms_v2_backend.Accounting.Posting.Constraints.{HasRateSources, SatisfiesChecks}
use ume_pms_v2_backend.Accounting.Posting.Lines.Legal.{prepare_lines-SatisfiesChecks}
use ume_pms_v2_backend.Accounting.Posting.Reversal.{
  build_reversal_lines, build_reversal_lines-SatisfiesChecks,
}
use ume_pms_v2_backend.Accounting.Posting.Lines.{num, is_positive}
use ume_pms_v2_backend.Accounting.Ledger.Types.{
  Store, put_entry, put_lines, fx_rate_not_found, fx_rate_in_use, fx_rate_not_positive,
  approver_unknown,
}
use ume_pms_v2_backend.Accounting.Ledger.Closing.{close_period, reopen_period}
use ume_pms_v2_backend.Accounting.Ledger.Rates.{
  put_rate, rate_in_use, approve_fx_rate, update_fx_rate,
}
use ume_pms_v2_backend.Accounting.Ledger.Effects.{
  create_draft-Created, update_draft-Updated, void_draft-Voided,
}
use ume_pms_v2_backend.Accounting.Ledger.Booking.{post-Posted, reverse_entry-Reversed}
use ume_pms_v2_backend.Accounting.Ledger.Reverse.{link_reversal}
use ume_pms_v2_backend.Accounting.Ledger.History.{
  Step, created, updated, voided, was_posted, was_reversed, period_closed, period_reopened,
  rate_approved, rate_updated, Reach, here, next,
}
use ume_pms_v2_backend.Accounting.Ledger.History.Kept.{
  close_period-SameEntries, reopen_period-SameEntries, approve_fx_rate-SameEntries,
  update_fx_rate-SameEntries,
}
use ume_pms_v2_backend.Accounting.Ledger.History.Sound.{IsSound}
use ume_pms_v2_backend.Accounting.Ledger.History.Balanced.{Reach-IsSound}

-- The rows of the two tables meet the constraints of their tables.
pub record HasLegalRows (s : Store) : Type 0 where
  pub rates : HasRateSources s.fx_rates
  pub checks : (j : ℕ) → All SatisfiesChecks (s.lines j)

HasLegalRows-same :
    (s s' : Store)
    → HasLegalRows s
    → s'.fx_rates ≡ s.fx_rates
    → s'.lines ≡ s.lines
    → HasLegalRows s'
HasLegalRows-same s s' h rates lines = record {
  rates = rw rates h.rates;
  checks = rw lines h.checks;
}

-- The lines of one entry written.
HasLegalRows-write :
    (id : ℕ) (ls : List PreparedLine) (s s' : Store)
    → HasLegalRows s
    → s'.fx_rates ≡ s.fx_rates
    → s'.lines ≡ (λ j. if id == j then ls else s.lines j)
    → All SatisfiesChecks ls
    → HasLegalRows s'
HasLegalRows-write id ls s s' h rates lines new = record {
  rates = rw rates h.rates;
  checks =
      λ j. rw lines (elim (Bool-cases (id == j)) [ inl e ↦ rw e new | inr e ↦ rw e (h.checks j) ]);
}

-- A rate written with the source that it had.
put_rate-HasRateSources :
    (id : ℕ) (old fx : FxRateRef) (s : Store)
    → HasRateSources s.fx_rates
    → s.fx_rates id ≡ some old
    → fx.source ≡ old.source
    → HasRateSources (put_rate id fx s).fx_rates
put_rate-HasRateSources id old fx s known found same j row e = elim (Bool-cases (id == j)) [
  | inl at_id ↦
      let is_fx : fx ≡ row = some-injective _ _ (rw at_id at e) in
      rw (← is_fx, same) (known id old found)
  | inr other ↦ known j row (rw other at e)
]

approve_fx_rate-HasRateSources :
    (id : ℕ) (user : Option ℕ) (now : ℕ) (s : Store) {s' : Store}
    → HasRateSources s.fx_rates
    → approve_fx_rate id user now s ≡ ok s'
    → HasRateSources s'.fx_rates
unfolding approve_fx_rate
approve_fx_rate-HasRateSources id user now s known h =
    let (fx, found, h1) = >>=-eq-ok (or_throw (s.fx_rates id) fx_rate_not_found) _ h in
    elim (Bool-cases (is_some fx.approved_by)) [
      | inl e ↦ subst (λ (t : Store). HasRateSources t.fx_rates) (ok-injective (rw e at h1)) known
      | inr e ↦
          let (u, _, h2) = >>=-eq-ok (or_throw user approver_unknown) _ (rw e at h1) in
          subst (λ (t : Store). HasRateSources t.fx_rates) (ok-injective h2)
            (put_rate-HasRateSources id fx _ s known (or_throw-eq-ok _ _ found) refl)
    ]

update_fx_rate-HasRateSources :
    (id : ℕ) (rate : Raw) (s : Store) {s' : Store}
    → HasRateSources s.fx_rates
    → update_fx_rate id rate s ≡ ok s'
    → HasRateSources s'.fx_rates
unfolding update_fx_rate
update_fx_rate-HasRateSources id rate s known h =
    let (fx, found, h1) = >>=-eq-ok (or_throw (s.fx_rates id) fx_rate_not_found) _ h in
    let (_, h2) = >>-eq-ok (throw_if (rate_in_use id s) fx_rate_in_use) _ h1 in
    let (r, _, h3) = >>=-eq-ok (or_throw (num rate) fx_rate_not_positive) _ h2 in
    let (_, h4) = >>-eq-ok (throw_if (not (is_positive r)) fx_rate_not_positive) _ h3 in
    subst (λ (t : Store). HasRateSources t.fx_rates) (ok-injective h4)
      (put_rate-HasRateSources id fx _ s known (or_throw-eq-ok _ _ found) refl)

-- The handlers of periods do not touch the rates.
close_period-fx_rates :
    (id : ℕ) (hard : Bool) (reason : Text) (user : Option ℕ) (now : ℕ) (s : Store) {s' : Store}
    → close_period id hard reason user now s ≡ ok s'
    → s'.fx_rates ≡ s.fx_rates
unfolding close_period
close_period-fx_rates id hard reason user now s h = ground arith

reopen_period-fx_rates :
    (id : ℕ) (reason : Text) (user : Option ℕ) (now : ℕ) (s : Store) {s' : Store}
    → reopen_period id reason user now s ≡ ok s'
    → s'.fx_rates ≡ s.fx_rates
unfolding reopen_period
reopen_period-fx_rates id reason user now s h = ground arith

Step-HasLegalRows : {s s' : Store} → Step s s' → HasLegalRows s → HasLegalRows s'
unfolding put_entry put_lines link_reversal
Step-HasLegalRows {s} {s'} (created id today now dto user fresh h) r =
    let c = create_draft-Created id today now dto user s h in
    let known : HasRateSources c.ctx.prepare.fx_rates = rw c.same_rates r.rates in
    HasLegalRows-write id c.prepared.lines s s' r (rw c.written) (rw c.written)
      (prepare_lines-SatisfiesChecks dto.lines c.ctx.prepare known c.is_prepared).1
Step-HasLegalRows {s} {s'} (updated id today now dto h) r =
    let c = update_draft-Updated id today now dto s h in
    let known : HasRateSources c.ctx.prepare.fx_rates = rw c.same_rates r.rates in
    HasLegalRows-write id c.prepared.lines s s' r (rw c.written) (rw c.written)
      (prepare_lines-SatisfiesChecks dto.lines c.ctx.prepare known c.is_prepared).1
Step-HasLegalRows {s} {s'} (voided id reason now h) r =
    let c = void_draft-Voided id reason now s h in
    HasLegalRows-same s s' r (rw c.written) (rw c.written)
Step-HasLegalRows {s} {s'} (was_posted id user now h) r =
    let c = post-Posted id user now s h in
    HasLegalRows-same s s' r (rw (c.written, c.numbering.written))
      (rw (c.written, c.numbering.written))
Step-HasLegalRows {s} {s'} (was_reversed id rev_id reason date today user now fresh h) r =
    let c = reverse_entry-Reversed id rev_id reason date today user now s h in
    HasLegalRows-write rev_id (build_reversal_lines (s.lines id)) s s' r
      (rw (c.written, c.numbering.written)) (rw (c.written, c.numbering.written))
      (build_reversal_lines-SatisfiesChecks (s.lines id) (r.checks id))
Step-HasLegalRows {s} {s'} (period_closed id hard reason user now h) r =
    HasLegalRows-same s s' r (close_period-fx_rates id hard reason user now s h)
      (close_period-SameEntries id hard reason user now s h).1
Step-HasLegalRows {s} {s'} (period_reopened id reason user now h) r =
    HasLegalRows-same s s' r (reopen_period-fx_rates id reason user now s h)
      (reopen_period-SameEntries id reason user now s h).1
Step-HasLegalRows {s} {s'} (rate_approved id user now h) r = record {
  rates = approve_fx_rate-HasRateSources id user now s r.rates h;
  checks = rw (approve_fx_rate-SameEntries id user now s h).1 r.checks;
}
Step-HasLegalRows {s} {s'} (rate_updated id rate h) r = record {
  rates = update_fx_rate-HasRateSources id rate s r.rates h;
  checks = rw (update_fx_rate-SameEntries id rate s h).1 r.checks;
}

Reach-HasLegalRows : {s s' : Store} → Reach s s' → HasLegalRows s → HasLegalRows s'
Reach-HasLegalRows here r = r
Reach-HasLegalRows (next q st) r = Step-HasLegalRows st (Reach-HasLegalRows q r)

-- From tables with legal rows and a sound book every sequence of handlers leads to tables with legal
-- rows and a sound book: every row of the table of rates has one of its sources, every stored line
-- satisfies all constraints of its table, and each entry in the books has two lines or more, an
-- official number, and totals that are equal and are the exact sums of its lines.
pub Reach-IsLawful :
    {s s' : Store} → Reach s s' → HasLegalRows s → IsSound s → HasLegalRows s' × IsSound s'
Reach-IsLawful q r sound = (Reach-HasLegalRows q r, Reach-IsSound q sound)

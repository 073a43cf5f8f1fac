-- ===== src/Accounting/Ledger/Booking.antt =====
-- What `post` and `reverse` have checked and written when they go through.
use ume_pms_v2_backend.Prelude.{
  is_empty, or_throw-eq-ok, ℕ, ◌≡◌, ◌≤◌, refl, false, Option, none, some, List, [], Text, trim, ℤ,
  pos, round2, round2-IsCents, ok, throw_if, or_throw, >>=-eq-ok, >>-eq-ok, ok-injective, or_else,
  arith, ltb, length, lookup, id_eq, sym, throw_if-ok,
}
use ume_pms_v2_backend.Accounting.Posting.Types.{draft, posted, PeriodRef, PreparedLine, reversal}
use ume_pms_v2_backend.Accounting.Posting.Lines.{assert_balanced}
use ume_pms_v2_backend.Accounting.Posting.Lines.Totals.{assert_balanced-iff_totals}
use ume_pms_v2_backend.Accounting.Posting.Periods.{
  assert_period_accepts_posting, assert_date_in_period,
}
use ume_pms_v2_backend.Accounting.Posting.Transitions.{
  assert_can_post, assert_can_reverse, assert_reversal_date, assert_can_post-eq-ok,
  assert_can_reverse-eq-ok,
}
use ume_pms_v2_backend.Accounting.Posting.Reversal.{build_reversal_lines}
use ume_pms_v2_backend.Accounting.Ledger.Types.{
  FiscalPeriod, JournalEntry, Store, posting_step, find_entry, put_entry, put_lines,
  duplicate_event, entry_not_found, period_missing, few_stored_lines, reversal_reason_missing,
  no_reversal_period,
}
use ume_pms_v2_backend.Accounting.Ledger.Context.{breaks_event_index, next_entry_no}
use ume_pms_v2_backend.Accounting.Ledger.Effects.{
  Numbering, next_entry_no-Numbering, posting_step-eq-ok,
}
use ume_pms_v2_backend.Accounting.Ledger.Post.{
  check_stored_lines, reduce_debit_eur, reduce_credit_eur, posted_row, post,
}
use ume_pms_v2_backend.Accounting.Ledger.Reverse.{
  reversal_row, reversal_period, link_reversal, reverse_entry,
}

pub record Posted (id : ℕ) (user : Option ℕ) (now : ℕ) (s s' : Store) : Type 0 where
  pub old : JournalEntry
  pub period : FiscalPeriod
  pub number : Text
  pub numbered : Store
  pub found : find_entry id s ≡ some old
  pub was_draft : old.status ≡ draft
  pub in_period : lookup old.fiscal_period_id s.periods ≡ some period
  pub accepted : assert_period_accepts_posting period.row old.accounting_event_type ≡ ok tt
  pub dated : assert_date_in_period old.accounting_date period.row ≡ ok tt
  pub two_lines : 2 ≤ length (s.lines id)
  pub accounts_ok : check_stored_lines s.accounts old.legal_entity_id (s.lines id) ≡ ok tt
  pub balanced :
      round2 (reduce_debit_eur (pos 0) (s.lines id))
      ≡ round2 (reduce_credit_eur (pos 0) (s.lines id))
  pub numbering : Numbering s old.fiscal_year_id old.journal_id number numbered
  pub row : JournalEntry
  pub row_written :
      row
      ≡ posted_row number
          (round2 (reduce_debit_eur (pos 0) (s.lines id)))
          (round2 (reduce_credit_eur (pos 0) (s.lines id)))
          user
          now
          old
  pub written : s' ≡ put_entry id row numbered

pub post-Posted :
    (id : ℕ) (user : Option ℕ) (now : ℕ) (s : Store) {s' : Store}
    → post id user now s ≡ ok s'
    → Posted id user now s s'
unfolding post
post-Posted id user now s h =
    let (old, e1, h1) = >>=-eq-ok (or_throw (find_entry id s) entry_not_found) _ h in
    let (e2, h2) = >>-eq-ok (posting_step (assert_can_post old.status)) _ h1 in
    let (p, e3, h3) =
      >>=-eq-ok (or_throw (lookup old.fiscal_period_id s.periods) period_missing) _ h2 in
    let (e4, h4) =
      >>-eq-ok (posting_step (assert_period_accepts_posting p.row old.accounting_event_type)) _
        h3 in
    let (e5, h5) = >>-eq-ok (posting_step (assert_date_in_period old.accounting_date p.row)) _ h4 in
    let (e6, h6) = >>-eq-ok (throw_if (ltb (length (s.lines id)) 2) few_stored_lines) _ h5 in
    let (e7, h7) = >>-eq-ok (check_stored_lines s.accounts old.legal_entity_id (s.lines id)) _ h6 in
    let td : ℤ = round2 (reduce_debit_eur (pos 0) (s.lines id)) in
    let tc : ℤ = round2 (reduce_credit_eur (pos 0) (s.lines id)) in
    let (e8, h8) =
      >>-eq-ok
        (posting_step
          (assert_balanced (record { lines = []; total_debit_eur = td; total_credit_eur = tc })))
        _ h7 in
    let (r, e9, h9) = >>=-eq-ok (next_entry_no s old.fiscal_year_id old.journal_id) _ h8 in
    record {
      old = old;
      period = p;
      number = r.0;
      numbered = r.1;
      found = or_throw-eq-ok _ _ e1;
      was_draft = assert_can_post-eq-ok old.status (posting_step-eq-ok _ e2);
      in_period = or_throw-eq-ok _ _ e3;
      accepted = posting_step-eq-ok _ e4;
      dated = posting_step-eq-ok _ e5;
      two_lines = at_least_two (s.lines id) (throw_if-ok _ few_stored_lines e6);
      accounts_ok = e7;
      balanced =
          (assert_balanced-iff_totals _ (round2-IsCents _) (round2-IsCents _)).0
            (posting_step-eq-ok _ e8);
      numbering = next_entry_no-Numbering s old.fiscal_year_id old.journal_id e9;
      row = posted_row r.0 td tc user now old;
      row_written = refl;
      written = sym (ok-injective h9);
    }
  where
    at_least_two : (ls : List PreparedLine) → ltb (length ls) 2 ≡ false → 2 ≤ length ls
    at_least_two ls e = ground arith

pub record Reversed (id rev_id : ℕ) (rev_date : Text) (user : Option ℕ) (now : ℕ) (s s' : Store)
    : Type 0 where
  pub original : JournalEntry
  pub rev : JournalEntry
  pub target : PeriodRef
  pub number : Text
  pub numbered : Store
  pub found : find_entry id s ≡ some original
  pub was_posted : original.status ≡ posted
  pub not_reversed : original.reversed_by_entry_id ≡ none
  pub dated : assert_reversal_date original.accounting_date rev_date ≡ ok tt
  pub in_period : reversal_period s original.legal_entity_id rev_date ≡ some target
  pub accepted : assert_period_accepts_posting target reversal ≡ ok tt
  pub rev_draft : rev.status ≡ draft
  pub rev_of : rev.reversal_of_entry_id ≡ some id
  pub rev_no_number : rev.entry_no ≡ none
  pub rev_year : rev.fiscal_year_id ≡ target.fiscal_year_id
  pub rev_totals :
      (rev.total_debit_eur ≡ original.total_credit_eur)
      × (rev.total_credit_eur ≡ original.total_debit_eur)
  pub numbering :
      Numbering
        (put_lines rev_id (build_reversal_lines (s.lines id)) (put_entry rev_id rev s))
        target.fiscal_year_id
        original.journal_id
        number
        numbered
  pub written : s' ≡ link_reversal id rev_id original rev number user now numbered

pub reverse_entry-Reversed :
    (id rev_id : ℕ) (reason : Text) (reversal_date : Option Text) (today : Text) (user : Option ℕ)
    (now : ℕ) (s : Store) {s' : Store}
    → reverse_entry id rev_id reason reversal_date today user now s ≡ ok s'
    → Reversed id rev_id (or_else reversal_date today) user now s s'
unfolding reverse_entry reversal_row
reverse_entry-Reversed id rev_id reason reversal_date today user now s h =
    let (_, h1) = >>-eq-ok (throw_if (is_empty (trim reason)) reversal_reason_missing) _ h in
    let (o, e2, h2) = >>=-eq-ok (or_throw (find_entry id s) entry_not_found) _ h1 in
    let (e3, h3) =
      >>-eq-ok (posting_step (assert_can_reverse o.status o.reversed_by_entry_id)) _ h2 in
    let date : Text = or_else reversal_date today in
    let (e4, h4) = >>-eq-ok (posting_step (assert_reversal_date o.accounting_date date)) _ h3 in
    let (t, e5, h5) =
      >>=-eq-ok (or_throw (reversal_period s o.legal_entity_id date) no_reversal_period) _ h4 in
    let (e6, h6) = >>-eq-ok (posting_step (assert_period_accepts_posting t reversal)) _ h5 in
    let (_, h7) = >>-eq-ok (posting_step (assert_date_in_period date t)) _ h6 in
    let rev : JournalEntry = reversal_row id o t date today (trim reason) user now in
    let (_, h8) = >>-eq-ok (throw_if (breaks_event_index rev s.entries) duplicate_event) _ h7 in
    let saved : Store =
      put_lines rev_id (build_reversal_lines (s.lines id)) (put_entry rev_id rev s) in
    let (r, e9, h9) = >>=-eq-ok (next_entry_no saved t.fiscal_year_id o.journal_id) _ h8 in
    let can = assert_can_reverse-eq-ok o.status o.reversed_by_entry_id (posting_step-eq-ok _ e3) in
    record {
      original = o;
      rev = rev;
      target = t;
      number = r.0;
      numbered = r.1;
      found = or_throw-eq-ok _ _ e2;
      was_posted = can.0;
      not_reversed = can.1;
      dated = posting_step-eq-ok _ e4;
      in_period = or_throw-eq-ok _ _ e5;
      accepted = posting_step-eq-ok _ e6;
      rev_draft = refl;
      rev_of = refl;
      rev_no_number = refl;
      rev_year = refl;
      rev_totals = (refl, refl);
      numbering = next_entry_no-Numbering saved t.fiscal_year_id o.journal_id e9;
      written = sym (ok-injective h9);
    }

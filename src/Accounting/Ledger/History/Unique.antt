-- ===== src/Accounting/Ledger/History/Unique.antt =====
-- Every handler keeps the official numbers apart.
use ume_pms_v2_backend.Prelude.{
  ℕ, ◌≡◌, refl, Option, none, some, List, Text, lookup-insert, id_eq, ◌∙◌, or_else,
}
use ume_pms_v2_backend.Accounting.Posting.Types.{draft, posted, reversed, PreparedLine}
use ume_pms_v2_backend.Accounting.Posting.Reversal.{build_reversal_lines}
use ume_pms_v2_backend.Accounting.Ledger.Types.{
  JournalEntry, Store, find_entry, put_entry, put_lines,
}
use ume_pms_v2_backend.Accounting.Ledger.Effects.{
  create_draft-Created, update_draft-Updated, void_draft-Voided,
}
use ume_pms_v2_backend.Accounting.Ledger.Booking.{
  Posted, post-Posted, Reversed, reverse_entry-Reversed,
}
use ume_pms_v2_backend.Accounting.Ledger.Post.{posted_row}
use ume_pms_v2_backend.Accounting.Ledger.Reverse.{link_reversal}
use ume_pms_v2_backend.Accounting.Ledger.History.{
  Step, created, updated, voided, was_posted, was_reversed, period_closed, period_reopened,
  rate_approved, rate_updated, Reach, here, next,
}
use ume_pms_v2_backend.Accounting.Ledger.History.Kept.{
  close_period-SameEntries, reopen_period-SameEntries, approve_fx_rate-SameEntries,
  update_fx_rate-SameEntries, not_booked_of_draft,
}
use ume_pms_v2_backend.Accounting.Ledger.History.Frozen.{fresh_apart}
use ume_pms_v2_backend.Accounting.Ledger.History.Numbers.{
  AreNumbered, AreNumbered-same, AreNumbered-plain, AreNumbered-mark, AreNumbered-next,
}

-- A draft has no number.
draft_plain :
    (id : ℕ) (s : Store) (old : JournalEntry)
    → AreNumbered s
    → find_entry id s ≡ some old
    → old.status ≡ draft
    → old.entry_no ≡ none
draft_plain id s old a f d = a.unbooked id old f (not_booked_of_draft id s old f d old f)

Posted-AreNumbered :
    (id : ℕ) (user : Option ℕ) (now : ℕ) (s s' : Store)
    → AreNumbered s
    → Posted id user now s s'
    → AreNumbered s'
unfolding put_entry posted_row
Posted-AreNumbered id user now s s' a p =
    AreNumbered-next id p.old.fiscal_year_id p.old.journal_id p.number p.row s p.numbered s' a
      p.numbering (rw (p.written, p.numbering.written)) (rw p.written) (rw p.row_written)
      (rw p.row_written) (rw p.row_written)

Reversed-AreNumbered :
    (id rev_id : ℕ) (date : Text) (user : Option ℕ) (now : ℕ) (s s' : Store)
    → find_entry rev_id s ≡ none
    → AreNumbered s
    → Reversed id rev_id date user now s s'
    → AreNumbered s'
unfolding find_entry put_entry put_lines link_reversal
Reversed-AreNumbered id rev_id date user now s s' fresh a r =
    let ls : List PreparedLine = build_reversal_lines (s.lines id) in
    let saved : Store = put_lines rev_id ls (put_entry rev_id r.rev s) in
    let rev' : JournalEntry =
      let rev = r.rev in
      record rev {
        status = posted;
        entry_no = some r.number;
        posted_by = user;
        posted_at = some now;
        updated_at = now;
      } in
    let linked : Store = put_entry rev_id rev' r.numbered in
    let marked : JournalEntry =
      let o = r.original in
      record o { status = reversed; reversed_by_entry_id = some rev_id; updated_at = now } in
    let apart = fresh_apart id rev_id r.original s fresh r.found in
    let numbered_entries : r.numbered.entries ≡ saved.entries = rw r.numbering.written in
    let found_id : find_entry id linked ≡ some r.original =
      rw
        (
          lookup-insert id rev_id rev' r.numbered.entries,
          apart,
          numbered_entries,
          lookup-insert id rev_id r.rev s.entries,
          apart,
        )
        r.found in
    let a1 = AreNumbered-plain rev_id r.rev s saved a refl refl r.rev_no_number in
    let a2 =
      AreNumbered-next rev_id r.target.fiscal_year_id r.original.journal_id r.number rev' saved
        r.numbered linked a1 r.numbering (rw numbered_entries) refl refl refl r.rev_year in
    AreNumbered-mark id marked r.original linked s' a2 found_id (rw r.written) (rw r.written) refl
      refl refl

Step-AreNumbered : {s s' : Store} → Step s s' → AreNumbered s → AreNumbered s'
unfolding put_entry put_lines
Step-AreNumbered {s} {s'} (created id today now dto user fresh h) a =
    let c = create_draft-Created id today now dto user s h in
    AreNumbered-plain id c.row s s' a (rw c.written) (rw c.written) c.no_number
Step-AreNumbered {s} {s'} (updated id today now dto h) a =
    let c = update_draft-Updated id today now dto s h in
    AreNumbered-plain id c.row s s' a (rw c.written) (rw c.written)
      (c.same_number ∙ draft_plain id s c.old a c.found c.was_draft)
Step-AreNumbered {s} {s'} (voided id reason now h) a =
    let c = void_draft-Voided id reason now s h in
    AreNumbered-plain id c.row s s' a (rw c.written) (rw c.written)
      (c.same_number ∙ draft_plain id s c.old a c.found c.was_draft)
Step-AreNumbered {s} {s'} (was_posted id user now h) a =
    Posted-AreNumbered id user now s s' a (post-Posted id user now s h)
Step-AreNumbered {s} {s'} (was_reversed id rev_id reason date today user now fresh h) a =
    Reversed-AreNumbered id rev_id (or_else date today) user now s s' fresh a
      (reverse_entry-Reversed id rev_id reason date today user now s h)
Step-AreNumbered {s} {s'} (period_closed id hard reason user now h) a =
    let e = close_period-SameEntries id hard reason user now s h in AreNumbered-same s s' a e.0 e.2
Step-AreNumbered {s} {s'} (period_reopened id reason user now h) a =
    let e = reopen_period-SameEntries id reason user now s h in AreNumbered-same s s' a e.0 e.2
Step-AreNumbered {s} {s'} (rate_approved id user now h) a =
    let e = approve_fx_rate-SameEntries id user now s h in AreNumbered-same s s' a e.0 e.2
Step-AreNumbered {s} {s'} (rate_updated id rate h) a =
    let e = update_fx_rate-SameEntries id rate s h in AreNumbered-same s s' a e.0 e.2

-- Under every sequence of handlers only entries in the books carry official numbers, each number was
-- issued by the counter of its fiscal year, and two entries of one year never have the same sequence
-- number, whatever journals they belong to.
pub Reach-AreNumbered : {s s' : Store} → Reach s s' → AreNumbered s → AreNumbered s'
Reach-AreNumbered here a = a
Reach-AreNumbered (next r st) a = Step-AreNumbered st (Reach-AreNumbered r a)

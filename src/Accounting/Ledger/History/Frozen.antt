-- ===== src/Accounting/Ledger/History/Frozen.antt =====
-- An entry in the books is never changed again, but for the mark that it has been reversed.
use ume_pms_v2_backend.Prelude.{
  ℕ, ◌≡◌, refl, true, false, Option, none, some, Text, Bool-cases, inl, inr, ◌==◌, ==→eq,
  lookup-insert, id_eq, List, or_else, ==_refl,
}
use ume_pms_v2_backend.Accounting.Posting.Types.{posted, PreparedLine}
use ume_pms_v2_backend.Accounting.Posting.Reversal.{build_reversal_lines}
use ume_pms_v2_backend.Accounting.Ledger.Types.{
  JournalEntry, Store, is_booked, find_entry, put_entry, put_lines,
}
use ume_pms_v2_backend.Accounting.Ledger.Effects.{
  create_draft-Created, update_draft-Updated, void_draft-Voided,
}
use ume_pms_v2_backend.Accounting.Ledger.Booking.{post-Posted, reverse_entry-Reversed, Reversed}
use ume_pms_v2_backend.Accounting.Ledger.Reverse.{link_reversal}
use ume_pms_v2_backend.Accounting.Ledger.History.{
  Step, created, updated, voided, was_posted, was_reversed, period_closed, period_reopened,
  rate_approved, rate_updated, Reach, here, next,
}
use ume_pms_v2_backend.Accounting.Ledger.History.Kept.{
  StillBooked, Keeps, Keeps-trans, Keeps-same, Keeps-write, Keeps-mark, not_booked_of_draft,
  not_booked_of_fresh, close_period-SameEntries, reopen_period-SameEntries,
  approve_fx_rate-SameEntries, update_fx_rate-SameEntries,
}

pub fresh_apart :
    (id new_id : ℕ) (e : JournalEntry) (s : Store)
    → find_entry new_id s ≡ none
    → find_entry id s ≡ some e
    → (new_id == id) ≡ false
fresh_apart id new_id e s fresh found = elim (Bool-cases (new_id == id)) [
  | inl same ↦ cc (==→eq new_id id same, fresh, found)
  | inr other ↦ other
]

reverse-Keeps :
    (j id rev_id : ℕ) (date : Text) (user : Option ℕ) (now : ℕ) (s s' : Store)
    → find_entry rev_id s ≡ none
    → Reversed id rev_id date user now s s'
    → Keeps j s s'
unfolding find_entry put_entry put_lines link_reversal
reverse-Keeps j id rev_id date user now s s' fresh r =
    let ls : List PreparedLine = build_reversal_lines (s.lines id) in
    let saved : Store = put_lines rev_id ls (put_entry rev_id r.rev s) in
    let rev' : JournalEntry =
      let rev = r.rev in
      record rev {
        status = posted;
        entry_no = some r.number;
        posted_by = user;
        posted_at = some now;
        updated_at = now;
      } in
    let linked : Store = put_entry rev_id rev' r.numbered in
    let numbered_entries : r.numbered.entries ≡ saved.entries = rw r.numbering.written in
    let numbered_lines : r.numbered.lines ≡ saved.lines = rw r.numbering.written in
    let found_rev : find_entry rev_id r.numbered ≡ some r.rev =
      rw (numbered_entries, lookup-insert rev_id rev_id r.rev s.entries, ==_refl rev_id) in
    let apart : (rev_id == id) ≡ false = fresh_apart id rev_id r.original s fresh r.found in
    let found_id : find_entry id linked ≡ some r.original =
      rw
        (
          lookup-insert id rev_id rev' r.numbered.entries,
          apart,
          numbered_entries,
          lookup-insert id rev_id r.rev s.entries,
          apart,
        )
        r.found in
    Keeps-trans j
      (Keeps-write j rev_id r.rev s saved (not_booked_of_fresh rev_id s fresh) refl
        (λ k other. rw other))
      (Keeps-trans j (Keeps-same j saved r.numbered numbered_entries numbered_lines) (
        Keeps-trans j
          (Keeps-write j rev_id rev' r.numbered linked
            (not_booked_of_draft rev_id r.numbered r.rev found_rev r.rev_draft) refl
            (λ k other. refl))
          (Keeps-mark j id rev_id now r.original linked s' found_id (rw r.written) (rw r.written))))

Step-Keeps : (j : ℕ) {s s' : Store} → Step s s' → Keeps j s s'
unfolding put_entry put_lines
Step-Keeps j {s} {s'} (created id today now dto user fresh h) =
    let c = create_draft-Created id today now dto user s h in
    Keeps-write j id c.row s s' (not_booked_of_fresh id s fresh) (rw c.written)
      (λ k other. rw (c.written, other))
Step-Keeps j {s} {s'} (updated id today now dto h) =
    let c = update_draft-Updated id today now dto s h in
    Keeps-write j id c.row s s' (not_booked_of_draft id s c.old c.found c.was_draft) (rw c.written)
      (λ k other. rw (c.written, other))
Step-Keeps j {s} {s'} (voided id reason now h) =
    let c = void_draft-Voided id reason now s h in
    Keeps-write j id c.row s s' (not_booked_of_draft id s c.old c.found c.was_draft) (rw c.written)
      (λ k other. rw c.written)
Step-Keeps j {s} {s'} (was_posted id user now h) =
    let c = post-Posted id user now s h in
    Keeps-write j id c.row s s' (not_booked_of_draft id s c.old c.found c.was_draft)
      (rw (c.written, c.numbering.written)) (λ k other. rw (c.written, c.numbering.written))
Step-Keeps j {s} {s'} (was_reversed id rev_id reason date today user now fresh h) =
    reverse-Keeps j id rev_id (or_else date today) user now s s' fresh
      (reverse_entry-Reversed id rev_id reason date today user now s h)
Step-Keeps j {s} {s'} (period_closed id hard reason user now h) =
    let e = close_period-SameEntries id hard reason user now s h in Keeps-same j s s' e.0 e.1
Step-Keeps j {s} {s'} (period_reopened id reason user now h) =
    let e = reopen_period-SameEntries id reason user now s h in Keeps-same j s s' e.0 e.1
Step-Keeps j {s} {s'} (rate_approved id user now h) =
    let e = approve_fx_rate-SameEntries id user now s h in Keeps-same j s s' e.0 e.1
Step-Keeps j {s} {s'} (rate_updated id rate h) =
    let e = update_fx_rate-SameEntries id rate s h in Keeps-same j s s' e.0 e.1

Reach-Keeps : (j : ℕ) {s s' : Store} → Reach s s' → Keeps j s s'
Reach-Keeps j {s} here = Keeps-same j s s refl refl
Reach-Keeps j (next r st) = Keeps-trans j (Reach-Keeps j r) (Step-Keeps j st)

-- Whatever handlers run, in whatever order, an entry that is in the books stays in the books with
-- the lines, the number, the totals, the date and every other column that it had; only its status,
-- the entry that reverses it and the time of its last update may be new.
pub Reach-StillBooked :
    (j : ℕ) (e : JournalEntry) {s s' : Store}
    → find_entry j s ≡ some e
    → is_booked e.status ≡ true
    → Reach s s'
    → StillBooked j e s s'
Reach-StillBooked j e f b r = Reach-Keeps j r e f b

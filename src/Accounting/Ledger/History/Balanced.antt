-- ===== src/Accounting/Ledger/History/Balanced.antt =====
-- Every handler keeps the book sound.
use ume_pms_v2_backend.Prelude.{
  ℕ, ◌≡◌, refl, false, Option, none, some, List, Text, All, id_eq, ==_refl, false≢true, sym, ◌∙◌,
  or_else, arith,
}
use ume_pms_v2_backend.Accounting.Posting.Types.{posted, reversed, PreparedLine}
use ume_pms_v2_backend.Accounting.Posting.Lines.Totals.{prepare_lines-IsPreparedEntry}
use ume_pms_v2_backend.Accounting.Posting.Reversal.{build_reversal_lines, build_reversal_lines-sums}
use ume_pms_v2_backend.Accounting.Ledger.Types.{
  JournalEntry, Store, is_booked, find_entry, put_entry, put_lines,
}
use ume_pms_v2_backend.Accounting.Ledger.Effects.{
  create_draft-Created, update_draft-Updated, void_draft-Voided,
}
use ume_pms_v2_backend.Accounting.Ledger.Booking.{
  Posted, post-Posted, Reversed, reverse_entry-Reversed,
}
use ume_pms_v2_backend.Accounting.Ledger.Post.{posted_row}
use ume_pms_v2_backend.Accounting.Ledger.Reverse.{link_reversal}
use ume_pms_v2_backend.Accounting.Ledger.History.{
  Step, created, updated, voided, was_posted, was_reversed, period_closed, period_reopened,
  rate_approved, rate_updated, Reach, here, next,
}
use ume_pms_v2_backend.Accounting.Ledger.History.Kept.{
  close_period-SameEntries, reopen_period-SameEntries, approve_fx_rate-SameEntries,
  update_fx_rate-SameEntries,
}
use ume_pms_v2_backend.Accounting.Ledger.History.Frozen.{fresh_apart}
use ume_pms_v2_backend.Accounting.Ledger.History.Sound.{
  IsLegalLine, IsBalanced, IsSoundEntry, IsSound, IsSound-write, IsSound-same, ArePrepared-legal,
  build_reversal_lines-legal, length-build_reversal_lines, reduced_totals,
}

-- An entry that is not in the books only needs legal lines.
unbooked :
    (e : JournalEntry) (ls : List PreparedLine)
    → is_booked e.status ≡ false
    → All IsLegalLine ls
    → IsSoundEntry e ls
unbooked e ls b h = record { legal = h; booked = λ t. absurd (false≢true (sym b ∙ t)) }

Posted-IsSound :
    (id : ℕ) (user : Option ℕ) (now : ℕ) (s s' : Store)
    → IsSound s
    → Posted id user now s s'
    → IsSound s'
unfolding put_entry posted_row
Posted-IsSound id user now s s' sound p =
    let legal = (sound id p.old p.found).legal in
    let totals = reduced_totals (s.lines id) legal in
    let same_lines : s'.lines ≡ s.lines = rw (p.written, p.numbering.written) in
    IsSound-write id p.row s s' sound (rw (p.written, p.numbering.written))
      (λ k other. rw same_lines)
      (rw (same_lines, p.row_written)
        (record {
          legal = legal;
          booked = λ _. record {
            debit = totals.0;
            credit = totals.1;
            equal = p.balanced;
            two_lines = p.two_lines;
            numbered = refl;
          };
        }))

-- The reversal of a balanced entry is balanced.
reversal-IsBalanced :
    (original rev : JournalEntry) (number : Text) (user : Option ℕ) (now : ℕ)
    (ls : List PreparedLine)
    → IsBalanced original ls
    → (rev.total_debit_eur ≡ original.total_credit_eur)
      × (rev.total_credit_eur ≡ original.total_debit_eur)
    → IsBalanced
        (record rev {
          status = posted;
          entry_no = some number;
          posted_by = user;
          posted_at = some now;
          updated_at = now;
        })
        (build_reversal_lines ls)
reversal-IsBalanced original rev number user now ls b t =
    let sums = build_reversal_lines-sums ls in
    record {
      debit = t.0 ∙ (b.credit ∙ sym sums.0);
      credit = t.1 ∙ (b.debit ∙ sym sums.1);
      equal = t.0 ∙ (sym b.equal ∙ sym t.1);
      two_lines = omega (arith, b.two_lines, length-build_reversal_lines ls);
      numbered = refl;
    }

Reversed-IsSound :
    (id rev_id : ℕ) (date : Text) (user : Option ℕ) (now : ℕ) (s s' : Store)
    → find_entry rev_id s ≡ none
    → IsSound s
    → Reversed id rev_id date user now s s'
    → IsSound s'
unfolding find_entry put_entry put_lines link_reversal
Reversed-IsSound id rev_id date user now s s' fresh sound r =
    let ls : List PreparedLine = build_reversal_lines (s.lines id) in
    let saved : Store = put_lines rev_id ls (put_entry rev_id r.rev s) in
    let rev' : JournalEntry =
      let rev = r.rev in
      record rev {
        status = posted;
        entry_no = some r.number;
        posted_by = user;
        posted_at = some now;
        updated_at = now;
      } in
    let linked : Store = put_entry rev_id rev' r.numbered in
    let apart = fresh_apart id rev_id r.original s fresh r.found in
    let old : IsSoundEntry r.original (s.lines id) = sound id r.original r.found in
    let balanced : IsBalanced r.original (s.lines id) = old.booked (rw r.was_posted refl) in
    let legal : All IsLegalLine ls = build_reversal_lines-legal (s.lines id) old.legal in
    let rev_lines : saved.lines rev_id ≡ ls = rw (==_refl rev_id) in
    let id_lines : saved.lines id ≡ s.lines id = rw apart in
    let numbered_lines : r.numbered.lines ≡ saved.lines = rw r.numbering.written in
    let sound_saved =
      IsSound-write rev_id r.rev s saved sound refl (λ k other. rw other)
        (rw rev_lines (unbooked r.rev ls (rw r.rev_draft) legal)) in
    let sound_numbered =
      IsSound-same saved r.numbered sound_saved (rw r.numbering.written) numbered_lines in
    let sound_linked =
      IsSound-write rev_id rev' r.numbered linked sound_numbered refl (λ k other. refl)
        (rw (numbered_lines, rev_lines)
          (record {
            legal = legal;
            booked = λ _.
                reversal-IsBalanced r.original r.rev r.number user now (s.lines id) balanced
                  r.rev_totals;
          })) in
    let marked : JournalEntry =
      let o = r.original in
      record o { status = reversed; reversed_by_entry_id = some rev_id; updated_at = now } in
    IsSound-write id marked linked s' sound_linked (rw r.written) (λ k other. rw r.written)
      (rw r.written (
        rw (numbered_lines, id_lines)
          (record {
            legal = old.legal;
            booked = λ _. record {
              debit = balanced.debit;
              credit = balanced.credit;
              equal = balanced.equal;
              two_lines = balanced.two_lines;
              numbered = balanced.numbered;
            };
          })))

Step-IsSound : {s s' : Store} → Step s s' → IsSound s → IsSound s'
unfolding put_entry put_lines
Step-IsSound {s} {s'} (created id today now dto user fresh h) sound =
    let c = create_draft-Created id today now dto user s h in
    let lines : s'.lines id ≡ c.prepared.lines = rw (c.written, ==_refl id) in
    IsSound-write id c.row s s' sound (rw c.written) (λ k other. rw (c.written, other))
      (rw lines (
        unbooked c.row c.prepared.lines (rw c.is_draft) (
          ArePrepared-legal c.ctx.prepare 0 dto.lines c.prepared.lines
            (prepare_lines-IsPreparedEntry dto.lines c.ctx.prepare c.is_prepared).lines)))
Step-IsSound {s} {s'} (updated id today now dto h) sound =
    let c = update_draft-Updated id today now dto s h in
    let lines : s'.lines id ≡ c.prepared.lines = rw (c.written, ==_refl id) in
    IsSound-write id c.row s s' sound (rw c.written) (λ k other. rw (c.written, other))
      (rw lines (
        unbooked c.row c.prepared.lines (rw (c.is_draft, c.was_draft)) (
          ArePrepared-legal c.ctx.prepare 0 dto.lines c.prepared.lines
            (prepare_lines-IsPreparedEntry dto.lines c.ctx.prepare c.is_prepared).lines)))
Step-IsSound {s} {s'} (voided id reason now h) sound =
    let c = void_draft-Voided id reason now s h in
    let lines : s'.lines ≡ s.lines = rw c.written in
    IsSound-write id c.row s s' sound (rw c.written) (λ k other. rw c.written)
      (rw lines (unbooked c.row (s.lines id) (rw c.is_void) (sound id c.old c.found).legal))
Step-IsSound {s} {s'} (was_posted id user now h) sound =
    Posted-IsSound id user now s s' sound (post-Posted id user now s h)
Step-IsSound {s} {s'} (was_reversed id rev_id reason date today user now fresh h) sound =
    Reversed-IsSound id rev_id (or_else date today) user now s s' fresh sound
      (reverse_entry-Reversed id rev_id reason date today user now s h)
Step-IsSound {s} {s'} (period_closed id hard reason user now h) sound =
    let e = close_period-SameEntries id hard reason user now s h in IsSound-same s s' sound e.0 e.1
Step-IsSound {s} {s'} (period_reopened id reason user now h) sound =
    let e = reopen_period-SameEntries id reason user now s h in IsSound-same s s' sound e.0 e.1
Step-IsSound {s} {s'} (rate_approved id user now h) sound =
    let e = approve_fx_rate-SameEntries id user now s h in IsSound-same s s' sound e.0 e.1
Step-IsSound {s} {s'} (rate_updated id rate h) sound =
    let e = update_fx_rate-SameEntries id rate s h in IsSound-same s s' sound e.0 e.1

-- From a sound book every sequence of handlers leads to a sound book.
pub Reach-IsSound : {s s' : Store} → Reach s s' → IsSound s → IsSound s'
Reach-IsSound here sound = sound
Reach-IsSound (next r st) sound = Step-IsSound st (Reach-IsSound r sound)

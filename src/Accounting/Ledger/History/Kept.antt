-- ===== src/Accounting/Ledger/History/Kept.antt =====
-- What it is for an entry to stay in the books, and the writes that let it stay.
use ume_pms_v2_backend.Prelude.{
  ℕ, ◌≡◌, refl, Bool, true, false, Option, none, some, Text, ok, arith, Bool-cases, inl, inr, ◌==◌,
  ==→eq, insert, lookup-insert, id_eq, false≢true, sym, ◌∙◌, ap,
}
use ume_pms_v2_backend.Accounting.Posting.Types.{Raw, draft, reversed}
use ume_pms_v2_backend.Accounting.Ledger.Types.{JournalEntry, Store, is_booked, find_entry}
use ume_pms_v2_backend.Accounting.Ledger.Closing.{close_period, reopen_period}
use ume_pms_v2_backend.Accounting.Ledger.Rates.{approve_fx_rate, update_fx_rate}

-- The entry `j`, if it is in the books, stays there: only its status, the entry that reverses it and
-- the time of its last update may be new, and its lines are the same.
pub record StillBooked (j : ℕ) (e : JournalEntry) (s s' : Store) : Type 0 where
  pub now : JournalEntry
  pub found : find_entry j s' ≡ some now
  pub booked : is_booked now.status ≡ true
  pub same_entry : now ≡ record e {
    status = now.status;
    reversed_by_entry_id = now.reversed_by_entry_id;
    updated_at = now.updated_at;
  }
  pub same_lines : s'.lines j ≡ s.lines j

abbrev pub Keeps : ℕ → Store → Store → Type 0
Keeps j s s' =
    (e : JournalEntry) → find_entry j s ≡ some e → is_booked e.status ≡ true → StillBooked j e s s'

pub Keeps-trans : (j : ℕ) {s t u : Store} → Keeps j s t → Keeps j t u → Keeps j s u
Keeps-trans j h k e f b =
    let x = h e f b in
    let y = k x.now x.found x.booked in
    record {
      now = y.now;
      found = y.found;
      booked = y.booked;
      same_entry =
          y.same_entry
          ∙ ap
              (λ (m : JournalEntry). record m {
                status = y.now.status;
                reversed_by_entry_id = y.now.reversed_by_entry_id;
                updated_at = y.now.updated_at;
              })
              x.same_entry;
      same_lines = y.same_lines ∙ x.same_lines;
    }

-- Tables with the same entries and lines.
pub Keeps-same : (j : ℕ) (s s' : Store) → s'.entries ≡ s.entries → s'.lines ≡ s.lines → Keeps j s s'
unfolding find_entry
Keeps-same j s s' he hl e f b = record {
  now = e;
  found = rw he f;
  booked = b;
  same_entry = refl;
  same_lines = rw hl;
}

-- A write of one entry and of its lines, where the entry was not in the books.
pub Keeps-write :
    (j id : ℕ) (row : JournalEntry) (s s' : Store)
    → ((e : JournalEntry) → find_entry id s ≡ some e → is_booked e.status ≡ false)
    → s'.entries ≡ insert id row s.entries
    → ((k : ℕ) → (id == k) ≡ false → s'.lines k ≡ s.lines k)
    → Keeps j s s'
unfolding find_entry
Keeps-write j id row s s' free he hl e f b = elim (Bool-cases (id == j)) [
  | inl same ↦ absurd (false≢true (sym (free e (rw (==→eq id j same) f)) ∙ b))
  | inr other ↦ record {
    now = e;
    found = rw (he, lookup-insert j id row s.entries, other) f;
    booked = b;
    same_entry = refl;
    same_lines = hl j other;
  }
]

-- The mark of a reversal on an entry that is in the books.
pub Keeps-mark :
    (j id rev_id now : ℕ) (original : JournalEntry) (s s' : Store)
    → find_entry id s ≡ some original
    → s'.entries
      ≡ insert id
          (record original {
            status = reversed;
            reversed_by_entry_id = some rev_id;
            updated_at = now;
          })
          s.entries
    → s'.lines ≡ s.lines
    → Keeps j s s'
unfolding find_entry
Keeps-mark j id rev_id now original s s' found he hl e f b = elim (Bool-cases (id == j)) [
  | inl same ↦
      let is_original : original ≡ e = cc (found, f, ==→eq id j same) in
      record {
        now = record original {
          status = reversed;
          reversed_by_entry_id = some rev_id;
          updated_at = now;
        };
        found = rw (he, lookup-insert j id _ s.entries, same);
        booked = refl;
        same_entry =
            ap
              (λ (m : JournalEntry). record m {
                status = reversed;
                reversed_by_entry_id = some rev_id;
                updated_at = now;
              })
              is_original;
        same_lines = rw hl;
      }
  | inr other ↦ record {
    now = e;
    found = rw (he, lookup-insert j id _ s.entries, other) f;
    booked = b;
    same_entry = refl;
    same_lines = rw hl;
  }
]

pub not_booked_of_draft :
    (id : ℕ) (s : Store) (old : JournalEntry)
    → find_entry id s ≡ some old
    → old.status ≡ draft
    → (e : JournalEntry) → find_entry id s ≡ some e
    → is_booked e.status ≡ false
not_booked_of_draft id s old f d e g = let same : old ≡ e = cc (f, g) in rw (← same, d)

pub not_booked_of_fresh :
    (id : ℕ) (s : Store)
    → find_entry id s ≡ none
    → (e : JournalEntry) → find_entry id s ≡ some e
    → is_booked e.status ≡ false
not_booked_of_fresh id s f e g = cc (f, g)

-- The handlers of periods and rates touch no entry, no line and no counter.
abbrev pub SameEntries : Store → Store → Type 0
SameEntries s s' = (s'.entries ≡ s.entries) × (s'.lines ≡ s.lines) × (s'.years ≡ s.years)

pub close_period-SameEntries :
    (id : ℕ) (hard : Bool) (reason : Text) (user : Option ℕ) (now : ℕ) (s : Store) {s' : Store}
    → close_period id hard reason user now s ≡ ok s'
    → SameEntries s s'
unfolding close_period
close_period-SameEntries id hard reason user now s h = ground arith

pub reopen_period-SameEntries :
    (id : ℕ) (reason : Text) (user : Option ℕ) (now : ℕ) (s : Store) {s' : Store}
    → reopen_period id reason user now s ≡ ok s'
    → SameEntries s s'
unfolding reopen_period
reopen_period-SameEntries id reason user now s h = ground arith

pub approve_fx_rate-SameEntries :
    (id : ℕ) (user : Option ℕ) (now : ℕ) (s : Store) {s' : Store}
    → approve_fx_rate id user now s ≡ ok s'
    → SameEntries s s'
unfolding approve_fx_rate
approve_fx_rate-SameEntries id user now s h = ground arith

pub update_fx_rate-SameEntries :
    (id : ℕ) (rate : Raw) (s : Store) {s' : Store}
    → update_fx_rate id rate s ≡ ok s'
    → SameEntries s s'
unfolding update_fx_rate
update_fx_rate-SameEntries id rate s h = ground arith

-- ===== src/Accounting/Ledger/Effects.antt =====
-- What each handler of the service has checked and written when it goes through.
use ume_pms_v2_backend.Prelude.{
  is_empty, or_throw-eq-ok, ℕ, ◌+◌, ◌≡◌, refl, not, ◌&&◌, Option, none, some, Text, trim, Result,
  ok, err, throw_if, or_throw, >>=-eq-ok, >>-eq-ok, ok-injective, or_else, is_some, if◌then◌else◌,
  lookup, insert, id_eq, subst, sym,
}
use ume_pms_v2_backend.Accounting.Posting.Types.{
  EventType, manual, draft, void, PreparedEntry, PostingError,
}
use ume_pms_v2_backend.Accounting.Posting.Lines.{assert_iso_date, prepare_lines, assert_balanced}
use ume_pms_v2_backend.Accounting.Posting.Periods.{
  select_period, assert_period_accepts_posting, is_opening, assert_opening_balance_accounts,
  resolve_backdating,
}
use ume_pms_v2_backend.Accounting.Posting.Transitions.{
  assert_can_edit_draft, assert_can_edit_draft-eq-ok,
}
use ume_pms_v2_backend.Accounting.Posting.EntryNo.{format_entry_no}
use ume_pms_v2_backend.Accounting.Ledger.Types.{
  Journal, FiscalYear, JournalEntry, Store, CreateEntryDto, posting_step, find_entry, put_entry,
  put_lines, unknown_event_type, reversal_by_hand, source_without_type, description_missing,
  duplicate_event, entry_not_found, void_reason_missing, year_missing, journal_missing,
  entity_not_found, entity_inactive, before_accounting_start, journal_not_found,
  journal_of_other_entity, journal_inactive, no_period_covers,
}
use ume_pms_v2_backend.Accounting.Ledger.Context.{
  ResolvedContext, check_optional_date, resolve_context, breaks_event_index, next_entry_no,
}
use ume_pms_v2_backend.Accounting.Ledger.Drafts.{
  is_unknown_event, is_reversal_event, draft_row, create_draft, updated_row, update_draft,
  void_draft,
}

pub posting_step-eq-ok :
    {A : Type 0} (r : Result PostingError A) {a : A} → posting_step r ≡ ok a → r ≡ ok a
posting_step-eq-ok (ok x) h = cc
posting_step-eq-ok (err e) h = cc

pub record Numbering (s : Store) (fy_id journal_id : ℕ) (number : Text) (s' : Store) : Type 0 where
  pub fy : FiscalYear
  pub journal : Journal
  pub found : lookup fy_id s.years ≡ some fy
  pub formatted : format_entry_no journal.entry_prefix fy.year fy.next_entry_no ≡ ok number
  pub written : s' ≡ record s {
    years = insert fy_id (record fy { next_entry_no = fy.next_entry_no + 1 }) s.years;
  }

pub next_entry_no-Numbering :
    (s : Store) (fy_id journal_id : ℕ) {r : Text × Store}
    → next_entry_no s fy_id journal_id ≡ ok r
    → Numbering s fy_id journal_id r.0 r.1
unfolding next_entry_no
next_entry_no-Numbering s fy_id journal_id {r} h =
    let (fy, e1, h1) = >>=-eq-ok (or_throw (lookup fy_id s.years) year_missing) _ h in
    let (j, _, h2) = >>=-eq-ok (or_throw (s.journals journal_id) journal_missing) _ h1 in
    let (n, e3, h3) =
      >>=-eq-ok (posting_step (format_entry_no j.entry_prefix fy.year fy.next_entry_no)) _ h2 in
    subst (λ (q : Text × Store). Numbering s fy_id journal_id q.0 q.1) (ok-injective h3)
      (record {
        fy = fy;
        journal = j;
        found = or_throw-eq-ok _ _ e1;
        formatted = posting_step-eq-ok _ e3;
        written = refl;
      })

resolve_context-fx_rates :
    (s : Store) (dto : CreateEntryDto) {ctx : ResolvedContext}
    → resolve_context s dto ≡ ok ctx
    → ctx.prepare.fx_rates ≡ s.fx_rates
unfolding resolve_context
resolve_context-fx_rates s dto h =
    let (_, h1) = >>-eq-ok (posting_step (assert_iso_date dto.accounting_date)) _ h in
    let (_, h2) = >>-eq-ok (check_optional_date dto.source_document_date) _ h1 in
    let (e, _, h3) = >>=-eq-ok (or_throw (s.entities dto.legal_entity_id) entity_not_found) _ h2 in
    let (_, h4) = >>-eq-ok (throw_if (not e.is_active) entity_inactive) _ h3 in
    let (_, h5) = >>-eq-ok (throw_if _ before_accounting_start) _ h4 in
    let (j, _, h6) = >>=-eq-ok (or_throw (s.journals dto.journal_id) journal_not_found) _ h5 in
    let (_, h7) = >>-eq-ok (throw_if _ journal_of_other_entity) _ h6 in
    let (_, h8) = >>-eq-ok (throw_if (not j.is_active) journal_inactive) _ h7 in
    let (_, h9) = >>-eq-ok (throw_if _ no_period_covers) _ h8 in
    let event_type : EventType = or_else dto.accounting_event_type manual in
    let (p, _, h10) = >>=-eq-ok (posting_step (select_period event_type _)) _ h9 in
    let (_, h11) = >>-eq-ok (posting_step (assert_period_accepts_posting p event_type)) _ h10 in
    subst (λ (c : ResolvedContext). c.prepare.fx_rates ≡ s.fx_rates) (ok-injective h11) refl

pub record Created (new_id : ℕ) (today : Text) (dto : CreateEntryDto) (s s' : Store) : Type 0 where
  pub ctx : ResolvedContext
  pub prepared : PreparedEntry
  pub row : JournalEntry
  pub same_rates : ctx.prepare.fx_rates ≡ s.fx_rates
  pub is_prepared : prepare_lines dto.lines ctx.prepare ≡ ok prepared
  pub balanced : assert_balanced prepared ≡ ok tt
  pub is_draft : row.status ≡ draft
  pub no_number : row.entry_no ≡ none
  pub written : s' ≡ put_lines new_id prepared.lines (put_entry new_id row s)

pub create_draft-Created :
    (new_id : ℕ) (today : Text) (now : ℕ) (dto : CreateEntryDto) (user : Option ℕ) (s : Store)
    {s' : Store}
    → create_draft new_id today now dto user s ≡ ok s'
    → Created new_id today dto s s'
unfolding create_draft draft_row
create_draft-Created new_id today now dto user s {s'} h =
    let (ctx, e1, h1) = >>=-eq-ok (resolve_context s dto) _ h in
    let (p, e2, h2) = >>=-eq-ok (posting_step (prepare_lines dto.lines ctx.prepare)) _ h1 in
    let (e3, h3) = >>-eq-ok (posting_step (assert_balanced p)) _ h2 in
    let ev : EventType = or_else dto.accounting_event_type manual in
    let (_, h4) =
      >>-eq-ok
        (if is_opening ev
          then posting_step (assert_opening_balance_accounts p.lines ctx.prepare.accounts)
          else ok tt)
        _ h3 in
    let (back, _, h5) =
      >>=-eq-ok (posting_step (resolve_backdating dto.accounting_date today dto.backdated_reason)) _
        h4 in
    let (_, h6) = >>-eq-ok (throw_if (is_unknown_event ev) unknown_event_type) _ h5 in
    let (_, h7) = >>-eq-ok (throw_if (is_reversal_event ev) reversal_by_hand) _ h6 in
    let (_, h8) =
      >>-eq-ok
        (throw_if (is_some dto.source_id && not (is_some dto.source_type)) source_without_type) _
        h7 in
    let (_, h9) = >>-eq-ok (throw_if (is_empty (trim dto.description)) description_missing) _ h8 in
    let row : JournalEntry = draft_row dto ctx p back ev user now in
    let (_, h10) = >>-eq-ok (throw_if (breaks_event_index row s.entries) duplicate_event) _ h9 in
    record {
      ctx = ctx;
      prepared = p;
      row = row;
      is_prepared = posting_step-eq-ok _ e2;
      balanced = posting_step-eq-ok _ e3;
      same_rates = resolve_context-fx_rates s dto e1;
      is_draft = refl;
      no_number = refl;
      written = sym (ok-injective h10);
    }

pub record Updated (id : ℕ) (dto : CreateEntryDto) (s s' : Store) : Type 0 where
  pub old : JournalEntry
  pub ctx : ResolvedContext
  pub prepared : PreparedEntry
  pub row : JournalEntry
  pub found : find_entry id s ≡ some old
  pub was_draft : old.status ≡ draft
  pub same_rates : ctx.prepare.fx_rates ≡ s.fx_rates
  pub is_prepared : prepare_lines dto.lines ctx.prepare ≡ ok prepared
  pub balanced : assert_balanced prepared ≡ ok tt
  pub is_draft : row.status ≡ old.status
  pub same_number : row.entry_no ≡ old.entry_no
  pub written : s' ≡ put_lines id prepared.lines (put_entry id row s)

pub update_draft-Updated :
    (id : ℕ) (today : Text) (now : ℕ) (dto : CreateEntryDto) (s : Store) {s' : Store}
    → update_draft id today now dto s ≡ ok s'
    → Updated id dto s s'
unfolding update_draft updated_row
update_draft-Updated id today now dto s h =
    let (old, e1, h1) = >>=-eq-ok (or_throw (find_entry id s) entry_not_found) _ h in
    let (e2, h2) = >>-eq-ok (posting_step (assert_can_edit_draft old.status)) _ h1 in
    let (ctx, e3, h3) = >>=-eq-ok (resolve_context s _) _ h2 in
    let (_, h4) = >>-eq-ok (throw_if (is_empty (trim dto.description)) description_missing) _ h3 in
    let (p, e5, h5) = >>=-eq-ok (posting_step (prepare_lines dto.lines ctx.prepare)) _ h4 in
    let (e6, h6) = >>-eq-ok (posting_step (assert_balanced p)) _ h5 in
    let (back, _, h7) =
      >>=-eq-ok (posting_step (resolve_backdating dto.accounting_date today dto.backdated_reason)) _
        h6 in
    record {
      old = old;
      ctx = ctx;
      prepared = p;
      row = updated_row dto ctx p back now old;
      found = or_throw-eq-ok _ _ e1;
      was_draft = assert_can_edit_draft-eq-ok old.status (posting_step-eq-ok _ e2);
      is_prepared = posting_step-eq-ok _ e5;
      balanced = posting_step-eq-ok _ e6;
      same_rates = resolve_context-fx_rates s _ e3;
      is_draft = refl;
      same_number = refl;
      written = sym (ok-injective h7);
    }

pub record Voided (id : ℕ) (s s' : Store) : Type 0 where
  pub old : JournalEntry
  pub row : JournalEntry
  pub found : find_entry id s ≡ some old
  pub was_draft : old.status ≡ draft
  pub is_void : row.status ≡ void
  pub same_number : row.entry_no ≡ old.entry_no
  pub written : s' ≡ put_entry id row s

pub void_draft-Voided :
    (id : ℕ) (reason : Text) (now : ℕ) (s : Store) {s' : Store}
    → void_draft id reason now s ≡ ok s'
    → Voided id s s'
unfolding void_draft
void_draft-Voided id reason now s h =
    let (_, h1) = >>-eq-ok (throw_if (is_empty (trim reason)) void_reason_missing) _ h in
    let (old, e2, h2) = >>=-eq-ok (or_throw (find_entry id s) entry_not_found) _ h1 in
    let (e3, h3) = >>-eq-ok (posting_step (assert_can_edit_draft old.status)) _ h2 in
    record {
      old = old;
      row = _;
      found = or_throw-eq-ok _ _ e2;
      was_draft = assert_can_edit_draft-eq-ok old.status (posting_step-eq-ok _ e3);
      is_void = refl;
      same_number = refl;
      written = sym (ok-injective h3);
    }

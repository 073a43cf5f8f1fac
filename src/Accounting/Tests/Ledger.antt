-- ===== src/Accounting/Tests/Ledger.antt =====
-- The service of src/modules/accounting/accounting.service.ts run through the life of an entry, and
-- its theorems applied there.
use ume_pms_v2_backend.Accounting.Posting.Types.{posted, manual}
use ume_pms_v2_backend.Accounting.Posting.Reversal.{
  build_reversal_lines, reversal_from, reversal_line,
}
use ume_pms_v2_backend.Accounting.Posting.EntryNo.{
  format_entry_no, is_entry_prefix, all_prefix_chars,
}
use ume_pms_v2_backend.Accounting.Posting.Transitions.{
  assert_can_post, assert_can_reverse, assert_reversal_date,
}
use ume_pms_v2_backend.Accounting.Posting.Periods.{
  select_period, assert_period_accepts_posting, resolve_backdating, assert_date_in_period,
}
use ume_pms_v2_backend.Accounting.Posting.Lines.{
  assert_iso_date, prepare_lines, prepare_from, prepare_line, check_amounts, check_sides,
  check_account, restricted, resolve_fx, resolve_foreign, foreign_fx, check_eur, line_of,
  assert_balanced,
}
use ume_pms_v2_backend.Accounting.Ledger.Context.{
  resolve_context, candidates, breaks_event_index, same_event, next_entry_no,
}
use ume_pms_v2_backend.Prelude.{
  Bool-cases, inl, inr, some-injective, sym, ◌==◌, sort_by, insert_by, is_iso_date, text_lt,
  text_eq, trim, trim_start, to_upper, is_currency_code, lookup, insert, pad_zeros, replicate,
  decimal, digits_onto, round2, round2_mul, round2_ratio, floor_div, ◌+ℤ◌, ◌-ℤ◌, ◌*ℤ◌, ◌≡◌, refl,
  false, pos, none, some, codes, ok,
}
use ume_pms_v2_backend.Accounting.Ledger.Types.{
  put_lines, put_entry, Store, JournalEntry, find_entry,
}
use ume_pms_v2_backend.Accounting.Ledger.Drafts.{draft_row, create_draft}
use ume_pms_v2_backend.Accounting.Ledger.Post.{
  check_stored_lines, reduce_debit_eur, reduce_credit_eur, posted_row, post,
}
use ume_pms_v2_backend.Accounting.Ledger.Reverse.{
  reversal_row, reversal_period, link_reversal, reverse_entry,
}
use ume_pms_v2_backend.Accounting.Ledger.History.{
  Reach, here, next, created, was_posted, was_reversed,
}
use ume_pms_v2_backend.Accounting.Reports.Query.Rows.{IsKeyed}
use ume_pms_v2_backend.Accounting.Ledger.History.Kept.{StillBooked}
use ume_pms_v2_backend.Accounting.Ledger.History.Sound.{IsSound}
use ume_pms_v2_backend.Accounting.Ledger.History.Numbers.{AreNumbered}
use ume_pms_v2_backend.Accounting.Ledger.History.Frozen.{Reach-StillBooked}
use ume_pms_v2_backend.Accounting.Ledger.History.Lawful.{HasLegalRows, Reach-IsLawful}
use ume_pms_v2_backend.Accounting.Ledger.History.Unique.{Reach-AreNumbered}
use ume_pms_v2_backend.Accounting.Tests.{empty_book, request, after}

abbrev pub with_draft : Store
with_draft = after empty_book (create_draft 1 (codes "2025-02-10") 4000 request (some 3) empty_book)

abbrev pub with_posted : Store
with_posted = after empty_book (post 1 (some 4) 5000 with_draft)

abbrev pub with_reversed : Store
with_reversed =
    after empty_book
      (reverse_entry 1 2 (codes "wrong vessel") none (codes "2025-02-11") (some 4) 6000 with_posted)

draft_ok : create_draft 1 (codes "2025-02-10") 4000 request (some 3) empty_book ≡ ok with_draft
unfolding create_draft post reverse_entry resolve_context candidates sort_by insert_by
    assert_iso_date is_iso_date text_lt text_eq trim trim_start to_upper select_period
    assert_period_accepts_posting prepare_lines prepare_from prepare_line check_amounts check_sides
    check_account restricted resolve_fx resolve_foreign foreign_fx check_eur line_of
    is_currency_code assert_balanced resolve_backdating draft_row breaks_event_index same_event
    put_lines put_entry find_entry lookup insert assert_can_post assert_can_reverse
    assert_reversal_date assert_date_in_period check_stored_lines reduce_debit_eur reduce_credit_eur
    posted_row next_entry_no format_entry_no is_entry_prefix all_prefix_chars pad_zeros replicate
    decimal digits_onto reversal_row reversal_period build_reversal_lines reversal_from
    reversal_line link_reversal round2 round2_mul round2_ratio floor_div ◌+ℤ◌ ◌-ℤ◌ ◌*ℤ◌
draft_ok = refl

post_ok : post 1 (some 4) 5000 with_draft ≡ ok with_posted
unfolding create_draft post reverse_entry resolve_context candidates sort_by insert_by
    assert_iso_date is_iso_date text_lt text_eq trim trim_start to_upper select_period
    assert_period_accepts_posting prepare_lines prepare_from prepare_line check_amounts check_sides
    check_account restricted resolve_fx resolve_foreign foreign_fx check_eur line_of
    is_currency_code assert_balanced resolve_backdating draft_row breaks_event_index same_event
    put_lines put_entry find_entry lookup insert assert_can_post assert_can_reverse
    assert_reversal_date assert_date_in_period check_stored_lines reduce_debit_eur reduce_credit_eur
    posted_row next_entry_no format_entry_no is_entry_prefix all_prefix_chars pad_zeros replicate
    decimal digits_onto reversal_row reversal_period build_reversal_lines reversal_from
    reversal_line link_reversal round2 round2_mul round2_ratio floor_div ◌+ℤ◌ ◌-ℤ◌ ◌*ℤ◌
post_ok = refl

reverse_ok :
    reverse_entry 1 2 (codes "wrong vessel") none (codes "2025-02-11") (some 4) 6000 with_posted
    ≡ ok with_reversed
unfolding create_draft post reverse_entry resolve_context candidates sort_by insert_by
    assert_iso_date is_iso_date text_lt text_eq trim trim_start to_upper select_period
    assert_period_accepts_posting prepare_lines prepare_from prepare_line check_amounts check_sides
    check_account restricted resolve_fx resolve_foreign foreign_fx check_eur line_of
    is_currency_code assert_balanced resolve_backdating draft_row breaks_event_index same_event
    put_lines put_entry find_entry lookup insert assert_can_post assert_can_reverse
    assert_reversal_date assert_date_in_period check_stored_lines reduce_debit_eur reduce_credit_eur
    posted_row next_entry_no format_entry_no is_entry_prefix all_prefix_chars pad_zeros replicate
    decimal digits_onto reversal_row reversal_period build_reversal_lines reversal_from
    reversal_line link_reversal round2 round2_mul round2_ratio floor_div ◌+ℤ◌ ◌-ℤ◌ ◌*ℤ◌
reverse_ok = refl

fresh_1 : find_entry 1 empty_book ≡ none
unfolding find_entry lookup
fresh_1 = refl

abbrev posted_entry : JournalEntry
posted_entry = record {
  legal_entity_id = 1;
  journal_id = 1;
  fiscal_year_id = 1;
  fiscal_period_id = 102;
  entry_no = some (codes "GJ-2025-00001");
  status = posted;
  accounting_event_type = manual;
  source_document_date = codes "2025-02-10";
  accounting_date = codes "2025-02-10";
  description = codes "spare parts";
  reference = none;
  source_type = none;
  source_id = none;
  source_reference = none;
  is_backdated = false;
  backdated_reason = none;
  reversal_of_entry_id = none;
  reversed_by_entry_id = none;
  total_debit_eur = pos 9_100_000_000;
  total_credit_eur = pos 9_100_000_000;
  created_by = some 3;
  created_at = 4000;
  reviewed_by = none;
  reviewed_at = none;
  posted_by = some 4;
  posted_at = some 5000;
  updated_at = 5000;
}

posted_found : find_entry 1 with_posted ≡ some posted_entry
unfolding create_draft post reverse_entry resolve_context candidates sort_by insert_by
    assert_iso_date is_iso_date text_lt text_eq trim trim_start to_upper select_period
    assert_period_accepts_posting prepare_lines prepare_from prepare_line check_amounts check_sides
    check_account restricted resolve_fx resolve_foreign foreign_fx check_eur line_of
    is_currency_code assert_balanced resolve_backdating draft_row breaks_event_index same_event
    put_lines put_entry find_entry lookup insert assert_can_post assert_can_reverse
    assert_reversal_date assert_date_in_period check_stored_lines reduce_debit_eur reduce_credit_eur
    posted_row next_entry_no format_entry_no is_entry_prefix all_prefix_chars pad_zeros replicate
    decimal digits_onto reversal_row reversal_period build_reversal_lines reversal_from
    reversal_line link_reversal round2 round2_mul round2_ratio floor_div ◌+ℤ◌ ◌-ℤ◌ ◌*ℤ◌
posted_found = refl

fresh_2 : find_entry 2 with_posted ≡ none
unfolding create_draft post reverse_entry resolve_context candidates sort_by insert_by
    assert_iso_date is_iso_date text_lt text_eq trim trim_start to_upper select_period
    assert_period_accepts_posting prepare_lines prepare_from prepare_line check_amounts check_sides
    check_account restricted resolve_fx resolve_foreign foreign_fx check_eur line_of
    is_currency_code assert_balanced resolve_backdating draft_row breaks_event_index same_event
    put_lines put_entry find_entry lookup insert assert_can_post assert_can_reverse
    assert_reversal_date assert_date_in_period check_stored_lines reduce_debit_eur reduce_credit_eur
    posted_row next_entry_no format_entry_no is_entry_prefix all_prefix_chars pad_zeros replicate
    decimal digits_onto reversal_row reversal_period build_reversal_lines reversal_from
    reversal_line link_reversal round2 round2_mul round2_ratio floor_div ◌+ℤ◌ ◌-ℤ◌ ◌*ℤ◌
fresh_2 = refl

reversal_step : Reach with_posted with_reversed
reversal_step = next here (
    was_reversed 1 2 (codes "wrong vessel") none (codes "2025-02-11") (some 4) 6000 fresh_2
      reverse_ok)

pub life : Reach empty_book with_reversed
life =
    next
      (next (next here (created 1 (codes "2025-02-10") 4000 request (some 3) fresh_1 draft_ok))
        (was_posted 1 (some 4) 5000 post_ok))
      (was_reversed 1 2 (codes "wrong vessel") none (codes "2025-02-11") (some 4) 6000 fresh_2
        reverse_ok)

pub empty_book-IsSound : IsSound empty_book
unfolding find_entry lookup
empty_book-IsSound j e f = cc

empty_book-AreNumbered : AreNumbered empty_book
unfolding find_entry lookup
empty_book-AreNumbered = record {
  unbooked = λ j e f b. cc;
  issued = λ j e n f g. cc;
  unique = λ j k e f m n g h x y z w. cc;
}

Reach-AreNumbered_example : AreNumbered with_reversed
Reach-AreNumbered_example = Reach-AreNumbered life empty_book-AreNumbered

empty_book-HasLegalRows : HasLegalRows empty_book
unfolding text_eq
empty_book-HasLegalRows = record {
  rates = λ id row e. elim (Bool-cases (id == 7)) [
    | inl f ↦ rw (sym (some-injective _ _ (rw f at e))) refl
    | inr f ↦ cc (rw f at e)
  ];
  checks = λ j. tt;
}

Reach-IsLawful_example : HasLegalRows with_reversed × IsSound with_reversed
Reach-IsLawful_example = Reach-IsLawful life empty_book-HasLegalRows empty_book-IsSound

Reach-StillBooked_example : StillBooked 1 posted_entry with_posted with_reversed
Reach-StillBooked_example = Reach-StillBooked 1 posted_entry posted_found refl reversal_step

pub with_reversed-IsKeyed : IsKeyed with_reversed.entries
unfolding create_draft post reverse_entry resolve_context candidates sort_by insert_by
    assert_iso_date is_iso_date text_lt text_eq trim trim_start to_upper select_period
    assert_period_accepts_posting prepare_lines prepare_from prepare_line check_amounts check_sides
    check_account restricted resolve_fx resolve_foreign foreign_fx check_eur line_of
    is_currency_code assert_balanced resolve_backdating draft_row breaks_event_index same_event
    put_lines put_entry find_entry lookup insert assert_can_post assert_can_reverse
    assert_reversal_date assert_date_in_period check_stored_lines reduce_debit_eur reduce_credit_eur
    posted_row next_entry_no format_entry_no is_entry_prefix all_prefix_chars pad_zeros replicate
    decimal digits_onto reversal_row reversal_period build_reversal_lines reversal_from
    reversal_line link_reversal round2 round2_mul round2_ratio floor_div ◌+ℤ◌ ◌-ℤ◌ ◌*ℤ◌
with_reversed-IsKeyed = (refl, (refl, tt))

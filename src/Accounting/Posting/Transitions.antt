-- ===== src/Accounting/Posting/Transitions.antt =====
-- The guards of the life cycle of an entry (src/modules/accounting/accounting-posting.ts).
use ume_pms_v2_backend.Prelude.{
  ℕ, ◌≡◌, ◌↔◌, Bool, true, false, not, ◌||◌, Option, none, Text, text_lt, Result, ok, err, ◌>>◌,
  throw_if, is_some, arith, ℤ, ◌-ℤ◌, abs, pos, ltb_ℤ, IsCents,
}
use ume_pms_v2_backend.Accounting.Posting.Types.{
  EntryStatus, draft, posted, reversed, void, other_status, PostingError, entry_is_void,
  entry_is_posted, unknown_status, already_reversed, not_posted, reversal_before_original,
}
use ume_pms_v2_backend.Accounting.Posting.Lines.{assert_iso_date}

unfoldable pub assert_can_edit_draft : EntryStatus → Result PostingError (Unit {0})
assert_can_edit_draft draft = ok tt
assert_can_edit_draft void = err entry_is_void
assert_can_edit_draft _ = err entry_is_posted

unfoldable pub assert_can_post : EntryStatus → Result PostingError (Unit {0})
assert_can_post posted = err entry_is_posted
assert_can_post reversed = err entry_is_posted
assert_can_post void = err entry_is_void
assert_can_post draft = ok tt
assert_can_post other_status = err unknown_status

abbrev pub is_reversed : EntryStatus → Bool
is_reversed reversed = true
is_reversed _ = false

abbrev pub is_posted : EntryStatus → Bool
is_posted posted = true
is_posted _ = false

-- The argument is the entry's status with its `reversed_by_entry_id`.
unfoldable pub assert_can_reverse : EntryStatus → Option ℕ → Result PostingError (Unit {0})
assert_can_reverse status reversed_by = do
  throw_if (is_reversed status || is_some reversed_by) already_reversed
  throw_if (not (is_posted status)) not_posted

unfoldable pub assert_reversal_date : Text → Text → Result PostingError (Unit {0})
assert_reversal_date original_date reversal_date = do
  assert_iso_date reversal_date
  throw_if (text_lt reversal_date original_date) reversal_before_original

-- `Math.abs(a - b) < MONEY_TOL`, the tolerance 0.005
unfoldable pub money_equals : ℤ → ℤ → Bool
money_equals a b = ltb_ℤ (abs (a -ℤ b)) (pos 500_000)

pub assert_can_edit_draft-eq-ok : (s : EntryStatus) → assert_can_edit_draft s ≡ ok tt → s ≡ draft
unfolding assert_can_edit_draft
assert_can_edit_draft-eq-ok s h = ground arith

pub assert_can_post-eq-ok : (s : EntryStatus) → assert_can_post s ≡ ok tt → s ≡ draft
unfolding assert_can_post
assert_can_post-eq-ok s h = ground arith

pub assert_can_reverse-eq-ok :
    (s : EntryStatus) (r : Option ℕ) → assert_can_reverse s r ≡ ok tt → (s ≡ posted) × (r ≡ none)
unfolding assert_can_reverse
assert_can_reverse-eq-ok s r h = ground arith

-- The guards let an entry be edited exactly when they let it be posted, which is when it is a draft,
-- and let it be reversed exactly when it is posted and no entry reverses it.
pub transitions_exclusive :
    (s : EntryStatus) (r : Option ℕ)
    → ((assert_can_edit_draft s ≡ ok tt) ↔ (assert_can_post s ≡ ok tt))
      × ((assert_can_post s ≡ ok tt) ↔ (s ≡ draft))
      × ((assert_can_reverse s r ≡ ok tt) ↔ (s ≡ posted) × (r ≡ none))
unfolding assert_can_edit_draft assert_can_post assert_can_reverse
transitions_exclusive s r = ground arith

-- Two amounts in whole cents are within the tolerance only when they are the same.
pub money_equals_cents : (a b : ℤ) → IsCents a → IsCents b → money_equals a b ≡ true → a ≡ b
unfolding money_equals ◌-ℤ◌
money_equals_cents a b h k e = ground arith

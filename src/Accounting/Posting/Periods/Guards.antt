-- ===== src/Accounting/Posting/Periods/Guards.antt =====
-- What `resolveBackdating` and `assertOpeningBalanceAccounts` let through.
use ume_pms_v2_backend.Prelude.{
  Bool, is_empty, ℕ, ◌≡◌, ◌≢◌, ◌↔◌, refl, not, is_blank, any_by, trim-ink, true, false, Option,
  some, List, [], ◌∷◌, Text, text_lt, trim, ok, throw_if, >>-eq-ok, ok-injective, Bool-cases, inl,
  inr, All, or_else, throw_if-ok, subst, sym, false≢true,
}
use ume_pms_v2_backend.Accounting.Posting.Types.{
  AccountType, asset, liability, equity, revenue, expense, unknown, AccountRef, PreparedLine,
  opening_on_result_account, backdating_needs_reason,
}
use ume_pms_v2_backend.Accounting.Posting.Lines.{assert_iso_date}
use ume_pms_v2_backend.Accounting.Posting.Periods.{
  is_result_account, type_of, assert_opening_balance_accounts, Backdating, resolve_backdating,
}

-- A character that is no blank.
abbrev pub has_ink : Text → Bool
has_ink r = any_by (λ c. not (is_blank c)) r

-- chk_je_backdate_reason with the reason not blank and its ends trimmed, and the flag tells whether
-- the date is past.
pub record IsDeclared (accounting_date today : Text) (given : Option Text) (b : Backdating)
    : Type 0 where
  pub flag : b.is_backdated ≡ text_lt accounting_date today
  pub reason :
      b.is_backdated ≡ true
      → (r : Text) × (b.backdated_reason ≡ some r)
        × (r ≡ trim (or_else given []))
        × (has_ink r ≡ true)

-- An entry that `resolveBackdating` lets through is marked as backdated exactly when its date is
-- before today, and then carries the given reason without the blanks at its ends, which has a
-- character that is no blank.
pub resolve_backdating-IsDeclared :
    (accounting_date today : Text) (reason : Option Text) {b : Backdating}
    → resolve_backdating accounting_date today reason ≡ ok b
    → IsDeclared accounting_date today reason b
unfolding resolve_backdating
resolve_backdating-IsDeclared accounting_date today reason {b} h =
    let (_, h1) = >>-eq-ok (assert_iso_date today) _ h in
    elim (Bool-cases (text_lt accounting_date today)) [
      | inl past ↦
          let r : Text = trim (or_else reason []) in
          let (full, h2) =
            >>-eq-ok (throw_if (is_empty r) backdating_needs_reason) _ (rw past at h1) in
          subst (IsDeclared accounting_date today reason) (ok-injective h2) (record {
            flag = sym past;
            reason = λ _. (
              r,
              refl,
              refl,
              trim-ink (or_else reason []) (throw_if-ok _ backdating_needs_reason full),
            );
          })
      | inr not_past ↦
          subst (IsDeclared accounting_date today reason) (ok-injective (rw not_past at h1))
            (record { flag = sym not_past; reason = λ e. absurd (false≢true e) })
    ]

result_account_iff :
    (t : AccountType) → (is_result_account t ≡ false) ↔ (t ≢ revenue) × (t ≢ expense)
result_account_iff revenue = (λ h. absurd (false≢true (sym h)), λ h. absurd (h.0 refl))
result_account_iff expense = (λ h. absurd (false≢true (sym h)), λ h. absurd (h.1 refl))
result_account_iff asset = (λ _. (λ e. cc, λ e. cc), λ _. refl)
result_account_iff liability = (λ _. (λ e. cc, λ e. cc), λ _. refl)
result_account_iff equity = (λ _. (λ e. cc, λ e. cc), λ _. refl)
result_account_iff unknown = (λ _. (λ e. cc, λ e. cc), λ _. refl)

-- The guard `assertOpeningBalanceAccounts` passes exactly when the account of no line has the type
-- revenue or the type expense.
pub assert_opening_balance_accounts_iff :
    (lines : List PreparedLine) (accounts : ℕ → Option AccountRef)
    → (assert_opening_balance_accounts lines accounts ≡ ok tt)
      ↔ All
          (λ l.
            (type_of (accounts l.account_id) ≢ revenue)
            × (type_of (accounts l.account_id) ≢ expense))
          lines
unfolding assert_opening_balance_accounts
assert_opening_balance_accounts_iff [] accounts = (λ _. tt, λ _. refl)
assert_opening_balance_accounts_iff (l ∷ lines) accounts =
    let rest = assert_opening_balance_accounts_iff lines accounts in
    let iff = result_account_iff (type_of (accounts l.account_id)) in
    (
      λ h.
          let (here, there) = >>-eq-ok (throw_if _ opening_on_result_account) _ h in
          (iff.0 (throw_if-ok _ opening_on_result_account here), rest.0 there),
      λ a. rw (iff.1 a.0) (rest.1 a.1),
    )

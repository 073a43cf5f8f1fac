-- ===== src/Accounting/Ledger/History.antt =====
-- The service over time: what happens to the books under any sequence of its handlers.
pub mod Kept
pub mod Frozen
pub mod Sound
pub mod Balanced
pub mod Lawful
pub mod Numbers
pub mod Unique
use ume_pms_v2_backend.Prelude.{ℕ, ◌≡◌, Bool, Option, none, Text, ok}
use ume_pms_v2_backend.Accounting.Posting.Types.{Raw}
use ume_pms_v2_backend.Accounting.Ledger.Types.{Store, CreateEntryDto, find_entry}
use ume_pms_v2_backend.Accounting.Ledger.Drafts.{create_draft, update_draft, void_draft}
use ume_pms_v2_backend.Accounting.Ledger.Post.{post}
use ume_pms_v2_backend.Accounting.Ledger.Reverse.{reverse_entry}
use ume_pms_v2_backend.Accounting.Ledger.Closing.{close_period, reopen_period}
use ume_pms_v2_backend.Accounting.Ledger.Rates.{approve_fx_rate, update_fx_rate}

-- A handler that goes through. A new row gets an identifier that no row has; a refused handler
-- leaves the tables alone, so it is no step.
pub data Step (s : Store) : Store → Type 0 where
  created :
      (new_id : ℕ) (today : Text) (now : ℕ) (dto : CreateEntryDto) (user : Option ℕ) {s' : Store}
      → find_entry new_id s ≡ none
      → create_draft new_id today now dto user s ≡ ok s'
      → Step s s'
  updated :
      (id : ℕ) (today : Text) (now : ℕ) (dto : CreateEntryDto) {s' : Store}
      → update_draft id today now dto s ≡ ok s'
      → Step s s'
  voided :
      (id : ℕ) (reason : Text) (now : ℕ) {s' : Store}
      → void_draft id reason now s ≡ ok s'
      → Step s s'
  was_posted :
      (id : ℕ) (user : Option ℕ) (now : ℕ) {s' : Store} → post id user now s ≡ ok s' → Step s s'
  was_reversed :
      (id rev_id : ℕ) (reason : Text) (date : Option Text) (today : Text) (user : Option ℕ)
      (now : ℕ) {s' : Store}
      → find_entry rev_id s ≡ none
      → reverse_entry id rev_id reason date today user now s ≡ ok s'
      → Step s s'
  period_closed :
      (id : ℕ) (hard : Bool) (reason : Text) (user : Option ℕ) (now : ℕ) {s' : Store}
      → close_period id hard reason user now s ≡ ok s'
      → Step s s'
  period_reopened :
      (id : ℕ) (reason : Text) (user : Option ℕ) (now : ℕ) {s' : Store}
      → reopen_period id reason user now s ≡ ok s'
      → Step s s'
  rate_approved :
      (id : ℕ) (user : Option ℕ) (now : ℕ) {s' : Store}
      → approve_fx_rate id user now s ≡ ok s'
      → Step s s'
  rate_updated : (id : ℕ) (rate : Raw) {s' : Store} → update_fx_rate id rate s ≡ ok s' → Step s s'

pub data Reach (s : Store) : Store → Type 0 where
  here : Reach s s
  next : {t u : Store} → Reach s t → Step t u → Reach s u

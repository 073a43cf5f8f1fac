-- ===== src/Accounting/Posting.antt =====
-- The posting engine (src/modules/accounting/accounting-posting.ts).
pub mod Types
pub mod Lines
pub mod Constraints
pub mod Periods
pub mod Transitions
pub mod Reversal
pub mod EntryNo
pub mod CurrencyTotals

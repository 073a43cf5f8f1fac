-- ===== src/Accounting.antt =====
-- The accounting module (src/modules/accounting).
pub mod Posting
pub mod Ledger
pub mod Bridge
pub mod Cutoff
pub mod Reports
pub mod Months
pub mod Amortization
pub mod Depreciation
mod Tests

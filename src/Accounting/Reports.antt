-- ===== src/Accounting/Reports.antt =====
-- The reports from the books (src/modules/accounting/reports, and `trialBalance` of the service).
pub mod Statements
pub mod Query
pub mod TrialBalance
pub mod Service

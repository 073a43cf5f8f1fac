-- ===== src/Accounting/Ledger.antt =====
-- The accounting service (src/modules/accounting/accounting.service.ts) over its tables.
pub mod Types
pub mod Context
pub mod Drafts
pub mod Post
pub mod Reverse
pub mod Closing
pub mod Rates
pub mod Effects
pub mod Booking
pub mod History

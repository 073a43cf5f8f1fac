-- ===== src/Payments.antt =====
-- Payments of invoices (src/common/payment-derivation.ts, src/modules/payments).
pub mod Derivation
pub mod Service
pub mod CreditBatch
pub mod Batch
pub mod Ledger
mod Tests

-- ===== src/Common.antt =====
-- Rules that several parts of the server share (src/common).
pub mod CurrencyTotals
pub mod RateLimit
mod Tests

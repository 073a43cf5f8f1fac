-- ===== src/Lib.antt =====
-- The books and the payments of the UME PMS backend, a NestJS server over TypeORM and PostgreSQL.
--
-- Parts and files. Each component has a parent file or folder with its definitions, and child
-- files with what is proved of them.
--   Prelude           helpers: tests on numbers, lists, signed integers, money, text, results,
--                     sorting, maps, decimal numerals. round2 is that of accounting-posting.ts.
--   Accounting/Posting
--                     src/modules/accounting/accounting-posting.ts, a pure engine.
--     Types           its interfaces and the enumerations of accounting.constants.ts
--     Lines           num, assertIsoDate, prepareLines, assertBalanced; the body of the loop over
--                     the lines is prepare_line, a function per group of checks
--     Constraints     the CHECK constraints of the table journal_lines, and that on the sources
--                     of the table accounting_fx_rates
--     Periods         assertDateInPeriod, selectPeriod, assertOpeningBalanceAccounts,
--                     assertPeriodAcceptsPosting, resolveBackdating
--     Transitions     assertCanEditDraft, assertCanPost, assertCanReverse, assertReversalDate,
--                     moneyEquals
--     Reversal        buildReversalLines
--     EntryNo         formatEntryNo
--     CurrencyTotals  totalsByCurrency
--   Accounting/Ledger src/modules/accounting/accounting.service.ts over the tables of
--                     src/modules/accounting/entities. The service reads the tables, asks the
--                     engine, and writes.
--     Types           the tables (Store), the rows and the requests
--     Context         resolveContext, nextEntryNo, the unique index of accounting events
--     Drafts          createDraft, updateDraft, voidDraft
--     Post, Reverse   post, reverse
--     Closing, Rates  closePeriod, reopenPeriod, approveFxRate, updateFxRate
--     Effects, Booking
--                     what a handler that went through has read and written
--     History         any sequence of handlers (Step, Reach) and what it keeps
--   Payments/Derivation
--                     src/common/payment-derivation.ts
--   Payments/Service  src/modules/payments/payments.service.ts
--   Payments/Ledger   src/common/payment-ledger.ts, for hire and management invoices
--   Payments/CreditBatch
--                     assertCreditBatch of payment-derivation.ts
--   Payments/Batch    createBatch of the service
--   Accounting/Bridge src/modules/accounting/bridge/accounting-bridge.logic.ts, the lines that
--                     documents become
--   Accounting/Cutoff src/modules/accounting/revenue-cutoff.ts
--   Accounting/Months, Accounting/Depreciation
--                     src/modules/accounting/bridge/depreciation.logic.ts and
--                     depreciation-catchup.logic.ts; the loop of monthsBetween is months_loop
--   Accounting/Amortization
--                     src/modules/accounting/bridge/amortization.logic.ts: Spread for spreadAmount,
--                     Shares and Plan for planMonth
--   Accounting/Reports
--                     the reports from the tables of Accounting/Ledger
--     Query           the SQL query that they share: selection, join, groups, order
--     TrialBalance    trialBalance of accounting.service.ts
--     Statements      src/modules/accounting/reports/financial-statements.ts
--     Service         balances and statements of src/modules/accounting/reports/reports.service.ts
--   Common/CurrencyTotals
--                     src/common/currency-totals.ts
--   Common/RateLimit  src/common/rate-limit.ts
--   Receipts          src/modules/receipts/receipt-eligibility.ts
--   Tests             runs at concrete data, with the theorems applied there
--
-- State and errors. A handler of a service runs in one transaction with the rows locked, so it is a
-- function from the tables to the new tables or a refusal; a refusal rolls back, and is no step. The
-- order of concurrent requests is the order of the steps. Saving a payment whose request carries an
-- identifier overwrites the payment that has it. What the database makes up (identifiers, the day
-- and the time of the clock) is an argument; that a new identifier is fresh is a premise of the
-- step.
--
-- Values. Identifiers and users are natural numbers, since the code only compares them, and none is
-- null, undefined or the empty text. A text is the list of its character codes; trim and
-- toUpperCase work on ASCII. Dates are ISO texts, compared as the code compares them. A JavaScript
-- number that is an amount or a rate is an exact decimal, an integer count of 0.00000001: rounding
-- to cents is exact, the binary representation and Number.EPSILON in round2 are not modelled. A
-- number of a request may also be missing or unreadable (Raw); infinities are not modelled.
--
-- Fuel. The decimal digits of a number recurse on fuel, n + 1 for the number n, which has at most
-- n + 1 digits. The loop of monthsBetween counts down the 241 months that it may put out; at the
-- last of these the code throws, and so does the model, so nothing is cut off. All else recurses on
-- the structure of a list.
--
-- Parameters. The rounding of an amount to the two decimals of its column is the database's, and an
-- argument of the operations that save a payment. So are Date.parse in the cut-off, where none is
-- NaN, the database's cast of a text to a date in the reports, where none is an error of the query,
-- the order of localeCompare in the totals by currency, SHA-1 in the identifiers of depreciations,
-- and the identifier of an amortization; nothing is assumed of them, but that the dates of a request
-- are read where a theorem says so. The reports take the tables of accounts and of entities as
-- functions; what is assumed of these (each line has its account, of one of the five types, and
-- entries have distinct identifiers) are constraints of the tables, as are the sources of the rates
-- that the theorems on prepared lines assume.
--
-- Not modelled: the queries that only read rows, controllers, guards and wiring, migrations, and the
-- modules that keep registers, since they add no rule of their own over the framework; the service
-- of the bridge from documents to entries, the reports on parties and the general ledger, payroll,
-- investments, profit periods and the market indices, which are separate parts over the same engine.
-- Of the accounting service, the set-up of entities, journals, years, accounts and rates. Of a batch
-- of payments, the notes and references that are copied into its rows.
pub mod Prelude
pub mod Accounting
pub mod Payments
pub mod Receipts
pub mod Common

-- ===== src/Accounting/Posting/Constraints.antt =====
-- The CHECK constraints of the table journal_lines (src/modules/accounting/accounting.constants.ts)
-- as they read on a prepared line.
use ume_pms_v2_backend.Prelude.{
  ℕ, ◌≡◌, Bool, true, not, ◌||◌, Option, some, List, [], ◌∷◌, Text, codes, text_eq, any_by, pos,
  ◌≤ℤ◌, ◌<ℤ◌, one_unit,
}
use ume_pms_v2_backend.Accounting.Posting.Types.{eur, functional, FxRateRef, PreparedLine}
use ume_pms_v2_backend.Accounting.Posting.Lines.{is_positive}

-- `FX_SOURCES` less `FUNCTIONAL`, the sources of chk_fx_source on the table of rates
abbrev pub rate_sources : List Text
rate_sources = codes "ECB" ∷ codes "BANK" ∷ codes "MANUAL_APPROVED" ∷ codes "OTHER_APPROVED" ∷ []

abbrev pub is_rate_source : Text → Bool
is_rate_source s = any_by (λ k. text_eq s k) rate_sources

-- `fx_source IN (...)` with all of `FX_SOURCES`
abbrev pub is_fx_source : Text → Bool
is_fx_source s = text_eq s functional || is_rate_source s

-- chk_fx_source: the rows of the table of rates have its sources.
abbrev pub HasRateSources : (ℕ → Option FxRateRef) → Type 0
HasRateSources fx_rates =
    (id : ℕ) (row : FxRateRef) → fx_rates id ≡ some row → is_rate_source row.source ≡ true

-- chk_jl_nonneg, chk_jl_one_side, chk_jl_eur_side, chk_jl_fx_positive, chk_jl_eur_rate_is_one and
-- chk_jl_foreign_needs_fx. `<>` and `=` between tests are those of Booleans.
pub record HasLegalSides (l : PreparedLine) : Type 0 where
  pub debit_nonneg : pos 0 ≤ℤ l.debit
  pub credit_nonneg : pos 0 ≤ℤ l.credit
  pub debit_eur_nonneg : pos 0 ≤ℤ l.debit_eur
  pub credit_eur_nonneg : pos 0 ≤ℤ l.credit_eur
  pub one_side : is_positive l.debit ≡ not (is_positive l.credit)
  pub eur_side : is_positive l.debit_eur ≡ is_positive l.debit
  pub credit_eur_side : is_positive l.credit_eur ≡ is_positive l.credit
  pub fx_positive : pos 0 <ℤ l.fx_rate
  pub eur_rate_is_one : text_eq l.transaction_currency eur ≡ true → l.fx_rate ≡ one_unit
  pub foreign_needs_fx : text_eq l.transaction_currency eur ≡ text_eq l.fx_source functional

-- All constraints of the table, with chk_jl_fx_source.
pub record SatisfiesChecks (l : PreparedLine) : Type 0 where
  pub sides : HasLegalSides l
  pub known_source : is_fx_source l.fx_source ≡ true

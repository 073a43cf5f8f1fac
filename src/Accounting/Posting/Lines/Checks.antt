-- ===== src/Accounting/Posting/Lines/Checks.antt =====
-- What each check of a line leaves behind when it lets the line pass.
use ume_pms_v2_backend.Prelude.{
  Bool, ◌||◌, refl, >>-eq-ok, throw_if, is_some, ok-injective, subst, or_throw-eq-ok, ℕ, ◌≡◌, true,
  false, not, Option, some, Text, text_eq, text_lt, ℤ, pos, ◌≤ℤ◌, ◌<ℤ◌, IsCents, round2-IsCents,
  one_unit, ok, arith, Bool-cases, inl, inr, text_eq_refl, text_lt_irrefl, >>=-eq-ok, or_throw,
}
use ume_pms_v2_backend.Accounting.Posting.Types.{
  eur, functional, LineInput, AccountRef, FxRateRef, PrepareContext, not_numeric, fx_missing,
  fx_on_functional, fx_not_found,
}
use ume_pms_v2_backend.Accounting.Posting.Lines.{
  num, is_positive, check_sides, check_amounts, restricted, check_account, LineFx, foreign_fx,
  resolve_foreign, resolve_fx, check_eur,
}
use ume_pms_v2_backend.Accounting.Posting.Constraints.{HasRateSources, is_fx_source}

-- Whole cents, not negative, on exactly one side.
pub record IsOneSided (debit credit : ℤ) : Type 0 where
  pub debit_cents : IsCents debit
  pub credit_cents : IsCents credit
  pub debit_nonneg : pos 0 ≤ℤ debit
  pub credit_nonneg : pos 0 ≤ℤ credit
  pub one_side : is_positive debit ≡ not (is_positive credit)

pub check_sides-IsOneSided :
    (d c : ℤ) {p : ℤ × ℤ} → check_sides d c ≡ ok p → IsOneSided p.0 p.1 × (p.0 ≡ d) × (p.1 ≡ c)
unfolding check_sides
check_sides-IsOneSided d c h = ground (arith, round2-IsCents d, round2-IsCents c)

pub check_amounts-IsOneSided :
    (raw : LineInput) {p : ℤ × ℤ} → check_amounts raw ≡ ok p → IsOneSided p.0 p.1
unfolding check_amounts
check_amounts-IsOneSided raw h =
    let (d, _, h1) = >>=-eq-ok (or_throw (num raw.debit) not_numeric) _ h in
    let (c, _, h2) = >>=-eq-ok (or_throw (num raw.credit) not_numeric) _ h1 in
    (check_sides-IsOneSided d c h2).0

-- The account may carry the line.
pub record IsAllowed (ctx : PrepareContext) (ccy : Text) (a : AccountRef) : Type 0 where
  pub own_entity : a.legal_entity_id ≡ ctx.legal_entity_id
  pub active : a.is_active ≡ true
  pub postable : a.is_postable ≡ true
  pub currency_allowed : restricted a.currency_restriction ccy ≡ false

pub check_account-IsAllowed :
    (ctx : PrepareContext) (id : ℕ) (ccy : Text) {a : AccountRef}
    → check_account ctx id ccy ≡ ok a
    → IsAllowed ctx ccy a × (ctx.accounts id ≡ some a)
unfolding check_account
check_account-IsAllowed ctx id ccy h = ground arith

-- The rate of a line: 1 from the source FUNCTIONAL for the euro, and else positive, from another
-- source, and not later than the entry.
pub record IsSound (ctx : PrepareContext) (ccy : Text) (fx : LineFx) : Type 0 where
  pub rate_positive : pos 0 <ℤ fx.rate
  pub eur_rate : text_eq ccy eur ≡ true → fx.rate ≡ one_unit
  pub source_iff : text_eq ccy eur ≡ text_eq fx.source functional
  pub in_time : text_lt ctx.accounting_date fx.date ≡ false

pub foreign_fx-IsSound :
    (ctx : PrepareContext) (ccy : Text) (row : FxRateRef) {fx : LineFx}
    → text_eq ccy eur ≡ false
    → foreign_fx ctx ccy row ≡ ok fx
    → IsSound ctx ccy fx
unfolding foreign_fx
foreign_fx-IsSound ctx ccy row e h = ground arith

resolve_foreign-IsSound :
    (ctx : PrepareContext) (ccy : Text) (id : Option ℕ) {fx : LineFx}
    → text_eq ccy eur ≡ false
    → resolve_foreign ctx ccy id ≡ ok fx
    → IsSound ctx ccy fx
unfolding resolve_foreign
resolve_foreign-IsSound ctx ccy id e h =
    let (i, _, h1) = >>=-eq-ok (or_throw id fx_missing) _ h in
    let (row, _, h2) = >>=-eq-ok (or_throw (ctx.fx_rates i) fx_not_found) _ h1 in
    foreign_fx-IsSound ctx ccy row e h2

pub resolve_fx-IsSound :
    (ctx : PrepareContext) (ccy : Text) (id : Option ℕ) {fx : LineFx}
    → resolve_fx ctx ccy id ≡ ok fx
    → IsSound ctx ccy fx
unfolding resolve_fx
resolve_fx-IsSound ctx ccy id h = elim (Bool-cases (text_eq ccy eur)) [
  | inl e ↦ ground (arith, text_eq_refl functional, text_lt_irrefl ctx.accounting_date)
  | inr e ↦ resolve_foreign-IsSound ctx ccy id e (rw (resolve_fx, e) at h)
]

foreign_fx-source :
    (ctx : PrepareContext) (ccy : Text) (row : FxRateRef) {fx : LineFx}
    → foreign_fx ctx ccy row ≡ ok fx
    → fx.source ≡ row.source
unfolding foreign_fx
foreign_fx-source ctx ccy row h = ground arith

-- A line takes its source from a row of the table of rates, or it is that of the euro.
pub resolve_fx-source :
    (ctx : PrepareContext) (ccy : Text) (id : Option ℕ) {fx : LineFx}
    → HasRateSources ctx.fx_rates
    → resolve_fx ctx ccy id ≡ ok fx
    → is_fx_source fx.source ≡ true
unfolding resolve_fx resolve_foreign
resolve_fx-source ctx ccy id {fx} known h = elim (Bool-cases (text_eq ccy eur)) [
  | inl e ↦
      let g = >>-eq-ok (throw_if (is_some id) fx_on_functional) _ (rw e at h) in
      subst (λ (f : LineFx). is_fx_source f.source ≡ true) (ok-injective g.1)
        (rw (text_eq_refl functional) refl)
  | inr e ↦
      let (i, _, h1) = >>=-eq-ok (or_throw id fx_missing) _ (rw e at h) in
      let (row, er, h2) = >>=-eq-ok (or_throw (ctx.fx_rates i) fx_not_found) _ h1 in
      rw (foreign_fx-source ctx ccy row h2, known i row (or_throw-eq-ok _ _ er))
        (or_true (text_eq row.source functional))
]
  where
    or_true : (b : Bool) → b || true ≡ true
    or_true true = refl
    or_true false = refl

pub check_eur_lem :
    (amount amount_eur : ℤ)
    → check_eur amount amount_eur ≡ ok tt
    → pos 0 ≤ℤ amount_eur
    → is_positive amount ≡ true
    → is_positive amount_eur ≡ true
unfolding check_eur
check_eur_lem amount amount_eur h k p = ground arith

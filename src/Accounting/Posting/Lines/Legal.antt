-- ===== src/Accounting/Posting/Lines/Legal.antt =====
-- Where the table of rates has only its own sources, a line that `prepareLines` lets through meets all
-- constraints of the table that it is written to.
use ume_pms_v2_backend.Prelude.{
  ℕ, ◌+◌, ◌≡◌, true, not, List, [], ◌∷◌, Text, text_eq, to_upper, is_currency_code, ℤ, pos, ◌+ℤ◌,
  round2, round2_mul, ok, throw_if, >>=-eq-ok, >>-eq-ok, ok-injective, subst, All, ltb, length,
}
use ume_pms_v2_backend.Accounting.Posting.Types.{
  eur, LineInput, PrepareContext, PreparedLine, PreparedEntry, invalid_currency, in_line,
  too_few_lines, unsupported_functional_currency,
}
use ume_pms_v2_backend.Accounting.Posting.Lines.{
  assert_iso_date, check_amounts, check_account, resolve_fx, check_eur, line_of, prepare_line,
  prepare_from, prepare_lines,
}
use ume_pms_v2_backend.Accounting.Posting.Lines.Checks.{resolve_fx-source}
use ume_pms_v2_backend.Accounting.Posting.Lines.Amounts.{IsPrepared, prepare_line-IsPrepared}
use ume_pms_v2_backend.Accounting.Posting.Lines.Totals.{
  in_line-eq-ok, IsPreparedEntry, prepare_lines-IsPreparedEntry,
}
use ume_pms_v2_backend.Accounting.Posting.Constraints.{
  HasRateSources, is_fx_source, SatisfiesChecks,
}

prepare_line-source :
    (ctx : PrepareContext) (i : ℕ) (raw : LineInput) {l : PreparedLine}
    → HasRateSources ctx.fx_rates
    → prepare_line ctx i raw ≡ ok l
    → is_fx_source l.fx_source ≡ true
unfolding prepare_line line_of
prepare_line-source ctx i raw {l} known h =
    let (amounts, _, h1) = >>=-eq-ok (check_amounts raw) _ h in
    let ccy : Text = to_upper raw.transaction_currency in
    let (_, h2) = >>-eq-ok (throw_if (not (is_currency_code ccy)) invalid_currency) _ h1 in
    let (account, _, h3) = >>=-eq-ok (check_account ctx raw.account_id ccy) _ h2 in
    let (fx, efx, h4) = >>=-eq-ok (resolve_fx ctx ccy raw.fx_rate_id) _ h3 in
    let (_, h5) = >>-eq-ok (check_eur amounts.0 (round2_mul amounts.0 fx.rate)) _ h4 in
    let (_, h6) = >>-eq-ok (check_eur amounts.1 (round2_mul amounts.1 fx.rate)) _ h5 in
    subst (λ (k : PreparedLine). is_fx_source k.fx_source ≡ true) (ok-injective h6)
      (resolve_fx-source ctx ccy raw.fx_rate_id known efx)

-- Where every row of the table of rates has one of the sources of that table, a line that goes through
-- meets every constraint of the table of lines, has the number after its index, and stands on an
-- existing account of the entity that is active, postable and free for its currency.
pub prepare_line-SatisfiesChecks :
    (ctx : PrepareContext) (i : ℕ) (raw : LineInput) {l : PreparedLine}
    → HasRateSources ctx.fx_rates
    → prepare_line ctx i raw ≡ ok l
    → IsPrepared ctx i raw l × SatisfiesChecks l
prepare_line-SatisfiesChecks ctx i raw known h =
    let prepared = prepare_line-IsPrepared ctx i raw h in
    (
      prepared,
      record { sides = prepared.checks; known_source = prepare_line-source ctx i raw known h },
    )

prepare_from-SatisfiesChecks :
    (ctx : PrepareContext) (i : ℕ) (td tc : ℤ) (inputs : List LineInput) {p : PreparedEntry}
    → HasRateSources ctx.fx_rates
    → prepare_from ctx i td tc inputs ≡ ok p
    → All SatisfiesChecks p.lines
unfolding prepare_from
prepare_from-SatisfiesChecks ctx i td tc [] known h =
    subst (λ (q : PreparedEntry). All SatisfiesChecks q.lines) (ok-injective h) tt
prepare_from-SatisfiesChecks ctx i td tc (raw ∷ inputs) known h =
    let (l, el, h1) = >>=-eq-ok (in_line (i + 1) (prepare_line ctx i raw)) _ h in
    let td' : ℤ = round2 (td +ℤ l.debit_eur) in
    let tc' : ℤ = round2 (tc +ℤ l.credit_eur) in
    let (q, eq, h2) = >>=-eq-ok (prepare_from ctx (i + 1) td' tc' inputs) _ h1 in
    let here = prepare_line-SatisfiesChecks ctx i raw known (in_line-eq-ok (i + 1) _ el) in
    subst (λ (r : PreparedEntry). All SatisfiesChecks r.lines) (ok-injective h2)
      (here.1, prepare_from-SatisfiesChecks ctx (i + 1) td' tc' inputs known eq)

pub prepare_lines-SatisfiesChecks :
    (inputs : List LineInput) (ctx : PrepareContext) {p : PreparedEntry}
    → HasRateSources ctx.fx_rates
    → prepare_lines inputs ctx ≡ ok p
    → IsPreparedEntry ctx inputs p × All SatisfiesChecks p.lines
unfolding prepare_lines
prepare_lines-SatisfiesChecks inputs ctx {p} known h =
    let (_, h1) = >>-eq-ok (throw_if (ltb (length inputs) 2) too_few_lines) _ h in
    let (_, h2) = >>-eq-ok (assert_iso_date ctx.accounting_date) _ h1 in
    let (_, h3) =
      >>-eq-ok
        (throw_if (not (text_eq ctx.functional_currency eur)) unsupported_functional_currency) _
        h2 in
    (
      prepare_lines-IsPreparedEntry inputs ctx h,
      prepare_from-SatisfiesChecks ctx 0 (pos 0) (pos 0) inputs known h3,
    )

-- ===== src/Accounting/Posting/Lines/Amounts.antt =====
-- Every line that `prepareLines` lets through meets the constraints of the table that it is written
-- to, and stands on an account that may carry it.
use ume_pms_v2_backend.Prelude.{
  ℕ, ◌+◌, ◌≡◌, refl, not, some, Text, to_upper, is_currency_code, ℤ, pos, ◌≤ℤ◌, ◌<ℤ◌, round2_mul,
  IsCents, round2_mul-IsCents, round2_mul_nonneg, round2_mul_zero, ok, throw_if, >>=-eq-ok,
  >>-eq-ok, ok-injective, arith, subst,
}
use ume_pms_v2_backend.Accounting.Posting.Types.{
  LineInput, AccountRef, PrepareContext, PreparedLine, invalid_currency,
}
use ume_pms_v2_backend.Accounting.Posting.Lines.{
  is_positive, check_amounts, check_account, LineFx, resolve_fx, check_eur, line_of, prepare_line,
}
use ume_pms_v2_backend.Accounting.Posting.Lines.Checks.{
  IsOneSided, check_amounts-IsOneSided, IsAllowed, check_account-IsAllowed, IsSound,
  resolve_fx-IsSound, check_eur_lem,
}
use ume_pms_v2_backend.Accounting.Posting.Constraints.{HasLegalSides}

-- The euro side of an amount is positive exactly where the amount is.
eur_side :
    (amount rate : ℤ)
    → pos 0 ≤ℤ amount
    → pos 0 <ℤ rate
    → check_eur amount (round2_mul amount rate) ≡ ok tt
    → is_positive (round2_mul amount rate) ≡ is_positive amount
eur_side (pos ℕ.zero) rate h k e = rw (round2_mul_zero rate)
eur_side (pos (ℕ.suc n)) rate h k e = ground (
  arith,
  check_eur_lem (pos (ℕ.suc n)) (round2_mul (pos (ℕ.suc n)) rate) e,
  round2_mul_nonneg (pos (ℕ.suc n)) rate,
)
eur_side (ℤ.negsuc n) rate h k e = absurd (omega arith)

-- What a line that went through is known to be.
pub record IsPrepared (ctx : PrepareContext) (i : ℕ) (raw : LineInput) (l : PreparedLine)
    : Type 0 where
  pub checks : HasLegalSides l
  pub numbered : l.line_no ≡ i + 1
  pub debit_eur_cents : IsCents l.debit_eur
  pub credit_eur_cents : IsCents l.credit_eur
  pub account : AccountRef
  pub found : ctx.accounts raw.account_id ≡ some account
  pub allowed : IsAllowed ctx l.transaction_currency account
  pub on_account : l.account_id ≡ account.id

line_of-IsPrepared :
    (ctx : PrepareContext) (i : ℕ) (raw : LineInput) (debit credit : ℤ) (ccy : Text)
    (account : AccountRef) (fx : LineFx)
    → IsOneSided debit credit
    → IsAllowed ctx ccy account × (ctx.accounts raw.account_id ≡ some account)
    → IsSound ctx ccy fx
    → check_eur debit (round2_mul debit fx.rate) ≡ ok tt
    → check_eur credit (round2_mul credit fx.rate) ≡ ok tt
    → IsPrepared ctx i raw (line_of i raw debit credit ccy account fx)
unfolding line_of
line_of-IsPrepared ctx i raw debit credit ccy account fx sides allowed sound ed ec =
    let rate_nonneg : pos 0 ≤ℤ fx.rate = omega (arith, sound.rate_positive) in
    record {
      checks = record {
        debit_nonneg = sides.debit_nonneg;
        credit_nonneg = sides.credit_nonneg;
        debit_eur_nonneg = round2_mul_nonneg debit fx.rate sides.debit_nonneg rate_nonneg;
        credit_eur_nonneg = round2_mul_nonneg credit fx.rate sides.credit_nonneg rate_nonneg;
        one_side = sides.one_side;
        eur_side = eur_side debit fx.rate sides.debit_nonneg sound.rate_positive ed;
        credit_eur_side = eur_side credit fx.rate sides.credit_nonneg sound.rate_positive ec;
        fx_positive = sound.rate_positive;
        eur_rate_is_one = sound.eur_rate;
        foreign_needs_fx = sound.source_iff;
      };
      numbered = refl;
      debit_eur_cents = round2_mul-IsCents debit fx.rate;
      credit_eur_cents = round2_mul-IsCents credit fx.rate;
      account = account;
      found = allowed.1;
      allowed = allowed.0;
      on_account = refl;
    }

pub prepare_line-IsPrepared :
    (ctx : PrepareContext) (i : ℕ) (raw : LineInput) {l : PreparedLine}
    → prepare_line ctx i raw ≡ ok l
    → IsPrepared ctx i raw l
unfolding prepare_line
prepare_line-IsPrepared ctx i raw {l} h =
    let (amounts, ea, h1) = >>=-eq-ok (check_amounts raw) _ h in
    let ccy : Text = to_upper raw.transaction_currency in
    let (_, h2) = >>-eq-ok (throw_if (not (is_currency_code ccy)) invalid_currency) _ h1 in
    let (account, eacc, h3) = >>=-eq-ok (check_account ctx raw.account_id ccy) _ h2 in
    let (fx, efx, h4) = >>=-eq-ok (resolve_fx ctx ccy raw.fx_rate_id) _ h3 in
    let (ed, h5) = >>-eq-ok (check_eur amounts.0 (round2_mul amounts.0 fx.rate)) _ h4 in
    let (ec, h6) = >>-eq-ok (check_eur amounts.1 (round2_mul amounts.1 fx.rate)) _ h5 in
    subst (IsPrepared ctx i raw) (ok-injective h6) (
      line_of-IsPrepared ctx i raw amounts.0 amounts.1 ccy account fx
        (check_amounts-IsOneSided raw ea) (check_account-IsAllowed ctx raw.account_id ccy eacc)
        (resolve_fx-IsSound ctx ccy raw.fx_rate_id efx) ed ec)

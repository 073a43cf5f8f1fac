-- ===== src/Accounting/Posting/Lines/Totals.antt =====
-- The totals of `prepareLines` are the sums of its lines, with nothing lost to rounding, and
-- `assertBalanced` compares these.
use ume_pms_v2_backend.Prelude.{
  ℕ, ◌+◌, ◌≡◌, ◌↔◌, ◌≤◌, List, [], ◌∷◌, ℤ, pos, ◌+ℤ◌, round2, IsCents, round2-add, round2-sub,
  Result, ok, err, >>=-eq-ok, >>-eq-ok, ok-injective, arith, length, subst, ◌∙◌, sym, not, +ℤ_assoc,
  +ℤ-zero, zero-+ℤ, round2-IsCents, throw_if, ltb, text_eq, subst₂, throw_unless-ok, eqb_ℤ-sub,
  eqb_ℤ-sub_self,
}
use ume_pms_v2_backend.Accounting.Posting.Types.{
  LineInput, PrepareContext, PreparedLine, PreparedEntry, in_line, LineError, eur, unbalanced,
  too_few_lines, unsupported_functional_currency,
}
use ume_pms_v2_backend.Accounting.Posting.Lines.{
  assert_iso_date, prepare_line, prepare_from, prepare_lines, assert_balanced,
}
use ume_pms_v2_backend.Accounting.Posting.Lines.Amounts.{IsPrepared, prepare_line-IsPrepared}

abbrev pub sum_debit_eur : List PreparedLine → ℤ
sum_debit_eur [] = pos 0
sum_debit_eur (l ∷ ls) = l.debit_eur +ℤ sum_debit_eur ls

abbrev pub sum_credit_eur : List PreparedLine → ℤ
sum_credit_eur [] = pos 0
sum_credit_eur (l ∷ ls) = l.credit_eur +ℤ sum_credit_eur ls

-- The lines are those of the inputs, in order, each with what `prepare_line` establishes.
abbrev pub ArePrepared : PrepareContext → ℕ → List LineInput → List PreparedLine → Type 0
ArePrepared ctx i [] [] = Unit
ArePrepared ctx i [] (l ∷ ls) = ⊥
ArePrepared ctx i (raw ∷ raws) [] = ⊥
ArePrepared ctx i (raw ∷ raws) (l ∷ ls) = IsPrepared ctx i raw l × ArePrepared ctx (i + 1) raws ls

pub in_line-eq-ok :
    {A : Type 0} (i : ℕ) (r : Result LineError A) {a : A} → in_line i r ≡ ok a → r ≡ ok a
in_line-eq-ok i (ok x) h = cc
in_line-eq-ok i (err e) h = cc

abbrev Tallies : PrepareContext → ℕ → ℤ → ℤ → List LineInput → PreparedEntry → Type 0
Tallies ctx i td tc inputs p =
    ArePrepared ctx i inputs p.lines
    × (p.total_debit_eur ≡ td +ℤ sum_debit_eur p.lines)
    × (p.total_credit_eur ≡ tc +ℤ sum_credit_eur p.lines)
    × IsCents p.total_debit_eur
    × IsCents p.total_credit_eur

-- One more line in front: the running total is exact, so it may be taken apart.
Tallies-cons :
    (ctx : PrepareContext) (i : ℕ) (td tc : ℤ) (raw : LineInput) (inputs : List LineInput)
    (l : PreparedLine) (q : PreparedEntry)
    → IsPrepared ctx i raw l
    → IsCents td
    → IsCents tc
    → Tallies ctx (i + 1) (round2 (td +ℤ l.debit_eur)) (round2 (tc +ℤ l.credit_eur)) inputs q
    → Tallies ctx i td tc (raw ∷ inputs) (record q { lines = l ∷ q.lines })
Tallies-cons ctx i td tc raw inputs l q prepared hd hc (lines, sd, sc, cd, cc') = (
  (prepared, lines),
  sd ∙ rw (round2-add td l.debit_eur hd prepared.debit_eur_cents) (+ℤ_assoc td l.debit_eur _),
  sc ∙ rw (round2-add tc l.credit_eur hc prepared.credit_eur_cents) (+ℤ_assoc tc l.credit_eur _),
  cd,
  cc',
)

prepare_from-Tallies :
    (ctx : PrepareContext) (i : ℕ) (td tc : ℤ) (inputs : List LineInput) {p : PreparedEntry}
    → IsCents td
    → IsCents tc
    → prepare_from ctx i td tc inputs ≡ ok p
    → Tallies ctx i td tc inputs p
unfolding prepare_from
prepare_from-Tallies ctx i td tc [] hd hc h =
    subst (Tallies ctx i td tc []) (ok-injective h) (tt, sym (+ℤ-zero td), sym (+ℤ-zero tc), hd, hc)
prepare_from-Tallies ctx i td tc (raw ∷ inputs) hd hc h =
    let (l, el, h1) = >>=-eq-ok (in_line (i + 1) (prepare_line ctx i raw)) _ h in
    let td' : ℤ = round2 (td +ℤ l.debit_eur) in
    let tc' : ℤ = round2 (tc +ℤ l.credit_eur) in
    let (q, eq, h2) = >>=-eq-ok (prepare_from ctx (i + 1) td' tc' inputs) _ h1 in
    subst (Tallies ctx i td tc (raw ∷ inputs)) (ok-injective h2) (
      Tallies-cons ctx i td tc raw inputs l q
        (prepare_line-IsPrepared ctx i raw (in_line-eq-ok (i + 1) _ el)) hd hc
        (prepare_from-Tallies ctx (i + 1) td' tc' inputs (round2-IsCents _) (round2-IsCents _) eq))

-- What a successful `prepareLines` returns.
pub record IsPreparedEntry (ctx : PrepareContext) (inputs : List LineInput) (p : PreparedEntry)
    : Type 0 where
  pub lines : ArePrepared ctx 0 inputs p.lines
  pub debit : p.total_debit_eur ≡ sum_debit_eur p.lines
  pub credit : p.total_credit_eur ≡ sum_credit_eur p.lines
  pub debit_cents : IsCents p.total_debit_eur
  pub credit_cents : IsCents p.total_credit_eur
  pub two_lines : 2 ≤ length inputs

-- When `prepareLines` returns, it was given two lines or more, its lines are those of the inputs in
-- order, each numbered from 1, within every constraint of its table and on an account that may carry
-- it, and the two totals are the exact sums of the lines' amounts in euro, in whole cents.
pub prepare_lines-IsPreparedEntry :
    (inputs : List LineInput) (ctx : PrepareContext) {p : PreparedEntry}
    → prepare_lines inputs ctx ≡ ok p
    → IsPreparedEntry ctx inputs p
unfolding prepare_lines
prepare_lines-IsPreparedEntry inputs ctx {p} h =
    let (few, h1) = >>-eq-ok (throw_if (ltb (length inputs) 2) too_few_lines) _ h in
    let (_, h2) = >>-eq-ok (assert_iso_date ctx.accounting_date) _ h1 in
    let (_, h3) =
      >>-eq-ok
        (throw_if (not (text_eq ctx.functional_currency eur)) unsupported_functional_currency) _
        h2 in
    let (lines, sd, sc, cd, cc') =
      prepare_from-Tallies ctx 0 (pos 0) (pos 0) inputs (omega arith) (omega arith) h3 in
    record {
      lines = lines;
      debit = sd ∙ zero-+ℤ (sum_debit_eur p.lines);
      credit = sc ∙ zero-+ℤ (sum_credit_eur p.lines);
      debit_cents = cd;
      credit_cents = cc';
      two_lines = ground arith;
    }

pub assert_balanced-iff_totals :
    (p : PreparedEntry)
    → IsCents p.total_debit_eur
    → IsCents p.total_credit_eur
    → (assert_balanced p ≡ ok tt) ↔ (p.total_debit_eur ≡ p.total_credit_eur)
unfolding assert_balanced
assert_balanced-iff_totals p d c = rw (round2-sub p.total_debit_eur p.total_credit_eur d c) (
  λ h. eqb_ℤ-sub _ _ (throw_unless-ok _ unbalanced h),
  λ e. rw e (rw (eqb_ℤ-sub_self p.total_credit_eur)),
)

-- Of what `prepareLines` returned, `assertBalanced` accepts exactly the entries whose lines carry as
-- much debit as credit in euro, to the cent.
pub assert_balanced_iff :
    (inputs : List LineInput) (ctx : PrepareContext) {p : PreparedEntry}
    → prepare_lines inputs ctx ≡ ok p
    → (assert_balanced p ≡ ok tt) ↔ (sum_debit_eur p.lines ≡ sum_credit_eur p.lines)
assert_balanced_iff inputs ctx {p} h =
    let r = prepare_lines-IsPreparedEntry inputs ctx h in
    subst₂ (λ d c. (assert_balanced p ≡ ok tt) ↔ (d ≡ c)) r.debit r.credit
      (assert_balanced-iff_totals p r.debit_cents r.credit_cents)

-- ===== src/Accounting/Ledger/History/Sound.antt =====
-- What a sound book is: every stored line within the constraints of its table, and every entry in the
-- books balanced to the cent, with the totals of its lines and an official number.
use ume_pms_v2_backend.Prelude.{
  ℕ, ◌+◌, ◌≡◌, ◌≤◌, refl, true, false, some, List, [], ◌∷◌, ℤ, pos, ◌+ℤ◌, round2, IsCents,
  round2-add, round2_fix, +ℤ-IsCents, +ℤ_assoc, +ℤ-zero, zero-+ℤ, All, length, is_some, insert,
  lookup-insert, id_eq, ◌==◌, ==→eq, Bool-cases, inl, inr, sym, ◌∙◌, subst, subst₂, some-injective,
  arith,
}
use ume_pms_v2_backend.Accounting.Posting.Types.{LineInput, PrepareContext, PreparedLine}
use ume_pms_v2_backend.Accounting.Posting.Constraints.{HasLegalSides}
use ume_pms_v2_backend.Accounting.Posting.Lines.Totals.{sum_debit_eur, sum_credit_eur, ArePrepared}
use ume_pms_v2_backend.Accounting.Posting.Reversal.{
  reversal_line, reversal_from, build_reversal_lines, reversal_line-HasLegalSides,
}
use ume_pms_v2_backend.Accounting.Ledger.Types.{JournalEntry, Store, is_booked, find_entry}
use ume_pms_v2_backend.Accounting.Ledger.Post.{reduce_debit_eur, reduce_credit_eur}

pub record IsLegalLine (l : PreparedLine) : Type 0 where
  pub checks : HasLegalSides l
  pub debit_eur_cents : IsCents l.debit_eur
  pub credit_eur_cents : IsCents l.credit_eur

pub record IsBalanced (e : JournalEntry) (ls : List PreparedLine) : Type 0 where
  pub debit : e.total_debit_eur ≡ sum_debit_eur ls
  pub credit : e.total_credit_eur ≡ sum_credit_eur ls
  pub equal : e.total_debit_eur ≡ e.total_credit_eur
  pub two_lines : 2 ≤ length ls
  pub numbered : is_some e.entry_no ≡ true

pub record IsSoundEntry (e : JournalEntry) (ls : List PreparedLine) : Type 0 where
  pub legal : All IsLegalLine ls
  pub booked : is_booked e.status ≡ true → IsBalanced e ls

abbrev pub IsSound : Store → Type 0
IsSound s = (j : ℕ) (e : JournalEntry) → find_entry j s ≡ some e → IsSoundEntry e (s.lines j)

-- A write of one sound entry.
pub IsSound-write :
    (id : ℕ) (row : JournalEntry) (s s' : Store)
    → IsSound s
    → s'.entries ≡ insert id row s.entries
    → ((k : ℕ) → (id == k) ≡ false → s'.lines k ≡ s.lines k)
    → IsSoundEntry row (s'.lines id)
    → IsSound s'
unfolding find_entry
IsSound-write id row s s' sound he hl new j e f = elim (Bool-cases (id == j)) [
  | inl same ↦
      let g = rw (he, lookup-insert j id row s.entries, same) at f in
      subst₂ (λ (r : JournalEntry) k. IsSoundEntry r (s'.lines k)) (some-injective _ _ g)
        (==→eq id j same) new
  | inr other ↦
      let g = rw (he, lookup-insert j id row s.entries, other) at f in
      subst (IsSoundEntry e) (sym (hl j other)) (sound j e g)
]

pub IsSound-same :
    (s s' : Store) → IsSound s → s'.entries ≡ s.entries → s'.lines ≡ s.lines → IsSound s'
unfolding find_entry
IsSound-same s s' sound he hl j e f = rw hl (sound j e (rw he at f))

pub ArePrepared-legal :
    (ctx : PrepareContext) (i : ℕ) (inputs : List LineInput) (ls : List PreparedLine)
    → ArePrepared ctx i inputs ls
    → All IsLegalLine ls
ArePrepared-legal ctx i [] [] h = tt
ArePrepared-legal ctx i [] (l ∷ ls) h = absurd h
ArePrepared-legal ctx i (raw ∷ inputs) [] h = absurd h
ArePrepared-legal ctx i (raw ∷ inputs) (l ∷ ls) h = (
  record {
    checks = h.0.checks;
    debit_eur_cents = h.0.debit_eur_cents;
    credit_eur_cents = h.0.credit_eur_cents;
  },
  ArePrepared-legal ctx (i + 1) inputs ls h.1,
)

reversal_from-legal :
    (i : ℕ) (ls : List PreparedLine) → All IsLegalLine ls → All IsLegalLine (reversal_from i ls)
unfolding reversal_from reversal_line
reversal_from-legal i [] h = tt
reversal_from-legal i (l ∷ ls) h = (
  record {
    checks = reversal_line-HasLegalSides i l h.0.checks;
    debit_eur_cents = h.0.credit_eur_cents;
    credit_eur_cents = h.0.debit_eur_cents;
  },
  reversal_from-legal (i + 1) ls h.1,
)

pub build_reversal_lines-legal :
    (ls : List PreparedLine) → All IsLegalLine ls → All IsLegalLine (build_reversal_lines ls)
unfolding build_reversal_lines
build_reversal_lines-legal ls h = reversal_from-legal 0 ls h

length-reversal_from : (i : ℕ) (ls : List PreparedLine) → length (reversal_from i ls) ≡ length ls
unfolding reversal_from
length-reversal_from i [] = refl
length-reversal_from i (l ∷ ls) = omega (arith, length-reversal_from (i + 1) ls)

pub length-build_reversal_lines :
    (ls : List PreparedLine) → length (build_reversal_lines ls) ≡ length ls
unfolding build_reversal_lines
length-build_reversal_lines ls = length-reversal_from 0 ls

reduce_debit_eur-from :
    (acc : ℤ) (ls : List PreparedLine)
    → IsCents acc
    → All IsLegalLine ls
    → (reduce_debit_eur acc ls ≡ acc +ℤ sum_debit_eur ls) × IsCents (reduce_debit_eur acc ls)
unfolding reduce_debit_eur
reduce_debit_eur-from acc [] c h = (sym (+ℤ-zero acc), c)
reduce_debit_eur-from acc (l ∷ ls) c h = rw (round2-add acc l.debit_eur c h.0.debit_eur_cents) (
    let r =
      reduce_debit_eur-from (acc +ℤ l.debit_eur) ls (+ℤ-IsCents _ _ c h.0.debit_eur_cents) h.1 in
    (r.0 ∙ +ℤ_assoc acc l.debit_eur (sum_debit_eur ls), r.1))

reduce_credit_eur-from :
    (acc : ℤ) (ls : List PreparedLine)
    → IsCents acc
    → All IsLegalLine ls
    → (reduce_credit_eur acc ls ≡ acc +ℤ sum_credit_eur ls) × IsCents (reduce_credit_eur acc ls)
unfolding reduce_credit_eur
reduce_credit_eur-from acc [] c h = (sym (+ℤ-zero acc), c)
reduce_credit_eur-from acc (l ∷ ls) c h = rw (round2-add acc l.credit_eur c h.0.credit_eur_cents) (
    let r =
      reduce_credit_eur-from (acc +ℤ l.credit_eur) ls (+ℤ-IsCents _ _ c h.0.credit_eur_cents) h.1 in
    (r.0 ∙ +ℤ_assoc acc l.credit_eur (sum_credit_eur ls), r.1))

-- The totals that `post` computes from legal lines are the exact sums.
pub reduced_totals :
    (ls : List PreparedLine)
    → All IsLegalLine ls
    → (round2 (reduce_debit_eur (pos 0) ls) ≡ sum_debit_eur ls)
      × (round2 (reduce_credit_eur (pos 0) ls) ≡ sum_credit_eur ls)
reduced_totals ls h =
    let d = reduce_debit_eur-from (pos 0) ls (omega arith) h in
    let c = reduce_credit_eur-from (pos 0) ls (omega arith) h in
    (round2_fix _ d.1 ∙ (d.0 ∙ zero-+ℤ _), round2_fix _ c.1 ∙ (c.0 ∙ zero-+ℤ _))

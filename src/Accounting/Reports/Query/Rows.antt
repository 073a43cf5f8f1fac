-- ===== src/Accounting/Reports/Query/Rows.antt =====
-- The rows of the query on a sound book: whole cents, and as much debit as credit.
use ume_pms_v2_backend.Prelude.{
  ℕ, ◌≡◌, ◌≢◌, refl, Bool, true, Option, none, some, List, [], ◌∷◌, ◌++◌, Text, ℤ, ◌+ℤ◌, IsCents,
  All, All-impl, lookup, id_eq, ◌==◌, ==→eq, ==_refl, Bool-cases, Option-cases, inl, inr, is_some,
  false≢true, sym, ap, arith, zero-+ℤ, +ℤ_assoc,
}
use ume_pms_v2_backend.Accounting.Posting.Types.{PreparedLine, unknown}
use ume_pms_v2_backend.Accounting.Posting.Lines.Totals.{sum_debit_eur, sum_credit_eur}
use ume_pms_v2_backend.Accounting.Ledger.Types.{JournalEntry, Store, is_booked, find_entry}
use ume_pms_v2_backend.Accounting.Ledger.History.Sound.{
  IsLegalLine, IsBalanced, IsSoundEntry, IsSound,
}
use ume_pms_v2_backend.Accounting.Reports.Query.{
  AccountRow, LedgerRow, is_selected, join_accounts, ledger_rows,
}
use ume_pms_v2_backend.Accounting.Reports.Query.Sums.{row_total}

-- `id` is the primary key of the entries.
abbrev pub IsKeyed : List (ℕ × JournalEntry) → Type 0
IsKeyed [] = Unit
IsKeyed ((id, e) ∷ es) = (lookup id es ≡ none) × IsKeyed es

-- Every line has its account (a foreign key).
abbrev pub HasAccounts : (ℕ → Option AccountRow) → (ℕ → List PreparedLine) → Type 0
HasAccounts accounts lines =
    (id : ℕ) → All (λ (l : PreparedLine). is_some (accounts l.account_id) ≡ true) (lines id)

-- The accounts have one of the five types (a check of their table).
abbrev pub AreClassified : (ℕ → Option AccountRow) → Type 0
AreClassified accounts = (id : ℕ) (a : AccountRow) → accounts id ≡ some a → a.account_type ≢ unknown

keyed_found :
    (es : List (ℕ × JournalEntry))
    → IsKeyed es
    → All (λ (p : ℕ × JournalEntry). lookup p.0 es ≡ some p.1) es
unfolding lookup
keyed_found [] h = tt
keyed_found ((id, e) ∷ es) h = (
  rw (==_refl id) refl,
  All-impl _ _ es
      (λ p found. elim (Bool-cases (id == p.0)) [
        | inl same ↦ absurd (clash {x = p.1} (rw (==→eq id p.0 same) at h.0) found)
        | inr other ↦ rw other found
      ])
      (keyed_found es h.1),
)
  where
    clash : {o : Option JournalEntry} {x : JournalEntry} → o ≡ none → o ≡ some x → ⊥
    clash a b = cc

abbrev HasSoundLines : (ℕ → List PreparedLine) → ℕ × JournalEntry → Type 0
HasSoundLines lines (id, e) = IsSoundEntry e (lines id)

pub IsSound-All :
    (s : Store) → IsSound s → IsKeyed s.entries → All (HasSoundLines s.lines) s.entries
unfolding find_entry
IsSound-All s sound keyed =
    All-impl _ _ s.entries (λ p found. sound p.0 p.1 found) (keyed_found s.entries keyed)

pub record HasCentAmounts (r : LedgerRow) : Type 0 where
  pub debit : IsCents r.debit_eur
  pub credit : IsCents r.credit_eur

abbrev pub debit_part : LedgerRow → ℤ
debit_part r = r.debit_eur

abbrev pub credit_part : LedgerRow → ℤ
credit_part r = r.credit_eur

row_total-append :
    (part : LedgerRow → ℤ) (rs ss : List LedgerRow)
    → row_total part (rs ++ ss) ≡ row_total part rs +ℤ row_total part ss
row_total-append part [] ss = sym (zero-+ℤ (row_total part ss))
row_total-append part (r ∷ rs) ss =
    rw (row_total-append part rs ss)
      (sym (+ℤ_assoc (part r) (row_total part rs) (row_total part ss)))

All-append : {A : Type 0} (P : A → Type 0) (xs ys : List A) → All P xs → All P ys → All P (xs ++ ys)
All-append P [] ys h k = k
All-append P (x ∷ xs) ys h k = (h.0, All-append P xs ys h.1 k)

abbrev pub IsOfKnownType : LedgerRow → Type 0
IsOfKnownType r = r.account.account_type ≢ unknown

module _ (accounts : ℕ → Option AccountRow) where
  abbrev IsKnown : PreparedLine → Type 0
  IsKnown l = is_some (accounts l.account_id) ≡ true

  -- The joined lines are all there.
  joined_totals :
      (ls : List PreparedLine)
      → All IsKnown ls
      → (row_total debit_part (join_accounts accounts ls) ≡ sum_debit_eur ls)
        × (row_total credit_part (join_accounts accounts ls) ≡ sum_credit_eur ls)
  unfolding join_accounts
  joined_totals [] h = (refl, refl)
  joined_totals (l ∷ ls) h = elim (Option-cases (accounts l.account_id)) [
    | inl e ↦ absurd (false≢true (rw e at h.0))
    | inr (a, e) ↦ rw e (
      ap (◌+ℤ◌ l.debit_eur) (joined_totals ls h.1).0,
      ap (◌+ℤ◌ l.credit_eur) (joined_totals ls h.1).1,
    )
  ]

  joined-HasCentAmounts :
      (ls : List PreparedLine) → All IsLegalLine ls → All HasCentAmounts (join_accounts accounts ls)
  unfolding join_accounts
  joined-HasCentAmounts [] h = tt
  joined-HasCentAmounts (l ∷ ls) h = elim (Option-cases (accounts l.account_id)) [
    | inl e ↦ rw e (joined-HasCentAmounts ls h.1)
    | inr (a, e) ↦ rw e (
      record { debit = h.0.debit_eur_cents; credit = h.0.credit_eur_cents },
      joined-HasCentAmounts ls h.1,
    )
  ]

  joined-IsOfKnownType :
      AreClassified accounts
      → (ls : List PreparedLine) → All IsOfKnownType (join_accounts accounts ls)
  unfolding join_accounts
  joined-IsOfKnownType known [] = tt
  joined-IsOfKnownType known (l ∷ ls) = elim (Option-cases (accounts l.account_id)) [
    | inl e ↦ rw e (joined-IsOfKnownType known ls)
    | inr (a, e) ↦ rw e (known l.account_id a e, joined-IsOfKnownType known ls)
  ]

pub is_selected-is_booked :
    (entity_id : ℕ) (from to : Option Text) (e : JournalEntry)
    → is_selected entity_id from to e ≡ true
    → is_booked e.status ≡ true
unfolding is_selected
is_selected-is_booked entity_id from to e h = ground arith

module _ (accounts : ℕ → Option AccountRow) (lines : ℕ → List PreparedLine)
    (selected : JournalEntry → Bool)
    (of_booked : (e : JournalEntry) → selected e ≡ true → is_booked e.status ≡ true) where
  -- The entries of the window balance one by one, so the rows do together.
  pub ledger_rows-balance :
      (es : List (ℕ × JournalEntry))
      → HasAccounts accounts lines
      → All (HasSoundLines lines) es
      → row_total debit_part (ledger_rows accounts lines selected es)
        ≡ row_total credit_part (ledger_rows accounts lines selected es)
  unfolding ledger_rows
  ledger_rows-balance [] known sound = refl
  ledger_rows-balance ((id, e) ∷ es) known sound = elim (Bool-cases (selected e)) [
    | inl s ↦
        let b : IsBalanced e (lines id) = sound.0.booked (of_booked e s) in
        let joined = joined_totals accounts (lines id) (known id) in
        let rest : List LedgerRow = ledger_rows accounts lines selected es in
        rw
          (
            s,
            row_total-append debit_part (join_accounts accounts (lines id)) rest,
            row_total-append credit_part (join_accounts accounts (lines id)) rest,
            joined.0,
            joined.1,
            ledger_rows-balance es known sound.1,
            sym b.debit,
            sym b.credit,
            b.equal,
          )
          refl
    | inr s ↦ rw s (ledger_rows-balance es known sound.1)
  ]

  pub ledger_rows-HasCentAmounts :
      (es : List (ℕ × JournalEntry))
      → All (HasSoundLines lines) es
      → All HasCentAmounts (ledger_rows accounts lines selected es)
  unfolding ledger_rows
  ledger_rows-HasCentAmounts [] sound = tt
  ledger_rows-HasCentAmounts ((id, e) ∷ es) sound = elim (Bool-cases (selected e)) [
    | inl s ↦ rw s (
        All-append HasCentAmounts (join_accounts accounts (lines id)) _
          (joined-HasCentAmounts accounts (lines id) sound.0.legal)
          (ledger_rows-HasCentAmounts es sound.1))
    | inr s ↦ rw s (ledger_rows-HasCentAmounts es sound.1)
  ]

  pub ledger_rows-IsOfKnownType :
      (es : List (ℕ × JournalEntry))
      → AreClassified accounts
      → All IsOfKnownType (ledger_rows accounts lines selected es)
  unfolding ledger_rows
  ledger_rows-IsOfKnownType [] known = tt
  ledger_rows-IsOfKnownType ((id, e) ∷ es) known = elim (Bool-cases (selected e)) [
    | inl s ↦ rw s (
        All-append IsOfKnownType (join_accounts accounts (lines id)) _
          (joined-IsOfKnownType accounts known (lines id)) (ledger_rows-IsOfKnownType es known))
    | inr s ↦ rw s (ledger_rows-IsOfKnownType es known)
  ]

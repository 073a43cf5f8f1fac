-- ===== src/Payments/Service/Rows.antt =====
-- Which payments and applications of an invoice a save or a deletion leaves alone.
use ume_pms_v2_backend.Prelude.{
  ℕ, ◌≡◌, ◌≢◌, Option, none, refl, Bool, false, some, some-injective, List, [], ◌∷◌, Bool-cases,
  inl, inr, ◌==◌, ==→eq, lookup, insert, id_eq, if◌then◌else◌, sym, ap,
}
use mathlib.Core.Option
use ume_pms_v2_backend.Payments.Derivation.{Payment, Allocation}
use ume_pms_v2_backend.Payments.Service.{payments_of, allocations_of, touches, delete, save_payment}

-- The invoice of the payment that a request overwrites, if it names one.
abbrev pub former_owner : Option ℕ → List (ℕ × Payment) → Option ℕ
former_owner none ps = none
former_owner (some id) ps = Option.map (λ (p : Payment). p.invoice_id) (lookup id ps)

payments_of-insert :
    (j id : ℕ) (p : Payment) (ps : List (ℕ × Payment))
    → (p.invoice_id == j) ≡ false
    → ((q : Payment) → lookup id ps ≡ some q → (q.invoice_id == j) ≡ false)
    → payments_of j (insert id p ps) ≡ payments_of j ps
unfolding lookup insert payments_of
payments_of-insert j id p [] other old = rw other refl
payments_of-insert j id p ((k, q) ∷ ps) other old = elim (Bool-cases (k == id)) [
  | inl same ↦ rw (same, other, old q (rw same refl)) refl
  | inr apart ↦
      let rest = payments_of-insert j id p ps other (λ r f. old r (rw apart f)) in
      rw apart (ap (λ (l : List Payment). if q.invoice_id == j then q ∷ l else l) rest)
]

-- A saved payment concerns its invoice, and the one that the overwritten payment was of.
pub payments_of-save_payment :
    (j new_id : ℕ) (given : Option ℕ) (p : Payment) (ps : List (ℕ × Payment))
    → (p.invoice_id == j) ≡ false
    → former_owner given ps ≢ some j
    → payments_of j (save_payment new_id given p ps) ≡ payments_of j ps
unfolding save_payment payments_of
payments_of-save_payment j new_id none p ps other owner = rw other refl
payments_of-save_payment j new_id (some id) p ps other owner =
    payments_of-insert j id p ps other λ q f. elim (Bool-cases (q.invoice_id == j)) [
      | inl same ↦ absurd (owner (rw (f, ==→eq q.invoice_id j same) refl))
      | inr apart ↦ apart
    ]

pub payments_of-delete :
    (j id : ℕ) (ps : List (ℕ × Payment)) {p : Payment}
    → lookup id ps ≡ some p
    → (p.invoice_id == j) ≡ false
    → payments_of j (delete id ps) ≡ payments_of j ps
unfolding lookup payments_of delete
payments_of-delete j id [] e other = refl
payments_of-delete j id ((k, q) ∷ ps) {p} e other = elim (Bool-cases (k == id)) [
  | inl same ↦ let is_p : q ≡ p = some-injective _ _ (rw same at e) in rw same (rw (is_p, other))
  | inr apart ↦
      let rest = payments_of-delete j id ps (rw apart at e) other in
      rw apart (ap (λ (l : List Payment). if q.invoice_id == j then q ∷ l else l) rest)
]

pub allocations_of-delete :
    (j id : ℕ) (rows : List (ℕ × Allocation)) {a : Allocation}
    → lookup id rows ≡ some a
    → touches j a ≡ false
    → allocations_of j (delete id rows) ≡ allocations_of j rows
unfolding lookup allocations_of delete
allocations_of-delete j id [] e other = refl
allocations_of-delete j id ((k, b) ∷ rows) {a} e other = elim (Bool-cases (k == id)) [
  | inl same ↦
      let is_a : b ≡ a = some-injective _ _ (rw same at e) in
      rw same (
        rw is_a (
          ap (λ (t : Bool). if t then a ∷ allocations_of j rows else allocations_of j rows)
            (sym other)))
  | inr apart ↦
      let rest = allocations_of-delete j id rows (rw apart at e) other in
      rw apart (ap (λ (l : List Allocation). if touches j b then b ∷ l else l) rest)
]

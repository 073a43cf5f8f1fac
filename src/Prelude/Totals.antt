-- ===== src/Prelude/Totals.antt =====
-- A number of each value of a map, added up, and what holds of all the values.
use mathlib.Core.Path.{◌≡◌, ap}
use mathlib.Core.Logic.{inl, inr}
use mathlib.Core.List.{List, [], ◌∷◌}
use ume_pms_v2_backend.Prelude.Tests.{or_else, Bool-cases}
use ume_pms_v2_backend.Prelude.Lists.{All}
use ume_pms_v2_backend.Prelude.Int.{ℤ, pos, pos_part, neg_part, ◌+ℤ◌, int_laws}
use ume_pms_v2_backend.Prelude.Dict.{Eq, lookup, insert}

abbrev pub total {ℓ κ} : {K : Type ℓ} {V : Type κ} → (V → ℤ) → List (K × V) → ℤ
total amount [] = pos 0
total amount ((k, v) ∷ m) = amount v +ℤ total amount m

module _ {ℓ κ} {K : Type ℓ} {V : Type κ} ⦃e : Eq K⦄ where
  -- A value written over, or a new one: the old amount makes room for the new one.
  pub total-insert :
      (amount : V → ℤ) (k : K) (v d : V) (m : List (K × V))
      → amount d ≡ pos 0
      → total amount (insert k v m) +ℤ amount (or_else (lookup k m) d) ≡ total amount m +ℤ amount v
  unfolding insert lookup
  total-insert amount k v d [] h = rw h (omega int_laws)
  total-insert amount k v d ((j, w) ∷ m) h = elim (Bool-cases (e.beq j k)) [
    | inl same ↦ rw same (omega int_laws)
    | inr other ↦
        let rest = total-insert amount k v d m h in
        let up = ap pos_part rest in let down = ap neg_part rest in rw other (omega int_laws)
  ]

  pub lookup-All {μ} :
      (P : V → Type μ) (k : K) (d : V) (m : List (K × V))
      → P d
      → All (λ (p : K × V). P p.1) m
      → P (or_else (lookup k m) d)
  unfolding lookup
  lookup-All P k d [] h all = h
  lookup-All P k d ((j, w) ∷ m) h all = elim (Bool-cases (e.beq j k)) [
    | inl same ↦ rw same all.0
    | inr other ↦ rw other (lookup-All P k d m h all.1)
  ]

  pub insert-All {μ} :
      (P : V → Type μ) (k : K) (v : V) (m : List (K × V))
      → P v
      → All (λ (p : K × V). P p.1) m
      → All (λ (p : K × V). P p.1) (insert k v m)
  unfolding insert
  insert-All P k v [] h all = (h, tt)
  insert-All P k v ((j, w) ∷ m) h all = elim (Bool-cases (e.beq j k)) [
    | inl same ↦ rw same (h, all.1)
    | inr other ↦ rw other (all.0, insert-All P k v m h all.1)
  ]

-- ===== src/Prelude/Dict.antt =====
-- A `Map` or an object used as one, as an association list in the order of insertion, over any keys
-- with a lawful equality test.
use mathlib.Core.Path.{◌≡◌, refl}
use mathlib.Core.Logic.{inl, inr}
use mathlib.Core.Bool.{Bool, true, false}
use mathlib.Core.Option.{Option, none, some}
use mathlib.Core.List.{List, [], ◌∷◌}
use Prim.Native.Nat.{ℕ}
use native.Mathlib.Omega.{arith}
use ume_pms_v2_backend.Prelude.Tests.{if◌then◌else◌, ◌==◌, ==→eq, Bool-cases}
use ume_pms_v2_backend.Prelude.Strings.{Text, text_eq, text_eq→eq, text_eq_refl}

pub record Eq {ℓ} (K : Type ℓ) : Type ℓ where
  pub beq : K → K → Bool
  pub beq→eq : (a b : K) → beq a b ≡ true → a ≡ b
  pub beq_refl : (a : K) → beq a a ≡ true

pub ==_refl : (a : ℕ) → (a == a) ≡ true
==_refl a = ground arith

instance abbrev pub id_eq : Eq ℕ
id_eq = record { beq = ◌==◌; beq→eq = ==→eq; beq_refl = ==_refl }

instance abbrev pub text_eq_inst : Eq Text
text_eq_inst = record { beq = text_eq; beq→eq = text_eq→eq; beq_refl = text_eq_refl }

-- Of two keys that differ at most one is `j`.
apart {ℓ} :
    {K : Type ℓ} ⦃e : Eq K⦄ (i j k : K)
    → e.beq i k ≡ false
    → e.beq i j ≡ true
    → e.beq k j ≡ true
    → ⊥
apart ⦃e⦄ i j k p q r =
    let same : e.beq i k ≡ true = rw (e.beq→eq i j q, e.beq→eq k j r) (e.beq_refl j) in cc

swap_tests {κ} :
    {A : Type κ} (x y z : A) (a b : Bool)
    → (a ≡ true → b ≡ true → ⊥)
    → (if a then x else (if b then y else z)) ≡ (if b then y else (if a then x else z))
swap_tests x y z true true h = absurd (h refl refl)
swap_tests x y z true false h = refl
swap_tests x y z false true h = refl
swap_tests x y z false false h = refl

module _ {ℓ κ} {K : Type ℓ} {V : Type κ} ⦃e : Eq K⦄ where
  unfoldable pub lookup : K → List (K × V) → Option V
  lookup k [] = none
  lookup k ((j, v) ∷ m) = if e.beq j k then some v else lookup k m

  unfoldable pub insert : K → V → List (K × V) → List (K × V)
  insert k v [] = (k, v) ∷ []
  insert k v ((j, w) ∷ m) = if e.beq j k then (j, v) ∷ m else (j, w) ∷ insert k v m

  pub lookup-insert :
      (j k : K) (v : V) (m : List (K × V))
      → lookup j (insert k v m) ≡ (if e.beq k j then some v else lookup j m)
  unfolding lookup insert
  lookup-insert j k v [] = refl
  lookup-insert j k v ((i, w) ∷ m) = elim (Bool-cases (e.beq i k)) [
    | inl p ↦ rw (p, e.beq→eq i k p) (ground (arith))
    | inr p ↦
        rw (p, lookup-insert j k v m)
          (swap_tests (some w) (some v) (lookup j m) (e.beq i j) (e.beq k j) (apart i j k p))
  ]

-- ===== src/Prelude/Lists.antt =====
-- Lists measured and searched over the native numbers.
use Prim.Native.Nat.{ℕ, zero, suc, ◌+◌}
use mathlib.Core.Path.{◌≡◌, refl, sym, ◌∙◌}
use mathlib.Core.List.{List, [], ◌∷◌, ◌++◌, reverse, reverse-cons}
use mathlib.Core.Logic.{inl, inr}
use mathlib.Core.Option.{Option, none, some}
use mathlib.Core.Bool.{Bool, true, false, ◌||◌, false≢true}
use native.Mathlib.Omega.{arith}
use ume_pms_v2_backend.Prelude.Tests.{if◌then◌else◌, Bool-cases}

module _ {ℓ} {A : Type ℓ} where
  abbrev pub length : List A → ℕ
  length [] = 0
  length (x ∷ xs) = suc (length xs)

  pub length-append : (xs ys : List A) → length (xs ++ ys) ≡ length xs + length ys
  length-append [] ys = omega arith
  length-append (x ∷ xs) ys = omega (arith, length-append xs ys)

  -- `xs.filter(p)`
  abbrev pub keep : (A → Bool) → List A → List A
  keep p [] = []
  keep p (x ∷ xs) = if p x then x ∷ keep p xs else keep p xs

  -- `xs.find(p)`
  abbrev pub find_by : (A → Bool) → List A → Option A
  find_by p [] = none
  find_by p (x ∷ xs) = if p x then some x else find_by p xs

  -- `xs.some(p)`
  abbrev pub any_by : (A → Bool) → List A → Bool
  any_by p [] = false
  any_by p (x ∷ xs) = p x || any_by p xs

  pub any_by-append :
      (p : A → Bool) (xs ys : List A) → any_by p (xs ++ ys) ≡ any_by p xs || any_by p ys
  any_by-append p [] ys = refl
  any_by-append p (x ∷ xs) ys =
      rw (any_by-append p xs ys) (elim (Bool-cases (p x)) [ inl e ↦ rw e refl | inr e ↦ rw e refl ])

  pub any_by-reverse : (p : A → Bool) (xs : List A) → any_by p (reverse xs) ≡ any_by p xs
  any_by-reverse p [] = refl
  any_by-reverse p (x ∷ xs) =
      rw (reverse-cons x xs, any_by-append p (reverse xs) (x ∷ []), any_by-reverse p xs)
        (ends (p x) (any_by p xs))
    where
      ends : (b c : Bool) → c || (b || false) ≡ b || c
      ends true true = refl
      ends true false = refl
      ends false true = refl
      ends false false = refl

  -- A predicate that holds of each member.
  abbrev pub All {κ} : (A → Type κ) → List A → Type κ
  All P [] = Unit
  All P (x ∷ xs) = P x × All P xs

  pub All-keep {κ} : (P : A → Type κ) (p : A → Bool) (xs : List A) → All P xs → All P (keep p xs)
  All-keep P p [] h = tt
  All-keep P p (x ∷ xs) h = ground (arith, All-keep P p xs h.1)

  pub All-impl {κ μ} :
      (P : A → Type κ) (Q : A → Type μ) (xs : List A) → ((x : A) → P x → Q x) → All P xs → All Q xs
  All-impl P Q [] f h = tt
  All-impl P Q (x ∷ xs) f h = (f x h.0, All-impl P Q xs f h.1)

  -- What holds of the members that a filter keeps.
  pub All-keep_back {κ} :
      (P : A → Type κ) (p : A → Bool) (xs : List A)
      → All P (keep p xs)
      → All (λ x. p x ≡ true → P x) xs
  All-keep_back P p [] h = tt
  All-keep_back P p (x ∷ xs) h = elim (Bool-cases (p x)) [
    | inl e ↦ let k : P x × All P (keep p xs) = rw e at h in (λ _. k.0, All-keep_back P p xs k.1)
    | inr e ↦ (λ t. absurd (false≢true (sym e ∙ t)), All-keep_back P p xs (rw e at h))
  ]

  pub keep-All : (p : A → Bool) (xs : List A) → All (λ x. p x ≡ true) (keep p xs)
  keep-All p [] = tt
  keep-All p (x ∷ xs) = elim (Bool-cases (p x)) [
    | inl e ↦ rw e (e, keep-All p xs)
    | inr e ↦ rw e (keep-All p xs)
  ]

  abbrev pub take : ℕ → List A → List A
  take zero xs = []
  take (suc n) [] = []
  take (suc n) (x ∷ xs) = x ∷ take n xs

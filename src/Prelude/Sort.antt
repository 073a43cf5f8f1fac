-- ===== src/Prelude/Sort.antt =====
-- `[...xs].sort(…)`: a stable sort, over any comparison that is total and transitive.
use mathlib.Core.Path.{◌≡◌, refl}
use mathlib.Core.Logic.{◌⊎◌, inl, inr}
use mathlib.Core.Bool.{Bool, true, false}
use mathlib.Core.List.{List, [], ◌∷◌}
use ume_pms_v2_backend.Prelude.Tests.{if◌then◌else◌, Bool-cases}
use ume_pms_v2_backend.Prelude.Lists.{All, All-impl}

-- Membership by position.
abbrev pub Elem : {A : Type 0} → A → List A → Type 0
Elem a [] = ⊥
Elem a (x ∷ xs) = (a ≡ x) ⊎ Elem a xs

pub All-Elem : {A : Type 0} (xs : List A) → All (λ x. Elem x xs) xs
All-Elem [] = tt
All-Elem (x ∷ xs) = (inl refl, All-impl _ _ xs (λ y m. inr m) (All-Elem xs))

module _ {ℓ} {A : Type ℓ} (le : A → A → Bool) where
  unfoldable pub insert_by : A → List A → List A
  insert_by x [] = x ∷ []
  insert_by x (y ∷ ys) = if le x y then x ∷ y ∷ ys else y ∷ insert_by x ys

  unfoldable pub sort_by : List A → List A
  sort_by [] = []
  sort_by (x ∷ xs) = insert_by x (sort_by xs)

  abbrev pub IsSorted : List A → Type 0
  IsSorted [] = Unit
  IsSorted (x ∷ xs) = All (λ y. le x y ≡ true) xs × IsSorted xs

  pub All-insert_by {κ} :
      (P : A → Type κ) (x : A) (s : List A) → P x → All P s → All P (insert_by x s)
  unfolding insert_by
  All-insert_by P x [] p h = (p, tt)
  All-insert_by P x (y ∷ ys) p h = elim (Bool-cases (le x y)) [
    | inl e ↦ rw e (p, h)
    | inr e ↦ rw e (h.0, All-insert_by P x ys p h.1)
  ]

  pub All-insert_by_back {κ} :
      (P : A → Type κ) (x : A) (s : List A) → All P (insert_by x s) → P x × All P s
  unfolding insert_by
  All-insert_by_back P x [] h = h
  All-insert_by_back P x (y ∷ ys) h = elim (Bool-cases (le x y)) [
    | inl e ↦ rw e at h
    | inr e ↦
        let k : P y × All P (insert_by x ys) = rw e at h in
        let r = All-insert_by_back P x ys k.1 in (r.0, (k.0, r.1))
  ]

  pub All-sort_by_back {κ} : (P : A → Type κ) (xs : List A) → All P (sort_by xs) → All P xs
  unfolding sort_by
  All-sort_by_back P [] h = tt
  All-sort_by_back P (x ∷ xs) h =
      let r = All-insert_by_back P x (sort_by xs) h in (r.0, All-sort_by_back P xs r.1)

  pub All-sort_by {κ} : (P : A → Type κ) (xs : List A) → All P xs → All P (sort_by xs)
  unfolding sort_by
  All-sort_by P [] h = tt
  All-sort_by P (x ∷ xs) h = All-insert_by P x (sort_by xs) h.0 (All-sort_by P xs h.1)

  module _ (total : (x y : A) → le x y ≡ false → le y x ≡ true)
      (trans : (x y z : A) → le x y ≡ true → le y z ≡ true → le x z ≡ true) where
    All-le :
        (x y : A) (s : List A)
        → le x y ≡ true
        → All (λ z. le y z ≡ true) s
        → All (λ z. le x z ≡ true) s
    All-le x y [] e h = tt
    All-le x y (z ∷ s) e h = (trans x y z e h.0, All-le x y s e h.1)

    pub insert_by-IsSorted : (x : A) (s : List A) → IsSorted s → IsSorted (insert_by x s)
    unfolding insert_by
    insert_by-IsSorted x [] h = (tt, tt)
    insert_by-IsSorted x (y ∷ ys) h = elim (Bool-cases (le x y)) [
      | inl e ↦ rw e ((e, All-le x y ys e h.0), h)
      | inr e ↦
          rw e
            (All-insert_by (λ z. le y z ≡ true) x ys (total x y e) h.0, insert_by-IsSorted x ys h.1)
    ]

    pub sort_by-IsSorted : (xs : List A) → IsSorted (sort_by xs)
    unfolding sort_by
    sort_by-IsSorted [] = tt
    sort_by-IsSorted (x ∷ xs) = insert_by-IsSorted x (sort_by xs) (sort_by-IsSorted xs)

    -- The first of the sorted list comes before every member.
    pub sort_by_least :
        (refl_le : (x : A) → le x x ≡ true) (xs : List A) {y : A} {ys : List A}
        → sort_by xs ≡ y ∷ ys
        → All (λ z. le y z ≡ true) xs
    sort_by_least refl_le xs {y} {ys} e =
        let sorted : IsSorted (y ∷ ys) = rw e at (sort_by-IsSorted xs) in
        All-sort_by_back (λ z. le y z ≡ true) xs (rw e (refl_le y, sorted.0))

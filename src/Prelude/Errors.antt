-- ===== src/Prelude/Errors.antt =====
-- A handler that returns or throws.
use mathlib.Core.Path.{◌≡◌, refl}
use mathlib.Core.Bool.{Bool, true, false, not}
use mathlib.Core.Option.{Option, none, some}

pub data Result {ℓ κ} (E : Type ℓ) (A : Type κ) : Type (ℓ ⊔ κ) where
  ok : A → Result E A
  err : E → Result E A

infixl 5 ◌>>=◌ ◌>>◌
abbrev pub ◌>>=◌ {ℓ κ μ} :
    {E : Type ℓ} {A : Type κ} {B : Type μ} → Result E A → (A → Result E B) → Result E B
err refusal >>= next = err refusal
ok value >>= next = next value

abbrev pub ◌>>◌ {ℓ κ} : {E : Type ℓ} {B : Type κ} → Result E (Unit {0}) → Result E B → Result E B
err refusal >> rest = err refusal
ok done >> rest = rest

-- `if (bad) throw e`
abbrev pub throw_if {ℓ} : {E : Type ℓ} → Bool → E → Result E (Unit {0})
throw_if true e = err e
throw_if false e = ok tt

-- `if (x === undefined) throw e`
abbrev pub or_throw {ℓ κ} : {E : Type ℓ} {A : Type κ} → Option A → E → Result E A
or_throw none e = err e
or_throw (some a) e = ok a

-- Inversion of a bind and of a guard that went through.
pub >>=-eq-ok {ℓ κ μ} :
    {E : Type ℓ} {A : Type κ} {B : Type μ} (step : Result E A) (next : A → Result E B) {last : B}
    → (step >>= next) ≡ ok last
    → (value : A) × (step ≡ ok value) × (next value ≡ ok last)
>>=-eq-ok (err refusal) next went = cc
>>=-eq-ok (ok value) next went = (value, refl, went)

pub >>-eq-ok {ℓ κ} :
    {E : Type ℓ} {B : Type κ} (guard : Result E (Unit {0})) (rest : Result E B) {last : B}
    → (guard >> rest) ≡ ok last
    → (guard ≡ ok tt) × (rest ≡ ok last)
>>-eq-ok (err refusal) rest went = cc
>>-eq-ok (ok done) rest went = (refl, went)

pub ok-injective {ℓ κ} :
    {E : Type ℓ} {A : Type κ} {a b : A} → ◌≡◌ {A = Result E A} (ok a) (ok b) → a ≡ b
ok-injective h = cc

pub throw_unless-ok {ℓ} : {E : Type ℓ} (b : Bool) (e : E) → throw_if (not b) e ≡ ok tt → b ≡ true
throw_unless-ok true e h = refl
throw_unless-ok false e h = cc

pub throw_if-ok {ℓ} : {E : Type ℓ} (b : Bool) (e : E) → throw_if b e ≡ ok tt → b ≡ false
throw_if-ok true e h = cc
throw_if-ok false e h = refl

pub or_throw-eq-ok {ℓ κ} :
    {E : Type ℓ} {A : Type κ} (o : Option A) (e : E) {a : A} → or_throw o e ≡ ok a → o ≡ some a
or_throw-eq-ok none e h = cc
or_throw-eq-ok (some x) e h = cc

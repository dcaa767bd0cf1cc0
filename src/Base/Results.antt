-- ===== src/Base/Results.antt =====
-- `(A, error)`: a value, or the error that took its place.
use mathlib.Core.Path.{◌≡◌, refl}
use mathlib.Core.Logic.{◌⊎◌, inl, inr}
use mathlib.Core.Bool.{Bool, true, false}
use mathlib.Core.Option.{Option, none, some}

pub data Result {ℓ κ} (E : Type ℓ) (A : Type κ) : Type (ℓ ⊔ κ) where
  ok : A → Result E A
  err : E → Result E A

module _ {ℓ} {E : Type ℓ} where
  infixl 5 ◌>>=◌ ◌>>◌
  abbrev pub ◌>>=◌ {κ μ} : {A : Type κ} {B : Type μ} → Result E A → (A → Result E B) → Result E B
  ok a >>= f = f a
  err e >>= f = err e

  abbrev pub ◌>>◌ {μ} : {B : Type μ} → Result E (Unit {0}) → Result E B → Result E B
  m >> k = m >>= λ _. k

  -- `if refused { return err }`
  abbrev pub refuse : Bool → E → Result E (Unit {0})
  refuse true e = err e
  refuse false e = ok tt

  -- A parse that may fail.
  abbrev pub or_fail {κ} : {A : Type κ} → Option A → E → Result E A
  or_fail none e = err e
  or_fail (some a) e = ok a

  pub Result-cases {κ} :
      {A : Type κ} (r : Result E A) → ((a : A) × (r ≡ ok a)) ⊎ ((e : E) × (r ≡ err e))
  Result-cases (ok a) = inl (a, refl)
  Result-cases (err e) = inr (e, refl)

  pub ok-injective {κ} : {A : Type κ} (a b : A) → ◌≡◌ {A = Result E A} (ok a) (ok b) → a ≡ b
  ok-injective a b e = cc

  -- What a chain that succeeds says of its first step.
  pub bind-ok {κ μ} :
      {A : Type κ} {B : Type μ} (m : Result E A) (k : A → Result E B) (b : B)
      → (m >>= k) ≡ ok b
      → (a : A) × (m ≡ ok a) × (k a ≡ ok b)
  bind-ok (ok a) k b e = (a, refl, e)
  bind-ok (err x) k b e = cc

-- ===== src/Prelude/Results.antt =====
-- A Go pair of a value and an `error` of which one is meaningful.
use mathlib.Core.Path.{◌≡◌, refl}
use mathlib.Core.Logic.{◌⊎◌, inl, inr}

pub data Result {ℓ} (E A : Type ℓ) : Type ℓ where
  ok : A → Result E A
  err : E → Result E A

module _ {ℓ} {E A : Type ℓ} where
  infixl 5 ◌>>=◌
  infixl 5 ◌>>◌
  -- the early return of an error
  abbrev pub ◌>>=◌ : {B : Type ℓ} → Result E A → (A → Result E B) → Result E B
  err failure >>= next = err failure
  ok value >>= next = next value

  -- a step whose value nobody needs
  abbrev pub ◌>>◌ : {B : Type ℓ} → Result E A → Result E B → Result E B
  step >> rest = step >>= λ value. rest

  pub Result-cases : (r : Result E A) → ((a : A) × (r ≡ ok a)) ⊎ ((e : E) × (r ≡ err e))
  Result-cases (err failure) = inr (failure, refl)
  Result-cases (ok value) = inl (value, refl)

  -- Inversion of a successful bind.
  pub >>=-eq-ok :
      {B : Type ℓ} (m : Result E A) (f : A → Result E B) {b : B}
      → (m >>= f) ≡ ok b
      → (a : A) × (m ≡ ok a) × (f a ≡ ok b)
  >>=-eq-ok (err failure) f h = cc
  >>=-eq-ok (ok value) f h = (value, refl, h)

  pub ok-injective : {a b : A} → ◌≡◌ {A = Result E A} (ok a) (ok b) → a ≡ b
  ok-injective h = cc

  pub err-injective : {d e : E} → ◌≡◌ {A = Result E A} (err d) (err e) → d ≡ e
  err-injective h = cc

  pub err-ne-ok : {e : E} {a : A} → ◌≡◌ {A = Result E A} (err e) (ok a) → ⊥
  err-ne-ok h = cc

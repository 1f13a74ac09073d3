-- ===== src/Dict.antt =====
-- A Go map with text keys, as the list of its pairs.
use text.Mathlib.TextPositions.{eq_refl}
use shinzo_generator_client.Prelude.{
  ℕ, ◌+◌, String, ◌≡◌, ◌≢◌, List, [], ◌∷◌, ◌++◌, Option, none, some, arith, str_eq, eq_iff,
  if◌then◌else◌, length, length-append, total, Bool-cases, inl, inr, some-ne-none,
}

abbrev pub Dict {ℓ} : Type ℓ → Type ℓ
Dict V = List (String × V)

module _ {ℓ} {V : Type ℓ} where
  unfoldable pub lookup : String → Dict V → Option V
  lookup k [] = none
  lookup k ((j, v) ∷ m) = if str_eq j k then some v else lookup k m

  -- m[k] = v
  unfoldable pub put : String → V → Dict V → Dict V
  put k v [] = (k, v) ∷ []
  put k v ((j, w) ∷ m) = if str_eq j k then (k, v) ∷ m else (j, w) ∷ put k v m

-- m[k] = append(m[k], vs...)
unfoldable pub append_at {ℓ} : {A : Type ℓ} → String → List A → Dict (List A) → Dict (List A)
append_at k vs [] = (k, vs) ∷ []
append_at k vs ((j, ws) ∷ m) = if str_eq j k then (j, ws ++ vs) ∷ m else (j, ws) ∷ append_at k vs m

-- the number of values that the lists of a map hold
abbrev pub size {ℓ} : {A : Type ℓ} → Dict (List A) → ℕ
size = total (λ p. length p.1)

pub size-append_at {ℓ} :
    {A : Type ℓ} (k : String) (vs : List A) (m : Dict (List A))
    → size (append_at k vs m) ≡ size m + length vs
unfolding append_at
size-append_at k vs [] = omega arith
size-append_at k vs ((j, ws) ∷ m) = elim (Bool-cases (str_eq j k)) [
  | inl h ↦ rw h (omega (arith, length-append {ℓ} ws vs))
  | inr h ↦ rw h (omega (arith, size-append_at k vs m))
]

pub lookup-append_at_ne {ℓ} :
    {A : Type ℓ} (k j : String) (vs : List A) (m : Dict (List A))
    → k ≢ j
    → lookup k m ≡ none
    → lookup k (append_at j vs m) ≡ none
unfolding lookup append_at
lookup-append_at_ne k j vs [] ne h = ground (arith, eq_iff j k)
lookup-append_at_ne k j vs ((i, ws) ∷ m) ne h =
    ground (arith, eq_iff i j, eq_iff i k, eq_iff j k, lookup-append_at_ne k j vs m ne)

pub size-put {ℓ} :
    {A : Type ℓ} (k : String) (vs : List A) (m : Dict (List A))
    → lookup k m ≡ none
    → size (put k vs m) ≡ size m + length vs
unfolding lookup put
size-put k vs [] h = omega arith
size-put k vs ((j, ws) ∷ m) h = elim (Bool-cases (str_eq j k)) [
  | inl same ↦ absurd (some-ne-none (rw same at h))
  | inr other ↦ rw other (omega (arith, size-put k vs m (rw other at h)))
]

pub lookup-put_self {ℓ} :
    {V : Type ℓ} (k : String) (v : V) (m : Dict V) → lookup k (put k v m) ≡ some v
unfolding lookup put
lookup-put_self k v [] = rw (eq_refl k)
lookup-put_self k v ((j, w) ∷ m) = elim (Bool-cases (str_eq j k)) [
  | inl same ↦ rw same (rw (eq_refl k))
  | inr other ↦ rw other (rw other (lookup-put_self k v m))
]

pub lookup-put_ne {ℓ} :
    {V : Type ℓ} (k j : String) (v : V) (m : Dict V) → k ≢ j → lookup k (put j v m) ≡ lookup k m
unfolding lookup put
lookup-put_ne k j v [] ne = ground (arith, eq_iff j k)
lookup-put_ne k j v ((i, w) ∷ m) ne =
    ground (arith, eq_iff i j, eq_iff i k, eq_iff j k, lookup-put_ne k j v m ne)

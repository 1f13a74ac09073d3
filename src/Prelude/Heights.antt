-- ===== src/Prelude/Heights.antt =====
-- A Go map with heights as keys, as the list of its pairs: at most one pair counts for a height.
use Prim.Native.Nat.{ℕ, ◌≤◌, ◌<◌}
use mathlib.Core.Path.{◌≡◌, refl}
use mathlib.Core.Logic.{◌≢◌, inl, inr}
use mathlib.Core.Option.{Option, none, some}
use mathlib.Core.List.{List, [], ◌∷◌}
use native.Mathlib.Omega.{arith}
use shinzo_generator_client.Prelude.Tests.{◌==◌, if◌then◌else◌, Bool-cases, ==_iff, some-inj}
use shinzo_generator_client.Prelude.Lists.{length, All}

abbrev pub Heights {ℓ} : Type ℓ → Type ℓ
Heights V = List (ℕ × V)

module _ {ℓ} {V : Type ℓ} where
  unfoldable pub find : ℕ → Heights V → Option V
  find k [] = none
  find k ((j, v) ∷ m) = if j == k then some v else find k m

  -- delete(m, k)
  unfoldable pub remove : ℕ → Heights V → Heights V
  remove k [] = []
  remove k ((j, v) ∷ m) = let rest = remove k m in if j == k then rest else (j, v) ∷ rest

  -- m[k] = v
  abbrev pub store : ℕ → V → Heights V → Heights V
  store k v m = (k, v) ∷ remove k m

  pub find-remove_self : (k : ℕ) (m : Heights V) → find k (remove k m) ≡ none
  unfolding find remove
  find-remove_self k [] = refl
  find-remove_self k ((j, v) ∷ m) = ground (arith, find-remove_self k m)

  pub find-remove_ne : (k j : ℕ) (m : Heights V) → k ≢ j → find j (remove k m) ≡ find j m
  unfolding find remove
  find-remove_ne k j [] ne = refl
  find-remove_ne k j ((i, v) ∷ m) ne = ground (arith, find-remove_ne k j m)

  pub length-remove-le : (k : ℕ) (m : Heights V) → length (remove k m) ≤ length m
  unfolding remove
  length-remove-le k [] = omega arith
  length-remove-le k ((j, v) ∷ m) = ground (arith, length-remove-le k m)

  pub length-remove-lt :
      (k : ℕ) (m : Heights V) (v : V) → find k m ≡ some v → length (remove k m) < length m
  unfolding find remove
  length-remove-lt k [] v h = absurd (none-ne-some h)
    where
      none-ne-some : {w : V} → none ≡ some w → ⊥
      none-ne-some e = cc
  length-remove-lt k ((j, v) ∷ m) w h = elim (Bool-cases (j == k)) [
    | inl same ↦ rw same (omega (arith, length-remove-le k m))
    | inr other ↦ rw other (omega (arith, length-remove-lt k m w (rw other at h)))
  ]

-- every value stands under its own number
abbrev pub KeyedBy {ℓ} : {V : Type ℓ} → (V → ℕ) → Heights V → Type 0
KeyedBy f = All (λ p. f p.1 ≡ p.0)

module _ {ℓ} {V : Type ℓ} (f : V → ℕ) where
  pub remove-KeyedBy : (k : ℕ) (m : Heights V) → KeyedBy f m → KeyedBy f (remove k m)
  unfolding remove
  remove-KeyedBy k [] h = tt
  remove-KeyedBy k ((j, v) ∷ m) h = elim (Bool-cases (j == k)) [
    | inl same ↦ rw same (remove-KeyedBy k m h.1)
    | inr other ↦ rw other (h.0, remove-KeyedBy k m h.1)
  ]

  pub find-KeyedBy : (k : ℕ) (m : Heights V) (v : V) → KeyedBy f m → find k m ≡ some v → f v ≡ k
  unfolding find
  find-KeyedBy k [] v h e = cc
  find-KeyedBy k ((j, w) ∷ m) v h e = elim (Bool-cases (j == k)) [
    | inl same ↦
        let here : w ≡ v = some-inj (rw same at e) in
        let num = (==_iff j k).0 same in rw (← here) (omega (arith, h.0))
    | inr other ↦ find-KeyedBy k m v h.1 (rw other at e)
  ]

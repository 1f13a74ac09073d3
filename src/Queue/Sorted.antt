-- ===== src/Queue/Sorted.antt =====
-- What `sort.Slice` by block number promises: the same entries, in ascending order.
use mathlib.Core.Logic.{∥∥₁_elim}
use mathlib.Core.List.{Perm, Permᴰ}
use mathlib.Core.List.Perm
use native.Mathlib.Nat.{ℕ_set}
use shinzo_generator_client.Prelude.{
  ℕ, zero, suc, ◌≤◌, ◌≡◌, refl, ap, List, [], ◌∷◌, arith, leb, if◌then◌else◌, length, take, drop,
  total, All, All-drop, All-map, inl, inr, Bool-cases, leb→le,
}
use shinzo_generator_client.Queue.{BlockEntry}

abbrev pub NotAbove : BlockEntry → BlockEntry → Type 0
NotAbove e f = e.block_number ≤ f.block_number

abbrev pub IsSorted : List BlockEntry → Type 0
IsSorted [] = Unit
IsSorted (e ∷ es) = All (NotAbove e) es × IsSorted es

pub record IsSort (sort : List BlockEntry → List BlockEntry) : Type 0 where
  pub perm : (es : List BlockEntry) → Perm (sort es) es
  pub sorted : (es : List BlockEntry) → IsSorted (sort es)

-- Every element of the front of a sorted list is at most every element behind it.
pub IsSorted-split :
    (n : ℕ) (es : List BlockEntry)
    → IsSorted es
    → All (λ d. All (NotAbove d) (drop n es)) (take n es)
IsSorted-split zero es h = tt
IsSorted-split (suc n) [] h = tt
IsSorted-split (suc n) (e ∷ es) h = (All-drop (NotAbove e) n es h.0, IsSorted-split n es h.1)

module _ {A : Type 0} (f : A → ℕ) where
  total-permᴰ : {xs ys : List A} → Permᴰ xs ys → total f xs ≡ total f ys
  total-permᴰ Permᴰ.nil = refl
  total-permᴰ (Permᴰ.cons e p) = omega (arith, ap f e, total-permᴰ p)
  total-permᴰ (Permᴰ.swap e k) = omega (arith, ap f e, ap f k)
  total-permᴰ (Permᴰ.trans p q) = omega (arith, total-permᴰ p, total-permᴰ q)

  pub total-perm : {xs ys : List A} → Perm xs ys → total f xs ≡ total f ys
  total-perm p = ∥∥₁_elim p (ℕ_set _ _) total-permᴰ

length-total {ℓ} : {A : Type ℓ} (xs : List A) → length xs ≡ total (λ _. 1) xs
length-total [] = refl
length-total (x ∷ xs) = omega (arith, length-total xs)

pub length-perm : {A : Type 0} {xs ys : List A} → Perm xs ys → length xs ≡ length ys
length-perm {xs = xs} {ys = ys} p =
    omega (arith, length-total xs, length-total ys, total-perm (λ _. 1) p)

-- An insertion sort, to show that the promise can be kept.
insert : BlockEntry → List BlockEntry → List BlockEntry
insert e [] = e ∷ []
insert e (f ∷ es) = if leb e.block_number f.block_number then e ∷ f ∷ es else f ∷ insert e es

pub insertion_sort : List BlockEntry → List BlockEntry
insertion_sort [] = []
insertion_sort (e ∷ es) = insert e (insertion_sort es)

insert-perm : (e : BlockEntry) (es : List BlockEntry) → Perm (insert e es) (e ∷ es)
unfolding insert
insert-perm e [] = Perm.refl (e ∷ [])
insert-perm e (f ∷ es) = elim (Bool-cases (leb e.block_number f.block_number)) [
  | inl h ↦ rw h (Perm.refl (e ∷ f ∷ es))
  | inr h ↦ rw h (Perm.trans (Perm.cons f (insert-perm e es)) (Perm.swap e f es))
]

insertion_sort-perm : (es : List BlockEntry) → Perm (insertion_sort es) es
unfolding insertion_sort
insertion_sort-perm [] = Perm.refl []
insertion_sort-perm (e ∷ es) =
    Perm.trans (insert-perm e (insertion_sort es)) (Perm.cons e (insertion_sort-perm es))

insert-All :
    (P : BlockEntry → Type 0) (e : BlockEntry) (es : List BlockEntry)
    → P e
    → All P es
    → All P (insert e es)
unfolding insert
insert-All P e [] p h = (p, tt)
insert-All P e (f ∷ es) p h = elim (Bool-cases (leb e.block_number f.block_number)) [
  | inl le ↦ rw le (p, h)
  | inr gt ↦ rw gt (h.0, insert-All P e es p h.1)
]

insert-IsSorted : (e : BlockEntry) (es : List BlockEntry) → IsSorted es → IsSorted (insert e es)
unfolding insert
insert-IsSorted e [] h = (tt, tt)
insert-IsSorted e (f ∷ es) h = elim (Bool-cases (leb e.block_number f.block_number)) [
  | inl le ↦
      let e_le_f = leb→le e.block_number f.block_number le in
      rw le ((e_le_f, All-map (NotAbove f) (NotAbove e) es (λ g k. omega arith) h.0), h)
  | inr gt ↦ rw gt (insert-All (NotAbove f) e es (ground arith) h.0, insert-IsSorted e es h.1)
]

insertion_sort-IsSorted : (es : List BlockEntry) → IsSorted (insertion_sort es)
unfolding insertion_sort
insertion_sort-IsSorted [] = tt
insertion_sort-IsSorted (e ∷ es) =
    insert-IsSorted e (insertion_sort es) (insertion_sort-IsSorted es)

pub insertion_sort-IsSort : IsSort insertion_sort
insertion_sort-IsSort = record { perm = insertion_sort-perm; sorted = insertion_sort-IsSorted }

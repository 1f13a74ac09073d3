-- ===== src/Snapshot/Merkle.antt =====
-- The Merkle root as the root of a tree over the hashes in their order.
use shinzo_generator_client.Prelude.{
  ℕ, zero, suc, ◌≤◌, ◌≡◌, ◌≢◌, refl, ap, sym, ◌∙◌, List, [], ◌∷◌, ◌++◌, append_assoc, append-nil,
  some, arith, length, length-map, map,
}
use shinzo_generator_client.Snapshot.{pair_up, merkle_rounds, compute_snapshot_merkle_root}

pub data Tree (H : Type 0) : Type 0 where
  leaf : H → Tree H
  node : Tree H → Tree H → Tree H

length-pair_up : {X : Type 0} (f : X → X → X) (xs : List X) → length (pair_up f xs) ≤ length xs
unfolding pair_up
length-pair_up f [] = omega arith
length-pair_up f (x ∷ []) = omega arith
length-pair_up f (x ∷ y ∷ xs) = omega (arith, length-pair_up f xs)

module _ {H : Type 0} where
  unfoldable pub leaves : Tree H → List H
  leaves (leaf h) = h ∷ []
  leaves (node l r) = leaves l ++ leaves r

  unfoldable pub root : (H → H → H) → Tree H → H
  root combine (leaf h) = h
  root combine (node l r) = combine (root combine l) (root combine r)

  all_leaves : List (Tree H) → List H
  all_leaves [] = []
  all_leaves (t ∷ ts) = leaves t ++ all_leaves ts

  all_leaves-pair_up : (ts : List (Tree H)) → all_leaves (pair_up node ts) ≡ all_leaves ts
  unfolding all_leaves pair_up leaves
  all_leaves-pair_up [] = refl
  all_leaves-pair_up (t ∷ []) = refl
  all_leaves-pair_up (t ∷ u ∷ ts) =
      rw (all_leaves-pair_up ts) (append_assoc (leaves t) (leaves u) (all_leaves ts))

  all_leaves-leaf : (hs : List H) → all_leaves (map leaf hs) ≡ hs
  unfolding all_leaves leaves
  all_leaves-leaf [] = refl
  all_leaves-leaf (h ∷ hs) = ap (λ x. h ∷ x) (all_leaves-leaf hs)

  module _ (combine : H → H → H) where
    map-pair_up :
        (ts : List (Tree H))
        → map (root combine) (pair_up node ts) ≡ pair_up combine (map (root combine) ts)
    unfolding pair_up root
    map-pair_up [] = refl
    map-pair_up (t ∷ []) = refl
    map-pair_up (t ∷ u ∷ ts) =
        ap (λ x. combine (root combine t) (root combine u) ∷ x) (map-pair_up ts)

    map-root-leaf : (hs : List H) → map (root combine) (map leaf hs) ≡ hs
    unfolding root
    map-root-leaf [] = refl
    map-root-leaf (h ∷ hs) = ap (λ x. h ∷ x) (map-root-leaf hs)

    merkle_rounds-root :
        (fuel : ℕ) (t : Tree H) (ts : List (Tree H))
        → length ts ≤ fuel
        → (top : Tree H) × (leaves top ≡ leaves t ++ all_leaves ts)
          × (merkle_rounds combine fuel (root combine t ∷ map (root combine) ts)
              ≡ some (root combine top))
    unfolding merkle_rounds root leaves all_leaves
    merkle_rounds-root fuel t [] le = (t, sym (append-nil (leaves t)), refl)
    merkle_rounds-root zero t (u ∷ ts) le = absurd (omega arith)
    merkle_rounds-root (suc fuel) t (u ∷ ts) le =
        let (top, same, runs) =
          merkle_rounds-root fuel (node t u) (pair_up node ts)
            (omega (arith, length-pair_up node ts)) in
        (
          top,
          same ∙ (rw (all_leaves-pair_up ts) (append_assoc (leaves t) (leaves u) (all_leaves ts))),
          rw (map-pair_up ts) at runs,
        )

-- Of at least one root the Merkle root is computed, and it is the root of a binary tree whose
-- leaves are the hashes of all the roots in their order.
pub compute_snapshot_merkle_root-root :
    {R H : Type 0} (hash : R → H) (combine : H → H → H) (roots : List R)
    → roots ≢ []
    → (top : Tree H) × (leaves top ≡ map hash roots)
      × (compute_snapshot_merkle_root hash combine roots ≡ some (root combine top))
unfolding compute_snapshot_merkle_root all_leaves leaves root
compute_snapshot_merkle_root-root hash combine [] some_root = absurd (some_root refl)
compute_snapshot_merkle_root-root hash combine (r ∷ roots) some_root =
    let (top, same, runs) =
      merkle_rounds-root combine (suc (length roots)) (leaf (hash r)) (map leaf (map hash roots))
        (omega (arith, length-map roots hash, length-map (map hash roots) leaf)) in
    (
      top,
      same ∙ ap (λ hs. hash r ∷ hs) (all_leaves-leaf (map hash roots)),
      rw (map-root-leaf combine (map hash roots)) at runs,
    )

-- ===== src/Snapshot.antt =====
-- Two pure parts of pkg/snapshot: the choice of the next block range, and the Merkle root over the
-- roots of the blocks' signatures. SHA-256 is a parameter.
pub mod Ranges
pub mod Merkle
pub mod Cycle
pub mod Tests
use shinzo_generator_client.Prelude.{
  ℕ, zero, suc, ◌+◌, ◌-◌, ◌*◌, ◌/◌, List, [], ◌∷◌, ◌++◌, Bool, Option, none, some, ltb, ◌==◌,
  if◌then◌else◌, length, map,
}

-- the first multiple of `blocks_per_file` that is at least `lowest`
unfoldable pub align : ℕ → ℕ → ℕ
align blocks_per_file lowest = (lowest + blocks_per_file - 1) / blocks_per_file * blocks_per_file

unfoldable pub skip_ahead : ℕ → ℕ → ℕ → ℕ
unfolding align
skip_ahead blocks_per_file lowest start =
    if ltb start lowest then align blocks_per_file lowest else start

-- `nextSnapshotRange`
unfoldable pub next_snapshot_range : ℕ → ℕ → ℕ → ℕ → Option (ℕ × ℕ)
unfolding align skip_ahead
next_snapshot_range blocks_per_file last_snapshot lowest highest =
    let first = if last_snapshot == 0 then align blocks_per_file lowest else last_snapshot + 1 in
    let start = skip_ahead blocks_per_file lowest first in
    let end = start + blocks_per_file - 1 in if ltb highest end then none else some (start, end)

module _ {H : Type 0} (combine : H → H → H) where
  -- a round of the loop: neighbours are combined, and an odd last one is carried up
  pub pair_up : List H → List H
  pair_up [] = []
  pair_up (h ∷ []) = h ∷ []
  pair_up (h ∷ h' ∷ hashes) = combine h h' ∷ pair_up hashes

  -- the loop, on fuel
  pub merkle_rounds : ℕ → List H → Option H
  unfolding pair_up
  merkle_rounds fuel [] = none
  merkle_rounds fuel (h ∷ []) = some h
  merkle_rounds zero (h ∷ h' ∷ hashes) = none
  merkle_rounds (suc fuel) (h ∷ h' ∷ hashes) = merkle_rounds fuel (combine h h' ∷ pair_up hashes)

-- `ComputeSnapshotMerkleRoot`, given SHA-256 of a root and of two digests joined
unfoldable pub compute_snapshot_merkle_root :
    {R H : Type 0} → (R → H) → (H → H → H) → List R → Option H
unfolding merkle_rounds
compute_snapshot_merkle_root hash combine roots =
    merkle_rounds combine (length roots) (map hash roots)

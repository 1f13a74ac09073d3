-- ===== src/Snapshot/Tests.antt =====
-- Runs of the snapshot parts on small inputs.
use shinzo_generator_client.Prelude.{
  ℕ, suc, ◌+◌, ◌-◌, ◌*◌, ◌≤◌, ◌<◌, ◌≡◌, ◌≢◌, refl, ◌⊎◌, inl, List, [], ◌∷◌, none, some, arith, map,
  ok, true,
}
use shinzo_generator_client.Snapshot.{next_snapshot_range, compute_snapshot_merkle_root}
use shinzo_generator_client.Config.{pos}
use shinzo_generator_client.Snapshot.Cycle.{CycleEnv, cycles}
use shinzo_generator_client.Snapshot.Cycle.Tidy.{IsKept, empty, cycles-IsKept}
use shinzo_generator_client.Snapshot.Ranges.{IsNext, next_snapshot_range_lem}
use shinzo_generator_client.Snapshot.Merkle.{Tree, leaves, root, compute_snapshot_merkle_root-root}

first_range : next_snapshot_range 1000 0 1500 3500 ≡ some (2000, 2999)
unfolding next_snapshot_range
first_range = refl

next_snapshot_range_lem_example :
    (start : ℕ) × IsNext 1000 0 1500 start
    × (((start + 1000 ≤ 3500 + 1)
          × (next_snapshot_range 1000 0 1500 3500 ≡ some (start, start + 1000 - 1)))
        ⊎ ((3500 + 1 < start + 1000) × (next_snapshot_range 1000 0 1500 3500 ≡ none)))
next_snapshot_range_lem_example = next_snapshot_range_lem 1000 0 1500 3500 (omega arith) (inl refl)

abbrev combine : ℕ → ℕ → ℕ
combine a b = a * 10 + b

some_roots : ◌≢◌ {A = List ℕ} (1 ∷ 2 ∷ 3 ∷ []) []
some_roots e = cc

compute_snapshot_merkle_root-root_example :
    (top : Tree ℕ) × (leaves top ≡ map suc (1 ∷ 2 ∷ 3 ∷ []))
    × (compute_snapshot_merkle_root suc combine (1 ∷ 2 ∷ 3 ∷ []) ≡ some (root combine top))
compute_snapshot_merkle_root-root_example =
    compute_snapshot_merkle_root-root suc combine (1 ∷ 2 ∷ 3 ∷ []) some_roots

abbrev cycle : CycleEnv
cycle = record { lowest = ok 5; highest = ok 100; created = true; removes = λ f. true }

-- the third cycle is over the limit of two files
keeps_two : (cycles 10 (pos 2) (cycle ∷ cycle ∷ cycle ∷ []) empty).files ≡ (20, 29) ∷ (30, 39) ∷ []
unfolding cycles
keeps_two = refl

cycles-IsKept_example : IsKept 10 2 (cycles 10 (pos 2) (cycle ∷ cycle ∷ cycle ∷ []) empty)
cycles-IsKept_example =
    cycles-IsKept 10 1 (cycle ∷ cycle ∷ cycle ∷ []) (omega arith)
      ((λ f. refl), ((λ f. refl), ((λ f. refl), tt)))

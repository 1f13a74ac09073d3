-- ===== src/Snapshot/Cycle.antt =====
-- A cycle of the snapshotter: `checkAndSnapshot`, and `enforceSnapshotLimit` of purge.go. The files on
-- disk are the pairs of first and last block that ListSnapshots returns, in ascending order of the
-- first; what createSnapshot and os.Remove achieve is given with each cycle. The signature documents
-- and the count for metrics are left out.
pub mod Tidy
use shinzo_generator_client.Prelude.{
  ℕ, zero, suc, ◌-◌, List, [], ◌∷◌, ◌++◌, Bool, true, false, Option, none, some, Result, ok, err,
  ltb, leb, if◌then◌else◌, length, take, drop,
}
use shinzo_generator_client.Config.{ℤ, pos, negsuc}
use shinzo_generator_client.Snapshot.{next_snapshot_range}

abbrev pub Range : Type 0
Range = ℕ × ℕ

pub record Snapshotter : Type 0 where
  pub last_snapshot_block : ℕ
  pub files : List Range

-- the errors of the queries for the stored heights
pub data NumberError : Type 0 where
  not_found : NumberError
  query_failed : NumberError

pub data CycleError : Type 0 where
  numbers_failed : CycleError
  snapshot_failed : ℕ → ℕ → CycleError

-- what the environment answers during a cycle
pub record CycleEnv : Type 0 where
  pub lowest : Result NumberError ℕ
  pub highest : Result NumberError ℕ
  pub created : Bool
  pub removes : Range → Bool

-- a new file in the listing of the directory
unfoldable pub add_file : Range → List Range → List Range
add_file r [] = r ∷ []
add_file r (f ∷ files) =
    let rest = add_file r files in if ltb f.0 r.0 then f ∷ rest else r ∷ f ∷ files

-- the expired files that cannot be removed
unfoldable pub left_over : (Range → Bool) → List Range → List Range
left_over removes [] = []
left_over removes (f ∷ expired) =
    let rest = left_over removes expired in if removes f then rest else f ∷ rest

unfoldable pub enforce_at : ℕ → (Range → Bool) → List Range → List Range
unfolding left_over
enforce_at limit removes files =
    if leb (length files) limit
    then files
    else left_over removes (take (length files - limit) files) ++ drop (length files - limit) files

-- `enforceSnapshotLimit`: what is left in the directory
unfoldable pub enforce_snapshot_limit : ℤ → (Range → Bool) → List Range → List Range
unfolding enforce_at
enforce_snapshot_limit (pos zero) removes files = enforce_at 100 removes files
enforce_snapshot_limit (pos (suc n)) removes files = enforce_at (suc n) removes files
enforce_snapshot_limit (negsuc n) removes files = files

-- a stored height, or what the cycle returns without one
unfoldable pub stored_number : Result NumberError ℕ → Result (Option CycleError) ℕ
stored_number (ok zero) = err none
stored_number (ok (suc n)) = ok (suc n)
stored_number (err not_found) = err none
stored_number (err query_failed) = err (some numbers_failed)

module _ (blocks_per_file : ℕ) (max_snapshots : ℤ) (env : CycleEnv) (s : Snapshotter) where
  unfoldable pub take_snapshot : Range → Snapshotter × Option CycleError
  unfolding enforce_snapshot_limit add_file
  take_snapshot range =
      if env.created
      then (
        record {
          last_snapshot_block = range.1;
          files = enforce_snapshot_limit max_snapshots env.removes (add_file range s.files);
        },
        none,
      )
      else (s, some (snapshot_failed range.0 range.1))

  unfoldable pub at_range : Option Range → Snapshotter × Option CycleError
  unfolding take_snapshot
  at_range none = (s, none)
  at_range (some range) = take_snapshot range

  unfoldable pub at_highest : ℕ → Result (Option CycleError) ℕ → Snapshotter × Option CycleError
  unfolding at_range next_snapshot_range
  at_highest lowest (err e) = (s, e)
  at_highest lowest (ok highest) =
      at_range (next_snapshot_range blocks_per_file s.last_snapshot_block lowest highest)

  unfoldable pub at_lowest : Result (Option CycleError) ℕ → Snapshotter × Option CycleError
  unfolding at_highest stored_number
  at_lowest (err e) = (s, e)
  at_lowest (ok lowest) = at_highest lowest (stored_number env.highest)

  -- `checkAndSnapshot`
  unfoldable pub check_and_snapshot : Snapshotter × Option CycleError
  unfolding at_lowest stored_number
  check_and_snapshot = at_lowest (stored_number env.lowest)

-- the cycles one after the other
unfoldable pub cycles : ℕ → ℤ → List CycleEnv → Snapshotter → Snapshotter
unfolding check_and_snapshot
cycles blocks_per_file max_snapshots [] s = s
cycles blocks_per_file max_snapshots (env ∷ envs) s =
    cycles blocks_per_file max_snapshots envs
      (check_and_snapshot blocks_per_file max_snapshots env s).0

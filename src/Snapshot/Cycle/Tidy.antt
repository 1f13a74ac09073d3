-- ===== src/Snapshot/Cycle/Tidy.antt =====
-- The directory of snapshots over many cycles.
use native.Mathlib.Nat.{add-mul, one-mul}
use shinzo_generator_client.Prelude.{
  ℕ, zero, suc, ◌+◌, ◌-◌, ◌*◌, ◌≤◌, ◌<◌, ◌≡◌, refl, inl, inr, List, [], ◌∷◌, Bool, true, Option,
  Result, ok, err, ltb, leb, leb→le, leb-false→lt, lt→ltb, if-cases, length, take, drop,
  length-drop, arith, All, All-map, All-drop,
}
use shinzo_generator_client.Config.{pos}
use shinzo_generator_client.Snapshot.Ranges.{IsNext, EndsAligned, next_snapshot_range_lem}
use shinzo_generator_client.Snapshot.Cycle.{
  Range, Snapshotter, NumberError, not_found, query_failed, CycleError, CycleEnv, add_file,
  left_over, enforce_at, enforce_snapshot_limit, stored_number, take_snapshot, at_range, at_highest,
  at_lowest, check_and_snapshot, cycles,
}

-- an aligned range of one file's size that ends by this block
abbrev pub IsRange : ℕ → ℕ → Range → Type 0
IsRange b last f = ((k : ℕ) × (f.0 ≡ k * b)) × (f.1 + 1 ≡ f.0 + b) × (f.1 ≤ last)

-- each file ends before the next ones start
abbrev pub Ascending : List Range → Type 0
Ascending [] = Unit
Ascending (f ∷ files) = All (λ (g : Range). f.1 < g.0) files × Ascending files

pub record IsTidy (b : ℕ) (s : Snapshotter) : Type 0 where
  pub aligned : EndsAligned b s.last_snapshot_block
  pub ranges : All (IsRange b s.last_snapshot_block) s.files
  pub ascending : Ascending s.files

abbrev pub Removes : CycleEnv → Type 0
Removes env = (f : Range) → env.removes f ≡ true

Ascending-drop : (n : ℕ) (files : List Range) → Ascending files → Ascending (drop n files)
Ascending-drop zero files h = h
Ascending-drop (suc n) [] h = tt
Ascending-drop (suc n) (f ∷ files) h = Ascending-drop n files h.1

left_over-none :
    (removes : Range → Bool) (files : List Range)
    → ((f : Range) → removes f ≡ true)
    → left_over removes files ≡ []
unfolding left_over
left_over-none removes [] all = refl
left_over-none removes (f ∷ files) all = rw (all f) (left_over-none removes files all)

-- what holds of the end of every list of files holds of what the limit leaves, which keeps to it
enforce_at-keeps :
    (P : List Range → Type 0) (limit : ℕ) (removes : Range → Bool) (files : List Range)
    → ((f : Range) → removes f ≡ true)
    → ((n : ℕ) → P (drop n files))
    → P (enforce_at limit removes files) × (length (enforce_at limit removes files) ≤ limit)
unfolding enforce_at
enforce_at-keeps P limit removes files all keeps =
    if-cases (λ fs. P fs × (length fs ≤ limit)) (leb (length files) limit)
      (λ few. (keeps 0, leb→le _ _ few))
      (λ many. rw (left_over-none removes (take (length files - limit) files) all) (
        keeps (length files - limit),
        omega (arith, length-drop (length files - limit) files, leb-false→lt _ _ many),
      ))

-- a range above all files goes to their end
module _ (r : Range) where
  add_file-All :
      (P : Range → Type 0) (files : List Range) → P r → All P files → All P (add_file r files)
  unfolding add_file
  add_file-All P [] new old = (new, tt)
  add_file-All P (f ∷ files) new old =
      if-cases (All P) (ltb f.0 r.0) (λ below. (old.0, add_file-All P files new old.1))
        (λ above. (new, old))

  add_file-Ascending :
      (files : List Range)
      → All (λ (f : Range). (f.0 ≤ f.1) × (f.1 < r.0)) files
      → Ascending files
      → Ascending (add_file r files)
  unfolding add_file
  add_file-Ascending [] below ascending = (tt, tt)
  add_file-Ascending (f ∷ files) below ascending = rw (lt→ltb f.0 r.0 (omega (arith, below.0))) (
    add_file-All (λ (g : Range). f.1 < g.0) files below.0.1 ascending.0,
    add_file-Ascending files below.1 ascending.1,
  )

pub record IsKept (b limit : ℕ) (s : Snapshotter) : Type 0 where
  pub tidy : IsTidy b s
  pub within_limit : length s.files ≤ limit

module _ (b n : ℕ) (positive : 0 < b) where
  files_below :
      (s : Snapshotter) (lowest start : ℕ)
      → IsTidy b s
      → 0 < lowest
      → IsNext b s.last_snapshot_block lowest start
      → All (λ (f : Range). (f.0 ≤ f.1) × (f.1 < start)) s.files
  files_below s lowest start tidy some_lowest next =
      All-map (IsRange b s.last_snapshot_block) _ s.files
        (λ f range. (
          omega (arith, range.1),
          elim next.is_new [
            | inl none_yet ↦ omega (arith, range.2, next.is_stored, none_yet)
            | inr above ↦ omega (arith, range.2, above)
          ],
        ))
        tidy.ranges

  next_end : (k start : ℕ) → start ≡ k * b → start + b - 1 + 1 ≡ (k + 1) * b
  next_end k start is_start = omega (arith, add-mul k 1 b, one-mul b, is_start)

  ranges_below :
      (s : Snapshotter) (lowest start : ℕ)
      → IsTidy b s
      → 0 < lowest
      → IsNext b s.last_snapshot_block lowest start
      → All (IsRange b (start + b - 1)) s.files
  ranges_below s lowest start tidy some_lowest next =
      All-map (IsRange b s.last_snapshot_block) _ s.files
        (λ f range. (
          range.0,
          range.1,
          elim next.is_new [
            | inl none_yet ↦ omega (arith, range.2, next.is_stored, none_yet)
            | inr above ↦ omega (arith, range.2, above)
          ],
        ))
        tidy.ranges

  take_snapshot-IsKept :
      (env : CycleEnv) (s : Snapshotter) (lowest start : ℕ)
      → Removes env
      → IsKept b (suc n) s
      → 0 < lowest
      → IsNext b s.last_snapshot_block lowest start
      → IsKept b (suc n) (take_snapshot b (pos (suc n)) env s (start, start + b - 1)).0
  unfolding take_snapshot enforce_snapshot_limit
  take_snapshot-IsKept env s lowest start removes kept some_lowest next =
      let range : Range = (start, start + b - 1) in
      let k = next.aligned.0 in
      let all =
        add_file-All range (IsRange b (start + b - 1)) s.files
          (next.aligned, omega arith, omega arith)
          (ranges_below s lowest start kept.tidy some_lowest next) in
      let ascending =
        add_file-Ascending range s.files (files_below s lowest start kept.tidy some_lowest next)
          kept.tidy.ascending in
      let left =
        enforce_at-keeps (λ fs. All (IsRange b (start + b - 1)) fs × Ascending fs) (suc n)
          env.removes (add_file range s.files) removes
          (λ m. (
            All-drop (IsRange b (start + b - 1)) m (add_file range s.files) all,
            Ascending-drop m (add_file range s.files) ascending,
          )) in
      if-cases (λ (r : Snapshotter × Option CycleError). IsKept b (suc n) r.0) env.created
        (λ made. record {
          tidy = record {
            aligned = inr (k + 1, next_end k start next.aligned.1);
            ranges = left.0.0;
            ascending = left.0.1;
          };
          within_limit = left.1;
        })
        (λ unmade. kept)

  at_highest-IsKept :
      (env : CycleEnv) (s : Snapshotter) (lowest : ℕ) (highest : Result (Option CycleError) ℕ)
      → Removes env
      → IsKept b (suc n) s
      → 0 < lowest
      → IsKept b (suc n) (at_highest b (pos (suc n)) env s lowest highest).0
  unfolding at_highest at_range
  at_highest-IsKept env s lowest (err e) removes kept some_lowest = kept
  at_highest-IsKept env s lowest (ok highest) removes kept some_lowest =
      let next =
        next_snapshot_range_lem b s.last_snapshot_block lowest highest positive kept.tidy.aligned in
      elim next.2 [
        | inl found ↦
            rw found.1 (take_snapshot-IsKept env s lowest next.0 removes kept some_lowest next.1)
        | inr short ↦ rw short.1 kept
      ]

  check_and_snapshot-IsKept :
      (env : CycleEnv) (s : Snapshotter)
      → Removes env
      → IsKept b (suc n) s
      → IsKept b (suc n) (check_and_snapshot b (pos (suc n)) env s).0
  unfolding check_and_snapshot at_lowest stored_number
  check_and_snapshot-IsKept env s removes kept = by_lowest env.lowest
    where
      by_lowest :
          (lowest : Result NumberError ℕ)
          → IsKept b (suc n) (at_lowest b (pos (suc n)) env s (stored_number lowest)).0
      by_lowest (ok zero) = kept
      by_lowest (ok (suc lowest)) =
          at_highest-IsKept env s (suc lowest) (stored_number env.highest) removes kept
            (omega arith)
      by_lowest (err not_found) = kept
      by_lowest (err query_failed) = kept

  cycles_stay :
      (envs : List CycleEnv) (s : Snapshotter)
      → All Removes envs
      → IsKept b (suc n) s
      → IsKept b (suc n) (cycles b (pos (suc n)) envs s)
  unfolding cycles
  cycles_stay [] s removes kept = kept
  cycles_stay (env ∷ envs) s removes kept =
      cycles_stay envs _ removes.1 (check_and_snapshot-IsKept env s removes.0 kept)

abbrev pub empty : Snapshotter
empty = record { last_snapshot_block = 0; files = [] }

-- From an empty directory, any number of cycles with a positive file size and a positive limit,
-- whatever the stored heights are and whichever snapshots fail, as long as expired files can be
-- removed: the last snapshot ends just below a multiple of the file size, every file is an aligned
-- range of one file's size that ends by it, the files do not overlap and ascend, and there are at
-- most as many as the limit.
pub cycles-IsKept :
    (b n : ℕ) (envs : List CycleEnv)
    → 0 < b
    → All Removes envs
    → IsKept b (suc n) (cycles b (pos (suc n)) envs empty)
cycles-IsKept b n envs positive removes = cycles_stay b n positive envs empty removes (record {
  tidy = record { aligned = inl refl; ranges = tt; ascending = tt };
  within_limit = omega arith;
})

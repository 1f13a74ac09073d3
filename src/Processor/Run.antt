-- ===== src/Processor/Run.antt =====
-- The state of one run, guarded by `pendingMu` in the source, and the collector's small steps on it.
use shinzo_generator_client.Prelude.{
  ℕ, ◌+◌, String, List, [], ◌∷◌, Bool, true, false, ◌||◌, Option, none, some, ltb, if◌then◌else◌,
}
use shinzo_generator_client.Prelude.Heights.{Heights, find, remove, store}
use shinzo_generator_client.Processor.Types.{BlockResult, ReorgSignal, RollbackPoint, Hashes}
use shinzo_generator_client.Processor.WalkBack.{WalkError}

-- What the tests of pkg/errors/utils.go say of an error's message.
pub record ErrorText : Type 0 where
  pub not_found : Bool
  pub already_exists : Bool
  pub transaction_conflict : Bool
  pub document_deleted : Bool

-- reorgEpisode
pub record ReorgEpisode : Type 0 where
  pub base_height : ℕ
  pub base_parent_hash : String
  pub last_parked_hash : String
  pub rewalks : ℕ
  pub gap_refills : ℕ
  pub stale_pinned : Bool
  pub stale_top_height : ℕ
  pub stale_top_hash : String

-- the errors that `fatalErr` can hold
pub data FatalError : Type 0 where
  store_refused : ℕ → FatalError
  too_many_rewalks : ℕ → FatalError
  too_many_gap_refills : ℕ → FatalError
  wait_failed_at : ℕ → FatalError
  walk_back_failed : ℕ → WalkError → FatalError

-- storeCompletion: the checked item, the error of its store, and the stale-orphan verification
pub record StoreCompletion : Type 0 where
  pub item : BlockResult
  pub store_error : Option ErrorText
  pub stale : Option ReorgSignal

-- `last_checked_end` is `lastCheckedNum + 1`. `cancelled` says that the run's context is done.
-- `dispatched` lists the items offered to the store pool and `processed` the calls
-- of `onBlockProcessed`, the latest first.
pub record Run : Type 0 where
  pub run_start_block : ℕ
  pub seed_hash : String
  pub last_checked_end : ℕ
  pub last_checked_hash : String
  pub next_to_commit : ℕ
  pub pending : Heights BlockResult
  pub committed_hashes : Hashes
  pub rollback_point : Option RollbackPoint
  pub episode : Option ReorgEpisode
  pub fatal_err : Option FatalError
  pub episode_rollbacks : ℕ
  pub height_rollbacks : Heights ℕ
  pub apply_cursor : ℕ
  pub reorder_completions : Heights StoreCompletion
  pub apply_holes : Heights (Unit {0})
  pub cancelled : Bool
  pub dispatched : List BlockResult
  pub processed : List ℕ

-- the assignments at the top of `processBlocksOnce`; the rollback counters live on
unfoldable pub start_run : ℕ → String → ℕ → Heights ℕ → Run
start_run start_block seed_hash rollbacks height_rollbacks = record {
  run_start_block = start_block;
  seed_hash = seed_hash;
  last_checked_end = start_block;
  last_checked_hash = seed_hash;
  next_to_commit = start_block;
  pending = [];
  committed_hashes = [];
  rollback_point = none;
  episode = none;
  fatal_err = none;
  episode_rollbacks = rollbacks;
  height_rollbacks = height_rollbacks;
  apply_cursor = start_block;
  reorder_completions = [];
  apply_holes = [];
  cancelled = false;
  dispatched = [];
  processed = [];
}

abbrev pub is_some {ℓ} : {A : Type ℓ} → Option A → Bool
is_some none = false
is_some (some a) = true

-- `failRun`: the first fatal error wins, and the run is cancelled
first_error : Option FatalError → FatalError → Option FatalError
first_error none e = some e
first_error (some f) e = some f

unfoldable pub fail_run : FatalError → Run → Run
unfolding first_error
fail_run e r = record r { fatal_err = first_error r.fatal_err e; cancelled = true }

-- a fetch or convert result arrives at the collector
unfoldable pub receive_result : BlockResult → Run → Run
receive_result result r = record r { pending = store result.block_num result r.pending }

-- `popPending`: `none` when nothing waits, and `some none` for an item drained without commit
unfoldable pub pop_found : Option BlockResult → Run → Run × Option (Option BlockResult)
pop_found none r = (r, none)
pop_found (some next) r =
    let popped = record r {
      pending = remove r.next_to_commit r.pending;
      next_to_commit = r.next_to_commit + 1;
    } in
    if is_some r.rollback_point || r.cancelled
    then (popped, some none)
    else (popped, some (some next))

unfoldable pub pop_pending : Run → Run × Option (Option BlockResult)
unfolding pop_found
pop_pending r = pop_found (find r.next_to_commit r.pending) r

-- `for height := range p.committedHashes { if height < p.nextToCommit-2 { delete } }`
trim : ℕ → Hashes → Hashes
trim next_to_commit [] = []
trim next_to_commit ((height, h) ∷ m) =
    let rest = trim next_to_commit m in
    if ltb (height + 2) next_to_commit then rest else (height, h) ∷ rest

-- `applyCommit`
unfoldable pub apply_commit : BlockResult → Run → Run
unfolding trim
apply_commit item r = record r {
  committed_hashes = trim r.next_to_commit (store item.block_num item.hash r.committed_hashes);
  episode_rollbacks = 0;
  height_rollbacks = [];
  processed = item.block_num ∷ r.processed;
}

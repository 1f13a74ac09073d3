-- ===== src/Processor/Episode.antt =====
-- The confirmation wait between a detected mismatch and the rollback point.
pub mod Quiet
pub mod Frame
pub mod Counter
use shinzo_generator_client.Prelude.{
  ℕ, zero, suc, ◌+◌, String, List, [], ◌∷◌, Bool, true, false, ◌||◌, ◌&&◌, not, Option, none, some,
  Result, ok, err, leb, str_eq, if◌then◌else◌,
}
use shinzo_generator_client.Processor.Types.{BlockResult, RollbackPoint}
use shinzo_generator_client.Processor.Run.{
  Run, ReorgEpisode, StoreCompletion, is_some, too_many_rewalks, too_many_gap_refills,
  wait_failed_at, walk_back_failed,
}
use shinzo_generator_client.Processor.WalkBack.{WalkEnv, WalkError, resolve_fork_point}
use shinzo_generator_client.Processor.Apply.{apply_completion}

abbrev pub max_rewalks_per_episode : ℕ
max_rewalks_per_episode = 64

abbrev pub max_gap_refills_per_wait : ℕ
max_gap_refills_per_wait = 64

-- a re-fetch of the wait: a result, or an error with whether the run was cancelled meanwhile
pub data Refetch : Type 0 where
  refetched : BlockResult → Refetch
  refetch_failed : Bool → Refetch

-- What the wait meets: the completions of the stores that are in flight, whether the run is
-- cancelled while they drain or while the walk-back runs, the chain and the store, and re-fetches.
pub record EpisodeEnv : Type 0 where
  pub in_flight : List StoreCompletion
  pub cancelled_in_drain : Bool
  pub cancelled_in_walk : Bool
  pub walk_env : WalkEnv
  pub refetches : List Refetch

-- The drain of the pool. An episode is active throughout, so no stale episode can be opened.
pub drain_in_flight_stores : Bool → List StoreCompletion → Run → Run
unfolding apply_completion
drain_in_flight_stores suppress [] r = r
drain_in_flight_stores suppress (c ∷ in_flight) r =
    drain_in_flight_stores suppress in_flight (apply_completion (λ _ s. s) c suppress r)

-- the episode behind the pointer, which the drain may have changed
current : ReorgEpisode → Option ReorgEpisode → ReorgEpisode
current ep none = ep
current ep (some ep') = ep'

walk_back : WalkEnv → ReorgEpisode → Result WalkError RollbackPoint
unfolding resolve_fork_point
walk_back env ep =
    if ep.stale_pinned
    then resolve_fork_point env (suc ep.stale_top_height) ep.stale_top_hash
    else resolve_fork_point env ep.base_height ep.base_parent_hash

confirm : ReorgEpisode → Option BlockResult → RollbackPoint → RollbackPoint
confirm ep none p = p
confirm ep (some confirmed) p = if ep.stale_pinned then p else record p {
  chain_hashes =
      (confirmed.block_num, confirmed.hash)
      ∷ (ep.base_height, ep.last_parked_hash)
      ∷ p.chain_hashes;
}

finish : ReorgEpisode → Option BlockResult → Bool → Result WalkError RollbackPoint → Run → Run
unfolding confirm
finish ep confirmed cancelled (ok p) r = record r {
  episode = none;
  rollback_point = some (confirm ep confirmed p);
  cancelled = true;
}
finish ep confirmed cancelled (err e) r =
    if cancelled then record r { episode = none; cancelled = true } else record r {
      episode = none;
      fatal_err = some (walk_back_failed ep.base_height e);
      cancelled = true;
    }

-- `finalizeEpisode`
unfoldable pub finalize_episode : EpisodeEnv → ReorgEpisode → Option BlockResult → Run → Run
unfolding drain_in_flight_stores current walk_back finish
finalize_episode env ep confirmed r =
    let drained = drain_in_flight_stores ep.stale_pinned env.in_flight r in
    let now = current ep drained.episode in
    if drained.cancelled || env.cancelled_in_drain
    then record drained { episode = none; cancelled = true }
    else finish now confirmed env.cancelled_in_walk (walk_back env.walk_env now) drained

-- `openStaleEpisode`
unfoldable pub open_stale_episode : EpisodeEnv → BlockResult → Run → Run
unfolding finalize_episode
open_stale_episode env item r =
    let ep : ReorgEpisode = record {
      base_height = item.block_num;
      base_parent_hash = "";
      last_parked_hash = "";
      rewalks = 0;
      gap_refills = 0;
      stale_pinned = true;
      stale_top_height = item.block_num;
      stale_top_hash = item.hash;
    } in
    finalize_episode env ep none (record r { episode = some ep })

-- `reanchorEpisodeLocked`, and the cancellation when it fails the run
reanchor_episode : ReorgEpisode → BlockResult → Run → Run
reanchor_episode ep item r =
    if leb max_rewalks_per_episode ep.rewalks
    then record r {
      episode = none;
      fatal_err = some (too_many_rewalks ep.base_height);
      cancelled = true;
    }
    else record r {
      episode = some (record ep {
        rewalks = ep.rewalks + 1;
        base_height = item.block_num;
        base_parent_hash = item.parent_hash;
        last_parked_hash = item.hash;
      });
    }

-- a result of which both hashes are known
unfoldable pub usable : BlockResult → Bool
usable item = item.success && not (str_eq item.hash "") && not (str_eq item.parent_hash "")

-- `refillEpisodeGap` on a failed re-fetch
refill_failed : ReorgEpisode → BlockResult → Bool → Run → Run
refill_failed ep item cancelled r = if cancelled then record r { cancelled = true } else record r {
  episode = none;
  fatal_err = some (wait_failed_at item.block_num);
  cancelled = true;
}

abbrev pub with_refill : ReorgEpisode → Run → Run
with_refill ep r = record r { episode = some (record ep { gap_refills = ep.gap_refills + 1 }) }

-- one round of `resolveEpisodeItem`; `again` is the rest of the loop, for a re-fetch that is needed
episode_round : EpisodeEnv → Option ReorgEpisode → BlockResult → Run → (ReorgEpisode → Run) → Run
unfolding finalize_episode reanchor_episode usable
episode_round env none item r again = r
episode_round env (some ep) item r again =
    if is_some r.rollback_point || r.cancelled
    then r
    else if usable item && str_eq item.parent_hash ep.last_parked_hash
    then finalize_episode env ep (some item) r
    else if usable item
    then reanchor_episode ep item r
    else if leb max_gap_refills_per_wait ep.gap_refills
    then record r {
      episode = none;
      fatal_err = some (too_many_gap_refills ep.base_height);
      cancelled = true;
    }
    else again ep

-- The loop, over the re-fetches that the chain answers; with none left it is still waiting.
pub resolve_with : EpisodeEnv → List Refetch → BlockResult → Run → Run
unfolding episode_round refill_failed
resolve_with env [] item r = episode_round env r.episode item r (λ ep. with_refill ep r)
resolve_with env (refetch_failed cancelled ∷ more) item r =
    episode_round env r.episode item r (λ ep. refill_failed ep item cancelled (with_refill ep r))
resolve_with env (refetched fresh ∷ more) item r =
    episode_round env r.episode item r (λ ep. resolve_with env more fresh (with_refill ep r))

-- `resolveEpisodeItem`
unfoldable pub resolve_episode_item : EpisodeEnv → BlockResult → Run → Run
unfolding resolve_with
resolve_episode_item env item r = resolve_with env env.refetches item r

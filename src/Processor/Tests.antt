-- ===== src/Processor/Tests.antt =====
-- A small chain that reorganises, for the tests of the processor.
use shinzo_generator_client.Prelude.{
  map, ℕ, ◌+◌, ◌*◌, ◌≤◌, ◌≡◌, refl, ◌⊎◌, String, List, [], ◌∷◌, ◌++◌, Bool, true, false, none,
  Result, ok, err, str_eq, ◌==◌, arith, length, if◌then◌else◌,
}
use shinzo_generator_client.Prelude.Heights.{find, remove}
use shinzo_generator_client.Processor.Dispatch.{
  Tick, Dispatched, default_workers_ahead, min_interval, dispatch_loop,
}
use shinzo_generator_client.Processor.Dispatch.Paced.{Paces, dispatch_loop-Paces}
use shinzo_generator_client.Processor.Types.{
  BlockResult, RollbackPoint, QueryError, FetchError, rpc_failed,
}
use shinzo_generator_client.Processor.WalkBack.{WalkEnv, resolve_fork_point, max_walk_back_depth}
use shinzo_generator_client.Processor.WalkBack.Descent.{
  Verified, resolve_fork_point-Verified, resolve_fork_point_bounds,
}
use shinzo_generator_client.Processor.Run.{Run, ErrorText, StoreCompletion, start_run, apply_commit}
use shinzo_generator_client.Processor.Check.{GapQuery}
use shinzo_generator_client.Processor.Apply.{Buffer, collect_ready_completions}
use shinzo_generator_client.Processor.Apply.Ready.{Pass, collect_ready_completions-Pass}
use shinzo_generator_client.Processor.Apply.Ordered.{Below}
use shinzo_generator_client.Processor.Episode.{EpisodeEnv}
use shinzo_generator_client.Processor.Collector.{
  Event, result_arrived, pop, store_completed, collect_events,
}
use shinzo_generator_client.Processor.Collector.Callbacks.{callbacks_ascend}
use shinzo_generator_client.Processor.Collector.Chained.{Linked, dispatched-Linked}
use shinzo_generator_client.Processor.Retry.{
  Attempt, fetched, fetch_with_retry, stored, store_with_retry,
}
use shinzo_generator_client.Processor.Retry.Patience.{
  Fails, no_attempt, not_found_yet, answered, fetch_with_retry-Settles,
}
use shinzo_generator_client.Processor.Retry.Stores.{
  Conflicts, accepted, ConflictsFrom, store_with_retry-Concludes,
}
use shinzo_generator_client.Processor.Rollbacks.{
  count, RoundEnv, Loop, loop_rounds, process_blocks_once, max_rollbacks_per_run,
}
use shinzo_generator_client.Processor.Rollbacks.Storm.{
  IsBarren, Tallies, rollbacks_to, loop_rounds_bounded, loop_rounds-Tallies,
}

abbrev block : ℕ → String → String → BlockResult
block n hash parent_hash = record {
  block_num = n;
  hash = hash;
  parent_hash = parent_hash;
  success = true;
}

-- the new chain: c6 on c5 on c4 on c3
abbrev parent_in_chain : String → Result FetchError String
parent_in_chain h =
    if str_eq h "c5" then ok "c4" else if str_eq h "c4" then ok "c3" else err rpc_failed

-- the store still holds o4, and c3 below it
abbrev stored_before : ℕ → Result QueryError String
stored_before n = if n == 4 then ok "o4" else if n == 3 then ok "c3" else ok ""

abbrev chain_env : WalkEnv
chain_env = record {
  parent_of = parent_in_chain;
  stored_hash = stored_before;
  finalized_known = false;
  configured_start = 3;
}

abbrev fork_at_3 : RollbackPoint
fork_at_3 = record { fork_point = 3; chain_hashes = (3, "c3") ∷ (4, "c4") ∷ [] }

walks_to_3 : resolve_fork_point chain_env 5 "c4" ≡ ok fork_at_3
unfolding resolve_fork_point
walks_to_3 = refl

resolve_fork_point-Verified_example : Verified chain_env fork_at_3 4
resolve_fork_point-Verified_example =
    resolve_fork_point-Verified chain_env 4 "c4" fork_at_3 4 walks_to_3 (omega arith) (omega arith)

resolve_fork_point_bounds_example : (3 ≤ 4) × ((false ≡ true) ⊎ (4 ≤ max_walk_back_depth + 3))
resolve_fork_point_bounds_example = resolve_fork_point_bounds chain_env 4 "c4" fork_at_3 walks_to_3

abbrev no_gap_query : GapQuery
no_gap_query = record { has_reorg_handler = true; stored_hash = ok ""; cancelled_since = false }

abbrev episode_env : EpisodeEnv
episode_env = record {
  in_flight = [];
  cancelled_in_drain = false;
  cancelled_in_walk = false;
  walk_env = chain_env;
  refetches = [];
}

abbrev stored_well : BlockResult → StoreCompletion
stored_well item = record { item = item; store_error = none; stale = none }

-- two blocks arrive and are stored in the opposite order
abbrev opposite_order : List Event
opposite_order =
    result_arrived (block 6 "c6" "c5")
    ∷ result_arrived (block 5 "c5" "c4")
    ∷ pop no_gap_query episode_env
    ∷ pop no_gap_query episode_env
    ∷ store_completed (stored_well (block 6 "c6" "c5")) episode_env
    ∷ store_completed (stored_well (block 5 "c5" "c4")) episode_env
    ∷ []

abbrev after_opposite_order : Run
after_opposite_order = collect_events opposite_order (start_run 5 "c4" 0 [])

called_back_in_order : after_opposite_order.processed ≡ 6 ∷ 5 ∷ []
unfolding collect_events start_run find remove apply_commit
called_back_in_order = refl

dispatched-Linked_example : Linked after_opposite_order.dispatched
dispatched-Linked_example = dispatched-Linked opposite_order 5 "c4" 0 []

callbacks_ascend_example : Below after_opposite_order.apply_cursor after_opposite_order.processed
callbacks_ascend_example = callbacks_ascend opposite_order 5 "c4" 0 []

abbrev buffer_with_hole : Buffer
buffer_with_hole = record {
  cursor = 4;
  holes = (4, tt) ∷ [];
  parked = (5, stored_well (block 5 "c5" "c4")) ∷ [];
}

collect_ready_completions-Pass_example :
    Pass buffer_with_hole
      (collect_ready_completions buffer_with_hole).0
      (collect_ready_completions buffer_with_hole).1
collect_ready_completions-Pass_example = collect_ready_completions-Pass buffer_with_hole (refl, tt)

abbrev error_text : Bool → Bool → ErrorText
error_text not_found transaction_conflict = record {
  not_found = not_found;
  already_exists = false;
  transaction_conflict = transaction_conflict;
  document_deleted = false;
}

abbrev missing : Attempt String
missing = record { done_before = false; reply = err (error_text true false); done_in_wait = false }

abbrev conflicting : Attempt String
conflicting = record {
  done_before = false;
  reply = err (error_text false true);
  done_in_wait = false;
}

abbrev answering : Attempt String
answering = record { done_before = false; reply = ok "c5"; done_in_wait = false }

missing-Fails : Fails missing
missing-Fails = record {
  error = error_text true false;
  replied = refl;
  alive = refl;
  alive_after = refl;
}

fetch_with_retry-Settles_example :
    fetch_with_retry ((missing ∷ []) ++ (answering ∷ [])) ≡ fetched "c5"
unfolding missing-Fails
fetch_with_retry-Settles_example =
    fetch_with_retry-Settles [] (not_found_yet missing-Fails refl no_attempt) (omega arith)
      (answered refl refl)

abbrev attempts_of_store : ℕ → Attempt String
attempts_of_store n = if n == 0 then conflicting else answering

conflicting-Conflicts : Conflicts conflicting
conflicting-Conflicts = record {
  error = error_text false true;
  replied = refl;
  conflict = refl;
  is_new = refl;
  alive = refl;
  alive_after = refl;
}

store_with_retry-Concludes_example : store_with_retry attempts_of_store ≡ stored "c5"
store_with_retry-Concludes_example =
    store_with_retry-Concludes attempts_of_store 1 (omega arith)
      (unfold ConflictsFrom in (conflicting-Conflicts, tt)) (accepted refl refl)

-- the run meets c5 on c4 where o4 was stored, and c6 confirms the new chain
abbrev reorg_round : RoundEnv
reorg_round = record {
  events =
      result_arrived (block 5 "c5" "c4")
      ∷ pop no_gap_query episode_env
      ∷ result_arrived (block 6 "c6" "c5")
      ∷ pop no_gap_query episode_env
      ∷ [];
  dispatched_up_to = 4;
  rollback_succeeds = true;
  stored_hash = stored_before;
}

abbrev at_5 : Loop
at_5 = record {
  start = 5;
  seed = "o4";
  episode_rollbacks = 0;
  height_rollbacks = [];
  rolled_back = [];
}

abbrev at_4 : Loop
at_4 = record {
  start = 4;
  seed = "c3";
  episode_rollbacks = 1;
  height_rollbacks = (4, 1) ∷ [];
  rolled_back =
      record {
        first = 4;
        last = 4;
        chain_hashes = (6, "c6") ∷ (5, "c5") ∷ (3, "c3") ∷ (4, "c4") ∷ [];
      }
      ∷ [];
}

restarts_at_4 : loop_rounds true (reorg_round ∷ []) at_5 ≡ ok at_4
unfolding loop_rounds find remove
restarts_at_4 = refl

reorg-IsBarren : IsBarren true (reorg_round ∷ []) at_5
unfolding IsBarren process_blocks_once find
reorg-IsBarren = (refl, λ l' e. tt)

loop_rounds_bounded_example : length (reorg_round ∷ []) + 0 ≤ max_rollbacks_per_run
loop_rounds_bounded_example =
    loop_rounds_bounded true (reorg_round ∷ []) at_5 at_4 (omega arith) reorg-IsBarren restarts_at_4

none_rolled_back : Tallies at_5
unfolding Tallies rollbacks_to find count
none_rolled_back height = (refl, omega arith)

loop_rounds-Tallies_example :
    Tallies at_4 × (length at_4.rolled_back ≡ length (reorg_round ∷ []) + length at_5.rolled_back)
loop_rounds-Tallies_example =
    loop_rounds-Tallies true (reorg_round ∷ []) at_5 at_4 none_rolled_back reorg-IsBarren
      restarts_at_4

abbrev tick : ℕ → Tick
tick next_to_commit = record {
  before = 5;
  late = 1;
  lag = 3;
  next_to_commit = next_to_commit;
  done_in_wait = false;
  done_in_throttle = false;
  done_in_send = false;
}

-- one worker, so that the third height waits until the frontier moves
abbrev ticks : List Tick
ticks = tick 10 ∷ tick 10 ∷ tick 10 ∷ tick 11 ∷ []

dispatched_heights :
    map (λ (d : Dispatched). d.height) (dispatch_loop 60 1 10 ticks).sent ≡ 10 ∷ 11 ∷ 12 ∷ []
unfolding dispatch_loop
dispatched_heights = refl

dispatch_loop-Paces_example :
    Paces (min_interval 60) (1 * default_workers_ahead) ticks 0 10 (dispatch_loop 60 1 10 ticks)
dispatch_loop-Paces_example = dispatch_loop-Paces 60 1 10 ticks

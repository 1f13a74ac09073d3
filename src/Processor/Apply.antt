-- ===== src/Processor/Apply.antt =====
-- The ordered apply of store completions: the pool finishes out of order, and completions wait in
-- a buffer until the cursor reaches them.
pub mod Ready
pub mod Frame
pub mod Counter
pub mod Ordered
use shinzo_generator_client.Prelude.{
  ℕ, zero, suc, ◌+◌, ◌<◌, List, [], ◌∷◌, Bool, true, false, ◌||◌, ◌&&◌, Option, none, some, ltb,
  if◌then◌else◌, length,
}
use shinzo_generator_client.Prelude.Heights.{Heights, find, remove, store}
use shinzo_generator_client.Processor.Types.{BlockResult, ReorgSignal}
use shinzo_generator_client.Processor.Run.{
  Run, ReorgEpisode, StoreCompletion, ErrorText, store_refused, is_some, fail_run, apply_commit,
}

-- the part of the state that `collectReadyCompletionsLocked` changes, with the batch so far
pub record Buffer : Type 0 where
  pub cursor : ℕ
  pub holes : Heights (Unit {0})
  pub parked : Heights StoreCompletion

take_parked :
    Option StoreCompletion
    → Buffer
    → (Buffer → Buffer × List StoreCompletion)
    → Buffer × List StoreCompletion
take_parked none b next = (b, [])
take_parked (some c) b next =
    let (b', batch) =
      next (record b { cursor = b.cursor + 1; parked = remove b.cursor b.parked }) in
    (b', c ∷ batch)

ready_round :
    Option (Unit {0})
    → Buffer
    → (Buffer → Buffer × List StoreCompletion)
    → Buffer × List StoreCompletion
unfolding take_parked
ready_round (some _) b next =
    next (record b { cursor = b.cursor + 1; holes = remove b.cursor b.holes })
ready_round none b next = take_parked (find b.cursor b.parked) b next

-- the loop, on fuel
pub collect_ready : ℕ → Buffer → Buffer × List StoreCompletion
unfolding ready_round
collect_ready zero b = (b, [])
collect_ready (suc fuel) b = ready_round (find b.cursor b.holes) b (collect_ready fuel)

-- `collectReadyCompletionsLocked`; each round takes a hole or a parked completion away
unfoldable pub collect_ready_completions : Buffer → Buffer × List StoreCompletion
unfolding collect_ready
collect_ready_completions b = collect_ready (suc (length b.holes + length b.parked)) b

abbrev pub buffer_of : Run → Buffer
buffer_of r = record {
  cursor = r.apply_cursor;
  holes = r.apply_holes;
  parked = r.reorder_completions;
}

abbrev pub with_buffer : Buffer → Run → Run
with_buffer b r = record r {
  apply_cursor = b.cursor;
  apply_holes = b.holes;
  reorder_completions = b.parked;
}

abbrev pub ended : Run → Bool
ended r = is_some r.rollback_point || is_some r.fatal_err

-- a failed store that was verified stale, under the episode that is active
raise_stale_top : BlockResult → ReorgEpisode → Run → Run
raise_stale_top item ep r =
    if ep.stale_pinned && ltb ep.stale_top_height item.block_num
    then record r {
      episode = some (record ep { stale_top_height = item.block_num; stale_top_hash = item.hash });
    }
    else r

stale_failure : (BlockResult → Run → Run) → BlockResult → Option ReorgEpisode → Run → Run
unfolding raise_stale_top
stale_failure open_stale_episode item none r = open_stale_episode item r
stale_failure open_stale_episode item (some ep) r = raise_stale_top item ep r

apply_failure : (BlockResult → Run → Run) → BlockResult → ErrorText → Option ReorgSignal → Run → Run
unfolding stale_failure
apply_failure open_stale_episode item e stale r =
    if e.document_deleted then fail_run (store_refused item.block_num) r else elim stale [
      | none ↦ r
      | some _ ↦ if ended r then r else stale_failure open_stale_episode item r.episode r
    ]

-- `applyOneCompletion`, given `openStaleEpisode`
apply_outcome : (BlockResult → Run → Run) → Option ErrorText → StoreCompletion → Bool → Run → Run
unfolding apply_failure
apply_outcome open_stale_episode (some e) c suppress r =
    apply_failure open_stale_episode c.item e c.stale r
apply_outcome open_stale_episode none c suppress r = if suppress then r else apply_commit c.item r

pub apply_one_completion : (BlockResult → Run → Run) → StoreCompletion → Bool → Run → Run
unfolding apply_outcome
apply_one_completion open_stale_episode c suppress r =
    apply_outcome open_stale_episode c.store_error c suppress r

-- `applyBatch`
pub apply_batch : (BlockResult → Run → Run) → List StoreCompletion → Bool → Run → Run
apply_batch open_stale_episode [] suppress r = r
apply_batch open_stale_episode (c ∷ batch) suppress r =
    apply_batch open_stale_episode batch suppress
      (apply_one_completion open_stale_episode c (suppress || ended r) r)

-- `applyCompletion`
unfoldable pub apply_completion : (BlockResult → Run → Run) → StoreCompletion → Bool → Run → Run
unfolding apply_batch apply_one_completion collect_ready_completions
apply_completion open_stale_episode c suppress r =
    let parked = record r {
      reorder_completions = store c.item.block_num c r.reorder_completions;
    } in
    let (b, batch) = collect_ready_completions (buffer_of parked) in
    apply_batch open_stale_episode batch suppress (with_buffer b parked)

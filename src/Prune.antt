-- ===== src/Prune.antt =====
-- The pruner's cycles, pkg/pruner/pruner.go: what leaves the queue or the range of stored blocks,
-- and what is purged for it. The store is a parameter, as what it answers in one cycle.
pub mod Cycles
pub mod Purged
pub mod Tests
use shinzo_generator_client.Prelude.{
  ℕ, ◌+◌, ◌-◌, String, List, [], ◌∷◌, ◌++◌, Bool, true, false, ◌&&◌, not, Option, none, some,
  Result, ok, err, ltb, leb, ◌==◌, if◌then◌else◌, length, map, str_eq,
}
use shinzo_generator_client.Uuid.{Bytes}
use shinzo_generator_client.Dict.{Dict, lookup}
use shinzo_generator_client.Queue.{BlockEntry, IndexerQueue, DrainResult, drain, len}

-- the errors of a query for the lowest or highest stored block
pub data RangeFault : Type 0 where
  not_found : RangeFault
  block_number_corrupt : RangeFault
  other_fault : RangeFault

pub data PurgeError : Type 0 where
  no_collection : String → PurgeError
  purge_failed : String → PurgeError
  skipped_invalid : String → ℕ → PurgeError

pub data PruneError : Type 0 where
  no_blocks : PruneError
  no_valid_blocks : PruneError
  block_range_query : PruneError
  doc_ids_query : PruneError
  collection_purges : List PurgeError → PruneError

-- What the document store answers in a cycle, and whether the file system lets a `Save` replace the
-- queue's file.
pub record StoreEnv : Type 0 where
  pub lowest_stored : Result RangeFault ℕ
  pub highest_stored : Result RangeFault ℕ
  pub doc_ids_by_block_range : ℕ → ℕ → Option (Dict (List Bytes))
  pub has_collection : String → Bool
  pub is_doc_id : Bytes → Bool
  pub purge_succeeds : String → List Bytes → Bool
  pub save_succeeds : Bool

-- `purged` lists the purges that succeeded, with their collections, the first one first.
pub record Purge : Type 0 where
  pub count : ℕ
  pub purged : Dict (List Bytes)
  pub errors : List PurgeError

-- `checkpoint` is the queue that the last `Save` wrote into the queue's file.
pub record Pruner : Type 0 where
  pub max_blocks : ℕ
  pub max_blocks_per_cycle : ℕ
  pub has_converter : Bool
  pub block_collection : String
  pub block_sig_collection : String
  pub queue : Option IndexerQueue
  pub checkpoint : Option IndexerQueue
  pub total_blocks_pruned : ℕ
  pub total_docs_pruned : ℕ
  pub purged : Dict (List Bytes)

-- the IDs that parse; the others are skipped
unfoldable pub valid_doc_ids : (Bytes → Bool) → List Bytes → List Bytes
valid_doc_ids is_doc_id [] = []
valid_doc_ids is_doc_id (id ∷ doc_ids) =
    let rest = valid_doc_ids is_doc_id doc_ids in if is_doc_id id then id ∷ rest else rest

unfoldable pub skips : String → ℕ → List PurgeError
skips collection_name n = if n == 0 then [] else skipped_invalid collection_name n ∷ []

-- `purgeByDocIDs`
unfoldable pub purge_by_doc_ids : StoreEnv → String → List Bytes → Purge
unfolding skips valid_doc_ids
purge_by_doc_ids env collection_name doc_ids =
    let client_doc_ids = valid_doc_ids env.is_doc_id doc_ids in
    if length doc_ids == 0
    then record { count = 0; purged = []; errors = [] }
    else if not (env.has_collection collection_name)
    then record { count = 0; purged = []; errors = no_collection collection_name ∷ [] }
    else if not (env.purge_succeeds collection_name client_doc_ids)
    then record { count = 0; purged = []; errors = purge_failed collection_name ∷ [] }
    else record {
      count = length client_doc_ids;
      purged = (collection_name, client_doc_ids) ∷ [];
      errors = skips collection_name (length doc_ids - length client_doc_ids);
    }

unfoldable pub doc_ids_of : Option (List Bytes) → List Bytes
doc_ids_of none = []
doc_ids_of (some doc_ids) = doc_ids

-- the loop over the sorted collections
unfoldable pub purge_collections : StoreEnv → List String → Dict (List Bytes) → Purge
unfolding purge_by_doc_ids doc_ids_of
purge_collections env [] doc_ids_by_collection = record { count = 0; purged = []; errors = [] }
purge_collections env (col_name ∷ cols) doc_ids_by_collection =
    let p = purge_by_doc_ids env col_name (doc_ids_of (lookup col_name doc_ids_by_collection)) in
    let rest = purge_collections env cols doc_ids_by_collection in
    record {
      count = p.count + rest.count;
      purged = p.purged ++ rest.purged;
      errors = p.errors ++ rest.errors;
    }

no_blocks_or : PruneError → RangeFault → PruneError
no_blocks_or e not_found = no_blocks
no_blocks_or e block_number_corrupt = no_valid_blocks
no_blocks_or e other_fault = e

range_of : Result RangeFault ℕ → Result RangeFault ℕ → Result PruneError (ℕ × ℕ)
unfolding no_blocks_or
range_of (err e) highest = err (no_blocks_or block_range_query e)
range_of (ok lowest) (err e) = err (no_blocks_or block_range_query e)
range_of (ok lowest) (ok highest) = ok (lowest, highest)

-- `getBlockRange`
unfoldable pub get_block_range : StoreEnv → Pruner → Result PruneError (ℕ × ℕ)
unfolding range_of
get_block_range env p =
    if p.has_converter then range_of env.lowest_stored env.highest_stored else err no_blocks

unfoldable pub failure_of : List PurgeError → Option PruneError
failure_of [] = none
failure_of (e ∷ errors) = some (collection_purges (e ∷ errors))

abbrev pub with_purge : ℕ → Purge → Pruner → Pruner
with_purge blocks purge p = record p {
  total_blocks_pruned = p.total_blocks_pruned + blocks;
  total_docs_pruned = p.total_docs_pruned + purge.count;
  purged = p.purged ++ purge.purged;
}

-- the purge of a range, and the totals if all of it succeeded; a failed one still purged
unfoldable pub range_purged : ℕ → Purge → Pruner → Option PruneError → Pruner × Option PruneError
range_purged excess purge p none = (with_purge excess purge p, none)
range_purged excess purge p (some e) = (record p { purged = p.purged ++ purge.purged }, some e)

-- the blocks that a cycle keeps, of `block_count`
unfoldable pub keep_of : ℕ → Pruner → ℕ
keep_of block_count p =
    if ltb 0 p.max_blocks_per_cycle && ltb p.max_blocks_per_cycle (block_count - p.max_blocks)
    then block_count - p.max_blocks_per_cycle
    else p.max_blocks

-- the queue in the file after a `Save`, which without a path does nothing
unfoldable pub saved_queue : Bool → Option IndexerQueue → Option IndexerQueue → Option IndexerQueue
saved_queue succeeds none old = old
saved_queue succeeds (some q) old = if succeeds && not (str_eq q.file_path "") then some q else old

-- the deferred `Save`, whose failure is only logged
unfoldable pub checkpointed : StoreEnv → Pruner × Option PruneError → Pruner × Option PruneError
unfolding saved_queue
checkpointed env (p, e) =
    (record p { checkpoint = saved_queue env.save_succeeds p.queue p.checkpoint }, e)

-- `sort.Strings` is a parameter of the operations below, and so is `sort.Slice` on the entries.
module _ (sort_strings : List String → List String) (sort : List BlockEntry → List BlockEntry) where
  -- `purgeByDocIDsByCollection`
  unfoldable pub purge_by_doc_ids_by_collection : StoreEnv → Dict (List Bytes) → Purge
  unfolding purge_collections
  purge_by_doc_ids_by_collection env doc_ids_by_collection =
      purge_collections env (sort_strings (map (λ p. p.0) doc_ids_by_collection))
        doc_ids_by_collection

  -- `purgeFromDrainResult`: the totals count even when a purge failed
  unfoldable pub purge_from_drain_result :
      StoreEnv → DrainResult → Pruner → Pruner × Option PruneError
  unfolding purge_by_doc_ids_by_collection failure_of
  purge_from_drain_result env result p =
      let purge = purge_by_doc_ids_by_collection env result.doc_ids_by_collection in
      (with_purge result.block_count purge p, failure_of purge.errors)

  -- `pruneBlockRange`, and the totals after it
  unfoldable pub prune_block_range :
      StoreEnv → ℕ → Option (Dict (List Bytes)) → Pruner → Pruner × Option PruneError
  unfolding range_purged failure_of purge_by_doc_ids_by_collection
  prune_block_range env excess none p = (p, some doc_ids_query)
  prune_block_range env excess (some doc_ids) p =
      let purge = purge_by_doc_ids_by_collection env doc_ids in
      range_purged excess purge p (failure_of purge.errors)

  unfoldable pub prune_range :
      StoreEnv → Result PruneError (ℕ × ℕ) → Pruner → Pruner × Option PruneError
  unfolding prune_block_range
  prune_range env (err no_blocks) p = (p, none)
  prune_range env (err e) p = (p, some e)
  prune_range env (ok (lowest, highest)) p =
      let db_block_count = highest + 1 - lowest in
      if leb db_block_count p.max_blocks
      then (p, none)
      else let excess = db_block_count - p.max_blocks in
        let cutoff = lowest + excess - 1 in
        prune_block_range env excess (env.doc_ids_by_block_range lowest cutoff) p

  -- `filterBasedPrune`, and `startupCleanup`, which does the same under other messages
  unfoldable pub filter_based_prune : StoreEnv → Pruner → Pruner × Option PruneError
  unfolding prune_range get_block_range
  filter_based_prune env p = prune_range env (get_block_range env p) p

  unfoldable pub purge_drained : StoreEnv → Option DrainResult → Pruner → Pruner × Option PruneError
  unfolding purge_from_drain_result
  purge_drained env none p = (p, none)
  purge_drained env (some result) p = purge_from_drain_result env result p

  -- `runIndexerQueuePrune`, with its deferred `Save`
  unfoldable pub run_indexer_queue_prune :
      StoreEnv → IndexerQueue → Pruner → Pruner × Option PruneError
  unfolding checkpointed purge_drained keep_of filter_based_prune len drain
  run_indexer_queue_prune env q p =
      let block_count = len q in
      if leb block_count p.max_blocks
      then checkpointed env (filter_based_prune env p)
      else let (q', result) =
          drain sort (keep_of block_count p) p.block_collection p.block_sig_collection q in
        checkpointed env (purge_drained env result (record p { queue = some q' }))

  unfoldable pub prune_queue : StoreEnv → Option IndexerQueue → Pruner → Pruner × Option PruneError
  unfolding run_indexer_queue_prune filter_based_prune
  prune_queue env none p = filter_based_prune env p
  prune_queue env (some q) p = run_indexer_queue_prune env q p

  -- `runPrune`
  unfoldable pub run_prune : StoreEnv → Pruner → Pruner × Option PruneError
  unfolding prune_queue
  run_prune env p = prune_queue env p.queue p

  -- the cycles of `pruneLoop`, which goes on after an error
  unfoldable pub prune_loop : List StoreEnv → Pruner → Pruner
  unfolding run_prune
  prune_loop [] p = p
  prune_loop (env ∷ envs) p = prune_loop envs (run_prune env p).0

-- ===== src/Prune/Tests.antt =====
-- A pruner over a queue of three blocks, and a store that answers every purge.
use Prim.Native.Nat.{min}
use mathlib.Core.List.{filter_map, Perm}
use mathlib.Core.List.Perm
use shinzo_generator_client.Prelude.{
  ℕ, ◌+◌, ◌-◌, ◌*◌, ◌≡◌, ◌≢◌, refl, ◌⊎◌, String, List, [], ◌∷◌, ◌++◌, true, false, none, some, ok,
  arith, All, length, replicate,
}
use shinzo_generator_client.Uuid.{Bytes, restore_doc_id}
use shinzo_generator_client.Dict.{Dict, lookup, size}
use shinzo_generator_client.Queue.{BlockEntry, IndexerQueue}
use shinzo_generator_client.Queue.Sorted.{insertion_sort, insertion_sort-IsSort}
use shinzo_generator_client.Prune.{
  StoreEnv, Pruner, purge_by_doc_ids_by_collection, filter_based_prune, get_block_range, run_prune,
  prune_loop,
}
use shinzo_generator_client.Prune.Cycles.{IsCycle, run_prune-IsCycle, prune_loop_converges}
use shinzo_generator_client.Prune.Purged.{
  IsOfCollection, asked, purge_by_doc_ids_by_collection_lem, filter_based_prune_cuts,
}

abbrev some_id : Bytes
some_id = restore_doc_id (replicate 16 7)

abbrev ids_in_store : Dict (List Bytes)
ids_in_store = ("Block", some_id ∷ []) ∷ ("Tx", some_id ∷ some_id ∷ []) ∷ []

abbrev willing_store : StoreEnv
willing_store = record {
  lowest_stored = ok 1;
  highest_stored = ok 5;
  doc_ids_by_block_range = λ lowest cutoff. some ids_in_store;
  has_collection = λ col. true;
  is_doc_id = λ id. true;
  purge_succeeds = λ col ids. true;
  save_succeeds = true;
}

abbrev entry : ℕ → BlockEntry
entry n = record {
  block_number = n;
  block_doc_id = replicate 16 n;
  other_doc_ids = [];
  batch_sig_id = replicate 16 0;
  has_batch_sig = false;
}

abbrev three_queued : IndexerQueue
three_queued = record { entries = entry 3 ∷ entry 4 ∷ entry 5 ∷ []; file_path = "prune.gob" }

abbrev pruner : Pruner
pruner = record {
  max_blocks = 1;
  max_blocks_per_cycle = 1;
  has_converter = true;
  block_collection = "Block";
  block_sig_collection = "Sig";
  queue = some three_queued;
  checkpoint = none;
  total_blocks_pruned = 0;
  total_docs_pruned = 0;
  purged = [];
}

abbrev unsorted : List String → List String
unsorted cols = cols

run_prune-IsCycle_example :
    (q' : IndexerQueue) × IsCycle unsorted insertion_sort willing_store three_queued q' pruner
      (run_prune unsorted insertion_sort willing_store pruner).0
run_prune-IsCycle_example =
    run_prune-IsCycle unsorted insertion_sort insertion_sort-IsSort willing_store pruner
      three_queued refl

prune_loop_converges_example :
    (q' : IndexerQueue) × ((prune_loop unsorted insertion_sort
        (willing_store ∷ willing_store ∷ [])
        pruner).queue
      ≡ some q')
    × (length q'.entries ≡ 3 - min (3 - 1) (2 * 1))
prune_loop_converges_example =
    prune_loop_converges unsorted insertion_sort insertion_sort-IsSort
      (willing_store ∷ willing_store ∷ []) pruner three_queued refl (omega arith)

purge_by_doc_ids_by_collection_lem_example :
    let p = purge_by_doc_ids_by_collection unsorted insertion_sort willing_store ids_in_store in
    (p.count ≡ size p.purged)
    × All (IsOfCollection willing_store ids_in_store) p.purged
    × ((p.errors ≢ []) ⊎ Perm p.purged (filter_map (asked ids_in_store) ("Block" ∷ "Tx" ∷ [])))
purge_by_doc_ids_by_collection_lem_example =
    purge_by_doc_ids_by_collection_lem unsorted insertion_sort (λ cols. Perm.refl cols)
      willing_store ids_in_store

in_range_1_5 : get_block_range willing_store pruner ≡ ok (1, 5)
unfolding get_block_range
in_range_1_5 = refl

purged_well :
    (purge_by_doc_ids_by_collection unsorted insertion_sort willing_store ids_in_store).errors ≡ []
unfolding purge_by_doc_ids_by_collection lookup
purged_well = refl

filter_based_prune_cuts_example :
    let (p', e) = filter_based_prune unsorted insertion_sort willing_store pruner in
    let purge = purge_by_doc_ids_by_collection unsorted insertion_sort willing_store ids_in_store in
    (e ≡ none)
    × (p'.purged ≡ [] ++ purge.purged)
    × (p'.total_docs_pruned ≡ 0 + size purge.purged)
    × (p'.total_blocks_pruned + 1 ≡ 0 + (5 + 1 - 1))
filter_based_prune_cuts_example =
    filter_based_prune_cuts unsorted insertion_sort willing_store pruner 1 5 ids_in_store
      in_range_1_5 (omega arith) refl purged_well

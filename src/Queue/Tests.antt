-- ===== src/Queue/Tests.antt =====
-- A queue of two blocks, for the tests of the queue.
use shinzo_generator_client.Prelude.{
  ℕ, ◌+◌, ◌≤◌, ◌≡◌, ◌≢◌, refl, ◌⊎◌, String, List, [], ◌∷◌, ◌++◌, map, true, false, none, some, ok,
  arith, ne_of_test, length, total, replicate,
}
use shinzo_generator_client.Dict.{Dict, lookup, size}
use shinzo_generator_client.Uuid.{Bytes, extract_uuid, restore_doc_id}
use shinzo_generator_client.Uuid.RoundTrip.{IsUuid}
use shinzo_generator_client.Queue.{
  BlockEntry, IndexerQueue, new_indexer_queue, pack_doc_ids, unpack_doc_ids, track_block_doc_ids,
  entry_doc_count, build_drain_result, drain, drain_by_doc_count,
}
use shinzo_generator_client.Queue.File.{Gob, Files, SaveFaults, snapshot_of, save, Saves, save-load}
use shinzo_generator_client.Queue.Sorted.{insertion_sort, insertion_sort-IsSort}
use shinzo_generator_client.Queue.Packing.{
  Extracts, unpack_doc_ids-pack_doc_ids, pack-unpack_canonical,
}
use shinzo_generator_client.Queue.Draining.{
  Splits, IsShortest, docs, drain_lem, drain_by_doc_count_lem,
}
use shinzo_generator_client.Queue.Backlog.{
  Op, track, drain_blocks, drain_docs, Runs, of_entries, perform_all, perform_all-Runs,
}
use shinzo_generator_client.Queue.Grouping.{build_drain_result_complete}

abbrev uuid_a : Bytes
uuid_a = replicate 16 171

abbrev uuid_b : Bytes
uuid_b = replicate 15 0 ++ 18 ∷ []

uuid_a-IsUuid : IsUuid uuid_a
uuid_a-IsUuid = record { sized = refl; bytes = omega arith }

uuid_b-IsUuid : IsUuid uuid_b
uuid_b-IsUuid = record { sized = refl; bytes = omega arith }

pack-unpack_canonical_example :
    (packed : Bytes) × (pack_doc_ids (map restore_doc_id (uuid_a ∷ uuid_b ∷ [])) ≡ ok packed)
    × (unpack_doc_ids packed ≡ map restore_doc_id (uuid_a ∷ uuid_b ∷ []))
pack-unpack_canonical_example =
    pack-unpack_canonical (uuid_a ∷ uuid_b ∷ []) (uuid_a-IsUuid, (uuid_b-IsUuid, tt))

packs_one : pack_doc_ids (restore_doc_id uuid_a ∷ []) ≡ ok uuid_a
unfolding pack_doc_ids extract_uuid restore_doc_id
packs_one = refl

unpack_doc_ids-pack_doc_ids_example :
    (uuids : List Bytes) × Extracts (restore_doc_id uuid_a ∷ []) uuids
    × (unpack_doc_ids uuid_a ≡ map restore_doc_id uuids)
unpack_doc_ids-pack_doc_ids_example =
    unpack_doc_ids-pack_doc_ids (restore_doc_id uuid_a ∷ []) uuid_a packs_one

abbrev entry : ℕ → BlockEntry
entry n = record {
  block_number = n;
  block_doc_id = uuid_a;
  other_doc_ids = ("Tx", uuid_a ++ uuid_b) ∷ [];
  batch_sig_id = uuid_b;
  has_batch_sig = true;
}

-- tracked out of order
abbrev two_blocks : IndexerQueue
two_blocks = record { entries = entry 8 ∷ entry 7 ∷ []; file_path = "prune.gob" }

abbrev tx_ids : Dict (List Bytes)
tx_ids = ("Tx", restore_doc_id uuid_a ∷ restore_doc_id uuid_b ∷ []) ∷ []

abbrev three_blocks : IndexerQueue
three_blocks = record { entries = entry 8 ∷ entry 7 ∷ entry 9 ∷ []; file_path = "prune.gob" }

tracks_9 :
    track_block_doc_ids two_blocks 9 (restore_doc_id uuid_a) tx_ids (restore_doc_id uuid_b)
    ≡ ok three_blocks
unfolding track_block_doc_ids pack_doc_ids extract_uuid restore_doc_id
tracks_9 = refl

drain_lem_example :
    let (q', result) = drain insertion_sort 1 "Block" "Sig" two_blocks in
    ((length two_blocks.entries ≤ 1) × (q' ≡ two_blocks) × (result ≡ none))
    ⊎ ((drained : List BlockEntry) × (result
          ≡ some (build_drain_result drained (length drained) "Block" "Sig"))
        × Splits two_blocks q' drained
        × (length q'.entries ≡ 1)
        × (length drained + 1 ≡ length two_blocks.entries))
drain_lem_example = drain_lem insertion_sort insertion_sort-IsSort 1 "Block" "Sig" two_blocks

drain_by_doc_count_lem_example :
    let (q', result) = drain_by_doc_count insertion_sort 3 "Block" "Sig" two_blocks in
    ((q' ≡ two_blocks) × (result ≡ none) × ((two_blocks.entries ≡ []) ⊎ (◌≡◌ {A = ℕ} 3 0)))
    ⊎ ((drained : List BlockEntry) × (result
          ≡ some (build_drain_result drained (length drained) "Block" "Sig"))
        × Splits two_blocks q' drained
        × IsShortest 3 drained q'.entries
        × (docs drained + docs q'.entries ≡ docs two_blocks.entries))
drain_by_doc_count_lem_example =
    drain_by_doc_count_lem insertion_sort insertion_sort-IsSort 3 "Block" "Sig" two_blocks

block_ne_empty : ◌≢◌ {A = String} "Block" ""
block_ne_empty e = ne_of_test "Block" "" refl e

block_ne_sig : ◌≢◌ {A = String} "Block" "Sig"
block_ne_sig e = ne_of_test "Block" "Sig" refl e

block_ne_tx : ◌≢◌ {A = String} "Block" "Tx"
block_ne_tx e = ne_of_test "Block" "Tx" refl e

build_drain_result_complete_example :
    let m = (build_drain_result (entry 8 ∷ entry 7 ∷ []) 2 "Block" "Sig").doc_ids_by_collection in
    (lookup "Block" m ≡ some (map (λ d. restore_doc_id d.block_doc_id) (entry 8 ∷ entry 7 ∷ [])))
    × (size m ≡ total entry_doc_count (entry 8 ∷ entry 7 ∷ []))
build_drain_result_complete_example =
    build_drain_result_complete (entry 8) (entry 7 ∷ []) 2 "Block" "Sig" block_ne_empty block_ne_sig
      ((block_ne_tx, tt), ((block_ne_tx, tt), tt))

abbrev no_faults : SaveFaults
no_faults = record {
  remove_fails = false;
  create_fails = false;
  encode_stops = none;
  close_fails = false;
  rename_fails = false;
  temp_remove_fails = false;
}

-- a codec that knows one snapshot
abbrev gob : Gob
gob = record { encode = λ snap. 7 ∷ []; decode = λ bytes. some (snapshot_of two_blocks) }

abbrev no_files : Files
no_files = record { target = none; temp = none }

save-load_example :
    Saves gob no_faults two_blocks no_files
      (save gob no_faults two_blocks no_files).0
      (save gob no_faults two_blocks no_files).1
save-load_example = save-load gob no_faults two_blocks no_files refl refl

-- two blocks are tracked, one of them with an invalid ID, and all but one are drained
abbrev calls : List Op
calls =
    track 9 (restore_doc_id uuid_b) [] []
    ∷ track 7 (1 ∷ 2 ∷ []) [] []
    ∷ track 8 (restore_doc_id uuid_a) [] []
    ∷ drain_blocks 1 "Block" "Signature"
    ∷ drain_docs 0 "Block" "Signature"
    ∷ []

perform_all-Runs_example :
    Runs calls
      (of_entries new_indexer_queue.entries)
      (of_entries (perform_all insertion_sort calls new_indexer_queue).0.entries)
      (perform_all insertion_sort calls new_indexer_queue).1
perform_all-Runs_example =
    perform_all-Runs insertion_sort insertion_sort-IsSort calls new_indexer_queue

-- ===== src/Queue.antt =====
-- IndexerQueue of pkg/pruner/indexer_queue.go: the blocks that were indexed, each with the packed
-- IDs of its documents. A Go map is the list of its pairs in the order in which it is iterated.
-- The mutex makes each method one step; a method returns the queue that it leaves.
pub mod File
pub mod Packing
pub mod Sorted
pub mod Draining
pub mod Grouping
pub mod Backlog
pub mod Tests
use shinzo_generator_client.Prelude.{
  ℕ, suc, zero, ◌+◌, ◌-◌, ◌*◌, ◌/◌, ◌||◌, ◌&&◌, String, List, [], ◌∷◌, ◌++◌, Bool, true, false,
  Option, none, some, Result, ok, err, ◌>>=◌, ltb, leb, ◌==◌, if◌then◌else◌, length, take, drop,
  replicate, str_eq, not,
}
use shinzo_generator_client.Uuid.{Bytes, DocIdError, uuid_size, extract_uuid, restore_doc_id}
use shinzo_generator_client.Dict.{Dict, append_at, put}

-- `other_doc_ids` maps a collection to packed UUIDs. A UUID that was not given is sixteen zeros.
pub record BlockEntry : Type 0 where
  pub block_number : ℕ
  pub block_doc_id : Bytes
  pub other_doc_ids : Dict Bytes
  pub batch_sig_id : Bytes
  pub has_batch_sig : Bool

pub record IndexerQueue : Type 0 where
  pub entries : List BlockEntry
  pub file_path : String

pub record DrainResult : Type 0 where
  pub doc_ids_by_collection : Dict (List Bytes)
  pub block_count : ℕ

pub data TrackError : Type 0 where
  invalid_block_doc_id : DocIdError → TrackError
  invalid_doc_id_for : String → DocIdError → TrackError
  invalid_batch_sig_doc_id : DocIdError → TrackError

unfoldable pub new_indexer_queue : IndexerQueue
new_indexer_queue = record { entries = []; file_path = "" }

abbrev pub zero_uuid : Bytes
zero_uuid = replicate uuid_size 0

unfoldable pub pack_doc_ids : List Bytes → Result DocIdError Bytes
pack_doc_ids [] = ok []
pack_doc_ids (id ∷ doc_ids) = do
  uuid ← extract_uuid id
  packed ← pack_doc_ids doc_ids
  ok (uuid ++ packed)

-- the rounds of the loop that are left, over what is left of the packed bytes
unfoldable pub unpack_rounds : ℕ → Bytes → List Bytes
unpack_rounds zero packed = []
unpack_rounds (suc n) packed =
    restore_doc_id (take uuid_size packed) ∷ unpack_rounds n (drop uuid_size packed)

unfoldable pub unpack_doc_ids : Bytes → List Bytes
unfolding unpack_rounds
unpack_doc_ids packed = unpack_rounds (length packed / uuid_size) packed

pub wrap : {A : Type 0} → (DocIdError → TrackError) → Result DocIdError A → Result TrackError A
wrap f (ok a) = ok a
wrap f (err e) = err (f e)

-- an ID that may be left out, as the empty text
pub optional_uuid : (DocIdError → TrackError) → Bytes → Result TrackError Bytes
unfolding wrap
optional_uuid f [] = ok zero_uuid
optional_uuid f (c ∷ id) = wrap f (extract_uuid (c ∷ id))

-- the loop over `otherDocIDs`; a collection with no IDs is skipped
pub pack_others : Dict (List Bytes) → Result TrackError (Dict Bytes)
unfolding wrap
pack_others [] = ok []
pack_others ((col_name, []) ∷ rest) = pack_others rest
pack_others ((col_name, id ∷ doc_ids) ∷ rest) = do
  packed ← wrap (invalid_doc_id_for col_name) (pack_doc_ids (id ∷ doc_ids))
  others ← pack_others rest
  ok (if ltb 0 (length packed) then (col_name, packed) ∷ others else others)

abbrev pub given : Bytes → Bool
given [] = false
given (c ∷ id) = true

unfoldable pub track_block_doc_ids :
    IndexerQueue → ℕ → Bytes → Dict (List Bytes) → Bytes → Result TrackError IndexerQueue
unfolding optional_uuid pack_others
track_block_doc_ids q block_number block_doc_id other_doc_ids batch_sig_id = do
  block_uuid ← optional_uuid invalid_block_doc_id block_doc_id
  others ← pack_others other_doc_ids
  sig_uuid ← optional_uuid invalid_batch_sig_doc_id batch_sig_id
  let entry : BlockEntry = record {
    block_number = block_number;
    block_doc_id = block_uuid;
    other_doc_ids = others;
    batch_sig_id = sig_uuid;
    has_batch_sig = given batch_sig_id;
  }
  ok (record q { entries = q.entries ++ entry ∷ [] })

-- `for _, packed := range entry.OtherDocIDs { count += len(packed) / uuidSize }`
add_packed : ℕ → Dict Bytes → ℕ
add_packed count [] = count
add_packed count ((_, packed) ∷ rest) = add_packed (count + length packed / uuid_size) rest

unfoldable pub entry_doc_count : BlockEntry → ℕ
unfolding add_packed
entry_doc_count entry =
    let count = add_packed 1 entry.other_doc_ids in if entry.has_batch_sig then count + 1 else count

doc_count_from : ℕ → List BlockEntry → ℕ
unfolding add_packed
doc_count_from total [] = total
doc_count_from total (entry ∷ rest) =
    let counted = add_packed (total + 1) entry.other_doc_ids in
    doc_count_from (if entry.has_batch_sig then counted + 1 else counted) rest

unfoldable pub doc_count : IndexerQueue → ℕ
unfolding doc_count_from
doc_count q = doc_count_from 0 q.entries

unfoldable pub len : IndexerQueue → ℕ
len q = length q.entries

highest_from : ℕ → List BlockEntry → ℕ
highest_from highest [] = highest
highest_from highest (entry ∷ rest) =
    highest_from (if ltb highest entry.block_number then entry.block_number else highest) rest

unfoldable pub highest_block_number : IndexerQueue → ℕ
unfolding highest_from
highest_block_number q = highest_from 0 q.entries

-- one drained entry's own IDs, those of its other collections and of its signature
add_others : Dict Bytes → Dict (List Bytes) → Dict (List Bytes)
unfolding unpack_doc_ids append_at
add_others [] m = m
add_others ((col_name, packed) ∷ rest) m =
    let ids = unpack_doc_ids packed in
    add_others rest (if ltb 0 (length ids) then append_at col_name ids m else m)

-- the loop of `buildDrainResult`, with `blockIDs` and the map so far
add_entries :
    String → List BlockEntry → List Bytes → Dict (List Bytes) → List Bytes × Dict (List Bytes)
unfolding add_others append_at
add_entries sig_col [] block_ids m = (block_ids, m)
add_entries sig_col (entry ∷ rest) block_ids m =
    let m' = add_others entry.other_doc_ids m in
    add_entries sig_col rest (block_ids ++ restore_doc_id entry.block_doc_id ∷ []) (
      if entry.has_batch_sig
      then append_at sig_col (restore_doc_id entry.batch_sig_id ∷ []) m'
      else m')

-- block IDs go under the block collection if there are any and it has a name
with_block_ids : String → List Bytes × Dict (List Bytes) → Dict (List Bytes)
unfolding put
with_block_ids block_col (block_ids, m) =
    if ltb 0 (length block_ids) && not (str_eq block_col "") then put block_col block_ids m else m

unfoldable pub build_drain_result : List BlockEntry → ℕ → String → String → DrainResult
unfolding add_entries with_block_ids
build_drain_result drained drain_count block_col sig_col = record {
  doc_ids_by_collection = with_block_ids block_col (add_entries sig_col drained [] []);
  block_count = drain_count;
}

-- the `for` loop that finds the cutoff; 0 means that it ended without a `break`
cutoff_from : ℕ → ℕ → ℕ → List BlockEntry → ℕ
unfolding entry_doc_count
cutoff_from i accumulated excess [] = 0
cutoff_from i accumulated excess (entry ∷ rest) =
    let docs = accumulated + entry_doc_count entry in
    let later = cutoff_from (i + 1) docs excess rest in if leb excess docs then i + 1 else later

-- `sort.Slice` by block number leaves the order of equal numbers open, so the sort is a parameter.
module _ (sort : List BlockEntry → List BlockEntry) where
  unfoldable pub drain : ℕ → String → String → IndexerQueue → IndexerQueue × Option DrainResult
  unfolding build_drain_result
  drain keep block_col sig_col q =
      if leb (length q.entries) keep
      then (q, none)
      else (let sorted = sort q.entries in
          let drain_count = length sorted - keep in
          (
            record q { entries = drop drain_count sorted },
            some (build_drain_result (take drain_count sorted) drain_count block_col sig_col),
          ))

  -- an `excess` that is not positive is 0
  unfoldable pub drain_by_doc_count :
      ℕ → String → String → IndexerQueue → IndexerQueue × Option DrainResult
  unfolding cutoff_from build_drain_result
  drain_by_doc_count excess block_col sig_col q =
      if (length q.entries == 0) || (excess == 0)
      then (q, none)
      else (let sorted = sort q.entries in
          let found = cutoff_from 0 0 excess sorted in
          let cutoff = if found == 0 then length sorted else found in
          (
            record q { entries = drop cutoff sorted },
            some (build_drain_result (take cutoff sorted) cutoff block_col sig_col),
          ))

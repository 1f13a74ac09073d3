-- ===== src/Handler/Batches.antt =====
-- The batches of a group: `writeBatchWithRetry`, `createDocBatch` and `writeGroup`.
pub mod Retry
pub mod Chunks
pub mod Whole
use Prim.Native.Nat.{min}
use shinzo_generator_client.Prelude.{
  ℕ, zero, suc, ◌+◌, ◌-◌, ◌*◌, String, List, [], ◌∷◌, ◌++◌, Bool, Option, none, some, Result, ok,
  err, ltb, ◌==◌, if◌then◌else◌, length, take, drop, not,
}
use shinzo_generator_client.Chains.{Doc, DocumentGroup}
use shinzo_generator_client.Handler.{
  Env, World, StoreError, previously_stored, context_ended, Action, is_transaction_conflict,
}
use shinzo_generator_client.Handler.Writes.{create_docs_in_txn}

-- BlockHandler, less what `Env` stands for
pub record BlockHandler : Type 0 where
  pub max_docs_per_txn : ℕ
  pub max_cid_retries : ℕ

-- `NewBlockHandler`
unfoldable pub new_block_handler : ℕ → BlockHandler
new_block_handler max_docs_per_txn = record {
  max_docs_per_txn = if max_docs_per_txn == 0 then 1000 else max_docs_per_txn;
  max_cid_retries = 15;
}

abbrev pub max_batch_retries : ℕ
max_batch_retries = 3

-- 50ms
abbrev pub batch_conflict_retry_delay : ℕ
batch_conflict_retry_delay = 50

-- the IDs that come with the error, if any
pub ids_of : Result StoreError (List String) → List String
ids_of (ok ids) = ids
ids_of (err (previously_stored ids skipped docs)) = ids
ids_of (err _) = []

module _ {S T C D : Type 0} (env : Env S T C D) where
  module _ {A : Type 0} (write : Action S A) where
    waited :
        World S
        → S × Bool
        → (World S → World S × Result StoreError A)
        → World S × Result StoreError A
    waited w (s, done) next =
        let w' = record w { outside = s } in if done then (w', err context_ended) else next w'

    -- a failed attempt, with the collector cut back to `mark`
    retry_or_fail :
        ℕ
        → ℕ
        → StoreError
        → World S
        → (World S → World S × Result StoreError A)
        → World S × Result StoreError A
    unfolding waited
    retry_or_fail mark attempt e w next =
        let cut = record w { cids = take mark w.cids } in
        if not (is_transaction_conflict e)
        then (cut, err e)
        else if attempt == max_batch_retries - 1
        then (cut, err e)
        else waited cut (env.wait ((attempt + 1) * batch_conflict_retry_delay) cut.outside) next

    attempted :
        ℕ
        → ℕ
        → World S × Result StoreError A
        → (World S → World S × Result StoreError A)
        → World S × Result StoreError A
    unfolding retry_or_fail
    attempted mark attempt (w, ok a) next = (w, ok a)
    attempted mark attempt (w, err e) next = retry_or_fail mark attempt e w next

    -- the attempts that are left; the last of them always returns
    attempts : ℕ → ℕ → World S → World S × Result StoreError A
    unfolding attempted
    attempts zero attempt w =
        attempted (length w.cids) attempt (write w) (λ w'. (w', err context_ended))
    attempts (suc left) attempt w =
        attempted (length w.cids) attempt (write w) (attempts left (suc attempt))

    -- `writeBatchWithRetry`
    unfoldable pub write_batch_with_retry : Action S A
    unfolding attempts
    write_batch_with_retry = attempts (max_batch_retries - 1) 0

  -- a batch of `createDocBatch`, given what its write left
  pub batch_written :
      List String
      → World S × Result StoreError (List String)
      → (List String → World S → World S × List String × Option StoreError)
      → World S × List String × Option StoreError
  unfolding ids_of
  batch_written all_ids (w, ok ids) next = next (all_ids ++ ids) w
  batch_written all_ids (w, err e) next = (w, all_ids ++ ids_of (err e), some e)

  write_batch :
      String
      → List Doc
      → List String
      → World S
      → (List String → World S → World S × List String × Option StoreError)
      → World S × List String × Option StoreError
  unfolding batch_written
  write_batch col_name [] all_ids w next = next all_ids w
  write_batch col_name (doc ∷ docs) all_ids w next =
      batch_written all_ids
        (write_batch_with_retry (create_docs_in_txn env col_name (doc ∷ docs)) w) next

  -- the loop, from the document `i` on, with the IDs so far
  pub create_batches :
      ℕ
      → String
      → List Doc
      → ℕ
      → ℕ
      → List String
      → World S
      → World S × List String × Option StoreError
  unfolding write_batch
  create_batches zero col_name data_maps batch_size i all_ids w = (w, all_ids, none)
  create_batches (suc fuel) col_name data_maps batch_size i all_ids w =
      let next = create_batches fuel col_name data_maps batch_size (i + batch_size) in
      let end = min (i + batch_size) (length data_maps) in
      if ltb i (length data_maps)
      then write_batch col_name (take (end - i) (drop i data_maps)) all_ids w next
      else (w, all_ids, none)

  -- `createDocBatch`: the IDs written, also beside an error
  unfoldable pub create_doc_batch :
      String → List Doc → ℕ → World S → World S × List String × Option StoreError
  unfolding create_batches
  create_doc_batch col_name data_maps batch_size =
      create_batches (length data_maps) col_name data_maps batch_size 0 []

  -- `writeGroup`
  unfoldable pub write_group :
      BlockHandler → DocumentGroup → World S → World S × List String × Option StoreError
  unfolding create_doc_batch
  write_group h g =
      let batch_size = if g.batch_size == 0 then h.max_docs_per_txn else g.batch_size in
      create_doc_batch g.collection g.docs batch_size

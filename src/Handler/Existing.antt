-- ===== src/Handler/Existing.antt =====
-- The signature of a block that is already stored: `queryCollectionDocIDs`, `waitForCIDs`,
-- `retryBackoff` and `SignExisting`.
pub mod Ranges
pub mod Complete
use Prim.Native.Nat.{min}
use shinzo_generator_client.Prelude.{
  ℕ, zero, suc, ◌+◌, ◌-◌, ◌*◌, String, List, [], ◌∷◌, ◌++◌, Bool, Option, none, some, Result, ok,
  err, ltb, leb, ◌==◌, str_eq, if◌then◌else◌, length,
}
use shinzo_generator_client.Chains.{DocumentGroup, ConversionResult}
use shinzo_generator_client.Processor.Run.{ErrorText}
use shinzo_generator_client.Handler.{
  Env, World, StoreError, defra, context_ended, no_cids, incomplete_cids, incomplete_block,
  empty_block_num_field, Action, ◌>>=◌, pure, throw,
}
use shinzo_generator_client.Handler.Batches.{BlockHandler}
use shinzo_generator_client.Handler.Signing.{sign_block_over_cids}

doubled : ℕ → ℕ → ℕ
doubled zero d = d
doubled (suc attempt) d = doubled attempt (d * 2)

-- `retryBackoff`, in milliseconds
unfoldable pub retry_backoff : ℕ → ℕ
unfolding doubled
retry_backoff attempt = let d = doubled attempt 500 in if ltb 8000 d then 8000 else d

abbrev pub chunk_size : ℕ
chunk_size = 100

-- the rows that have an ID
pub doc_ids : List (Option String) → List String
doc_ids [] = []
doc_ids (none ∷ rows) = doc_ids rows
doc_ids (some id ∷ rows) = id ∷ doc_ids rows

pub chunk_found :
    Result ErrorText (List (Option String))
    → List String
    → (List String → Result StoreError (List String))
    → Result StoreError (List String)
unfolding doc_ids
chunk_found (ok rows) ids next = next (ids ++ doc_ids rows)
chunk_found (err e) ids next = err (defra e)

-- the loop over the chunks from `chunk_start` on, given the store's answer for a range
pub query_chunks :
    (ℕ → ℕ → Result ErrorText (List (Option String)))
    → ℕ
    → ℕ
    → ℕ
    → List String
    → Result StoreError (List String)
unfolding chunk_found
query_chunks query zero chunk_start to ids = ok ids
query_chunks query (suc fuel) chunk_start to ids =
    let next = query_chunks query fuel (chunk_start + chunk_size) to in
    if leb chunk_start to
    then chunk_found (query chunk_start (min (chunk_start + chunk_size - 1) to)) ids next
    else ok ids

-- `queryCollectionDocIDs`
unfoldable pub query_collection_doc_ids :
    (ℕ → ℕ → Result ErrorText (List (Option String))) → ℕ → ℕ → Result StoreError (List String)
unfolding query_chunks
query_collection_doc_ids query from to = query_chunks query (to + 1 - from) from to []

module _ {S T C D : Type 0} (env : Env S T C D) where
  module _ (h : BlockHandler) (all_doc_ids collection_names : List String) where
    waited :
        World S
        → S × Bool
        → (World S → World S × Result StoreError (List String))
        → World S × Result StoreError (List String)
    waited w (s, done) next =
        let w' = record w { outside = s } in if done then (w', err context_ended) else next w'

    -- the wait behind a failed attempt, which the last one does not have
    pause :
        ℕ
        → World S
        → (World S → World S × Result StoreError (List String))
        → World S × Result StoreError (List String)
    unfolding waited retry_backoff
    pause attempt w next =
        if ltb attempt (h.max_cid_retries - 1)
        then waited w (env.wait (retry_backoff attempt) w.outside) next
        else next w

    counted :
        Result ErrorText (List String)
        → ℕ
        → ℕ
        → World S
        → (ℕ → World S → World S × Result StoreError (List String))
        → World S × Result StoreError (List String)
    unfolding pause
    counted (err e) attempt last_count w next = pause attempt w (next last_count)
    counted (ok cids) attempt last_count w next =
        if leb (length all_doc_ids) (length cids)
        then (w, ok cids)
        else pause attempt w (next (length cids))

    -- the loop, with the attempts left and the last count
    pub attempts : ℕ → ℕ → ℕ → World S → World S × Result StoreError (List String)
    unfolding counted
    attempts zero attempt last_count w = (
      w,
      err (
          if last_count == 0
          then no_cids (length all_doc_ids)
          else incomplete_cids last_count (length all_doc_ids)),
    )
    attempts (suc left) attempt last_count w =
        let next = attempts left (suc attempt) in
        if env.context_done w.outside
        then (w, err context_ended)
        else counted (env.collect_doc_cids all_doc_ids collection_names w.outside) attempt
            last_count w next

    -- `waitForCIDs`
    unfoldable pub wait_for_cids : World S → World S × Result StoreError (List String)
    unfolding attempts
    wait_for_cids = attempts h.max_cid_retries 0 0

  require_complete : DocumentGroup → List String → Action S (List String)
  require_complete g ids =
      if ltb (length ids) (length g.docs)
      then throw (incomplete_block g.collection (length ids) (length g.docs))
      else pure ids

  query_group : ℕ → DocumentGroup → Action S (List String)
  unfolding query_collection_doc_ids
  query_group block_number g w = (
    w,
    query_collection_doc_ids (λ a b. env.query_doc_ids g.collection g.block_num_field a b w.outside)
        block_number block_number,
  )

  -- a group of `SignExisting`: the IDs that the store holds of it
  pub stored_doc_ids : ℕ → DocumentGroup → Action S (List String)
  unfolding query_group require_complete
  stored_doc_ids block_number g =
      if str_eq g.block_num_field ""
      then throw (empty_block_num_field g.collection)
      else (query_group block_number g >>= require_complete g)

  pub collect_groups :
      ℕ → List DocumentGroup → List String → List String → Action S (List String × List String)
  unfolding stored_doc_ids
  collect_groups block_number [] all_doc_ids names = pure (all_doc_ids, names)
  collect_groups block_number (g ∷ groups) all_doc_ids names = do
    ids ← stored_doc_ids block_number g
    collect_groups block_number groups (all_doc_ids ++ ids) (names ++ g.collection ∷ [])

  sign_found : BlockHandler → String → ℕ → String → List String × List String → Action S String
  unfolding wait_for_cids sign_block_over_cids
  sign_found h block_hash block_number signature_collection (all_doc_ids, names) = do
    cids ← wait_for_cids h all_doc_ids names
    sign_block_over_cids env block_number block_hash cids signature_collection

  -- `SignExisting`
  unfoldable pub sign_existing :
      {L : Type 0} → BlockHandler → ConversionResult L → String → ℕ → Action S String
  unfolding collect_groups sign_found
  sign_existing h result block_hash block_number = do
    found ← collect_groups block_number result.groups [] []
    sign_found h block_hash block_number result.signature_collection found

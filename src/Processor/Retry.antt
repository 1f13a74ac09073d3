-- ===== src/Processor/Retry.antt =====
-- The retries around the node and the store: `fetchBlockWithRetry`, `fetchHeaderByHashWithRetry`,
-- `storeWithRetry` and `detectStaleOrphan`.
pub mod Patience
pub mod Stores
use shinzo_generator_client.Prelude.{
  ℕ, zero, suc, ◌+◌, ◌-◌, String, List, [], ◌∷◌, Bool, true, false, ◌&&◌, not, Option, none, some,
  Result, ok, err, ltb, leb, str_eq, if◌then◌else◌,
}
use shinzo_generator_client.Processor.Types.{QueryError, BlockResult, ReorgSignal}
use shinzo_generator_client.Processor.Run.{ErrorText, StoreCompletion}

abbrev pub max_rpc_retries : ℕ
max_rpc_retries = 3

-- One attempt: whether the context is done before it, what the call returns, and whether the
-- context is done during the wait after it.
pub record Attempt (A : Type 0) : Type 0 where
  pub done_before : Bool
  pub reply : Result ErrorText A
  pub done_in_wait : Bool

pub data Fetched (A : Type 0) : Type 0 where
  fetched : A → Fetched A
  cancelled : Fetched A
  gave_up : ErrorText → Fetched A
  still_trying : Fetched A

module _ {A : Type 0} where
  -- a failed attempt, after `others` errors of another kind than not-found
  unfoldable pub after_failure : ErrorText → Bool → ℕ → (ℕ → Fetched A) → Fetched A
  after_failure e done others next =
      if e.not_found
      then if done then cancelled else next others
      else if leb max_rpc_retries (others + 1)
      then gave_up e
      else if done
      then cancelled
      else next (others + 1)

  unfoldable pub after_reply : Result ErrorText A → Bool → ℕ → (ℕ → Fetched A) → Fetched A
  unfolding after_failure
  after_reply (ok a) done others next = fetched a
  after_reply (err e) done others next = after_failure e done others next

  unfoldable pub fetch_from : List (Attempt A) → ℕ → Fetched A
  unfolding after_reply
  fetch_from [] others = still_trying
  fetch_from (t ∷ attempts) others =
      if t.done_before
      then cancelled
      else after_reply t.reply t.done_in_wait others (fetch_from attempts)

  -- `fetchBlockWithRetry` and `fetchHeaderByHashWithRetry`, over the attempts so far
  unfoldable pub fetch_with_retry : List (Attempt A) → Fetched A
  unfolding fetch_from
  fetch_with_retry attempts = fetch_from attempts 0

-- What `storeWithRetry` reports of the store; an existing block is also signed in the background.
pub data Stored : Type 0 where
  stored : String → Stored
  already_stored : Stored
  store_cancelled : Stored
  store_failed : ErrorText → Stored
  exhausted : Stored

-- an attempt's error, at `attempt`
after_store : Result ErrorText String → Bool → ℕ → Stored → Stored
after_store (ok block_id) done attempt next = stored block_id
after_store (err e) done attempt next =
    if e.already_exists
    then already_stored
    else if e.transaction_conflict && ltb attempt (max_rpc_retries - 1)
    then if done then store_cancelled else next
    else store_failed e

store_from : (ℕ → Attempt String) → ℕ → ℕ → Stored
unfolding after_store
store_from attempts zero attempt = exhausted
store_from attempts (suc left) attempt =
    let t = attempts attempt in
    let next = store_from attempts left (suc attempt) in
    if t.done_before then store_cancelled else after_store t.reply t.done_in_wait attempt next

-- `storeWithRetry`
unfoldable pub store_with_retry : (ℕ → Attempt String) → Stored
unfolding store_from
store_with_retry attempts = store_from attempts max_rpc_retries 0

-- `detectStaleOrphan`, given the stored hash at the item's height
stale_reply : BlockResult → Result QueryError String → Option ReorgSignal
stale_reply item (err e) = none
stale_reply item (ok stored_hash) =
    if str_eq stored_hash ""
    then none
    else if str_eq stored_hash item.hash
    then none
    else some (record {
      rollback_from = item.block_num;
      orphan_hash = stored_hash;
      chain_hash = item.hash;
    })

unfoldable pub detect_stale_orphan : BlockResult → Result QueryError String → Option ReorgSignal
unfolding stale_reply
detect_stale_orphan item reply = if str_eq item.hash "" then none else stale_reply item reply

no_text : ErrorText
no_text = record {
  not_found = false;
  already_exists = false;
  transaction_conflict = false;
  document_deleted = false;
}

-- the error of the result, if it is not a success; those that the run makes itself have no text
store_error_of : Stored → Option ErrorText
unfolding no_text
store_error_of (stored block_id) = none
store_error_of already_stored = none
store_error_of store_cancelled = some no_text
store_error_of (store_failed e) = some e
store_error_of exhausted = some no_text

stale_of : Option ErrorText → Bool → BlockResult → Result QueryError String → Option ReorgSignal
unfolding detect_stale_orphan
stale_of none has_handler item reply = none
stale_of (some e) has_handler item reply =
    if not e.document_deleted && has_handler then detect_stale_orphan item reply else none

-- `runStoreTask`: the completion that the pool reports
unfoldable pub run_store_task :
    (ℕ → Attempt String) → Bool → Result QueryError String → BlockResult → StoreCompletion
unfolding store_with_retry store_error_of stale_of
run_store_task attempts has_handler reply item =
    let e = store_error_of (store_with_retry attempts) in
    record { item = item; store_error = e; stale = stale_of e has_handler item reply }

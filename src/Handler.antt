-- ===== src/Handler.antt =====
-- pkg/defra/block_handler.go: a block's documents are written in transactions, and the CIDs of the
-- committed ones are signed. DefraDB, the signer and the clock are the parameter `Env`.
pub mod Ensures
pub mod Writes
pub mod Batches
pub mod Signing
pub mod Existing
pub mod Groups
pub mod Store
pub mod Tests
use shinzo_generator_client.Prelude.{
  ℕ, ◌+◌, String, List, [], ◌∷◌, ◌++◌, Bool, true, false, Option, none, some, Result, ok, err,
}
use shinzo_generator_client.Chains.{Doc, LinkError}
use shinzo_generator_client.Processor.Run.{ErrorText}

-- What a write in a transaction leaves: the transaction, the CIDs that the context's collector took,
-- and its outcome.
pub record Write (T A : Type 0) : Type 0 where
  pub txn : T
  pub collected : List String
  pub outcome : Result ErrorText A

-- node.BatchSignature
pub record Signature : Type 0 where
  pub merkle_root_hex : String
  pub cid_count : ℕ
  pub signature_type : String
  pub identity : String
  pub value_hex : String

-- What the handler calls. `S` is the world outside, which also changes while the handler waits; a
-- discarded transaction leaves nothing in it. AddManyDocuments gives every document its ID, by its
-- index. A query for IDs answers with its rows, of which some have no ID.
pub record Env (S T C D : Type 0) : Type 0 where
  pub new_txn : S → Result ErrorText T
  pub get_collection_by_name : T → String → Result ErrorText C
  pub new_doc_from_map : Doc → C → Result ErrorText D
  pub add_document : C → D → T → Write T String
  pub add_many_documents : C → List D → T → Write T (ℕ → String)
  pub commit : T → S → S × Option ErrorText
  pub context_done : S → Bool
  pub wait : ℕ → S → S × Bool
  pub now : S → String
  pub sort_strings : List String → List String
  pub sign_batch : List String → S → Result ErrorText (Option Signature)
  pub verify_batch_sig : Signature → List String → Result ErrorText Bool
  pub collect_doc_cids : List String → List String → S → Result ErrorText (List String)
  pub query_doc_ids : String → String → ℕ → ℕ → S → Result ErrorText (List (Option String))

-- The errors that the handler returns. One that wraps DefraDB's keeps its text; `previously_stored`
-- carries the IDs that are returned beside it.
pub data StoreError : Type 0 where
  defra : ErrorText → StoreError
  context_ended : StoreError
  no_groups no_block_document invalid_block_number : StoreError
  block_already_exists : StoreError
  previously_stored : List String → ℕ → ℕ → StoreError
  link : LinkError → StoreError
  no_signature self_verification : StoreError
  empty_block_num_field : String → StoreError
  incomplete_block : String → ℕ → ℕ → StoreError
  no_cids : ℕ → StoreError
  incomplete_cids : ℕ → ℕ → StoreError
  partially_indexed : ℕ → StoreError → StoreError

-- IsErrTransactionConflict: only a text of DefraDB's has it
pub is_transaction_conflict : StoreError → Bool
is_transaction_conflict (defra e) = e.transaction_conflict
is_transaction_conflict (partially_indexed n e) = is_transaction_conflict e
is_transaction_conflict _ = false

-- The state: the world outside, and the collector that `Store` puts in the context.
pub record World (S : Type 0) : Type 0 where
  pub outside : S
  pub cids : List String

-- A step of the handler changes the state and returns a value or an error.
abbrev pub Action : Type 0 → Type 0 → Type 0
Action S A = World S → World S × Result StoreError A

-- a call whose error is wrapped
abbrev pub wrap : {A : Type 0} → Result ErrorText A → Result StoreError A
wrap (ok a) = ok a
wrap (err e) = err (defra e)

module _ {S : Type 0} where
  infixl 5 ◌>>=◌
  -- an error is returned at once
  abbrev pub and_then :
      {A B : Type 0}
      → (A → Action S B)
      → World S × Result StoreError A
      → World S × Result StoreError B
  and_then next (w, ok a) = next a w
  and_then next (w, err e) = (w, err e)

  unfoldable pub ◌>>=◌ : {A B : Type 0} → Action S A → (A → Action S B) → Action S B
  (step >>= next) w = and_then next (step w)

  infixl 5 ◌>>◌
  abbrev pub ◌>>◌ : {A B : Type 0} → Action S A → Action S B → Action S B
  step >> rest = step >>= λ value. rest

  unfoldable pub pure : {A : Type 0} → A → Action S A
  pure a w = (w, ok a)

  unfoldable pub throw : {A : Type 0} → StoreError → Action S A
  throw e w = (w, err e)

  unfoldable pub call : {A : Type 0} → Result ErrorText A → Action S A
  call r w = (w, wrap r)

  -- a write: the collector takes its CIDs
  unfoldable pub collect : List String → Action S (Unit {0})
  collect more w = (record w { cids = w.cids ++ more }, ok tt)

  unfoldable pub open_txn : {T C D : Type 0} → Env S T C D → Action S T
  open_txn env w = (w, wrap (env.new_txn w.outside))

  pub committed : World S → S × Option ErrorText → World S × Result StoreError (Unit {0})
  committed w (s, none) = (record w { outside = s }, ok tt)
  committed w (s, some e) = (record w { outside = s }, err (defra e))

  unfoldable pub commit_txn : {T C D : Type 0} → Env S T C D → T → Action S (Unit {0})
  unfolding committed
  commit_txn env txn w = committed w (env.commit txn w.outside)

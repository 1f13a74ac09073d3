-- ===== src/Handler/Existing/Complete.antt =====
-- What a signature that `SignExisting` returns stands for.
use shinzo_generator_client.Prelude.{ℕ, ◌≤◌, ◌≡◌, String, List, [], ◌∷◌, ◌++◌, Result, ok, length}
use shinzo_generator_client.Chains.{DocumentGroup}
use shinzo_generator_client.Handler.{Env, World, StoreError}
use shinzo_generator_client.Handler.Ensures.{Ensures, Holds}
use shinzo_generator_client.Handler.Batches.{BlockHandler}
use shinzo_generator_client.Handler.Signing.Verified.{IsSigned}
use shinzo_generator_client.Handler.Store.Signed.{doc_count}
use shinzo_generator_client.Handler.Existing.{query_collection_doc_ids}

module _ {S T C D : Type 0} (env : Env S T C D) where
  module _ (h : BlockHandler) (all_doc_ids names : List String) where
    -- the store gave these CIDs, at least one for each document
    record Covering (cids : List String) : Type 0 where
      asked_in : S
      given : env.collect_doc_cids all_doc_ids names asked_in ≡ ok cids
      enough : length all_doc_ids ≤ length cids

    -- the collector is that of `w0`, and the CIDs that are returned cover the documents
    abbrev Waits : World S → World S × Result StoreError (List String) → Type 0
    Waits w0 r = (r.0.cids ≡ w0.cids) × Holds Covering r.1

    abbrev NextWaits : World S → (World S → World S × Result StoreError (List String)) → Type 0
    NextWaits w0 next = (w : World S) → w.cids ≡ w0.cids → Waits w0 (next w)

  -- a query for the group's collection at the height gave these IDs, at least as many as the group
  -- has documents
  abbrev pub IsComplete : ℕ → DocumentGroup → List String → Type 0
  IsComplete block_number g ids =
      (s : S) × (query_collection_doc_ids
          (λ a b. env.query_doc_ids g.collection g.block_num_field a b s) block_number block_number
        ≡ ok ids)
      × (length g.docs ≤ length ids)

  -- the IDs that the queries for the groups gave, in order, and the groups' collections
  pub data Finds (block_number : ℕ) : List DocumentGroup → List String → List String → Type 0 where
    no_group : Finds block_number [] [] []
    group :
        {g : DocumentGroup} {groups : List DocumentGroup} {ids all_ids names : List String}
        → IsComplete block_number g ids
        → Finds block_number groups all_ids names
        → Finds block_number (g ∷ groups) (ids ++ all_ids) (g.collection ∷ names)

  -- what the loop over the groups adds to the IDs and names so far
  abbrev Collects :
      ℕ → List DocumentGroup → List String → List String → List String × List String → Type 0
  Collects block_number groups all_doc_ids names found =
      (ids : List String) × (more : List String) × Finds block_number groups ids more
      × (found.0 ≡ all_doc_ids ++ ids)
      × (found.1 ≡ names ++ more)

-- The documents that the store holds for the groups of a block, and the signature over the CIDs that
-- the store gave for exactly these documents, at least one for each.
pub record IsBacked {S T C D : Type 0} (env : Env S T C D) (block_number : ℕ)
    (groups : List DocumentGroup) : Type 0 where
  pub ids : List String
  pub names : List String
  pub finds : Finds env block_number groups ids names
  pub cids : List String
  pub asked_in : S
  pub given : env.collect_doc_cids ids names asked_in ≡ ok cids
  pub covered : length ids ≤ length cids
  pub all_covered : doc_count groups ≤ length cids
  pub is_signed : IsSigned env cids

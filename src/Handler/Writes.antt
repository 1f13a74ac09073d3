-- ===== src/Handler/Writes.antt =====
-- The transactions that write documents: `storeBlockDoc`, `createDocsInTxn`,
-- `writeBatchSkipExisting` and `addDocsSkipExisting`.
pub mod Counts
use shinzo_generator_client.Prelude.{
  ℕ, zero, suc, String, List, [], ◌∷◌, ◌++◌, Result, ok, err, ltb, if◌then◌else◌, length,
}
use shinzo_generator_client.Chains.{Doc}
use shinzo_generator_client.Processor.Run.{ErrorText}
use shinzo_generator_client.Handler.{
  Env, defra, block_already_exists, previously_stored, Action, ◌>>=◌, ◌>>◌, pure, throw, call,
  collect, open_txn, commit_txn,
}

-- f(0), …, f(n - 1)
pub tabulate : {A : Type 0} → (ℕ → A) → ℕ → List A
tabulate f zero = []
tabulate f (suc n) = f 0 ∷ tabulate (λ i. f (suc i)) n

module _ {S T C D : Type 0} (env : Env S T C D) where
  block_added : Result ErrorText String → T → Action S String
  unfolding commit_txn
  block_added (ok id) txn = do commit_txn env txn; pure id
  block_added (err e) txn = throw (if e.already_exists then block_already_exists else defra e)

  -- `storeBlockDoc`
  unfoldable pub store_block_doc : Doc → String → Action S String
  unfolding block_added
  store_block_doc block_data block_col_name = do
    txn ← open_txn env
    col ← call (env.get_collection_by_name txn block_col_name)
    doc ← call (env.new_doc_from_map block_data col)
    let a = env.add_document col doc txn
    collect a.collected
    block_added a.outcome a.txn

  new_docs : C → List Doc → Action S (List D)
  new_docs col [] = pure []
  new_docs col (data_map ∷ data_maps) = do
    doc ← call (env.new_doc_from_map data_map col)
    docs ← new_docs col data_maps
    pure (doc ∷ docs)

  -- a document of `addDocsSkipExisting`, with the IDs and the skips so far
  added :
      Result ErrorText String
      → List String
      → ℕ
      → (List String → ℕ → Action S (T × List String × ℕ))
      → Action S (T × List String × ℕ)
  added (ok id) written skipped next = next (written ++ id ∷ []) skipped
  added (err e) written skipped next =
      if e.already_exists then next written (suc skipped) else throw (defra e)

  add_each : C → List Doc → T → List String → ℕ → Action S (T × List String × ℕ)
  unfolding added
  add_each col [] txn written skipped = pure (txn, written, skipped)
  add_each col (data_map ∷ data_maps) txn written skipped = do
    doc ← call (env.new_doc_from_map data_map col)
    let a = env.add_document col doc txn
    collect a.collected
    added a.outcome written skipped (add_each col data_maps a.txn)

  commit_written : T × List String × ℕ → Action S (List String × ℕ)
  unfolding commit_txn
  commit_written (txn, [], skipped) = pure ([], skipped)
  commit_written (txn, id ∷ written, skipped) = do commit_txn env txn; pure (id ∷ written, skipped)

  -- `addDocsSkipExisting`: the IDs written and the number of skips
  add_docs_skip_existing : String → List Doc → Action S (List String × ℕ)
  unfolding add_each commit_written
  add_docs_skip_existing col_name data_maps = do
    txn ← open_txn env
    col ← call (env.get_collection_by_name txn col_name)
    added ← add_each col data_maps txn [] 0
    commit_written added

  -- `writeBatchSkipExisting`
  refuse_skips : ℕ → List String × ℕ → Action S (List String)
  refuse_skips docs (ids, skipped) =
      if ltb 0 skipped then throw (previously_stored ids skipped docs) else pure ids

  write_batch_skip_existing : String → List Doc → Action S (List String)
  unfolding add_docs_skip_existing refuse_skips
  write_batch_skip_existing col_name data_maps = do
    written ← add_docs_skip_existing col_name data_maps
    refuse_skips (length data_maps) written

  bulk_added :
      Result ErrorText (ℕ → String) → T → ℕ → Action S (List String) → Action S (List String)
  unfolding commit_txn tabulate
  bulk_added (ok id) txn docs per_document = do commit_txn env txn; pure (tabulate id docs)
  bulk_added (err e) txn docs per_document =
      if e.already_exists then per_document else throw (defra e)

  write_docs : String → List Doc → C → List D → T → Action S (List String)
  unfolding bulk_added write_batch_skip_existing
  write_docs col_name data_maps col [] txn = pure []
  write_docs col_name data_maps col (doc ∷ docs) txn = do
    let a = env.add_many_documents col (doc ∷ docs) txn
    let per_document = write_batch_skip_existing col_name data_maps
    collect a.collected
    bulk_added a.outcome a.txn (suc (length docs)) per_document

  -- `createDocsInTxn`
  unfoldable pub create_docs_in_txn : String → List Doc → Action S (List String)
  unfolding new_docs write_docs
  create_docs_in_txn col_name data_maps = do
    txn ← open_txn env
    col ← call (env.get_collection_by_name txn col_name)
    docs ← new_docs col data_maps
    write_docs col_name data_maps col docs txn

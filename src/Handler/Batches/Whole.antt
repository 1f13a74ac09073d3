-- ===== src/Handler/Batches/Whole.antt =====
-- How many documents a group's batches write.
use shinzo_generator_client.Prelude.{
  ℕ, ◌+◌, ◌<◌, ◌≡◌, ap, subst, arith, String, List, [], ◌∷◌, ◌++◌, Option, none, some, Result, ok,
  err, ◌==◌, Bool-cases, inl, inr, length, length-append,
}
use shinzo_generator_client.Chains.{Doc, DocumentGroup}
use shinzo_generator_client.Handler.{Env, World, StoreError}
use shinzo_generator_client.Handler.Ensures.{Holds}
use shinzo_generator_client.Handler.Writes.{create_docs_in_txn}
use shinzo_generator_client.Handler.Writes.Counts.{create_docs_in_txn-length}
use shinzo_generator_client.Handler.Batches.{
  BlockHandler, batch_written, create_doc_batch, write_group,
}
use shinzo_generator_client.Handler.Batches.Retry.{Settles, batch_with_retry-Settles}
use shinzo_generator_client.Handler.Batches.Chunks.{concat, write_in_turn, create_doc_batch-chunks}

-- without an error, there are `n` IDs
abbrev pub Counts : {S : Type 0} → ℕ → World S × List String × Option StoreError → Type 0
Counts n (w, ids, none) = length ids ≡ n
Counts n (w, ids, some e) = Unit

module _ {S T C D : Type 0} (env : Env S T C D) (col_name : String) where
  settled-length :
      (batch : List Doc) (w : World S) (r : World S × Result StoreError (List String))
      → Settles (create_docs_in_txn env col_name batch) w r
      → Holds (λ ids. length ids ≡ length batch) r.1
  settled-length batch w (w', ok ids) (w1, same, run) =
      subst (λ r. Holds (λ ids. length ids ≡ length batch) r.1) run
        ((create_docs_in_txn-length env col_name batch).holds w1)
  settled-length batch w (w', err e) h = tt

  batch_written-Counts :
      (n : ℕ) (batch : List Doc) (all_ids : List String)
      (r : World S × Result StoreError (List String))
      (next : List String → World S → World S × List String × Option StoreError)
      → Holds (λ ids. length ids ≡ length batch) r.1
      → ((ids : List String) (w : World S)
          → length ids ≡ length all_ids + length batch
          → Counts n (next ids w))
      → Counts n (batch_written env all_ids r next)
  unfolding batch_written
  batch_written-Counts n batch all_ids (w, ok ids) next h k =
      k (all_ids ++ ids) w (omega (arith, h, length-append all_ids ids))
  batch_written-Counts n batch all_ids (w, err e) next h k = tt

  write_in_turn-Counts :
      (n : ℕ) (batches : List (List Doc)) (all_ids : List String) (w : World S)
      → length all_ids + length (concat batches) ≡ n
      → Counts n (write_in_turn env col_name batches all_ids w)
  unfolding write_in_turn concat
  write_in_turn-Counts n [] all_ids w h = omega (arith, h)
  write_in_turn-Counts n (batch ∷ batches) all_ids w h =
      batch_written-Counts n batch all_ids _ _
        (settled-length batch w _ (batch_with_retry-Settles env col_name batch w))
        (λ ids w' added.
          write_in_turn-Counts n batches ids w'
            (omega (arith, h, added, length-append batch (concat batches))))

  create_doc_batch-Counts :
      (data_maps : List Doc) (batch_size : ℕ) (w : World S)
      → 0 < batch_size
      → Counts (length data_maps) (create_doc_batch env col_name data_maps batch_size w)
  create_doc_batch-Counts data_maps batch_size w pos =
      let (batches, whole, sizes, runs) =
        create_doc_batch-chunks env col_name data_maps batch_size pos in
      rw (runs w)
        (write_in_turn-Counts (length data_maps) batches [] w (omega (arith, ap length whole)))

pub write_group-Counts :
    {S T C D : Type 0} (env : Env S T C D) (h : BlockHandler) (g : DocumentGroup) (w : World S)
    → 0 < h.max_docs_per_txn
    → Counts (length g.docs) (write_group env h g w)
unfolding write_group
write_group-Counts env h g w pos = elim (Bool-cases (g.batch_size == 0)) [
  | inl unset ↦ rw unset (create_doc_batch-Counts env g.collection g.docs h.max_docs_per_txn w pos)
  | inr own ↦ rw own (create_doc_batch-Counts env g.collection g.docs g.batch_size w (ground arith))
]

-- ===== src/Handler/Batches/Retry.antt =====
-- What the retries of a batch leave in the collector.
use shinzo_generator_client.Prelude.{
  ℕ, zero, suc, ◌-◌, ◌≡◌, refl, ◌∙◌, ap, String, List, Bool, true, false, not, Result, ok, err,
  ◌==◌, Bool-cases, inl, inr, length, take, take-length-append,
}
use shinzo_generator_client.Chains.{Doc}
use shinzo_generator_client.Handler.{Env, World, StoreError, Action, is_transaction_conflict}
use shinzo_generator_client.Handler.Ensures.{Ensures, Grows}
use shinzo_generator_client.Handler.Writes.{create_docs_in_txn}
use shinzo_generator_client.Handler.Writes.Counts.{create_docs_in_txn-length}
use shinzo_generator_client.Handler.Batches.{
  max_batch_retries, waited, retry_or_fail, attempted, attempts, write_batch_with_retry,
}

-- Behind an error the collector is as it was. A value comes from an attempt that began with the
-- collector as it was.
abbrev pub Settles : {S A : Type 0} → Action S A → World S → World S × Result StoreError A → Type 0
Settles write w (w', ok a) = (w1 : World _) × (w1.cids ≡ w.cids) × (write w1 ≡ (w', ok a))
Settles write w (w', err e) = w'.cids ≡ w.cids

module _ {S T C D A : Type 0} (env : Env S T C D) (write : Action S A) (w0 : World S) where
  waited-Settles :
      (w : World S) (r : S × Bool) (next : World S → World S × Result StoreError A)
      → w.cids ≡ w0.cids
      → ((w' : World S) → w'.cids ≡ w0.cids → Settles write w0 (next w'))
      → Settles write w0 (waited env write w r next)
  unfolding waited
  waited-Settles w (s, true) next h k = h
  waited-Settles w (s, false) next h k = k (record w { outside = s }) h

  attempted-Settles :
      (attempt : ℕ) (w : World S) (r : World S × Result StoreError A)
      (next : World S → World S × Result StoreError A)
      → w.cids ≡ w0.cids
      → write w ≡ r
      → Grows w r.0
      → ((w' : World S) → w'.cids ≡ w0.cids → Settles write w0 (next w'))
      → Settles write w0 (attempted env write (length w.cids) attempt r next)
  unfolding attempted retry_or_fail
  attempted-Settles attempt w (w', ok a) next h run grows k = (w, h, run)
  attempted-Settles attempt w (w', err e) next h run (more, grown) k =
      let back : take (length w.cids) w'.cids ≡ w0.cids =
        ap (take (length w.cids)) grown ∙ take-length-append w.cids more ∙ h in
      elim (Bool-cases (not (is_transaction_conflict e))) [
        | inl other ↦ rw other back
        | inr conflict ↦ rw conflict (elim (Bool-cases (attempt == max_batch_retries - 1)) [
          | inl last ↦ rw last back
          | inr left ↦
              rw left
                (waited-Settles (record w' { cids = take (length w.cids) w'.cids }) _ next back k)
        ])
      ]

  module _ {P : A → Type 0} (post : Ensures P write) where
    attempts-Settles :
        (left attempt : ℕ) (w : World S)
        → w.cids ≡ w0.cids
        → Settles write w0 (attempts env write left attempt w)
    unfolding attempts
    attempts-Settles zero attempt w h =
        attempted-Settles attempt w (write w) _ h refl (post.grows w) (λ w' h'. h')
    attempts-Settles (suc left) attempt w h =
        attempted-Settles attempt w (write w) _ h refl (post.grows w)
          (attempts-Settles left (suc attempt))

pub write_batch_with_retry-Settles :
    {S T C D A : Type 0} (env : Env S T C D) (write : Action S A) {P : A → Type 0}
    → Ensures P write
    → (w : World S) → Settles write w (write_batch_with_retry env write w)
unfolding write_batch_with_retry
write_batch_with_retry-Settles env write post w =
    attempts-Settles env write w post (max_batch_retries - 1) 0 w refl

-- The write of a batch, however often it is retried and whatever DefraDB answers: when it fails,
-- the collector holds exactly the CIDs that it held before; when it succeeds, the state is that of
-- one attempt that began with those CIDs, so that no discarded attempt has left any.
pub batch_with_retry-Settles :
    {S T C D : Type 0} (env : Env S T C D) (col_name : String) (data_maps : List Doc) (w : World S)
    → Settles
        (create_docs_in_txn env col_name data_maps)
        w
        (write_batch_with_retry env (create_docs_in_txn env col_name data_maps) w)
batch_with_retry-Settles env col_name data_maps w =
    write_batch_with_retry-Settles env _ (create_docs_in_txn-length env col_name data_maps) w

-- ===== src/Handler/Signing/Verified.antt =====
-- What a returned signature stands for.
use shinzo_generator_client.Prelude.{
  ℕ, ◌≡◌, ◌≢◌, refl, ◌∙◌, ap, String, List, [], ◌∷◌, Bool, true, false, Option, none, some, Result,
  ok, err, ◌==◌, ==_iff, Bool-cases, inl, inr, length,
}
use shinzo_generator_client.Processor.Run.{ErrorText}
use shinzo_generator_client.Handler.{Env, World, Signature, StoreError}
use shinzo_generator_client.Handler.Ensures.{
  Ensures, Holds, Ensures-then, Ensures-pure, Ensures-throw, Ensures-call, Ensures-ask,
  Ensures-collect, Ensures-open_txn, Ensures-commit_txn,
}
use shinzo_generator_client.Handler.Signing.{
  build_block_signature_data, require_valid, require_signature, signature_added, store_signature,
  sign_block_over_cids, text_or_none, sign_stored_block,
}

-- the signer made a signature over the CIDs, and it verifies over them
pub record IsSigned {S T C D : Type 0} (env : Env S T C D) (cids : List String) : Type 0 where
  pub signature : Signature
  pub signed_in : S
  pub signed : env.sign_batch cids signed_in ≡ ok (some signature)
  pub verified : env.verify_batch_sig signature cids ≡ ok true

module _ {S T C D : Type 0} (env : Env S T C D) where
  require_signature-some :
      (o : Option Signature) → Ensures (λ sig. o ≡ some sig) (require_signature env o)
  unfolding require_signature
  require_signature-some (some sig) = Ensures-pure _ refl
  require_signature-some none = Ensures-throw _

  require_valid-true : (b : Bool) → Ensures (λ t. b ≡ true) (require_valid env b)
  unfolding require_valid
  require_valid-true true = Ensures-pure _ refl
  require_valid-true false = Ensures-throw _

  signature_added-Ensures :
      {X : Type 0} (r : Result ErrorText String) (txn : T)
      → X
      → Ensures (λ id. X) (signature_added env r txn)
  unfolding signature_added
  signature_added-Ensures (ok id) txn x =
      Ensures-then (Ensures-commit_txn env txn) (λ t t'. Ensures-pure _ x)
  signature_added-Ensures (err e) txn x = Ensures-throw _

  store_signature-Ensures :
      {X : Type 0} (sig : Signature) (block_hash : String) (block_number : ℕ) (cids : List String)
      (signature_collection : String)
      → X
      → Ensures
          (λ id. X)
          (store_signature env sig block_hash block_number cids signature_collection)
  unfolding store_signature
  store_signature-Ensures sig block_hash block_number cids signature_collection x =
      Ensures-then (Ensures-open_txn env) (λ txn t. Ensures-then (Ensures-call _) (λ col t'.
        Ensures-then
          (Ensures-ask (λ s.
            env.new_doc_from_map
              (build_block_signature_data env sig block_hash block_number (env.sort_strings cids) s)
              col))
          (λ doc asked. Ensures-then (Ensures-collect _) (λ u u'. signature_added-Ensures _ _ x))))

  pub sign_block_over_cids-IsSigned :
      (block_number : ℕ) (block_hash : String) (cids : List String) (signature_collection : String)
      → Ensures
          (λ id. IsSigned env cids)
          (sign_block_over_cids env block_number block_hash cids signature_collection)
  unfolding sign_block_over_cids
  sign_block_over_cids-IsSigned block_number block_hash cids signature_collection =
      Ensures-then (Ensures-ask (env.sign_batch cids)) (λ o asked.
        Ensures-then (require_signature-some o) (λ sig made.
          Ensures-then (Ensures-call (env.verify_batch_sig sig cids)) (λ valid checked.
            Ensures-then (require_valid-true valid) (λ t holds.
              store_signature-Ensures sig block_hash block_number cids signature_collection
                (record {
                  signature = sig;
                  signed_in = asked.0;
                  signed = asked.1 ∙ ap ok made;
                  verified = checked ∙ ap ok holds;
                })))))

  -- a text that is not empty is that of a signature
  text_or_none-Holds :
      {X : Type 0} (r : World S × Result StoreError String)
      → Holds (λ id. X) r.1
      → (text_or_none env r).1 ≢ ""
      → X
  unfolding text_or_none
  text_or_none-Holds (w, ok id) h signed = h
  text_or_none-Holds (w, err e) h signed = absurd (signed refl)

  pub sign_stored_block-IsSigned :
      (block_int : ℕ) (block_hash : String) (all_doc_ids : List String) (errors : List StoreError)
      (signature_collection : String) (w : World S)
      → (sign_stored_block env block_int block_hash all_doc_ids errors signature_collection w).1
        ≢ ""
      → (errors ≡ []) × (length w.cids ≡ length all_doc_ids) × IsSigned env w.cids
  unfolding sign_stored_block
  sign_stored_block-IsSigned block_int block_hash all_doc_ids [] signature_collection w signed =
      elim (Bool-cases (length w.cids == length all_doc_ids)) [
        | inl same ↦ (
          refl,
          (==_iff (length w.cids) (length all_doc_ids)).0 same,
          text_or_none-Holds _
              ((sign_block_over_cids-IsSigned block_int block_hash w.cids
                  signature_collection).holds
                w)
              (rw same at signed),
        )
        | inr other ↦ absurd ((rw other at signed) refl)
      ]
  sign_stored_block-IsSigned block_int block_hash all_doc_ids (e ∷ es) signature_collection w
        signed =
      absurd (signed refl)

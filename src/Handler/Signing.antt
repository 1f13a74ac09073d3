-- ===== src/Handler/Signing.antt =====
-- The block signature: `signBlockOverCIDs`, `buildBlockSignatureDocument` and `signStoredBlock`.
pub mod Verified
use shinzo_generator_client.Prelude.{
  ℕ, String, List, [], ◌∷◌, Bool, true, false, Option, none, some, Result, ok, err, ◌==◌,
  if◌then◌else◌, length,
}
use shinzo_generator_client.Chains.{Doc, text, number, texts}
use shinzo_generator_client.Processor.Run.{ErrorText}
use shinzo_generator_client.Handler.{
  Env, World, Signature, StoreError, defra, no_signature, self_verification, Action, ◌>>=◌, ◌>>◌,
  pure, throw, call, collect, open_txn, commit_txn,
}

module _ {S T C D : Type 0} (env : Env S T C D) where
  build_block_signature_data : Signature → String → ℕ → List String → S → Doc
  build_block_signature_data sig block_hash block_number sorted_cids outside =
      ("blockNumber", number block_number)
      ∷ ("blockHash", text block_hash)
      ∷ ("merkleRoot", text sig.merkle_root_hex)
      ∷ ("cidCount", number sig.cid_count)
      ∷ ("cids", texts sorted_cids)
      ∷ ("signatureType", text sig.signature_type)
      ∷ ("signatureIdentity", text sig.identity)
      ∷ ("signatureValue", text sig.value_hex)
      ∷ ("createdAt", text (env.now outside))
      ∷ []

  require_valid : Bool → Action S (Unit {0})
  require_valid true = pure tt
  require_valid false = throw self_verification

  require_signature : Option Signature → Action S Signature
  require_signature (some sig) = pure sig
  require_signature none = throw no_signature

  signature_added : Result ErrorText String → T → Action S String
  unfolding commit_txn
  signature_added (ok id) txn = do commit_txn env txn; pure id
  signature_added (err e) txn = throw (defra e)

  store_signature : Signature → String → ℕ → List String → String → Action S String
  unfolding build_block_signature_data signature_added
  store_signature sig block_hash block_number cids signature_collection = do
    txn ← open_txn env
    col ← call (env.get_collection_by_name txn signature_collection)
    doc ← λ w.
        call
          (env.new_doc_from_map
            (build_block_signature_data sig block_hash block_number (env.sort_strings cids)
              w.outside)
            col)
          w
    let a = env.add_document col doc txn
    collect a.collected
    signature_added a.outcome a.txn

  -- `signBlockOverCIDs`; the new collector holds `cids`
  unfoldable pub sign_block_over_cids : ℕ → String → List String → String → Action S String
  unfolding require_signature require_valid store_signature
  sign_block_over_cids block_number block_hash cids signature_collection = do
    signed ← λ w. call (env.sign_batch cids w.outside) w
    sig ← require_signature signed
    valid ← call (env.verify_batch_sig sig cids)
    require_valid valid
    store_signature sig block_hash block_number cids signature_collection

  text_or_none : World S × Result StoreError String → World S × String
  text_or_none (w, ok id) = (w, id)
  text_or_none (w, err e) = (w, "")

  -- `signStoredBlock`: an empty text is no signature
  unfoldable pub sign_stored_block :
      ℕ → String → List String → List StoreError → String → World S → World S × String
  unfolding text_or_none sign_block_over_cids
  sign_stored_block block_int block_hash all_doc_ids [] signature_collection w =
      if length w.cids == length all_doc_ids
      then text_or_none (sign_block_over_cids block_int block_hash w.cids signature_collection w)
      else (w, "")
  sign_stored_block block_int block_hash all_doc_ids (e ∷ es) signature_collection w = (w, "")

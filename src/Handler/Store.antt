-- ===== src/Handler/Store.antt =====
-- `Store`: the groups of a block, one after another, and then its signature.
pub mod Signed
use shinzo_generator_client.Prelude.{
  ℕ, suc, String, List, [], ◌∷◌, Option, none, some, Result, ok, err, length,
}
use shinzo_generator_client.Dict.{Dict, lookup}
use shinzo_generator_client.Chains.{
  Doc, Value, text, number, flag, texts, text_at, DocumentGroup, LinkError, ConversionResult,
}
use shinzo_generator_client.Handler.{
  Env, World, StoreError, link, no_groups, no_block_document, invalid_block_number,
  partially_indexed,
}
use shinzo_generator_client.Handler.Writes.{store_block_doc}
use shinzo_generator_client.Handler.Batches.{BlockHandler}
use shinzo_generator_client.Handler.Groups.{
  Progress, stamp_before_write, record_doc_ids, recorded, store_groups,
}
use shinzo_generator_client.Handler.Signing.{sign_stored_block}

-- BlockCreationResult
pub record BlockCreationResult : Type 0 where
  pub block_number : ℕ
  pub block_id : String
  pub block_signature_id : String
  pub block_signature_collection : String
  pub other_doc_ids : Dict (List String)

-- `toInt64`
to_int64 : Option Value → Result StoreError ℕ
to_int64 (some (number n)) = ok n
to_int64 (some (text s)) = err invalid_block_number
to_int64 (some (flag b)) = err invalid_block_number
to_int64 (some (texts ss)) = err invalid_block_number
to_int64 none = err invalid_block_number

-- a missing text is the empty one
or_empty : Option String → String
or_empty none = ""
or_empty (some s) = s

-- What `Store` returns: an error may come with a result.
pub record Outcome : Type 0 where
  pub creation : Option BlockCreationResult
  pub error : Option StoreError

pub failed : StoreError → Outcome
failed e = record { creation = none; error = some e }

pub partial_error : List StoreError → Option StoreError
partial_error [] = none
partial_error (e ∷ es) = some (partially_indexed (suc (length es)) e)

-- the document of the block, which the stamper may have changed in place
head_or : Doc → List Doc → Doc
head_or doc [] = doc
head_or doc (stamped ∷ docs) = stamped

module _ {S T C D L : Type 0} (env : Env S T C D) (h : BlockHandler)
    (track_block : BlockCreationResult → S → S) (result : ConversionResult L) where
  -- from the signature on; an error of the tracker is only logged
  pub conclude : ℕ → String → String → World S × Progress L → World S × Outcome
  unfolding sign_stored_block partial_error
  conclude block_int block_hash block_id (w, p) =
      let (w', sig_id) =
        sign_stored_block env block_int block_hash p.all_doc_ids p.batch_errors
          result.signature_collection w in
      let creation : BlockCreationResult = record {
        block_number = block_int;
        block_id = block_id;
        block_signature_id = sig_id;
        block_signature_collection = result.signature_collection;
        other_doc_ids = p.other_doc_ids;
      } in
      (
        record w' { outside = track_block creation w'.outside },
        record { creation = some creation; error = partial_error p.batch_errors },
      )

  first_progress : String → Progress L
  first_progress block_id = record {
    links = result.links;
    all_doc_ids = block_id ∷ [];
    other_doc_ids = [];
    batch_errors = [];
  }

  -- the progress when the block document is written; a failure to record its ID stops nothing
  pub block_written : DocumentGroup → List Doc → String → Progress L
  unfolding recorded record_doc_ids first_progress
  block_written g docs block_id =
      recorded (record_doc_ids result.link_stamper g docs (block_id ∷ []) result.links)
        (first_progress block_id)

  pub after_block :
      ℕ
      → String
      → DocumentGroup
      → List Doc
      → List DocumentGroup
      → World S × Result StoreError String
      → World S × Outcome
  unfolding failed conclude block_written store_groups
  after_block block_int block_hash g docs groups (w, err e) = (w, failed e)
  after_block block_int block_hash g docs groups (w, ok block_id) =
      conclude block_int block_hash block_id
        (store_groups env h result.link_stamper groups (block_written g docs block_id) w)

  store_stamped :
      ℕ
      → String
      → DocumentGroup
      → Doc
      → List DocumentGroup
      → List Doc × Option LinkError
      → World S
      → World S × Outcome
  unfolding failed after_block store_block_doc head_or
  store_stamped block_int block_hash g block_data groups (docs, some e) w = (w, failed (link e))
  store_stamped block_int block_hash g block_data groups (docs, none) w =
      after_block block_int block_hash g docs groups
        (store_block_doc env (head_or block_data docs) g.collection w)

  store_block :
      DocumentGroup → Doc → List DocumentGroup → Result StoreError ℕ → World S → World S × Outcome
  unfolding failed store_stamped or_empty text_at stamp_before_write
  store_block g block_data groups (err e) w = (w, failed e)
  store_block g block_data groups (ok block_int) w =
      store_stamped block_int (or_empty (text_at g.block_hash_field block_data)) g block_data groups
        (stamp_before_write result.link_stamper g result.links) w

  store_first : DocumentGroup → List Doc → List DocumentGroup → World S → World S × Outcome
  unfolding failed store_block to_int64
  store_first g [] groups w = (w, failed no_block_document)
  store_first g (block_data ∷ docs) groups w =
      store_block g block_data groups (to_int64 (lookup g.block_num_field block_data)) w

  store_all : List DocumentGroup → World S → World S × Outcome
  unfolding failed store_first
  store_all [] w = (w, failed no_groups)
  store_all (g ∷ groups) w = store_first g g.docs groups w

  -- `Store`, with a new collector
  unfoldable pub store : S → World S × Outcome
  unfolding store_all
  store outside = store_all result.groups (record { outside = outside; cids = [] })

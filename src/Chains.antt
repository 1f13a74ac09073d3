-- ===== src/Chains.antt =====
-- The data that pkg/chains passes from a converter to the block handler: documents as maps of
-- fields, groups of documents, and the stamper that writes links between documents.
use shinzo_generator_client.Prelude.{ℕ, String, List, Bool, Option, none, some}
use shinzo_generator_client.Dict.{Dict, lookup}

-- the values of a document's fields; a number is a height or an index
pub data Value : Type 0 where
  text : String → Value
  number : ℕ → Value
  flag : Bool → Value
  texts : List String → Value

abbrev pub Doc : Type 0
Doc = Dict Value

-- v, _ := doc[field].(string)
unfoldable pub text_of : Option Value → Option String
text_of (some (text s)) = some s
text_of (some (number n)) = none
text_of (some (flag b)) = none
text_of (some (texts ss)) = none
text_of none = none

unfoldable pub text_at : String → Doc → Option String
unfolding text_of
text_at field doc = text_of (lookup field doc)

-- DocumentGroup
pub record DocumentGroup : Type 0 where
  pub collection : String
  pub docs : List Doc
  pub batch_size : ℕ
  pub block_num_field : String
  pub block_hash_field : String
  pub parent_hash_field : String

-- the errors of a link stamper: the collection or the document that it cannot link
pub data LinkError : Type 0 where
  missing_hash : ℕ → LinkError
  no_block_doc_id : ℕ → LinkError
  unknown_collection : String → LinkError

-- LinkStamper, over the state that it keeps: the documents are stamped in place, so the call
-- returns them, and the recorded IDs change the state only.
pub record LinkStamper (L : Type 0) : Type 0 where
  pub stamp_before_write : String → List Doc → L → List Doc × Option LinkError
  pub record_doc_ids : String → List Doc → List String → L → L × Option LinkError

-- ConversionResult, with the state that its stamper starts in
pub record ConversionResult (L : Type 0) : Type 0 where
  pub groups : List DocumentGroup
  pub signature_collection : String
  pub link_stamper : Option (LinkStamper L)
  pub links : L

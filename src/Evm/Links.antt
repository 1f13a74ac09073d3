-- ===== src/Evm/Links.antt =====
-- pkg/chains/evm/link_stamper.go: links between the documents of a block, from the IDs that the
-- earlier groups were given.
pub mod Stamps
pub mod Records
use shinzo_generator_client.Prelude.{
  ℕ, zero, suc, ◌+◌, ◌<◌, String, List, [], ◌∷◌, ◌++◌, Bool, ◌||◌, Option, none, some, ltb, str_eq,
  if◌then◌else◌, get_elem?,
}
use shinzo_generator_client.Dict.{Dict, lookup, put}
use shinzo_generator_client.Chains.{
  Doc, Value, text, text_at, LinkError, missing_hash, no_block_doc_id, unknown_collection,
  LinkStamper,
}
use shinzo_generator_client.Evm.Collections.{CollectionNames}

-- evmLinkStamper, less the collection names; an empty block ID is none
pub record Links : Type 0 where
  pub ale_parent_refs : List String
  pub tx_hash_to_id : Dict String
  pub block_id : String

-- `newEvmLinkStamper`
unfoldable pub new_evm_link_stamper : List String → Links
new_evm_link_stamper ale_parent_refs = record {
  ale_parent_refs = ale_parent_refs;
  tx_hash_to_id = [];
  block_id = "";
}

-- a text that is there and not empty
required : Option String → Option String
required none = none
required (some s) = if str_eq s "" then none else some s

-- a stamped document in front of the rest, of which the loop goes on only without an error
stamped : Doc → List Doc × Option LinkError → List Doc × Option LinkError
stamped doc (docs, e) = (doc ∷ docs, e)

link_transaction : Option String → Doc → Doc
link_transaction none doc = doc
link_transaction (some id) doc = put "_transactionID" (text id) doc

-- the check of a document at the index `j`: its hash, and the block's ID
checked :
    Option String
    → ℕ
    → Links
    → (String → List Doc × Option LinkError)
    → List Doc
    → List Doc × Option LinkError
checked none j links next docs = (docs, some (missing_hash j))
checked (some hash) j links next docs =
    if str_eq links.block_id "" then (docs, some (no_block_doc_id j)) else next hash

stamp_transactions : List Doc → ℕ → Links → List Doc × Option LinkError
unfolding checked required stamped text_at
stamp_transactions [] j links = ([], none)
stamp_transactions (doc ∷ docs) j links =
    let rest = stamp_transactions docs (suc j) links in
    checked (required (text_at "hash" doc)) j links
      (λ hash. stamped (put "_blockID" (text links.block_id) doc) rest) (doc ∷ docs)

stamp_logs : List Doc → ℕ → Links → List Doc × Option LinkError
unfolding checked required stamped text_at link_transaction
stamp_logs [] j links = ([], none)
stamp_logs (doc ∷ docs) j links =
    let rest = stamp_logs docs (suc j) links in
    checked (required (text_at "transactionHash" doc)) j links
      (λ hash.
        stamped
          (link_transaction (lookup hash links.tx_hash_to_id)
            (put "_blockID" (text links.block_id) doc))
          rest)
      (doc ∷ docs)

parent_id : Option String → Links → Option String
parent_id none links = none
parent_id (some parent) links = lookup parent links.tx_hash_to_id

stamp_ales : List Doc → ℕ → Links → List Doc
unfolding parent_id link_transaction
stamp_ales [] j links = []
stamp_ales (doc ∷ docs) j links =
    link_transaction (parent_id (get_elem? links.ale_parent_refs j) links) doc
    ∷ stamp_ales docs (suc j) links

-- `StampBeforeWrite`
unfoldable pub stamp_before_write :
    CollectionNames → String → List Doc → Links → List Doc × Option LinkError
unfolding stamp_transactions stamp_logs stamp_ales
stamp_before_write cols collection docs links =
    if str_eq collection cols.block
    then (docs, none)
    else if str_eq collection cols.transaction
    then stamp_transactions docs 0 links
    else if str_eq collection cols.log
    then stamp_logs docs 0 links
    else if str_eq collection cols.access_list_entry
    then (stamp_ales docs 0 links, none)
    else (docs, some (unknown_collection collection))

record_block : List String → Links → Links
record_block [] links = links
record_block (id ∷ ids) links = record links { block_id = id }

register : String → Option String → Links → Links
register hash none links = links
register hash (some id) links = record links { tx_hash_to_id = put hash id links.tx_hash_to_id }

registered :
    Option String
    → Option String
    → ℕ
    → Links
    → (Links → Links × Option LinkError)
    → Links × Option LinkError
unfolding register
registered none id j links next = (links, some (missing_hash j))
registered (some hash) id j links next = next (register hash id links)

record_transactions : List Doc → List String → ℕ → Links → Links × Option LinkError
unfolding registered required text_at
record_transactions [] ids j links = (links, none)
record_transactions (doc ∷ docs) ids j links =
    registered (required (text_at "hash" doc)) (get_elem? ids j) j links
      (record_transactions docs ids (suc j))

-- `RecordDocIDs`
unfoldable pub record_doc_ids :
    CollectionNames → String → List Doc → List String → Links → Links × Option LinkError
unfolding record_block record_transactions
record_doc_ids cols collection docs ids links =
    if str_eq collection cols.block
    then (record_block ids links, none)
    else if str_eq collection cols.transaction
    then record_transactions docs ids 0 links
    else if str_eq collection cols.log || str_eq collection cols.access_list_entry
    then (links, none)
    else (links, some (unknown_collection collection))

unfoldable pub evm_link_stamper : CollectionNames → LinkStamper Links
unfolding stamp_before_write record_doc_ids
evm_link_stamper cols = record {
  stamp_before_write = stamp_before_write cols;
  record_doc_ids = record_doc_ids cols;
}

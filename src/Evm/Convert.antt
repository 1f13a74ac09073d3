-- ===== src/Evm/Convert.antt =====
-- `Convert`: the groups of a block's documents, with the sizes of their batches.
pub mod Stored
pub mod Worker
use shinzo_generator_client.Prelude.{
  ℕ, String, List, [], ◌∷◌, ◌++◌, Option, none, some, ltb, if◌then◌else◌, Result, ok, err,
}
use shinzo_generator_client.Chains.{Doc, DocumentGroup, ConversionResult}
use shinzo_generator_client.Evm.{Block, BlockBundle}
use shinzo_generator_client.Evm.Collections.{CollectionNames}
use shinzo_generator_client.Evm.Documents.{
  ParseInt, AleDocs, hex_to_int, build_block_data, build_transaction_docs, build_receipt_map,
  build_log_docs, build_ale_docs,
}
use shinzo_generator_client.Evm.Links.{Links, new_evm_link_stamper, evm_link_stamper}

-- the settings that the converter reads; 0 is unset
pub record IndexerConfig : Type 0 where
  pub max_docs_per_txn : ℕ
  pub max_tx_docs_per_batch : ℕ
  pub max_log_docs_per_batch : ℕ
  pub max_ale_docs_per_batch : ℕ

-- the errors of `Convert`
pub data ConvertError : Type 0 where
  nil_block : ConvertError
  invalid_block_number : String → ConvertError

-- `maxDocsPerTxn`
unfoldable pub max_docs_per_txn : IndexerConfig → ℕ
max_docs_per_txn cfg = if ltb 0 cfg.max_docs_per_txn then cfg.max_docs_per_txn else 1000

-- `txBatchSize`, `logBatchSize` and `aleBatchSize`
unfoldable pub batch_size : ℕ → ℕ → ℕ
batch_size own default_batch = if ltb 0 own then own else default_batch

-- a group is there only with documents
group_if_any : String → List Doc → ℕ → List DocumentGroup
group_if_any collection [] size = []
group_if_any collection (doc ∷ docs) size =
    record {
      collection = collection;
      docs = doc ∷ docs;
      batch_size = size;
      block_num_field = "blockNumber";
      block_hash_field = "";
      parent_hash_field = "";
    }
    ∷ []

module _ (parse : ParseInt) (cols : CollectionNames) (cfg : IndexerConfig) where
  block_group : Block → ℕ → DocumentGroup
  unfolding max_docs_per_txn build_block_data
  block_group block block_int = record {
    collection = cols.block;
    docs = build_block_data block block_int ∷ [];
    batch_size = max_docs_per_txn cfg;
    block_num_field = "number";
    block_hash_field = "hash";
    parent_hash_field = "parentHash";
  }

  convert_at : BlockBundle → Block → ℕ → ConversionResult Links
  unfolding batch_size max_docs_per_txn group_if_any block_group new_evm_link_stamper
      evm_link_stamper build_transaction_docs build_receipt_map build_log_docs build_ale_docs
  convert_at bundle block block_int =
      let default_batch = max_docs_per_txn cfg in
      let tx_docs = build_transaction_docs parse bundle.transactions in
      let log_docs = build_log_docs parse bundle.transactions (build_receipt_map bundle.receipts) in
      let ales = build_ale_docs bundle.transactions block_int in
      record {
        groups =
            block_group block block_int
              ∷ group_if_any cols.transaction tx_docs
                  (batch_size cfg.max_tx_docs_per_batch default_batch)
            ++ group_if_any cols.log log_docs (batch_size cfg.max_log_docs_per_batch default_batch)
            ++ group_if_any cols.access_list_entry ales.docs
                (batch_size cfg.max_ale_docs_per_batch default_batch);
        signature_collection = cols.block_signature;
        link_stamper = some (evm_link_stamper cols);
        links = new_evm_link_stamper ales.parent_refs;
      }

  convert_parsed : BlockBundle → Block → Option ℕ → Result ConvertError (ConversionResult Links)
  unfolding convert_at
  convert_parsed bundle block none = err (invalid_block_number block.number)
  convert_parsed bundle block (some block_int) = ok (convert_at bundle block block_int)

  convert_block : BlockBundle → Option Block → Result ConvertError (ConversionResult Links)
  unfolding convert_parsed hex_to_int
  convert_block bundle none = err nil_block
  convert_block bundle (some block) = convert_parsed bundle block (hex_to_int parse block.number)

  -- `Convert`
  unfoldable pub convert : BlockBundle → Result ConvertError (ConversionResult Links)
  unfolding convert_block
  convert bundle = convert_block bundle bundle.block

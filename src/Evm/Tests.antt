-- ===== src/Evm/Tests.antt =====
-- A block with two transactions, of which one repeats an entry of its access list, run through the
-- fetcher, the converter and the store.
use shinzo_generator_client.Prelude.{
  ◌≡◌, refl, arith, String, List, [], ◌∷◌, true, false, Option, none, some, Result, ok, err, map,
  All, length, ◌+◌, str_eq, ne_of_test, sym, ◌∙◌, false,
}
use shinzo_generator_client.Dict.{lookup, put, append_at}
use shinzo_generator_client.Chains.{Doc, text, number, text_at, ConversionResult}
use shinzo_generator_client.Handler.{◌>>=◌, pure, throw, call, collect, open_txn, commit_txn}
use shinzo_generator_client.Handler.Writes.{create_docs_in_txn}
use shinzo_generator_client.Handler.Batches.{write_batch_with_retry}
use shinzo_generator_client.Handler.Store.{BlockCreationResult, store}
use shinzo_generator_client.Handler.Store.Signed.{IsWhole}
use shinzo_generator_client.Handler.Tests.{env, handler, untracked}
use shinzo_generator_client.Evm.{
  AccessListEntry, Log, TransactionReceipt, Transaction, Block, BlockBundle,
}
use shinzo_generator_client.Evm.Collections.{CollectionNames, new_collection_names}
use shinzo_generator_client.Evm.Documents.{ParseInt, contains, build_ale_data, build_ale_docs}
use shinzo_generator_client.Evm.Documents.Ales.{
  Entry, key_of, entries_of, Distinct, Sublist, KeepsOnce, build_ale_docs-Distinct,
}
use shinzo_generator_client.Evm.Documents.Counts.{transaction_count, log_count}
use shinzo_generator_client.Evm.Links.{Links, stamp_before_write, record_doc_ids}
use shinzo_generator_client.Evm.Links.Stamps.{
  linked_transaction, linked_log, IsPrefix, stamp_before_write-IsPrefix,
}
use shinzo_generator_client.Evm.Links.Records.{record_doc_ids-lookup}
use shinzo_generator_client.Evm.Convert.{IndexerConfig, convert}
use shinzo_generator_client.Evm.Convert.Stored.{convert-store-signed}
use shinzo_generator_client.Evm.Convert.Worker.{Reports, fetch_and_convert_block-Reports}
use shinzo_generator_client.Processor.Run.{ErrorText}
use shinzo_generator_client.Processor.Retry.{Attempt, fetch_with_retry}
use shinzo_generator_client.Processor.Fetch.{fetch_and_convert_block}
use shinzo_generator_client.Evm.Receipts.{Client, fetch_block}
use shinzo_generator_client.Evm.Receipts.Pinned.{IsFetched, fetch_block-IsFetched}
use shinzo_generator_client.Evm.Numbers.{not_a_map, fields, rows, no_data, query_block_number}
use shinzo_generator_client.Evm.Numbers.Usable.{Answers, query_block_number-Answers}

abbrev entry : AccessListEntry
entry = record { address = "0x01"; storage_keys = "0x02" ∷ "0x03" ∷ [] }

abbrev transaction : String → List AccessListEntry → Transaction
transaction hash access_list = record {
  hash = hash;
  block_hash = "0xbb";
  block_number = "7";
  from_address = "0x04";
  to_address = "0x05";
  value = "1";
  gas = "21000";
  gas_price = "1";
  max_fee_per_gas = "";
  max_priority_fee_per_gas = "";
  input = "0x";
  nonce = "0";
  transaction_index = 0;
  type_text = "1";
  chain_id = "1";
  access_list = access_list;
  v_text = "0";
  r_text = "0";
  s_text = "0";
  status = false;
  gas_used = "";
  cumulative_gas_used = "";
  effective_gas_price = "";
}

abbrev block : Block
block = record {
  hash = "0xbb";
  number = "0x7";
  timestamp = "1";
  parent_hash = "0xba";
  difficulty = "0";
  total_difficulty = "";
  gas_used = "42000";
  gas_limit = "30000000";
  base_fee_per_gas = "1";
  nonce = "0";
  miner = "0x06";
  size = "1";
  state_root = "0x07";
  sha3_uncles = "0x08";
  transactions_root = "0x09";
  receipts_root = "0x0a";
  logs_bloom = "0x0b";
  extra_data = "0x";
  mix_hash = "0x0c";
  uncles = [];
  transactions = transaction "0xt1" (entry ∷ entry ∷ []) ∷ transaction "0xt2" (entry ∷ []) ∷ [];
}

abbrev log : Log
log = record {
  address = "0x05";
  topics = [];
  data_text = "0x";
  block_number = "0x7";
  transaction_hash = "0xt2";
  transaction_index = 1;
  block_hash = "0xbb";
  log_index = 0;
  removed = false;
}

abbrev receipt : String → TransactionReceipt
receipt hash = record {
  transaction_hash = hash;
  block_hash = "0xbb";
  cumulative_gas_used = "21000";
  gas_used = "21000";
  effective_gas_price = "1";
  logs = log ∷ [];
  status = "1";
}

-- a node that has the block, with receipts one by one only
abbrev client : Client
client = record {
  cancelled = false;
  get_block_by_number = λ n. ok block;
  get_block_receipts = λ hash. ok (some (receipt "0xt1") ∷ []);
  get_transaction_receipt = λ hash. ok (some (receipt hash));
  to_lower = λ s. s;
  equal_fold = str_eq;
}

abbrev bundle : BlockBundle
bundle = record {
  block = some block;
  transactions = map some (
      record (transaction "0xt1" (entry ∷ entry ∷ [])) {
        status = true;
        gas_used = "21000";
        cumulative_gas_used = "21000";
        effective_gas_price = "1";
      }
      ∷ record (transaction "0xt2" (entry ∷ [])) {
        status = true;
        gas_used = "21000";
        cumulative_gas_used = "21000";
        effective_gas_price = "1";
      }
      ∷ []);
  receipts = some (receipt "0xt1") ∷ some (receipt "0xt2") ∷ [];
}

fetched : fetch_block client 7 ≡ ok bundle
unfolding fetch_block lookup put
fetched = refl

fetch_block-IsFetched_example :
    (b : Block) × (client.get_block_by_number 7 ≡ ok b)
    × (bundle.block ≡ some b)
    × ((txs : List Transaction) × (bundle.transactions ≡ map some txs)
        × IsFetched client b txs bundle.receipts)
fetch_block-IsFetched_example = fetch_block-IsFetched client 7 bundle fetched

build_ale_docs-Distinct_example :
    (kept : List Entry) × Sublist kept (entries_of bundle.transactions)
    × ((build_ale_docs bundle.transactions 7).docs ≡ map (λ (e : Entry). build_ale_data e.1 7) kept)
    × ((build_ale_docs bundle.transactions 7).parent_refs ≡ map (λ (e : Entry). e.0) kept)
    × Distinct (map key_of kept)
    × All (λ e. contains (key_of e) (map key_of kept) ≡ true) (entries_of bundle.transactions)
build_ale_docs-Distinct_example = build_ale_docs-Distinct bundle.transactions 7

-- the entry is kept once for each of the two transactions
refs : (build_ale_docs bundle.transactions 7).parent_refs ≡ "0xt1" ∷ "0xt2" ∷ []
unfolding build_ale_docs
refs = refl

abbrev doc : String → Doc
doc hash = ("hash", text hash) ∷ []

abbrev links : Links
links = record { ale_parent_refs = []; tx_hash_to_id = []; block_id = "bae-1" }

stamp_before_write-IsPrefix_example :
    (stamp_before_write
        (new_collection_names "A")
        (new_collection_names "A").block
        (doc "0xt1" ∷ doc "" ∷ [])
        links
      ≡ (doc "0xt1" ∷ doc "" ∷ [], none))
    × IsPrefix (text_at "hash") links (linked_transaction links) 0 (doc "0xt1" ∷ doc "" ∷ []) (
        stamp_before_write
          (new_collection_names "A")
          (new_collection_names "A").transaction
          (doc "0xt1" ∷ doc "" ∷ [])
          links)
    × IsPrefix (text_at "transactionHash") links (linked_log links) 0 (doc "0xt1" ∷ doc "" ∷ []) (
        stamp_before_write
          (new_collection_names "A")
          (new_collection_names "A").log
          (doc "0xt1" ∷ doc "" ∷ [])
          links)
stamp_before_write-IsPrefix_example =
    stamp_before_write-IsPrefix "A" (doc "0xt1" ∷ doc "" ∷ []) links

abbrev names : CollectionNames
names = new_collection_names "A"

no_error :
    (record_doc_ids names names.transaction
      (doc "0xt1" ∷ doc "0xt2" ∷ [])
      ("bae-2" ∷ "bae-3" ∷ [])
      links).1
    ≡ none
unfolding record_doc_ids new_collection_names put text_at lookup
no_error = refl

has_hash : text_at "hash" (doc "0xt2") ≡ some "0xt2"
unfolding text_at lookup
has_hash = refl

record_doc_ids-lookup_example :
    lookup "0xt2"
      (record_doc_ids names names.transaction
        (doc "0xt1" ∷ doc "0xt2" ∷ [])
        ("bae-2" ∷ "bae-3" ∷ [])
        links).0.tx_hash_to_id
    ≡ some "bae-3"
record_doc_ids-lookup_example =
    record_doc_ids-lookup "A" "0xt2" "bae-3" (doc "0xt1" ∷ []) (doc "0xt2") []
      ("bae-2" ∷ "bae-3" ∷ []) links no_error has_hash tt refl

query_block_number-Answers_example :
    Answers
      (rows (not_a_map ∷ fields (("number", number 9) ∷ []) ∷ []))
      no_data
      (query_block_number (rows (not_a_map ∷ fields (("number", number 9) ∷ []) ∷ [])) no_data)
query_block_number-Answers_example =
    query_block_number-Answers (rows (not_a_map ∷ fields (("number", number 9) ∷ []) ∷ [])) no_data

abbrev parse : ParseInt
parse = record { any_base = λ s. some 7; decimal = λ s. 7 }

abbrev config : IndexerConfig
config = record {
  max_docs_per_txn = 0;
  max_tx_docs_per_batch = 1;
  max_log_docs_per_batch = 0;
  max_ale_docs_per_batch = 0;
}

abbrev nothing : ConversionResult Links
nothing = record { groups = []; signature_collection = ""; link_stamper = none; links = links }

-- the value of a result, if there is one
abbrev or_else : {E A : Type 0} → Result E A → A → A
or_else (ok a) other = a
or_else (err e) other = other

abbrev converted : ConversionResult Links
converted = or_else (convert parse names config bundle) nothing

abbrev no_creation : BlockCreationResult
no_creation = record {
  block_number = 0;
  block_id = "";
  block_signature_id = "";
  block_signature_collection = "";
  other_doc_ids = [];
}

abbrev or_none : Option BlockCreationResult → BlockCreationResult
or_none none = no_creation
or_none (some c) = c

abbrev creation : BlockCreationResult
creation = or_none (store (env false) handler untracked converted 0).1.creation

converts : convert parse names config bundle ≡ ok converted
unfolding convert
converts = refl

stores : (store (env false) handler untracked converted 0).1.creation ≡ some creation
unfolding store convert ◌>>=◌ pure throw call collect open_txn commit_txn lookup append_at put
    write_batch_with_retry create_docs_in_txn new_collection_names
stores = refl

signs : ◌≡◌ {A = String} creation.block_signature_id "doc"
unfolding store convert ◌>>=◌ pure throw call collect open_txn commit_txn lookup append_at put
    write_batch_with_retry create_docs_in_txn new_collection_names
signs = refl

convert-store-signed_example :
    (kept : List Entry) × KeepsOnce kept (entries_of bundle.transactions)
    × IsWhole
        (env false)
        (transaction_count bundle.transactions
          + log_count bundle.transactions bundle.receipts
          + length kept)
        creation
        (store (env false) handler untracked converted 0).1.error
convert-store-signed_example =
    convert-store-signed parse names config bundle converted (env false) handler untracked 0
      creation converts (omega arith) stores (λ e. ne_of_test "doc" "" refl (sym signs ∙ e))

abbrev not_mined : ErrorText
not_mined = record {
  not_found = true;
  already_exists = false;
  transaction_conflict = false;
  document_deleted = false;
}

abbrev attempts : List (Attempt BlockBundle)
attempts =
    record { done_before = false; reply = err not_mined; done_in_wait = false }
    ∷ record { done_before = false; reply = ok bundle; done_in_wait = false }
    ∷ []

fetch_and_convert_block-Reports_example :
    Reports parse names config 7
      (fetch_with_retry attempts)
      (fetch_and_convert_block (convert parse names config) 7 attempts)
fetch_and_convert_block-Reports_example =
    fetch_and_convert_block-Reports parse names config 7 attempts

-- ===== src/Evm/Documents.antt =====
-- The documents of a block: the `build` functions of converter.go. The parsing of numbers by strconv is a parameter.
pub mod Ales
pub mod Counts
use Prim.Native.String.{◌++◌ as ◌<>◌}
use shinzo_generator_client.Prelude.{
  ℕ, zero, suc, ◌+◌, String, List, [], ◌∷◌, ◌++◌, Bool, false, ◌||◌, Option, none, some, map, ltb,
  str_eq, if◌then◌else◌, Result, ok, err,
}
use shinzo_generator_client.Dict.{Dict, lookup, put}
use shinzo_generator_client.Chains.{
  Doc, Value, text, number, flag, texts, DocumentGroup, ConversionResult, LinkStamper,
}
use shinzo_generator_client.Evm.{
  AccessListEntry, Log, TransactionReceipt, Transaction, Block, BlockBundle,
}
use shinzo_generator_client.Evm.Collections.{CollectionNames}

-- strconv.ParseInt: with base 0, if it succeeds; with base 10, the value that it returns in any case
pub record ParseInt : Type 0 where
  pub any_base : String → Option ℕ
  pub decimal : String → ℕ

-- `HexToInt`
unfoldable pub hex_to_int : ParseInt → String → Option ℕ
hex_to_int parse s = if str_eq s "" then none else parse.any_base s

or_zero : Option ℕ → ℕ
or_zero none = 0
or_zero (some n) = n

unfoldable pub build_block_data : Block → ℕ → Doc
build_block_data block block_int =
    ("hash", text block.hash)
    ∷ ("number", number block_int)
    ∷ ("timestamp", text block.timestamp)
    ∷ ("parentHash", text block.parent_hash)
    ∷ ("difficulty", text block.difficulty)
    ∷ ("totalDifficulty", text block.total_difficulty)
    ∷ ("gasUsed", text block.gas_used)
    ∷ ("gasLimit", text block.gas_limit)
    ∷ ("baseFeePerGas", text block.base_fee_per_gas)
    ∷ ("nonce", text block.nonce)
    ∷ ("miner", text block.miner)
    ∷ ("size", text block.size)
    ∷ ("stateRoot", text block.state_root)
    ∷ ("sha3Uncles", text block.sha3_uncles)
    ∷ ("transactionsRoot", text block.transactions_root)
    ∷ ("receiptsRoot", text block.receipts_root)
    ∷ ("logsBloom", text block.logs_bloom)
    ∷ ("extraData", text block.extra_data)
    ∷ ("mixHash", text block.mix_hash)
    ∷ ("uncles", texts block.uncles)
    ∷ []

pub build_transaction_data : ParseInt → Transaction → Doc
build_transaction_data parse tx =
    ("hash", text tx.hash)
    ∷ ("blockNumber", number (parse.decimal tx.block_number))
    ∷ ("blockHash", text tx.block_hash)
    ∷ ("transactionIndex", number tx.transaction_index)
    ∷ ("from", text tx.from_address)
    ∷ ("to", text tx.to_address)
    ∷ ("value", text tx.value)
    ∷ ("gas", text tx.gas)
    ∷ ("gasPrice", text tx.gas_price)
    ∷ ("maxFeePerGas", text tx.max_fee_per_gas)
    ∷ ("maxPriorityFeePerGas", text tx.max_priority_fee_per_gas)
    ∷ ("input", text tx.input)
    ∷ ("nonce", text tx.nonce)
    ∷ ("type", text tx.type_text)
    ∷ ("chainId", text tx.chain_id)
    ∷ ("v", text tx.v_text)
    ∷ ("r", text tx.r_text)
    ∷ ("s", text tx.s_text)
    ∷ ("gasUsed", text tx.gas_used)
    ∷ ("cumulativeGasUsed", text tx.cumulative_gas_used)
    ∷ ("effectiveGasPrice", text tx.effective_gas_price)
    ∷ ("status", flag tx.status)
    ∷ []

pub build_log_data : ParseInt → Log → Doc
unfolding hex_to_int or_zero
build_log_data parse entry =
    ("address", text entry.address)
    ∷ ("topics", texts entry.topics)
    ∷ ("data", text entry.data_text)
    ∷ ("blockNumber", number (or_zero (hex_to_int parse entry.block_number)))
    ∷ ("transactionHash", text entry.transaction_hash)
    ∷ ("transactionIndex", number entry.transaction_index)
    ∷ ("blockHash", text entry.block_hash)
    ∷ ("logIndex", number entry.log_index)
    ∷ ("removed", text (if entry.removed then "true" else "false"))
    ∷ []

pub build_ale_data : AccessListEntry → ℕ → Doc
build_ale_data entry block_number =
    ("address", text entry.address)
    ∷ ("blockNumber", number block_number)
    ∷ ("storageKeys", texts entry.storage_keys)
    ∷ []

unfoldable pub build_transaction_docs : ParseInt → List (Option Transaction) → List Doc
unfolding build_transaction_data
build_transaction_docs parse [] = []
build_transaction_docs parse (none ∷ txs) = build_transaction_docs parse txs
build_transaction_docs parse (some tx ∷ txs) =
    build_transaction_data parse tx ∷ build_transaction_docs parse txs

-- the loop of `buildReceiptMap`, into the map `m`
pub add_receipts :
    List (Option TransactionReceipt) → Dict TransactionReceipt → Dict TransactionReceipt
add_receipts [] m = m
add_receipts (none ∷ receipts) m = add_receipts receipts m
add_receipts (some r ∷ receipts) m = add_receipts receipts (put r.transaction_hash r m)

unfoldable pub build_receipt_map : List (Option TransactionReceipt) → Dict TransactionReceipt
unfolding add_receipts
build_receipt_map receipts = add_receipts receipts []

logs_of : Option TransactionReceipt → List Log
logs_of none = []
logs_of (some r) = r.logs

unfoldable pub build_log_docs :
    ParseInt → List (Option Transaction) → Dict TransactionReceipt → List Doc
unfolding logs_of build_log_data
build_log_docs parse [] receipts = []
build_log_docs parse (none ∷ txs) receipts = build_log_docs parse txs receipts
build_log_docs parse (some tx ∷ txs) receipts =
    map (build_log_data parse) (logs_of (lookup tx.hash receipts))
    ++ build_log_docs parse txs receipts

-- strings.Join(ss, ",")
join_commas : List String → String
join_commas [] = ""
join_commas (s ∷ []) = s
join_commas (s ∷ s' ∷ ss) = s <> "," <> join_commas (s' ∷ ss)

pub ale_doc_key : String → AccessListEntry → String
unfolding join_commas
ale_doc_key tx_hash entry = tx_hash <> "|" <> entry.address <> "|" <> join_commas entry.storage_keys

-- the documents so far, the hashes of their transactions, and the keys seen
pub record AleDocs : Type 0 where
  pub docs : List Doc
  pub parent_refs : List String
  pub seen : List String

pub contains : String → List String → Bool
contains key [] = false
contains key (k ∷ keys) = str_eq k key || contains key keys

add_entry : String → ℕ → AccessListEntry → AleDocs → AleDocs
unfolding ale_doc_key contains build_ale_data
add_entry tx_hash block_int entry a =
    let key = ale_doc_key tx_hash entry in
    if contains key a.seen then a else record {
      docs = a.docs ++ build_ale_data entry block_int ∷ [];
      parent_refs = a.parent_refs ++ tx_hash ∷ [];
      seen = key ∷ a.seen;
    }

add_entries : String → ℕ → List AccessListEntry → AleDocs → AleDocs
unfolding add_entry
add_entries tx_hash block_int [] a = a
add_entries tx_hash block_int (entry ∷ entries) a =
    add_entries tx_hash block_int entries (add_entry tx_hash block_int entry a)

add_transactions : ℕ → List (Option Transaction) → AleDocs → AleDocs
unfolding add_entries
add_transactions block_int [] a = a
add_transactions block_int (none ∷ txs) a = add_transactions block_int txs a
add_transactions block_int (some tx ∷ txs) a =
    add_transactions block_int txs (add_entries tx.hash block_int tx.access_list a)

unfoldable pub build_ale_docs : List (Option Transaction) → ℕ → AleDocs
unfolding add_transactions
build_ale_docs txs block_int =
    add_transactions block_int txs (record { docs = []; parent_refs = []; seen = [] })

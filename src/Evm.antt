-- ===== src/Evm.antt =====
-- pkg/chains/evm: the chain's types, the names of its collections, and the parts that turn a block
-- into documents and link them.
pub mod Collections
pub mod Documents
pub mod Last
pub mod Links
pub mod Convert
pub mod Receipts
pub mod Numbers
pub mod Tests
use shinzo_generator_client.Prelude.{ℕ, String, List, Bool, Option}

-- AccessListEntry
pub record AccessListEntry : Type 0 where
  pub address : String
  pub storage_keys : List String

-- Log
pub record Log : Type 0 where
  pub address : String
  pub topics : List String
  pub data_text : String
  pub block_number : String
  pub transaction_hash : String
  pub transaction_index : ℕ
  pub block_hash : String
  pub log_index : ℕ
  pub removed : Bool

-- TransactionReceipt
pub record TransactionReceipt : Type 0 where
  pub transaction_hash : String
  pub block_hash : String
  pub cumulative_gas_used : String
  pub gas_used : String
  pub effective_gas_price : String
  pub logs : List Log
  pub status : String

-- Transaction, less its own copy of the logs, which nothing converts
pub record Transaction : Type 0 where
  pub hash : String
  pub block_hash : String
  pub block_number : String
  pub from_address : String
  pub to_address : String
  pub value : String
  pub gas : String
  pub gas_price : String
  pub max_fee_per_gas : String
  pub max_priority_fee_per_gas : String
  pub input : String
  pub nonce : String
  pub transaction_index : ℕ
  pub type_text : String
  pub chain_id : String
  pub access_list : List AccessListEntry
  pub v_text : String
  pub r_text : String
  pub s_text : String
  pub status : Bool
  pub gas_used : String
  pub cumulative_gas_used : String
  pub effective_gas_price : String

-- Block
pub record Block : Type 0 where
  pub hash : String
  pub number : String
  pub timestamp : String
  pub parent_hash : String
  pub difficulty : String
  pub total_difficulty : String
  pub gas_used : String
  pub gas_limit : String
  pub base_fee_per_gas : String
  pub nonce : String
  pub miner : String
  pub size : String
  pub state_root : String
  pub sha3_uncles : String
  pub transactions_root : String
  pub receipts_root : String
  pub logs_bloom : String
  pub extra_data : String
  pub mix_hash : String
  pub uncles : List String
  pub transactions : List Transaction

-- BlockBundle; a nil pointer is `none`
pub record BlockBundle : Type 0 where
  pub block : Option Block
  pub transactions : List (Option Transaction)
  pub receipts : List (Option TransactionReceipt)

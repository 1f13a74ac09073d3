-- ===== src/Processor/Types.antt =====
-- The data of the processor that several of its parts share.
use shinzo_generator_client.Prelude.{
  ℕ, String, List, [], ◌∷◌, Bool, Option, none, some, ◌==◌, if◌then◌else◌,
}

-- errors of the environment: of a store query, and of a fetch from the node
pub data QueryError : Type 0 where
  query_failed : QueryError

pub data FetchError : Type 0 where
  rpc_failed : FetchError
  context_done : FetchError

-- a map from heights to hashes, the newest pair first
abbrev pub Hashes : Type 0
Hashes = List (ℕ × String)

unfoldable pub hash_at : ℕ → Hashes → Option String
hash_at k [] = none
hash_at k ((j, h) ∷ m) = if j == k then some h else hash_at k m

-- BlockResult; `converted` stands for the conversion result, which the checks never open
pub record BlockResult : Type 0 where
  pub block_num : ℕ
  pub hash : String
  pub parent_hash : String
  pub success : Bool

-- reorgSignal
pub record ReorgSignal : Type 0 where
  pub rollback_from : ℕ
  pub orphan_hash : String
  pub chain_hash : String

-- rollbackPoint, before its `oldTip` is set
pub record RollbackPoint : Type 0 where
  pub fork_point : ℕ
  pub chain_hashes : Hashes

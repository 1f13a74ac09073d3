-- ===== src/Config.antt =====
-- config/config.go: the defaults of the settings, `applyDefaults` and the `SetDefaults` methods, and
-- `validateConfig`, for the settings that they read. strings.TrimSpace is a parameter.
pub mod Usable
pub mod Tests
use shinzo_generator_client.Prelude.{
  ℕ, zero, suc, ◌+◌, ◌-◌, ◌*◌, ◌%◌, ◌^◌, String, Bool, true, false, ◌&&◌, ◌||◌, not, Result, ok,
  err, ltb, str_eq, if◌then◌else◌, Option, none, some,
}

-- the integers that Go's int and int64 hold
pub data ℤ : Type 0 where
  pos : ℕ → ℤ
  negsuc : ℕ → ℤ

unfoldable pub lt_int : ℤ → ℤ → Bool
lt_int (pos m) (pos n) = ltb m n
lt_int (pos m) (negsuc n) = false
lt_int (negsuc m) (pos n) = true
lt_int (negsuc m) (negsuc n) = ltb n m

-- the integer of 64 bits with these low bits
unfoldable pub wrap_int64 : ℕ → ℤ
wrap_int64 n =
    let low = n % 2 ^ 64 in if ltb low (2 ^ 63) then pos low else negsuc (2 ^ 64 - 1 - low)

-- the low bits of -n
unfoldable pub opposite : ℕ → ℕ
opposite n = 2 ^ 64 - n % 2 ^ 64

-- the product of two int64
unfoldable pub mul_int64 : ℤ → ℤ → ℤ
unfolding wrap_int64 opposite
mul_int64 (pos m) (pos n) = wrap_int64 (m * n)
mul_int64 (pos m) (negsuc n) = wrap_int64 (opposite (m * (n + 1)))
mul_int64 (negsuc m) (pos n) = wrap_int64 (opposite ((m + 1) * n))
mul_int64 (negsuc m) (negsuc n) = wrap_int64 ((m + 1) * (n + 1))

-- `if x <= 0 { x = d }`
unfoldable pub at_least_one_or : ℕ → ℤ → ℤ
at_least_one_or d (pos zero) = pos d
at_least_one_or d (pos (suc n)) = pos (suc n)
at_least_one_or d (negsuc n) = pos d

-- `if x == 0 { x = d }`
unfoldable pub if_zero : ℕ → ℤ → ℤ
if_zero d (pos zero) = pos d
if_zero d (pos (suc n)) = pos (suc n)
if_zero d (negsuc n) = negsuc n

unfoldable pub if_empty : String → String → String
if_empty d s = if str_eq s "" then d else s

pub record ChainConfig : Type 0 where
  pub name : String
  pub network : String
  pub adapter : String

pub record DefraDbConfig : Type 0 where
  pub url : String
  pub embedded : Bool

pub record IndexerConfig : Type 0 where
  pub start_height : ℤ
  pub concurrent_blocks : ℤ
  pub receipt_workers : ℤ
  pub max_docs_per_txn : ℤ
  pub health_server_port : ℤ
  pub start_buffer : ℤ
  pub schema_auth_mode : String

pub record PrunerConfig : Type 0 where
  pub enabled : Bool
  pub max_blocks : ℤ
  pub docs_per_block : ℤ
  pub interval_seconds : ℤ

pub record SnapshotConfig : Type 0 where
  pub enabled : Bool
  pub dir : String
  pub blocks_per_file : ℤ
  pub interval_seconds : ℤ
  pub max_snapshots : ℤ

pub record Config : Type 0 where
  pub chain : ChainConfig
  pub defra_db : DefraDbConfig
  pub indexer : IndexerConfig
  pub pruner : PrunerConfig
  pub snapshot : SnapshotConfig
  pub lowest_block_query_limit : ℤ

pub data ConfigError : Type 0 where
  unknown_adapter : String → ConfigError
  negative_start_height : ConfigError
  invalid_auth_mode : String → ConfigError
  missing_url : ConfigError
  invalid_max_snapshots : ConfigError
  uncovered_blocks : ℤ → ConfigError

unfoldable pub set_pruner_defaults : PrunerConfig → PrunerConfig
unfolding at_least_one_or
set_pruner_defaults c = record {
  enabled = c.enabled;
  max_blocks = at_least_one_or 10000 c.max_blocks;
  docs_per_block = at_least_one_or 1000 c.docs_per_block;
  interval_seconds = at_least_one_or 60 c.interval_seconds;
}

unfoldable pub set_snapshot_defaults : SnapshotConfig → SnapshotConfig
unfolding at_least_one_or if_zero if_empty
set_snapshot_defaults c = record {
  enabled = c.enabled;
  dir = if_empty "./snapshots" c.dir;
  blocks_per_file = at_least_one_or 1000 c.blocks_per_file;
  interval_seconds = at_least_one_or 60 c.interval_seconds;
  max_snapshots = if_zero 100 c.max_snapshots;
}

-- `applyDefaults`
unfoldable pub apply_defaults : Config → Config
unfolding set_pruner_defaults set_snapshot_defaults at_least_one_or if_zero if_empty
apply_defaults cfg = record {
  chain = record {
    name = if_empty "Ethereum" cfg.chain.name;
    network = if_empty "Mainnet" cfg.chain.network;
    adapter = if_empty "evm" cfg.chain.adapter;
  };
  defra_db = cfg.defra_db;
  indexer = record {
    start_height = cfg.indexer.start_height;
    concurrent_blocks = at_least_one_or 8 cfg.indexer.concurrent_blocks;
    receipt_workers = at_least_one_or 16 cfg.indexer.receipt_workers;
    max_docs_per_txn = at_least_one_or 1000 cfg.indexer.max_docs_per_txn;
    health_server_port = if_zero 8080 cfg.indexer.health_server_port;
    start_buffer = at_least_one_or 100 cfg.indexer.start_buffer;
    schema_auth_mode = if_empty "token" cfg.indexer.schema_auth_mode;
  };
  pruner = set_pruner_defaults cfg.pruner;
  snapshot = set_snapshot_defaults cfg.snapshot;
  lowest_block_query_limit = at_least_one_or 1 cfg.lowest_block_query_limit;
}

-- a guard of `validateConfig` and the guards behind it
unfoldable pub refuse_if : Bool → ConfigError → Option ConfigError → Option ConfigError
refuse_if true e later = some e
refuse_if false e later = later

unfoldable pub is_auth_mode : String → Bool
is_auth_mode mode = str_eq mode "none" || str_eq mode "token" || str_eq mode "mtls"

-- whether the snapshots that are kept reach back less far than the blocks that are kept
unfoldable pub uncovered : SnapshotConfig → PrunerConfig → Bool
unfolding lt_int mul_int64
uncovered snapshot pruner =
    (snapshot.enabled && pruner.enabled && lt_int (pos 0) snapshot.max_snapshots)
    && lt_int (mul_int64 snapshot.max_snapshots snapshot.blocks_per_file) pruner.max_blocks

module _ (trim_space : String → String) where
  -- `validateConfig`
  unfoldable pub validate_config : Config → Option ConfigError
  unfolding refuse_if is_auth_mode lt_int uncovered
  validate_config cfg =
      refuse_if (not (str_eq cfg.chain.adapter "evm")) (unknown_adapter cfg.chain.adapter) (
        refuse_if (lt_int cfg.indexer.start_height (pos 0)) negative_start_height (
          refuse_if (not (is_auth_mode cfg.indexer.schema_auth_mode))
            (invalid_auth_mode cfg.indexer.schema_auth_mode)
            (refuse_if (not cfg.defra_db.embedded && str_eq (trim_space cfg.defra_db.url) "")
              missing_url
              (refuse_if (lt_int cfg.snapshot.max_snapshots (negsuc 0)) invalid_max_snapshots (
                refuse_if (uncovered cfg.snapshot cfg.pruner)
                  (uncovered_blocks
                    (mul_int64 cfg.snapshot.max_snapshots cfg.snapshot.blocks_per_file))
                  none)))))

  accepted : Config → Option ConfigError → Result ConfigError Config
  accepted cfg none = ok cfg
  accepted cfg (some e) = err e

  -- `LoadConfig`, behind the reading of the file and of the environment
  unfoldable pub configure : Config → Result ConfigError Config
  unfolding apply_defaults validate_config accepted
  configure cfg = accepted (apply_defaults cfg) (validate_config (apply_defaults cfg))

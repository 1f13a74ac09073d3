-- ===== src/Config/Tests.antt =====
-- Settings of an external database with snapshots that cover the pruner's window.
use shinzo_generator_client.Prelude.{◌≡◌, refl, String, true, false, ok}
use shinzo_generator_client.Config.{pos, negsuc, Config, apply_defaults, configure}
use shinzo_generator_client.Config.Usable.{IsUsable, configure-IsUsable}

abbrev trim_space : String → String
trim_space s = s

abbrev cfg : Config
cfg = record {
  chain = record { name = ""; network = ""; adapter = "" };
  defra_db = record { url = "localhost"; embedded = false };
  indexer = record {
    start_height = pos 5;
    concurrent_blocks = pos 0;
    receipt_workers = negsuc 2;
    max_docs_per_txn = pos 50;
    health_server_port = pos 0;
    start_buffer = pos 0;
    schema_auth_mode = "";
  };
  pruner = record {
    enabled = true;
    max_blocks = pos 3000;
    docs_per_block = pos 0;
    interval_seconds = pos 0;
  };
  snapshot = record {
    enabled = true;
    dir = "";
    blocks_per_file = pos 100;
    interval_seconds = pos 0;
    max_snapshots = pos 30;
  };
  lowest_block_query_limit = pos 0;
}

loads : configure trim_space cfg ≡ ok (apply_defaults cfg)
unfolding configure
loads = refl

configure-IsUsable_example : IsUsable trim_space (apply_defaults cfg)
configure-IsUsable_example = configure-IsUsable trim_space cfg (apply_defaults cfg) loads

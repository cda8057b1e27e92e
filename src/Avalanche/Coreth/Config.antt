-- ===== src/Avalanche/Coreth/Config.antt =====
-- src/avalanche/coreth/config.rs: the configuration of the C-chain's virtual machine.
pub mod Files
use avalanche_ops.Prelude.{Bool, Option, String, none, List, some, true, ℤ, pos, ℕ, F64, ◌*◌}

abbrev pub default_coreth_admin_api_enabled : Bool
default_coreth_admin_api_enabled = true

abbrev pub default_profile_dir : String
default_profile_dir = "/var/log/avalanche-profile/coreth"

-- 15 minutes
abbrev pub default_profile_frequency : ℤ
default_profile_frequency = pos (15 * 60 * 1000 * 1000 * 1000)

abbrev pub default_profile_max_files : ℤ
default_profile_max_files = pos 5

abbrev pub default_metrics_enabled : Bool
default_metrics_enabled = true

abbrev pub default_log_level : String
default_log_level = "info"

pub record Config : Type 0 where
  pub snowman_api_enabled : Option Bool
  pub coreth_admin_api_enabled : Option Bool
  pub coreth_admin_api_dir : Option String
  pub eth_apis : Option (List String)
  pub continuous_profiler_dir : Option String
  pub continuous_profiler_frequency : Option ℤ
  pub continuous_profiler_max_files : Option ℤ
  pub rpc_gas_cap : Option ℕ
  pub rpc_tx_fee_cap : Option F64
  pub preimages_enabled : Option Bool
  pub pruning_enabled : Option Bool
  pub snapshot_async : Option Bool
  pub snapshot_verification_enabled : Option Bool
  pub metrics_enabled : Option Bool
  pub metrics_expensive_enabled : Option Bool
  pub local_txs_enabled : Option Bool
  pub api_max_duration : Option ℤ
  pub ws_cpu_refill_rate : Option ℤ
  pub ws_cpu_max_stored : Option ℤ
  pub api_max_blocks_per_request : Option ℤ
  pub allow_unfinalized_queries : Option Bool
  pub allow_unprotected_txs : Option Bool
  pub keystore_directory : Option String
  pub keystore_external_signer : Option String
  pub keystore_insecure_unlock_allowed : Option Bool
  pub remote_tx_gossip_only_enabled : Option String
  pub tx_regossip_frequency : Option ℤ
  pub tx_regossip_max_size : Option ℤ
  pub log_level : Option String
  pub offline_pruning_enabled : Option Bool
  pub offline_pruning_bloom_filter_size : Option ℕ
  pub offline_pruning_data_directory : Option String
  pub max_outbound_active_requests : Option ℤ

-- `Config::default`
abbrev pub default : Config
default = record {
  snowman_api_enabled = none;
  coreth_admin_api_enabled = some default_coreth_admin_api_enabled;
  coreth_admin_api_dir = none;
  eth_apis = none;
  continuous_profiler_dir = none;
  continuous_profiler_frequency = none;
  continuous_profiler_max_files = none;
  rpc_gas_cap = none;
  rpc_tx_fee_cap = none;
  preimages_enabled = none;
  pruning_enabled = none;
  snapshot_async = none;
  snapshot_verification_enabled = none;
  metrics_enabled = some default_metrics_enabled;
  metrics_expensive_enabled = none;
  local_txs_enabled = none;
  api_max_duration = none;
  ws_cpu_refill_rate = none;
  ws_cpu_max_stored = none;
  api_max_blocks_per_request = none;
  allow_unfinalized_queries = none;
  allow_unprotected_txs = none;
  keystore_directory = none;
  keystore_external_signer = none;
  keystore_insecure_unlock_allowed = none;
  remote_tx_gossip_only_enabled = none;
  tx_regossip_frequency = none;
  tx_regossip_max_size = none;
  log_level = some default_log_level;
  offline_pruning_enabled = none;
  offline_pruning_bloom_filter_size = none;
  offline_pruning_data_directory = none;
  max_outbound_active_requests = none;
}

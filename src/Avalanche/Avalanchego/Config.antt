-- ===== src/Avalanche/Avalanchego/Config.antt =====
-- src/avalanche/avalanchego/config.rs: the configuration of a node, its defaults and its checks.
mod Constants
pub mod Valid
pub mod RoundTrip
mod Tests
pub use Constants.*
use avalanche_ops.Prelude.{
  Bool, Option, String, some, ℕ, List, false, none, not, true, ◌==◌, ◌&&◌, ◌||◌, is_none, is_some,
  ltb, unwrap_or, if◌then◌else◌, ◌∷◌, [],
}
use avalanche_ops.Io.{Disk, Files, Error, load_file, invalid_input_error, save_file, encoded_as}
use avalanche_ops.Outcome.{Outcome, Attempt, ◌>>◌, ok, refuse_if, ◌>>=◌, expect, unwrap}
use avalanche_ops.Avalanche.Avalanchego.Genesis.{Genesis}
use avalanche_ops.Text.{format, decimal}

pub record Config : Type 0 where
  pub config_file : Option String
  pub genesis : Option String
  pub network_id : ℕ
  pub db_type : String
  pub db_dir : String
  pub log_dir : String
  pub log_level : Option String
  pub log_display_level : Option String
  pub http_port : ℕ
  pub http_host : Option String
  pub http_tls_enabled : Option Bool
  pub http_tls_key_file : Option String
  pub http_tls_cert_file : Option String
  pub public_ip : Option String
  pub staking_enabled : Option Bool
  pub staking_port : ℕ
  pub staking_tls_key_file : Option String
  pub staking_tls_cert_file : Option String
  pub bootstrap_ips : Option String
  pub bootstrap_ids : Option String
  pub snow_sample_size : Option ℕ
  pub snow_quorum_size : Option ℕ
  pub snow_concurrent_repolls : Option ℕ
  pub snow_max_time_processing : Option String
  pub snow_rogue_commit_threshold : Option ℕ
  pub snow_virtuous_commit_threshold : Option ℕ
  pub network_peer_list_gossip_frequency : Option String
  pub network_max_reconnect_delay : Option String
  pub index_enabled : Option Bool
  pub index_allow_incomplete : Option Bool
  pub api_admin_enabled : Option Bool
  pub api_info_enabled : Option Bool
  pub api_keystore_enabled : Option Bool
  pub api_metrics_enabled : Option Bool
  pub api_health_enabled : Option Bool
  pub api_ipcs_enabled : Option Bool
  pub whitelisted_subnets : Option String
  pub chain_config_dir : String
  pub subnet_config_dir : Option String
  pub state_sync_ids : Option String
  pub state_sync_ips : Option String
  pub profile_dir : Option String
  pub profile_continuous_enabled : Option Bool
  pub profile_continuous_freq : Option String
  pub profile_continuous_max_files : Option ℕ
  pub throttler_inbound_at_large_alloc_size : Option ℕ
  pub throttler_inbound_node_max_at_large_bytes : Option ℕ
  pub network_minimum_timeout : Option String
  pub network_require_validator_to_connect : Option Bool

-- `Config::default`
abbrev pub default : Config
default = record {
  config_file = some default_config_file_path;
  genesis = some default_genesis_path;
  network_id = default_custom_network_id;
  db_type = default_db_type;
  db_dir = default_db_dir;
  log_dir = default_log_dir;
  log_level = some default_log_level;
  log_display_level = none;
  http_port = default_http_port;
  http_host = some default_http_host;
  http_tls_enabled = some default_http_tls_enabled;
  http_tls_key_file = none;
  http_tls_cert_file = none;
  public_ip = none;
  staking_enabled = some default_staking_enabled;
  staking_port = default_staking_port;
  staking_tls_key_file = some default_staking_tls_key_file;
  staking_tls_cert_file = some default_staking_tls_cert_file;
  bootstrap_ips = none;
  bootstrap_ids = none;
  snow_sample_size = some default_snow_sample_size;
  snow_quorum_size = some default_snow_quorum_size;
  snow_concurrent_repolls = none;
  snow_max_time_processing = none;
  snow_rogue_commit_threshold = none;
  snow_virtuous_commit_threshold = none;
  network_peer_list_gossip_frequency = none;
  network_max_reconnect_delay = none;
  index_enabled = some default_index_enabled;
  index_allow_incomplete = some default_index_allow_incomplete;
  api_admin_enabled = some default_api_admin_enabled;
  api_info_enabled = some default_api_info_enabled;
  api_keystore_enabled = some default_api_keystore_enabled;
  api_metrics_enabled = some default_api_metrics_enabled;
  api_health_enabled = some default_api_health_enabled;
  api_ipcs_enabled = some default_api_ipcs_enabled;
  whitelisted_subnets = none;
  chain_config_dir = default_chain_config_dir;
  subnet_config_dir = some default_subnet_config_dir;
  state_sync_ids = none;
  state_sync_ips = none;
  profile_dir = some default_profile_dir;
  profile_continuous_enabled = none;
  profile_continuous_freq = none;
  profile_continuous_max_files = none;
  throttler_inbound_at_large_alloc_size = none;
  throttler_inbound_node_max_at_large_bytes = none;
  network_minimum_timeout = none;
  network_require_validator_to_connect = none;
}

-- `Config::is_mainnet`
unfoldable pub is_mainnet : Config → Bool
is_mainnet c = c.network_id == 1

-- `Config::is_custom_network`
unfoldable pub is_custom_network : Config → Bool
unfolding is_mainnet
is_custom_network c = not (is_mainnet c) && (c.network_id == 0 || ltb 5 c.network_id)

-- `Config::load`, from the file system and the decoder
unfoldable pub load :
    Files → (from_reader : List ℕ → Attempt Config) → String → Outcome Error Config
load files from_reader file_path = load_file files "JSON" from_reader file_path

-- `Config::sync`: `file_path` is an option, and the configuration's own path stands in for none.
unfoldable pub sync :
    Disk → (to_vec : Config → Attempt (List ℕ)) → Config → Option String → Outcome Error Files
sync disk to_vec c file_path = do
  refuse_if (is_none file_path && is_none c.config_file)
      (invalid_input_error "empty config-file path")
  p ← unwrap (if is_some file_path then file_path else c.config_file)
  save_file disk p (encoded_as "Config" "JSON" (to_vec c))

-- The check of `validate` that loads the genesis file; a failed load panics.
check_network_id :
    {C : Type 0}
    → (String → Outcome Error (Genesis C))
    → Config
    → Option String
    → Outcome Error (Unit {0})
check_network_id load_genesis c none = ok tt
check_network_id load_genesis c (some genesis_file_path) = do
  genesis_config ← expect (load_genesis genesis_file_path)
  refuse_if (not (genesis_config.network_id == c.network_id)) (
      invalid_input_error (
        format (
          "'genesis' network ID "
          ∷ decimal genesis_config.network_id
          ∷ " != avalanchego::Config.network_id "
          ∷ decimal c.network_id
          ∷ [])))

-- The checks of `validate` on the genesis file.
unfoldable pub check_genesis :
    {C : Type 0}
    → (String → Bool)
    → (String → Outcome Error (Genesis C))
    → Config
    → Outcome Error (Unit {0})
unfolding check_network_id
check_genesis exists load_genesis c = do
  refuse_if (not (is_custom_network c) && is_some c.genesis) (
      invalid_input_error (
        format (
          "non-empty '--genesis="
          ∷ unwrap_or c.genesis ""
          ∷ "' for network_id "
          ∷ decimal c.network_id
          ∷ [])))
  refuse_if (is_custom_network c && is_none c.genesis) (
      invalid_input_error (
        format
          ("non-empty '--network-id=" ∷ decimal c.network_id ∷ "' but empty '--genesis'" ∷ [])))
  refuse_if (is_some c.genesis && not (exists (unwrap_or c.genesis ""))) (
      invalid_input_error (
        format (
          "non-empty '--genesis="
          ∷ unwrap_or c.genesis ""
          ∷ "' but genesis file does not exist"
          ∷ [])))
  check_network_id load_genesis c c.genesis

-- The checks of `validate` on staking.
unfoldable pub check_staking : Config → Outcome Error (Unit {0})
check_staking c = do
  refuse_if (is_some c.staking_enabled && not (unwrap_or c.staking_enabled false))
      (invalid_input_error "'staking-enabled' must be true")
  refuse_if (is_none c.staking_tls_cert_file)
      (invalid_input_error "'staking-tls-cert-file' not defined")
  refuse_if (is_none c.staking_tls_key_file)
      (invalid_input_error "'staking-tls-key-file' not defined")
  ok tt

-- The checks of `validate` on state sync.
unfoldable pub check_state_sync : Config → Outcome Error (Unit {0})
check_state_sync c = do
  refuse_if (is_some c.state_sync_ids && is_none c.state_sync_ips)
      (invalid_input_error "non-empty 'state-sync-ids' but empty 'state-sync-ips'")
  refuse_if (is_none c.state_sync_ids && is_some c.state_sync_ips)
      (invalid_input_error "non-empty 'state-sync-ips' but empty 'state-sync-ids'")
  ok tt

-- The checks of `validate` on continuous profiles.
unfoldable pub check_profile : Config → Outcome Error (Unit {0})
check_profile c = do
  refuse_if
      (is_some c.profile_continuous_enabled && not (unwrap_or c.profile_continuous_enabled false))
      (invalid_input_error "'profile-continuous-enabled' must be true")
  refuse_if (is_some c.profile_continuous_freq && is_none c.profile_continuous_enabled) (
      invalid_input_error
        "non-empty 'profile-continuous-freq' but empty 'profile-continuous-enabled'")
  refuse_if (is_some c.profile_continuous_max_files && is_none c.profile_continuous_enabled) (
      invalid_input_error
        "non-empty 'profile-continuous-max-files' but empty 'profile-continuous-enabled'")
  ok tt

-- `Config::validate`, from which paths exist and what `Genesis::load` answers
unfoldable pub validate :
    {C : Type 0}
    → (exists : String → Bool) → (load_genesis : String → Outcome Error (Genesis C)) → Config
    → Outcome Error (Unit {0})
validate exists load_genesis c = do
  check_genesis exists load_genesis c
  check_staking c
  check_state_sync c
  check_profile c

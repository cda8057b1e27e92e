-- ===== src/Avalanche/Avalanchego/Config/Constants.antt =====
-- src/avalanche/avalanchego/config.rs: the constants of the default configuration.
use avalanche_ops.Prelude.{ℕ, String, Bool, true, false}

abbrev pub default_config_file_path : String
default_config_file_path = "/etc/avalanche.config.json"

abbrev pub default_genesis_path : String
default_genesis_path = "/etc/avalanche.genesis.json"

abbrev pub default_custom_network_id : ℕ
default_custom_network_id = 1000000

abbrev pub default_db_type : String
default_db_type = "leveldb"

abbrev pub default_db_dir : String
default_db_dir = "/avalanche-data"

abbrev pub default_log_dir : String
default_log_dir = "/var/log/avalanche"

abbrev pub default_log_level : String
default_log_level = "INFO"

abbrev pub default_http_port : ℕ
default_http_port = 9650

abbrev pub default_http_host : String
default_http_host = "0.0.0.0"

abbrev pub default_http_tls_enabled : Bool
default_http_tls_enabled = false

abbrev pub default_staking_enabled : Bool
default_staking_enabled = true

abbrev pub default_staking_port : ℕ
default_staking_port = 9651

abbrev pub default_staking_tls_key_file : String
default_staking_tls_key_file = "/etc/pki/tls/certs/avalanched.pki.key"

abbrev pub default_staking_tls_cert_file : String
default_staking_tls_cert_file = "/etc/pki/tls/certs/avalanched.pki.crt"

abbrev pub default_snow_sample_size : ℕ
default_snow_sample_size = 20

abbrev pub default_snow_quorum_size : ℕ
default_snow_quorum_size = 15

abbrev pub default_index_enabled : Bool
default_index_enabled = false

abbrev pub default_index_allow_incomplete : Bool
default_index_allow_incomplete = false

abbrev pub default_api_admin_enabled : Bool
default_api_admin_enabled = true

abbrev pub default_api_info_enabled : Bool
default_api_info_enabled = true

abbrev pub default_api_keystore_enabled : Bool
default_api_keystore_enabled = true

abbrev pub default_api_metrics_enabled : Bool
default_api_metrics_enabled = true

abbrev pub default_api_health_enabled : Bool
default_api_health_enabled = true

abbrev pub default_api_ipcs_enabled : Bool
default_api_ipcs_enabled = true

abbrev pub default_chain_config_dir : String
default_chain_config_dir = "/etc/avalanche/configs/chains"

abbrev pub default_subnet_config_dir : String
default_subnet_config_dir = "/etc/avalanche/configs/subnets"

abbrev pub default_profile_dir : String
default_profile_dir = "/var/log/avalanche-profile/avalanche"

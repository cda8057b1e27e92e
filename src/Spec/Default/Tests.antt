-- ===== src/Spec/Default/Tests.antt =====
-- The defaults for a custom network and for the local one.
use avalanche_ops.Avalanche.Avalanchego.Genesis.{Genesis}
use avalanche_ops.Spec.{Spec, check_network, ok}
use avalanche_ops.Spec.Default.{
  DefaultSpecOption, config_with, avalanchego_config, machine, install_artifacts, coreth_config,
  network_id_of, max_files,
}
use avalanche_ops.Spec.Default.Networks.{check_network-ok_iff, default_config-ok_iff}
use avalanche_ops.Prelude.{String, none, false, some, true, ◌≡◌, ◌↔◌, ◌≢◌, refl}
use avalanche_ops.Avalanche.Constants.{get}
use avalanche_ops.Text.Numbers.{parse_u32}
use avalanche_ops.Avalanche.Avalanchego.Config.{
  check_staking, is_custom_network, is_mainnet, check_state_sync, check_profile,
}
use avalanche_ops.Outcome.{ok}
use avalanche_ops.Text.{is_empty}

abbrev options : String → DefaultSpecOption
options name = record {
  log_level = "";
  network_name = name;
  keys_to_generate = 5;
  region = "us-west-2";
  db_backup_s3_region = "";
  db_backup_s3_bucket = "";
  db_backup_s3_key = "";
  nlb_acm_certificate_arn = "";
  install_artifacts_avalanched_bin = "";
  install_artifacts_avalanche_bin = "";
  install_artifacts_plugins_dir = "";
  avalanchego_log_level = "INFO";
  avalanchego_whitelisted_subnets = "";
  avalanchego_http_tls_enabled = false;
  avalanchego_state_sync_ids = "";
  avalanchego_state_sync_ips = "";
  avalanchego_profile_continuous_enabled = true;
  avalanchego_profile_continuous_freq = "";
  avalanchego_profile_continuous_max_files = "12";
  coreth_metrics_enabled = false;
  coreth_continuous_profiler_enabled = false;
  coreth_offline_pruning_enabled = false;
  enable_subnet_evm = false;
  disable_instance_system_logs = false;
  disable_instance_system_metrics = false;
  spec_file_path = "";
}

abbrev template : Genesis (Unit {0})
template = record {
  network_id = 12345;
  allocations = none;
  start_time = none;
  initial_stake_duration = none;
  initial_stake_duration_offset = none;
  initial_staked_funds = none;
  initial_stakers = none;
  c_chain_genesis = tt;
  message = none;
}

abbrev local : DefaultSpecOption
local = options "local"

abbrev local_spec : Spec (Unit {0}) (Unit {0})
local_spec = record {
  id = "aops-local";
  aws_resources = none;
  machine = machine 12345;
  install_artifacts = install_artifacts local;
  avalanchego_config = config_with local (some 12);
  coreth_config = coreth_config local;
  avalanchego_genesis_template = some template;
  subnet_evm_genesis = none;
  generated_seed_private_key_with_locked_p_chain_balance = none;
  generated_seed_private_keys = none;
  current_nodes = none;
  endpoints = none;
}

check_network-ok_iff_example : check_network local_spec ≡ ok tt ↔ (local.network_name ≢ "local")
unfolding avalanchego_config network_id_of get max_files parse_u32 is_custom_network is_mainnet
check_network-ok_iff_example = check_network-ok_iff local local_spec refl refl refl

default_config-ok_iff_example :
    ((check_staking local_spec.avalanchego_config ≡ ok tt)
      × (check_state_sync local_spec.avalanchego_config ≡ ok tt)
      × (check_profile local_spec.avalanchego_config ≡ ok tt))
    ↔ ((is_empty local.avalanchego_state_sync_ids ≡ is_empty local.avalanchego_state_sync_ips)
        × (local.avalanchego_profile_continuous_enabled ≡ false
            → (is_empty local.avalanchego_profile_continuous_freq ≡ true)
              × (is_empty local.avalanchego_profile_continuous_max_files ≡ true)))
unfolding avalanchego_config network_id_of get max_files parse_u32
default_config-ok_iff_example = default_config-ok_iff local local_spec.avalanchego_config refl

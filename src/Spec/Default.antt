-- ===== src/Spec/Default.antt =====
-- src/lib.rs: the parts of `Spec::default_aws` that depend on the options and the network alone: the
-- configurations, the machine, the AWS resources and the artifacts.
pub mod Networks
mod Tests
use avalanche_ops.Aws.Resources
use avalanche_ops.Aws.Resources.{Resources}
use avalanche_ops.Avalanche.Avalanchego.Config
use avalanche_ops.Avalanche.Avalanchego.Config.{is_custom_network, default_custom_network_id}
use avalanche_ops.Avalanche.Constants.{get, network_id_to_network_name, network_name_to_network_id}
use avalanche_ops.Avalanche.Coreth.Config as Coreth
use avalanche_ops.Spec.{
  Machine, InstallArtifacts, default_machine_anchor_nodes, default_machine_non_anchor_nodes,
}
use avalanche_ops.Prelude.{
  Option, String, if◌then◌else◌, none, ℕ, Bool, not, some, unwrap_or, ◌==◌, false, str_eq, true,
  ◌∷◌, [],
}
use avalanche_ops.Outcome.{Outcome, ◌>>=◌, ok, unwrap}
use avalanche_ops.Text.{is_empty}
use avalanche_ops.Text.Numbers.{parse_u32}

pub record DefaultSpecOption : Type 0 where
  pub log_level : String
  pub network_name : String
  pub keys_to_generate : ℕ
  pub region : String
  pub db_backup_s3_region : String
  pub db_backup_s3_bucket : String
  pub db_backup_s3_key : String
  pub nlb_acm_certificate_arn : String
  pub install_artifacts_avalanched_bin : String
  pub install_artifacts_avalanche_bin : String
  pub install_artifacts_plugins_dir : String
  pub avalanchego_log_level : String
  pub avalanchego_whitelisted_subnets : String
  pub avalanchego_http_tls_enabled : Bool
  pub avalanchego_state_sync_ids : String
  pub avalanchego_state_sync_ips : String
  pub avalanchego_profile_continuous_enabled : Bool
  pub avalanchego_profile_continuous_freq : String
  pub avalanchego_profile_continuous_max_files : String
  pub coreth_metrics_enabled : Bool
  pub coreth_continuous_profiler_enabled : Bool
  pub coreth_offline_pruning_enabled : Bool
  pub enable_subnet_evm : Bool
  pub disable_instance_system_logs : Bool
  pub disable_instance_system_metrics : Bool
  pub spec_file_path : String

-- A text option, which counts as absent if it is empty.
abbrev pub filled : String → Option String → Option String
filled s old = if not (is_empty s) then some s else old

-- The network id of a name.
unfoldable pub network_id_of : String → ℕ
network_id_of name =
    unwrap_or (get str_eq name network_name_to_network_id) default_custom_network_id

-- `profile_continuous_max_files`: a text that is no number panics.
unfoldable pub max_files : {E : Type 0} → String → Option ℕ → Outcome E (Option ℕ)
max_files s old = if not (is_empty s) then (unwrap (parse_u32 s) >>= λ n. ok (some n)) else ok old

abbrev with_network : ℕ → String → Config.Config
with_network network_id log_level = record Config.default {
  network_id = network_id;
  log_level = some log_level;
}

-- The configuration of the nodes, from the number of files for profiles.
abbrev pub config_with : DefaultSpecOption → Option ℕ → Config.Config
config_with opt files =
    let c = with_network (network_id_of opt.network_name) opt.avalanchego_log_level in
    let tls = opt.avalanchego_http_tls_enabled in
    record c {
      genesis = if not (is_custom_network c) then none else c.genesis;
      http_tls_enabled = if tls then some true else c.http_tls_enabled;
      http_tls_key_file = if tls then c.staking_tls_key_file else c.http_tls_key_file;
      http_tls_cert_file = if tls then c.staking_tls_cert_file else c.http_tls_cert_file;
      state_sync_ids = filled opt.avalanchego_state_sync_ids c.state_sync_ids;
      state_sync_ips = filled opt.avalanchego_state_sync_ips c.state_sync_ips;
      profile_continuous_enabled =
          if opt.avalanchego_profile_continuous_enabled
          then some true
          else c.profile_continuous_enabled;
      profile_continuous_freq =
          filled opt.avalanchego_profile_continuous_freq c.profile_continuous_freq;
      profile_continuous_max_files = files;
      whitelisted_subnets = filled opt.avalanchego_whitelisted_subnets c.whitelisted_subnets;
    }

-- The configuration of the nodes.
unfoldable pub avalanchego_config : {E : Type 0} → DefaultSpecOption → Outcome E Config.Config
avalanchego_config opt = do
  files ← max_files opt.avalanchego_profile_continuous_max_files none
  ok (config_with opt files)

-- The number of anchor nodes, from whether the network has a name.
abbrev pub anchors_of : Option String → Option ℕ
anchors_of (some name) = none
anchors_of none = some default_machine_anchor_nodes

-- The machine of a network id.
unfoldable pub machine : ℕ → Machine
machine network_id = record {
  anchor_nodes = anchors_of (get (λ a b. a == b) network_id network_id_to_network_name);
  non_anchor_nodes = default_machine_non_anchor_nodes;
  instance_types = some ("c6a.large" ∷ "m6a.large" ∷ "m5.large" ∷ "c5.large" ∷ []);
}

-- The AWS resources, from the name of the bucket.
unfoldable pub aws_resources : DefaultSpecOption → (s3_bucket : String) → Resources
aws_resources opt s3_bucket = record Resources.default {
  region = opt.region;
  s3_bucket = s3_bucket;
  db_backup_s3_region = filled opt.db_backup_s3_region none;
  db_backup_s3_bucket = filled opt.db_backup_s3_bucket none;
  db_backup_s3_key = filled opt.db_backup_s3_key none;
  nlb_acm_certificate_arn = filled opt.nlb_acm_certificate_arn none;
  instance_system_logs = if opt.disable_instance_system_logs then some false else some true;
  instance_system_metrics = if opt.disable_instance_system_metrics then some false else some true;
}

-- The artifacts.
unfoldable pub install_artifacts : DefaultSpecOption → InstallArtifacts
install_artifacts opt = record {
  avalanched_bin = opt.install_artifacts_avalanched_bin;
  avalanchego_bin = opt.install_artifacts_avalanche_bin;
  plugins_dir = filled opt.install_artifacts_plugins_dir none;
}

-- The configuration of the C-chain's virtual machine.
unfoldable pub coreth_config : DefaultSpecOption → Coreth.Config
coreth_config opt =
    let c = Coreth.default in
    let profiles = opt.coreth_continuous_profiler_enabled in
    record c {
      metrics_enabled = if opt.coreth_metrics_enabled then some true else c.metrics_enabled;
      continuous_profiler_dir =
          if profiles then some Coreth.default_profile_dir else c.continuous_profiler_dir;
      continuous_profiler_frequency =
          if profiles
          then some Coreth.default_profile_frequency
          else c.continuous_profiler_frequency;
      continuous_profiler_max_files =
          if profiles
          then some Coreth.default_profile_max_files
          else c.continuous_profiler_max_files;
      offline_pruning_enabled =
          if opt.coreth_offline_pruning_enabled then some true else c.offline_pruning_enabled;
    }

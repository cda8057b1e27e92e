-- ===== src/Spec/Tests.antt =====
-- The checks at concrete specifications.
use avalanche_ops.Aws.Resources
use avalanche_ops.Aws.Resources.{Resources}
use avalanche_ops.Spec.{
  Spec, validate, check_id, check_aws_resources, check_non_anchor_nodes, check_install_artifacts,
  ok, check_network, check_known_network,
}
use avalanche_ops.Text.{byte_length, is_empty}
use avalanche_ops.Avalanche.Avalanchego.Config.{is_custom_network}
use avalanche_ops.Spec.Valid.{IsValid, validate-ok_iff, validate-panic_iff}
use avalanche_ops.Prelude.{Option, String, none, some, Bool, ◌≡◌, true, refl, ◌↔◌, false, is_some}
use avalanche_ops.Outcome.{ok, panic}
use avalanche_ops.Avalanche.Avalanchego.Config
use avalanche_ops.Avalanche.Coreth.Config as Coreth

abbrev mainnet : Config.Config
mainnet = record Config.default { network_id = 1; genesis = none }

abbrev mainnet_spec : Option Resources → Spec (Unit {0}) (Unit {0})
mainnet_spec resources = record {
  id = "aops-mainnet";
  aws_resources = resources;
  machine = record { anchor_nodes = none; non_anchor_nodes = 2; instance_types = none };
  install_artifacts = record {
    avalanched_bin = "/tmp/avalanched";
    avalanchego_bin = "/tmp/avalanchego";
    plugins_dir = none;
  };
  avalanchego_config = mainnet;
  coreth_config = Coreth.default;
  avalanchego_genesis_template = none;
  subnet_evm_genesis = none;
  generated_seed_private_key_with_locked_p_chain_balance = none;
  generated_seed_private_keys = none;
  current_nodes = none;
  endpoints = none;
}

abbrev in_tmp : String → Bool
in_tmp p = true

abbrev no_bucket : Resources
no_bucket = record Resources.default { db_backup_s3_region = some "us-west-2" }

validate-ok_iff_example :
    validate in_tmp (mainnet_spec (some Resources.default)) ≡ ok tt
    ↔ IsValid in_tmp (mainnet_spec (some Resources.default))
validate-ok_iff_example = validate-ok_iff in_tmp (mainnet_spec (some Resources.default))

validate-panic_iff_example : validate in_tmp (mainnet_spec (some no_bucket)) ≡ panic ↔ (
    (check_id (mainnet_spec (some no_bucket)).id ≡ ok tt)
    × ((r : Resources) × ((mainnet_spec (some no_bucket)).aws_resources ≡ some r)
        × (is_empty r.region ≡ false)
        × (is_some r.db_backup_s3_region ≡ true)
        × (r.db_backup_s3_bucket ≡ none)))
validate-panic_iff_example = validate-panic_iff in_tmp (mainnet_spec (some no_bucket))

mainnet_runs : validate in_tmp (mainnet_spec (some Resources.default)) ≡ ok tt
unfolding validate check_id check_aws_resources check_non_anchor_nodes check_install_artifacts
    check_network check_known_network byte_length is_custom_network
mainnet_runs = refl

no_bucket_panics : validate in_tmp (mainnet_spec (some no_bucket)) ≡ panic
unfolding validate check_id check_aws_resources byte_length
no_bucket_panics = refl

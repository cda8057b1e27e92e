-- ===== src/Spec.antt =====
-- src/lib.rs: the specification of a network, and its checks.
-- The genesis of the C-chain and of the subnet's virtual machine, which no check reads, are type
-- parameters.
pub mod Valid
pub mod Default
pub mod Storage
mod Tests
use avalanche_ops.Aws.Resources.{Resources}
use avalanche_ops.Avalanche.Avalanchego.Config
use avalanche_ops.Avalanche.Avalanchego.Config.{is_custom_network}
use avalanche_ops.Avalanche.Avalanchego.Genesis.{Genesis}
use avalanche_ops.Avalanche.Coreth.Config as Coreth
use avalanche_ops.Avalanche.Key.{PrivateKeyInfo}
use avalanche_ops.Avalanche.Node.{Node}
use avalanche_ops.Io.{Error, invalid_input_error, Files, Disk, load_file, save_file, encoded_as}
use avalanche_ops.Prelude.{
  Bool, List, Option, String, ℕ, if◌then◌else◌, some, ◌∷◌, [], is_none, is_some, ltb, not,
  unwrap_or, ◌&&◌, false, none, ◌==◌, true,
}
use avalanche_ops.Outcome.{Attempt, Outcome, ok, ◌>>◌, refuse_if, ◌>>=◌, unwrap, err}
use avalanche_ops.Text.{format, decimal, is_empty, byte_length}

abbrev pub default_keys_to_generate : ℕ
default_keys_to_generate = 5

abbrev pub default_machine_anchor_nodes : ℕ
default_machine_anchor_nodes = 2

abbrev pub min_machine_anchor_nodes : ℕ
min_machine_anchor_nodes = 1

abbrev pub max_machine_anchor_nodes : ℕ
max_machine_anchor_nodes = 10

abbrev pub default_machine_non_anchor_nodes : ℕ
default_machine_non_anchor_nodes = 2

abbrev pub min_machine_non_anchor_nodes : ℕ
min_machine_non_anchor_nodes = 1

abbrev pub max_machine_non_anchor_nodes : ℕ
max_machine_non_anchor_nodes = 200

pub record Endpoints : Type 0 where
  pub http_rpc : Option String
  pub http_rpc_x : Option String
  pub http_rpc_p : Option String
  pub http_rpc_c : Option String
  pub metrics : Option String
  pub health : Option String
  pub liveness : Option String
  pub metamask_rpc : Option String
  pub websocket : Option String

pub record Machine : Type 0 where
  pub anchor_nodes : Option ℕ
  pub non_anchor_nodes : ℕ
  pub instance_types : Option (List String)

pub record InstallArtifacts : Type 0 where
  pub avalanched_bin : String
  pub avalanchego_bin : String
  pub plugins_dir : Option String

pub record Spec (C E : Type 0) : Type 0 where
  pub id : String
  pub aws_resources : Option Resources
  pub machine : Machine
  pub install_artifacts : InstallArtifacts
  pub avalanchego_config : Config.Config
  pub coreth_config : Coreth.Config
  pub avalanchego_genesis_template : Option (Genesis C)
  pub subnet_evm_genesis : Option E
  pub generated_seed_private_key_with_locked_p_chain_balance : Option PrivateKeyInfo
  pub generated_seed_private_keys : Option (List PrivateKeyInfo)
  pub current_nodes : Option (List Node)
  pub endpoints : Option Endpoints

-- The CloudFormation stacks of a network.
pub data StackName : Type 0 where
  ec2_instance_role vpc asg_beacon_nodes asg_non_beacon_nodes : String → StackName

-- `StackName::encode`
unfoldable pub encode : StackName → String
encode (ec2_instance_role id) = format (id ∷ "-ec2-instance-role" ∷ [])
encode (vpc id) = format (id ∷ "-vpc" ∷ [])
encode (asg_beacon_nodes id) = format (id ∷ "-asg-anchor-nodes" ∷ [])
encode (asg_non_beacon_nodes id) = format (id ∷ "-asg-non-anchor-nodes" ∷ [])

-- `Spec::load`, from the file system and the decoder
unfoldable pub load :
    {C E : Type 0} → Files → (List ℕ → Attempt (Spec C E)) → String → Outcome Error (Spec C E)
load files from_reader file_path = load_file files "YAML" from_reader file_path

-- `Spec::sync`, to the file system and with the encoder
unfoldable pub sync :
    {C E : Type 0} → Disk → (Spec C E → Attempt (List ℕ)) → Spec C E → String → Outcome Error Files
sync disk to_vec spec file_path = save_file disk file_path (encoded_as "Spec" "YAML" (to_vec spec))

-- The checks of `validate` on the id.
unfoldable pub check_id : String → Outcome Error (Unit {0})
check_id id = do
  refuse_if (is_empty id) (invalid_input_error "'id' cannot be empty")
  refuse_if (ltb 28 (byte_length id)) (
      invalid_input_error
        (format ("'id' length cannot be >28 (got " ∷ decimal (byte_length id) ∷ ")" ∷ [])))
  ok tt

-- An error whose message names the bucket; it panics if there is none.
abbrev pub bucket_missing : Bool → Option String → String → Outcome Error (Unit {0})
bucket_missing false bucket what = ok tt
bucket_missing true bucket what = do
  name ← unwrap bucket
  err (invalid_input_error (format (name ∷ " missing corresponding " ∷ what ∷ [])))

-- The checks of `validate` on the AWS resources.
unfoldable pub check_aws_resources : Option Resources → Outcome Error (Unit {0})
check_aws_resources none = ok tt
check_aws_resources (some r) = do
  refuse_if (is_empty r.region) (invalid_input_error "'machine.region' cannot be empty")
  bucket_missing (is_some r.db_backup_s3_region && is_none r.db_backup_s3_bucket)
      r.db_backup_s3_bucket "bucket"
  bucket_missing (is_some r.db_backup_s3_bucket && is_none r.db_backup_s3_key) r.db_backup_s3_bucket
      "key"
  bucket_missing (is_some r.db_backup_s3_bucket && is_none r.db_backup_s3_region)
      r.db_backup_s3_bucket "region"

-- The checks of `validate` on the number of non-anchor nodes.
unfoldable pub check_non_anchor_nodes : Machine → Outcome Error (Unit {0})
check_non_anchor_nodes machine = do
  refuse_if (ltb machine.non_anchor_nodes min_machine_non_anchor_nodes) (
      invalid_input_error (
        format (
          "'machine.non_anchor_nodes' "
          ∷ decimal machine.non_anchor_nodes
          ∷ " <minimum "
          ∷ decimal min_machine_non_anchor_nodes
          ∷ [])))
  refuse_if (ltb max_machine_non_anchor_nodes machine.non_anchor_nodes) (
      invalid_input_error (
        format (
          "'machine.non_anchor_nodes' "
          ∷ decimal machine.non_anchor_nodes
          ∷ " >maximum "
          ∷ decimal max_machine_non_anchor_nodes
          ∷ [])))
  ok tt

abbrev does_not_exist : String → String → Error
does_not_exist what path = invalid_input_error (format (what ∷ " " ∷ path ∷ " does not exist" ∷ []))

-- The checks of `validate` on the artifacts.
unfoldable pub check_install_artifacts :
    (String → Bool) → InstallArtifacts → Outcome Error (Unit {0})
check_install_artifacts exists artifacts = do
  refuse_if (not (exists artifacts.avalanched_bin))
      (does_not_exist "avalanched_bin" artifacts.avalanched_bin)
  refuse_if (not (exists artifacts.avalanchego_bin))
      (does_not_exist "avalanchego_bin" artifacts.avalanchego_bin)
  refuse_if (is_some artifacts.plugins_dir && not (exists (unwrap_or artifacts.plugins_dir "")))
      (does_not_exist "plugins_dir" (unwrap_or artifacts.plugins_dir ""))
  ok tt

abbrev for_network : String → ℕ → Error
for_network what network_id =
    invalid_input_error (format (what ∷ " for network_id " ∷ decimal network_id ∷ []))

-- The checks of `validate` for a known network.
unfoldable pub check_known_network : {C E : Type 0} → Spec C E → Outcome Error (Unit {0})
check_known_network spec = do
  refuse_if (is_some spec.avalanchego_genesis_template) (
      for_network "cannot specify 'avalanchego_genesis_template'"
        spec.avalanchego_config.network_id)
  refuse_if (ltb 0 (unwrap_or spec.machine.anchor_nodes 0)) (
      for_network "cannot specify non-zero 'machine.anchor_nodes'"
        spec.avalanchego_config.network_id)
  ok tt

-- The checks of `validate` for a custom network.
unfoldable pub check_custom_network : {C E : Type 0} → Spec C E → Outcome Error (Unit {0})
check_custom_network spec = do
  refuse_if (is_none spec.avalanchego_genesis_template)
      (for_network "must specify 'avalanchego_genesis_template'" spec.avalanchego_config.network_id)
  refuse_if (unwrap_or spec.machine.anchor_nodes 0 == 0)
      (invalid_input_error "cannot specify 0 for 'machine.anchor_nodes' for custom network")
  refuse_if (ltb (unwrap_or spec.machine.anchor_nodes 0) min_machine_anchor_nodes) (
      invalid_input_error (
        format (
          "'machine.anchor_nodes' "
          ∷ decimal (unwrap_or spec.machine.anchor_nodes 0)
          ∷ " below min "
          ∷ decimal min_machine_anchor_nodes
          ∷ [])))
  refuse_if (ltb max_machine_anchor_nodes (unwrap_or spec.machine.anchor_nodes 0)) (
      invalid_input_error (
        format (
          "'machine.anchor_nodes' "
          ∷ decimal (unwrap_or spec.machine.anchor_nodes 0)
          ∷ " exceeds limit "
          ∷ decimal max_machine_anchor_nodes
          ∷ [])))
  ok tt

unfoldable pub check_network : {C E : Type 0} → Spec C E → Outcome Error (Unit {0})
check_network spec =
    if not (is_custom_network spec.avalanchego_config)
    then check_known_network spec
    else check_custom_network spec

-- `Spec::validate`, from which paths exist
unfoldable pub validate :
    {C E : Type 0} → (exists : String → Bool) → Spec C E → Outcome Error (Unit {0})
validate exists spec = do
  check_id spec.id
  check_aws_resources spec.aws_resources
  check_non_anchor_nodes spec.machine
  check_install_artifacts exists spec.install_artifacts
  check_network spec

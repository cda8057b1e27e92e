-- ===== src/Dev.antt =====
-- src/dev/mod.rs: the specification of development machines, its default and its checks.
pub mod Valid
mod Tests
use avalanche_ops.Utils.Id.{DateTime, with_time, get, system}
use avalanche_ops.Aws.Resources.{Identity}
use avalanche_ops.Io.{Error, invalid_input_error, Files, Disk, load_file, save_file, encoded_as}
use avalanche_ops.Prelude.{
  List, Option, String, none, ℕ, if◌then◌else◌, not, some, ◌∷◌, [], str_eq, ltb,
}
use avalanche_ops.Outcome.{Attempt, Outcome, ok, ◌>>◌, refuse_if, err, ◌>>=◌}
use avalanche_ops.Text.{format, is_empty, byte_length, decimal}

abbrev pub min_machines : ℕ
min_machines = 1

abbrev pub max_machines : ℕ
max_machines = 2

abbrev pub default_arch : String
default_arch = "arm64"

pub record Machine : Type 0 where
  pub machines : ℕ
  pub arch : String
  pub instance_types : Option (List String)

pub record AwsResources : Type 0 where
  pub region : String
  pub bucket : String
  pub identity : Option Identity
  pub kms_cmk_id : Option String
  pub kms_cmk_arn : Option String
  pub ec2_key_name : Option String
  pub ec2_key_path : Option String
  pub cloudformation_ec2_instance_role : Option String
  pub cloudformation_ec2_instance_profile_arn : Option String
  pub cloudformation_vpc : Option String
  pub cloudformation_vpc_id : Option String
  pub cloudformation_vpc_security_group_id : Option String
  pub cloudformation_vpc_public_subnet_ids : Option (List String)
  pub cloudformation_asg : Option String
  pub cloudformation_asg_logical_id : Option String

pub record Spec : Type 0 where
  pub id : String
  pub aws_resources : Option AwsResources
  pub machine : Machine

-- `AWSResources::default`
abbrev pub default_aws_resources : AwsResources
default_aws_resources = record {
  region = "us-west-2";
  bucket = "";
  identity = none;
  kms_cmk_id = none;
  kms_cmk_arn = none;
  ec2_key_name = none;
  ec2_key_path = none;
  cloudformation_ec2_instance_role = none;
  cloudformation_ec2_instance_profile_arn = none;
  cloudformation_vpc = none;
  cloudformation_vpc_id = none;
  cloudformation_vpc_security_group_id = none;
  cloudformation_vpc_public_subnet_ids = none;
  cloudformation_asg = none;
  cloudformation_asg_logical_id = none;
}

-- The CloudFormation stacks of the machines.
pub data StackName : Type 0 where
  ec2_instance_role vpc asg : String → StackName

-- `StackName::encode`
unfoldable pub encode : StackName → String
encode (ec2_instance_role id) = format (id ∷ "-ec2-instance-role" ∷ [])
encode (vpc id) = format (id ∷ "-vpc" ∷ [])
encode (asg id) = format (id ∷ "-asg" ∷ [])

-- The fields that `Spec::default` sets.
abbrev pub default_spec : (id bucket arch : String) → Spec
default_spec id bucket arch = record {
  id = id;
  aws_resources = some (record default_aws_resources { region = "us-west-2"; bucket = bucket });
  machine = record {
    machines = 1;
    arch = arch;
    instance_types = some ("c6g.2xlarge" ∷ "m6g.2xlarge" ∷ "r6g.2xlarge" ∷ "t4g.2xlarge" ∷ []);
  };
}

-- `Spec::default` at a time, from the base58 texts of random bytes and of the host's hash
unfoldable pub default :
    (now : DateTime) (random host : String) → (arch : String) → Outcome Error Spec
default now random host arch = do
  refuse_if (not (str_eq arch default_arch))
      (invalid_input_error (format ("arch " ∷ arch ∷ " is not supported yet" ∷ [])))
  id ← with_time now random "dev-machine"
  time ← get now 6
  suffix ← system host 7
  ok (default_spec id (format ("dev-machine-" ∷ time ∷ "-" ∷ suffix ∷ [])) arch)

-- `Spec::load`, from the file system and the decoder
unfoldable pub load : Files → (List ℕ → Attempt Spec) → String → Outcome Error Spec
load files from_reader file_path = load_file files "YAML" from_reader file_path

-- `Spec::sync`, to the file system and with the encoder
unfoldable pub sync : Disk → (Spec → Attempt (List ℕ)) → Spec → String → Outcome Error Files
sync disk to_vec spec file_path = save_file disk file_path (encoded_as "Spec" "YAML" (to_vec spec))

abbrev check_region : Option AwsResources → Outcome Error (Unit {0})
check_region none = ok tt
check_region (some v) =
    refuse_if (is_empty v.region) (invalid_input_error "'machine.region' cannot be empty")

-- `Spec::validate`
unfoldable pub validate : Spec → Outcome Error (Unit {0})
validate spec = do
  refuse_if (is_empty spec.id) (invalid_input_error "'id' cannot be empty")
  refuse_if (ltb 28 (byte_length spec.id)) (
      invalid_input_error
        (format ("'id' length cannot be >28 (got " ∷ decimal (byte_length spec.id) ∷ ")" ∷ [])))
  check_region spec.aws_resources
  refuse_if (ltb spec.machine.machines min_machines) (
      invalid_input_error (
        format (
          "'machine.machines' "
          ∷ decimal spec.machine.machines
          ∷ " <minimum "
          ∷ decimal min_machines
          ∷ [])))
  refuse_if (ltb max_machines spec.machine.machines) (
      invalid_input_error (
        format (
          "'machine.machines' "
          ∷ decimal spec.machine.machines
          ∷ " >maximum "
          ∷ decimal max_machines
          ∷ [])))
  ok tt

-- ===== src/Ops/Tests.antt =====
-- A small known network, applied and deleted in a world that answers every request.
use avalanche_ops.Prelude.{
  String, true, false, none, some, List, ◌∷◌, [], ◌≡◌, refl, ◌↔◌, ◌≤◌, ◌%◌, All, length, arith, ◌+◌,
  ◌*◌, inl, ◌++◌,
}
use Prim.Native.Nat.{min}
use avalanche_ops.Outcome.{ok, done}
use avalanche_ops.Run.Sends.{onto}
use avalanche_ops.Aws.Resources.{Resources, Identity}
use avalanche_ops.Aws.S3.{Object}
use avalanche_ops.Aws.CloudFormation.{create_complete, StackOutput, Stack}
use avalanche_ops.Avalanche.Node.{Node}
use avalanche_ops.Spec.{Spec}
use avalanche_ops.Ops.Requests.{World, Request, wait_secs, health_check, delete_stack}
use avalanche_ops.Ops.Apply.{create_resources}
use avalanche_ops.Ops.Apply.Saving.{
  State, set_defaults, save, sync_spec, create_buckets, upload_artifacts, upload_packed,
  upload_config, save_and_upload, upload_plugins,
}
use avalanche_ops.Ops.Apply.Endpoints.{
  check_health, check_nodes, dns_endpoints, finish, finish_at, http_rpc_of, https, show_subnet,
  try_health,
}
use avalanche_ops.Ops.Apply.Nodes.{
  await_objects, await_nodes, create_anchor_nodes, create_non_anchor_nodes, list_instances,
  new_non_anchor_nodes, parse_nodes, stop_downloading,
}
use avalanche_ops.Ops.Apply.Loops.{
  wait_secs-bounds, check_health-ok_iff, await_objects-returns, SomeHealthy,
}
use avalanche_ops.Ops.Apply.Prepared.{set_defaults_lem, HasNames}
use avalanche_ops.Ops.Apply.Due.{IsDue, vpc}
use avalanche_ops.Ops.Apply.Resumes.Whole.{
  create_resources-IsDue, create_resources-creates_nothing, IsComplete, is_creation,
}
use avalanche_ops.Ops.Delete.{
  Flags, delete_resources, delete_key, remove_files, delete_kms_key, trigger, confirm, when_set,
}
use avalanche_ops.Ops.Delete.Plan.{plan}
use avalanche_ops.Ops.Delete.Heeds.{AllAnswered}
use avalanche_ops.Ops.Delete.Effects.{
  delete_resources-plan, delete_resources-covers, Records, Among,
}
use avalanche_ops.Run.{◌>>=◌, lift, obtain, request, request_or, ask}
use avalanche_ops.Text.{decimal}
use avalanche_ops.Avalanche.Avalanchego.Config.{is_custom_network, is_mainnet}
use avalanche_ops.Ops.Apply.Stacks.{
  create_kms_key, new_key, create_ec2_key_pair, new_key_pair, get_ec2_key_path, create_role,
  create_vpc, deploy, new_role, new_vpc,
}
use avalanche_ops.Aws.S3.Bucket.{append_slash}
use avalanche_ops.Ops.Apply.Outputs.{
  asg_parameters, check_nlb, check_non_anchor_outputs, instance_params, non_anchor_params,
  on_nlb_output, on_non_anchor_output, on_role_output, on_vpc_output, role_params, take_outputs,
  volume_params, vpc_params,
}
use avalanche_ops.Spec.Storage.{node_of_splits, parse_node_from_path, path}
use avalanche_ops.Text.Split.{join, remove_all, split}
use avalanche_ops.Utils.Compress.{ext}
use avalanche_ops.Aws.Resources
use avalanche_ops.Avalanche.Avalanchego.Config
use avalanche_ops.Avalanche.Coreth.Config as Coreth

abbrev operator : Identity
operator = record { account_id = "1234"; role_arn = "arn:operator"; user_id = "op" }

abbrev node : Node
node = record {
  kind = "non-anchor";
  machine_id = "i-1";
  node_id = "NodeID-1";
  public_ip = "1.2.3.4";
  http_endpoint = "http://1.2.3.4:9650";
}

abbrev output : String → String → StackOutput
output k v = record { output_key = some k; output_value = some v }

abbrev stack : Stack
stack = record {
  name = "stack";
  id = "id";
  status = create_complete;
  outputs = some (
      output "InstanceProfileArn" "arn:profile"
      ∷ output "VpcId" "vpc-1"
      ∷ output "SecurityGroupId" "sg-1"
      ∷ output "PublicSubnetIds" "subnet-1,subnet-2"
      ∷ output "AsgLogicalId" "asg-1"
      ∷ output "NlbArn" "arn:nlb"
      ∷ output "NlbTargetGroupArn" "arn:tg"
      ∷ output "NlbDnsName" "nlb.test"
      ∷ []);
}

abbrev object : Object
object = record {
  key = some "id/discover/ready-non-anchor-nodes/i-1_abc.yaml";
  last_modified = some 7;
}

abbrev S : Type 0
S = Spec (Unit {0}) (Unit {0})

abbrev world : World S
world = record {
  exists = λ path. true;
  identity = done operator;
  identity_debug = λ i. i.user_id;
  selected = done 1;
  tmp_path = λ log suffix. done "/tmp/file";
  read_dir = λ log dir. done [];
  sent = λ log. done tt;
  written = λ log. ok tt;
  key_created = λ log. done (record { id = "key-1"; arn = "arn:key" });
  polled = λ log. done stack;
  encoded = λ spec. ok tt;
  droplets = λ log. done 2;
  listed = λ log. done (object ∷ object ∷ []);
  health = λ log. done (some true);
  decompress_base58 = λ text. ok node;
  error_text = λ e. e.message;
  home_named = λ name suffix. name;
  file_name = λ path. some "i-1_abc.yaml";
  file_stem = λ path. some "spec";
  beside = λ path name. done name;
}

abbrev mainnet : Config.Config
mainnet = record Config.default { network_id = 1; genesis = none }

abbrev spec_with : Resources → S
spec_with r = record {
  id = "aops";
  aws_resources = some r;
  machine = record { anchor_nodes = none; non_anchor_nodes = 2; instance_types = none };
  install_artifacts = record {
    avalanched_bin = "/tmp/avalanched";
    avalanchego_bin = "/tmp/avalanchego";
    plugins_dir = none;
  };
  avalanchego_config = mainnet;
  coreth_config = Coreth.default;
  avalanchego_genesis_template = none;
  subnet_evm_genesis = none;
  generated_seed_private_key_with_locked_p_chain_balance = none;
  generated_seed_private_keys = none;
  current_nodes = none;
  endpoints = none;
}

abbrev named : Resources
named = record Resources.default {
  identity = some operator;
  s3_bucket = "bucket";
  ec2_key_name = some "aops-ec2-key";
  cloudformation_ec2_instance_role = some "aops-ec2-instance-role";
  cloudformation_vpc = some "aops-vpc";
  cloudformation_asg_non_anchor_nodes = some "aops-asg-non-anchor-nodes";
  cloudwatch_avalanche_metrics_namespace = some "aops-avalanche";
}

abbrev applied : Resources
applied = record named {
  kms_cmk_id = some "key-1";
  kms_cmk_arn = some "arn:key";
  ec2_key_path = some "spec-ec2-access.key";
  cloudformation_ec2_instance_profile_arn = some "arn:profile";
  cloudformation_vpc_id = some "vpc-1";
  cloudformation_vpc_security_group_id = some "sg-1";
  cloudformation_vpc_public_subnet_ids = some ("subnet-1" ∷ "subnet-2" ∷ []);
  cloudformation_asg_non_anchor_nodes_logical_id = some "asg-1";
  cloudformation_asg_nlb_arn = some "arn:nlb";
  cloudformation_asg_nlb_target_group_arn = some "arn:tg";
  cloudformation_asg_nlb_dns_name = some "nlb.test";
}

abbrev state_with : Resources → State (Unit {0}) (Unit {0})
state_with r = record { spec = spec_with r; aws_resources = r; current_nodes = [] }

create_resources-IsDue_example :
    All (IsDue named) (create_resources world "spec.yaml" 1 (state_with named) []).1
create_resources-IsDue_example = create_resources-IsDue world "spec.yaml" 1 (state_with named)

applied-IsComplete : IsComplete applied
applied-IsComplete = record {
  key = refl;
  key_pair = refl;
  has_role = refl;
  has_vpc = refl;
  has_anchors = inl refl;
  has_non_anchors = refl;
}

create_resources-creates_nothing_example :
    All
      (λ v. is_creation v ≡ false)
      (create_resources world "spec.yaml" 1 (state_with applied) []).1
create_resources-creates_nothing_example =
    create_resources-creates_nothing world "spec.yaml" 1 (state_with applied) applied-IsComplete

wait_secs-bounds_example :
    (wait_secs 50 ≡ min (300 + 60 * 50) 3000) × (300 ≤ wait_secs 50) × (wait_secs 50 ≤ 3000)
wait_secs-bounds_example = wait_secs-bounds 50 (omega arith)

check_health-ok_iff_example :
    ((check_health world "spec.yaml" false "http://nlb.test" []).0 ≡ ok tt
      ↔ SomeHealthy world "spec.yaml" "http://nlb.test" 10 [])
    × (length (check_health world "spec.yaml" false "http://nlb.test" []).1 ≤ 0 + 10)
    × (check_health world "spec.yaml" true "http://nlb.test" []
        ≡ (ok tt, health_check "http://nlb.test" ∷ []))
check_health-ok_iff_example = check_health-ok_iff world "spec.yaml" "http://nlb.test" []

await_objects-returns_example :
    (os : List Object) × ((await_objects world "spec.yaml" 3 3 "bucket" "aops/" 2 []).0 ≡ ok os)
    × (2 ≤ length os % 4294967296)
await_objects-returns_example =
    await_objects-returns world "spec.yaml" "bucket" "aops/" 2 3 1 3 [] (omega arith)
      (λ j h. (object ∷ object ∷ [], refl))
      (λ os e. let same : os ≡ object ∷ object ∷ [] = cc in rw (same) (omega arith))

set_defaults_lem_example :
    HasNames true "aops" Resources.default (set_defaults true "aops" Resources.default)
    × (set_defaults true "aops" (set_defaults true "aops" Resources.default)
        ≡ set_defaults true "aops" Resources.default)
set_defaults_lem_example = set_defaults_lem true "aops" Resources.default

abbrev flags : Flags
flags = record {
  delete_cloudwatch_log_group = true;
  delete_s3_objects = true;
  delete_s3_bucket = false;
  skip_prompt = true;
}

delete_resources-plan_example :
    ((delete_resources world flags (spec_with applied) applied []).0 ≡ ok tt
      → ((delete_resources world flags (spec_with applied) applied []).1
          ≡ onto (plan world.exists flags (spec_with applied) applied) [])
        × AllAnswered world (delete_resources world flags (spec_with applied) applied []).1)
    × ((sent : List (Request S)) × (left : List (Request S)) × (sent ++ left
          ≡ plan world.exists flags (spec_with applied) applied)
        × ((delete_resources world flags (spec_with applied) applied []).1 ≡ onto sent []))
    × ((later earlier : List (Request S)) (v : Request S)
        → (delete_resources world flags (spec_with applied) applied []).1 ≡ later ++ v ∷ earlier
        → AllAnswered world earlier)
delete_resources-plan_example = delete_resources-plan world flags (spec_with applied) applied

deletes : (delete_resources world flags (spec_with applied) applied []).0 ≡ ok tt
unfolding delete_resources delete_key remove_files delete_kms_key trigger confirm when_set ◌>>=◌
    lift request
deletes = refl

records : Records (spec_with applied) named applied
records = record {
  role_name = refl;
  vpc_name = refl;
  anchors_name = refl;
  non_anchors_name = refl;
  role_there = refl;
  vpc_there = refl;
  anchors_there = inl refl;
  non_anchors_there = refl;
}

delete_resources-covers_example :
    Among (delete_stack "aops-vpc") (delete_resources world flags (spec_with applied) applied []).1
delete_resources-covers_example =
    delete_resources-covers world flags (spec_with applied) named applied "aops-vpc"
      "src/aws/cfn-templates/avalanche-node/vpc.yaml" records (vpc refl refl refl refl) deletes

-- The whole of an apply on this network returns, and saves the resources that were created.
creates : (create_resources world "spec.yaml" 1 (state_with named) []).0 ≡ ok tt
unfolding create_buckets upload_artifacts upload_packed upload_config create_kms_key new_key
    save_and_upload create_ec2_key_pair new_key_pair get_ec2_key_path is_mainnet append_slash
    check_nodes dns_endpoints finish finish_at http_rpc_of https show_subnet try_health await_nodes
    create_anchor_nodes create_non_anchor_nodes list_instances new_non_anchor_nodes parse_nodes
    stop_downloading asg_parameters check_nlb check_non_anchor_outputs instance_params
    non_anchor_params on_nlb_output on_non_anchor_output on_role_output on_vpc_output role_params
    take_outputs volume_params vpc_params upload_plugins create_role create_vpc deploy new_role
    new_vpc wait_secs ask node_of_splits parse_node_from_path path join remove_all split decimal ext
    create_resources ◌>>=◌ request lift obtain request_or save sync_spec check_health await_objects
    is_custom_network
creates = refl

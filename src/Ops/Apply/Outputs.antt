-- ===== src/Ops/Apply/Outputs.antt =====
-- The parameters that `apply::execute` gives to its stacks, and what it records of their outputs.
use avalanche_ops.Prelude.{
  String, List, ◌∷◌, [], ◌++◌, ℕ, Option, none, some, Bool, if◌then◌else◌, str_eq, length, true,
  false, is_none,
}
use avalanche_ops.Outcome.{Outcome, ok, unwrap, ◌>>=◌, ◌>>◌, refuse_if}
use avalanche_ops.Text.{decimal}
use avalanche_ops.Text.Split.{split, join}
use avalanche_ops.Io.{other_error}
use avalanche_ops.Aws.Resources.{Resources}
use avalanche_ops.Aws.CloudFormation.{StackOutput}
use avalanche_ops.Avalanche.Avalanchego.Config.{is_mainnet, is_custom_network}
use avalanche_ops.Spec.{Spec}
use avalanche_ops.Ops.Requests.{Stop, failed_with, Parameter, build_param}

-- a parameter that is given when the value is there
abbrev pub optional_param : String → Option String → List Parameter
optional_param k none = []
optional_param k (some v) = build_param k v ∷ []

-- The loop over the outputs of a stack, with what it does with a key and its value.
unfoldable pub take_outputs :
    (Resources → (k v : String) → Resources) → Resources → List StackOutput → Outcome Stop Resources
take_outputs record_output r [] = ok r
take_outputs record_output r (o ∷ os) = do
  k ← unwrap o.output_key
  v ← unwrap o.output_value
  take_outputs record_output (record_output r k v) os

unfoldable pub on_role_output : Resources → (k v : String) → Resources
on_role_output r k v =
    if str_eq k "InstanceProfileArn"
    then record r { cloudformation_ec2_instance_profile_arn = some v }
    else r

unfoldable pub on_vpc_output : Resources → (k v : String) → Resources
unfolding split
on_vpc_output r k v =
    if str_eq k "VpcId"
    then record r { cloudformation_vpc_id = some v }
    else if str_eq k "SecurityGroupId"
    then record r { cloudformation_vpc_security_group_id = some v }
    else if str_eq k "PublicSubnetIds"
    then record r { cloudformation_vpc_public_subnet_ids = some (split b',' v) }
    else r

unfoldable pub role_params : (id : String) → Resources → Outcome Stop (List Parameter)
role_params id r = do
  arn ← unwrap r.kms_cmk_arn
  ok (
      (build_param "Id" id
        ∷ build_param "KmsCmkArn" arn
        ∷ build_param "S3BucketName" r.s3_bucket
        ∷ [])
      ++ optional_param "S3BucketDbBackupName" r.db_backup_s3_bucket)

unfoldable pub vpc_params : (id : String) → (staking_port http_port : ℕ) → List Parameter
vpc_params id staking_port http_port =
    build_param "Id" id
    ∷ build_param "VpcCidr" "10.0.0.0/16"
    ∷ build_param "PublicSubnetCidr1" "10.0.64.0/19"
    ∷ build_param "PublicSubnetCidr2" "10.0.128.0/19"
    ∷ build_param "PublicSubnetCidr3" "10.0.192.0/19"
    ∷ build_param "IngressIpv4Range" "0.0.0.0/0"
    ∷ build_param "StakingPort" (decimal staking_port)
    ∷ build_param "HttpPort" (decimal http_port)
    ∷ []

-- Mainnet nodes need larger volumes; the template's own size is kept for custom networks.
unfoldable pub volume_params : (is_mainnet is_custom : Bool) → List Parameter
volume_params true is_custom = build_param "VolumeSize" "800" ∷ []
volume_params false false = build_param "VolumeSize" "400" ∷ []
volume_params false true = []

unfoldable pub instance_params : Option (List String) → List Parameter
unfolding join
instance_params none = []
instance_params (some types) =
    build_param "InstanceTypes" (join "," types)
    ∷ build_param "InstanceTypesCount" (decimal (length types))
    ∷ []

-- The parameters that both groups of nodes share; what is not recorded by now is a panic.
unfoldable pub asg_parameters :
    {C E : Type 0} → Spec C E → Resources → Outcome Stop (List Parameter)
unfolding volume_params instance_params join
asg_parameters spec r = do
  kms_cmk_arn ← unwrap r.kms_cmk_arn
  ec2_key_name ← unwrap r.ec2_key_name
  profile_arn ← unwrap r.cloudformation_ec2_instance_profile_arn
  subnet_ids ← unwrap r.cloudformation_vpc_public_subnet_ids
  security_group_id ← unwrap r.cloudformation_vpc_security_group_id
  vpc_id ← unwrap r.cloudformation_vpc_id
  ok (
      (build_param "Id" spec.id
        ∷ build_param "NetworkId" (decimal spec.avalanchego_config.network_id)
        ∷ build_param "KmsCmkArn" kms_cmk_arn
        ∷ build_param "S3BucketName" r.s3_bucket
        ∷ build_param "Ec2KeyPairName" ec2_key_name
        ∷ build_param "InstanceProfileArn" profile_arn
        ∷ build_param "PublicSubnetIds" (join "," subnet_ids)
        ∷ build_param "SecurityGroupId" security_group_id
        ∷ build_param "NlbVpcId" vpc_id
        ∷ build_param "NlbHttpPort" (decimal spec.avalanchego_config.http_port)
        ∷ [])
      ++ volume_params (is_mainnet spec.avalanchego_config)
          (is_custom_network spec.avalanchego_config)
      ++ instance_params spec.machine.instance_types)

unfoldable pub anchor_params : ℕ → Resources → List Parameter → List Parameter
anchor_params desired_capacity r shared =
    shared
    ++ (build_param "NodeKind" "anchor"
        ∷ build_param "AsgDesiredCapacity" (decimal desired_capacity)
        ∷ [])
    ++ optional_param "NlbAcmCertificateArn" r.nlb_acm_certificate_arn

-- Without a target group the load balancer comes with the non-anchor nodes.
unfoldable pub non_anchor_params : ℕ → Resources → List Parameter → List Parameter
non_anchor_params desired_capacity r shared =
    shared
    ++ (build_param "NodeKind" "non-anchor"
        ∷ build_param "AsgDesiredCapacity" (decimal desired_capacity)
        ∷ [])
    ++ (if is_none r.cloudformation_asg_nlb_target_group_arn
        then optional_param "NlbAcmCertificateArn" r.nlb_acm_certificate_arn
        else optional_param "NlbTargetGroupArn" r.cloudformation_asg_nlb_target_group_arn)

unfoldable pub on_nlb_output : Resources → (k v : String) → Resources
on_nlb_output r k v =
    if str_eq k "NlbArn"
    then record r { cloudformation_asg_nlb_arn = some v }
    else if str_eq k "NlbTargetGroupArn"
    then record r { cloudformation_asg_nlb_target_group_arn = some v }
    else if str_eq k "NlbDnsName"
    then record r { cloudformation_asg_nlb_dns_name = some v }
    else r

unfoldable pub on_anchor_output : Resources → (k v : String) → Resources
unfolding on_nlb_output
on_anchor_output r k v =
    if str_eq k "AsgLogicalId"
    then record r { cloudformation_asg_anchor_nodes_logical_id = some v }
    else on_nlb_output r k v

unfoldable pub on_non_anchor_output :
    (need_to_create_nlb : Bool) → Resources → (k v : String) → Resources
unfolding on_nlb_output
on_non_anchor_output need_to_create_nlb r k v =
    if str_eq k "AsgLogicalId"
    then record r { cloudformation_asg_non_anchor_nodes_logical_id = some v }
    else if need_to_create_nlb
    then on_nlb_output r k v
    else r

abbrev not_found : String → Stop
not_found field = failed_with (other_error field)

unfoldable pub check_nlb : Resources → Outcome Stop (Unit {0})
check_nlb r = do
  refuse_if (is_none r.cloudformation_asg_nlb_arn)
      (not_found "aws_resources.cloudformation_asg_nlb_arn not found")
  refuse_if (is_none r.cloudformation_asg_nlb_target_group_arn)
      (not_found "aws_resources.cloudformation_asg_nlb_target_group_arn not found")
  refuse_if (is_none r.cloudformation_asg_nlb_dns_name)
      (not_found "aws_resources.cloudformation_asg_nlb_dns_name not found")
  ok tt

-- What the outputs of the anchor nodes' stack must have named.
unfoldable pub check_anchor_outputs : Resources → Outcome Stop (Unit {0})
unfolding check_nlb
check_anchor_outputs r = do
  refuse_if (is_none r.cloudformation_asg_anchor_nodes_logical_id)
      (not_found "aws_resources.cloudformation_asg_anchor_nodes_logical_id not found")
  check_nlb r

unfoldable pub check_non_anchor_outputs :
    (need_to_create_nlb : Bool) → Resources → Outcome Stop (Unit {0})
unfolding check_nlb
check_non_anchor_outputs need_to_create_nlb r = do
  refuse_if (is_none r.cloudformation_asg_non_anchor_nodes_logical_id)
      (not_found "aws_resources.cloudformation_asg_non_anchor_nodes_logical_id not found")
  if need_to_create_nlb then check_nlb r else ok tt

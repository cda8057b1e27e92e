-- ===== src/Aws/Resources.antt =====
-- src/aws/mod.rs, src/aws/sts.rs: the resources of a deployment in AWS.
use avalanche_ops.Prelude.{Option, String, none, Bool, some, List, true}

pub record Identity : Type 0 where
  pub account_id : String
  pub role_arn : String
  pub user_id : String

pub record Resources : Type 0 where
  pub identity : Option Identity
  pub region : String
  pub s3_bucket : String
  pub db_backup_s3_region : Option String
  pub db_backup_s3_bucket : Option String
  pub db_backup_s3_key : Option String
  pub instance_system_logs : Option Bool
  pub instance_system_metrics : Option Bool
  pub nlb_acm_certificate_arn : Option String
  pub kms_cmk_id : Option String
  pub kms_cmk_arn : Option String
  pub ec2_key_name : Option String
  pub ec2_key_path : Option String
  pub cloudformation_ec2_instance_role : Option String
  pub cloudformation_ec2_instance_profile_arn : Option String
  pub cloudformation_vpc : Option String
  pub cloudformation_vpc_id : Option String
  pub cloudformation_vpc_security_group_id : Option String
  pub cloudformation_vpc_public_subnet_ids : Option (List String)
  pub cloudformation_asg_anchor_nodes : Option String
  pub cloudformation_asg_anchor_nodes_logical_id : Option String
  pub cloudformation_asg_non_anchor_nodes : Option String
  pub cloudformation_asg_non_anchor_nodes_logical_id : Option String
  pub cloudformation_asg_nlb_arn : Option String
  pub cloudformation_asg_nlb_target_group_arn : Option String
  pub cloudformation_asg_nlb_dns_name : Option String
  pub cloudwatch_avalanche_metrics_namespace : Option String

-- `Resources::default`
abbrev pub default : Resources
default = record {
  identity = none;
  region = "us-west-2";
  s3_bucket = "";
  db_backup_s3_region = none;
  db_backup_s3_bucket = none;
  db_backup_s3_key = none;
  instance_system_logs = some true;
  instance_system_metrics = some true;
  nlb_acm_certificate_arn = none;
  kms_cmk_id = none;
  kms_cmk_arn = none;
  ec2_key_name = none;
  ec2_key_path = none;
  cloudformation_ec2_instance_role = none;
  cloudformation_ec2_instance_profile_arn = none;
  cloudformation_vpc = none;
  cloudformation_vpc_id = none;
  cloudformation_vpc_security_group_id = none;
  cloudformation_vpc_public_subnet_ids = none;
  cloudformation_asg_anchor_nodes = none;
  cloudformation_asg_anchor_nodes_logical_id = none;
  cloudformation_asg_non_anchor_nodes = none;
  cloudformation_asg_non_anchor_nodes_logical_id = none;
  cloudformation_asg_nlb_arn = none;
  cloudformation_asg_nlb_target_group_arn = none;
  cloudformation_asg_nlb_dns_name = none;
  cloudwatch_avalanche_metrics_namespace = none;
}

-- ===== src/Ops/Apply/Saving.antt =====
-- The state of `apply::execute`, the defaults of the names, and saving to the file and the bucket.
use avalanche_ops.Prelude.{
  String, List, ◌∷◌, [], Option, none, some, Bool, is_none, ◌&&◌, if◌then◌else◌, pos, str_eq, not,
}
use avalanche_ops.Outcome.{Outcome, ok, err}
use avalanche_ops.Run.{Run, ◌>>=◌, ◌>>◌, return, request, request_or, obtain, when_some}
use avalanche_ops.Text.{format}
use avalanche_ops.Io.{other_error}
use avalanche_ops.Aws.Resources.{Resources, Identity}
use avalanche_ops.Avalanche.Node.{Node}
use avalanche_ops.Spec.{
  Spec, encode, ec2_instance_role, asg_beacon_nodes, asg_non_beacon_nodes, vpc,
}
use avalanche_ops.Spec.Storage.{
  path, config_file, avalanched_bin, avalanche_bin_compressed, plugins_dir,
}
use avalanche_ops.Utils.Compress.{ext, zstd}
use avalanche_ops.Ops.Requests.{
  Request, World, Stop, failed_with, sync, create_bucket, put_object, pack_file, remove_file,
}

-- The variables of `execute`.
pub record State (C E : Type 0) : Type 0 where
  pub spec : Spec C E
  pub aws_resources : Resources
  pub current_nodes : List Node

abbrev pub with_resources : {C E : Type 0} → State C E → Resources → State C E
with_resources st r = record st { aws_resources = r }

-- Identities are compared by all their fields.
unfoldable pub identity_eq : Identity → Identity → Bool
identity_eq a b =
    str_eq a.account_id b.account_id && str_eq a.role_arn b.role_arn && str_eq a.user_id b.user_id

abbrev pub identity_error : (Identity → String) → Identity → Identity → Stop
identity_error debug identity current = failed_with (
    other_error (
      format (
        "config identity "
        ∷ debug identity
        ∷ " != currently loaded identity "
        ∷ debug current
        ∷ [])))

-- The caller must be the one that is recorded; without one, it is recorded.
unfoldable pub check_identity : (Identity → String) → Identity → Resources → Outcome Stop Resources
unfolding identity_eq
check_identity debug current r = elim r.identity [
  | none ↦ ok (record r { identity = some current })
  | some identity ↦
      if not (identity_eq identity current)
      then err (identity_error debug identity current)
      else ok r
]

abbrev pub or_default : Option String → String → Option String
or_default none d = some d
or_default (some s) d = some s

-- The name of the anchor nodes' stack is set for custom networks only.
abbrev pub or_default_if : Bool → Option String → String → Option String
or_default_if custom o d = if custom && is_none o then some d else o

-- The names that are not set, from the id of the network.
unfoldable pub set_defaults : (custom : Bool) → (id : String) → Resources → Resources
unfolding encode
set_defaults custom id r = record r {
  ec2_key_name = or_default r.ec2_key_name (format (id ∷ "-ec2-key" ∷ []));
  cloudformation_ec2_instance_role =
      or_default r.cloudformation_ec2_instance_role (encode (ec2_instance_role id));
  cloudformation_vpc = or_default r.cloudformation_vpc (encode (vpc id));
  cloudformation_asg_anchor_nodes =
      or_default_if custom r.cloudformation_asg_anchor_nodes (encode (asg_beacon_nodes id));
  cloudformation_asg_non_anchor_nodes =
      or_default r.cloudformation_asg_non_anchor_nodes (encode (asg_non_beacon_nodes id));
  cloudwatch_avalanche_metrics_namespace =
      or_default r.cloudwatch_avalanche_metrics_namespace (format (id ∷ "-avalanche" ∷ []));
}

module _ {C E : Type 0} (world : World (Spec C E)) (spec_file_path : String) where
  abbrev pub Command {ℓ} : Type ℓ → Type ℓ
  Command A = Run (Request (Spec C E)) Stop A

  -- `spec.sync(spec_file_path)?`
  unfoldable pub sync_spec : Spec C E → Command (Unit {0})
  sync_spec spec = request_or (sync spec) world.written

  abbrev pub recorded : State C E → Spec C E
  recorded st = record st.spec { aws_resources = some st.aws_resources }

  -- `spec.aws_resources = Some(aws_resources.clone())`, and `sync`
  unfoldable pub save : State C E → Command (State C E)
  save st = do sync_spec (recorded st); return (record st { spec = recorded st })

  -- the specification's file into the bucket
  unfoldable pub upload_config : State C E → Command (Unit {0})
  upload_config st =
      request (put_object spec_file_path st.aws_resources.s3_bucket (path (config_file st.spec.id)))
        world.sent

  unfoldable pub save_and_upload : State C E → Command (State C E)
  save_and_upload st = do saved ← save st; upload_config saved; return saved

  unfoldable pub create_buckets : Resources → Command (Unit {0})
  create_buckets r = do
    request (create_bucket r.s3_bucket) world.sent
    when_some r.db_backup_s3_bucket (λ bucket. request (create_bucket bucket) world.sent)

  -- a file into the bucket, compressed, by way of a temporary file
  unfoldable pub upload_packed : (src bucket key : String) → Command (Unit {0})
  upload_packed src bucket key = do
    tmp ← obtain (λ log. world.tmp_path log (ext (zstd (pos 3))))
    request (pack_file src tmp) world.sent
    request (put_object tmp bucket key) world.sent
    request_or (remove_file tmp) world.written

  unfoldable pub upload_plugins : (bucket id : String) → List (String × String) → Command (Unit {0})
  upload_plugins bucket id [] = return tt
  upload_plugins bucket id (entry ∷ entries) = do
    upload_packed entry.0 bucket
        (format (path (plugins_dir id) ∷ "/" ∷ entry.1 ∷ ext (zstd (pos 3)) ∷ []))
    upload_plugins bucket id entries

  unfoldable pub upload_artifacts : State C E → Command (Unit {0})
  upload_artifacts st = do
    request
        (put_object st.spec.install_artifacts.avalanched_bin st.aws_resources.s3_bucket
          (path (avalanched_bin st.spec.id)))
        world.sent
    upload_packed st.spec.install_artifacts.avalanchego_bin st.aws_resources.s3_bucket
        (path (avalanche_bin_compressed st.spec.id))
    when_some st.spec.install_artifacts.plugins_dir (λ dir. do
      entries ← obtain (λ log. world.read_dir log dir)
      upload_plugins st.aws_resources.s3_bucket st.spec.id entries)
    upload_config st

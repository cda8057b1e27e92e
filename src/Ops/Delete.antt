-- ===== src/Ops/Delete.antt =====
-- src/bin/avalanche-ops-aws/delete/mod.rs: `execute`, which deletes the resources that the
-- specification records.
pub mod Plan
pub mod Heeds
pub mod Effects
use avalanche_ops.Prelude.{
  String, ℕ, Bool, true, false, not, Option, none, some, is_some, List, ◌∷◌, [], ◌==◌, ◌&&◌, ltb,
  unwrap_or, if◌then◌else◌, pos,
}
use avalanche_ops.Outcome.{Outcome, ok, err, panic, unwrap}
use avalanche_ops.Run.{Run, ◌>>=◌, ◌>>◌, lift, return, request, obtain, unwrap_outcome}
use avalanche_ops.Text.{format}
use avalanche_ops.Io as Io
use avalanche_ops.Io.{other_error}
use avalanche_ops.Aws.Resources.{Resources, Identity}
use avalanche_ops.Aws.CloudFormation.{delete_complete}
use avalanche_ops.Spec.{Spec}
use avalanche_ops.Utils.Compress.{ext, zstd}
use avalanche_ops.Ops.Requests.{
  Request, World, Stop, failed_with, wait_secs, remove_file, schedule_to_delete, delete_key_pair,
  delete_stack, poll_stack, delete_log_group, delete_objects, delete_bucket,
}
use avalanche_ops.Ops.Apply.Saving.{identity_eq, identity_error}

-- The caller must be the one that is recorded.
unfoldable pub require_identity :
    (Identity → String) → Identity → Option Identity → Outcome Stop (Unit {0})
require_identity debug current none = err (failed_with (other_error "unknown identity"))
require_identity debug current (some identity) =
    if not (identity_eq identity current)
    then err (identity_error debug identity current)
    else ok tt

-- The flags of the command line.
pub record Flags : Type 0 where
  pub delete_cloudwatch_log_group : Bool
  pub delete_s3_objects : Bool
  pub delete_s3_bucket : Bool
  pub skip_prompt : Bool

-- What is recorded of the groups and of the network.
abbrev pub has_anchors : {C E : Type 0} → Spec C E → Resources → Bool
has_anchors spec r =
    ltb 0 (unwrap_or spec.machine.anchor_nodes 0)
    && is_some r.cloudformation_asg_anchor_nodes_logical_id

abbrev pub has_non_anchors : Resources → Bool
has_non_anchors r = is_some r.cloudformation_asg_non_anchor_nodes_logical_id

abbrev pub has_vpc : Resources → Bool
has_vpc r =
    is_some r.cloudformation_vpc_id
    && is_some r.cloudformation_vpc_security_group_id
    && is_some r.cloudformation_vpc_public_subnet_ids

-- The files of a key pair: the key, compressed, and encrypted.
abbrev pub key_files : String → List String
key_files path =
    path
    ∷ format (path ∷ ext (zstd (pos 3)) ∷ [])
    ∷ format (format (path ∷ ext (zstd (pos 3)) ∷ []) ∷ ".encrypted" ∷ [])
    ∷ []

module _ {C E : Type 0} (world : World (Spec C E)) where
  abbrev pub Command {ℓ} : Type ℓ → Type ℓ
  Command A = Run (Request (Spec C E)) Stop A

  -- the files that are there
  unfoldable pub remove_files : List String → Command (Unit {0})
  remove_files [] = return tt
  remove_files (file ∷ files) = do
    (if world.exists file then request (remove_file file) world.sent else return tt)
    remove_files files

  unfoldable pub delete_key : (name path : Option String) → Command (Unit {0})
  delete_key (some name) (some path) = do
    remove_files (key_files path)
    request (delete_key_pair name) world.sent
  delete_key _ _ = return tt

  unfoldable pub delete_kms_key : (id arn : Option String) → Command (Unit {0})
  delete_kms_key (some id) (some arn) = request (schedule_to_delete id) world.sent
  delete_kms_key _ _ = return tt

  -- A stack that is recorded is deleted under its name; a missing name is a panic.
  unfoldable pub trigger : (recorded : Bool) → (name : Option String) → Command (Unit {0})
  trigger false name = return tt
  trigger true name = do
    stack_name ← lift (unwrap name)
    request (delete_stack stack_name) world.sent

  unfoldable pub confirm :
      (recorded : Bool) → (name : Option String) → (timeout_secs : ℕ) → Command (Unit {0})
  confirm false name timeout_secs = return tt
  confirm true name timeout_secs = do
    stack_name ← lift (unwrap name)
    stack ← request (poll_stack stack_name delete_complete timeout_secs 30) world.polled
    return tt

  unfoldable pub when_set : Bool → Request (Spec C E) → Command (Unit {0})
  when_set false v = return tt
  when_set true v = request v world.sent

  unfoldable pub delete_resources : Flags → Spec C E → Resources → Command (Unit {0})
  delete_resources flags spec r = do
    delete_key r.ec2_key_name r.ec2_key_path
    delete_kms_key r.kms_cmk_id r.kms_cmk_arn
    trigger (is_some r.cloudformation_ec2_instance_profile_arn) r.cloudformation_ec2_instance_role
    trigger (has_non_anchors r) r.cloudformation_asg_non_anchor_nodes
    trigger (has_anchors spec r) r.cloudformation_asg_anchor_nodes
    confirm (has_non_anchors r) r.cloudformation_asg_non_anchor_nodes
        (wait_secs spec.machine.non_anchor_nodes)
    confirm (has_anchors spec r) r.cloudformation_asg_anchor_nodes
        (wait_secs (unwrap_or spec.machine.anchor_nodes 0))
    trigger (has_vpc r) r.cloudformation_vpc
    confirm (has_vpc r) r.cloudformation_vpc 500
    confirm (is_some r.cloudformation_ec2_instance_profile_arn) r.cloudformation_ec2_instance_role
        500
    when_set flags.delete_cloudwatch_log_group (delete_log_group spec.id)
    when_set flags.delete_s3_objects (delete_objects r.s3_bucket spec.id)
    when_set flags.delete_s3_bucket (delete_bucket r.s3_bucket)

  -- The first option declines.
  unfoldable pub prompt : (skip_prompt : Bool) → Command Bool
  prompt true = return true
  prompt false = do selected ← obtain (λ log. world.selected); return (not (selected == 0))

  unfoldable pub execute : Flags → Outcome Io.Error (Spec C E) → Command (Unit {0})
  execute flags loaded = do
    spec ← lift (unwrap_outcome loaded)
    r ← lift (unwrap spec.aws_resources)
    current_identity ← obtain (λ log. world.identity)
    lift (require_identity world.identity_debug current_identity r.identity)
    lift (unwrap_outcome (world.encoded spec))
    confirmed ← prompt flags.skip_prompt
    (if confirmed then delete_resources flags spec r else return tt)

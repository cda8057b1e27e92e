-- ===== src/Ops/Apply/Nodes.antt =====
-- The groups of nodes of `apply::execute`: their stacks, and the wait until they report.
use avalanche_ops.Prelude.{
  String, List, ◌∷◌, [], ◌++◌, ℕ, zero, suc, some, Bool, is_none, is_some, ◌&&◌, if◌then◌else◌,
  unwrap_or, ltb, leb, ◌%◌, length, true, false,
}
use avalanche_ops.Outcome.{err, unwrap}
use avalanche_ops.Run.{◌>>=◌, ◌>>◌, lift, return, request, unwrap_outcome}
use avalanche_ops.Aws.Resources.{Resources}
use avalanche_ops.Aws.S3.{Object}
use avalanche_ops.Aws.S3.Bucket.{append_slash}
use avalanche_ops.Avalanche.Node.{Node}
use avalanche_ops.Spec.{Spec}
use avalanche_ops.Spec.Storage.{
  StorageNamespace, path, parse_node_from_path, discover_ready_anchor_nodes_dir,
  discover_ready_non_anchor_nodes_dir, discover_provisioning_non_anchor_nodes_dir,
}
use avalanche_ops.Ops.Requests.{
  World, still_waiting, Parameter, list_asg, list_objects, open_read_only, wait_secs,
}
use avalanche_ops.Ops.Apply.Saving.{State, with_resources, Command, save_and_upload, save}
use avalanche_ops.Ops.Apply.Outputs.{
  take_outputs, on_anchor_output, on_non_anchor_output, anchor_params, non_anchor_params,
  check_anchor_outputs, check_non_anchor_outputs,
}
use avalanche_ops.Ops.Apply.Stacks.{deploy}

abbrev pub asg_template : String
asg_template = "src/aws/cfn-templates/avalanche-node/asg_amd64_ubuntu.yaml"

-- `as u32`
abbrev as_u32 : ℕ → ℕ
as_u32 n = n % 4294967296

-- `spec.current_nodes = Some(current_nodes.clone())`
abbrev pub with_nodes : {C E : Type 0} → State C E → State C E
with_nodes st = record st { spec = record st.spec { current_nodes = some st.current_nodes } }

module _ {C E : Type 0} (world : World (Spec C E)) (spec_file_path : String) (rounds : ℕ) where
  -- The loop that lists the objects until there are enough; the source sets it no limit.
  unfoldable pub await_objects :
      ℕ → (bucket prefix : String) → (target : ℕ) → Command world spec_file_path (List Object)
  await_objects zero bucket prefix target = lift (err still_waiting)
  await_objects (suc fuel) bucket prefix target = do
    objects ← request (list_objects bucket prefix) world.listed
    (if leb target (as_u32 (length objects))
        then return objects
        else await_objects fuel bucket prefix target)

  -- The nodes that the keys of the objects carry.
  unfoldable pub parse_nodes : List Object → Command world spec_file_path (List Node)
  parse_nodes [] = return []
  parse_nodes (o ∷ os) = do
    s3_key ← lift (unwrap o.key)
    node ← lift (
        unwrap_outcome (
          parse_node_from_path world.decompress_base58 world.error_text s3_key
            (world.file_name s3_key)))
    nodes ← parse_nodes os
    return (node ∷ nodes)

  -- The instances are listed again once if there are too few; then the key's file is opened.
  unfoldable pub list_instances :
      Resources → (asg_name : String) → (target : ℕ) → Command world spec_file_path (Unit {0})
  list_instances r asg_name target = do
    droplets ← request (list_asg asg_name) world.droplets
    again ←
        if ltb (as_u32 droplets) target
        then request (list_asg asg_name) world.droplets
        else return droplets
    ec2_key_path ← lift (unwrap r.ec2_key_path)
    request (open_read_only ec2_key_path) world.sent

  -- The nodes of a group, when enough of them have reported in a directory of the bucket.
  unfoldable pub await_nodes :
      Resources → StorageNamespace → (target : ℕ) → Command world spec_file_path (List Node)
  await_nodes r dir target = do
    prefix ← lift (unwrap_outcome (append_slash (path dir)))
    objects ← await_objects rounds r.s3_bucket prefix target
    parse_nodes objects

  unfoldable pub new_anchor_nodes :
      List Parameter → State C E → Command world spec_file_path (State C E)
  new_anchor_nodes shared st = do
    name ← lift (unwrap st.aws_resources.cloudformation_asg_anchor_nodes)
    desired_capacity ← lift (unwrap st.spec.machine.anchor_nodes)
    outputs ←
        deploy world spec_file_path name asg_template
          (anchor_params desired_capacity st.aws_resources shared) (wait_secs desired_capacity)
    r ← lift (take_outputs on_anchor_output st.aws_resources outputs)
    lift (check_anchor_outputs r)
    asg_name ← lift (unwrap r.cloudformation_asg_anchor_nodes_logical_id)
    list_instances r asg_name desired_capacity
    nodes ← await_nodes r (discover_ready_anchor_nodes_dir st.spec.id) desired_capacity
    save_and_upload world spec_file_path
        (record st { aws_resources = r; current_nodes = st.current_nodes ++ nodes })

  unfoldable pub create_anchor_nodes :
      List Parameter → State C E → Command world spec_file_path (State C E)
  create_anchor_nodes shared st =
      if ltb 0 (unwrap_or st.spec.machine.anchor_nodes 0)
        && is_none st.aws_resources.cloudformation_asg_anchor_nodes_logical_id
      then new_anchor_nodes shared st
      else return st

  -- Nodes that first download a database report while they are provisioned.
  abbrev pub report_dir : (require_db_download : Bool) → String → StorageNamespace
  report_dir true id = discover_provisioning_non_anchor_nodes_dir id
  report_dir false id = discover_ready_non_anchor_nodes_dir id

  -- With a download the specification is saved once more, and the command is over.
  unfoldable pub stop_downloading :
      State C E → Bool → Command world spec_file_path (State C E × Bool)
  stop_downloading st false = return (st, false)
  stop_downloading st true = do
    saved ← save world spec_file_path (with_nodes st)
    return (saved, true)

  unfoldable pub new_non_anchor_nodes :
      List Parameter → State C E → Command world spec_file_path (State C E × Bool)
  new_non_anchor_nodes shared st = do
    name ← lift (unwrap st.aws_resources.cloudformation_asg_non_anchor_nodes)
    outputs ←
        deploy world spec_file_path name asg_template
          (non_anchor_params st.spec.machine.non_anchor_nodes st.aws_resources shared)
          (wait_secs st.spec.machine.non_anchor_nodes)
    r ← lift (
        take_outputs
          (on_non_anchor_output (is_none st.aws_resources.cloudformation_asg_nlb_target_group_arn))
          st.aws_resources outputs)
    lift (
        check_non_anchor_outputs (is_none st.aws_resources.cloudformation_asg_nlb_target_group_arn)
          r)
    created ← save world spec_file_path (with_resources st r)
    asg_name ← lift (unwrap r.cloudformation_asg_non_anchor_nodes_logical_id)
    list_instances r asg_name st.spec.machine.non_anchor_nodes
    nodes ←
        await_nodes r (report_dir (is_some r.db_backup_s3_bucket) st.spec.id)
          st.spec.machine.non_anchor_nodes
    reported ←
        save_and_upload world spec_file_path
          (with_nodes (record created { current_nodes = st.current_nodes ++ nodes }))
    stop_downloading reported (is_some r.db_backup_s3_bucket)

  -- Whether the command is over comes with the state.
  unfoldable pub create_non_anchor_nodes :
      List Parameter → State C E → Command world spec_file_path (State C E × Bool)
  create_non_anchor_nodes shared st =
      if is_none st.aws_resources.cloudformation_asg_non_anchor_nodes_logical_id
      then new_non_anchor_nodes shared st
      else return (st, false)

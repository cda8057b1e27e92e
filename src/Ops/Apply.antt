-- ===== src/Ops/Apply.antt =====
-- src/bin/avalanche-ops-aws/apply/mod.rs: `execute`, which creates the resources that the
-- specification does not record yet, and records them as it goes.
pub mod Saving
pub mod Outputs
pub mod Stacks
pub mod Nodes
pub mod Loops
pub mod Prepared
pub mod Due
pub mod Resumes
pub mod Endpoints
use avalanche_ops.Prelude.{
  String, ℕ, Bool, true, false, not, Option, none, some, [], ◌==◌, if◌then◌else◌,
}
use avalanche_ops.Outcome.{Outcome, ok, err, panic, unwrap, map_err}
use avalanche_ops.Run.{Run, ◌>>=◌, ◌>>◌, lift, return, obtain, unwrap_outcome}
use avalanche_ops.Io as Io
use avalanche_ops.Avalanche.Avalanchego.Config.{is_custom_network}
use avalanche_ops.Spec.{Spec, validate}
use avalanche_ops.Ops.Requests.{Request, World, Stop, failed_with}
use avalanche_ops.Ops.Apply.Saving.{
  State, Command, check_identity, set_defaults, save, create_buckets, upload_artifacts,
}
use avalanche_ops.Ops.Apply.Outputs.{asg_parameters}
use avalanche_ops.Ops.Apply.Stacks.{create_kms_key, create_ec2_key_pair, create_role, create_vpc}
use avalanche_ops.Ops.Apply.Nodes.{create_anchor_nodes, create_non_anchor_nodes}
use avalanche_ops.Ops.Apply.Endpoints.{finish}

module _ {C E : Type 0} (world : World (Spec C E)) (spec_file_path : String) where
  -- The loaded specification is checked, and its resources get the identity and the names.
  unfoldable pub prepare : Outcome Io.Error (Spec C E) → Command world spec_file_path (State C E)
  prepare loaded = do
    spec ← lift (unwrap_outcome loaded)
    lift (map_err failed_with (validate world.exists spec))
    resources ← lift (unwrap spec.aws_resources)
    current_identity ← obtain (λ log. world.identity)
    r ← lift (check_identity world.identity_debug current_identity resources)
    save world spec_file_path (record {
      spec = spec;
      aws_resources = set_defaults (is_custom_network spec.avalanchego_config) spec.id r;
      current_nodes = [];
    })

  -- The first option declines.
  unfoldable pub prompt : (skip_prompt : Bool) → Command world spec_file_path Bool
  prompt true = return true
  prompt false = do selected ← obtain (λ log. world.selected); return (not (selected == 0))

module _ {C E : Type 0} (world : World (Spec C E)) (spec_file_path : String) (rounds : ℕ) where
  -- The steps, each with the state that the one before it left.
  unfoldable pub create_resources : State C E → Command world spec_file_path (Unit {0})
  create_resources loaded = do
    create_buckets world spec_file_path loaded.aws_resources
    upload_artifacts world spec_file_path loaded
    with_kms_key ← create_kms_key world spec_file_path loaded
    with_key_pair ← create_ec2_key_pair world spec_file_path with_kms_key
    with_role ← create_role world spec_file_path with_key_pair
    with_vpc ← create_vpc world spec_file_path with_role
    shared ← lift (asg_parameters with_vpc.spec with_vpc.aws_resources)
    with_anchors ← create_anchor_nodes world spec_file_path rounds shared with_vpc
    with_all ← create_non_anchor_nodes world spec_file_path rounds shared with_anchors
    (if with_all.1 then return tt else finish world spec_file_path with_all.0)

  unfoldable pub execute :
      Outcome Io.Error (Spec C E) → (skip_prompt : Bool) → Command world spec_file_path (Unit {0})
  execute loaded skip_prompt = do
    st ← prepare world spec_file_path loaded
    lift (world.encoded st.spec)
    confirmed ← prompt world spec_file_path skip_prompt
    (if confirmed then create_resources st else return tt)

-- ===== src/Ops/Apply/Stacks.antt =====
-- The keys of `apply::execute`, the role of the machines, and the network they stand in.
use avalanche_ops.Prelude.{String, List, ◌∷◌, [], ℕ, some, is_none, ◌&&◌, if◌then◌else◌, pos}
use avalanche_ops.Outcome.{unwrap}
use avalanche_ops.Run.{◌>>=◌, ◌>>◌, lift, return, request, obtain}
use avalanche_ops.Text.{format}
use avalanche_ops.Aws.CloudFormation.{StackOutput, create_complete}
use avalanche_ops.Spec.{Spec}
use avalanche_ops.Spec.Storage.{path, ec2_access_key_compressed_encrypted}
use avalanche_ops.Utils.Compress.{ext, zstd}
use avalanche_ops.Ops.Requests.{
  World, Parameter, put_object, pack_file, seal_aes_256_file, create_key, create_key_pair,
  create_stack, poll_stack,
}
use avalanche_ops.Ops.Apply.Saving.{State, with_resources, Command, save_and_upload}
use avalanche_ops.Ops.Apply.Outputs.{
  take_outputs, on_role_output, on_vpc_output, role_params, vpc_params,
}

abbrev pub role_template : String
role_template = "src/aws/cfn-templates/avalanche-node/ec2_instance_role.yaml"

abbrev pub vpc_template : String
vpc_template = "src/aws/cfn-templates/avalanche-node/vpc.yaml"

module _ {C E : Type 0} (world : World (Spec C E)) (spec_file_path : String) where
  -- `get_ec2_key_path`: a file beside the specification
  unfoldable pub get_ec2_key_path : Command world spec_file_path String
  get_ec2_key_path = do
    name ← lift (unwrap (world.file_stem spec_file_path))
    obtain (λ log. world.beside spec_file_path (format (name ∷ "-ec2-access.key" ∷ [])))

  -- A stack, and its outputs when it is complete.
  unfoldable pub deploy :
      (name template : String)
      → List Parameter
      → (timeout_secs : ℕ) → Command world spec_file_path (List StackOutput)
  deploy name template params timeout_secs = do
    request (create_stack name template params) world.sent
    stack ← request (poll_stack name create_complete timeout_secs 30) world.polled
    lift (unwrap stack.outputs)

  unfoldable pub new_key : State C E → Command world spec_file_path (State C E)
  new_key st = do
    key ← request (create_key (format (st.spec.id ∷ "-cmk" ∷ []))) world.key_created
    save_and_upload world spec_file_path (
        with_resources st
          (record st.aws_resources { kms_cmk_id = some key.id; kms_cmk_arn = some key.arn }))

  unfoldable pub create_kms_key : State C E → Command world spec_file_path (State C E)
  create_kms_key st =
      if is_none st.aws_resources.kms_cmk_id && is_none st.aws_resources.kms_cmk_arn
      then new_key st
      else return st

  unfoldable pub new_key_pair : State C E → Command world spec_file_path (State C E)
  new_key_pair st = do
    ec2_key_path ← get_ec2_key_path
    name ← lift (unwrap st.aws_resources.ec2_key_name)
    request (create_key_pair name ec2_key_path) world.sent
    compressed ← obtain (λ log. world.tmp_path log (ext (zstd (pos 3))))
    request (pack_file ec2_key_path compressed) world.sent
    encrypted ← obtain (λ log. world.tmp_path log ".zstd.encrypted")
    request (seal_aes_256_file compressed encrypted) world.sent
    request
        (put_object encrypted st.aws_resources.s3_bucket
          (path (ec2_access_key_compressed_encrypted st.spec.id)))
        world.sent
    save_and_upload world spec_file_path
        (with_resources st (record st.aws_resources { ec2_key_path = some ec2_key_path }))

  unfoldable pub create_ec2_key_pair : State C E → Command world spec_file_path (State C E)
  create_ec2_key_pair st =
      if is_none st.aws_resources.ec2_key_path then new_key_pair st else return st

  unfoldable pub new_role : State C E → Command world spec_file_path (State C E)
  new_role st = do
    name ← lift (unwrap st.aws_resources.cloudformation_ec2_instance_role)
    params ← lift (role_params st.spec.id st.aws_resources)
    outputs ← deploy name role_template params 500
    r ← lift (take_outputs on_role_output st.aws_resources outputs)
    save_and_upload world spec_file_path (with_resources st r)

  unfoldable pub create_role : State C E → Command world spec_file_path (State C E)
  create_role st =
      if is_none st.aws_resources.cloudformation_ec2_instance_profile_arn
      then new_role st
      else return st

  unfoldable pub new_vpc : State C E → Command world spec_file_path (State C E)
  new_vpc st = do
    name ← lift (unwrap st.aws_resources.cloudformation_vpc)
    outputs ←
        deploy name vpc_template
          (vpc_params st.spec.id st.spec.avalanchego_config.staking_port
            st.spec.avalanchego_config.http_port)
          300
    r ← lift (take_outputs on_vpc_output st.aws_resources outputs)
    save_and_upload world spec_file_path (with_resources st r)

  unfoldable pub create_vpc : State C E → Command world spec_file_path (State C E)
  create_vpc st =
      if is_none st.aws_resources.cloudformation_vpc_id
        && is_none st.aws_resources.cloudformation_vpc_security_group_id
        && is_none st.aws_resources.cloudformation_vpc_public_subnet_ids
      then new_vpc st
      else return st

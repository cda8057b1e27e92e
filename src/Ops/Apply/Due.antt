-- ===== src/Ops/Apply/Due.antt =====
-- What `apply::execute` may ask for: the resources that are not recorded.
use avalanche_ops.Prelude.{String, List, ◌∷◌, [], none, some, ◌≡◌, sym}
use avalanche_ops.Outcome.{ok, unwrap, >>=-eq-ok}
use avalanche_ops.Run.Keeps.{
  Keeps, chain, obtain-Keeps, request-Keeps, request_or-Keeps, when_some-Keeps, seq, return-Keeps,
}
use avalanche_ops.Aws.Resources.{Resources}
use avalanche_ops.Spec.{Spec}
use avalanche_ops.Ops.Requests.{Request, World, create_key, create_key_pair, create_stack}
use avalanche_ops.Ops.Apply.Saving.{
  State, save_and_upload, save, sync_spec, upload_config, create_buckets, upload_artifacts,
  upload_packed, upload_plugins,
}
use avalanche_ops.Ops.Apply.Outputs.{take_outputs}
use avalanche_ops.Ops.Apply.Stacks.{role_template, vpc_template}
use avalanche_ops.Ops.Apply.Nodes.{asg_template}
use avalanche_ops.Aws.CloudFormation.{StackOutput}

-- A stack is created under its own name, and only while nothing of it is recorded.
pub data StackDue (r : Resources) : String → String → Type 0 where
  role :
      {name : String}
      → r.cloudformation_ec2_instance_role ≡ some name
      → r.cloudformation_ec2_instance_profile_arn ≡ none
      → StackDue r name role_template
  vpc :
      {name : String}
      → r.cloudformation_vpc ≡ some name
      → r.cloudformation_vpc_id ≡ none
      → r.cloudformation_vpc_security_group_id ≡ none
      → r.cloudformation_vpc_public_subnet_ids ≡ none
      → StackDue r name vpc_template
  anchors :
      {name : String}
      → r.cloudformation_asg_anchor_nodes ≡ some name
      → r.cloudformation_asg_anchor_nodes_logical_id ≡ none
      → StackDue r name asg_template
  non_anchors :
      {name : String}
      → r.cloudformation_asg_non_anchor_nodes ≡ some name
      → r.cloudformation_asg_non_anchor_nodes_logical_id ≡ none
      → StackDue r name asg_template

-- What may be asked for, given the resources that are recorded; other requests create nothing.
abbrev pub IsDue : {S : Type 0} → Resources → Request S → Type 0
IsDue r (create_key description) = (r.kms_cmk_id ≡ none) × (r.kms_cmk_arn ≡ none)
IsDue r (create_key_pair name path) = (r.ec2_key_name ≡ some name) × (r.ec2_key_path ≡ none)
IsDue r (create_stack name template params) = StackDue r name template
IsDue r _ = Unit

-- Recording an output leaves a property of the resources that each output leaves.
pub take_outputs-keeps :
    (P : Resources → Type 0) (f : Resources → (k v : String) → Resources)
    → ((s : Resources) (k v : String) → P s → P (f s k v))
    → (os : List StackOutput) (s t : Resources) → P s
    → take_outputs f s os ≡ ok t
    → P t
unfolding take_outputs
take_outputs-keeps P f h [] s t p e = let same : s ≡ t = cc in rw (sym same) p
take_outputs-keeps P f h (o ∷ os) s t p e =
    let (k, _, e1) = >>=-eq-ok (unwrap o.output_key) _ e in
    let (v, _, e2) = >>=-eq-ok (unwrap o.output_value) _ e1 in
    take_outputs-keeps P f h os (f s k v) t (h s k v p) e2

module _ {C E : Type 0} (world : World (Spec C E)) (spec_file_path : String) {r : Resources} where
  pub save-Keeps :
      (P : Resources → Type 0) (st : State C E)
      → P st.aws_resources
      → Keeps (IsDue r) (save world spec_file_path st) (λ saved. P saved.aws_resources)
  unfolding save sync_spec
  save-Keeps P st p = seq (request_or-Keeps _ _ tt) (λ u. return-Keeps _ p)

  pub upload_config-Keeps :
      (st : State C E) → Keeps (IsDue r) (upload_config world spec_file_path st) (λ u. Unit)
  unfolding upload_config
  upload_config-Keeps st = request-Keeps _ _ tt

  pub save_and_upload-Keeps :
      (P : Resources → Type 0) (st : State C E)
      → P st.aws_resources
      → Keeps (IsDue r) (save_and_upload world spec_file_path st) (λ saved. P saved.aws_resources)
  unfolding save_and_upload
  save_and_upload-Keeps P st p =
      chain (save-Keeps P st p)
        (λ saved q. seq (upload_config-Keeps saved) (λ u. return-Keeps saved q))

  pub create_buckets-Keeps :
      (s : Resources) → Keeps (IsDue r) (create_buckets world spec_file_path s) (λ u. Unit)
  unfolding create_buckets
  create_buckets-Keeps s =
      seq (request-Keeps _ _ tt)
        (λ u. when_some-Keeps s.db_backup_s3_bucket (λ bucket. request-Keeps _ _ tt))

  upload_packed-Keeps :
      (src bucket key : String)
      → Keeps (IsDue r) (upload_packed world spec_file_path src bucket key) (λ u. Unit)
  unfolding upload_packed
  upload_packed-Keeps src bucket key = seq (obtain-Keeps _) (λ tmp.
      seq (request-Keeps _ _ tt) (λ u. seq (request-Keeps _ _ tt) (λ u. request_or-Keeps _ _ tt)))

  upload_plugins-Keeps :
      (bucket id : String) (entries : List (String × String))
      → Keeps (IsDue r) (upload_plugins world spec_file_path bucket id entries) (λ u. Unit)
  unfolding upload_plugins
  upload_plugins-Keeps bucket id [] = return-Keeps tt tt
  upload_plugins-Keeps bucket id (entry ∷ entries) =
      seq (upload_packed-Keeps _ _ _) (λ u. upload_plugins-Keeps bucket id entries)

  pub upload_artifacts-Keeps :
      (st : State C E) → Keeps (IsDue r) (upload_artifacts world spec_file_path st) (λ u. Unit)
  unfolding upload_artifacts
  upload_artifacts-Keeps st = seq (request-Keeps _ _ tt) (λ u. seq (upload_packed-Keeps _ _ _) (λ u.
      seq
        (when_some-Keeps st.spec.install_artifacts.plugins_dir
          (λ dir. seq (obtain-Keeps _) (λ entries. upload_plugins-Keeps _ _ entries)))
        (λ u. upload_config-Keeps st)))

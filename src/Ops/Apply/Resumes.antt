-- ===== src/Ops/Apply/Resumes.antt =====
-- An apply creates only what is not recorded: each step leaves what the later ones read.
pub mod Nodes
pub mod Whole
use avalanche_ops.Prelude.{
  String, List, Option, none, some, true, is_none, ◌≡◌, refl, sym, ap, ◌&&◌, arith, ℕ, ◌∙◌,
}
use avalanche_ops.Run.Keeps.{
  seq, request-Keeps, return-Keeps, if-Keeps, Keeps, chain, lift-Keeps, lift_any-Keeps,
  obtain-Keeps,
}
use avalanche_ops.Aws.Resources.{Resources}
use avalanche_ops.Spec.{Spec}
use avalanche_ops.Ops.Requests.{World, Parameter}
use avalanche_ops.Ops.Apply.Saving.{State}
use avalanche_ops.Ops.Apply.Stacks.{
  create_kms_key, new_key, create_ec2_key_pair, create_role, deploy, new_key_pair, new_role,
  get_ec2_key_path, create_vpc, vpc_template, new_vpc,
}
use avalanche_ops.Ops.Apply.Due.{IsDue, save_and_upload-Keeps, StackDue, role, take_outputs-keeps}
use avalanche_ops.Outcome.{unwrap-eq, ok}
use avalanche_ops.Ops.Apply.Outputs.{on_anchor_output, on_role_output, on_vpc_output, on_nlb_output}

-- What the steps from one on read of the resources.
abbrev pub non_anchor_view : Resources → Option String × Option String
non_anchor_view r =
    (r.cloudformation_asg_non_anchor_nodes, r.cloudformation_asg_non_anchor_nodes_logical_id)

abbrev pub anchor_view :
    Resources → (Option String × Option String) × (Option String × Option String)
anchor_view r = (
  (r.cloudformation_asg_anchor_nodes, r.cloudformation_asg_anchor_nodes_logical_id),
  non_anchor_view r,
)

abbrev pub VpcView : Type 0
VpcView =
    (Option String × Option String × Option String × Option (List String))
    × ((Option String × Option String) × (Option String × Option String))

abbrev pub vpc_view : Resources → VpcView
vpc_view r = (
  (
    r.cloudformation_vpc, r.cloudformation_vpc_id, r.cloudformation_vpc_security_group_id,
    r.cloudformation_vpc_public_subnet_ids,
  ),
  anchor_view r,
)

abbrev pub role_view : Resources → (Option String × Option String) × VpcView
role_view r =
    ((r.cloudformation_ec2_instance_role, r.cloudformation_ec2_instance_profile_arn), vpc_view r)

abbrev pub key_view :
    Resources → (Option String × Option String) × ((Option String × Option String) × VpcView)
key_view r = ((r.ec2_key_name, r.ec2_key_path), role_view r)

pub is_none-eq : {A : Type 0} (o : Option A) → is_none o ≡ true → o ≡ none
is_none-eq none h = refl
is_none-eq (some a) h = cc

-- What comes after a step reads the same of the state as of the resources at first.
abbrev pub Leaves : {C E A : Type 0} → (Resources → A) → Resources → State C E → Type 0
Leaves view r st = view st.aws_resources ≡ view r

on_role_output-vpc_view :
    (s : Resources) (k v : String) → vpc_view (on_role_output s k v) ≡ vpc_view s
unfolding on_role_output
on_role_output-vpc_view s k v = ground arith

on_vpc_output-anchor_view :
    (s : Resources) (k v : String) → anchor_view (on_vpc_output s k v) ≡ anchor_view s
unfolding on_vpc_output
on_vpc_output-anchor_view s k v = ground arith

pub on_anchor_output-view :
    (s : Resources) (k v : String) → non_anchor_view (on_anchor_output s k v) ≡ non_anchor_view s
unfolding on_anchor_output on_nlb_output
on_anchor_output-view s k v = ground arith

vpc_due :
    {C E : Type 0} {r : Resources} {name : String} (st : State C E)
    → Leaves vpc_view r st
    → st.aws_resources.cloudformation_vpc ≡ some name
    → is_none st.aws_resources.cloudformation_vpc_id
        && is_none st.aws_resources.cloudformation_vpc_security_group_id
        && is_none st.aws_resources.cloudformation_vpc_public_subnet_ids
      ≡ true
    → StackDue r name vpc_template
vpc_due {r = r} st same named h =
    let split : (st.aws_resources.cloudformation_vpc_id ≡ none)
        × (st.aws_resources.cloudformation_vpc_security_group_id ≡ none)
        × (st.aws_resources.cloudformation_vpc_public_subnet_ids ≡ none) =
      ground arith in
    StackDue.vpc (sym (ap (λ v. v.0.0) same) ∙ named) (sym (ap (λ v. v.0.1) same) ∙ split.0)
      (sym (ap (λ v. v.0.2) same) ∙ split.1) (sym (ap (λ v. v.0.3) same) ∙ split.2)

module _ {C E : Type 0} (world : World (Spec C E)) (spec_file_path : String) {r : Resources} where
  pub create_kms_key-Keeps :
      (st : State C E)
      → st.aws_resources ≡ r
      → Keeps (IsDue r) (create_kms_key world spec_file_path st) (Leaves key_view r)
  unfolding create_kms_key new_key
  create_kms_key-Keeps st same =
      if-Keeps (is_none st.aws_resources.kms_cmk_id && is_none st.aws_resources.kms_cmk_arn)
        (λ none_yet. seq (request-Keeps _ _ (rw (sym same) (ground arith))) (λ key.
          save_and_upload-Keeps world spec_file_path (λ s. key_view s ≡ key_view r) _
            (ap key_view same)))
        (λ h. return-Keeps st (ap key_view same))

  pub create_ec2_key_pair-Keeps :
      (st : State C E)
      → Leaves key_view r st
      → Keeps (IsDue r) (create_ec2_key_pair world spec_file_path st) (Leaves role_view r)
  unfolding create_ec2_key_pair new_key_pair get_ec2_key_path
  create_ec2_key_pair-Keeps st same =
      if-Keeps (is_none st.aws_resources.ec2_key_path)
        (λ none_yet. seq (seq (lift_any-Keeps _) (λ name. obtain-Keeps _)) (λ path.
          chain
            (lift-Keeps {Q = λ name. st.aws_resources.ec2_key_name ≡ some name}
              (λ name e. unwrap-eq _ e))
            (λ name named.
              seq
                (request-Keeps _ _ (
                  sym (ap (λ v. v.0.0) same) ∙ named,
                  sym (ap (λ v. v.0.1) same) ∙ is_none-eq _ none_yet,
                ))
                (λ u. seq (obtain-Keeps _) (λ compressed. seq (request-Keeps _ _ tt) (λ u.
                  seq (obtain-Keeps _) (λ encrypted. seq (request-Keeps _ _ tt) (λ u.
                    seq (request-Keeps _ _ tt) (λ u.
                      save_and_upload-Keeps world spec_file_path (λ s. role_view s ≡ role_view r) _
                        (ap (λ v. v.1) same))))))))))
        (λ h. return-Keeps st (ap (λ v. v.1) same))

  pub deploy-Keeps :
      {name template : String} (params : List Parameter) (timeout_secs : ℕ)
      → StackDue r name template
      → Keeps (IsDue r) (deploy world spec_file_path name template params timeout_secs) (λ os. Unit)
  unfolding deploy
  deploy-Keeps params timeout_secs due =
      seq (request-Keeps _ _ due) (λ u. seq (request-Keeps _ _ tt) (λ stack. lift_any-Keeps _))

  pub create_role-Keeps :
      (st : State C E)
      → Leaves role_view r st
      → Keeps (IsDue r) (create_role world spec_file_path st) (Leaves vpc_view r)
  unfolding create_role new_role
  create_role-Keeps st same =
      if-Keeps (is_none st.aws_resources.cloudformation_ec2_instance_profile_arn)
        (λ none_yet.
          chain
            (lift-Keeps {Q = λ name. st.aws_resources.cloudformation_ec2_instance_role ≡ some name}
              (λ name e. unwrap-eq _ e))
            (λ name named. seq (lift_any-Keeps _) (λ params.
              seq
                (deploy-Keeps _ _ (
                  role (sym (ap (λ v. v.0.0) same) ∙ named)
                    (sym (ap (λ v. v.0.1) same) ∙ is_none-eq _ none_yet)))
                (λ outputs.
                  chain
                    (lift-Keeps {Q = λ t. vpc_view t ≡ vpc_view r} (λ t e.
                      take_outputs-keeps (λ t. vpc_view t ≡ vpc_view r) on_role_output
                        (λ s k v h. on_role_output-vpc_view s k v ∙ h) outputs st.aws_resources t
                        (ap (λ v. v.1) same) e))
                    (λ t left.
                      save_and_upload-Keeps world spec_file_path (λ s. vpc_view s ≡ vpc_view r) _
                        left)))))
        (λ h. return-Keeps st (ap (λ v. v.1) same))

  pub create_vpc-Keeps :
      (st : State C E)
      → Leaves vpc_view r st
      → Keeps (IsDue r) (create_vpc world spec_file_path st) (Leaves anchor_view r)
  unfolding create_vpc new_vpc
  create_vpc-Keeps st same =
      if-Keeps
        (is_none st.aws_resources.cloudformation_vpc_id
          && is_none st.aws_resources.cloudformation_vpc_security_group_id
          && is_none st.aws_resources.cloudformation_vpc_public_subnet_ids)
        (λ none_yet.
          chain
            (lift-Keeps {Q = λ name. st.aws_resources.cloudformation_vpc ≡ some name}
              (λ name e. unwrap-eq _ e))
            (λ name named. seq (deploy-Keeps _ _ (vpc_due st same named none_yet)) (λ outputs.
              chain
                (lift-Keeps {Q = λ t. anchor_view t ≡ anchor_view r} (λ t e.
                  take_outputs-keeps (λ t. anchor_view t ≡ anchor_view r) on_vpc_output
                    (λ s k v h. on_vpc_output-anchor_view s k v ∙ h) outputs st.aws_resources t
                    (ap (λ v. v.1) same) e))
                (λ t left.
                  save_and_upload-Keeps world spec_file_path (λ s. anchor_view s ≡ anchor_view r) _
                    left))))
        (λ h. return-Keeps st (ap (λ v. v.1) same))

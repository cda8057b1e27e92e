-- ===== src/Ops/Delete/Plan.antt =====
-- What a deletion sends, as a list that the specification determines, and what it covers.
use avalanche_ops.Prelude.{
  String, ℕ, Bool, true, false, Option, none, some, is_some, List, ◌∷◌, [], ◌++◌, unwrap_or,
  if◌then◌else◌,
}
use avalanche_ops.Run.Sends.{Sends, >>=-Sends, lift-Sends, request-Sends, panic-Sends, unwrap-Sends}
use avalanche_ops.Aws.Resources.{Resources}
use avalanche_ops.Aws.CloudFormation.{delete_complete}
use avalanche_ops.Spec.{Spec}
use avalanche_ops.Ops.Requests.{
  Request, World, wait_secs, remove_file, schedule_to_delete, delete_key_pair, delete_stack,
  poll_stack, delete_log_group, delete_objects, delete_bucket, Stop,
}
use avalanche_ops.Ops.Delete.{
  Flags, has_anchors, has_non_anchors, has_vpc, key_files, delete_resources, delete_key,
  delete_kms_key, remove_files, trigger, confirm, when_set, request, return,
}
use avalanche_ops.Run.{request, return}

module _ {S : Type 0} where
  abbrev pub removals : (exists : String → Bool) → List String → List (Request S)
  removals exists [] = []
  removals exists (file ∷ files) =
      (if exists file then remove_file file ∷ [] else []) ++ removals exists files

  abbrev pub key_pair_plan :
      (exists : String → Bool) → (name path : Option String) → List (Request S)
  key_pair_plan exists (some name) (some path) =
      removals exists (key_files path) ++ delete_key_pair name ∷ []
  key_pair_plan exists _ _ = []

  abbrev pub kms_plan : (id arn : Option String) → List (Request S)
  kms_plan (some id) (some arn) = schedule_to_delete id ∷ []
  kms_plan _ _ = []

  abbrev pub trigger_plan : (recorded : Bool) → (name : Option String) → List (Request S)
  trigger_plan true (some name) = delete_stack name ∷ []
  trigger_plan _ _ = []

  abbrev pub confirm_plan : (recorded : Bool) → (name : Option String) → ℕ → List (Request S)
  confirm_plan true (some name) secs = poll_stack name delete_complete secs 30 ∷ []
  confirm_plan _ _ _ = []

  abbrev pub set_plan : Bool → Request S → List (Request S)
  set_plan false v = []
  set_plan true v = v ∷ []

abbrev pub in_order : {V : Type 0} → List (List V) → List V
in_order [] = []
in_order (vs ∷ []) = vs
in_order (vs ∷ ws ∷ r) = vs ++ in_order (ws ∷ r)

-- The keys; the role and the groups of nodes, whose deletion starts; the groups again, until they are
-- gone; then the network they stood in; the role; and what the flags ask for.
abbrev pub parts :
    {C E : Type 0}
    → (exists : String → Bool) → Flags
    → Spec C E
    → Resources
    → List (List (Request (Spec C E)))
parts exists flags spec r =
    key_pair_plan exists r.ec2_key_name r.ec2_key_path
    ∷ kms_plan r.kms_cmk_id r.kms_cmk_arn
    ∷ trigger_plan (is_some r.cloudformation_ec2_instance_profile_arn)
        r.cloudformation_ec2_instance_role
    ∷ trigger_plan (has_non_anchors r) r.cloudformation_asg_non_anchor_nodes
    ∷ trigger_plan (has_anchors spec r) r.cloudformation_asg_anchor_nodes
    ∷ confirm_plan (has_non_anchors r) r.cloudformation_asg_non_anchor_nodes
        (wait_secs spec.machine.non_anchor_nodes)
    ∷ confirm_plan (has_anchors spec r) r.cloudformation_asg_anchor_nodes
        (wait_secs (unwrap_or spec.machine.anchor_nodes 0))
    ∷ trigger_plan (has_vpc r) r.cloudformation_vpc
    ∷ confirm_plan (has_vpc r) r.cloudformation_vpc 500
    ∷ confirm_plan (is_some r.cloudformation_ec2_instance_profile_arn)
        r.cloudformation_ec2_instance_role 500
    ∷ set_plan flags.delete_cloudwatch_log_group (delete_log_group spec.id)
    ∷ set_plan flags.delete_s3_objects (delete_objects r.s3_bucket spec.id)
    ∷ set_plan flags.delete_s3_bucket (delete_bucket r.s3_bucket)
    ∷ []

abbrev pub plan :
    {C E : Type 0}
    → (exists : String → Bool) → Flags
    → Spec C E
    → Resources
    → List (Request (Spec C E))
plan exists flags spec r = in_order (parts exists flags spec r)

module _ {C E : Type 0} (world : World (Spec C E)) where
  remove_file-Sends :
      (file : String) (b : Bool)
      → Sends {E = Stop}
          (if b then request (remove_file file) world.sent else return tt)
          (if b then remove_file file ∷ [] else [])
  remove_file-Sends file true = request-Sends _ _
  remove_file-Sends file false = lift-Sends _

  remove_files-Sends :
      (files : List String) → Sends (remove_files world files) (removals world.exists files)
  unfolding remove_files
  remove_files-Sends [] = lift-Sends _
  remove_files-Sends (file ∷ files) =
      >>=-Sends (remove_file-Sends file (world.exists file)) (λ u. remove_files-Sends files)

  delete_key-Sends :
      (name path : Option String)
      → Sends (delete_key world name path) (key_pair_plan world.exists name path)
  unfolding delete_key
  delete_key-Sends none path = lift-Sends _
  delete_key-Sends (some name) none = lift-Sends _
  delete_key-Sends (some name) (some path) =
      >>=-Sends (remove_files-Sends (key_files path)) (λ u. request-Sends _ _)

  delete_kms_key-Sends :
      (id arn : Option String) → Sends (delete_kms_key world id arn) (kms_plan id arn)
  unfolding delete_kms_key
  delete_kms_key-Sends none arn = lift-Sends _
  delete_kms_key-Sends (some id) none = lift-Sends _
  delete_kms_key-Sends (some id) (some arn) = request-Sends _ _

  trigger-Sends :
      (recorded : Bool) (name : Option String)
      → Sends (trigger world recorded name) (trigger_plan recorded name)
  unfolding trigger
  trigger-Sends false name = lift-Sends _
  trigger-Sends true none = panic-Sends [] _
  trigger-Sends true (some name) = unwrap-Sends _ name (request-Sends _ _)

  confirm-Sends :
      (recorded : Bool) (name : Option String) (secs : ℕ)
      → Sends (confirm world recorded name secs) (confirm_plan recorded name secs)
  unfolding confirm
  confirm-Sends false name secs = lift-Sends _
  confirm-Sends true none secs = panic-Sends [] _
  confirm-Sends true (some name) secs =
      unwrap-Sends _ name (>>=-Sends (request-Sends _ _) (λ stack. lift-Sends _))

  when_set-Sends : (b : Bool) (v : Request (Spec C E)) → Sends (when_set world b v) (set_plan b v)
  unfolding when_set
  when_set-Sends false v = lift-Sends _
  when_set-Sends true v = request-Sends _ _

  pub delete_resources-Sends :
      (flags : Flags) (spec : Spec C E) (r : Resources)
      → Sends (delete_resources world flags spec r) (plan world.exists flags spec r)
  unfolding delete_resources
  delete_resources-Sends flags spec r = >>=-Sends (delete_key-Sends _ _) (λ u.
      >>=-Sends (delete_kms_key-Sends _ _) (λ u. >>=-Sends (trigger-Sends _ _) (λ u.
        >>=-Sends (trigger-Sends _ _) (λ u. >>=-Sends (trigger-Sends _ _) (λ u.
          >>=-Sends (confirm-Sends _ _ _) (λ u. >>=-Sends (confirm-Sends _ _ _) (λ u.
            >>=-Sends (trigger-Sends _ _) (λ u. >>=-Sends (confirm-Sends _ _ _) (λ u.
              >>=-Sends (confirm-Sends _ _ _) (λ u.
                >>=-Sends (when_set-Sends _ _)
                  (λ u. >>=-Sends (when_set-Sends _ _) (λ u. when_set-Sends _ _))))))))))))

-- ===== src/Ops/Apply/Prepared.antt =====
-- What `apply` starts from: a checked specification, the caller's identity, and every name.
use avalanche_ops.Prelude.{
  String, Bool, true, Option, none, some, List, ◌∷◌, ◌≡◌, refl, arith, [], ◌⊎◌, false,
}
use avalanche_ops.Outcome.{Outcome, ok, done}
use avalanche_ops.Aws.Resources.{Resources, Identity}
use avalanche_ops.Spec.{Spec, validate, encode}
use avalanche_ops.Ops.Requests.{World, Request, sync}
use avalanche_ops.Ops.Apply.Saving.{State, set_defaults, or_default, or_default_if}
use avalanche_ops.Run.Triple.{Triple}
use avalanche_ops.Avalanche.Avalanchego.Config.{is_custom_network}
use avalanche_ops.Text.{format}

-- A name that was there stays, and a missing one becomes the default.
pub data IsNamed
    : (before : Option String) → (default : String) → (now : Option String) → Type 0 where
  kept : {name default : String} → IsNamed (some name) default (some name)
  named : {default : String} → IsNamed none default (some default)

or_default-IsNamed : (o : Option String) (d : String) → IsNamed o d (or_default o d)
or_default-IsNamed none d = named
or_default-IsNamed (some s) d = kept

or_default_if-IsNamed : (o : Option String) (d : String) → IsNamed o d (or_default_if true o d)
or_default_if-IsNamed none d = named
or_default_if-IsNamed (some s) d = kept

or_default_again : (o : Option String) (d : String) → or_default (or_default o d) d ≡ or_default o d
or_default_again none d = refl
or_default_again (some s) d = refl

or_default_if_again :
    (b : Bool) (o : Option String) (d : String)
    → or_default_if b (or_default_if b o d) d ≡ or_default_if b o d
or_default_if_again b o d = ground arith

-- Resources `s` that have the names of `r`, and defaults from the id in place of those that `r` lacks;
-- the anchor nodes' stack gets one in custom networks only. Nothing else differs.
pub record HasNames (custom : Bool) (id : String) (r s : Resources) : Type 0 where
  pub key : IsNamed r.ec2_key_name (format (id ∷ "-ec2-key" ∷ [])) s.ec2_key_name
  pub role :
      IsNamed r.cloudformation_ec2_instance_role
        (format (id ∷ "-ec2-instance-role" ∷ []))
        s.cloudformation_ec2_instance_role
  pub network : IsNamed r.cloudformation_vpc (format (id ∷ "-vpc" ∷ [])) s.cloudformation_vpc
  pub anchors :
      custom ≡ true
      → IsNamed r.cloudformation_asg_anchor_nodes
          (format (id ∷ "-asg-anchor-nodes" ∷ []))
          s.cloudformation_asg_anchor_nodes
  pub no_anchors :
      custom ≡ false → s.cloudformation_asg_anchor_nodes ≡ r.cloudformation_asg_anchor_nodes
  pub non_anchors :
      IsNamed r.cloudformation_asg_non_anchor_nodes
        (format (id ∷ "-asg-non-anchor-nodes" ∷ []))
        s.cloudformation_asg_non_anchor_nodes
  pub metrics :
      IsNamed r.cloudwatch_avalanche_metrics_namespace
        (format (id ∷ "-avalanche" ∷ []))
        s.cloudwatch_avalanche_metrics_namespace
  pub rest : s ≡ record r {
    ec2_key_name = s.ec2_key_name;
    cloudformation_ec2_instance_role = s.cloudformation_ec2_instance_role;
    cloudformation_vpc = s.cloudformation_vpc;
    cloudformation_asg_anchor_nodes = s.cloudformation_asg_anchor_nodes;
    cloudformation_asg_non_anchor_nodes = s.cloudformation_asg_non_anchor_nodes;
    cloudwatch_avalanche_metrics_namespace = s.cloudwatch_avalanche_metrics_namespace;
  }

set_defaults-HasNames :
    (custom : Bool) (id : String) (r : Resources) → HasNames custom id r (set_defaults custom id r)
unfolding set_defaults encode
set_defaults-HasNames custom id r = record {
  key = or_default-IsNamed _ _;
  role = or_default-IsNamed _ _;
  network = or_default-IsNamed _ _;
  anchors = λ h. rw h (or_default_if-IsNamed _ _);
  no_anchors = λ h. rw h refl;
  non_anchors = or_default-IsNamed _ _;
  metrics = or_default-IsNamed _ _;
  rest = refl;
}

-- Every name that is set is kept, every missing one is made from the id (that of the anchor nodes in
-- custom networks only), nothing else is touched, and doing so again changes nothing: a specification
-- that was saved keeps its names in later runs.
pub set_defaults_lem :
    (custom : Bool) (id : String) (r : Resources)
    → HasNames custom id r (set_defaults custom id r)
      × (set_defaults custom id (set_defaults custom id r) ≡ set_defaults custom id r)
unfolding set_defaults
set_defaults_lem custom id r =
    (set_defaults-HasNames custom id r, simp (or_default_again, or_default_if_again))

-- the resources that recorded no caller, or the current one
abbrev pub Owned : Identity → Resources → Type 0
Owned current r = (r.identity ≡ none) ⊎ (r.identity ≡ some current)

-- The state that `apply` starts with: the resources with every name, in the specification too.
abbrev pub started : {C E : Type 0} → Spec C E → Resources → State C E
started spec r =
    let resources = set_defaults (is_custom_network spec.avalanchego_config) spec.id r in
    record {
      spec = record spec { aws_resources = some resources };
      aws_resources = resources;
      current_nodes = [];
    }

-- From which caller, and which recorded resources, `apply` goes on.
abbrev pub Admits : {C E : Type 0} → World (Spec C E) → Spec C E → Identity → Resources → Type 0
Admits world spec current r =
    (validate world.exists spec ≡ ok tt)
    × (world.identity ≡ done current)
    × (spec.aws_resources ≡ some r)
    × Owned current r

-- What is known after the start of `apply`.
abbrev IsReady :
    {C E : Type 0}
    → World (Spec C E)
    → Spec C E
    → List (Request (Spec C E))
    → State C E
    → List (Request (Spec C E))
    → Type 0
IsReady world spec log st log' =
    (current : Identity) × (r : Resources) × Admits world spec current r
    × (st ≡ started spec (record r { identity = some current }))
    × (log' ≡ sync st.spec ∷ log)

-- ===== src/Ops/Apply/Resumes/Whole.antt =====
-- The whole of an apply creates only what is due, and nothing when everything is recorded.
use avalanche_ops.Prelude.{
  String, List, ◌∷◌, [], Option, none, some, Bool, true, false, is_some, ◌≡◌, refl, ℕ, zero, suc,
  All, inl, ◌≢◌, ◌⊎◌, inr,
}
use avalanche_ops.Run.Keeps.{
  Keeps, chain, seq, lift_any-Keeps, request-Keeps, request_or-Keeps, return-Keeps, ask-Keeps,
  if-Keeps, Keeps-All,
}
use avalanche_ops.Aws.Resources.{Resources}
use avalanche_ops.Avalanche.Node.{Node}
use avalanche_ops.Spec.{Spec}
use avalanche_ops.Ops.Requests.{Request, World, create_key, create_key_pair, create_stack}
use avalanche_ops.Ops.Apply.{create_resources}
use avalanche_ops.Ops.Apply.Saving.{State, sync_spec}
use avalanche_ops.Ops.Apply.Endpoints.{
  try_health, check_health, check_nodes, show_subnet, finish_at, finish, healthy,
}
use avalanche_ops.Ops.Apply.Due.{
  IsDue, StackDue, role, vpc, anchors, non_anchors, create_buckets-Keeps, upload_artifacts-Keeps,
  upload_config-Keeps,
}
use avalanche_ops.Ops.Apply.Resumes.{
  create_kms_key-Keeps, create_ec2_key_pair-Keeps, create_role-Keeps, create_vpc-Keeps,
}
use avalanche_ops.Ops.Apply.Resumes.Nodes.{create_anchor_nodes-Keeps, create_non_anchor_nodes-Keeps}

module _ {C E : Type 0} (world : World (Spec C E)) (spec_file_path : String) {r : Resources} where
  try_health-Keeps :
      (backup : Bool) (uri : String) (tries : ℕ)
      → Keeps (IsDue r) (try_health world spec_file_path backup uri tries) (λ b. Unit)
  unfolding try_health
  try_health-Keeps backup uri zero = return-Keeps _ tt
  try_health-Keeps backup uri (suc tries) = seq (ask-Keeps _ _ tt) (λ answer.
      if-Keeps (healthy answer) (λ h. return-Keeps _ tt)
        (λ h. if-Keeps backup (λ k. return-Keeps _ tt) (λ k. try_health-Keeps backup uri tries)))

  check_health-Keeps :
      (backup : Bool) (uri : String)
      → Keeps (IsDue r) (check_health world spec_file_path backup uri) (λ u. Unit)
  unfolding check_health
  check_health-Keeps backup uri =
      seq (try_health-Keeps backup uri 10)
        (λ success. if-Keeps success (λ h. return-Keeps _ tt) (λ h. lift_any-Keeps _))

  check_nodes-Keeps :
      (backup : Bool) (nodes : List Node)
      → Keeps (IsDue r) (check_nodes world spec_file_path backup nodes) (λ u. Unit)
  unfolding check_nodes
  check_nodes-Keeps backup [] = return-Keeps _ tt
  check_nodes-Keeps backup (node ∷ nodes) =
      seq (check_health-Keeps backup node.http_endpoint) (λ u. check_nodes-Keeps backup nodes)

  show_subnet-Keeps :
      (spec : Spec C E) (genesis : Option E)
      → Keeps (IsDue r) (show_subnet world spec_file_path spec genesis) (λ u. Unit)
  unfolding show_subnet
  show_subnet-Keeps spec none = return-Keeps _ tt
  show_subnet-Keeps spec (some genesis) =
      seq (request-Keeps _ _ tt)
        (λ u. seq (lift_any-Keeps _) (λ keys. seq (lift_any-Keeps _) (λ key. return-Keeps _ tt)))

  finish_at-Keeps :
      (st : State C E) (https : Bool) (dns_name : String)
      → Keeps (IsDue r) (finish_at world spec_file_path st https dns_name) (λ u. Unit)
  unfolding finish_at sync_spec
  finish_at-Keeps st https dns_name = seq (request_or-Keeps _ _ tt) (λ u.
      seq (upload_config-Keeps world spec_file_path st) (λ u. seq (check_health-Keeps _ _) (λ u.
        seq (check_nodes-Keeps _ st.current_nodes)
          (λ u. show_subnet-Keeps _ st.spec.subnet_evm_genesis))))

  finish-Keeps : (st : State C E) → Keeps (IsDue r) (finish world spec_file_path st) (λ u. Unit)
  unfolding finish sync_spec
  finish-Keeps st =
      seq (request_or-Keeps _ _ tt)
        (λ u. seq (lift_any-Keeps _) (λ dns_name. finish_at-Keeps _ _ _))

  create_resources-Keeps :
      (rounds : ℕ) (st : State C E)
      → st.aws_resources ≡ r
      → Keeps (IsDue r) (create_resources world spec_file_path rounds st) (λ u. Unit)
  unfolding create_resources
  create_resources-Keeps rounds st same = seq (create_buckets-Keeps world spec_file_path _) (λ u.
      seq (upload_artifacts-Keeps world spec_file_path st) (λ u.
        chain (create_kms_key-Keeps world spec_file_path st same) (λ s1 h1.
          chain (create_ec2_key_pair-Keeps world spec_file_path s1 h1) (λ s2 h2.
            chain (create_role-Keeps world spec_file_path s2 h2) (λ s3 h3.
              chain (create_vpc-Keeps world spec_file_path s3 h3) (λ s4 h4.
                seq (lift_any-Keeps _) (λ shared.
                  chain (create_anchor_nodes-Keeps world spec_file_path rounds shared s4 h4)
                    (λ s5 h5.
                      seq (create_non_anchor_nodes-Keeps world spec_file_path rounds shared s5 h5)
                        (λ s6.
                          if-Keeps s6.1 (λ h. return-Keeps _ tt) (λ h. finish-Keeps s6.0))))))))))

-- However the requests are answered, and wherever it stops, `apply` asks for a KMS key only when no
-- key is recorded, for a key pair only when no path of one is, and for a stack only under the name
-- that the specification has for it and while the resources of that stack are not recorded.
pub create_resources-IsDue :
    {C E : Type 0} (world : World (Spec C E)) (spec_file_path : String) (rounds : ℕ)
    (st : State C E)
    → All (IsDue st.aws_resources) (create_resources world spec_file_path rounds st []).1
create_resources-IsDue world spec_file_path rounds st =
    Keeps-All (create_resources-Keeps world spec_file_path rounds st refl) [] tt

-- Whether a request creates what `apply` records.
abbrev pub is_creation : {S : Type 0} → Request S → Bool
is_creation (create_key description) = true
is_creation (create_key_pair name path) = true
is_creation (create_stack name template params) = true
is_creation _ = false

-- The resources that make every step of `apply` be left out.
pub record IsComplete (r : Resources) : Type 0 where
  pub key : is_some r.kms_cmk_arn ≡ true
  pub key_pair : is_some r.ec2_key_path ≡ true
  pub has_role : is_some r.cloudformation_ec2_instance_profile_arn ≡ true
  pub has_vpc : is_some r.cloudformation_vpc_id ≡ true
  pub has_anchors :
      (r.cloudformation_asg_anchor_nodes ≡ none)
      ⊎ (is_some r.cloudformation_asg_anchor_nodes_logical_id ≡ true)
  pub has_non_anchors : is_some r.cloudformation_asg_non_anchor_nodes_logical_id ≡ true

some_none : {A : Type 0} (o : Option A) → is_some o ≡ true → o ≢ none
some_none none h e = cc
some_none (some a) h e = cc

not-StackDue : {r : Resources} {name template : String} → IsComplete r → ¬ StackDue r name template
not-StackDue h (role e k) = some_none _ h.has_role k
not-StackDue h (vpc e k l m) = some_none _ h.has_vpc k
not-StackDue h (anchors e k) = elim h.has_anchors [ inl n ↦ cc (n, e) | inr y ↦ some_none _ y k ]
not-StackDue h (non_anchors e k) = some_none _ h.has_non_anchors k

due_quiet :
    {S : Type 0} {r : Resources}
    → IsComplete r
    → (v : Request S) → IsDue r v
    → is_creation v ≡ false
due_quiet h (create_key d) due = absurd (some_none _ h.key due.1)
due_quiet h (create_key_pair n p) due = absurd (some_none _ h.key_pair due.1)
due_quiet h (create_stack n t ps) due = absurd (not-StackDue h due)
due_quiet h v due = refl

All-map :
    {V : Type 0} {M N : V → Type 0} → ((v : V) → M v → N v) → (log : List V) → All M log → All N log
All-map f [] all = tt
All-map f (v ∷ log) all = (f v all.0, All-map f log all.1)

-- When everything is recorded (a network without a stack for anchor nodes needs no anchor nodes),
-- `apply` sends no request that creates a key, a key pair or a stack, whatever the answers are.
pub create_resources-creates_nothing :
    {C E : Type 0} (world : World (Spec C E)) (spec_file_path : String) (rounds : ℕ)
    (st : State C E)
    → IsComplete st.aws_resources
    → All (λ v. is_creation v ≡ false) (create_resources world spec_file_path rounds st []).1
create_resources-creates_nothing world spec_file_path rounds st h =
    All-map (due_quiet h) _ (create_resources-IsDue world spec_file_path rounds st)

-- ===== src/Ops/Apply/Resumes/Nodes.antt =====
-- The groups of nodes create only their own stacks, while they are not recorded.
use avalanche_ops.Prelude.{
  String, List, ◌∷◌, [], some, Bool, true, false, is_none, ◌≡◌, sym, ap, ◌∙◌, ℕ, zero, suc, ltb,
  unwrap_or, ◌&&◌, arith, leb, ◌%◌, length,
}
use avalanche_ops.Run.Keeps.{
  Keeps, chain, seq, lift-Keeps, lift_any-Keeps, request-Keeps, return-Keeps, if-Keeps,
}
use avalanche_ops.Aws.Resources.{Resources}
use avalanche_ops.Aws.S3.{Object}
use avalanche_ops.Spec.{Spec}
use avalanche_ops.Spec.Storage.{StorageNamespace}
use avalanche_ops.Outcome.{unwrap-eq}
use avalanche_ops.Ops.Requests.{World, Parameter}
use avalanche_ops.Ops.Apply.Saving.{State}
use avalanche_ops.Ops.Apply.Outputs.{on_anchor_output}
use avalanche_ops.Ops.Apply.Nodes.{
  await_objects, parse_nodes, list_instances, await_nodes, create_anchor_nodes, new_anchor_nodes,
  create_non_anchor_nodes, new_non_anchor_nodes, stop_downloading,
}
use avalanche_ops.Ops.Apply.Due.{
  IsDue, anchors, non_anchors, save-Keeps, save_and_upload-Keeps, take_outputs-keeps,
}
use avalanche_ops.Ops.Apply.Resumes.{
  Leaves, anchor_view, non_anchor_view, is_none-eq, on_anchor_output-view, deploy-Keeps,
}

true_left : (a b : Bool) → a && b ≡ true → b ≡ true
true_left a b h = ground arith

module _ {C E : Type 0} (world : World (Spec C E)) (spec_file_path : String) (rounds : ℕ)
    {r : Resources} where
  await_objects-Keeps :
      (fuel : ℕ) (bucket prefix : String) (target : ℕ)
      → Keeps
          (IsDue r)
          (await_objects world spec_file_path rounds fuel bucket prefix target)
          (λ os. Unit)
  unfolding await_objects
  await_objects-Keeps zero bucket prefix target = lift_any-Keeps _
  await_objects-Keeps (suc fuel) bucket prefix target = seq (request-Keeps _ _ tt) (λ objects.
      if-Keeps (leb target (length objects % 4294967296)) (λ h. return-Keeps objects tt)
        (λ h. await_objects-Keeps fuel bucket prefix target))

  parse_nodes-Keeps :
      (os : List Object)
      → Keeps (IsDue r) (parse_nodes world spec_file_path rounds os) (λ nodes. Unit)
  unfolding parse_nodes
  parse_nodes-Keeps [] = return-Keeps [] tt
  parse_nodes-Keeps (o ∷ os) = seq (lift_any-Keeps _) (λ key.
      seq (lift_any-Keeps _)
        (λ node. seq (parse_nodes-Keeps os) (λ nodes. return-Keeps (node ∷ nodes) tt)))

  list_instances-Keeps :
      (s : Resources) (asg_name : String) (target : ℕ)
      → Keeps (IsDue r) (list_instances world spec_file_path rounds s asg_name target) (λ u. Unit)
  unfolding list_instances
  list_instances-Keeps s asg_name target = seq (request-Keeps _ _ tt) (λ droplets.
      seq
        (if-Keeps (ltb (droplets % 4294967296) target) (λ h. request-Keeps _ _ tt)
          (λ h. return-Keeps droplets tt))
        (λ again. seq (lift_any-Keeps _) (λ path. request-Keeps _ _ tt)))

  await_nodes-Keeps :
      (s : Resources) (dir : StorageNamespace) (target : ℕ)
      → Keeps (IsDue r) (await_nodes world spec_file_path rounds s dir target) (λ nodes. Unit)
  unfolding await_nodes
  await_nodes-Keeps s dir target = seq (lift_any-Keeps _) (λ prefix.
      seq (await_objects-Keeps rounds s.s3_bucket prefix target)
        (λ objects. parse_nodes-Keeps objects))

  pub create_anchor_nodes-Keeps :
      (shared : List Parameter) (st : State C E)
      → Leaves anchor_view r st
      → Keeps
          (IsDue r)
          (create_anchor_nodes world spec_file_path rounds shared st)
          (Leaves non_anchor_view r)
  unfolding create_anchor_nodes new_anchor_nodes
  create_anchor_nodes-Keeps shared st same =
      if-Keeps
        (ltb 0 (unwrap_or st.spec.machine.anchor_nodes 0)
          && is_none st.aws_resources.cloudformation_asg_anchor_nodes_logical_id)
        (λ none_yet.
          chain
            (lift-Keeps {Q = λ name. st.aws_resources.cloudformation_asg_anchor_nodes ≡ some name}
              (λ name e. unwrap-eq _ e))
            (λ name named. seq (lift_any-Keeps _) (λ capacity.
              seq
                (deploy-Keeps world spec_file_path _ _ (
                  anchors (sym (ap (λ v. v.0.0) same) ∙ named)
                    (sym (ap (λ v. v.0.1) same) ∙ is_none-eq _ (true_left _ _ none_yet))))
                (λ outputs.
                  chain
                    (lift-Keeps {Q = λ t. non_anchor_view t ≡ non_anchor_view r} (λ t e.
                      take_outputs-keeps (λ t. non_anchor_view t ≡ non_anchor_view r)
                        on_anchor_output (λ s k v h. on_anchor_output-view s k v ∙ h) outputs
                        st.aws_resources t (ap (λ v. v.1) same) e))
                    (λ t left. seq (lift_any-Keeps _) (λ u. seq (lift_any-Keeps _) (λ asg_name.
                      seq (list_instances-Keeps t asg_name capacity) (λ u.
                        seq (await_nodes-Keeps t _ capacity) (λ nodes.
                          save_and_upload-Keeps world spec_file_path
                            (λ s. non_anchor_view s ≡ non_anchor_view r) _ left)))))))))
        (λ h. return-Keeps st (ap (λ v. v.1) same))

  stop_downloading-Keeps :
      (st : State C E) (download : Bool)
      → Keeps (IsDue r) (stop_downloading world spec_file_path rounds st download) (λ p. Unit)
  unfolding stop_downloading
  stop_downloading-Keeps st false = return-Keeps _ tt
  stop_downloading-Keeps st true =
      seq (save-Keeps world spec_file_path (λ s. Unit) _ tt) (λ saved. return-Keeps _ tt)

  pub create_non_anchor_nodes-Keeps :
      (shared : List Parameter) (st : State C E)
      → Leaves non_anchor_view r st
      → Keeps (IsDue r) (create_non_anchor_nodes world spec_file_path rounds shared st) (λ p. Unit)
  unfolding create_non_anchor_nodes new_non_anchor_nodes
  create_non_anchor_nodes-Keeps shared st same =
      if-Keeps (is_none st.aws_resources.cloudformation_asg_non_anchor_nodes_logical_id)
        (λ none_yet.
          chain
            (lift-Keeps
              {Q = λ name. st.aws_resources.cloudformation_asg_non_anchor_nodes ≡ some name}
              (λ name e. unwrap-eq _ e))
            (λ name named.
              seq
                (deploy-Keeps world spec_file_path _ _ (
                  non_anchors (sym (ap (λ v. v.0) same) ∙ named)
                    (sym (ap (λ v. v.1) same) ∙ is_none-eq _ none_yet)))
                (λ outputs. seq (lift_any-Keeps _) (λ t. seq (lift_any-Keeps _) (λ u.
                  seq (save-Keeps world spec_file_path (λ s. Unit) _ tt) (λ created.
                    seq (lift_any-Keeps _) (λ asg_name.
                      seq (list_instances-Keeps t asg_name _) (λ u.
                        seq (await_nodes-Keeps t _ _) (λ nodes.
                          seq (save_and_upload-Keeps world spec_file_path (λ s. Unit) _ tt)
                            (λ reported. stop_downloading-Keeps reported _))))))))))
        (λ h. return-Keeps _ tt)

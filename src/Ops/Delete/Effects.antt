-- ===== src/Ops/Delete/Effects.antt =====
-- What a deletion has sent, when it returns and when it stops, and that it takes down every stack
-- that an apply sets up.
use avalanche_ops.Prelude.{
  String, Bool, true, Option, none, some, is_some, List, ◌∷◌, [], ◌++◌, ◌≡◌, ◌⊎◌, inl, inr, ◌∙◌,
  append-nil,
}
use avalanche_ops.Outcome.{Outcome, ok, err, panic}
use avalanche_ops.Run.Sends.{Sent, Stopped, onto}
use avalanche_ops.Aws.Resources.{Resources}
use avalanche_ops.Spec.{Spec}
use avalanche_ops.Ops.Requests.{Request, World, delete_stack}
use avalanche_ops.Ops.Apply.Due.{StackDue, role, vpc, anchors, non_anchors}
use avalanche_ops.Ops.Delete.{Flags, has_anchors, has_non_anchors, has_vpc, delete_resources}
use avalanche_ops.Run.Triple.{Triple-returned}
use avalanche_ops.Ops.Delete.Heeds.{AllAnswered, delete_resources-Heeds, delete_resources-earlier}
use avalanche_ops.Ops.Delete.Plan.{plan, trigger_plan, delete_resources-Sends, in_order, parts}

Sent-prefix :
    {V E : Type 0} (vs start : List V) (end : Outcome E (Unit {0}) × List V)
    → Sent vs start end
    → Stopped vs start end.1
Sent-prefix vs start (ok a, log) h = (vs, [], append-nil vs, h)
Sent-prefix vs start (err e, log) h = h
Sent-prefix vs start (panic, log) h = h

Sent-onto :
    {V E : Type 0} (vs start : List V) (end : Outcome E (Unit {0}) × List V)
    → Sent vs start end
    → end.0 ≡ ok tt
    → end.1 ≡ onto vs start
Sent-onto vs start (ok a, log) h e = h
Sent-onto vs start (err x, log) h e = cc
Sent-onto vs start (panic, log) h e = cc

-- A deletion that returns has sent its plan, in order, and every request was answered with success: the
-- keys, the deletion of the role and of the groups of nodes, the polls of the groups for their
-- deletion, then the deletion of the network and its poll, the poll of the role, and what the flags ask
-- for. One that stops has sent a prefix of the plan. However it ends, no request was sent before all the
-- earlier ones had succeeded: that for the network's deletion comes only after the polls of the groups
-- gave their stacks.
pub delete_resources-plan :
    {C E : Type 0} (world : World (Spec C E)) (flags : Flags) (spec : Spec C E) (r : Resources)
    → ((delete_resources world flags spec r []).0 ≡ ok tt
        → ((delete_resources world flags spec r []).1 ≡ onto (plan world.exists flags spec r) [])
          × AllAnswered world (delete_resources world flags spec r []).1)
      × ((sent : List (Request (Spec C E))) × (left : List (Request (Spec C E))) × (sent ++ left
            ≡ plan world.exists flags spec r)
          × ((delete_resources world flags spec r []).1 ≡ onto sent []))
      × ((later earlier : List (Request (Spec C E))) (v : Request (Spec C E))
          → (delete_resources world flags spec r []).1 ≡ later ++ v ∷ earlier
          → AllAnswered world earlier)
delete_resources-plan world flags spec r =
    let h = (delete_resources-Sends world flags spec r).sends [] in
    (
      λ returned. (
        Sent-onto (plan world.exists flags spec r) [] _ h returned,
        Triple-returned [] (delete_resources-Heeds world flags spec r) tt returned,
      ),
      Sent-prefix (plan world.exists flags spec r) [] _ h,
      delete_resources-earlier world flags spec r,
    )

pub data Among {V : Type 0} (v : V) : List V → Type 0 where
  here : {vs : List V} → Among v (v ∷ vs)
  there : {w : V} {vs : List V} → Among v vs → Among v (w ∷ vs)

not-Among : {V : Type 0} {v : V} → ¬ Among v []
not-Among h = elim h [ ]

Among-left : {V : Type 0} {v : V} {vs : List V} (ws : List V) → Among v vs → Among v (vs ++ ws)
Among-left ws here = here
Among-left ws (there h) = there (Among-left ws h)

Among-right : {V : Type 0} {v : V} {ws : List V} (vs : List V) → Among v ws → Among v (vs ++ ws)
Among-right [] h = h
Among-right (w ∷ vs) h = there (Among-right vs h)

Among-onto_old :
    {V : Type 0} {v : V} {log : List V} (vs : List V) → Among v log → Among v (onto vs log)
Among-onto_old [] h = h
Among-onto_old (w ∷ vs) h = Among-onto_old vs (there h)

Among-onto : {V : Type 0} {v : V} {vs : List V} (log : List V) → Among v vs → Among v (onto vs log)
Among-onto {vs = []} log h = elim h [ ]
Among-onto {v = v} {vs = w ∷ vs} log here = Among-onto_old vs here
Among-onto {vs = w ∷ vs} log (there h) = Among-onto (w ∷ log) h

-- what is in a part is in the whole
in_order-Among :
    {V : Type 0} {v : V} {vs : List V} (parts : List (List V))
    → Among vs parts
    → Among v vs
    → Among v (in_order parts)
in_order-Among [] k h = elim k [ ]
in_order-Among (vs ∷ []) here h = h
in_order-Among (vs ∷ ws ∷ r) here h = Among-left _ h
in_order-Among (us ∷ []) (there k) h = absurd (not-Among k)
in_order-Among (us ∷ ws ∷ r) (there k) h = Among-right us (in_order-Among (ws ∷ r) k h)

triggered :
    {S : Type 0} {name : String} (b : Bool) (o : Option String)
    → b ≡ true
    → o ≡ some name
    → Among (delete_stack name) (trigger_plan {S = S} b o)
triggered b o h e = rw (h, e) here

-- The resources `s` record every stack that has a name, under the names of `r`.
pub record Records {C E : Type 0} (spec : Spec C E) (r s : Resources) : Type 0 where
  pub role_name : s.cloudformation_ec2_instance_role ≡ r.cloudformation_ec2_instance_role
  pub vpc_name : s.cloudformation_vpc ≡ r.cloudformation_vpc
  pub anchors_name : s.cloudformation_asg_anchor_nodes ≡ r.cloudformation_asg_anchor_nodes
  pub non_anchors_name :
      s.cloudformation_asg_non_anchor_nodes ≡ r.cloudformation_asg_non_anchor_nodes
  pub role_there : is_some s.cloudformation_ec2_instance_profile_arn ≡ true
  pub vpc_there : has_vpc s ≡ true
  pub anchors_there : (s.cloudformation_asg_anchor_nodes ≡ none) ⊎ (has_anchors spec s ≡ true)
  pub non_anchors_there : has_non_anchors s ≡ true

plan-covers :
    {C E : Type 0} (exists : String → Bool) (flags : Flags) (spec : Spec C E) {r : Resources}
    (s : Resources) {name template : String}
    → Records spec r s
    → StackDue r name template
    → Among (delete_stack name) (plan exists flags spec s)
plan-covers exists flags spec s h (role e k) =
    in_order-Among (parts exists flags spec s) (there (there here))
      (triggered _ _ h.role_there (h.role_name ∙ e))
plan-covers exists flags spec s h (non_anchors e k) =
    in_order-Among (parts exists flags spec s) (there (there (there here)))
      (triggered _ _ h.non_anchors_there (h.non_anchors_name ∙ e))
plan-covers exists flags spec s h (anchors e k) = elim h.anchors_there [
  | inl n ↦ cc (n, h.anchors_name, e)
  | inr y ↦
      in_order-Among (parts exists flags spec s) (there (there (there (there here))))
        (triggered _ _ y (h.anchors_name ∙ e))
]
plan-covers exists flags spec s h (vpc e k l m) =
    in_order-Among (parts exists flags spec s)
      (there (there (there (there (there (there (there here)))))))
      (triggered _ _ h.vpc_there (h.vpc_name ∙ e))

-- Take a stack that `apply` may create from the resources `r`, and resources `s` with the same names
-- that record all four stacks (or no name for the anchor nodes): a deletion with `s` that returns has
-- asked for the deletion of that stack.
pub delete_resources-covers :
    {C E : Type 0} (world : World (Spec C E)) (flags : Flags) (spec : Spec C E) (r s : Resources)
    (name template : String)
    → Records spec r s
    → StackDue r name template
    → (delete_resources world flags spec s []).0 ≡ ok tt
    → Among (delete_stack name) (delete_resources world flags spec s []).1
delete_resources-covers world flags spec r s name template records due returned =
    rw (((delete_resources-plan world flags spec s).0 returned).0)
      (Among-onto [] (plan-covers world.exists flags spec s records due))

-- ===== src/Spec/Valid.antt =====
-- The specifications that pass the checks, and the one way in which checking panics.
use avalanche_ops.Prelude.{
  String, Bool, Option, ◌≡◌, false, is_some, none, ◌↔◌, some, true, unwrap_or, ◌≤◌, arith, ℕ,
  Bool-cases, Option-cases, refl, inl, inr, ◌≢◌,
}
use mathlib.Core.Option.{some-injective}
use avalanche_ops.Aws.Resources.{Resources}
use avalanche_ops.Spec.{
  validate, Spec, check_aws_resources, check_id, check_install_artifacts, check_network,
  check_non_anchor_nodes, Machine, check_known_network, InstallArtifacts, check_custom_network, ok,
}
use avalanche_ops.Avalanche.Avalanchego.Config.{is_custom_network}
use avalanche_ops.Text.{is_empty, byte_length}
use avalanche_ops.Outcome.{ok, panic, >>-eq-ok_iff, >>-eq-panic_iff, ◌>>◌}
use avalanche_ops.Avalanche.Avalanchego.Genesis.{Genesis}

-- The three names of a database backup are given together; a key alone is ignored.
pub record BackupFits (r : Resources) : Type 0 where
  pub has_region : is_empty r.region ≡ false
  pub together : is_some r.db_backup_s3_region ≡ is_some r.db_backup_s3_bucket
  pub has_key : is_some r.db_backup_s3_bucket ≡ true → is_some r.db_backup_s3_key ≡ true

-- A known network has no genesis template and no anchor nodes; a custom one has a template and
-- between 1 and 10 anchor nodes.
pub data NetworkFits {C E : Type 0} (spec : Spec C E) : Type 0 where
  known :
      is_custom_network spec.avalanchego_config ≡ false
      → spec.avalanchego_genesis_template ≡ none
      → unwrap_or spec.machine.anchor_nodes 0 ≡ 0
      → NetworkFits spec
  custom :
      (g : Genesis C) (n : ℕ)
      → is_custom_network spec.avalanchego_config ≡ true
      → spec.avalanchego_genesis_template ≡ some g
      → spec.machine.anchor_nodes ≡ some n
      → 1 ≤ n
      → n ≤ 10
      → NetworkFits spec

pub record IsValid {C E : Type 0} (exists : String → Bool) (spec : Spec C E) : Type 0 where
  pub id_fits : (is_empty spec.id ≡ false) × (byte_length spec.id ≤ 28)
  pub resources_fit : (r : Resources) → spec.aws_resources ≡ some r → BackupFits r
  pub non_anchors : (1 ≤ spec.machine.non_anchor_nodes) × (spec.machine.non_anchor_nodes ≤ 200)
  pub avalanched : exists spec.install_artifacts.avalanched_bin ≡ true
  pub avalanchego : exists spec.install_artifacts.avalanchego_bin ≡ true
  pub plugins : (p : String) → spec.install_artifacts.plugins_dir ≡ some p → exists p ≡ true
  pub network_fits : NetworkFits spec

check_id-ok : (id : String) → check_id id ≡ ok tt ↔ ((is_empty id ≡ false) × (byte_length id ≤ 28))
unfolding check_id
check_id-ok id = ground arith

backup-ok : (r : Resources) → check_aws_resources (some r) ≡ ok tt ↔ BackupFits r
unfolding check_aws_resources
backup-ok r = (λ h. ground arith, λ h. ground arith)

check_aws_resources-ok :
    (o : Option Resources)
    → check_aws_resources o ≡ ok tt ↔ ((r : Resources) → o ≡ some r → BackupFits r)
unfolding check_aws_resources
check_aws_resources-ok none = (λ h r e. cc, λ h. refl)
check_aws_resources-ok (some r) =
    (λ h p e. rw (← some-injective r p e) ((backup-ok r).0 h), λ h. (backup-ok r).1 (h r refl))

check_non_anchor_nodes-ok :
    (m : Machine)
    → check_non_anchor_nodes m ≡ ok tt ↔ ((1 ≤ m.non_anchor_nodes) × (m.non_anchor_nodes ≤ 200))
unfolding check_non_anchor_nodes
check_non_anchor_nodes-ok m = ground arith

check_install_artifacts-ok :
    (exists : String → Bool) (a : InstallArtifacts)
    → check_install_artifacts exists a ≡ ok tt ↔ (
        (exists a.avalanched_bin ≡ true)
        × (exists a.avalanchego_bin ≡ true)
        × ((p : String) → a.plugins_dir ≡ some p → exists p ≡ true))
unfolding check_install_artifacts
check_install_artifacts-ok exists a = elim (Option-cases a.plugins_dir) [
  | inl e ↦ (λ h. (ground arith, ground arith, λ p f. cc), λ h. ground arith)
  | inr (p, e) ↦ (
    λ h. (ground arith, ground arith, λ q f. let same : p ≡ q = cc in rw (← same) (ground arith)),
    λ h. let found = h.2 p e in ground arith,
  )
]

NetworkFits-check_network :
    {C E : Type 0} (spec : Spec C E) → NetworkFits spec → check_network spec ≡ ok tt
unfolding check_network check_known_network check_custom_network
NetworkFits-check_network spec (known k e f) = rw (k, e, f) refl
NetworkFits-check_network spec (custom g n k e f l m) = ground arith

check_network-ok : {C E : Type 0} (spec : Spec C E) → check_network spec ≡ ok tt ↔ NetworkFits spec
unfolding check_network check_known_network check_custom_network
check_network-ok spec = (
  λ h. elim (Bool-cases (is_custom_network spec.avalanchego_config)) [
    | inr k ↦ known k (ground arith) (ground arith)
    | inl k ↦ elim (Option-cases spec.avalanchego_genesis_template) [
      | inl e ↦ absurd (ground arith)
      | inr (g, e) ↦ elim (Option-cases spec.machine.anchor_nodes) [
        | inl f ↦ absurd (ground arith)
        | inr (n, f) ↦ custom g n k e f (ground arith) (ground arith)
      ]
    ]
  ],
  NetworkFits-check_network spec,
)

module _ {C E : Type 0} (exists : String → Bool) (spec : Spec C E) where
  -- A specification passes the checks exactly when it is valid: its id has 1 to 28 bytes, its
  -- resources have a region and a complete database backup or none, it has 1 to 200 non-anchor
  -- nodes, its artifacts exist, and its genesis template and anchor nodes fit its network.
  pub validate-ok_iff : validate exists spec ≡ ok tt ↔ IsValid exists spec
  unfolding validate
  validate-ok_iff = (
    λ h.
        let (i, h1) = (>>-eq-ok_iff _ _ tt).0 h in
        let (r, h2) = (>>-eq-ok_iff _ _ tt).0 h1 in
        let (m, h3) = (>>-eq-ok_iff _ _ tt).0 h2 in
        let (a, n) = (>>-eq-ok_iff _ _ tt).0 h3 in
        let (a1, a2, a3) = (check_install_artifacts-ok exists spec.install_artifacts).0 a in
        record {
          id_fits = (check_id-ok spec.id).0 i;
          resources_fit = (check_aws_resources-ok spec.aws_resources).0 r;
          non_anchors = (check_non_anchor_nodes-ok spec.machine).0 m;
          avalanched = a1;
          avalanchego = a2;
          plugins = a3;
          network_fits = (check_network-ok spec).0 n;
        },
    λ v. (>>-eq-ok_iff _ _ tt).1 (
      (check_id-ok spec.id).1 v.id_fits,
      (>>-eq-ok_iff _ _ tt).1 (
        (check_aws_resources-ok spec.aws_resources).1 v.resources_fit,
        (>>-eq-ok_iff _ _ tt).1 (
          (check_non_anchor_nodes-ok spec.machine).1 v.non_anchors,
          (>>-eq-ok_iff _ _ tt).1 (
            (check_install_artifacts-ok exists spec.install_artifacts).1
                (v.avalanched, v.avalanchego, v.plugins),
            (check_network-ok spec).1 v.network_fits,
          ),
        ),
      ),
    ),
  )

-- A region for the backup without a bucket makes the message of the refusal panic.
backup-panic :
    (r : Resources)
    → check_aws_resources (some r) ≡ panic ↔ (
        (is_empty r.region ≡ false)
        × (is_some r.db_backup_s3_region ≡ true)
        × (r.db_backup_s3_bucket ≡ none))
unfolding check_aws_resources
backup-panic r = (λ h. ground arith, λ h. ground arith)

check_aws_resources-panic :
    (o : Option Resources)
    → check_aws_resources o ≡ panic ↔ (
        (r : Resources) × (o ≡ some r)
        × (is_empty r.region ≡ false)
        × (is_some r.db_backup_s3_region ≡ true)
        × (r.db_backup_s3_bucket ≡ none))
unfolding check_aws_resources
check_aws_resources-panic none = (λ h. cc, λ (r, e, x, y, z). cc)
check_aws_resources-panic (some r) = (
  λ h. let (a, b, c) = (backup-panic r).0 h in (r, refl, a, b, c),
  λ (p, e, h0, h1, h2). rw (some-injective r p e) ((backup-panic p).1 (h0, h1, h2)),
)

check_id-ne-panic : (id : String) → check_id id ≢ panic
unfolding check_id
check_id-ne-panic id h = ground arith

module _ {C E : Type 0} (exists : String → Bool) (spec : Spec C E) where
  check_rest-ne-panic :
      (check_non_anchor_nodes spec.machine
        >> (check_install_artifacts exists spec.install_artifacts >> check_network spec))
      ≢ panic
  unfolding check_non_anchor_nodes check_install_artifacts check_network check_known_network
      check_custom_network
  check_rest-ne-panic h = ground arith

  -- Checking panics exactly if the id passes, and the resources have a region and name a region for
  -- the database backup, but no bucket.
  pub validate-panic_iff : validate exists spec ≡ panic ↔ (
      (check_id spec.id ≡ ok tt)
      × ((r : Resources) × (spec.aws_resources ≡ some r)
          × (is_empty r.region ≡ false)
          × (is_some r.db_backup_s3_region ≡ true)
          × (r.db_backup_s3_bucket ≡ none)))
  unfolding validate
  validate-panic_iff = (
    λ h. elim ((>>-eq-panic_iff _ _).0 h) [
      | inl e ↦ absurd (check_id-ne-panic spec.id e)
      | inr (i, e) ↦ elim ((>>-eq-panic_iff _ _).0 e) [
        | inl f ↦ (i, (check_aws_resources-panic spec.aws_resources).0 f)
        | inr (_, f) ↦ absurd (check_rest-ne-panic f)
      ]
    ],
    λ (i, r). (>>-eq-panic_iff _ _).1 (
        inr
          (i, (>>-eq-panic_iff _ _).1 (inl ((check_aws_resources-panic spec.aws_resources).1 r)))),
  )

-- ===== src/Avalanche/Avalanchego/Config/Valid.antt =====
-- The configurations that pass the checks, and the one way in which checking panics.
use avalanche_ops.Avalanche.Avalanchego.Config.{
  Config, validate, check_genesis, check_profile, check_staking, check_state_sync,
  is_custom_network, check_network_id, ok,
}
use avalanche_ops.Prelude.{
  String, Bool, ◌≢◌, some, ◌≡◌, false, is_some, none, ◌↔◌, arith, true, Bool-cases, refl, inl, inr,
  Option-cases,
}
use avalanche_ops.Outcome.{Outcome, ok, Outcome-cases, panic, ◌>>◌, >>-eq-ok_iff, >>-eq-panic_iff}
use avalanche_ops.Io.{Error}
use avalanche_ops.Avalanche.Avalanchego.Genesis.{Genesis}

-- The genesis file is what the network asks for: none for a known network, and for a custom network
-- one that exists, loads, and has the network's id.
pub data GenesisFits {C : Type 0} (exists : String → Bool)
    (load_genesis : String → Outcome Error (Genesis C)) (c : Config) : Type 0 where
  known : is_custom_network c ≡ false → c.genesis ≡ none → GenesisFits exists load_genesis c
  custom :
      (p : String) (g : Genesis C)
      → is_custom_network c ≡ true
      → c.genesis ≡ some p
      → exists p ≡ true
      → load_genesis p ≡ ok g
      → g.network_id ≡ c.network_id
      → GenesisFits exists load_genesis c

-- Staking is not disabled and has its two files, state sync has both of its lists or none, and
-- profiling is not disabled, and enabled where it is configured.
pub record IsValid {C : Type 0} (exists : String → Bool)
    (load_genesis : String → Outcome Error (Genesis C)) (c : Config) : Type 0 where
  pub genesis_fits : GenesisFits exists load_genesis c
  pub stakes : c.staking_enabled ≢ some false
  pub has_cert : is_some c.staking_tls_cert_file ≡ true
  pub has_key : is_some c.staking_tls_key_file ≡ true
  pub syncs : is_some c.state_sync_ids ≡ is_some c.state_sync_ips
  pub profiles : c.profile_continuous_enabled ≢ some false
  pub profile_off :
      c.profile_continuous_enabled ≡ none
      → (c.profile_continuous_freq ≡ none) × (c.profile_continuous_max_files ≡ none)

module _ {C : Type 0} (exists : String → Bool)
    (load_genesis : String → Outcome Error (Genesis C)) where
  check_network_id-ok :
      (c : Config) (p : String)
      → check_network_id load_genesis c (some p) ≡ ok tt
      → (g : Genesis C) × (load_genesis p ≡ ok g) × (g.network_id ≡ c.network_id)
  unfolding check_network_id
  check_network_id-ok c p h = elim (Outcome-cases (load_genesis p)) [
    | inl (g, e) ↦ (g, e, ground arith)
    | inr e ↦ absurd (ground arith)
  ]

  check_genesis-ok :
      (c : Config) → check_genesis exists load_genesis c ≡ ok tt → GenesisFits exists load_genesis c
  unfolding check_genesis
  check_genesis-ok c h = elim (Bool-cases (is_custom_network c)) [
    | inr k ↦ known k (ground arith)
    | inl k ↦ elim (Option-cases c.genesis) [
      | inl e ↦ absurd (ground arith)
      | inr (p, e) ↦
          let (g, l, same) = check_network_id-ok c p (ground arith) in
          custom p g k e (ground arith) l same
    ]
  ]

  GenesisFits-check_genesis :
      (c : Config) → GenesisFits exists load_genesis c → check_genesis exists load_genesis c ≡ ok tt
  unfolding check_genesis check_network_id
  GenesisFits-check_genesis c (known k e) = rw (k, e) refl
  GenesisFits-check_genesis c (custom p g k e x l same) = rw (k, e, x, l, same) (ground arith)

  check_staking-ok :
      (c : Config)
      → check_staking c ≡ ok tt ↔ (
          (c.staking_enabled ≢ some false)
          × (is_some c.staking_tls_cert_file ≡ true)
          × (is_some c.staking_tls_key_file ≡ true))
  unfolding check_staking
  check_staking-ok c = ground arith

  check_state_sync-ok :
      (c : Config)
      → check_state_sync c ≡ ok tt ↔ (is_some c.state_sync_ids ≡ is_some c.state_sync_ips)
  unfolding check_state_sync
  check_state_sync-ok c = ground arith

  check_profile-ok :
      (c : Config)
      → check_profile c ≡ ok tt ↔ (
          (c.profile_continuous_enabled ≢ some false)
          × (c.profile_continuous_enabled ≡ none
              → (c.profile_continuous_freq ≡ none) × (c.profile_continuous_max_files ≡ none)))
  unfolding check_profile
  check_profile-ok c = ground arith

  check_genesis-panic :
      (c : Config)
      → check_genesis exists load_genesis c ≡ panic
      → (p : String) × (is_custom_network c ≡ true)
        × (c.genesis ≡ some p)
        × (exists p ≡ true)
        × ((g : Genesis C) → load_genesis p ≢ ok g)
  unfolding check_genesis check_network_id
  check_genesis-panic c h = elim (Option-cases c.genesis) [
    | inl e ↦ absurd (ground arith)
    | inr (p, e) ↦ (p, ground arith, e, ground arith, λ g l. ground arith)
  ]

  check_genesis-unloaded :
      (c : Config) (p : String)
      → is_custom_network c ≡ true
      → c.genesis ≡ some p
      → exists p ≡ true
      → ((g : Genesis C) → load_genesis p ≢ ok g)
      → check_genesis exists load_genesis c ≡ panic
  unfolding check_genesis check_network_id
  check_genesis-unloaded c p k e x l = elim (Outcome-cases (load_genesis p)) [
    | inl (g, loaded) ↦ absurd (l g loaded)
    | inr (inl (_, failed)) ↦ rw (k, e, x, failed) refl
    | inr (inr failed) ↦ rw (k, e, x, failed) refl
  ]

  check_rest-ne-panic :
      (c : Config) → (check_staking c >> (check_state_sync c >> check_profile c)) ≢ panic
  unfolding check_staking check_state_sync check_profile
  check_rest-ne-panic c h = ground arith

  -- A configuration passes the checks exactly when it is valid: its genesis file fits its network,
  -- staking is not disabled and has its two files, state sync has both of its lists or none, and
  -- profiling is not disabled, and enabled where it is configured.
  pub config_validate-ok_iff :
      (c : Config) → validate exists load_genesis c ≡ ok tt ↔ IsValid exists load_genesis c
  unfolding validate
  config_validate-ok_iff c = (
    λ h.
        let (g, h1) = (>>-eq-ok_iff _ _ tt).0 h in
        let (s, h2) = (>>-eq-ok_iff _ _ tt).0 h1 in
        let (y, p) = (>>-eq-ok_iff _ _ tt).0 h2 in
        let (s1, s2, s3) = (check_staking-ok c).0 s in
        let (p1, p2) = (check_profile-ok c).0 p in
        record {
          genesis_fits = check_genesis-ok c g;
          stakes = s1;
          has_cert = s2;
          has_key = s3;
          syncs = (check_state_sync-ok c).0 y;
          profiles = p1;
          profile_off = p2;
        },
    λ v. (>>-eq-ok_iff _ _ tt).1 (
      GenesisFits-check_genesis c v.genesis_fits,
      (>>-eq-ok_iff _ _ tt).1 (
        (check_staking-ok c).1 (v.stakes, v.has_cert, v.has_key),
        (>>-eq-ok_iff _ _ tt).1
            ((check_state_sync-ok c).1 v.syncs, (check_profile-ok c).1 (v.profiles, v.profile_off)),
      ),
    ),
  )

  -- Checking panics exactly for a custom network whose genesis file exists but does not load.
  pub config_validate-panic_iff :
      (c : Config)
      → validate exists load_genesis c ≡ panic ↔ (
          (p : String) × (is_custom_network c ≡ true)
          × (c.genesis ≡ some p)
          × (exists p ≡ true)
          × ((g : Genesis C) → load_genesis p ≢ ok g))
  unfolding validate
  config_validate-panic_iff c = (
    λ h. elim ((>>-eq-panic_iff _ _).0 h) [
      | inl e ↦ check_genesis-panic c e
      | inr e ↦ absurd (check_rest-ne-panic c e.1)
    ],
    λ (p, k, e, x, l). (>>-eq-panic_iff _ _).1 (inl (check_genesis-unloaded c p k e x l)),
  )

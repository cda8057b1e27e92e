-- ===== src/Spec/Default/Networks.antt =====
-- For which networks and options the defaults pass the checks.
use avalanche_ops.Avalanche.Constants.{get}
use avalanche_ops.Spec.Default.{
  DefaultSpecOption, network_id_of, avalanchego_config, config_with, machine, max_files,
}
use avalanche_ops.Avalanche.Avalanchego.Config.{
  is_custom_network, is_mainnet, check_staking, check_state_sync, check_profile,
}
use avalanche_ops.Avalanche.Avalanchego.Config
use avalanche_ops.Spec.{Spec, check_network, check_known_network, check_custom_network, ok}
use avalanche_ops.Prelude.{
  ◌≡◌, String, Option, ◌≢◌, ℕ, ◌≤◌, none, ◌⊎◌, Bool-cases, str_eq, inl, arith, inr, eq_iff, false,
  is_some, refl, ◌↔◌, true, ap, not, some, unwrap_or, ◌<◌, sym, ◌∙◌,
}
use avalanche_ops.Outcome.{ok, >>=-eq-ok}
use avalanche_ops.Io.{Error}
use avalanche_ops.Text.{is_empty}

other_name : (name : String) → str_eq name "local" ≡ false → name ≢ "local"
other_name name f e = let t = (eq_iff name "local").1 e in cc (t, f)

-- Which id a name has: a known network other than the local one, the local one, or the custom one.
network_cases :
    (name : String)
    → ((name ≢ "local") × (1 ≤ network_id_of name) × (network_id_of name ≤ 5))
      ⊎ ((name ≡ "local") × (network_id_of name ≡ 12345))
      ⊎ ((name ≢ "local") × (network_id_of name ≡ 1000000))
unfolding network_id_of get
network_cases name = elim (Bool-cases (str_eq name "mainnet")) [
  | inl t ↦ let e = (eq_iff name "mainnet").0 t in rw e (inl (λ l. cc l, omega arith, omega arith))
  | inr f0 ↦ elim (Bool-cases (str_eq name "cascade")) [
    | inl t ↦
        let e = (eq_iff name "cascade").0 t in rw e (inl (λ l. cc l, omega arith, omega arith))
    | inr f1 ↦ elim (Bool-cases (str_eq name "denali")) [
      | inl t ↦
          let e = (eq_iff name "denali").0 t in rw e (inl (λ l. cc l, omega arith, omega arith))
      | inr f2 ↦ elim (Bool-cases (str_eq name "everest")) [
        | inl t ↦
            let e = (eq_iff name "everest").0 t in rw e (inl (λ l. cc l, omega arith, omega arith))
        | inr f3 ↦ elim (Bool-cases (str_eq name "fuji")) [
          | inl t ↦
              let e = (eq_iff name "fuji").0 t in rw e (inl (λ l. cc l, omega arith, omega arith))
          | inr f4 ↦ elim (Bool-cases (str_eq name "local")) [
            | inl t ↦ let e = (eq_iff name "local").0 t in inr (inl (e, rw e refl))
            | inr f5 ↦ inr (inr (other_name name f5, rw (f0, f1, f2, f3, f4, f5) refl))
          ]
        ]
      ]
    ]
  ]
]

config_parts :
    {E : Type 0} (opt : DefaultSpecOption) (c : Config.Config)
    → avalanchego_config {E = E} opt ≡ ok c
    → (files : Option ℕ) × (max_files {E = E} opt.avalanchego_profile_continuous_max_files none
        ≡ ok files)
      × (config_with opt files ≡ c)
unfolding avalanchego_config
config_parts opt c h =
    let (files, f, e) =
      >>=-eq-ok (max_files opt.avalanchego_profile_continuous_max_files none)
        (λ files. ok (config_with opt files)) h in
    (files, f, cc)

anchors_known : (n : ℕ) → 1 ≤ n → n ≤ 5 → (machine n).anchor_nodes ≡ none
unfolding machine get
anchors_known n a b = ground arith

custom_known :
    (c : Config.Config) (n : ℕ) → c.network_id ≡ n → 1 ≤ n → n ≤ 5 → is_custom_network c ≡ false
unfolding is_custom_network is_mainnet
custom_known c n e a b = ground arith

custom_above : (c : Config.Config) (n : ℕ) → c.network_id ≡ n → 5 < n → is_custom_network c ≡ true
unfolding is_custom_network is_mainnet
custom_above c n e a = ground arith

max_files-is_some :
    {E : Type 0} (s : String) (files : Option ℕ)
    → max_files {E = E} s none ≡ ok files
    → is_some files ≡ not (is_empty s)
unfolding max_files
max_files-is_some s files h = ground arith

nothing_of : 1 ≤ 0 → ⊥
nothing_of h = omega (arith, h)

local_anchors : (machine 12345).anchor_nodes ≡ none
unfolding machine get
local_anchors = refl

custom_anchors : (machine 1000000).anchor_nodes ≡ some 2
unfolding machine get
custom_anchors = refl

check_network_known :
    {C F : Type 0} (spec : Spec C F)
    → is_custom_network spec.avalanchego_config ≡ false
    → spec.machine.anchor_nodes ≡ none
    → is_some spec.avalanchego_genesis_template ≡ false
    → check_network spec ≡ ok tt
unfolding check_network check_known_network
check_network_known spec k a t = rw (k, a, t) refl

check_network_custom :
    {C F : Type 0} (spec : Spec C F) (o : Option ℕ)
    → is_custom_network spec.avalanchego_config ≡ true
    → spec.machine.anchor_nodes ≡ o
    → is_some spec.avalanchego_genesis_template ≡ true
    → check_network spec ≡ ok tt ↔ ((1 ≤ unwrap_or o 0) × (unwrap_or o 0 ≤ 10))
unfolding check_network check_custom_network
check_network_custom spec o k a t = (λ h. ground arith, λ h. ground arith)

-- The checks of the network on a specification with the default configuration and machine, and a
-- genesis template exactly for a custom network, pass unless the network is the one named "local".
pub check_network-ok_iff :
    {C F : Type 0} (opt : DefaultSpecOption) (spec : Spec C F)
    → avalanchego_config {E = Error} opt ≡ ok spec.avalanchego_config
    → spec.machine ≡ machine spec.avalanchego_config.network_id
    → is_some spec.avalanchego_genesis_template ≡ is_custom_network spec.avalanchego_config
    → check_network spec ≡ ok tt ↔ (opt.network_name ≢ "local")
check_network-ok_iff opt spec c m t =
    let (files, f, e) = config_parts opt spec.avalanchego_config c in
    let n : spec.avalanchego_config.network_id ≡ network_id_of opt.network_name =
      ap (λ x. x.network_id) (sym e) in
    elim (network_cases opt.network_name) [
      | inl (other, a, b) ↦
          let k = custom_known spec.avalanchego_config _ n a b in
          let none_set : spec.machine.anchor_nodes ≡ none =
            ap (λ x. x.anchor_nodes) m ∙ rw n (anchors_known _ a b) in
          (λ h. other, λ h. check_network_known spec k none_set (t ∙ k))
      | inr (inl (local, id)) ↦
          let k = custom_above spec.avalanchego_config _ (n ∙ id) (omega arith) in
          let none_set : spec.machine.anchor_nodes ≡ none =
            ap (λ x. x.anchor_nodes) m ∙ rw (n, id) local_anchors in
          (
            λ h. absurd (nothing_of ((check_network_custom spec none k none_set (t ∙ k)).0 h).0),
            λ other. absurd (other local),
          )
      | inr (inr (other, id)) ↦
          let k = custom_above spec.avalanchego_config _ (n ∙ id) (omega arith) in
          let two_set : spec.machine.anchor_nodes ≡ some 2 =
            ap (λ x. x.anchor_nodes) m ∙ rw (n, id) custom_anchors in
          (
            λ h. other,
            λ h.
                (check_network_custom spec (some 2) k two_set (t ∙ k)).1 (omega arith, omega arith),
          )
    ]

-- The default configuration passes the checks that do not concern the genesis exactly if the options
-- for state sync are both empty or both given, and profiling is enabled where it is configured.
pub default_config-ok_iff :
    (opt : DefaultSpecOption) (c : Config.Config)
    → avalanchego_config {E = Error} opt ≡ ok c
    → ((check_staking c ≡ ok tt) × (check_state_sync c ≡ ok tt) × (check_profile c ≡ ok tt)) ↔ (
        (is_empty opt.avalanchego_state_sync_ids ≡ is_empty opt.avalanchego_state_sync_ips)
        × (opt.avalanchego_profile_continuous_enabled ≡ false
            → (is_empty opt.avalanchego_profile_continuous_freq ≡ true)
              × (is_empty opt.avalanchego_profile_continuous_max_files ≡ true)))
unfolding check_staking check_state_sync check_profile max_files
default_config-ok_iff opt c h =
    let (files, f, e) = config_parts opt c h in
    let g = max_files-is_some opt.avalanchego_profile_continuous_max_files files f in
    rw (← e) (
      λ h. (ground arith, λ p. (ground arith, ground arith)),
      λ h. (refl, ground arith, ground arith),
    )

-- ===== src/Avalanche/Avalanchego/Config/Tests.antt =====
-- The checks at concrete configurations.
use avalanche_ops.Prelude.{[], ◌∷◌, List, ℕ, String, ◌≡◌, Bool, none, true, ◌↔◌, some, ◌≢◌, refl}
use avalanche_ops.Outcome.{done, Outcome, ok, panic, err}
use avalanche_ops.Io.{Disk, Files, Holds, save_file, encoded_as, Error, other_error}
use avalanche_ops.Avalanche.Avalanchego.Config.{
  load, sync, default, validate, is_custom_network, check_genesis, check_network_id, ok,
  check_staking, check_state_sync, check_profile, is_mainnet,
}
use avalanche_ops.Avalanche.Avalanchego.Config.RoundTrip.{config_load-sync, own}
use avalanche_ops.Avalanche.Avalanchego.Config.Valid.{
  config_validate-ok_iff, config_validate-panic_iff, IsValid,
}
use avalanche_ops.Avalanche.Avalanchego.Genesis.{Genesis}

abbrev some_path : String → Bool
some_path p = true

abbrev default_genesis : Genesis (Unit {0})
default_genesis = record {
  network_id = 1000000;
  allocations = none;
  start_time = none;
  initial_stake_duration = none;
  initial_stake_duration_offset = none;
  initial_staked_funds = none;
  initial_stakers = none;
  c_chain_genesis = tt;
  message = none;
}

abbrev loads : String → Outcome Error (Genesis (Unit {0}))
loads p = ok default_genesis

abbrev never_loads : String → Outcome Error (Genesis (Unit {0}))
never_loads p = err (other_error p)

config_validate-ok_iff_example :
    validate some_path loads default ≡ ok tt ↔ IsValid some_path loads default
config_validate-ok_iff_example = config_validate-ok_iff some_path loads default

config_validate-panic_iff_example : validate some_path never_loads default ≡ panic ↔ (
    (p : String) × (is_custom_network default ≡ true)
    × (default.genesis ≡ some p)
    × (some_path p ≡ true)
    × ((g : Genesis (Unit {0})) → never_loads p ≢ ok g))
config_validate-panic_iff_example = config_validate-panic_iff some_path never_loads default

default_runs : validate some_path loads default ≡ ok tt
unfolding validate check_genesis check_network_id check_staking check_state_sync check_profile
    is_custom_network is_mainnet
default_runs = refl

default_panics : validate some_path never_loads default ≡ panic
unfolding validate check_genesis check_network_id check_staking check_state_sync check_profile
    is_custom_network is_mainnet
default_panics = refl

abbrev one_file : List ℕ → Files
one_file d = record { exists = λ p. true; read = λ p. done d }

abbrev disk : Disk
disk = record {
  parent = λ p. some "/etc";
  create_dir_all = λ p. ok tt;
  write = λ p d. ok (one_file d);
}

one_file-Holds :
    (p : String) (d : List ℕ) (after : Files) → disk.write p d ≡ ok after → Holds after p d
one_file-Holds p d after h =
    let e : one_file d ≡ after = cc in rw (← e) (record { there = refl; content = refl })

config_load-sync_example :
    load (one_file (1 ∷ [])) (λ d. done default) "/etc/avalanche.config.json" ≡ ok default
unfolding sync encoded_as save_file
config_load-sync_example =
    config_load-sync disk (one_file (1 ∷ [])) default none "/etc/avalanche.config.json" (1 ∷ [])
      (λ c. done (1 ∷ [])) (λ d. done default) (own "/etc/avalanche.config.json" refl)
      (one_file-Holds "/etc/avalanche.config.json") refl refl refl

-- ===== src/Avalanche/Avalanchego/Genesis/Tests.antt =====
-- A genesis whose encoders keep one text and one byte string.
use avalanche_ops.Prelude.{ℕ, true, none, some, List, [], ◌∷◌, ◌≡◌, refl}
use avalanche_ops.Outcome.{ok, done}
use avalanche_ops.Avalanche.Avalanchego.Genesis.{Genesis, with_c_chain, load, sync, encoded}
use avalanche_ops.Avalanche.Avalanchego.Genesis.RoundTrip.{load-sync}
use avalanche_ops.Io.{Disk, Files, Holds, save_file, encoded_as}

abbrev mainnet : Genesis ℕ
mainnet = record {
  network_id = 1;
  allocations = some [];
  start_time = some 5;
  initial_stake_duration = none;
  initial_stake_duration_offset = none;
  initial_staked_funds = none;
  initial_stakers = none;
  c_chain_genesis = 7;
  message = none;
}

abbrev one_file : List ℕ → Files
one_file d = record { exists = λ p. true; read = λ p. done d }

abbrev disk : Disk
disk = record {
  parent = λ p. some "/tmp";
  create_dir_all = λ p. ok tt;
  write = λ p d. ok (one_file d);
}

one_file-Holds :
    (d : List ℕ) (after : Files)
    → disk.write "/tmp/g.json" d ≡ ok after
    → Holds after "/tmp/g.json" d
one_file-Holds d after h =
    let e : one_file d ≡ after = cc in rw (← e) (record { there = refl; content = refl })

load-sync_example :
    load (one_file (1 ∷ [])) (λ d. done (with_c_chain "7" mainnet)) (λ s. done 7) "/tmp/g.json"
    ≡ ok mainnet
unfolding sync encoded encoded_as save_file
load-sync_example =
    load-sync disk (one_file (1 ∷ [])) "/tmp/g.json" "7" (1 ∷ []) mainnet (λ c. ok "7")
      (λ s. done 7) (λ f. done (1 ∷ [])) (λ d. done (with_c_chain "7" mainnet)) one_file-Holds refl
      refl refl refl refl

-- ===== src/Avalanche/Avalanchego/Genesis.antt =====
-- src/avalanche/avalanchego/genesis.rs: the genesis file of a network, and its two forms.
-- The C-chain's genesis is a type parameter; serde's encoders and decoders are parameters.
pub mod RoundTrip
mod Tests
use avalanche_ops.Io.{Error, Files, load_file, invalid_input_error, Disk, encoded_as, save_file}
use avalanche_ops.Prelude.{List, Option, String, ℕ, ◌∷◌, []}
use avalanche_ops.Outcome.{Attempt, Outcome, ◌>>=◌, attempt_or, ok}
use avalanche_ops.Text.{format}

pub record LockedAmount : Type 0 where
  pub amount : Option ℕ
  pub locktime : Option ℕ

pub record Allocation : Type 0 where
  pub avax_addr : Option String
  pub eth_addr : Option String
  pub initial_amount : Option ℕ
  pub unlock_schedule : Option (List LockedAmount)

pub record Staker : Type 0 where
  pub node_id : Option String
  pub reward_address : Option String
  pub delegation_fee : Option ℕ

-- The program's form, over the type of the C-chain's genesis.
pub record Genesis (C : Type 0) : Type 0 where
  pub network_id : ℕ
  pub allocations : Option (List Allocation)
  pub start_time : Option ℕ
  pub initial_stake_duration : Option ℕ
  pub initial_stake_duration_offset : Option ℕ
  pub initial_staked_funds : Option (List String)
  pub initial_stakers : Option (List Staker)
  pub c_chain_genesis : C
  pub message : Option String

-- `GenesisFile`, the form in the file, has the C-chain's genesis as a text.
abbrev pub GenesisFile : Type 0
GenesisFile = Genesis String

-- The other fields under another C-chain genesis.
abbrev pub with_c_chain : {C D : Type 0} → D → Genesis C → Genesis D
with_c_chain d g = record {
  network_id = g.network_id;
  allocations = g.allocations;
  start_time = g.start_time;
  initial_stake_duration = g.initial_stake_duration;
  initial_stake_duration_offset = g.initial_stake_duration_offset;
  initial_staked_funds = g.initial_staked_funds;
  initial_stakers = g.initial_stakers;
  c_chain_genesis = d;
  message = g.message;
}

-- `Genesis::load`, from the file system and the decoders of the file and of the C-chain's genesis
unfoldable pub load :
    {C : Type 0}
    → Files
    → (from_reader : List ℕ → Attempt GenesisFile) → (from_str : String → Attempt C) → String
    → Outcome Error (Genesis C)
load files from_reader from_str file_path = do
  genesis_file ← load_file files "JSON" from_reader file_path
  c_chain_genesis ←
      attempt_or (λ e. invalid_input_error (format ("invalid JSON: " ∷ e ∷ [])))
        (from_str genesis_file.c_chain_genesis)
  ok (with_c_chain c_chain_genesis genesis_file)

-- The encoded file of `Genesis::sync`.
encoded :
    {C : Type 0}
    → (C → Outcome Error String)
    → (GenesisFile → Attempt (List ℕ))
    → Genesis C
    → Outcome Error (List ℕ)
encoded encode_json to_vec g = do
  c_chain_genesis ← encode_json g.c_chain_genesis
  encoded_as "Config" "JSON" (to_vec (with_c_chain c_chain_genesis g))

-- `Genesis::sync`, from the encoders of the C-chain's genesis and of the file
unfoldable pub sync :
    {C : Type 0}
    → Disk
    → (encode_json : C → Outcome Error String) → (to_vec : GenesisFile → Attempt (List ℕ))
    → Genesis C
    → String
    → Outcome Error Files
unfolding encoded
sync disk encode_json to_vec g file_path = save_file disk file_path (encoded encode_json to_vec g)

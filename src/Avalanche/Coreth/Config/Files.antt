-- ===== src/Avalanche/Coreth/Config/Files.antt =====
-- src/avalanche/coreth/config.rs: `encode_json` and `sync`, over serde's encoders.
use avalanche_ops.Prelude.{String, List, ℕ, ◌∷◌, []}
use avalanche_ops.Outcome.{Outcome, Attempt, attempt_or}
use avalanche_ops.Io.{Error, Files, Disk, save_file, encoded_as, other_error}
use avalanche_ops.Text.{format}
use avalanche_ops.Avalanche.Coreth.Config.{Config}

unfoldable pub encode_json : (to_string : Config → Attempt String) → Config → Outcome Error String
encode_json to_string c =
    attempt_or (λ e. other_error (format ("failed to serialize to JSON " ∷ e ∷ []))) (to_string c)

-- The bytes are JSON, although the error says YAML.
unfoldable pub sync : Disk → (Config → Attempt (List ℕ)) → Config → String → Outcome Error Files
sync disk to_vec c file_path = save_file disk file_path (encoded_as "Config" "YAML" (to_vec c))

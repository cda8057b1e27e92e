-- ===== src/Avalanche/Constants.antt =====
-- src/avalanche/constants.rs: the known networks, as association lists.
use avalanche_ops.Prelude.{Bool, List, String, Option, ℕ, none, ◌∷◌, [], if◌then◌else◌, some}

abbrev pub network_id_to_network_name : List (ℕ × String)
network_id_to_network_name =
    (1, "mainnet")
    ∷ (2, "cascade")
    ∷ (3, "denali")
    ∷ (4, "everest")
    ∷ (5, "fuji")
    ∷ (12345, "local")
    ∷ []

abbrev pub network_name_to_network_id : List (String × ℕ)
network_name_to_network_id =
    ("mainnet", 1)
    ∷ ("cascade", 2)
    ∷ ("denali", 3)
    ∷ ("everest", 4)
    ∷ ("fuji", 5)
    ∷ ("local", 12345)
    ∷ []

abbrev pub network_id_to_hrp : List (ℕ × String)
network_id_to_hrp =
    (1, "avax")
    ∷ (2, "cascade")
    ∷ (3, "denali")
    ∷ (4, "everest")
    ∷ (5, "fuji")
    ∷ (12345, "local")
    ∷ []

abbrev pub fallback_hrp : String
fallback_hrp = "custom"

-- `HashMap::get` of these maps, whose keys are distinct
unfoldable pub get {ℓ κ} : {K : Type ℓ} {V : Type κ} → (K → K → Bool) → K → List (K × V) → Option V
get eq k [] = none
get eq k ((k1, v) ∷ rest) = let later = get eq k rest in if eq k k1 then some v else later

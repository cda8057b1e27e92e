-- ===== src/Avalanche/Node/Files.antt =====
-- src/avalanche/node.rs: the files of a node, and the information that an agent leaves beside it.
use avalanche_ops.Prelude.{String, List, ℕ, ◌≡◌, ◌∷◌, []}
use avalanche_ops.Outcome.{Outcome, ok, Attempt, done, attempt_or}
use avalanche_ops.Io.{
  Error, Files, Disk, Holds, load_file, save_file, encoded_as, other_error, load_file-save_file,
}
use avalanche_ops.Text.{format}
use avalanche_ops.Avalanche.Node.{Node}
use avalanche_ops.Avalanche.Avalanchego.Config as Avalanchego
use avalanche_ops.Avalanche.Coreth.Config as Coreth

-- `Node::encode_yaml`, from serde's encoder
unfoldable pub encode_yaml : (to_string : Node → Attempt String) → Node → Outcome Error String
encode_yaml to_string node =
    attempt_or (λ e. other_error (format ("failed to serialize to YAML " ∷ e ∷ [])))
      (to_string node)

-- `Node::sync` and `Node::load`
unfoldable pub sync : Disk → (Node → Attempt (List ℕ)) → Node → String → Outcome Error Files
sync disk to_vec node file_path = save_file disk file_path (encoded_as "Node" "YAML" (to_vec node))

unfoldable pub load : Files → (List ℕ → Attempt Node) → String → Outcome Error Node
load files from_reader file_path = load_file files "YAML" from_reader file_path

-- `Info`, and `Info::sync`, whose bytes are JSON although its error says YAML
pub record Info : Type 0 where
  pub local_node : Node
  pub avalanchego_config : Avalanchego.Config
  pub coreth_config : Coreth.Config

unfoldable pub sync_info : Disk → (Info → Attempt (List ℕ)) → Info → String → Outcome Error Files
sync_info disk to_vec info file_path =
    save_file disk file_path (encoded_as "Info" "YAML" (to_vec info))

-- If a written file is what is read, and the decoder undoes the encoder on the node, then loading gives
-- the node that was saved.
pub node_load-sync :
    (disk : Disk) (files : Files) (node : Node) (path : String) (d : List ℕ)
    (to_vec : Node → Attempt (List ℕ)) (from_reader : List ℕ → Attempt Node)
    → ((d : List ℕ) (after : Files) → disk.write path d ≡ ok after → Holds after path d)
    → to_vec node ≡ done d
    → from_reader d ≡ done node
    → sync disk to_vec node path ≡ ok files
    → load files from_reader path ≡ ok node
unfolding load sync encoded_as
node_load-sync disk files node path d to_vec from_reader kept enc dec saved =
    let same : save_file disk path (ok d) ≡ ok files = (let g = rw enc at saved in g) in
    load_file-save_file disk files "YAML" path d node from_reader kept same dec

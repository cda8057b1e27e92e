-- ===== src/Spec/Storage.antt =====
-- src/lib.rs: StorageNamespace, the keys of a network's objects in its bucket.
pub mod RoundTrip
mod Tests
use avalanche_ops.Prelude.{Option, none, some, length, String, ◌∷◌, [], List}
use avalanche_ops.Outcome.{Outcome, ok, ◌>>=◌, expect, map_err, err}
use avalanche_ops.Io.{Error, other_error}
use avalanche_ops.Text.{format, decimal}
use avalanche_ops.Avalanche.Node.{Node}
use avalanche_ops.Text.Split.{split, remove_all}

pub data StorageNamespace : Type 0 where
  config_file dev_machine_config_file : String → StorageNamespace
  ec2_access_key_compressed_encrypted genesis_file : String → StorageNamespace
  avalanched_bin avalanche_bin_compressed plugins_dir pki_key_dir : String → StorageNamespace
  discover_provisioning_anchor_nodes_dir : String → StorageNamespace
  discover_provisioning_anchor_node : String → Node → StorageNamespace
  discover_provisioning_non_anchor_nodes_dir : String → StorageNamespace
  discover_provisioning_non_anchor_node : String → Node → StorageNamespace
  discover_bootstrapping_anchor_nodes_dir : String → StorageNamespace
  discover_bootstrapping_anchor_node : String → Node → StorageNamespace
  discover_ready_anchor_nodes_dir : String → StorageNamespace
  discover_ready_anchor_node : String → Node → StorageNamespace
  discover_ready_non_anchor_nodes_dir : String → StorageNamespace
  discover_ready_non_anchor_node : String → Node → StorageNamespace
  backups_dir events_update_artifacts_event : String → StorageNamespace
  events_update_artifacts_install_dir_avalanche_bin_compressed : String → StorageNamespace
  events_update_artifacts_install_dir_plugins_dir : String → StorageNamespace

-- The paths without a node; for the file of a node, the directory it stands in.
unfoldable pub path : StorageNamespace → String
path (config_file id) = format (id ∷ "/avalanche-ops.config.yaml" ∷ [])
path (dev_machine_config_file id) = format (id ∷ "/dev-machine.config.yaml" ∷ [])
path (ec2_access_key_compressed_encrypted id) =
    format (id ∷ "/ec2-access-key.zstd.seal_aes_256.encrypted" ∷ [])
path (genesis_file id) = format (id ∷ "/genesis.json" ∷ [])
path (avalanched_bin id) = format (id ∷ "/install/avalanched" ∷ [])
path (avalanche_bin_compressed id) = format (id ∷ "/install/avalanche.zstd" ∷ [])
path (plugins_dir id) = format (id ∷ "/install/plugins" ∷ [])
path (pki_key_dir id) = format (id ∷ "/pki" ∷ [])
path (discover_provisioning_anchor_nodes_dir id) =
    format (id ∷ "/discover/provisioning-non-anchor-nodes" ∷ [])
path (discover_provisioning_anchor_node id node) =
    format (id ∷ "/discover/provisioning-non-anchor-nodes" ∷ [])
path (discover_provisioning_non_anchor_nodes_dir id) =
    format (id ∷ "/discover/provisioning-non-anchor-nodes" ∷ [])
path (discover_provisioning_non_anchor_node id node) =
    format (id ∷ "/discover/provisioning-non-anchor-nodes" ∷ [])
path (discover_bootstrapping_anchor_nodes_dir id) =
    format (id ∷ "/discover/bootstrapping-anchor-nodes" ∷ [])
path (discover_bootstrapping_anchor_node id node) =
    format (id ∷ "/discover/bootstrapping-anchor-nodes" ∷ [])
path (discover_ready_anchor_nodes_dir id) = format (id ∷ "/discover/ready-anchor-nodes" ∷ [])
path (discover_ready_anchor_node id node) = format (id ∷ "/discover/ready-anchor-nodes" ∷ [])
path (discover_ready_non_anchor_nodes_dir id) =
    format (id ∷ "/discover/ready-non-anchor-nodes" ∷ [])
path (discover_ready_non_anchor_node id node) =
    format (id ∷ "/discover/ready-non-anchor-nodes" ∷ [])
path (backups_dir id) = format (id ∷ "/backups" ∷ [])
path (events_update_artifacts_event id) = format (id ∷ "/events/update-artifacts/event" ∷ [])
path (events_update_artifacts_install_dir_avalanche_bin_compressed id) =
    format (id ∷ "/events/update-artifacts/install/avalanche.zstd" ∷ [])
path (events_update_artifacts_install_dir_plugins_dir id) =
    format (id ∷ "/events/update-artifacts/install/plugins" ∷ [])

module _ (compress_base58 : Node → Outcome Error String) where
  -- the file of a node in a directory, whose name carries the compressed node
  unfoldable pub node_file : String → Node → Outcome Error String
  node_file dir node = do
    compressed_id ← expect (compress_base58 node)
    ok (format (dir ∷ "/" ∷ node.machine_id ∷ "_" ∷ compressed_id ∷ ".yaml" ∷ []))

  -- `StorageNamespace::encode`, which panics when a node does not compress
  unfoldable pub encode : StorageNamespace → Outcome Error String
  unfolding path node_file
  encode (discover_provisioning_anchor_node id node) =
      node_file (path (discover_provisioning_anchor_node id node)) node
  encode (discover_provisioning_non_anchor_node id node) =
      node_file (path (discover_provisioning_non_anchor_node id node)) node
  encode (discover_bootstrapping_anchor_node id node) =
      node_file (path (discover_bootstrapping_anchor_node id node)) node
  encode (discover_ready_anchor_node id node) =
      node_file (path (discover_ready_anchor_node id node)) node
  encode (discover_ready_non_anchor_node id node) =
      node_file (path (discover_ready_non_anchor_node id node)) node
  encode namespace = ok (path namespace)

module _ (decompress_base58 : String → Outcome Error Node) (debug : Error → String)
    (storage_path : String) where
  -- A file name is the id of a machine and the compressed node; the extension is taken off.
  unfoldable pub node_of_splits : String → List String → Outcome Error Node
  unfolding remove_all
  node_of_splits file_name (machine_id ∷ compressed_id ∷ []) =
      map_err (λ e. other_error (format ("failed node::Node::decompress_base64 " ∷ debug e ∷ [])))
        (decompress_base58 (remove_all ".yaml" compressed_id))
  node_of_splits file_name splits = err (
      other_error (
        format (
          "file name "
          ∷ file_name
          ∷ " of storage_path "
          ∷ storage_path
          ∷ " expected two splits for '_' (got "
          ∷ decimal (length splits)
          ∷ ")"
          ∷ [])))

  -- `StorageNamespace::parse_node_from_path`, from `Path::file_name` and `Node::decompress_base58`
  unfoldable pub parse_node_from_path : Option String → Outcome Error Node
  unfolding split node_of_splits
  parse_node_from_path none = err (other_error "failed Path.file_name (None)")
  parse_node_from_path (some file_name) = node_of_splits file_name (split b'_' file_name)

-- ===== src/Spec/Storage/RoundTrip.antt =====
-- The nodes that discovery finds: from a node to the name of its object, and back.
use avalanche_ops.Prelude.{String, some, ◌∷◌, [], ◌≡◌, refl, false}
use avalanche_ops.Outcome.{ok}
use avalanche_ops.Io.{Error}
use avalanche_ops.Text.{format}
use avalanche_ops.Avalanche.Node.{Node}
use avalanche_ops.Avalanche.Node.Compressed.{
  Encoding, IsFaithful, compress_base58, decompress_base58, decompress-compress,
}
use avalanche_ops.Spec.Storage.{
  StorageNamespace, discover_provisioning_anchor_node, discover_provisioning_non_anchor_node,
  discover_bootstrapping_anchor_node, discover_ready_anchor_node, discover_ready_non_anchor_node,
  path, encode, node_file, parse_node_from_path, node_of_splits,
}
use avalanche_ops.Text.Split.{split}
use avalanche_ops.Text.Split.Laws.{
  has_char, split-none, split-separator, has_char-append, remove_all-append,
}

-- the objects that stand for a node
pub data IsNodeFile (node : Node) : StorageNamespace → Type 0 where
  provisioning_anchor : (id : String) → IsNodeFile node (discover_provisioning_anchor_node id node)
  provisioning_non_anchor :
      (id : String) → IsNodeFile node (discover_provisioning_non_anchor_node id node)
  bootstrapping_anchor :
      (id : String) → IsNodeFile node (discover_bootstrapping_anchor_node id node)
  ready_anchor : (id : String) → IsNodeFile node (discover_ready_anchor_node id node)
  ready_non_anchor : (id : String) → IsNodeFile node (discover_ready_non_anchor_node id node)

abbrev pub file_name : Node → String → String
file_name node compressed_id = format (node.machine_id ∷ "_" ∷ compressed_id ∷ ".yaml" ∷ [])

split-file_name :
    (node : Node) (compressed_id : String)
    → has_char b'_' node.machine_id ≡ false
    → has_char b'_' compressed_id ≡ false
    → split b'_' (file_name node compressed_id)
      ≡ node.machine_id ∷ format (compressed_id ∷ ".yaml" ∷ []) ∷ []
split-file_name node compressed_id h k =
    rw
      (
        split-separator b'_' node.machine_id (format (compressed_id ∷ ".yaml" ∷ [])) "_" h refl,
        split-none b'_' (format (compressed_id ∷ ".yaml" ∷ []))
            (has_char-append b'_' compressed_id ".yaml" k refl),
      )
      refl

encode-file :
    (encoding : Encoding) (namespace : StorageNamespace) (node : Node) (compressed_id : String)
    → IsNodeFile node namespace
    → compress_base58 encoding node ≡ ok compressed_id
    → encode (compress_base58 encoding) namespace
      ≡ ok (format (path namespace ∷ "/" ∷ file_name node compressed_id ∷ []))
unfolding encode node_file
encode-file encoding _ node compressed_id (provisioning_anchor id) h = rw h refl
encode-file encoding _ node compressed_id (provisioning_non_anchor id) h = rw h refl
encode-file encoding _ node compressed_id (bootstrapping_anchor id) h = rw h refl
encode-file encoding _ node compressed_id (ready_anchor id) h = rw h refl
encode-file encoding _ node compressed_id (ready_non_anchor id) h = rw h refl

-- If the libraries undo themselves, the id of the machine has no underscore, and the compressed node
-- has neither an underscore nor a dot, then the key of a node's object is its directory, a slash and a
-- file name from which the node is read back.
pub parse_node_from_path-encode :
    (encoding : Encoding) (debug : Error → String) (storage_path : String)
    (namespace : StorageNamespace) (node : Node) (compressed_id : String)
    → IsFaithful encoding node
    → IsNodeFile node namespace
    → compress_base58 encoding node ≡ ok compressed_id
    → has_char b'_' node.machine_id ≡ false
    → has_char b'_' compressed_id ≡ false
    → has_char b'.' compressed_id ≡ false
    → (encode (compress_base58 encoding) namespace
        ≡ ok (format (path namespace ∷ "/" ∷ file_name node compressed_id ∷ [])))
      × (parse_node_from_path
            (decompress_base58 encoding)
            debug
            storage_path
            (some (file_name node compressed_id))
          ≡ ok node)
unfolding parse_node_from_path node_of_splits
parse_node_from_path-encode encoding debug storage_path namespace node compressed_id faithful
      is_file h machine id dot =
    (
      encode-file encoding namespace node compressed_id is_file h,
      rw
          (
            split-file_name node compressed_id machine id,
            remove_all-append compressed_id dot,
            decompress-compress encoding node compressed_id faithful h,
          )
          refl,
    )

-- ===== src/Spec/Storage/Tests.antt =====
-- The key of an anchor node that is ready, with libraries that know this node only.
use avalanche_ops.Prelude.{
  String, Bool, false, none, some, ℕ, List, [], ◌∷◌, ◌≡◌, ◌==◌, refl, if◌then◌else◌, Bool-cases,
  inl, inr, arith,
}
use avalanche_ops.Outcome.{ok, done}
use avalanche_ops.Text.Bytes.{as_bytes, encode_utf8}
use avalanche_ops.Avalanche.Node.{Node}
use avalanche_ops.Avalanche.Node.Compressed.{
  Encoding, IsFaithful, compress_base58, decompress_base58,
}
use avalanche_ops.Utils.Compress.{pack}
use avalanche_ops.Utils.Compress.Tests.{stored, stored-IsLossless}
use avalanche_ops.Io.{encoded_as}
use avalanche_ops.Spec.Storage.{discover_ready_anchor_node, encode, parse_node_from_path, path}
use avalanche_ops.Spec.Storage.RoundTrip.{ready_anchor, parse_node_from_path-encode}

abbrev node : Node
node = record {
  kind = "anchor";
  machine_id = "i-123";
  node_id = "NodeID-7X";
  public_ip = "1.2.3.4";
  http_endpoint = "http://1.2.3.4:9650";
}

abbrev is_x : List ℕ → Bool
is_x [] = false
is_x (n ∷ []) = n == b'x'
is_x (n ∷ m ∷ d) = false

abbrev encoding : Encoding
encoding = record {
  codecs = stored;
  to_vec = λ n. done (b'x' ∷ []);
  from_slice = λ d. done node;
  from_utf8 = λ d. if is_x d then some "x" else none;
}

as_bytes-from_utf8 : (d : List ℕ) (s : String) → encoding.from_utf8 d ≡ some s → as_bytes s ≡ d
unfolding as_bytes encode_utf8
as_bytes-from_utf8 [] s h = cc
as_bytes-from_utf8 (n ∷ m ∷ d) s h = cc
as_bytes-from_utf8 (n ∷ []) s h = elim (Bool-cases (n == b'x')) [
  | inl e ↦
      let x : "x" ≡ s = (let g = rw e at h in cc) in
      let same : n ≡ b'x' = ground arith in rw (← x, same) refl
  | inr e ↦ let g = rw e at h in cc
]

encoding-IsFaithful : IsFaithful encoding node
encoding-IsFaithful = record {
  lossless = stored-IsLossless;
  yaml = λ d h. refl;
  utf8 = as_bytes-from_utf8;
}

parse_node_from_path-encode_example :
    (encode (compress_base58 encoding) (discover_ready_anchor_node "net" node)
      ≡ ok "net/discover/ready-anchor-nodes/i-123_x.yaml")
    × (parse_node_from_path
          (decompress_base58 encoding)
          (λ e. e.message)
          "key"
          (some "i-123_x.yaml")
        ≡ ok node)
unfolding compress_base58 pack encoded_as path
parse_node_from_path-encode_example =
    parse_node_from_path-encode encoding (λ e. e.message) "key"
      (discover_ready_anchor_node "net" node) node "x" encoding-IsFaithful (ready_anchor "net") refl
      refl refl refl

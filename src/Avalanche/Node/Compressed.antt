-- ===== src/Avalanche/Node/Compressed.antt =====
-- src/avalanche/node.rs: a node as a short string, for the names of objects.
use avalanche_ops.Prelude.{String, List, Option, some, ℕ, ◌≡◌, pos, ◌∷◌, [], refl}
use avalanche_ops.Outcome.{
  Outcome, ok, Attempt, done, attempt_or, unwrap, ◌>>=◌, >>=-eq-ok, unwrap-eq, attempt_or-eq,
}
use avalanche_ops.Io.{Error, invalid_input_error, encoded_as}
use avalanche_ops.Text.{format}
use avalanche_ops.Text.Bytes.{as_bytes}
use avalanche_ops.Utils.Compress.{Codecs, pack, unpack, zstd_base58, unzstd_base58}
use avalanche_ops.Utils.Compress.RoundTrip.{IsLossless, unpack-pack}
use avalanche_ops.Avalanche.Node.{Node}

-- The libraries: serde's YAML, and the strings that bytes in UTF-8 give.
pub record Encoding : Type 0 where
  pub codecs : Codecs
  pub to_vec : Node → Attempt (List ℕ)
  pub from_slice : List ℕ → Attempt Node
  pub from_utf8 : List ℕ → Option String

module _ (encoding : Encoding) where
  -- `Node::compress_base58`
  unfoldable pub compress_base58 : Node → Outcome Error String
  compress_base58 node = do
    d ← encoded_as "Node" "YAML" (encoding.to_vec node)
    compressed ← pack encoding.codecs d (zstd_base58 (pos 3))
    unwrap (encoding.from_utf8 compressed)

  -- `Node::decompress_base58`
  unfoldable pub decompress_base58 : String → Outcome Error Node
  decompress_base58 d = do
    decompressed ← unpack encoding.codecs (as_bytes d) unzstd_base58
    attempt_or (λ e. invalid_input_error (format ("invalid YAML: " ∷ e ∷ [])))
        (encoding.from_slice decompressed)

-- Each library undoes itself, YAML on the node in question.
pub record IsFaithful (encoding : Encoding) (node : Node) : Type 0 where
  pub lossless : IsLossless encoding.codecs
  pub yaml : (d : List ℕ) → encoding.to_vec node ≡ done d → encoding.from_slice d ≡ done node
  pub utf8 : (d : List ℕ) (s : String) → encoding.from_utf8 d ≡ some s → as_bytes s ≡ d

pub decompress-compress :
    (encoding : Encoding) (node : Node) (compressed_id : String)
    → IsFaithful encoding node
    → compress_base58 encoding node ≡ ok compressed_id
    → decompress_base58 encoding compressed_id ≡ ok node
unfolding compress_base58 decompress_base58 encoded_as
decompress-compress encoding node compressed_id faithful h =
    let (d, encoded, packed_from) =
      >>=-eq-ok (encoded_as "Node" "YAML" (encoding.to_vec node))
        (λ d. pack encoding.codecs d (zstd_base58 (pos 3)) >>= λ c. unwrap (encoding.from_utf8 c))
        h in
    let (packed, pack_ok, unwrapped) =
      >>=-eq-ok (pack encoding.codecs d (zstd_base58 (pos 3))) (λ c. unwrap (encoding.from_utf8 c))
        packed_from in
    rw
      (
        faithful.utf8 packed compressed_id (unwrap-eq _ unwrapped),
        unpack-pack encoding.codecs d packed (zstd_base58 (pos 3)) faithful.lossless pack_ok,
        faithful.yaml d (attempt_or-eq _ _ encoded),
      )
      refl

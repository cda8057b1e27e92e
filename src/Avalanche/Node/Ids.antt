-- ===== src/Avalanche/Node/Ids.antt =====
-- src/avalanche/node.rs and src/avalanche/key.rs: the id of a node, from its certificate.
use avalanche_ops.Prelude.{String, List, Option, ℕ, Bool, ◌≡◌, ◌∷◌, [], ◌++◌, length, not, ◌==◌}
use avalanche_ops.Outcome.{Outcome, ok, done, unwrap, refuse_if, ◌>>=◌, ◌>>◌}
use avalanche_ops.Io.{Error, not_found, invalid_data}
use avalanche_ops.Text.{format, decimal}
use avalanche_ops.Avalanche.Formatting.{
  Codecs, encode_cb58_with_checksum, decode_cb58_with_checksum, checksum_of,
}
use avalanche_ops.Avalanche.Formatting.RoundTrip.{decode_cb58-encode_cb58}

module _ (codecs : Codecs) (ripemd160 : List ℕ → List ℕ) where
  unfoldable pub bytes_to_short_address_bytes : List ℕ → Outcome Error (List ℕ)
  bytes_to_short_address_bytes d = do
    refuse_if (not (length (ripemd160 (codecs.sha256 d)) == 20)) (record {
      kind = invalid_data;
      message = format (
          "ripemd160 of sha256 must be 20-byte, got "
          ∷ decimal (length (ripemd160 (codecs.sha256 d)))
          ∷ []);
    })
    ok (ripemd160 (codecs.sha256 d))

  unfoldable pub bytes_to_short_address : List ℕ → Outcome Error String
  bytes_to_short_address d = do
    short_address_bytes ← bytes_to_short_address_bytes d
    ok (encode_cb58_with_checksum codecs short_address_bytes)

  unfoldable pub encode_id : List ℕ → Outcome Error String
  encode_id cert_raw = do
    short_address ← bytes_to_short_address cert_raw
    ok (format ("NodeID-" ∷ short_address ∷ []))

  -- `load_id`; `to_der` stands for `X509::from_pem` with `to_der`. What the library refuses panics.
  unfoldable pub load_id :
      (exists : String → Bool)
      → (read : String → Option (List ℕ)) → (to_der : List ℕ → Option (List ℕ)) → String
      → Outcome Error String
  load_id exists read to_der cert_path = do
    refuse_if (not (exists cert_path)) (record {
      kind = not_found;
      message = format ("cert path " ∷ cert_path ∷ " does not exists" ∷ []);
    })
    pub_key_contents ← unwrap (read cert_path)
    pub_key_der ← unwrap (to_der pub_key_contents)
    encode_id pub_key_der

  -- The address of bytes decodes to the 20 bytes of their digest.
  pub decode-bytes_to_short_address :
      (d : List ℕ) (s : String)
      → length (ripemd160 (codecs.sha256 d)) ≡ 20
      → length (codecs.sha256 (ripemd160 (codecs.sha256 d))) ≡ 32
      → codecs.base58_from (
          codecs.encode_slice
            (ripemd160 (codecs.sha256 d) ++ checksum_of codecs (ripemd160 (codecs.sha256 d))))
        ≡ done (ripemd160 (codecs.sha256 d) ++ checksum_of codecs (ripemd160 (codecs.sha256 d)))
      → bytes_to_short_address d ≡ ok s
      → decode_cb58_with_checksum codecs s ≡ ok (ripemd160 (codecs.sha256 d))
  unfolding bytes_to_short_address bytes_to_short_address_bytes
  decode-bytes_to_short_address d s twenty long undone h =
      let e : encode_cb58_with_checksum codecs (ripemd160 (codecs.sha256 d)) ≡ s =
        (let g = rw twenty at h in cc) in
      rw (← e) (decode_cb58-encode_cb58 codecs (ripemd160 (codecs.sha256 d)) long undone)

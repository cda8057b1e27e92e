-- ===== src/Avalanche/Formatting.antt =====
-- src/avalanche/formatting.rs: CB58, which is base58 over the bytes and a checksum, and addresses.
-- The base58 and bech32 codecs and SHA-256 are not part of the repository: they are a parameter.
pub mod RoundTrip
mod Tests
use avalanche_ops.Io.{Error, invalid_input_error}
use avalanche_ops.Prelude.{
  List, String, ℕ, Bool, drop, ◌++◌, length, ◌-◌, ◌==◌, leb, ◌&&◌, take, ◌∷◌, [], true, not,
}
use avalanche_ops.Outcome.{Attempt, Outcome, ◌>>=◌, ◌>>◌, assert, attempt_or, refuse_if, ok}
use avalanche_ops.Text.{format}

abbrev pub checksum_length : ℕ
checksum_length = 4

-- `openssl::sha`, `bitcoin::util::base58` and `bech32`; `bytes_debug` is `{:?}` of a byte string.
pub record Codecs : Type 0 where
  pub sha256 : List ℕ → List ℕ
  pub encode_slice : List ℕ → String
  pub base58_from : String → Attempt (List ℕ)
  pub bech32_encode : (hrp : String) → List ℕ → Attempt String
  pub bytes_debug : List ℕ → String

-- `va.iter().zip(vb).all(|(a, b)| *a == *b)`
unfoldable pub all_eq : List ℕ → List ℕ → Bool
all_eq (a ∷ va) (b ∷ vb) = (a == b) && all_eq va vb
all_eq _ _ = true

unfoldable pub eq_vectors : List ℕ → List ℕ → Bool
unfolding all_eq
eq_vectors va vb = (length va == length vb) && all_eq va vb

module _ (codecs : Codecs) where
  -- The last bytes of the SHA-256, which has 32 of them.
  unfoldable pub checksum_of : List ℕ → List ℕ
  checksum_of d = drop (length (codecs.sha256 d) - checksum_length) (codecs.sha256 d)

  unfoldable pub encode_cb58_with_checksum : List ℕ → String
  encode_cb58_with_checksum d = codecs.encode_slice (d ++ checksum_of d)

  -- The comparison of the decoder.
  unfoldable pub check : (checksum orig : List ℕ) → Outcome Error (List ℕ)
  check checksum orig = do
    refuse_if (not (eq_vectors checksum (checksum_of orig))) (
        invalid_input_error (
          format (
            "invalid checksum "
            ∷ codecs.bytes_debug checksum
            ∷ " != "
            ∷ codecs.bytes_debug (checksum_of orig)
            ∷ [])))
    ok orig

  -- The part of the decoder after base58; the slices panic below four bytes.
  unfoldable pub verify : List ℕ → Outcome Error (List ℕ)
  verify decoded = do
    assert (leb checksum_length (length decoded))
    check (drop (length decoded - checksum_length) decoded)
        (take (length decoded - checksum_length) decoded)

  unfoldable pub decode_cb58_with_checksum : String → Outcome Error (List ℕ)
  decode_cb58_with_checksum d = do
    decoded ←
        attempt_or (λ e. invalid_input_error (format ("failed to decode base58 (" ∷ e ∷ ")" ∷ [])))
          (codecs.base58_from d)
    verify decoded

  -- `formatting::address`; the assertion panics.
  unfoldable pub address : (chain_id_alias hrp : String) → List ℕ → Outcome Error String
  address chain_id_alias hrp d = do
    assert (length d == 20)
    encoded ←
        attempt_or (λ e. invalid_input_error (format ("failed bech32::encode " ∷ e ∷ [])))
          (codecs.bech32_encode hrp d)
    ok (format (chain_id_alias ∷ "-" ∷ encoded ∷ []))

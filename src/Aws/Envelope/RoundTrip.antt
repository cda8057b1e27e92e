-- ===== src/Aws/Envelope/RoundTrip.antt =====
-- Sealing, then unsealing; what unsealing can answer.
use avalanche_ops.Prelude.{ℕ, ◌<◌, ◌≡◌, ◌≢◌, refl, Option, none, some, String, List, length, arith}
use avalanche_ops.Outcome.{ok, panic, >>=-ne-panic}
use avalanche_ops.Aws.Kms.{
  Dek, aes_256, symmetric_default, generate_data_key, decrypt, Manager, EncryptionAlgorithmSpec,
}
use avalanche_ops.Outcome.{Attempt, done, failed}
use avalanche_ops.Aws.Envelope.{
  Envelope, Ring, attempt, configured, seal_aes_256, unseal_aes_256, align, parse, aad_tag,
  dek_aes_256_length, nonce_len, read_or,
}
use avalanche_ops.Aws.Envelope.Layout.{parse-align}

module _ {SafeKey : Type 0} (ring : Ring SafeKey) where
  -- If KMS answers with a 32-byte data key whose ciphertext is shorter than 65536 bytes and decrypts to
  -- its plaintext, the nonce has 12 bytes, and the cipher opens what it sealed under that key, nonce
  -- and tag, then sealing returns bytes that unsealing turns back into the data.
  pub unseal-seal :
      (env : Envelope) (kms : Manager) (key_id : String) (d nonce cipher : List ℕ) (dek : Dek)
      (key : SafeKey)
      → env.aws_kms_manager ≡ some kms
      → env.aws_kms_key_id ≡ some key_id
      → generate_data_key kms key_id (some aes_256) ≡ ok dek
      → decrypt kms key_id (some symmetric_default) dek.ciphertext ≡ ok dek.plaintext
      → length dek.plaintext ≡ dek_aes_256_length
      → length dek.ciphertext < 65536
      → length nonce ≡ nonce_len
      → ring.unbound_key dek.plaintext ≡ done key
      → ring.seal_in_place_append_tag key nonce aad_tag d ≡ done cipher
      → ring.open_in_place key nonce aad_tag cipher ≡ done d
      → (e : List ℕ) × (seal_aes_256 ring env (done nonce) d ≡ ok e)
        × (unseal_aes_256 ring env e ≡ ok d)
  unfolding seal_aes_256 unseal_aes_256
  unseal-seal env kms key_id d nonce cipher dek key m i g c l s n u seal open_ = (
    align nonce dek.ciphertext cipher,
    rw (m, i, g, l, u, seal) refl,
    rw (m, i, parse-align ring nonce dek.ciphertext cipher n s, c, u, open_) refl,
  )

  read_or-ne-panic : {A : Type 0} (m : String) (o : Option A) → read_or ring m o ≢ panic
  read_or-ne-panic m none = cc
  read_or-ne-panic m (some a) = cc

  parse-ne-panic : (d : List ℕ) → parse ring d ≢ panic
  unfolding parse
  parse-ne-panic d = ground arith

attempt-ne-panic : {A : Type 0} (m : String) (a : Attempt A) → attempt m a ≢ panic
attempt-ne-panic m (done a) = cc
attempt-ne-panic m (failed e) = cc

decrypt-ne-panic :
    (kms : Manager) (key_id : String) (spec : Option EncryptionAlgorithmSpec) (c : List ℕ)
    → decrypt kms key_id spec c ≢ panic
unfolding decrypt
decrypt-ne-panic kms key_id spec c = ground arith

configured-ne-panic : (m : Option Manager) (i : Option String) → configured m i ≢ panic
unfolding configured
configured-ne-panic m i = ground arith

module _ {SafeKey : Type 0} (ring : Ring SafeKey) where
  -- Whatever the bytes, unsealing returns the data or an error: it does not panic.
  pub unseal_aes_256-ne-panic : (env : Envelope) (d : List ℕ) → unseal_aes_256 ring env d ≢ panic
  unfolding unseal_aes_256
  unseal_aes_256-ne-panic env d =
      >>=-ne-panic _ _ (configured-ne-panic env.aws_kms_manager env.aws_kms_key_id) λ found.
        >>=-ne-panic _ _ (parse-ne-panic ring d) λ parts.
          >>=-ne-panic _ _ (decrypt-ne-panic found.0 found.1 (some symmetric_default) parts.1)
            λ plain.
              >>=-ne-panic _ _ (attempt-ne-panic _ (ring.unbound_key plain))
                λ key. attempt-ne-panic _ (ring.open_in_place key parts.0 aad_tag parts.2)

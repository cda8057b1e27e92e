-- ===== src/Aws/Envelope.antt =====
-- src/aws/envelope.rs: envelope encryption with a KMS data key and AES-256-GCM.
-- A byte is a number below 256. `ring` is not part of the repository: its AEAD and its random bytes
-- are parameters. Writing to a `Vec<u8>` cannot fail, so those error branches have no counterpart.
pub mod Layout
pub mod RoundTrip
mod Tests
use avalanche_ops.Prelude.{
  ℕ, ◌+◌, ◌*◌, ◌/◌, ◌%◌, String, not, ◌||◌, Option, none, some, List, [], ◌∷◌, ◌++◌, length, take,
  drop, ltb, ◌==◌, if◌then◌else◌, false,
}
use avalanche_ops.Outcome.{Attempt, done, failed, Outcome, ok, err, ◌>>=◌, ◌>>◌, refuse_if}
use avalanche_ops.Text.{format, decimal}
use avalanche_ops.Aws.Error.{Error, other}
use avalanche_ops.Aws.Kms
use avalanche_ops.Aws.Kms.{Dek, aes_256, symmetric_default, generate_data_key, decrypt}

abbrev pub nonce_len : ℕ
nonce_len = 12

abbrev pub dek_aes_256_length : ℕ
dek_aes_256_length = 32

abbrev pub aad_tag : String
aad_tag = "avalanche-ops-envelope-encryption"

pub record Envelope : Type 0 where
  pub aws_kms_manager : Option Kms.Manager
  pub aws_kms_key_id : Option String

-- `ring::aead` with AES_256_GCM, `ring::rand`, and the `Debug` text of a short read.
pub record Ring (SafeKey : Type 0) : Type 0 where
  pub unbound_key : List ℕ → Attempt SafeKey
  pub seal_in_place_append_tag :
      SafeKey → (nonce : List ℕ) → (aad : String) → List ℕ → Attempt (List ℕ)
  pub open_in_place : SafeKey → (nonce : List ℕ) → (aad : String) → List ℕ → Attempt (List ℕ)
  pub eof : String

-- `Err(Other { message: format!("{} ({:?})", …), is_retryable: false })`
abbrev pub attempt : {A : Type 0} → String → Attempt A → Outcome Error A
attempt message (done a) = ok a
attempt message (failed debug) = err (other (format (message ∷ " (" ∷ debug ∷ ")" ∷ [])) false)

configured : Option Kms.Manager → Option String → Outcome Error (Kms.Manager × String)
configured (some kms) (some key_id) = ok (kms, key_id)
configured _ _ = err (other "Envelope.aws_kms_manager and aws_kms_key_id not found" false)

-- `n as u16`, in the two bytes of `write_u16::<LittleEndian>`
unfoldable pub u16_le : ℕ → List ℕ
u16_le n = (n % 65536 % 256) ∷ (n % 65536 / 256) ∷ []

-- `read_exact` of `n` bytes: the bytes and what is left of the cursor
unfoldable pub read_exact : ℕ → List ℕ → Option (List ℕ × List ℕ)
read_exact n d = if ltb (length d) n then none else some (take n d, drop n d)

-- `read_u16::<LittleEndian>`
unfoldable pub read_u16 : List ℕ → Option (ℕ × List ℕ)
read_u16 (low ∷ high ∷ rest) = some (low + high * 256, rest)
read_u16 d = none

-- The bytes in order: the two lengths, the nonce, the data key's ciphertext, the data's ciphertext.
unfoldable pub align : (nonce dek_ciphertext cipher : List ℕ) → List ℕ
align nonce dek_ciphertext cipher =
    u16_le nonce_len ++ (u16_le (length dek_ciphertext) ++ (nonce ++ (dek_ciphertext ++ cipher)))

abbrev dek_length_error : ℕ → Error
dek_length_error n =
    other
      (format (
        "DEK.plaintext for AES_256 must be "
        ∷ decimal dek_aes_256_length
        ∷ "-byte, got "
        ∷ decimal n
        ∷ "-byte"
        ∷ []))
      false

abbrev nonce_len_error : ℕ → Error
nonce_len_error n =
    other (format ("nonce_len " ∷ decimal n ∷ " != NONCE_LEN " ∷ decimal nonce_len ∷ [])) false

abbrev dek_ciphertext_len_error : ℕ → ℕ → Error
dek_ciphertext_len_error n m =
    other (format ("invalid DEK ciphertext len " ∷ decimal n ∷ " > cipher.len " ∷ decimal m ∷ []))
      false

module _ {SafeKey : Type 0} (ring : Ring SafeKey) where
  abbrev read_or : {A : Type 0} → String → Option A → Outcome Error A
  read_or message none = attempt message (failed ring.eof)
  read_or message (some a) = ok a

  -- `Envelope::seal_aes_256`; `fill` is what `SystemRandom::fill` answers for the nonce.
  unfoldable pub seal_aes_256 : Envelope → Attempt (List ℕ) → List ℕ → Outcome Error (List ℕ)
  unfolding configured
  seal_aes_256 env fill d = do
    found ← configured env.aws_kms_manager env.aws_kms_key_id
    dek ← generate_data_key found.0 found.1 (some aes_256)
    refuse_if (not (length dek.plaintext == dek_aes_256_length))
        (dek_length_error (length dek.plaintext))
    nonce ← attempt "failed to generate ring.random for nonce" fill
    key ← attempt "failed to create UnboundKey" (ring.unbound_key dek.plaintext)
    cipher ← attempt "failed to seal" (ring.seal_in_place_append_tag key nonce aad_tag d)
    ok (align nonce dek.ciphertext cipher)

  -- The part of `unseal_aes_256` that takes the bytes apart: the nonce, the data key's ciphertext
  -- and the data's ciphertext.
  unfoldable pub parse : List ℕ → Outcome Error (List ℕ × List ℕ × List ℕ)
  parse d = do
    first ← read_or "failed to read_u16 for nonce_len" (read_u16 d)
    refuse_if (not (first.0 == nonce_len)) (nonce_len_error first.0)
    second ← read_or "failed to read_u16 for dek_ciphertext_len" (read_u16 first.1)
    refuse_if (ltb (length d) second.0) (dek_ciphertext_len_error second.0 (length d))
    nonce ← read_or "failed to read_exact for nonce_bytes" (read_exact nonce_len second.1)
    dek ← read_or "failed to read_exact for DEK.ciphertext" (read_exact second.0 nonce.1)
    ok (nonce.0, dek.0, dek.1)

  -- `Envelope::unseal_aes_256`
  unfoldable pub unseal_aes_256 : Envelope → List ℕ → Outcome Error (List ℕ)
  unfolding configured
  unseal_aes_256 env d = do
    found ← configured env.aws_kms_manager env.aws_kms_key_id
    parts ← parse d
    dek_plain ← decrypt found.0 found.1 (some symmetric_default) parts.1
    key ← attempt "failed to create UnboundKey" (ring.unbound_key dek_plain)
    attempt "failed to open_in_place ciphertext" (ring.open_in_place key parts.0 aad_tag parts.2)

-- ===== src/Aws/Kms.antt =====
-- src/aws/kms.rs: data keys, encryption and decryption by a customer master key.
-- The SDK's client is a parameter: a function for each request, from its arguments to its answer.
use avalanche_ops.Prelude.{
  ℕ, String, Bool, true, false, ◌||◌, Option, none, some, List, unwrap_or, if◌then◌else◌,
}
use avalanche_ops.Outcome.{Outcome, ok, err, ◌>>=◌, unwrap}
use avalanche_ops.Text.{contains}
use avalanche_ops.Aws.Error.{Error, api, other}
use avalanche_ops.Aws.Sdk.{
  SdkError, service_error, is_error_retryable, Answer, success, failure, api_failure,
}

-- The kinds of service error that the source tells apart.
pub data ErrorKind : Type 0 where
  dependency_timeout kms_internal key_unavailable not_found unhandled : ErrorKind

pub data DataKeySpec : Type 0 where
  aes_256 aes_128 : DataKeySpec

pub data EncryptionAlgorithmSpec : Type 0 where
  symmetric_default rsaes_oaep_sha_1 rsaes_oaep_sha_256 : EncryptionAlgorithmSpec

pub record Dek : Type 0 where
  pub ciphertext : List ℕ
  pub plaintext : List ℕ

pub record Key : Type 0 where
  pub id : String
  pub arn : String

-- The responses, with the fields that the source reads.
pub record KeyMetadata : Type 0 where
  pub key_id : Option String
  pub arn : Option String

pub record DataKeyResponse : Type 0 where
  pub ciphertext_blob : Option (List ℕ)
  pub plaintext : Option (List ℕ)

-- The client that the manager holds.
pub record Manager : Type 0 where
  pub create_key_cli : String → Answer ErrorKind (Option KeyMetadata)
  pub schedule_key_deletion_cli : (key_id : String) (days : ℕ) → Answer ErrorKind (Unit {0})
  pub encrypt_cli : String → EncryptionAlgorithmSpec → List ℕ → Answer ErrorKind (Option (List ℕ))
  pub decrypt_cli : String → EncryptionAlgorithmSpec → List ℕ → Answer ErrorKind (Option (List ℕ))
  pub generate_data_key_cli : String → DataKeySpec → Answer ErrorKind DataKeyResponse

unfoldable pub is_error_retryable_create_key : SdkError ErrorKind → Bool
is_error_retryable_create_key (service_error dependency_timeout debug) = true
is_error_retryable_create_key (service_error kms_internal debug) = true
is_error_retryable_create_key e = false

unfoldable pub is_error_retryable_generate_data_key : SdkError ErrorKind → Bool
is_error_retryable_generate_data_key (service_error dependency_timeout debug) = true
is_error_retryable_generate_data_key (service_error kms_internal debug) = true
is_error_retryable_generate_data_key (service_error key_unavailable debug) = true
is_error_retryable_generate_data_key e = false

unfoldable pub is_error_retryable_encrypt : SdkError ErrorKind → Bool
is_error_retryable_encrypt (service_error dependency_timeout debug) = true
is_error_retryable_encrypt (service_error kms_internal debug) = true
is_error_retryable_encrypt (service_error key_unavailable debug) = true
is_error_retryable_encrypt e = false

unfoldable pub is_error_retryable_decrypt : SdkError ErrorKind → Bool
is_error_retryable_decrypt (service_error dependency_timeout debug) = true
is_error_retryable_decrypt (service_error kms_internal debug) = true
is_error_retryable_decrypt (service_error key_unavailable debug) = true
is_error_retryable_decrypt e = false

unfoldable pub is_error_schedule_key_deletion_does_not_exist : SdkError ErrorKind → Bool
is_error_schedule_key_deletion_does_not_exist (service_error not_found debug) = true
is_error_schedule_key_deletion_does_not_exist e = false

unfoldable pub is_error_schedule_key_deletion_already_scheduled : SdkError ErrorKind → Bool
is_error_schedule_key_deletion_already_scheduled (service_error e debug) =
    contains debug "pending deletion"
is_error_schedule_key_deletion_already_scheduled e = false

created_key : Option KeyMetadata → Outcome Error Key
created_key none = err (other "unexpected empty key metadata" false)
created_key (some meta) = ok (record { id = unwrap_or meta.key_id ""; arn = unwrap_or meta.arn "" })

-- `Manager::create_key`
unfoldable pub create_key : Manager → String → Outcome Error Key
unfolding created_key is_error_retryable_create_key
create_key kms key_desc = elim (kms.create_key_cli key_desc) [
  | success meta ↦ created_key meta
  | failure e debug ↦ api_failure "failed create_key" debug (is_error_retryable_create_key e)
]

-- `Manager::schedule_to_delete`
unfoldable pub schedule_to_delete : Manager → String → Outcome Error (Unit {0})
unfolding is_error_retryable is_error_schedule_key_deletion_does_not_exist
    is_error_schedule_key_deletion_already_scheduled
schedule_to_delete kms key_id = elim (kms.schedule_key_deletion_cli key_id 7) [
  | success _ ↦ ok tt
  | failure e debug ↦
      if is_error_schedule_key_deletion_does_not_exist e
        || is_error_schedule_key_deletion_already_scheduled e
      then ok tt
      else api_failure "failed schedule_key_deletion" debug (is_error_retryable e)
]

blob_or : String → Option (List ℕ) → Outcome Error (List ℕ)
blob_or message none = err (api message false)
blob_or message (some blob) = ok blob

-- `Manager::encrypt`
unfoldable pub encrypt :
    Manager → String → Option EncryptionAlgorithmSpec → List ℕ → Outcome Error (List ℕ)
unfolding blob_or is_error_retryable_encrypt
encrypt kms key_id spec plaintext =
    elim (kms.encrypt_cli key_id (unwrap_or spec symmetric_default) plaintext) [
      | success blob ↦ blob_or "EncryptOutput.ciphertext_blob not foun" blob
      | failure e debug ↦ api_failure "failed encrypt" debug (is_error_retryable_encrypt e)
    ]

-- `Manager::decrypt`
unfoldable pub decrypt :
    Manager → String → Option EncryptionAlgorithmSpec → List ℕ → Outcome Error (List ℕ)
unfolding blob_or is_error_retryable_decrypt
decrypt kms key_id spec ciphertext =
    elim (kms.decrypt_cli key_id (unwrap_or spec symmetric_default) ciphertext) [
      | success blob ↦ blob_or "DecryptOutput.plaintext not foun" blob
      | failure e debug ↦ api_failure "failed decrypt" debug (is_error_retryable_decrypt e)
    ]

data_key : DataKeyResponse → Outcome Error Dek
data_key resp = do
  cipher ← unwrap resp.ciphertext_blob
  plain ← unwrap resp.plaintext
  ok (record { ciphertext = cipher; plaintext = plain })

-- `Manager::generate_data_key`
unfoldable pub generate_data_key : Manager → String → Option DataKeySpec → Outcome Error Dek
unfolding data_key is_error_retryable_generate_data_key
generate_data_key kms key_id spec =
    elim (kms.generate_data_key_cli key_id (unwrap_or spec aes_256)) [
      | success resp ↦ data_key resp
      | failure e debug ↦
          api_failure "failed generate_data_key" debug (is_error_retryable_generate_data_key e)
    ]

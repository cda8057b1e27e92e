-- ===== src/Aws/Envelope/Tests.antt =====
-- Envelope encryption with a toy cipher: the theorems at concrete inputs, and runs of the code.
use avalanche_ops.Prelude.{ℕ, ◌-◌, ◌≡◌, ◌≢◌, refl, some, none, List, [], ◌∷◌, map, replicate, arith}
use avalanche_ops.Outcome.{ok, err, panic}
use avalanche_ops.Aws.Error.{other}
use avalanche_ops.Aws.Sdk.{success}
use avalanche_ops.Aws.Kms
use avalanche_ops.Aws.Kms.{generate_data_key, decrypt}
use avalanche_ops.Outcome.{done}
use avalanche_ops.Aws.Envelope.{
  Envelope, Ring, seal_aes_256, unseal_aes_256, align, parse, u16_le, read_u16, false, length,
}
use avalanche_ops.Aws.Envelope.Layout.{parse-align, align-parse}
use avalanche_ops.Aws.Envelope.RoundTrip.{unseal-seal, unseal_aes_256-ne-panic}

abbrev flip_bytes : List ℕ → List ℕ
flip_bytes = map (λ b. 255 - b)

abbrev toy_ring : Ring (List ℕ)
toy_ring = record {
  unbound_key = λ k. done k;
  seal_in_place_append_tag = λ k n a d. done (flip_bytes d);
  open_in_place = λ k n a d. done (flip_bytes d);
  eof = "eof";
}

abbrev toy_key : List ℕ
toy_key = replicate 32 7

abbrev toy_kms : Kms.Manager
toy_kms = record {
  create_key_cli = λ s. success none;
  schedule_key_deletion_cli = λ k n. success tt;
  encrypt_cli = λ k a d. success (some d);
  decrypt_cli = λ k a d. success (some toy_key);
  generate_data_key_cli =
      λ k s. success (record { ciphertext_blob = some (1 ∷ 2 ∷ 3 ∷ []); plaintext = some toy_key });
}

abbrev toy_dek : Kms.Dek
toy_dek = record { ciphertext = 1 ∷ 2 ∷ 3 ∷ []; plaintext = toy_key }

abbrev toy_env : Envelope
toy_env = record { aws_kms_manager = some toy_kms; aws_kms_key_id = some "key" }

abbrev toy_nonce : List ℕ
toy_nonce = replicate 12 9

sealed_bytes :
    seal_aes_256 toy_ring toy_env (done (replicate 12 9)) (5 ∷ 250 ∷ [])
    ≡ ok (12 ∷ 0 ∷ 3 ∷ 0 ∷ 9 ∷ 9 ∷ 9 ∷ 9 ∷ 9 ∷ 9 ∷ 9 ∷ 9 ∷ 9 ∷ 9 ∷ 9 ∷ 9 ∷ 1 ∷ 2 ∷ 3 ∷ 250 ∷ 5 ∷ [])
unfolding seal_aes_256 generate_data_key align u16_le
sealed_bytes = refl

short_input :
    unseal_aes_256 toy_ring toy_env (12 ∷ [])
    ≡ err (other "failed to read_u16 for nonce_len (eof)" false)
unfolding unseal_aes_256 parse read_u16
short_input = refl

parse-align_example :
    parse toy_ring (align toy_nonce (1 ∷ 2 ∷ []) (3 ∷ [])) ≡ ok (toy_nonce, 1 ∷ 2 ∷ [], 3 ∷ [])
parse-align_example = parse-align toy_ring toy_nonce (1 ∷ 2 ∷ []) (3 ∷ []) refl (omega arith)

align-parse_example :
    (align toy_nonce (1 ∷ 2 ∷ []) (3 ∷ []) ≡ align toy_nonce (1 ∷ 2 ∷ []) (3 ∷ []))
    × (length toy_nonce ≡ 12)
unfolding align u16_le
align-parse_example =
    align-parse toy_ring (align toy_nonce (1 ∷ 2 ∷ []) (3 ∷ [])) toy_nonce (1 ∷ 2 ∷ []) (3 ∷ [])
      (omega arith) parse-align_example

unseal-seal_example :
    (e : List ℕ) × (seal_aes_256 toy_ring toy_env (done toy_nonce) (5 ∷ 250 ∷ []) ≡ ok e)
    × (unseal_aes_256 toy_ring toy_env e ≡ ok (5 ∷ 250 ∷ []))
unfolding generate_data_key decrypt
unseal-seal_example =
    unseal-seal toy_ring toy_env toy_kms "key" (5 ∷ 250 ∷ []) toy_nonce (250 ∷ 5 ∷ []) toy_dek
      toy_key refl refl refl refl refl (omega arith) refl refl refl refl

unseal_aes_256-ne-panic_example : unseal_aes_256 toy_ring toy_env (12 ∷ 0 ∷ 255 ∷ 255 ∷ []) ≢ panic
unseal_aes_256-ne-panic_example = unseal_aes_256-ne-panic toy_ring toy_env (12 ∷ 0 ∷ 255 ∷ 255 ∷ [])

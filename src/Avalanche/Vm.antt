-- ===== src/Avalanche/Vm.antt =====
-- src/avalanche/vm.rs: the id of a virtual machine from its name.
pub mod Id
mod Tests
use avalanche_ops.Text.Bytes.{as_bytes}
use avalanche_ops.Avalanche.Formatting.{Codecs, encode_cb58_with_checksum}
use avalanche_ops.Io.{Error, other_error}
use avalanche_ops.Prelude.{String, ℕ, List, take, ◌++◌, ltb, replicate, ◌-◌, length, ◌∷◌, []}
use avalanche_ops.Outcome.{Outcome, ◌>>◌, refuse_if, ok}
use avalanche_ops.Text.{byte_length, format, decimal}

-- `Vec::resize`
unfoldable pub resize : ℕ → ℕ → List ℕ → List ℕ
resize n x xs = take n xs ++ replicate (n - length xs) x

abbrev pub too_long : String → Error
too_long name =
    other_error (format ("can't id " ∷ decimal (byte_length name) ∷ " bytes (>32)" ∷ []))

-- `vm::id_from_str`
unfoldable pub id_from_str : Codecs → String → Outcome Error String
id_from_str codecs name = do
  refuse_if (ltb 32 (byte_length name)) (too_long name)
  ok (encode_cb58_with_checksum codecs (resize 32 0 (as_bytes name)))

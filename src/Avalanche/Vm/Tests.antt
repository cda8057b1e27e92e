-- ===== src/Avalanche/Vm/Tests.antt =====
-- The id of the subnet's virtual machine, under toy codecs that know one text.
use avalanche_ops.Avalanche.Vm.{id_from_str, ok}
use avalanche_ops.Avalanche.Vm.Id.{padded, id_from_str_lem}
use avalanche_ops.Avalanche.Formatting.{Codecs, decode_cb58_with_checksum, checksum_of}
use avalanche_ops.Prelude.{List, replicate, ℕ, ◌++◌, ◌≤◌, String, ◌≡◌, length, ◌⊎◌, ◌<◌, refl}
use avalanche_ops.Text.{byte_length}
use avalanche_ops.Outcome.{done, failed, ok, err}
use avalanche_ops.Text.Bytes.{as_bytes}
use avalanche_ops.Io.{Error}

abbrev name_bytes : List ℕ
name_bytes = as_bytes "subnet-evm" ++ replicate 22 0

abbrev toy : Codecs
toy = record {
  sha256 = λ d. replicate 32 7;
  encode_slice = λ d. "srEXiWaHiToEaT9YAQ4Za3ExGKTGm4iGjtnrBnmKN2eZtjn6u";
  base58_from = λ s. done (name_bytes ++ replicate 4 7);
  bech32_encode = λ hrp d. failed "toy";
  bytes_debug = λ d. "bytes";
}

id_from_str_example :
    ((byte_length "subnet-evm" ≤ 32)
      × ((id : String) × (id_from_str toy "subnet-evm" ≡ ok id)
          × (decode_cb58_with_checksum toy id ≡ ok (padded "subnet-evm"))
          × (length (padded "subnet-evm") ≡ 32)))
    ⊎ ((32 < byte_length "subnet-evm") × ((e : Error) × (id_from_str toy "subnet-evm" ≡ err e)))
unfolding padded checksum_of byte_length as_bytes
id_from_str_example = id_from_str_lem toy "subnet-evm" refl refl

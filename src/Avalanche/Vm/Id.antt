-- ===== src/Avalanche/Vm/Id.antt =====
-- Which names have an id, and what the id encodes.
use avalanche_ops.Prelude.{
  ltb, String, List, length, ℕ, ◌≡◌, ◌≤◌, arith, ◌++◌, length-append, replicate, take-le, ◌-◌,
  length-replicate, refl, ◌⊎◌, ◌<◌, Bool-cases, inl, inr,
}
use avalanche_ops.Avalanche.Formatting.{
  Codecs, decode_cb58_with_checksum, checksum_of, encode_cb58_with_checksum,
}
use avalanche_ops.Avalanche.Vm.{id_from_str, resize, ok, too_long}
use avalanche_ops.Text.{byte_length}
use avalanche_ops.Text.Bytes.{as_bytes, length-as_bytes}
use avalanche_ops.Outcome.{done, ok, err}
use avalanche_ops.Io.{Error}
use avalanche_ops.Avalanche.Formatting.RoundTrip.{decode_cb58-encode_cb58}

-- The bytes of the name up to 32 bytes with zeros.
unfoldable pub padded : String → List ℕ
padded name = as_bytes name ++ replicate (32 - byte_length name) 0

resize_lem : (name : String) → byte_length name ≤ 32 → resize 32 0 (as_bytes name) ≡ padded name
unfolding resize padded
resize_lem name h =
    rw (length-as_bytes name, take-le 32 (as_bytes name) (omega (arith, length-as_bytes name))) refl

length-padded : (name : String) → byte_length name ≤ 32 → length (padded name) ≡ 32
unfolding padded
length-padded name h = omega (
  arith,
  length-append (as_bytes name) (replicate (32 - byte_length name) 0),
  length-as_bytes name,
  length-replicate {A = ℕ} (32 - byte_length name) 0,
)

-- If base58 decodes what it encodes, and a hash has 32 bytes, a name has an id exactly if it has at
-- most 32 bytes, and the id decodes to the 32 bytes of the name and the zeros after it.
pub id_from_str_lem :
    (codecs : Codecs) (name : String)
    → length (codecs.sha256 (padded name)) ≡ 32
    → codecs.base58_from (codecs.encode_slice (padded name ++ checksum_of codecs (padded name)))
      ≡ done (padded name ++ checksum_of codecs (padded name))
    → ((byte_length name ≤ 32)
        × ((id : String) × (id_from_str codecs name ≡ ok id)
            × (decode_cb58_with_checksum codecs id ≡ ok (padded name))
            × (length (padded name) ≡ 32)))
      ⊎ ((32 < byte_length name) × ((e : Error) × (id_from_str codecs name ≡ err e)))
unfolding id_from_str
id_from_str_lem codecs name l b = elim (Bool-cases (ltb 32 (byte_length name))) [
  | inl long ↦ inr (ground arith, (too_long name, rw long refl))
  | inr fits ↦
      let small : byte_length name ≤ 32 = ground arith in
      inl (
        small,
        (
          encode_cb58_with_checksum codecs (padded name),
          rw (fits, resize_lem name small) refl,
          decode_cb58-encode_cb58 codecs (padded name) l b,
          length-padded name small,
        ),
      )
]

-- ===== src/Avalanche/Formatting/Tests.antt =====
-- CB58 of three bytes, under toy codecs that know one text.
use avalanche_ops.Avalanche.Formatting.{
  Codecs, checksum_of, encode_cb58_with_checksum, decode_cb58_with_checksum, verify, ok,
}
use avalanche_ops.Avalanche.Formatting.RoundTrip.{decode_cb58-ok_iff, decode_cb58-encode_cb58}
use avalanche_ops.Prelude.{List, replicate, ◌≡◌, ℕ, refl, ◌↔◌, ◌∷◌, [], ◌++◌}
use avalanche_ops.Outcome.{done, ok, failed, panic}

abbrev toy : Codecs
toy = record {
  sha256 = λ d. replicate 32 9;
  encode_slice = λ d. "1112";
  base58_from = λ s. done (1 ∷ 2 ∷ 3 ∷ 9 ∷ 9 ∷ 9 ∷ 9 ∷ []);
  bech32_encode = λ hrp d. failed "toy";
  bytes_debug = λ d. "bytes";
}

abbrev three : List ℕ
three = 1 ∷ 2 ∷ 3 ∷ []

decode_cb58-ok_iff_example :
    decode_cb58_with_checksum toy "1112" ≡ ok three
    ↔ (toy.base58_from "1112" ≡ done (three ++ checksum_of toy three))
decode_cb58-ok_iff_example = decode_cb58-ok_iff toy "1112" three refl

decode_cb58-encode_cb58_example :
    decode_cb58_with_checksum toy (encode_cb58_with_checksum toy three) ≡ ok three
unfolding checksum_of
decode_cb58-encode_cb58_example = decode_cb58-encode_cb58 toy three refl refl

short_text_panics :
    decode_cb58_with_checksum (record toy { base58_from = λ s. done (1 ∷ 2 ∷ []) }) "5R" ≡ panic
unfolding decode_cb58_with_checksum verify
short_text_panics = refl

-- ===== src/Utils/Compress/Tests.antt =====
-- The identity in place of the compressors, and the ids of the algorithms.
use avalanche_ops.Utils.Compress.{zstd_base58, Codecs, new, id, pack, unpack, ok}
use avalanche_ops.Utils.Compress.RoundTrip.{IsLossless, decoder_of, unpack-pack, new-ok_iff}
use avalanche_ops.Prelude.{sym, ◌∷◌, ◌≡◌, [], pos, refl, ◌↔◌, ◌≢◌, String}
use avalanche_ops.Outcome.{ok, done}

abbrev pub stored : Codecs
stored = record {
  gz_encode = λ d. ok d;
  gz_decode = λ d. ok d;
  zstd_encode_all = λ d level. ok d;
  zstd_decode_all = λ d. ok d;
  bs58_encode = λ d. d;
  bs58_decode = λ d. done d;
}

pub stored-IsLossless : IsLossless stored
stored-IsLossless = record {
  gz = λ d e h. sym h;
  zstd_all = λ d e level h. sym h;
  bs58 = λ d. refl;
}

unpack-pack_example :
    unpack stored (1 ∷ 2 ∷ []) (decoder_of (zstd_base58 (pos 3))) ≡ ok (1 ∷ 2 ∷ [])
unfolding pack
unpack-pack_example =
    unpack-pack stored (1 ∷ 2 ∷ []) (1 ∷ 2 ∷ []) (zstd_base58 (pos 3)) stored-IsLossless refl

abbrev level_three : String
level_three = "zstd3-base58"

new-ok_iff_example :
    new level_three ≡ ok (zstd_base58 (pos 3))
    ↔ ((id (zstd_base58 (pos 3)) ≡ level_three) × (level_three ≢ "unknown"))
new-ok_iff_example = new-ok_iff level_three (zstd_base58 (pos 3))

-- ===== src/Utils/Compress.antt =====
-- src/utils/compress.rs: compression of byte strings, and the ids of the algorithms.
-- The compressors, which are not part of the repository, are a parameter.
pub mod RoundTrip
pub mod Tests
use avalanche_ops.Io.{Error, invalid_input_error, other_error}
use avalanche_ops.Prelude.{
  List, String, ℕ, ℤ, if◌then◌else◌, str_eq, pos, ◌∷◌, [], Bool, ◌==◌, negsuc, false,
}
use avalanche_ops.Outcome.{Outcome, Attempt, ◌>>=◌, attempt_or, ok, err}
use avalanche_ops.Text.{format}

-- The integer is the compression level.
pub data Encoder : Type 0 where
  gzip : Encoder
  zstd zstd_base58 : ℤ → Encoder

abbrev pub is_level : ℕ → ℤ → Bool
is_level n (pos m) = m == n
is_level n (negsuc m) = false

unfoldable pub id : Encoder → String
id gzip = "gzip"
id (zstd level) =
    if is_level 1 level
    then "zstd1"
    else if is_level 2 level
    then "zstd2"
    else if is_level 3 level
    then "zstd3"
    else "unknown"
id (zstd_base58 level) =
    if is_level 1 level
    then "zstd1-base58"
    else if is_level 2 level
    then "zstd2-base58"
    else if is_level 3 level
    then "zstd3-base58"
    else "unknown"

-- `Encoder::new`
unfoldable pub new : String → Outcome Error Encoder
new s =
    if str_eq s "gzip"
    then ok gzip
    else if str_eq s "zstd1"
    then ok (zstd (pos 1))
    else if str_eq s "zstd2"
    then ok (zstd (pos 2))
    else if str_eq s "zstd3"
    then ok (zstd (pos 3))
    else if str_eq s "zstd1-base58"
    then ok (zstd_base58 (pos 1))
    else if str_eq s "zstd2-base58"
    then ok (zstd_base58 (pos 2))
    else if str_eq s "zstd3-base58"
    then ok (zstd_base58 (pos 3))
    else err (invalid_input_error (format ("unknown id " ∷ s ∷ [])))

unfoldable pub suffix : Encoder → String
suffix gzip = "gz"
suffix (zstd level) = "zstd"
suffix (zstd_base58 level) = "zstd.base58"

unfoldable pub ext : Encoder → String
ext gzip = ".gz"
ext (zstd level) = ".zstd"
ext (zstd_base58 level) = ".zstd.base58"

pub data Decoder : Type 0 where
  gunzip unzstd unzstd_base58 : Decoder

unfoldable pub decoder_id : Decoder → String
decoder_id gunzip = "gzip"
decoder_id unzstd = "zstd"
decoder_id unzstd_base58 = "zstd-base58"

-- `Decoder::new`
unfoldable pub new_decoder : String → Outcome Error Decoder
new_decoder s =
    if str_eq s "gzip"
    then ok gunzip
    else if str_eq s "zstd"
    then ok unzstd
    else if str_eq s "zstd-base58"
    then ok unzstd_base58
    else err (invalid_input_error (format ("unknown id " ∷ s ∷ [])))

-- `flate2`, `zstd` and `bs58`
pub record Codecs : Type 0 where
  pub gz_encode : List ℕ → Outcome Error (List ℕ)
  pub gz_decode : List ℕ → Outcome Error (List ℕ)
  pub zstd_encode_all : List ℕ → ℤ → Outcome Error (List ℕ)
  pub zstd_decode_all : List ℕ → Outcome Error (List ℕ)
  pub bs58_encode : List ℕ → List ℕ
  pub bs58_decode : List ℕ → Attempt (List ℕ)

module _ (codecs : Codecs) where
  unfoldable pub pack : List ℕ → Encoder → Outcome Error (List ℕ)
  pack d gzip = codecs.gz_encode d
  pack d (zstd level) = codecs.zstd_encode_all d level
  pack d (zstd_base58 level) = do
    encoded ← codecs.zstd_encode_all d level
    ok (codecs.bs58_encode encoded)

  unfoldable pub unpack : List ℕ → Decoder → Outcome Error (List ℕ)
  unpack d gunzip = codecs.gz_decode d
  unpack d unzstd = codecs.zstd_decode_all d
  unpack d unzstd_base58 = do
    d_decoded ←
        attempt_or (λ e. other_error (format ("failed bs58::decode " ∷ e ∷ [])))
          (codecs.bs58_decode d)
    codecs.zstd_decode_all d_decoded

-- ===== src/Text/Bytes.antt =====
-- The bytes of a string.
use avalanche_ops.Prelude.{
  [], Char, String, List, length, ℕ, ◌≡◌, arith, code, ◌++◌, if◌then◌else◌, length-append, ltb,
  refl, ◌∷◌, ◌+◌, ◌/◌, ◌%◌,
}
use avalanche_ops.Text.{byte_length, len_utf8}

-- The bytes of a character in UTF-8.
unfoldable pub encode_utf8 : Char → List ℕ
encode_utf8 c =
    let n = code c in
    if ltb n 128
    then n ∷ []
    else if ltb n 2048
    then (192 + n / 64) ∷ (128 + n % 64) ∷ []
    else if ltb n 65536
    then (224 + n / 4096) ∷ (128 + n / 64 % 64) ∷ (128 + n % 64) ∷ []
    else (240 + n / 262144) ∷ (128 + n / 4096 % 64) ∷ (128 + n / 64 % 64) ∷ (128 + n % 64) ∷ []

-- `str::as_bytes`
unfoldable pub as_bytes : String → List ℕ
unfolding encode_utf8
as_bytes String.[] = []
as_bytes (String.◌∷◌ c s) = encode_utf8 c ++ as_bytes s

length-encode_utf8 : (c : Char) → length (encode_utf8 c) ≡ len_utf8 c
unfolding encode_utf8 len_utf8
length-encode_utf8 c = ground arith

-- A string has as many bytes as its length says.
pub length-as_bytes : (s : String) → length (as_bytes s) ≡ byte_length s
unfolding as_bytes byte_length
length-as_bytes String.[] = refl
length-as_bytes (String.◌∷◌ c s) =
    omega
      (arith, length-append (encode_utf8 c) (as_bytes s), length-encode_utf8 c, length-as_bytes s)

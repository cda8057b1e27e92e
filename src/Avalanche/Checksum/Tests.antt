-- ===== src/Avalanche/Checksum/Tests.antt =====
-- The checksum of a short address under a short hash, and prefixes.
use avalanche_ops.Io.{Error}
use avalanche_ops.Utils.Id.{to_lowercase, replaced}
use avalanche_ops.Avalanche.Checksum.{
  checksum_eip55, eth_checksum, Unicode, lower_case, to_digit, prepend_0x, strip_0x, split_0x,
  upper, ok,
}
use avalanche_ops.Avalanche.Checksum.Case.{eth_checksum-ok, char_at, IsCased, strip_0x-prepend_0x}
use avalanche_ops.Prelude.{◌≡◌, arith, refl, ℕ, Char, some}
use Prim.Native.String
use avalanche_ops.Text.{len_utf8}
use avalanche_ops.Outcome.{ok}

-- what is beyond ASCII does not occur here
abbrev unicode : Unicode
unicode = record { upper = λ c. String.◌∷◌ c ""; lower = λ s. s }

checksum_runs : checksum_eip55 unicode "abc12f" "0f8a9e12" ≡ "aBC12F"
unfolding checksum_eip55 upper replaced to_digit
checksum_runs = refl

eth_checksum_runs : eth_checksum unicode {E = Error} (λ s. "0f8a9e12") "0xABC12F" ≡ ok "aBC12F"
unfolding eth_checksum strip_0x split_0x lower_case to_lowercase replaced checksum_eip55 upper
    len_utf8 to_digit
eth_checksum_runs = refl

stripped : strip_0x {E = Error} "0xABC12F" ≡ ok "ABC12F"
unfolding strip_0x split_0x len_utf8
stripped = refl

eth_checksum-ok_example :
    (to_lowercase "aBC12F" ≡ to_lowercase "ABC12F")
    × ((i : ℕ) (c hash_char : Char)
        → char_at i (to_lowercase "ABC12F") ≡ some c
        → char_at i "0f8a9e12" ≡ some hash_char
        → (x : Char) × (char_at i "aBC12F" ≡ some x) × IsCased hash_char c x)
eth_checksum-ok_example =
    eth_checksum-ok {E = Error} unicode (λ s. "0f8a9e12") "0xABC12F" "ABC12F" "aBC12F" stripped refl
      (omega arith) eth_checksum_runs

strip_0x-prepend_0x_example :
    (prepend_0x {E = Error} "abc1" ≡ ok "0xabc1") × (strip_0x {E = Error} "0xabc1" ≡ ok "abc1")
unfolding strip_0x split_0x len_utf8
strip_0x-prepend_0x_example = strip_0x-prepend_0x {E = Error} "abc1" "abc1" refl

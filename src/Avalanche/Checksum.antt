-- ===== src/Avalanche/Checksum.antt =====
-- src/utils/prefix.rs, src/avalanche/key.rs: the `0x` prefix, and the EIP-55 checksum of an Ethereum
-- address. Keccak-256, in hexadecimal, and the case of characters beyond ASCII are parameters.
pub mod Letters
pub mod Case
mod Tests
use Prim.Native.String
use avalanche_ops.Prelude.{
  ℕ, true, false, ltb, ◌-◌, [], Char, String, Bool, if◌then◌else◌, Option, code, leb, ◌&&◌, ◌==◌,
  is_some, unwrap_or, ◌||◌, none, some, ◌∷◌,
}
use avalanche_ops.Utils.Id.{replaced, to_lowercase}
use avalanche_ops.Outcome.{Outcome, ◌>>=◌, ok, panic}
use avalanche_ops.Text.{len_utf8, format}

-- What follows a `0x`, or `none`; the slice of two bytes panics on shorter strings and inside characters.
unfoldable pub split_0x : {E : Type 0} → String → Outcome E (Option String)
split_0x String.[] = panic
split_0x (String.◌∷◌ c String.[]) = if len_utf8 c == 2 then ok none else panic
split_0x (String.◌∷◌ c (String.◌∷◌ d s)) =
    if len_utf8 c == 2
    then ok none
    else if len_utf8 c == 1 && len_utf8 d == 1
    then ok (if code c == b'0' && code d == b'x' then some s else none)
    else panic

unfoldable pub strip_0x : {E : Type 0} → String → Outcome E String
strip_0x addr = do rest ← split_0x addr; ok (unwrap_or rest addr)

unfoldable pub prepend_0x : {E : Type 0} → String → Outcome E String
prepend_0x addr = do
  rest ← split_0x addr
  ok (if is_some rest then addr else format ("0x" ∷ addr ∷ []))

-- `to_digit(16)`
unfoldable pub to_digit : Char → Option ℕ
to_digit c =
    if leb 48 (code c) && leb (code c) 57
    then some (code c - 48)
    else if leb 97 (code c) && leb (code c) 102
    then some (code c - 87)
    else if leb 65 (code c) && leb (code c) 70
    then some (code c - 55)
    else none

-- `hash_char.to_digit(16) >= Some(8)`, where `None` is below every `Some`
abbrev pub is_high : Option ℕ → Bool
is_high none = false
is_high (some d) = leb 8 d

-- What the standard library does beyond ASCII: `char::to_uppercase`, and `str::to_lowercase`.
pub record Unicode : Type 0 where
  pub upper : Char → String
  pub lower : String → String

-- the upper case of ASCII
abbrev pub ascii_upper : Char → Char
ascii_upper c = replaced "abcdefghijklmnopqrstuvwxyz" "ABCDEFGHIJKLMNOPQRSTUVWXYZ" c

abbrev pub is_ascii : String → Bool
is_ascii String.[] = true
is_ascii (String.◌∷◌ c s) = ltb (code c) 128 && is_ascii s

module _ (unicode : Unicode) where
  unfoldable pub upper : Char → String
  upper c = if ltb (code c) 128 then String.◌∷◌ (ascii_upper c) "" else unicode.upper c

  unfoldable pub lower_case : String → String
  lower_case s = if is_ascii s then to_lowercase s else unicode.lower s

  -- `checksum_eip55`: the zip ends with the shorter string.
  unfoldable pub checksum_eip55 : (addr addr_hash : String) → String
  checksum_eip55 String.[] addr_hash = ""
  checksum_eip55 (String.◌∷◌ c addr) String.[] = ""
  checksum_eip55 (String.◌∷◌ c addr) (String.◌∷◌ hash_char addr_hash) =
      String.◌++◌ (if is_high (to_digit hash_char) then upper c else String.◌∷◌ c "")
        (checksum_eip55 addr addr_hash)

  -- `eth_checksum`
  unfoldable pub eth_checksum :
      {E : Type 0} → (keccak256 : String → String) → String → Outcome E String
  eth_checksum keccak256 addr = do
    stripped ← strip_0x addr
    ok (checksum_eip55 (lower_case stripped) (keccak256 (lower_case stripped)))

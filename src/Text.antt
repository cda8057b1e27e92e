-- ===== src/Text.antt =====
-- What the program uses of Rust's `String`, `str` and `format!`, over the native strings.
pub mod Lengths
pub mod Bytes
pub mod Numbers
pub mod Split
use Prim.Native.String
use text.Mathlib.Text.{find?}
use avalanche_ops.Prelude.{
  ℕ, zero, suc, ◌+◌, ◌/◌, ◌%◌, Char, String, Bool, ◌==◌, str_eq, is_some, if◌then◌else◌, List, ltb,
  code, Option, some, ◌-◌, leb, none,
}
use avalanche_ops.Outcome.{Outcome, unwrap}
use avalanche_ops.Prelude

-- `format!` with its pieces in order
abbrev pub format : List String → String
format Prelude.[] = ""
format (Prelude.◌∷◌ s Prelude.[]) = s
format (Prelude.◌∷◌ s (Prelude.◌∷◌ t r)) = String.◌++◌ s (format (Prelude.◌∷◌ t r))

-- `str::is_empty`
abbrev pub is_empty : String → Bool
is_empty s = str_eq s ""

-- `str::contains`
abbrev pub contains : String → String → Bool
contains s t = is_some (find? s t)

digit : ℕ → String
digit n =
    if n == 0
    then "0"
    else if n == 1
    then "1"
    else if n == 2
    then "2"
    else if n == 3
    then "3"
    else if n == 4
    then "4"
    else if n == 5
    then "5"
    else if n == 6
    then "6"
    else if n == 7
    then "7"
    else if n == 8
    then "8"
    else "9"

-- Each round of the recursion divides by ten, so `suc n` rounds are enough for `n`.
decimal_from : ℕ → ℕ → String
decimal_from zero n = ""
decimal_from (suc fuel) n =
    let rest = decimal_from fuel (n / 10) in
    if n / 10 == 0 then digit n else String.◌++◌ rest (digit (n % 10))

-- `Display` of an unsigned integer
unfoldable pub decimal : ℕ → String
unfolding decimal_from digit
decimal n = decimal_from (suc n) n

-- The number of bytes of a character in UTF-8.
unfoldable pub len_utf8 : Char → ℕ
len_utf8 c =
    if ltb (code c) 128
    then 1
    else if ltb (code c) 2048
    then 2
    else if ltb (code c) 65536
    then 3
    else 4

-- `String::len`: the number of bytes in UTF-8.
unfoldable pub byte_length : String → ℕ
unfolding len_utf8
byte_length String.[] = 0
byte_length (String.◌∷◌ c s) = len_utf8 c + byte_length s

abbrev after_char : Char → Option String → Option String
after_char c none = none
after_char c (some s) = some (String.◌∷◌ c s)

-- The characters in the first `n` bytes; `none` if a character crosses the boundary.
byte_prefix : ℕ → String → Option String
byte_prefix n String.[] = some ""
byte_prefix n (String.◌∷◌ c s) =
    let rest = byte_prefix (n - len_utf8 c) s in
    if n == 0 then some "" else if leb (len_utf8 c) n then after_char c rest else none

-- `String::truncate`, which panics inside a character.
unfoldable pub truncate : {E : Type 0} → ℕ → String → Outcome E String
unfolding byte_prefix
truncate n s = unwrap (byte_prefix n s)

-- ===== src/Text/Numbers.antt =====
-- Reading an unsigned number.
use avalanche_ops.Prelude.{
  String, ℕ, Option, none, some, if◌then◌else◌, ◌*◌, code, ltb, ◌+◌, ◌-◌, ◌==◌, leb, ◌&&◌,
}

-- The digits of a number to the base ten.
digits_from : ℕ → String → Option ℕ
digits_from n String.[] = some n
digits_from n (String.◌∷◌ c s) =
    let rest = digits_from (n * 10 + (code c - 48)) s in
    if leb 48 (code c) && leb (code c) 57 then rest else none

below : ℕ → Option ℕ → Option ℕ
below limit none = none
below limit (some n) = if ltb n limit then some n else none

-- The digits after a sign: none is an error.
some_digits : String → Option ℕ
unfolding digits_from
some_digits String.[] = none
some_digits (String.◌∷◌ c s) = digits_from 0 (String.◌∷◌ c s)

-- `str::parse::<u32>`, which takes a leading `+`
unfoldable pub parse_u32 : String → Option ℕ
unfolding some_digits below
parse_u32 String.[] = none
parse_u32 (String.◌∷◌ c s) =
    if code c == b'+'
    then below 4294967296 (some_digits s)
    else below 4294967296 (some_digits (String.◌∷◌ c s))

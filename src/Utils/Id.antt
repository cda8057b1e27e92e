-- ===== src/Utils/Id.antt =====
-- src/utils/id.rs, src/utils/time.rs, src/utils/random.rs: ids from the time and from random bytes.
-- The clock, the random bytes' base58 text and the host's hash in base58 are arguments. `to_lowercase`
-- is applied to base58 text only, so its letters are the ASCII ones.
pub mod Lengths
use avalanche_ops.Prelude.{[], String, ℕ, if◌then◌else◌, ltb, ◌∷◌, Char, code, ◌==◌}
use avalanche_ops.Outcome.{Outcome, ◌>>=◌, ok}
use avalanche_ops.Text.{format, byte_length, decimal, truncate}
use Prim.Native.String.{[]}
use Prim.Native.String

-- The fields of `DateTime<Local>` that are read.
pub record DateTime : Type 0 where
  pub year : ℕ
  pub month : ℕ
  pub day : ℕ
  pub hour : ℕ
  pub second : ℕ

-- `{:02}`
abbrev pub two_digits : ℕ → String
two_digits n = if ltb n 10 then String.◌++◌ "0" (decimal n) else decimal n

-- `if d.len() > n { d.truncate(n) }`
unfoldable pub shorten : {E : Type 0} → ℕ → String → Outcome E String
shorten n d = if ltb n (byte_length d) then truncate n d else ok d

-- `time::get`
unfoldable pub get : {E : Type 0} → DateTime → ℕ → Outcome E String
get now n = shorten n (
    format (
      decimal now.year
      ∷ two_digits now.month
      ∷ two_digits now.day
      ∷ two_digits now.hour
      ∷ two_digits now.second
      ∷ []))

-- `random::string` from the base58 text of the random bytes, and the same test in `id::system`
unfoldable pub string : {E : Type 0} → (encoded : String) → ℕ → Outcome E String
string encoded n = if ltb 0 n then shorten n encoded else ok encoded

-- The character of `us` that stands where `c` stands in `ls`, or `c`.
unfoldable pub replaced : (ls us : String) → Char → Char
replaced String.[] us c = c
replaced (String.◌∷◌ l ls) String.[] c = c
replaced (String.◌∷◌ l ls) (String.◌∷◌ u us) c =
    let rest = replaced ls us c in if code c == code l then u else rest

-- The ASCII letters of `to_lowercase`.
abbrev pub lower : Char → Char
lower c = replaced "ABCDEFGHIJKLMNOPQRSTUVWXYZ" "abcdefghijklmnopqrstuvwxyz" c

unfoldable pub to_lowercase : String → String
to_lowercase String.[] = ""
to_lowercase (String.◌∷◌ c s) = String.◌∷◌ (lower c) (to_lowercase s)

-- `id::system` from the base58 text of the host's hash
unfoldable pub system : {E : Type 0} → (encoded : String) → ℕ → Outcome E String
unfolding to_lowercase
system encoded n = do id ← string encoded n; ok (to_lowercase id)

-- `id::with_time`
unfoldable pub with_time : {E : Type 0} → DateTime → (encoded : String) → String → Outcome E String
with_time now encoded pfx = do
  time ← get now 6
  random ← string encoded 6
  ok (format (pfx ∷ "-" ∷ time ∷ "-" ∷ random ∷ []))

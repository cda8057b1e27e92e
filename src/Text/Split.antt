-- ===== src/Text/Split.antt =====
-- Cutting strings apart: `str::split` at a character, `join`, and `str::replace` with nothing.
pub mod Laws
use avalanche_ops.Prelude.{
  String, Char, ℕ, zero, suc, Bool, true, false, List, [], ◌∷◌, if◌then◌else◌, ◌==◌, ◌&&◌, ◌-◌,
  code, ◌≡◌, refl,
}
use avalanche_ops.Text.{format}

-- a character before the first of the pieces
abbrev pub push_first : Char → List String → List String
push_first c [] = String.◌∷◌ c "" ∷ []
push_first c (s ∷ ss) = String.◌∷◌ c s ∷ ss

-- `split`, at the character with this code
unfoldable pub split : ℕ → String → List String
split at String.[] = "" ∷ []
split at (String.◌∷◌ c s) =
    let rest = split at s in if code c == at then "" ∷ rest else push_first c rest

unfoldable pub join : String → List String → String
join between [] = ""
join between (s ∷ []) = s
join between (s ∷ t ∷ r) = format (s ∷ between ∷ join between (t ∷ r) ∷ [])

unfoldable pub starts_with : String → String → Bool
starts_with s String.[] = true
starts_with String.[] (String.◌∷◌ p ps) = false
starts_with (String.◌∷◌ c s) (String.◌∷◌ p ps) = code c == code p && starts_with s ps

unfoldable pub size : String → ℕ
size String.[] = 0
size (String.◌∷◌ c s) = suc (size s)

-- The characters, but for `skip` of them, and but for every match of the pattern from there on.
unfoldable pub remove_from : String → ℕ → String → String
unfolding starts_with size
remove_from pattern skip String.[] = ""
remove_from pattern (suc skip) (String.◌∷◌ c s) = remove_from pattern skip s
remove_from pattern zero (String.◌∷◌ c s) =
    let dropped = remove_from pattern (size pattern - 1) s in
    let kept = remove_from pattern zero s in
    if starts_with (String.◌∷◌ c s) pattern then dropped else String.◌∷◌ c kept

-- `replace(pattern, "")`
unfoldable pub remove_all : String → String → String
unfolding remove_from
remove_all pattern s = remove_from pattern zero s

removes : remove_all ".yaml" "ab.yaml.yamc" ≡ "ab.yamc"
unfolding remove_all remove_from starts_with size
removes = refl

splits : split 44 "a,,bc" ≡ "a" ∷ "" ∷ "bc" ∷ []
unfolding split
splits = refl

joins : join "," ("a" ∷ "" ∷ "bc" ∷ []) ≡ "a,,bc"
unfolding join
joins = refl

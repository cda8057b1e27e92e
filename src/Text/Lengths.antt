-- ===== src/Text/Lengths.antt =====
-- Lengths in bytes of joined and truncated strings.
use avalanche_ops.Text.{byte_length, truncate, byte_prefix, len_utf8}
use avalanche_ops.Prelude.{
  String, ℕ, ◌≡◌, some, ◌+◌, ◌≤◌, arith, Bool-cases, ◌==◌, inl, inr, leb, Option-cases, ◌-◌,
}
use avalanche_ops.Outcome.{ok}
use Prim.Native.String
use text.Mathlib.TextLemmas

pub byte_length-append :
    (s t : String) → byte_length (String.◌++◌ s t) ≡ byte_length s + byte_length t
unfolding byte_length
byte_length-append String.[] t = rw TextLemmas.nil-append (omega arith)
byte_length-append (String.◌∷◌ c s) t =
    rw (TextLemmas.cons-append) (omega (arith, byte_length-append s t))

byte_prefix-le : (n : ℕ) (s t : String) → byte_prefix n s ≡ some t → byte_length t ≤ n
unfolding byte_prefix byte_length
byte_prefix-le n String.[] t h = let e : "" ≡ t = cc in rw (← e) (omega arith)
byte_prefix-le n (String.◌∷◌ c s) t h = elim (Bool-cases (n == 0)) [
  | inl z ↦ let e : "" ≡ t = (let g = rw z at h in cc) in rw (← e) (omega arith)
  | inr nz ↦ elim (Bool-cases (leb (len_utf8 c) n)) [
    | inr big ↦ let g = rw (nz, big) at h in cc
    | inl fits ↦ elim (Option-cases (byte_prefix (n - len_utf8 c) s)) [
      | inl cut ↦ let g = rw (nz, fits, cut) at h in cc
      | inr (u, rest) ↦
          let e : String.◌∷◌ c u ≡ t = (let g = rw (nz, fits, rest) at h in cc) in
          let le = byte_prefix-le (n - len_utf8 c) s u rest in rw (← e) (ground arith)
    ]
  ]
]

-- A truncated string has at most the length that was asked for.
pub byte_length-truncate :
    {E : Type 0} (n : ℕ) (s t : String) → truncate {E = E} n s ≡ ok t → byte_length t ≤ n
unfolding truncate
byte_length-truncate n s t h = byte_prefix-le n s t (ground arith)

-- ===== src/Text/Split/Laws.antt =====
-- Splitting at a character undoes the joining of pieces that have none of it.
use avalanche_ops.Prelude.{
  String, Char, ℕ, Bool, true, false, [], ◌∷◌, ◌≡◌, refl, if◌then◌else◌, ◌==◌, code, Bool-cases,
  inl, inr,
}
use Prim.Native.String
use text.Mathlib.TextLemmas
use avalanche_ops.Text.Split.{split, remove_all, remove_from, starts_with, size}

-- whether a character with this code occurs
abbrev pub has_char : ℕ → String → Bool
has_char at String.[] = false
has_char at (String.◌∷◌ c s) = if code c == at then true else has_char at s

pub split-none : (at : ℕ) (s : String) → has_char at s ≡ false → split at s ≡ s ∷ []
unfolding split
split-none at String.[] h = refl
split-none at (String.◌∷◌ c s) h = elim (Bool-cases (code c == at)) [
  | inl here ↦ let bad : true ≡ false = rw here at h in cc
  | inr other ↦
      let rest : has_char at s ≡ false = rw other at h in rw (other, split-none at s rest) refl
]

-- the first separator ends the first piece
pub split-append :
    (at : ℕ) (s t : String) (c : Char)
    → has_char at s ≡ false
    → (code c == at) ≡ true
    → split at (String.◌++◌ s (String.◌∷◌ c t)) ≡ s ∷ split at t
unfolding split
split-append at String.[] t c h e = rw (TextLemmas.nil-append (String.◌∷◌ c t), e) refl
split-append at (String.◌∷◌ d s) t c h e = elim (Bool-cases (code d == at)) [
  | inl here ↦ let bad : true ≡ false = rw here at h in cc
  | inr other ↦
      let rest : has_char at s ≡ false = rw other at h in
      rw (TextLemmas.cons-append d s (String.◌∷◌ c t), other, split-append at s t c rest e) refl
]

pub has_char-append :
    (at : ℕ) (s t : String)
    → has_char at s ≡ false
    → has_char at t ≡ false
    → has_char at (String.◌++◌ s t) ≡ false
has_char-append at String.[] t h k = rw (TextLemmas.nil-append t) k
has_char-append at (String.◌∷◌ d s) t h k = elim (Bool-cases (code d == at)) [
  | inl here ↦ let bad : true ≡ false = rw here at h in cc
  | inr other ↦
      let rest : has_char at s ≡ false = rw other at h in
      rw (TextLemmas.cons-append d s t, other) (has_char-append at s t rest k)
]

-- an extension is taken off a name without a dot
remove_from-append :
    (s : String) → has_char b'.' s ≡ false → remove_from ".yaml" 0 (String.◌++◌ s ".yaml") ≡ s
unfolding remove_from starts_with size
remove_from-append String.[] h = refl
remove_from-append (String.◌∷◌ c s) h = elim (Bool-cases (code c == b'.')) [
  | inl here ↦ let bad : true ≡ false = rw here at h in cc
  | inr other ↦
      let rest : has_char b'.' s ≡ false = rw other at h in
      rw (TextLemmas.cons-append c s ".yaml", other, remove_from-append s rest) refl
]

pub remove_all-append :
    (s : String) → has_char b'.' s ≡ false → remove_all ".yaml" (String.◌++◌ s ".yaml") ≡ s
unfolding remove_all
remove_all-append s h = remove_from-append s h

-- whether a string is just the character with this code
abbrev pub is_char : ℕ → String → Bool
is_char at String.[] = false
is_char at (String.◌∷◌ c String.[]) = code c == at
is_char at (String.◌∷◌ c (String.◌∷◌ d s)) = false

pub split-separator :
    (at : ℕ) (s t separator : String)
    → has_char at s ≡ false
    → is_char at separator ≡ true
    → split at (String.◌++◌ s (String.◌++◌ separator t)) ≡ s ∷ split at t
split-separator at s t String.[] h e = cc
split-separator at s t (String.◌∷◌ c String.[]) h e =
    rw (TextLemmas.cons-append c "" t, TextLemmas.nil-append t) (split-append at s t c h e)
split-separator at s t (String.◌∷◌ c (String.◌∷◌ d r)) h e = cc

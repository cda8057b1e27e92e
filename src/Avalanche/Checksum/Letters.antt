-- ===== src/Avalanche/Checksum/Letters.antt =====
-- The letters of ASCII in upper and in lower case.
use text.Mathlib.TextEquality.{Char-path}
use avalanche_ops.Utils.Id.{to_lowercase, lower, replaced}
use avalanche_ops.Avalanche.Checksum.{ascii_upper, is_ascii}
use avalanche_ops.Prelude.{
  ltb, ◌⊎◌, Char, String, ℕ, ◌≡◌, Bool-cases, suc, true, code, refl, ◌==◌, inl, ==_iff, inr, ap,
  arith, ◌∙◌, sym,
}
use text.Mathlib.TextLemmas

-- replacing by characters of the same lower case
lower-replaced :
    (ls us : String) (c : Char)
    → to_lowercase us ≡ to_lowercase ls
    → lower (replaced ls us c) ≡ lower c
unfolding to_lowercase replaced
lower-replaced String.[] us c h = refl
lower-replaced (String.◌∷◌ l ls) String.[] c h = refl
lower-replaced (String.◌∷◌ l ls) (String.◌∷◌ u us) c h = elim (Bool-cases (code c == code l)) [
  | inl here ↦
      let same : c ≡ l = Char-path c l ((==_iff (code c) (code l)).0 here) in
      rw here (TextLemmas.head-eq_of_cons-eq h ∙ ap lower (sym same))
  | inr other ↦ rw other (lower-replaced ls us c (TextLemmas.tail-eq_of_cons-eq h))
]

pub lower-ascii_upper : (c : Char) → lower (ascii_upper c) ≡ lower c
unfolding to_lowercase replaced
lower-ascii_upper c =
    lower-replaced "abcdefghijklmnopqrstuvwxyz" "ABCDEFGHIJKLMNOPQRSTUVWXYZ" c refl

abbrev pub chars : String → ℕ
chars String.[] = 0
chars (String.◌∷◌ c s) = suc (chars s)

-- Replacing by characters in lower case gives one of them, or changes nothing.
replaced-cases :
    (ls us : String) (c : Char)
    → to_lowercase us ≡ us
    → (lower (replaced ls us c) ≡ replaced ls us c) ⊎ (replaced ls us c ≡ c)
unfolding to_lowercase replaced
replaced-cases String.[] us c h = inr refl
replaced-cases (String.◌∷◌ l ls) String.[] c h = inr refl
replaced-cases (String.◌∷◌ l ls) (String.◌∷◌ u us) c h = elim (Bool-cases (code c == code l)) [
  | inl here ↦ rw here (inl (TextLemmas.head-eq_of_cons-eq h))
  | inr other ↦ rw other (replaced-cases ls us c (TextLemmas.tail-eq_of_cons-eq h))
]

lower_idempotent : (c : Char) → lower (lower c) ≡ lower c
unfolding to_lowercase replaced
lower_idempotent c =
    elim (replaced-cases "ABCDEFGHIJKLMNOPQRSTUVWXYZ" "abcdefghijklmnopqrstuvwxyz" c refl) [
      | inl e ↦ e
      | inr e ↦ ap lower e
    ]

replaced-ascii :
    (ls us : String) (c : Char)
    → is_ascii us ≡ true
    → ltb (code c) 128 ≡ true
    → ltb (code (replaced ls us c)) 128 ≡ true
unfolding replaced
replaced-ascii String.[] us c h k = k
replaced-ascii (String.◌∷◌ l ls) String.[] c h k = k
replaced-ascii (String.◌∷◌ l ls) (String.◌∷◌ u us) c h k =
    let first : ltb (code u) 128 ≡ true = ground arith in
    let others : is_ascii us ≡ true = ground arith in
    elim (Bool-cases (code c == code l)) [
      | inl here ↦ rw here first
      | inr other ↦ rw other (replaced-ascii ls us c others k)
    ]

pub is_ascii-lower : (s : String) → is_ascii s ≡ true → is_ascii (to_lowercase s) ≡ true
unfolding to_lowercase
is_ascii-lower String.[] h = refl
is_ascii-lower (String.◌∷◌ c s) h =
    let first : ltb (code c) 128 ≡ true = ground arith in
    let others : is_ascii s ≡ true = ground arith in
    rw
      (
        replaced-ascii "ABCDEFGHIJKLMNOPQRSTUVWXYZ" "abcdefghijklmnopqrstuvwxyz" c refl first,
        is_ascii-lower s others,
      )
      refl

pub to_lowercase_idempotent : (s : String) → to_lowercase (to_lowercase s) ≡ to_lowercase s
unfolding to_lowercase
to_lowercase_idempotent String.[] = refl
to_lowercase_idempotent (String.◌∷◌ c s) = rw (lower_idempotent c, to_lowercase_idempotent s) refl

pub chars-lower : (s : String) → chars (to_lowercase s) ≡ chars s
unfolding to_lowercase
chars-lower String.[] = refl
chars-lower (String.◌∷◌ c s) = ap suc (chars-lower s)

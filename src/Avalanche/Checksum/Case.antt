-- ===== src/Avalanche/Checksum/Case.antt =====
-- The case of the letters of a checksum, and the prefix of an address.
use text.Mathlib.TextEquality.{Char-path}
use avalanche_ops.Utils.Id.{to_lowercase, lower}
use avalanche_ops.Avalanche.Checksum.Letters.{
  chars, lower-ascii_upper, is_ascii-lower, to_lowercase_idempotent, chars-lower,
}
use avalanche_ops.Avalanche.Checksum.{
  upper, checksum_eip55, split_0x, strip_0x, prepend_0x, ok, is_high, Unicode, ascii_upper,
  is_ascii, to_digit, eth_checksum, lower_case,
}
use avalanche_ops.Prelude.{
  none, zero, Option, ltb, ◌<◌, Char, String, if◌then◌else◌, ℕ, ◌≡◌, ◌≤◌, Bool-cases, suc, true,
  code, some, refl, inl, inr, ap, arith, ◌∙◌, sym,
}
use avalanche_ops.Text.{len_utf8}
use avalanche_ops.Outcome.{ok, Outcome-cases}
use text.Mathlib.TextLemmas
use Prim.Native.String

-- the character at a position
abbrev pub char_at : ℕ → String → Option Char
char_at i String.[] = none
char_at zero (String.◌∷◌ c s) = some c
char_at (suc i) (String.◌∷◌ c s) = char_at i s

-- The case that a digit of the hash asks for: upper from 8 on, and the character as it is below.
pub record IsCased (hash_char c x : Char) : Type 0 where
  pub high : (d : ℕ) → to_digit hash_char ≡ some d → 8 ≤ d → x ≡ ascii_upper c
  pub low : (d : ℕ) → to_digit hash_char ≡ some d → d < 8 → x ≡ c

-- one character of the checksum
abbrev cased : Char → Char → Char
cased hash_char c = if is_high (to_digit hash_char) then ascii_upper c else c

cased-IsCased : (hash_char c : Char) → IsCased hash_char c (cased hash_char c)
cased-IsCased hash_char c = record {
  high = λ d e l. rw e (ground arith);
  low = λ d e l. rw e (ground arith);
}

checksum-cons :
    (unicode : Unicode) (c hash_char : Char) (addr addr_hash : String)
    → ltb (code c) 128 ≡ true
    → checksum_eip55 unicode (String.◌∷◌ c addr) (String.◌∷◌ hash_char addr_hash)
      ≡ String.◌∷◌ (cased hash_char c) (checksum_eip55 unicode addr addr_hash)
unfolding checksum_eip55 upper
checksum-cons unicode c hash_char addr addr_hash h =
    elim (Bool-cases (is_high (to_digit hash_char))) [
      | inl e ↦ rw (e, h, TextLemmas.cons-append, TextLemmas.nil-append) refl
      | inr e ↦ rw (e, TextLemmas.cons-append, TextLemmas.nil-append) refl
    ]

lower-cased : (hash_char c : Char) → lower (cased hash_char c) ≡ lower c
lower-cased hash_char c = elim (Bool-cases (is_high (to_digit hash_char))) [
  | inl e ↦ rw e (lower-ascii_upper c)
  | inr e ↦ rw e refl
]

checksum-lower :
    (unicode : Unicode) (addr addr_hash : String)
    → is_ascii addr ≡ true
    → chars addr ≤ chars addr_hash
    → to_lowercase (checksum_eip55 unicode addr addr_hash) ≡ to_lowercase addr
unfolding to_lowercase
checksum-lower unicode String.[] h a l = unfold checksum_eip55 in refl
checksum-lower unicode (String.◌∷◌ c s) String.[] a l = absurd (omega (arith, l))
checksum-lower unicode (String.◌∷◌ c s) (String.◌∷◌ d h) a l =
    let first : ltb (code c) 128 ≡ true = ground arith in
    let rest : is_ascii s ≡ true = ground arith in
    rw
      (
        checksum-cons unicode c d s h first,
        lower-cased d c,
        checksum-lower unicode s h rest (omega (arith, l)),
      )
      refl

checksum-char_at :
    (unicode : Unicode) (addr addr_hash : String) (i : ℕ) (c hash_char : Char)
    → is_ascii addr ≡ true
    → char_at i addr ≡ some c
    → char_at i addr_hash ≡ some hash_char
    → char_at i (checksum_eip55 unicode addr addr_hash) ≡ some (cased hash_char c)
checksum-char_at unicode String.[] h i c d a e f = cc e
checksum-char_at unicode (String.◌∷◌ b s) String.[] i c d a e f = cc f
checksum-char_at unicode (String.◌∷◌ b s) (String.◌∷◌ g h) zero c d a e f =
    let first : ltb (code b) 128 ≡ true = ground arith in
    let same : b ≡ c = cc e in
    let digit : g ≡ d = cc f in rw (checksum-cons unicode b g s h first, same, digit) refl
checksum-char_at unicode (String.◌∷◌ b s) (String.◌∷◌ g h) (suc i) c d a e f =
    let first : ltb (code b) 128 ≡ true = ground arith in
    let rest : is_ascii s ≡ true = ground arith in
    rw (checksum-cons unicode b g s h first) (checksum-char_at unicode s h i c d rest e f)

-- The checksum of an address in ASCII, under a hash with at least as many characters, is the address
-- without its prefix up to case: a letter is in upper case where the hash of the address in lower case
-- has a digit from 8 on, and in lower case where the digit is below 8.
pub eth_checksum-ok :
    {E : Type 0} (unicode : Unicode) (keccak256 : String → String) (addr u r : String)
    → strip_0x {E = E} addr ≡ ok u
    → is_ascii u ≡ true
    → chars u ≤ chars (keccak256 (to_lowercase u))
    → eth_checksum unicode {E = E} keccak256 addr ≡ ok r
    → (to_lowercase r ≡ to_lowercase u)
      × ((i : ℕ) (c hash_char : Char)
          → char_at i (to_lowercase u) ≡ some c
          → char_at i (keccak256 (to_lowercase u)) ≡ some hash_char
          → (x : Char) × (char_at i r ≡ some x) × IsCased hash_char c x)
unfolding eth_checksum lower_case
eth_checksum-ok unicode keccak256 addr u r stripped ascii long h =
    let sum : checksum_eip55 unicode (to_lowercase u) (keccak256 (to_lowercase u)) ≡ r =
      (let g = rw (stripped, ascii) at h in cc g) in
    let low = is_ascii-lower u ascii in
    rw (← sum) (
      checksum-lower unicode (to_lowercase u) (keccak256 (to_lowercase u)) low
            (rw (chars-lower u) long)
          ∙ to_lowercase_idempotent u,
      λ i c d e f. (
        cased d c,
        checksum-char_at unicode (to_lowercase u) (keccak256 (to_lowercase u)) i c d low e f,
        cased-IsCased d c,
      ),
    )

prefixed : (s : String) → String.◌++◌ "0x" s ≡ String.◌∷◌ "0" (String.◌∷◌ "x" s)
prefixed s =
    TextLemmas.cons-append "0" "x" s
    ∙ ap (λ (t : String). String.◌∷◌ "0" t)
        (TextLemmas.cons-append "x" "" s
          ∙ ap (λ (t : String). String.◌∷◌ "x" t) (TextLemmas.nil-append s))

split-prefixed : {E : Type 0} (s : String) → split_0x {E = E} (String.◌++◌ "0x" s) ≡ ok (some s)
unfolding split_0x len_utf8
split-prefixed s = rw (prefixed s) refl

split-some : {E : Type 0} (s t : String) → split_0x {E = E} s ≡ ok (some t) → s ≡ String.◌++◌ "0x" t
unfolding split_0x
split-some String.[] t h = cc h
split-some (String.◌∷◌ c String.[]) t h = ground arith
split-some (String.◌∷◌ c (String.◌∷◌ d s)) t h =
    let zero_digit : c ≡ "0" = Char-path c "0" (ground arith) in
    let letter_x : d ≡ "x" = Char-path d "x" (ground arith) in
    let rest : s ≡ t = ground arith in rw (zero_digit, letter_x, rest) (sym (prefixed t))

-- A string with two bytes at least and no character across them has its prefix added once: what is
-- prepended starts with `0x`, and stripping it gives what stripping the string gives.
pub strip_0x-prepend_0x :
    {E : Type 0} (s u : String)
    → strip_0x {E = E} s ≡ ok u
    → (prepend_0x {E = E} s ≡ ok (String.◌++◌ "0x" u))
      × (strip_0x {E = E} (String.◌++◌ "0x" u) ≡ ok u)
unfolding strip_0x prepend_0x
strip_0x-prepend_0x {E} s u h = elim (Outcome-cases (split_0x {E = E} s)) [
  | inr (inl (e, failed)) ↦ let g = rw failed at h in cc g
  | inr (inr failed) ↦ let g = rw failed at h in cc g
  | inl (none, e) ↦
      let same : s ≡ u = (let g = rw e at h in cc g) in
      rw (e, split-prefixed u) (ap (λ x. ok (String.◌++◌ "0x" x)) same, refl)
  | inl (some t, e) ↦
      let same : t ≡ u = (let g = rw e at h in cc g) in
      rw (e, split-prefixed u)
        (ap (λ x. ok x) (split-some s t e ∙ ap (λ x. String.◌++◌ "0x" x) same), refl)
]

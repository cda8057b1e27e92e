-- ===== src/Aws/Envelope/Layout.antt =====
-- The bytes that sealing writes are the bytes that unsealing reads.
use native.Mathlib.Omega.{arith}
use avalanche_ops.Prelude.{
  ℕ, ◌<◌, ◌≤◌, ◌≡◌, ap, some, List, ◌++◌, length, length-append, take_all_append, drop_all_append,
  ltb, false, All, take-append-drop, length-take, [], ◌+◌, ◌*◌, ◌%◌, ◌/◌,
}
use avalanche_ops.Outcome.{ok}
use avalanche_ops.Aws.Envelope.{
  Ring, align, parse, read_exact, read_u16, u16_le, nonce_len, ◌∷◌, drop,
}

ltb_of_le : (a b : ℕ) → b ≤ a → ltb a b ≡ false
ltb_of_le a b h = ground arith

read_exact-append : (xs ys : List ℕ) → read_exact (length xs) (xs ++ ys) ≡ some (xs, ys)
unfolding read_exact
read_exact-append xs ys =
    rw (ltb_of_le (length (xs ++ ys)) (length xs) (omega (arith, length-append xs ys)))
      (rw (take_all_append, drop_all_append))

read_exact-append_of :
    (n : ℕ) (xs ys : List ℕ) → length xs ≡ n → read_exact n (xs ++ ys) ≡ some (xs, ys)
read_exact-append_of n xs ys e = rw (← e) (read_exact-append xs ys)

read_u16-u16_le : (n : ℕ) (ys : List ℕ) → n < 65536 → read_u16 (u16_le n ++ ys) ≡ some (n, ys)
unfolding read_u16 u16_le
read_u16-u16_le n ys h = ap (λ (m : ℕ). some (m, ys)) (omega arith)

dek-le-align : (nonce dek cipher : List ℕ) → length dek ≤ length (align nonce dek cipher)
unfolding align u16_le
dek-le-align nonce dek cipher =
    omega (arith, length-append nonce (dek ++ cipher), length-append dek cipher)

module _ {SafeKey : Type 0} (ring : Ring SafeKey) where
  -- Parsing gives back the three parts that were aligned, if the nonce has 12 bytes and the data
  -- key's ciphertext fits its 16-bit length.
  pub parse-align :
      (nonce dek cipher : List ℕ)
      → length nonce ≡ nonce_len
      → length dek < 65536
      → parse ring (align nonce dek cipher) ≡ ok (nonce, dek, cipher)
  unfolding parse align read_u16
  parse-align nonce dek cipher n k =
      rw (read_u16-u16_le nonce_len _ (omega arith), read_u16-u16_le (length dek) _ k)
        (rw (
          ltb_of_le (length (align nonce dek cipher)) (length dek) (dek-le-align nonce dek cipher),
          read_exact-append_of nonce_len nonce (dek ++ cipher) n,
          read_exact-append dek cipher,
        ))

-- A byte string.
abbrev pub Bytes : List ℕ → Type 0
Bytes d = All (λ b. b < 256) d

read_exact-eq-some :
    (n : ℕ) (d a r : List ℕ) → read_exact n d ≡ some (a, r) → (d ≡ a ++ r) × (length a ≡ n)
unfolding read_exact
read_exact-eq-some n d a r h =
    (ground (arith, take-append-drop n d), ground (arith, length-take n d))

u16_le_bytes : (c e : ℕ) → c < 256 → e < 256 → u16_le (c + e * 256) ≡ c ∷ e ∷ []
unfolding u16_le
u16_le_bytes c e hc he =
    let low : (c + e * 256) % 65536 % 256 ≡ c = omega arith in
    let high : (c + e * 256) % 65536 / 256 ≡ e = omega arith in cc (low, high)

align_of_bytes :
    (x y z w : ℕ) (d nonce dek cipher : List ℕ)
    → (x < 256) × (y < 256) × (z < 256) × (w < 256)
    → x + y * 256 ≡ 12
    → length dek ≡ z + w * 256
    → d ≡ nonce ++ (dek ++ cipher)
    → x ∷ y ∷ z ∷ w ∷ d ≡ align nonce dek cipher
unfolding align
align_of_bytes x y z w d nonce dek cipher (hx, hy, hz, hw) twelve l e =
    let first : u16_le 12 ≡ x ∷ y ∷ [] = rw (← twelve) (u16_le_bytes x y hx hy) in
    let second : u16_le (length dek) ≡ z ∷ w ∷ [] = rw l (u16_le_bytes z w hz hw) in
    rw (first, second, e)

module _ {SafeKey : Type 0} (ring : Ring SafeKey) where
  parse_cons-eq-ok :
      (a b c e : ℕ) (d nonce dek cipher : List ℕ)
      → parse ring (a ∷ b ∷ c ∷ e ∷ d) ≡ ok (nonce, dek, cipher)
      → (a + b * 256 ≡ 12)
        × (read_exact 12 d ≡ some (nonce, drop 12 d))
        × (read_exact (c + e * 256) (drop 12 d) ≡ some (dek, cipher))
  unfolding parse read_u16 read_exact
  parse_cons-eq-ok a b c e d nonce dek cipher h = ground arith

  -- Bytes that parse are the aligned bytes of the parts, and the nonce has 12 bytes.
  pub align-parse :
      (d nonce dek cipher : List ℕ)
      → Bytes d
      → parse ring d ≡ ok (nonce, dek, cipher)
      → (d ≡ align nonce dek cipher) × (length nonce ≡ nonce_len)
  unfolding parse read_u16
  align-parse [] nonce dek cipher b h = cc
  align-parse (x ∷ []) nonce dek cipher b h = cc
  align-parse (x ∷ y ∷ []) nonce dek cipher b h = ground arith
  align-parse (x ∷ y ∷ z ∷ []) nonce dek cipher b h = ground arith
  align-parse (x ∷ y ∷ z ∷ w ∷ d) nonce dek cipher b h =
      let (twelve, e1, e2) = parse_cons-eq-ok x y z w d nonce dek cipher h in
      let (d1, l1) = read_exact-eq-some 12 d nonce (drop 12 d) e1 in
      let (d2, l2) = read_exact-eq-some (z + w * 256) (drop 12 d) dek cipher e2 in
      (
        align_of_bytes x y z w d nonce dek cipher (b.0, b.1.0, b.1.1.0, b.1.1.1.0) twelve l2 (cc),
        l1,
      )

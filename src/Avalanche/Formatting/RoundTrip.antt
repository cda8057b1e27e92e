-- ===== src/Avalanche/Formatting/RoundTrip.antt =====
-- What decoding CB58 accepts, and that it undoes encoding.
use avalanche_ops.Avalanche.Formatting.{
  Codecs, checksum_of, decode_cb58_with_checksum, encode_cb58_with_checksum, eq_vectors, verify,
  all_eq, ok, check, checksum_length,
}
use avalanche_ops.Prelude.{
  [], List, String, ℕ, length, ◌≡◌, true, ◌++◌, ◌↔◌, Bool-cases, arith, ◌∷◌, inr, leb, length-drop,
  refl, ◌-◌, inl, length-append, sym, ◌∙◌, ap, take-append-drop, take_all_append, drop_all_append,
  take,
}
use avalanche_ops.Outcome.{ok, done, Attempt-cases, refuse_if-eq-ok}

eq_vectors-eq : (va vb : List ℕ) → eq_vectors va vb ≡ true ↔ (va ≡ vb)
unfolding eq_vectors all_eq
eq_vectors-eq [] [] = (λ h. refl, λ h. refl)
eq_vectors-eq [] (b ∷ vb) = (λ h. ground arith, λ h. cc)
eq_vectors-eq (a ∷ va) [] = (λ h. ground arith, λ h. cc)
eq_vectors-eq (a ∷ va) (b ∷ vb) =
    let tails = eq_vectors-eq va vb in
    (
      λ h. let e : va ≡ vb = ground arith in let f : a ≡ b = ground arith in rw (e, f) refl,
      λ h. let e : va ≡ vb = cc in let f : a ≡ b = cc in ground arith,
    )

module _ (codecs : Codecs) where
  length-checksum_of :
      (d : List ℕ) → length (codecs.sha256 d) ≡ 32 → length (checksum_of codecs d) ≡ 4
  unfolding checksum_of
  length-checksum_of d l =
      omega (arith, length-drop (length (codecs.sha256 d) - checksum_length) (codecs.sha256 d), l)

  check-ok : (c o d : List ℕ) → check codecs c o ≡ ok d → (c ≡ checksum_of codecs o) × (o ≡ d)
  unfolding check
  check-ok c o d h =
      let e = (refuse_if-eq-ok _ _ (ok o) h) in
      ((eq_vectors-eq c (checksum_of codecs o)).0 (ground arith), cc (e.1))

  verify-ok :
      (decoded d : List ℕ) → verify codecs decoded ≡ ok d → decoded ≡ d ++ checksum_of codecs d
  unfolding verify
  verify-ok decoded d h = elim (Bool-cases (leb checksum_length (length decoded))) [
    | inr short ↦ let g = rw short at h in cc g
    | inl long ↦
        let (c, o) = check-ok _ _ d (rw long at h) in
        sym (take-append-drop (length decoded - checksum_length) decoded)
        ∙ ap (λ x. take (length decoded - checksum_length) decoded ++ x) c
        ∙ ap (λ x. x ++ checksum_of codecs x) o
  ]

  verify-checked :
      (d : List ℕ)
      → length (codecs.sha256 d) ≡ 32
      → verify codecs (d ++ checksum_of codecs d) ≡ ok d
  unfolding verify check
  verify-checked d l =
      let four = length-checksum_of d l in
      let n : length (d ++ checksum_of codecs d) - checksum_length ≡ length d =
        omega (arith, length-append d (checksum_of codecs d)) in
      let long : leb checksum_length (length (d ++ checksum_of codecs d)) ≡ true =
        ground (arith, length-append d (checksum_of codecs d)) in
      rw
        (
          n,
          long,
          take_all_append d (checksum_of codecs d),
          drop_all_append d (checksum_of codecs d),
          (eq_vectors-eq (checksum_of codecs d) (checksum_of codecs d)).1 refl,
        )
        refl

  -- If a hash has 32 bytes, decoding accepts exactly the texts whose base58 is the bytes with their
  -- checksum.
  pub decode_cb58-ok_iff :
      (s : String) (d : List ℕ)
      → length (codecs.sha256 d) ≡ 32
      → decode_cb58_with_checksum codecs s ≡ ok d
        ↔ (codecs.base58_from s ≡ done (d ++ checksum_of codecs d))
  unfolding decode_cb58_with_checksum
  decode_cb58-ok_iff s d l = elim (Attempt-cases (codecs.base58_from s)) [
    | inr (e, failed) ↦ (λ h. let g = rw failed at h in cc g, λ h. cc (h, failed))
    | inl (decoded, found) ↦ (
      λ h. found ∙ ap (λ x. done x) (verify-ok decoded d (rw found at h)),
      λ h. rw h (verify-checked d l),
    )
  ]

  -- If base58 decodes what it encodes, and a hash has 32 bytes, decoding undoes encoding.
  pub decode_cb58-encode_cb58 :
      (d : List ℕ)
      → length (codecs.sha256 d) ≡ 32
      → codecs.base58_from (codecs.encode_slice (d ++ checksum_of codecs d))
        ≡ done (d ++ checksum_of codecs d)
      → decode_cb58_with_checksum codecs (encode_cb58_with_checksum codecs d) ≡ ok d
  unfolding encode_cb58_with_checksum
  decode_cb58-encode_cb58 d l b = (decode_cb58-ok_iff (encode_cb58_with_checksum codecs d) d l).1 b

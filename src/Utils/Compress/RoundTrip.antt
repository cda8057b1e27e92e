-- ===== src/Utils/Compress/RoundTrip.antt =====
-- Packing and unpacking, and the ids of the algorithms.
use avalanche_ops.Utils.Compress.{
  id, new, pack, unpack, Codecs, Encoder, Decoder, gunzip, ok, zstd, unzstd, zstd_base58,
  unzstd_base58, gzip,
}
use avalanche_ops.Prelude.{
  String, List, ◌≡◌, ℕ, ℤ, ◌↔◌, ◌≢◌, Bool-cases, pos, arith, str_eq, inl, negsuc, eq_iff, refl, inr,
  ◌⊎◌, ◌==◌, false, if◌then◌else◌, ◌∙◌, sym,
}
use avalanche_ops.Outcome.{ok, done, >>=-eq-ok, Outcome}
use avalanche_ops.Io.{Error}

-- The decoder that goes with an encoder.
abbrev pub decoder_of : Encoder → Decoder
decoder_of gzip = gunzip
decoder_of (zstd level) = unzstd
decoder_of (zstd_base58 level) = unzstd_base58

-- Each library decodes what it encoded.
pub record IsLossless (codecs : Codecs) : Type 0 where
  pub gz : (d e : List ℕ) → codecs.gz_encode d ≡ ok e → codecs.gz_decode e ≡ ok d
  pub zstd_all :
      (d e : List ℕ) (level : ℤ)
      → codecs.zstd_encode_all d level ≡ ok e
      → codecs.zstd_decode_all e ≡ ok d
  pub bs58 : (d : List ℕ) → codecs.bs58_decode (codecs.bs58_encode d) ≡ done d

-- If the libraries are lossless, what was packed is unpacked by the decoder of the same algorithm to
-- the bytes it was packed from.
pub unpack-pack :
    (codecs : Codecs) (d e : List ℕ) (encoder : Encoder)
    → IsLossless codecs
    → pack codecs d encoder ≡ ok e
    → unpack codecs e (decoder_of encoder) ≡ ok d
unfolding pack unpack
unpack-pack codecs d e gzip l h = l.gz d e h
unpack-pack codecs d e (zstd level) l h = l.zstd_all d e level h
unpack-pack codecs d e (zstd_base58 level) l h =
    let (c, packed, same) =
      >>=-eq-ok (codecs.zstd_encode_all d level) (λ x. ok (codecs.bs58_encode x)) h in
    let e1 : codecs.bs58_encode c ≡ e = cc in rw (← e1, l.bs58 c) (l.zstd_all d c level packed)

level_cases :
    (n : ℕ)
    → (n ≡ 1) ⊎ (n ≡ 2) ⊎ (n ≡ 3) ⊎ (((n == 1) ≡ false) × ((n == 2) ≡ false) × ((n == 3) ≡ false))
level_cases n = ground arith

new-id : (e : Encoder) → id e ≢ "unknown" → new (id e) ≡ ok e
unfolding new id
new-id gzip h = refl
new-id (zstd (pos n)) h = elim (level_cases n) [
  | inl e ↦ rw e refl
  | inr (inl e) ↦ rw e refl
  | inr (inr (inl e)) ↦ rw e refl
  | inr (inr (inr (a, b, c))) ↦ absurd (h (rw (a, b, c) refl))
]
new-id (zstd (negsuc n)) h = absurd (h refl)
new-id (zstd_base58 (pos n)) h = elim (level_cases n) [
  | inl e ↦ rw e refl
  | inr (inl e) ↦ rw e refl
  | inr (inr (inl e)) ↦ rw e refl
  | inr (inr (inr (a, b, c))) ↦ absurd (h (rw (a, b, c) refl))
]
new-id (zstd_base58 (negsuc n)) h = absurd (h refl)

-- One test of a chain that takes the first id that fits.
chain_step :
    (s t : String) (a e : Encoder) (m : Outcome Error Encoder)
    → id a ≡ t
    → (m ≡ ok e → id e ≡ s)
    → (if str_eq s t then ok a else m) ≡ ok e
    → id e ≡ s
chain_step s t a e m i k h = elim (Bool-cases (str_eq s t)) [
  | inl same ↦
      let found : a ≡ e = (let g = rw same at h in cc) in
      rw (← found) (i ∙ sym ((eq_iff s t).0 same))
  | inr differs ↦ k (rw differs at h)
]

id-new : (s : String) (e : Encoder) → new s ≡ ok e → id e ≡ s
unfolding new id
id-new s e = chain_step s "gzip" gzip e _ refl (
    chain_step s "zstd1" (zstd (pos 1)) e _ refl (
      chain_step s "zstd2" (zstd (pos 2)) e _ refl (
        chain_step s "zstd3" (zstd (pos 3)) e _ refl (
          chain_step s "zstd1-base58" (zstd_base58 (pos 1)) e _ refl (
            chain_step s "zstd2-base58" (zstd_base58 (pos 2)) e _ refl
              (chain_step s "zstd3-base58" (zstd_base58 (pos 3)) e _ refl (λ h. cc)))))))

-- A string is accepted as an encoder exactly when it is the encoder's id and not the id "unknown" that
-- the levels without an id share.
pub new-ok_iff : (s : String) (e : Encoder) → new s ≡ ok e ↔ ((id e ≡ s) × (s ≢ "unknown"))
new-ok_iff s e = (
  λ h. (id-new s e h, λ u. (let g = rw u at h in unfold new in cc g)),
  λ (i, u). rw (← i) (new-id e (rw i u)),
)

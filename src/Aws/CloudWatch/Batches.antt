-- ===== src/Aws/CloudWatch/Batches.antt =====
-- Batching loses nothing, keeps the order, and stays within the limit of the service.
use avalanche_ops.Prelude.{
  ℕ, zero, suc, ◌≤◌, ◌<◌, ◌≡◌, refl, List, [], ◌∷◌, ◌++◌, length, drop, All, arith,
  take-append-drop, length-take, length-drop, sym, append_assoc, inl, ◌+◌, inr, ◌∙◌, Bool-cases, ap,
  append-nil,
}
use avalanche_ops.Aws.CloudWatch.{
  chunks_from, Answer, ErrorKind, post_batches, ok, put_metric_data, batch_limit, chunks, leb,
}
use avalanche_ops.Aws.Sdk.{Answer-cases}

module _ {ℓ} {A : Type ℓ} where
  pub concat : List (List A) → List A
  concat [] = []
  concat (xs ∷ xss) = xs ++ concat xss

  chunks_from-concat :
      (fuel n : ℕ) (xs : List A) → 0 < n → length xs ≤ fuel → concat (chunks_from fuel n xs) ≡ xs
  unfolding chunks_from concat
  chunks_from-concat zero n [] p h = refl
  chunks_from-concat zero n (x ∷ xs) p h = absurd (omega arith)
  chunks_from-concat (suc fuel) n [] p h = refl
  chunks_from-concat (suc fuel) n (x ∷ xs) p h =
      rw (chunks_from-concat fuel n (drop n (x ∷ xs)) p (omega (arith, length-drop n (x ∷ xs))))
        (take-append-drop n (x ∷ xs))

  chunks_from-All : (fuel n : ℕ) (xs : List A) → All (λ b. length b ≤ n) (chunks_from fuel n xs)
  unfolding chunks_from
  chunks_from-All zero n xs = tt
  chunks_from-All (suc fuel) n [] = tt
  chunks_from-All (suc fuel) n (x ∷ xs) =
      (omega (arith, length-take n (x ∷ xs)), chunks_from-All fuel n (drop n (x ∷ xs)))

All-prefix {ℓ} : {A : Type ℓ} (P : A → Type 0) (xs ys : List A) → All P (xs ++ ys) → All P xs
All-prefix P [] ys h = tt
All-prefix P (x ∷ xs) ys (p, h) = (p, All-prefix P xs ys h)

concat-append {ℓ} :
    {A : Type ℓ} (xs ys : List (List A)) → concat (xs ++ ys) ≡ concat xs ++ concat ys
unfolding concat
concat-append [] ys = refl
concat-append (x ∷ xs) ys = rw (concat-append xs ys) (sym (append_assoc x (concat xs) (concat ys)))

module _ {Datum : Type 0} (send : ℕ → List Datum → Answer ErrorKind (Unit {0})) where
  -- What was sent is the first batches in order, and all of them if the result is `Ok`.
  post_batches_lem :
      (k : ℕ) (batches : List (List Datum))
      → (rest : List (List Datum)) × ((post_batches send k batches).1 ++ rest ≡ batches)
        × ((post_batches send k batches).0 ≡ ok tt → rest ≡ [])
  unfolding post_batches
  post_batches_lem k [] = ([], refl, λ _. refl)
  post_batches_lem k (batch ∷ batches) = elim (Answer-cases (send k batch)) [
    | inl (r, e) ↦
        let (rest, split, all) = post_batches_lem (k + 1) batches in
        (rest, rw e (rw split refl), rw e all)
    | inr (e, s, p) ↦ (batches, rw p refl, rw p (λ done. cc))
  ]

  posted_lem :
      (batches : List (List Datum)) (xs : List Datum)
      → All (λ b. length b ≤ batch_limit) batches
      → concat batches ≡ xs
      → All (λ b. length b ≤ batch_limit) (post_batches send 0 batches).1
        × ((rest : List Datum) × (concat (post_batches send 0 batches).1 ++ rest ≡ xs)
            × ((post_batches send 0 batches).0 ≡ ok tt → rest ≡ []))
  unfolding concat
  posted_lem batches xs small e =
      let (rest, split, all) = post_batches_lem 0 batches in
      let sent : List (List Datum) = (post_batches send 0 batches).1 in
      (
        All-prefix _ sent rest (rw (← split) at small),
        (
          concat rest,
          sym (concat-append sent rest) ∙ ap concat split ∙ e,
          λ done. ap concat (all done),
        ),
      )

  -- Whatever the service answers, the batches sent have at most 20 metrics each and are, joined, an
  -- initial part of the metrics; they are all of the metrics if the result is `Ok`.
  pub put_metric_data_lem :
      (xs : List Datum)
      → All (λ b. length b ≤ batch_limit) (put_metric_data send xs).1
        × ((rest : List Datum) × (concat (put_metric_data send xs).1 ++ rest ≡ xs)
            × ((put_metric_data send xs).0 ≡ ok tt → rest ≡ []))
  unfolding put_metric_data chunks concat
  put_metric_data_lem xs = elim (Bool-cases (leb (length xs) batch_limit)) [
    | inl few ↦ rw few (posted_lem (xs ∷ []) xs (ground arith, tt) (append-nil xs))
    | inr many ↦ rw many (
        posted_lem (chunks batch_limit xs) xs (chunks_from-All (length xs) batch_limit xs)
          (chunks_from-concat (length xs) batch_limit xs (omega arith) (omega arith)))
  ]

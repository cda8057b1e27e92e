-- ===== src/Ops/Apply/Loops.antt =====
-- The loops of `apply`: the wait for a stack, the wait for the nodes, the tries of a health check.
use avalanche_ops.Prelude.{
  String, List, ◌∷◌, ℕ, zero, suc, ◌+◌, ◌*◌, ◌≤◌, ◌<◌, ◌≡◌, ◌↔◌, refl, Bool, true, false, arith,
  Bool-cases, inl, inr, length, ◌%◌, leb, ap, if◌then◌else◌,
}
use Prim.Native.Nat.{min}
use avalanche_ops.Outcome.{ok, Attempt, done, err}
use avalanche_ops.Run.{ask, lift, ◌>>=◌, request}
use avalanche_ops.Spec.{Spec}
use avalanche_ops.Ops.Requests.{World, Request, wait_secs, health_check, list_objects}
use avalanche_ops.Ops.Apply.Endpoints.{try_health, healthy, check_health, unhealthy}
use avalanche_ops.Ops.Apply.Nodes.{await_objects}
use avalanche_ops.Aws.S3.{Object}

-- For any number of nodes that a `u32` can hold, the sum does not overflow, and the time that a group
-- is given is five minutes and a minute for each node, or fifty minutes when that is less.
pub wait_secs-bounds :
    (n : ℕ)
    → n < 4294967296
    → (wait_secs n ≡ min (300 + 60 * n) 3000) × (300 ≤ wait_secs n) × (wait_secs n ≤ 3000)
unfolding wait_secs
wait_secs-bounds n small = ground arith

-- The log after a request was sent a number of times.
abbrev pub sent_times : {V : Type 0} → V → ℕ → List V → List V
sent_times v zero log = log
sent_times v (suc n) log = sent_times v n (v ∷ log)

module _ {C E : Type 0} (world : World (Spec C E)) (spec_file_path uri : String) where
  -- the verdict of a try, counted from zero
  abbrev pub verdict : List (Request (Spec C E)) → ℕ → Bool
  verdict log i = healthy (world.health (sent_times (health_check uri) (suc i) log))

  -- some of the tries is healthy
  abbrev pub SomeHealthy : ℕ → List (Request (Spec C E)) → Type 0
  SomeHealthy tries log = (i : ℕ) × (i < tries) × (verdict log i ≡ true)

  SomeHealthy-suc :
      (tries : ℕ) (log : List (Request (Spec C E)))
      → verdict log 0 ≡ false
      → SomeHealthy (suc tries) log
      → SomeHealthy tries (health_check uri ∷ log)
  SomeHealthy-suc tries log bad (zero, less, good) = cc (bad, good)
  SomeHealthy-suc tries log bad (suc i, less, good) = (i, omega arith, good)

  try_health_lem :
      (tries : ℕ) (log : List (Request (Spec C E)))
      → (try_health world spec_file_path false uri tries log).0 ≡ ok true ↔ SomeHealthy tries log
  unfolding try_health ask lift ◌>>=◌
  try_health_lem zero log = (λ h. cc, λ h. absurd (omega (arith, h.1)))
  try_health_lem (suc tries) log =
      let (forth, back) = try_health_lem tries (health_check uri ∷ log) in
      elim (Bool-cases (verdict log 0)) [
        | inl good ↦ (λ h. (0, omega arith, good), λ h. rw (good) refl)
        | inr bad ↦ (
          λ h. let (i, less, good) = forth (rw bad at h) in (suc i, omega (arith, less), good),
          λ h. rw (bad) (back (SomeHealthy-suc tries log bad h)),
        )
      ]

  -- The tries end, with a verdict and with no more requests than tries.
  try_health-returns :
      (tries : ℕ) (log : List (Request (Spec C E)))
      → (b : Bool) × (log' : List (Request (Spec C E))) × (try_health world spec_file_path false uri
            tries log
          ≡ (ok b, log'))
        × (length log' ≤ length log + tries)
  unfolding try_health ask lift ◌>>=◌
  try_health-returns zero log = (false, log, refl, omega arith)
  try_health-returns (suc tries) log =
      let (b, log', e, bound) = try_health-returns tries (health_check uri ∷ log) in
      elim (Bool-cases (verdict log 0)) [
        | inl good ↦ (true, health_check uri ∷ log, rw (good) refl, omega arith)
        | inr bad ↦ (b, log', rw (bad) e, omega (arith, bound))
      ]

  check_health-by_tries :
      (log log' : List (Request (Spec C E))) (b : Bool)
      → try_health world spec_file_path false uri 10 log ≡ (ok b, log')
      → ((check_health world spec_file_path false uri log).0 ≡ ok tt
          ↔ (try_health world spec_file_path false uri 10 log).0 ≡ ok true)
        × ((check_health world spec_file_path false uri log).1 ≡ log')
  unfolding check_health ◌>>=◌ lift
  check_health-by_tries log log' true e = ((λ h. ap (λ p. p.0) e, λ h. rw (e) refl), rw (e) refl)
  check_health-by_tries log log' false e =
      ((λ h. let stopped : err unhealthy ≡ ok tt = rw e at h in cc, λ h. cc (h)), rw (e) refl)

  check_health-backup :
      (log : List (Request (Spec C E)))
      → check_health world spec_file_path true uri log ≡ (ok tt, health_check uri ∷ log)
  unfolding check_health try_health ask ◌>>=◌ lift
  check_health-backup log = elim (Bool-cases (verdict log 0)) [
    | inl good ↦ rw (good) refl
    | inr bad ↦ rw (bad) refl
  ]

  -- A health check sends at most ten requests, and succeeds exactly when one of the first ten answers
  -- is healthy; with a database backup it sends one request and succeeds whatever the answer is.
  pub check_health-ok_iff :
      (log : List (Request (Spec C E)))
      → ((check_health world spec_file_path false uri log).0 ≡ ok tt ↔ SomeHealthy 10 log)
        × (length (check_health world spec_file_path false uri log).1 ≤ length log + 10)
        × (check_health world spec_file_path true uri log ≡ (ok tt, health_check uri ∷ log))
  check_health-ok_iff log =
      let (b, log', e, bound) = try_health-returns 10 log in
      let (forth, back) = try_health_lem 10 log in
      let (same, sent) = check_health-by_tries log log' b e in
      ((λ h. forth (same.0 h), λ h. same.1 (back h)), rw (sent) bound, check_health-backup log)

module _ {C E : Type 0} (world : World (Spec C E)) (spec_file_path bucket prefix : String)
    (target rounds : ℕ) where
  -- The listings, counted from zero.
  abbrev pub listing : List (Request (Spec C E)) → ℕ → Attempt (List Object)
  listing log i = world.listed (sent_times (list_objects bucket prefix) (suc i) log)

  -- A round either ends the wait or leaves it to the next one.
  await_objects-suc :
      (fuel : ℕ) (log : List (Request (Spec C E))) (os : List Object)
      → listing log 0 ≡ done os
      → await_objects world spec_file_path rounds (suc fuel) bucket prefix target log ≡ (
          if leb target (length os % 4294967296)
          then (ok os, list_objects bucket prefix ∷ log)
          else await_objects world spec_file_path rounds fuel bucket prefix target
              (list_objects bucket prefix ∷ log))
  unfolding await_objects request lift ◌>>=◌
  await_objects-suc fuel log os first = elim (Bool-cases (leb target (length os % 4294967296))) [
    | inl there ↦ rw (first, there) refl
    | inr few ↦ rw (first, few) refl
  ]

  -- The wait for the nodes is over when they are there: if every listing up to one is answered, and
  -- that one has enough objects, then any number of rounds above it ends with enough objects.
  pub await_objects-returns :
      (i fuel : ℕ) (log : List (Request (Spec C E)))
      → i < fuel
      → ((j : ℕ) → j ≤ i → (os : List Object) × (listing log j ≡ done os))
      → ((os : List Object) → listing log i ≡ done os → target ≤ length os % 4294967296)
      → (os : List Object) × ((await_objects world spec_file_path rounds fuel bucket prefix target
            log).0
          ≡ ok os)
        × (target ≤ length os % 4294967296)
  await_objects-returns i zero log less answered enough = absurd (omega (arith, less))
  await_objects-returns zero (suc fuel) log less answered enough =
      let (os, first) = answered 0 (omega arith) in
      let there : leb target (length os % 4294967296) ≡ true =
        (let bound = enough os first in ground arith) in
      (os, rw (await_objects-suc fuel log os first, there) refl, enough os first)
  await_objects-returns (suc i) (suc fuel) log less answered enough =
      let (os, first) = answered 0 (omega arith) in
      let (found, returned, bound) =
        await_objects-returns i fuel (list_objects bucket prefix ∷ log) (omega (arith, less))
          (λ j h. answered (suc j) (omega (arith, h))) enough in
      elim (Bool-cases (leb target (length os % 4294967296))) [
        | inl there ↦ (os, rw (await_objects-suc fuel log os first, there) refl, ground arith)
        | inr few ↦ (found, rw (await_objects-suc fuel log os first, few) returned, bound)
      ]

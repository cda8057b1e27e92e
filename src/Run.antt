-- ===== src/Run.antt =====
-- A command as a function of the requests it has sent, the newest first: it returns its result and
-- the requests after it. The answers of the outside world may depend on all the requests before.
pub mod Keeps
pub mod Triple
pub mod Sends
use avalanche_ops.Prelude.{List, ◌∷◌, Option, some, none, ℕ}
use avalanche_ops.Outcome.{Outcome, ok, err, panic, Attempt, done, failed}

abbrev pub Run {ℓ} : Type 0 → Type 0 → Type ℓ → Type ℓ
Run V E A = List V → Outcome E A × List V

-- `unwrap` or `expect` of a library's answer
abbrev pub unwrap_attempt {ℓ} : {E : Type 0} {A : Type ℓ} → Attempt A → Outcome E A
unwrap_attempt (done a) = ok a
unwrap_attempt (failed e) = panic

-- `unwrap` or `expect` of a result of the program's own
abbrev pub unwrap_outcome {ℓ} : {E F : Type 0} {A : Type ℓ} → Outcome F A → Outcome E A
unwrap_outcome (ok a) = ok a
unwrap_outcome (err e) = panic
unwrap_outcome panic = panic

module _ {V E : Type 0} where
  abbrev pub after {ℓ κ} :
      {A : Type ℓ} {B : Type κ} → (Outcome E A × List V) → (A → Run V E B) → Outcome E B × List V
  after (ok a, log) f = f a log
  after (err e, log) f = (err e, log)
  after (panic, log) f = (panic, log)

  infixl 5 ◌>>=◌ ◌>>◌
  unfoldable pub ◌>>=◌ {ℓ κ} : {A : Type ℓ} {B : Type κ} → Run V E A → (A → Run V E B) → Run V E B
  (m >>= f) log = after (m log) f

  abbrev pub ◌>>◌ {ℓ} : {B : Type ℓ} → Run V E (Unit {0}) → Run V E B → Run V E B
  m >> k = m >>= λ _. k

  -- what sends no request
  unfoldable pub lift {ℓ} : {A : Type ℓ} → Outcome E A → Run V E A
  lift m log = (m, log)

  abbrev pub return {ℓ} : {A : Type ℓ} → A → Run V E A
  return a = lift (ok a)

  -- a request, and `unwrap` or `expect` of its answer
  unfoldable pub request {ℓ} : {A : Type ℓ} → V → (List V → Attempt A) → Run V E A
  request v answer log = (unwrap_attempt (answer (v ∷ log)), v ∷ log)

  -- a request, and `?` on its answer
  unfoldable pub request_or {ℓ} : {A : Type ℓ} → V → (List V → Outcome E A) → Run V E A
  request_or v answer log = (answer (v ∷ log), v ∷ log)

  -- a request whose answer, a failure too, is looked at
  unfoldable pub ask {ℓ} : {A : Type ℓ} → V → (List V → Attempt A) → Run V E (Attempt A)
  ask v answer log = (ok (answer (v ∷ log)), v ∷ log)

  -- something read outside that leaves no trace, and its `unwrap`
  unfoldable pub obtain {ℓ} : {A : Type ℓ} → (List V → Attempt A) → Run V E A
  obtain answer log = (unwrap_attempt (answer log), log)

  abbrev pub when_some {ℓ} : {A : Type ℓ} → Option A → (A → Run V E (Unit {0})) → Run V E (Unit {0})
  when_some none f = return tt
  when_some (some a) f = f a

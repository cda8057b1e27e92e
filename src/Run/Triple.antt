-- ===== src/Run/Triple.antt =====
-- Hoare triples for commands: from requests that satisfy `P`, the command returns with `Q`, or stops
-- with `R`.
use avalanche_ops.Prelude.{List, ◌∷◌, ◌≡◌, refl}
use mathlib.Core.Path.{subst}
use avalanche_ops.Outcome.{Outcome, ok, err, panic, Attempt, done, failed}
use avalanche_ops.Run.{Run, after, ◌>>=◌, lift, unwrap_attempt, request, request_or, obtain, ask}

-- How a command ends.
abbrev pub Ends {ℓ} :
    {V E : Type 0} {A : Type ℓ}
    → (A → List V → Type 0)
    → (List V → Type 0)
    → (Outcome E A × List V)
    → Type 0
Ends Q R (ok a, log) = Q a log
Ends Q R (err e, log) = R log
Ends Q R (panic, log) = R log

Ends-any {ℓ} :
    {V E : Type 0} {A : Type ℓ} (Q : A → List V → Type 0) (R : List V → Type 0)
    (end : Outcome E A × List V)
    → ((a : A) (log : List V) → Q a log → R log)
    → Ends Q R end
    → R end.1
Ends-any Q R (ok a, log) weaken h = weaken a log h
Ends-any Q R (err e, log) weaken h = h
Ends-any Q R (panic, log) weaken h = h

Ends-returned {ℓ} :
    {V E : Type 0} {A : Type ℓ} (Q : A → List V → Type 0) (R : List V → Type 0)
    (end : Outcome E A × List V) {a : A}
    → Ends Q R end
    → end.0 ≡ ok a
    → Q a end.1
Ends-returned Q R (ok b, log) {a} h e = let same : b ≡ a = cc in subst (λ x. Q x log) same h
Ends-returned Q R (err x, log) h e = cc
Ends-returned Q R (panic, log) h e = cc

unwrap_attempt-eq-ok {ℓ} :
    {E : Type 0} {A : Type ℓ} (t : Attempt A) {a : A} → unwrap_attempt {E = E} t ≡ ok a → t ≡ done a
unwrap_attempt-eq-ok (done b) h = cc
unwrap_attempt-eq-ok (failed e) h = cc

pub record Triple {ℓ} {V E : Type 0} {A : Type ℓ} (P : List V → Type 0) (m : Run V E A)
    (Q : A → List V → Type 0) (R : List V → Type 0) : Type 0 where
  pub ends : (log : List V) → P log → Ends Q R (m log)

module _ {V E : Type 0} (R : List V → Type 0) where
  after-Ends {ℓ κ} :
      {A : Type ℓ} {B : Type κ} (Q : A → List V → Type 0) (S : B → List V → Type 0)
      (end : Outcome E A × List V) (f : A → Run V E B)
      → Ends Q R end
      → ((a : A) → Triple (Q a) (f a) S R)
      → Ends S R (after end f)
  after-Ends Q S (ok a, log) f h k = (k a).ends log h
  after-Ends Q S (err e, log) f h k = h
  after-Ends Q S (panic, log) f h k = h

  Outcome-Ends {ℓ} :
      {A : Type ℓ} (Q : A → List V → Type 0) (log : List V) (t : Outcome E A)
      → ((a : A) → t ≡ ok a → Q a log)
      → R log
      → Ends Q R (t, log)
  Outcome-Ends Q log (ok a) h r = h a refl
  Outcome-Ends Q log (err e) h r = r
  Outcome-Ends Q log panic h r = r

module _ {V E : Type 0} {P R : List V → Type 0} where
  -- one command after another
  pub >>=-Triple {ℓ κ} :
      {A : Type ℓ} {B : Type κ} {Q : A → List V → Type 0} {S : B → List V → Type 0} {m : Run V E A}
      {f : A → Run V E B}
      → Triple P m Q R
      → ((a : A) → Triple (Q a) (f a) S R)
      → Triple P (m >>= f) S R
  unfolding ◌>>=◌
  >>=-Triple {Q = Q} {S = S} {m = m} {f = f} h k = record {
    ends = λ log p. after-Ends R Q S (m log) f (h.ends log p) k;
  }

  -- what sends nothing
  pub lift-Triple {ℓ} :
      {A : Type ℓ} {Q : A → List V → Type 0} (t : Outcome E A)
      → ((log : List V) → P log → ((a : A) → t ≡ ok a → Q a log) × R log)
      → Triple P (lift t) Q R
  unfolding lift
  lift-Triple {Q = Q} t h = record {
    ends = λ log p. Outcome-Ends R Q log t (h log p).0 (h log p).1;
  }

  pub return-Triple {ℓ} :
      {A : Type ℓ} {Q : A → List V → Type 0} (a : A)
      → ((log : List V) → P log → Q a log)
      → Triple P (lift {V = V} {E = E} (ok a)) Q R
  unfolding lift
  return-Triple a h = record { ends = h }

  pub request-Triple {ℓ} :
      {A : Type ℓ} {Q : A → List V → Type 0} (v : V) (answer : List V → Attempt A)
      → ((log : List V)
          → P log
          → ((a : A) → answer (v ∷ log) ≡ done a → Q a (v ∷ log)) × R (v ∷ log))
      → Triple {E = E} P (request v answer) Q R
  unfolding request
  request-Triple {Q = Q} v answer h = record {
    ends = λ log p.
        Outcome-Ends R Q (v ∷ log) (unwrap_attempt (answer (v ∷ log)))
          (λ a e. (h log p).0 a (unwrap_attempt-eq-ok (answer (v ∷ log)) e)) (h log p).1;
  }

  pub request_or-Triple {ℓ} :
      {A : Type ℓ} {Q : A → List V → Type 0} (v : V) (answer : List V → Outcome E A)
      → ((log : List V) → P log → ((a : A) → Q a (v ∷ log)) × R (v ∷ log))
      → Triple P (request_or v answer) Q R
  unfolding request_or
  request_or-Triple {Q = Q} v answer h = record {
    ends =
        λ log p. Outcome-Ends R Q (v ∷ log) (answer (v ∷ log)) (λ a e. (h log p).0 a) (h log p).1;
  }

  pub obtain-Triple {ℓ} :
      {A : Type ℓ} {Q : A → List V → Type 0} (answer : List V → Attempt A)
      → ((log : List V) → P log → ((a : A) → answer log ≡ done a → Q a log) × R log)
      → Triple {E = E} P (obtain answer) Q R
  unfolding obtain
  obtain-Triple {Q = Q} answer h = record {
    ends = λ log p.
        Outcome-Ends R Q log (unwrap_attempt (answer log))
          (λ a e. (h log p).0 a (unwrap_attempt-eq-ok (answer log) e)) (h log p).1;
  }

  pub ask-Triple {ℓ} :
      {A : Type ℓ} {Q : Attempt A → List V → Type 0} (v : V) (answer : List V → Attempt A)
      → ((log : List V) → P log → (t : Attempt A) → Q t (v ∷ log))
      → Triple {E = E} P (ask v answer) Q R
  unfolding ask
  ask-Triple v answer h = record { ends = λ log p. h log p (answer (v ∷ log)) }

-- what holds of a value that was returned
pub Triple-ok {ℓ} :
    {V E : Type 0} {A : Type ℓ} {P : List V → Type 0} {m : Run V E A} {Q : A → List V → Type 0}
    {R : List V → Type 0} (start : List V) (a : A) (log : List V)
    → Triple P m Q R
    → P start
    → m start ≡ (ok a, log)
    → Q a log
Triple-ok {E = E} {Q = Q} {R = R} start a log h p e = subst (λ end. Ends Q R end) e (h.ends start p)

-- what holds of the requests, however it ends, when that holds of them whenever it returns
pub Triple-any {ℓ} :
    {V E : Type 0} {A : Type ℓ} {P : List V → Type 0} {m : Run V E A} {Q : A → List V → Type 0}
    {R : List V → Type 0} (start : List V)
    → Triple P m Q R
    → ((a : A) (log : List V) → Q a log → R log)
    → P start
    → R (m start).1
Triple-any {m = m} {Q = Q} {R = R} start h weaken p = Ends-any Q R (m start) weaken (h.ends start p)

pub Triple-returned {ℓ} :
    {V E : Type 0} {A : Type ℓ} {P : List V → Type 0} {m : Run V E A} {Q : A → List V → Type 0}
    {R : List V → Type 0} (start : List V) {a : A}
    → Triple P m Q R
    → P start
    → (m start).0 ≡ ok a
    → Q a (m start).1
Triple-returned {m = m} {Q = Q} {R = R} start h p e = Ends-returned Q R (m start) (h.ends start p) e

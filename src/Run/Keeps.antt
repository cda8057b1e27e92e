-- ===== src/Run/Keeps.antt =====
-- Commands whose requests all satisfy a predicate, with what holds of the value that they return.
use avalanche_ops.Prelude.{
  List, ◌∷◌, ◌≡◌, refl, Bool, true, false, Option, none, some, if◌then◌else◌, All,
}
use avalanche_ops.Outcome.{Outcome, ok, err, panic, Attempt}
use avalanche_ops.Run.{
  Run, after, ◌>>=◌, lift, unwrap_attempt, request, request_or, obtain, ask, when_some, return,
}

abbrev pub Kept {ℓ} :
    {V E : Type 0} {A : Type ℓ}
    → (M : V → Type 0) → (Q : A → Type 0) → (Outcome E A × List V)
    → Type 0
Kept M Q (ok a, log) = All M log × Q a
Kept M Q (err e, log) = All M log
Kept M Q (panic, log) = All M log

pub record Keeps {ℓ} {V E : Type 0} {A : Type ℓ} (M : V → Type 0) (m : Run V E A) (Q : A → Type 0)
    : Type 0 where
  pub kept : (log : List V) → All M log → Kept M Q (m log)

-- the requests of a command, by how it ended
Kept-All {ℓ} :
    {V E : Type 0} {A : Type ℓ} (M : V → Type 0) (Q : A → Type 0) (end : Outcome E A × List V)
    → Kept M Q end
    → All M end.1
Kept-All M Q (ok a, log) h = h.0
Kept-All M Q (err e, log) h = h
Kept-All M Q (panic, log) h = h

pub Keeps-All {ℓ} :
    {V E : Type 0} {A : Type ℓ} {M : V → Type 0} {Q : A → Type 0} {m : Run V E A}
    → Keeps M m Q
    → (log : List V) → All M log
    → All M (m log).1
Keeps-All {M = M} {Q = Q} {m = m} h log all = Kept-All M Q (m log) (h.kept log all)

module _ {V E : Type 0} where
  Outcome-Kept {ℓ} :
      {A : Type ℓ} (M : V → Type 0) (Q : A → Type 0) (log : List V) (t : Outcome E A)
      → ((a : A) → t ≡ ok a → Q a)
      → All M log
      → Kept M Q (t, log)
  Outcome-Kept M Q log (ok a) h all = (all, h a refl)
  Outcome-Kept M Q log (err e) h all = all
  Outcome-Kept M Q log panic h all = all

  weaken {ℓ} :
      {A : Type ℓ} (M : V → Type 0) (Q S : A → Type 0) (end : Outcome E A × List V)
      → ((a : A) → Q a → S a)
      → Kept M Q end
      → Kept M S end
  weaken M Q S (ok a, log) k h = (h.0, k a h.1)
  weaken M Q S (err e, log) k h = h
  weaken M Q S (panic, log) k h = h

module _ {V E : Type 0} {M : V → Type 0} where
  after-Kept {ℓ κ} :
      {A : Type ℓ} {B : Type κ} (Q : A → Type 0) (S : B → Type 0) (end : Outcome E A × List V)
      (f : A → Run V E B)
      → Kept M Q end
      → ((a : A) → Q a → Keeps M (f a) S)
      → Kept M S (after end f)
  after-Kept Q S (ok a, log) f h k = (k a h.1).kept log h.0
  after-Kept Q S (err e, log) f h k = h
  after-Kept Q S (panic, log) f h k = h

  -- one command after another
  pub chain {ℓ κ} :
      {A : Type ℓ} {B : Type κ} {Q : A → Type 0} {S : B → Type 0} {m : Run V E A}
      {f : A → Run V E B}
      → Keeps M m Q
      → ((a : A) → Q a → Keeps M (f a) S)
      → Keeps M (m >>= f) S
  unfolding ◌>>=◌
  chain {Q = Q} {S = S} {m = m} {f = f} h k = record {
    kept = λ log all. after-Kept Q S (m log) f (h.kept log all) k;
  }

  -- what sends nothing
  pub lift-Keeps {ℓ} :
      {A : Type ℓ} {Q : A → Type 0} {t : Outcome E A}
      → ((a : A) → t ≡ ok a → Q a)
      → Keeps M (lift t) Q
  unfolding lift
  lift-Keeps {Q = Q} {t = t} h = record { kept = λ log all. Outcome-Kept M Q log t h all }

  pub lift_any-Keeps {ℓ} : {A : Type ℓ} (t : Outcome E A) → Keeps M (lift t) (λ (a : A). Unit)
  lift_any-Keeps t = lift-Keeps (λ a e. tt)

  pub obtain-Keeps {ℓ} :
      {A : Type ℓ} (answer : List V → Attempt A) → Keeps {E = E} M (obtain answer) (λ (a : A). Unit)
  unfolding obtain
  obtain-Keeps answer = record {
    kept = λ log all. Outcome-Kept M (λ a. Unit) log (unwrap_attempt (answer log)) (λ a e. tt) all;
  }

  pub request-Keeps {ℓ} :
      {A : Type ℓ} (v : V) (answer : List V → Attempt A)
      → M v
      → Keeps {E = E} M (request v answer) (λ (a : A). Unit)
  unfolding request
  request-Keeps v answer h = record {
    kept = λ log all.
        Outcome-Kept M (λ a. Unit) (v ∷ log) (unwrap_attempt (answer (v ∷ log))) (λ a e. tt)
          (h, all);
  }

  pub request_or-Keeps {ℓ} :
      {A : Type ℓ} (v : V) (answer : List V → Outcome E A)
      → M v
      → Keeps M (request_or v answer) (λ (a : A). Unit)
  unfolding request_or
  request_or-Keeps v answer h = record {
    kept = λ log all. Outcome-Kept M (λ a. Unit) (v ∷ log) (answer (v ∷ log)) (λ a e. tt) (h, all);
  }

  pub ask-Keeps {ℓ} :
      {A : Type ℓ} (v : V) (answer : List V → Attempt A)
      → M v
      → Keeps {E = E} M (ask v answer) (λ (t : Attempt A). Unit)
  unfolding ask
  ask-Keeps v answer h = record { kept = λ log all. ((h, all), tt) }

  pub when_some-Keeps {ℓ} :
      {A : Type ℓ} (o : Option A) {f : A → Run V E (Unit {0})}
      → ((a : A) → Keeps M (f a) (λ u. Unit))
      → Keeps M (when_some o f) (λ u. Unit)
  unfolding lift
  when_some-Keeps none k = record { kept = λ log all. (all, tt) }
  when_some-Keeps (some a) k = k a

  pub if-Keeps {ℓ} :
      {A : Type ℓ} {Q : A → Type 0} (b : Bool) {m n : Run V E A}
      → (b ≡ true → Keeps M m Q)
      → (b ≡ false → Keeps M n Q)
      → Keeps M (if b then m else n) Q
  if-Keeps true h k = h refl
  if-Keeps false h k = k refl

  -- a command without a result to look at, and one that returns
  pub seq {ℓ κ} :
      {A : Type ℓ} {B : Type κ} {S : B → Type 0} {m : Run V E A} {f : A → Run V E B}
      → Keeps M m (λ a. Unit)
      → ((a : A) → Keeps M (f a) S)
      → Keeps M (m >>= f) S
  seq h k = chain h (λ a u. k a)

  pub return-Keeps {ℓ} : {A : Type ℓ} {Q : A → Type 0} (a : A) → Q a → Keeps {E = E} M (return a) Q
  unfolding lift
  return-Keeps {Q = Q} a q = record { kept = λ log all. (all, q) }

  pub Keeps-weaken {ℓ} :
      {A : Type ℓ} {Q S : A → Type 0} {m : Run V E A}
      → Keeps M m Q
      → ((a : A) → Q a → S a)
      → Keeps M m S
  Keeps-weaken {Q = Q} {S = S} {m = m} h k = record {
    kept = λ log all. weaken M Q S (m log) k (h.kept log all);
  }

-- ===== src/Run/Sends.antt =====
-- Commands that send a fixed list of requests: all of them when they return, and a prefix of them when
-- they stop.
use avalanche_ops.Prelude.{List, ◌∷◌, [], ◌++◌, ◌≡◌, refl, sym, ap, ◌∙◌, append_assoc}
use avalanche_ops.Outcome.{Outcome, ok, err, panic, Attempt, done, failed}
use avalanche_ops.Run.{Run, after, ◌>>=◌, lift, request, unwrap_attempt}

-- Requests sent in this order, onto a log.
abbrev pub onto : {V : Type 0} → List V → List V → List V
onto [] log = log
onto (v ∷ vs) log = onto vs (v ∷ log)

pub onto-append : {V : Type 0} (vs ws log : List V) → onto (vs ++ ws) log ≡ onto ws (onto vs log)
onto-append [] ws log = refl
onto-append (v ∷ vs) ws log = onto-append vs ws (v ∷ log)

-- What was sent before it stopped, and what was left.
abbrev pub Stopped : {V : Type 0} → (plan start log : List V) → Type 0
Stopped {V = V} plan start log =
    (sent : List V) × (left : List V) × (sent ++ left ≡ plan) × (log ≡ onto sent start)

abbrev pub Sent {ℓ} :
    {V E : Type 0} {A : Type ℓ} → (plan start : List V) → (Outcome E A × List V) → Type 0
Sent plan start (ok a, log) = log ≡ onto plan start
Sent plan start (err e, log) = Stopped plan start log
Sent plan start (panic, log) = Stopped plan start log

pub record Sends {ℓ} {V E : Type 0} {A : Type ℓ} (m : Run V E A) (plan : List V) : Type 0 where
  pub sends : (start : List V) → Sent plan start (m start)

Stopped-early :
    {V : Type 0} {plan start log : List V} (rest : List V)
    → Stopped plan start log
    → Stopped (plan ++ rest) start log
Stopped-early rest (sent, left, e, k) =
    (sent, left ++ rest, sym (append_assoc sent left rest) ∙ ap (λ p. p ++ rest) e, k)

Stopped-late :
    {V : Type 0} {rest start log : List V} (plan : List V)
    → Stopped rest (onto plan start) log
    → Stopped (plan ++ rest) start log
Stopped-late plan (sent, left, e, k) = (
  plan ++ sent,
  left,
  append_assoc plan sent left ∙ ap (λ q. plan ++ q) e,
  k ∙ sym (onto-append plan sent _),
)

onward {ℓ} :
    {V E : Type 0} {B : Type ℓ} (plan rest start : List V) (end : Outcome E B × List V)
    → Sent rest (onto plan start) end
    → Sent (plan ++ rest) start end
onward plan rest start (ok b, log) h = h ∙ sym (onto-append plan rest start)
onward plan rest start (err e, log) h = Stopped-late plan h
onward plan rest start (panic, log) h = Stopped-late plan h

after-Sent {ℓ κ} :
    {V E : Type 0} {A : Type ℓ} {B : Type κ} (plan rest start : List V) (end : Outcome E A × List V)
    (f : A → Run V E B)
    → Sent plan start end
    → ((a : A) → Sends (f a) rest)
    → Sent (plan ++ rest) start (after end f)
after-Sent plan rest start (ok a, log) f h k =
    onward plan rest start (f a log) (rw (sym h) ((k a).sends log))
after-Sent plan rest start (err e, log) f h k = Stopped-early rest h
after-Sent plan rest start (panic, log) f h k = Stopped-early rest h

-- one command after another
pub >>=-Sends {ℓ κ} :
    {V E : Type 0} {A : Type ℓ} {B : Type κ} {plan rest : List V} {m : Run V E A}
    {f : A → Run V E B}
    → Sends m plan
    → ((a : A) → Sends (f a) rest)
    → Sends (m >>= f) (plan ++ rest)
unfolding ◌>>=◌
>>=-Sends {plan = plan} {rest = rest} {m = m} {f = f} h k = record {
  sends = λ start. after-Sent plan rest start (m start) f (h.sends start) k;
}

pub lift-Sends {ℓ} : {V E : Type 0} {A : Type ℓ} (t : Outcome E A) → Sends {V = V} (lift t) []
unfolding lift
lift-Sends (ok a) = record { sends = λ start. refl }
lift-Sends (err e) = record { sends = λ start. ([], [], refl, refl) }
lift-Sends panic = record { sends = λ start. ([], [], refl, refl) }

answered-Sent {ℓ} :
    {V : Type 0} (E : Type 0) {A : Type ℓ} (v : V) (start : List V) (t : Attempt A)
    → Sent {E = E} (v ∷ []) start (unwrap_attempt t, v ∷ start)
answered-Sent E v start (done a) = refl
answered-Sent E v start (failed e) = (v ∷ [], [], refl, refl)

pub request-Sends {ℓ} :
    {V E : Type 0} {A : Type ℓ} (v : V) (answer : List V → Attempt A)
    → Sends {E = E} (request v answer) (v ∷ [])
unfolding request
request-Sends {E = E} v answer = record {
  sends = λ start. answered-Sent E v start (answer (v ∷ start));
}

-- A value that is there, or a panic before anything is sent.
pub unwrap-Sends {ℓ κ} :
    {V E : Type 0} {A : Type ℓ} {B : Type κ} {plan : List V} (f : A → Run V E B) (a : A)
    → Sends (f a) plan
    → Sends (lift (ok a) >>= f) plan
unfolding lift ◌>>=◌
unwrap-Sends f a h = record { sends = h.sends }

pub panic-Sends {ℓ κ} :
    {V E : Type 0} {A : Type ℓ} {B : Type κ} (plan : List V) (f : A → Run V E B)
    → Sends (lift {V = V} panic >>= f) plan
unfolding lift ◌>>=◌
panic-Sends plan f = record { sends = λ start. ([], plan, refl, refl) }

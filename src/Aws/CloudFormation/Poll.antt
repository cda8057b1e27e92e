-- ===== src/Aws/CloudFormation/Poll.antt =====
-- Polling ends, with the answer of the first round that decides; a returned stack is as desired.
use avalanche_ops.Prelude.{
  ℕ, zero, suc, ◌+◌, ◌<◌, ◌≤◌, ◌≡◌, refl, String, Option, none, some, List, arith, ◌⊎◌, inl, inr,
  Bool-cases, ltb, Option-cases, ℕ_discrete, [], true, ◌∷◌, ap, eq_iff,
}
use avalanche_ops.Outcome.{Outcome, ok}
use avalanche_ops.Aws.Error.{Error}
use avalanche_ops.Aws.Sdk.{Answer, success, failure}
use avalanche_ops.Aws.CloudFormation.{
  StackStatus, other_status, StackInfo, Stack, ServiceError, status_eq, round, poll_from,
  poll_stack, wait, timed_out, stack_of, by_status, by_fields,
}

status_eq-eq : (a b : StackStatus) → status_eq a b ≡ true → a ≡ b
unfolding status_eq
status_eq-eq (other_status s) (other_status t) h = ap other_status ((eq_iff s t).0 h)
status_eq-eq a b h = ground arith

module _ (name : String) (desired : StackStatus) where
  by_status-ok :
      (info : StackInfo) (id : String) (current : StackStatus) (s : Stack)
      → by_status name desired info id current ≡ some (ok s)
      → (s.name ≡ name) × (s.status ≡ desired)
  unfolding stack_of
  by_status-ok info id current s h = ground (arith, status_eq-eq current desired)

  by_fields-ok :
      (info : StackInfo) (id : Option String) (current : Option StackStatus) (s : Stack)
      → by_fields name desired info id current ≡ some (ok s)
      → (s.name ≡ name) × (s.status ≡ desired)
  by_fields-ok info (some id) (some current) s h = by_status-ok info id current s h
  by_fields-ok info _ _ s h = cc

  round-ok :
      (a : Answer ServiceError (Option (List StackInfo))) (s : Stack)
      → round name desired a ≡ some (ok s)
      → (s.name ≡ name) × (s.status ≡ desired)
  unfolding round
  round-ok (success none) s h = cc
  round-ok (success (some [])) s h = cc
  round-ok (success (some (info ∷ []))) s h = by_fields-ok info info.stack_id info.stack_status s h
  round-ok (success (some (info ∷ other ∷ more))) s h = cc
  round-ok (failure e debug) s h = ground arith

-- The answer of the first round that decides: no earlier round was late or decided, and this one is
-- late, or the answer to its request decides.
pub record Decides (name : String) (desired : StackStatus) (timeout : ℕ) (elapsed : ℕ → ℕ)
    (describe : ℕ → Answer ServiceError (Option (List StackInfo))) (start k : ℕ)
    (r : Outcome Error Stack) : Type 0 where
  pub from : start ≤ k
  pub before :
      (j : ℕ) → start ≤ j → j < k → (elapsed j ≤ timeout) × (round name desired (describe j) ≡ none)
  pub here :
      ((timeout < elapsed k) × (r ≡ timed_out name desired))
      ⊎ ((elapsed k ≤ timeout) × (round name desired (describe k) ≡ some r))

module _ (name : String) (desired : StackStatus) (timeout : ℕ) (elapsed : ℕ → ℕ)
    (describe : ℕ → Answer ServiceError (Option (List StackInfo))) where
  abbrev First : ℕ → ℕ → Outcome Error Stack → Type 0
  First = Decides name desired timeout elapsed describe

  Decides-late : (cnt : ℕ) → timeout < elapsed cnt → First cnt cnt (timed_out name desired)
  Decides-late cnt h = record {
    from = omega arith;
    before = λ j a b. absurd (omega arith);
    here = inl (h, refl);
  }

  Decides-now :
      (cnt : ℕ) (r : Outcome Error Stack)
      → elapsed cnt ≤ timeout
      → round name desired (describe cnt) ≡ some r
      → First cnt cnt r
  Decides-now cnt r h e = record {
    from = omega arith;
    before = λ j a b. absurd (omega arith);
    here = inr (h, e);
  }

  Decides-later :
      (cnt k : ℕ) (r : Outcome Error Stack)
      → elapsed cnt ≤ timeout
      → round name desired (describe cnt) ≡ none
      → First (cnt + 1) k r
      → First cnt k r
  Decides-later cnt k r h e d = record {
    from = omega (arith, d.from);
    before = λ j a b. elim (ℕ_discrete j cnt) [
      | yes p ↦ rw p (h, e)
      | no p ↦ d.before j (omega arith) b
    ];
    here = d.here;
  }

  module _ (interval : ℕ) (slept : (k : ℕ) → elapsed k + wait interval k ≤ elapsed (k + 1))
      (waits : 0 < interval) where
    elapsed-ge : (k : ℕ) → k ≤ elapsed k
    unfolding wait
    elapsed-ge zero = omega arith
    elapsed-ge (suc k) = ground (arith, slept k, elapsed-ge k)

    poll_from_lem :
        (fuel cnt : ℕ)
        → cnt ≤ timeout + 1
        → timeout + 1 < fuel + cnt
        → (r : Outcome Error Stack) × (k : ℕ) × (poll_from name desired timeout elapsed describe
              fuel cnt
            ≡ some r)
          × First cnt k r
    unfolding poll_from
    poll_from_lem zero cnt h l = absurd (omega arith)
    poll_from_lem (suc fuel) cnt h l = elim (Bool-cases (ltb timeout (elapsed cnt))) [
      | inl late ↦ (timed_out name desired, cnt, rw late, Decides-late cnt (ground arith))
      | inr early ↦ elim (Option-cases (round name desired (describe cnt))) [
        | inr (r, e) ↦ (r, cnt, rw (early, e), Decides-now cnt r (ground arith) e)
        | inl e ↦
            let (r, k, p, d) =
              poll_from_lem fuel (cnt + 1) (ground (arith, elapsed-ge cnt)) (omega arith) in
            (r, k, rw (early, e, p), Decides-later cnt k r (ground arith) e d)
      ]
    ]

    -- If each round sleeps at least its wait, and the interval is positive, polling returns, and
    -- what it returns is the answer of the first round that decides.
    pub poll_stack-Decides :
        (r : Outcome Error Stack) × (k : ℕ) × (poll_stack name desired timeout elapsed describe
          ≡ some r)
        × First 0 k r
    unfolding poll_stack
    poll_stack-Decides = poll_from_lem (timeout + 2) 0 (omega arith) (omega arith)

  poll_from-ok :
      (fuel cnt : ℕ) (s : Stack)
      → poll_from name desired timeout elapsed describe fuel cnt ≡ some (ok s)
      → (s.name ≡ name) × (s.status ≡ desired)
  unfolding poll_from timed_out
  poll_from-ok zero cnt s h = cc
  poll_from-ok (suc fuel) cnt s h =
      ground (arith, poll_from-ok fuel (cnt + 1) s, round-ok name desired (describe cnt) s)

  -- A stack that polling returns has the name that was asked for, and the desired status.
  pub poll_stack-ok :
      (s : Stack)
      → poll_stack name desired timeout elapsed describe ≡ some (ok s)
      → (s.name ≡ name) × (s.status ≡ desired)
  unfolding poll_stack
  poll_stack-ok s h = poll_from-ok (timeout + 2) 0 s h

-- ===== src/Aws/CloudFormation/Tests.antt =====
-- Polls of a stack with a clock that advances by each wait: the theorems at concrete inputs, and runs.
use avalanche_ops.Prelude.{
  ℕ, zero, suc, ◌+◌, ◌≤◌, ◌≡◌, refl, Option, none, some, List, [], ◌∷◌, arith, ltb, if◌then◌else◌,
  String, ◌*◌, false, true,
}
use avalanche_ops.Outcome.{Outcome, ok, err}
use avalanche_ops.Aws.Error.{Error, other}
use avalanche_ops.Aws.Sdk.{Answer, success, failure, service_error}
use avalanche_ops.Aws.CloudFormation.{
  StackStatus, create_complete, create_in_progress, delete_complete, create_failed, StackInfo,
  Stack, ServiceError, validation_error, wait, poll_stack, poll_from, round, status_eq,
  is_error_does_not_exist, timed_out,
}
use avalanche_ops.Aws.CloudFormation.Poll.{Decides, poll_stack-Decides, poll_stack-ok}

abbrev asked : StackStatus → Answer ServiceError (Option (List StackInfo))
asked status =
    success
      (some (record { stack_id = some "arn"; stack_status = some status; outputs = some [] } ∷ []))

abbrev creating : ℕ → Answer ServiceError (Option (List StackInfo))
creating k = if ltb k 2 then asked create_in_progress else asked create_complete

abbrev failing : ℕ → Answer ServiceError (Option (List StackInfo))
failing k = if ltb k 1 then asked create_in_progress else asked create_failed

abbrev gone : ℕ → Answer ServiceError (Option (List StackInfo))
gone k = failure (service_error validation_error "Stack s does not exist") "ServiceError"

-- a second for the first wait, an interval of 2 for the others
abbrev clock : ℕ → ℕ
clock zero = 0
clock (suc k) = 1000000000 + k * 2

clock_slept : (k : ℕ) → clock k + wait 2 k ≤ clock (k + 1)
unfolding wait
clock_slept zero = omega arith
clock_slept (suc k) = ground arith

abbrev created : Stack
created = record { name = "s"; id = "arn"; status = create_complete; outputs = some [] }

poll_creates : poll_from "s" create_complete 1000000005 clock creating 9 0 ≡ some (ok created)
unfolding poll_from round status_eq
poll_creates = refl

poll_fails :
    poll_from "s" create_complete 1000000005 clock failing 9 0
    ≡ some (err (other "stack create failed" false))
unfolding poll_from round status_eq
poll_fails = refl

poll_deleted :
    poll_from "s" delete_complete 1000000005 clock gone 9 0
    ≡ some (ok (record { name = "s"; id = ""; status = delete_complete; outputs = none }))
unfolding poll_from round status_eq is_error_does_not_exist
poll_deleted = refl

poll_times_out :
    poll_from "s" create_complete 0 clock (λ k. asked create_in_progress) 9 0
    ≡ some (err (other "failed to poll stack s in time" true))
unfolding poll_from round status_eq timed_out
poll_times_out = refl

poll_stack-Decides_example :
    (r : Outcome Error Stack) × (k : ℕ) × (poll_stack "s" create_complete 1000000005 clock creating
      ≡ some r)
    × Decides "s" create_complete 1000000005 clock creating 0 k r
poll_stack-Decides_example =
    poll_stack-Decides "s" create_complete 1000000005 clock creating 2 clock_slept (omega arith)

poll_from_3 :
    poll_stack "s" delete_complete 1 clock gone
    ≡ some (ok (record { name = "s"; id = ""; status = delete_complete; outputs = none }))
unfolding poll_stack status_eq is_error_does_not_exist
poll_from_3 = refl

poll_stack-ok_example : (◌≡◌ {A = String} "s" "s") × (delete_complete ≡ delete_complete)
poll_stack-ok_example =
    poll_stack-ok "s" delete_complete 1 clock gone
      (record { name = "s"; id = ""; status = delete_complete; outputs = none }) poll_from_3

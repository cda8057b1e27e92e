-- ===== src/Aws/CloudFormation.antt =====
-- src/aws/cloudformation.rs: creating, deleting and polling a stack.
-- The SDK's client is a parameter; a poll is given the answer to each `describe_stacks` in order, and
-- the time that has passed at the head of each round, in nanoseconds.
pub mod Poll
mod Tests
use avalanche_ops.Prelude.{
  ℕ, zero, suc, ◌+◌, String, Bool, false, true, not, ◌&&◌, Option, none, some, List, [], ◌∷◌, ◌==◌,
  ltb, if◌then◌else◌, str_eq,
}
use avalanche_ops.Outcome.{Outcome, ok, err, panic, ◌>>=◌, unwrap}
use avalanche_ops.Text.{contains, format}
use avalanche_ops.Aws.Error.{Error, api, other}
use avalanche_ops.Aws.Sdk.{
  SdkError, service_error, Answer, success, failure, is_error_retryable, api_failure,
}

-- The statuses of the SDK that the program names and some more, and any other by its text; they are
-- tested for equality only.
pub data StackStatus : Type 0 where
  create_complete create_failed create_in_progress : StackStatus
  delete_complete delete_failed delete_in_progress : StackStatus
  rollback_complete rollback_failed rollback_in_progress : StackStatus
  update_complete update_in_progress update_rollback_complete : StackStatus
  other_status : (text : String) → StackStatus

tag : StackStatus → ℕ
tag create_complete = 0
tag create_failed = 1
tag create_in_progress = 2
tag delete_complete = 3
tag delete_failed = 4
tag delete_in_progress = 5
tag rollback_complete = 6
tag rollback_failed = 7
tag rollback_in_progress = 8
tag update_complete = 9
tag update_in_progress = 10
tag update_rollback_complete = 11
tag (other_status text) = 12

-- `StackStatus::eq`
unfoldable pub status_eq : StackStatus → StackStatus → Bool
unfolding tag
status_eq (other_status s) (other_status t) = str_eq s t
status_eq a b = tag a == tag b

pub record StackOutput : Type 0 where
  pub output_key : Option String
  pub output_value : Option String

-- `Stack` of the source
pub record Stack : Type 0 where
  pub name : String
  pub id : String
  pub status : StackStatus
  pub outputs : Option (List StackOutput)

-- A stack in a response of the SDK, with the fields that the source reads.
pub record StackInfo : Type 0 where
  pub stack_id : Option String
  pub stack_status : Option StackStatus
  pub outputs : Option (List StackOutput)

-- The service's errors are told apart by their text alone.
pub data ServiceError : Type 0 where
  validation_error : ServiceError

-- `is_error_delete_stack_does_not_exist` and `is_error_describe_stacks_does_not_exist`
unfoldable pub is_error_does_not_exist : SdkError ServiceError → Bool
is_error_does_not_exist (service_error e debug) = contains debug "does not exist"
is_error_does_not_exist e = false

stack_of : String → String → StackStatus → Option (List StackOutput) → Stack
stack_of name id status outputs = record {
  name = name;
  id = id;
  status = status;
  outputs = outputs;
}

-- `Manager::create_stack`, from the answer to the request
unfoldable pub create_stack : String → Answer ServiceError (Option String) → Outcome Error Stack
unfolding stack_of
create_stack stack_name (success resp) = do
  stack_id ← unwrap resp
  ok (stack_of stack_name stack_id create_in_progress none)
create_stack stack_name (failure e debug) =
    api_failure "failed create_stack" debug (is_error_retryable e)

-- `Manager::delete_stack`, from the answer to the request
unfoldable pub delete_stack : String → Answer ServiceError (Unit {0}) → Outcome Error Stack
unfolding stack_of
delete_stack stack_name (success _) = ok (stack_of stack_name "" delete_in_progress none)
delete_stack stack_name (failure e debug) =
    if not (is_error_does_not_exist e)
    then api_failure "failed schedule_key_deletion" debug (is_error_retryable e)
    else ok (stack_of stack_name "" delete_complete none)

module _ (stack_name : String) (desired_status : StackStatus) where
  -- The part of a round from the status on; `none` goes on to the next round.
  abbrev by_status : StackInfo → String → StackStatus → Option (Outcome Error Stack)
  by_status stack current_id current_status =
      if not (status_eq desired_status delete_complete) && status_eq current_status delete_complete
      then some (err (other "stack create/update failed thus deleted" false))
      else if status_eq desired_status create_complete && status_eq current_status create_failed
      then some (err (other "stack create failed" false))
      else if status_eq desired_status delete_complete && status_eq current_status delete_failed
      then some (err (other "stack delete failed" false))
      else if status_eq current_status desired_status
      then some (do
        outputs ← unwrap stack.outputs
        ok (stack_of stack_name current_id current_status (some outputs)))
      else none

  abbrev by_fields : StackInfo → Option String → Option StackStatus → Option (Outcome Error Stack)
  by_fields stack (some current_id) (some current_status) =
      by_status stack current_id current_status
  by_fields stack _ _ = some panic

  abbrev by_stacks : List StackInfo → Option (Outcome Error Stack)
  by_stacks (stack ∷ []) = by_fields stack stack.stack_id stack.stack_status
  by_stacks stacks = some (err (other "failed to find stack" false))

  -- One round of the loop, from the answer to `describe_stacks` on.
  pub round : Answer ServiceError (Option (List StackInfo)) → Option (Outcome Error Stack)
  unfolding stack_of
  round (success none) = some panic
  round (success (some stacks)) = by_stacks stacks
  round (failure e debug) =
      if is_error_does_not_exist e && status_eq desired_status delete_complete
      then some (ok (stack_of stack_name "" desired_status none))
      else some (api_failure "failed describe_stacks" debug (is_error_retryable e))

  pub timed_out : Outcome Error Stack
  timed_out = err (other (format ("failed to poll stack " ∷ stack_name ∷ " in time" ∷ [])) true)

  module _ (timeout : ℕ) (elapsed : ℕ → ℕ)
      (describe : ℕ → Answer ServiceError (Option (List StackInfo))) where
    -- The loop of `Manager::poll_stack` from round `cnt` on; `none` is out of fuel.
    pub poll_from : ℕ → ℕ → Option (Outcome Error Stack)
    poll_from zero cnt = none
    poll_from (suc fuel) cnt =
        let rest = poll_from fuel (cnt + 1) in
        let answered : Option (Outcome Error Stack) = elim (round (describe cnt)) [
          | none ↦ rest
          | some result ↦ some result
        ] in
        if ltb timeout (elapsed cnt) then some timed_out else answered

-- The wait of a round before it asks: a second at first, `interval` later.
unfoldable pub wait : ℕ → ℕ → ℕ
wait interval cnt = if cnt == 0 then 1000000000 else interval

-- `Manager::poll_stack`. A round waits at least a nanosecond, so `timeout + 2` rounds are enough.
unfoldable pub poll_stack :
    String
    → StackStatus
    → ℕ
    → (ℕ → ℕ)
    → (ℕ → Answer ServiceError (Option (List StackInfo)))
    → Option (Outcome Error Stack)
unfolding poll_from round timed_out
poll_stack stack_name desired_status timeout elapsed describe =
    poll_from stack_name desired_status timeout elapsed describe (timeout + 2) 0
